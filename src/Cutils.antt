-- ===== src/Cutils.antt =====
-- cutils.h and cutils.c: integer helpers, byte order, and the growing buffer.
-- A pointer is an address of `Base.Mem`; the bytes it leads to are those of the memory.
mod Tests
pub mod Endian
pub mod Ctz
pub mod Dbuf
use d_risc_v_emulator_tinyem.Base.{
  ℕ, zero, suc, ◌+◌, ◌*◌, ◌/◌, ◌%◌, ◌^◌, bit_and, bit_or, Bool, not, ◌==◌, if◌then◌else◌, u8, u16,
  u32, u64, Mem, store8,
}

-- `ptr[0] | (ptr[1] << 8)`
unfoldable pub get_le16 : Mem → ℕ → ℕ
get_le16 m p = u16 (bit_or (m p) (m (p + 1) * 2 ^ 8))

unfoldable pub get_le32 : Mem → ℕ → ℕ
get_le32 m p =
    u32
      (bit_or (bit_or (bit_or (m p) (m (p + 1) * 2 ^ 8)) (m (p + 2) * 2 ^ 16)) (m (p + 3) * 2 ^ 24))

unfoldable pub get_le64 : Mem → ℕ → ℕ
get_le64 m p = bit_or (get_le32 m p) (u64 (get_le32 m (p + 4) * 2 ^ 32))

-- An assignment through `uint8_t *` keeps the low byte.
unfoldable pub put_le16 : Mem → ℕ → ℕ → Mem
put_le16 m p v = store8 (store8 m p v) (p + 1) (v / 2 ^ 8)

unfoldable pub put_le32 : Mem → ℕ → ℕ → Mem
put_le32 m p v =
    store8 (store8 (store8 (store8 m p v) (p + 1) (v / 2 ^ 8)) (p + 2) (v / 2 ^ 16)) (p + 3)
      (v / 2 ^ 24)

unfoldable pub put_le64 : Mem → ℕ → ℕ → Mem
put_le64 m p v = put_le32 (put_le32 m p (u32 v)) (p + 4) (u32 (v / 2 ^ 32))

unfoldable pub get_be32 : Mem → ℕ → ℕ
get_be32 m d =
    u32
      (bit_or (bit_or (bit_or (m d * 2 ^ 24) (m (d + 1) * 2 ^ 16)) (m (d + 2) * 2 ^ 8)) (m (d + 3)))

unfoldable pub put_be32 : Mem → ℕ → ℕ → Mem
put_be32 m d v =
    store8 (store8 (store8 (store8 m d (v / 2 ^ 24)) (d + 1) (v / 2 ^ 16)) (d + 2) (v / 2 ^ 8))
      (d + 3) v

unfoldable pub put_be64 : Mem → ℕ → ℕ → Mem
put_be64 m d v = put_be32 (put_be32 m d (u32 (v / 2 ^ 32))) (d + 4) (u32 v)

-- The loop of `ctz32` at `i`, with `left` rounds to go.
unfoldable pub ctz_from : ℕ → ℕ → ℕ → ℕ
ctz_from zero i a = 32
ctz_from (suc left) i a =
    let later = ctz_from left (i + 1) a in if not (bit_and (a / 2 ^ i) 1 == 0) then i else later

unfoldable pub ctz32 : ℕ → ℕ
ctz32 a = if a == 0 then 32 else ctz_from 32 0 a
