-- ===== src/Cutils/Endian.antt =====
-- The byte-order helpers against the value of a run of bytes.
use d_risc_v_emulator_tinyem.Base.{
  ℕ, ◌+◌, ◌*◌, ◌%◌, ◌^◌, ◌<◌, ◌≡◌, ◌∙◌, ap, refl, arith, bit_or, bit_or_halves, Mem, store8,
  load_le, store_le, load_le-store_le, fun_ext,
}
use d_risc_v_emulator_tinyem.Cutils.{get_le32, put_le32}
use native.Mathlib.Nat.{mod-eq_of_lt}

-- Four bytes joined by `|`, lowest first.
bit_or_bytes :
    (a b c d : ℕ)
    → a < 256
    → b < 256
    → c < 256
    → bit_or (bit_or (bit_or a (b * 2 ^ 8)) (c * 2 ^ 16)) (d * 2 ^ 24)
      ≡ a + b * 2 ^ 8 + c * 2 ^ 16 + d * 2 ^ 24
bit_or_bytes a b c d ha hb hc =
    rw
      (
        bit_or_halves 8 a b ha,
        bit_or_halves 16 (a + b * 2 ^ 8) c (omega arith),
        bit_or_halves 24 (a + b * 2 ^ 8 + c * 2 ^ 16) d (omega arith),
      )
      refl

plus_two : (p : ℕ) → p + 1 + 1 ≡ p + 2
plus_two p = omega arith

plus_three : (p : ℕ) → p + 1 + 1 + 1 ≡ p + 3
plus_three p = omega arith

-- Every byte of the memory is a byte.
abbrev pub IsBytes : Mem → Type 0
IsBytes m = (q : ℕ) → m q < 256

-- `get_le32` reads the number that the four bytes from `p` make, lowest first.
pub get_le32-load_le : (m : Mem) (p : ℕ) → IsBytes m → get_le32 m p ≡ load_le 4 m p
unfolding get_le32 load_le
get_le32-load_le m p h =
    ap (λ (t : ℕ). t % 2 ^ 32) (bit_or_bytes _ _ _ _ (h p) (h (p + 1)) (h (p + 2)))
    ∙ omega (arith, h p, h (p + 1), h (p + 2), h (p + 3), ap m (plus_two p), ap m (plus_three p))

store8-IsBytes : (m : Mem) (p v : ℕ) → IsBytes m → IsBytes (store8 m p v)
store8-IsBytes m p v h q = ground (arith, h q)

-- `put_le32` writes the four bytes of the number, lowest first, and no other byte.
pub put_le32-store_le : (m : Mem) (p v : ℕ) → put_le32 m p v ≡ store_le 4 m p v
unfolding put_le32 store_le
put_le32-store_le m p v = fun_ext λ q. ground (arith, plus_two p, plus_three p)

put_le32-IsBytes : (m : Mem) (p v : ℕ) → IsBytes m → IsBytes (put_le32 m p v)
unfolding put_le32
put_le32-IsBytes m p v h =
    store8-IsBytes _ _ _ (store8-IsBytes _ _ _ (store8-IsBytes _ _ _ (store8-IsBytes m p v h)))

-- In a memory of bytes, the 32-bit number that `put_le32` writes at `p` is what `get_le32`
-- reads there.
pub get_le32-put_le32 :
    (m : Mem) (p v : ℕ) → IsBytes m → v < 2 ^ 32 → get_le32 (put_le32 m p v) p ≡ v
get_le32-put_le32 m p v h k =
    get_le32-load_le (put_le32 m p v) p (put_le32-IsBytes m p v h)
    ∙ ap (λ t. load_le 4 t p) (put_le32-store_le m p v)
    ∙ load_le-store_le 4 m p v
    ∙ mod-eq_of_lt k
