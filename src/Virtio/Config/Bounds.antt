-- ===== src/Virtio/Config/Bounds.antt =====
-- The accesses of the configuration space stay in it.
use d_risc_v_emulator_tinyem.Base.{
  ap₂, fun_ext, ℕ, suc, zero, ◌+◌, ◌%◌, ◌^◌, ◌≤◌, ◌<◌, ◌≡◌, ◌∙◌, ap, arith, ltb, leb, if◌then◌else◌,
  Bool, u16, some, Mem, store8, load_le, store_le, bit_or_halves,
}
use d_risc_v_emulator_tinyem.Cutils.{get_le16, put_le16}
use d_risc_v_emulator_tinyem.Cutils.Endian.{IsBytes, get_le32-load_le, put_le32-store_le}
use d_risc_v_emulator_tinyem.Virtio.Config.{virtio_config_read, virtio_config_write}
use d_risc_v_emulator_tinyem.Virtio.{VirtioDevice}

get_le16-load_le : (m : Mem) (p : ℕ) → IsBytes m → get_le16 m p ≡ load_le 2 m p
unfolding get_le16 load_le
get_le16-load_le m p h =
    ap (λ (t : ℕ). t % 2 ^ 16) (bit_or_halves 8 (m p) (m (p + 1)) (h p))
    ∙ omega (arith, h p, h (p + 1))

load_one : (m : Mem) (p : ℕ) → m p ≡ load_le 1 m p
unfolding load_le
load_one m p = omega arith

-- In a configuration space of bytes with 3 to 2^32 - 1 of them, a read of 1, 2 or 4 bytes gives the
-- little-endian number that they make if all of them lie in the space, and 0 if one does not.
pub virtio_config_read-load_le :
    {D : Type 0} (s : VirtioDevice D) (offset size_log2 : ℕ)
    → IsBytes s.config_space
    → 3 ≤ s.config_space_size
    → s.config_space_size < 2 ^ 32
    → size_log2 ≤ 2
    → let n = 2 ^ size_log2 in
      virtio_config_read s offset size_log2
      ≡ some (if leb (offset + n) s.config_space_size then load_le n s.config_space offset else 0)
unfolding virtio_config_read
virtio_config_read-load_le s offset zero h lo hi k =
    ap₂ (λ (c : Bool) (v : ℕ). some (if c then v else 0)) (ground arith)
      (load_one s.config_space offset)
virtio_config_read-load_le s offset (suc zero) h lo hi k =
    ap₂ (λ (c : Bool) (v : ℕ). some (if c then v else 0)) (ground arith)
      (get_le16-load_le s.config_space offset h)
virtio_config_read-load_le s offset (suc (suc zero)) h lo hi k =
    ap₂ (λ (c : Bool) (v : ℕ). some (if c then v else 0)) (ground arith)
      (get_le32-load_le s.config_space offset h)
virtio_config_read-load_le s offset (suc (suc (suc n))) h lo hi k = absurd (omega arith)

put_le16-store_le : (m : Mem) (p v : ℕ) → put_le16 m p (u16 v) ≡ store_le 2 m p v
unfolding put_le16 store_le
put_le16-store_le m p v = fun_ext λ q. ground arith

-- In a configuration space of 3 to 2^32 - 1 bytes, a write of 1, 2 or 4 bytes stores the number,
-- lowest byte first, and calls the device, if all of the bytes lie in the space, and else it
-- changes nothing.
pub virtio_config_write-store_le :
    {D : Type 0} (config_write : VirtioDevice D → VirtioDevice D) (s : VirtioDevice D)
    (offset val size_log2 : ℕ)
    → 3 ≤ s.config_space_size
    → s.config_space_size < 2 ^ 32
    → size_log2 ≤ 2
    → let n = 2 ^ size_log2 in
      virtio_config_write config_write s offset val size_log2 ≡ (
        if leb (offset + n) s.config_space_size
        then config_write (record s { config_space = store_le n s.config_space offset val })
        else s)
unfolding virtio_config_write store_le
virtio_config_write-store_le config_write s offset val zero lo hi k =
    let same : ltb offset s.config_space_size ≡ leb (offset + 1) s.config_space_size =
      ground arith in
    ap
      (λ (c : Bool).
        if c
        then config_write (record s { config_space = store8 s.config_space offset val })
        else s)
      same
virtio_config_write-store_le config_write s offset val (suc zero) lo hi k =
    ap₂ (λ (c : Bool) (m : Mem). if c then config_write (record s { config_space = m }) else s)
      (ground arith) (put_le16-store_le s.config_space offset val)
virtio_config_write-store_le config_write s offset val (suc (suc zero)) lo hi k =
    ap₂ (λ (c : Bool) (m : Mem). if c then config_write (record s { config_space = m }) else s)
      (ground arith) (put_le32-store_le s.config_space offset val)
virtio_config_write-store_le config_write s offset val (suc (suc (suc n))) lo hi k =
    absurd (omega arith)
