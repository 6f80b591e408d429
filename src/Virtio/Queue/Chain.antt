-- ===== src/Virtio/Queue/Chain.antt =====
-- The sizes of a chain of descriptors, and the chains that do not end.
use d_risc_v_emulator_tinyem.Base.{
  ◌<◌, ℕ, zero, suc, ◌+◌, ◌^◌, ◌≤◌, ◌≡◌, ◌∙◌, ap, refl, arith, Bool, true, false, u32,
  if◌then◌else◌, Option, none, some, List, [], ◌∷◌, length, Bool-cases, inl, inr,
}
use d_risc_v_emulator_tinyem.Virtio.Queue.{
  VirtioDesc, desc_len, desc_next, has_next, is_write, desc_at, write_size_from, rw_size_from,
  get_desc_rw_size,
}
use d_risc_v_emulator_tinyem.Virtio.{VirtioDevice}

-- The descriptors behind `desc`, itself the first, to the one that has no next.
pub data IsChain {D : Type 0} (s : VirtioDevice D) (queue_idx : ℕ)
    : VirtioDesc → List VirtioDesc → Type 0 where
  last : {desc : VirtioDesc} → has_next desc ≡ false → IsChain s queue_idx desc (desc ∷ [])
  next :
      {desc : VirtioDesc} {ds : List VirtioDesc}
      → has_next desc ≡ true
      → IsChain s queue_idx (desc_at s desc queue_idx (desc_next desc)) ds
      → IsChain s queue_idx desc (desc ∷ ds)

unfoldable pub total_len : List VirtioDesc → ℕ
total_len [] = 0
total_len (d ∷ ds) = desc_len d + total_len ds

-- The descriptors that the device reads come first.
unfoldable pub chain_reads : List VirtioDesc → List VirtioDesc
chain_reads [] = []
chain_reads (d ∷ ds) = let rest = chain_reads ds in if is_write d then [] else d ∷ rest

unfoldable pub chain_writes : List VirtioDesc → List VirtioDesc
chain_writes [] = []
chain_writes (d ∷ ds) = let rest = chain_writes ds in if is_write d then d ∷ ds else rest

unfoldable pub all_write : List VirtioDesc → Bool
all_write [] = true
all_write (d ∷ ds) = let rest = all_write ds in if is_write d then rest else false

-- What the two parts come to, unless a read descriptor stands behind a write one.
unfoldable pub chain_sizes : List VirtioDesc → Option (ℕ × ℕ)
chain_sizes ds =
    if all_write (chain_writes ds)
    then some (u32 (total_len (chain_reads ds)), u32 (total_len (chain_writes ds)))
    else none

module _ {D : Type 0} (s : VirtioDevice D) (queue_idx : ℕ) where
  write_size_from-all_write :
      (n : ℕ) (desc : VirtioDesc) (ds : List VirtioDesc) (sum : ℕ)
      → IsChain s queue_idx desc ds
      → length ds ≤ n
      → write_size_from n s queue_idx desc sum
        ≡ some (if all_write ds then some (u32 (sum + total_len ds)) else none)
  unfolding write_size_from all_write total_len
  write_size_from-all_write zero desc _ sum (last h) b = elim b [ ]
  write_size_from-all_write zero desc _ sum (next h c) b = elim b [ ]
  write_size_from-all_write (suc n) desc _ sum (last h) b = elim (Bool-cases (is_write desc)) [
    | inl e ↦ rw (e, h, write_size_from) (ap (λ (t : ℕ). some (some t)) (omega arith))
    | inr e ↦ rw (e, write_size_from) refl
  ]
  write_size_from-all_write (suc n) desc _ sum (next {ds = ds} h c) b =
      elim (Bool-cases (is_write desc)) [
        | inl e ↦
            rw (e, h, write_size_from)
              (write_size_from-all_write n _ ds _ c (omega arith)
                ∙ ap (λ (t : ℕ). some (if all_write ds then some t else none)) (omega arith))
        | inr e ↦ rw (e, write_size_from) refl
      ]

  rw_size_from-chain_sizes :
      (n : ℕ) (desc : VirtioDesc) (ds : List VirtioDesc) (sum : ℕ)
      → IsChain s queue_idx desc ds
      → length ds ≤ n
      → sum < 2 ^ 32
      → rw_size_from n s queue_idx desc sum
        ≡ some (
            if all_write (chain_writes ds)
            then some (u32 (sum + total_len (chain_reads ds)), u32 (total_len (chain_writes ds)))
            else none)
  unfolding rw_size_from all_write total_len chain_reads chain_writes
  rw_size_from-chain_sizes zero desc _ sum (last h) b k = elim b [ ]
  rw_size_from-chain_sizes zero desc _ sum (next h c) b k = elim b [ ]
  rw_size_from-chain_sizes (suc n) desc _ sum (last h) b k = elim (Bool-cases (is_write desc)) [
    | inl e ↦
        rw (e, rw_size_from, write_size_from-all_write (suc n) desc _ 0 (last h) b) (ground arith)
    | inr e ↦ rw (e, h, rw_size_from) (ap (λ (t : ℕ). some (some (t, 0))) (omega arith))
  ]
  rw_size_from-chain_sizes (suc n) desc _ sum (next {ds = ds} h c) b k =
      elim (Bool-cases (is_write desc)) [
        | inl e ↦
            rw (e, rw_size_from, write_size_from-all_write (suc n) desc _ 0 (next h c) b)
              (ground arith)
        | inr e ↦
            rw (e, h, rw_size_from)
              (rw_size_from-chain_sizes n _ ds _ c (omega arith) (omega arith)
                ∙ ap
                    (λ (t : ℕ). some (
                      if all_write (chain_writes ds)
                      then some (t, u32 (total_len (chain_writes ds)))
                      else none))
                    (omega arith))
      ]

  -- On a chain that ends, and with fuel for each of its descriptors, `get_desc_rw_size` returns
  -- the sum of the lengths of its read descriptors and that of its write descriptors, modulo 2^32,
  -- or -1 if a read descriptor stands behind a write one.
  pub get_desc_rw_size-chain_sizes :
      (fuel : ℕ) (desc : VirtioDesc) (desc_idx : ℕ) (ds : List VirtioDesc)
      → IsChain s queue_idx (desc_at s desc queue_idx desc_idx) ds
      → length ds ≤ fuel
      → get_desc_rw_size fuel desc s queue_idx desc_idx ≡ some (chain_sizes ds)
  unfolding get_desc_rw_size chain_sizes
  get_desc_rw_size-chain_sizes fuel desc desc_idx ds c b =
      rw_size_from-chain_sizes fuel _ ds 0 c b (omega arith)
      ∙ ap
          (λ (t : ℕ). some (
            if all_write (chain_writes ds)
            then some (u32 t, u32 (total_len (chain_writes ds)))
            else none))
          (omega arith)

  -- Descriptors that the device reads, each of which has a next among them.
  pub record IsEndless (P : VirtioDesc → Type 0) : Type 0 where
    pub is_read : (d : VirtioDesc) → P d → is_write d ≡ false
    pub goes_on : (d : VirtioDesc) → P d → has_next d ≡ true
    pub stays : (d : VirtioDesc) → P d → P (desc_at s d queue_idx (desc_next d))

  rw_size_from-IsEndless :
      (P : VirtioDesc → Type 0) (n : ℕ) (d : VirtioDesc) (sum : ℕ)
      → IsEndless P
      → P d
      → rw_size_from n s queue_idx d sum ≡ none
  unfolding rw_size_from
  rw_size_from-IsEndless P zero d sum v p = refl
  rw_size_from-IsEndless P (suc n) d sum v p =
      rw (v.is_read d p, v.goes_on d p, rw_size_from)
        (rw_size_from-IsEndless P n _ _ v (v.stays d p))

  -- A guest can make the device loop for ever: if the first descriptor of a chain is one of a set
  -- of read descriptors that is closed under `next`, `get_desc_rw_size` returns with no fuel.
  pub get_desc_rw_size-IsEndless :
      (P : VirtioDesc → Type 0) (desc : VirtioDesc) (desc_idx : ℕ)
      → IsEndless P
      → P (desc_at s desc queue_idx desc_idx)
      → (fuel : ℕ) → get_desc_rw_size fuel desc s queue_idx desc_idx ≡ none
  unfolding get_desc_rw_size
  get_desc_rw_size-IsEndless P desc desc_idx v p fuel = rw_size_from-IsEndless P fuel _ 0 v p
