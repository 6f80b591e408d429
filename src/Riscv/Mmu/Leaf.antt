-- ===== src/Riscv/Mmu/Leaf.antt =====
-- The leaf entries of a page table: what they permit, and the address and memory they give.
use d_risc_v_emulator_tinyem.Base.{
  ap₂, bit_or_halves, bit_masked, bit_ones, bit_shl, two_pow_lt, bit_mod, set_digit, bit_ext, ℕ,
  ◌+◌, ◌-◌, ◌*◌, ◌/◌, ◌%◌, ◌^◌, ◌≤◌, ◌<◌, ◌≡◌, ◌≢◌, ◌∙◌, ◌⊎◌, inl, inr, ap, refl, arith, Bool-cases,
  Bool, true, false, ◌&&◌, ◌||◌, ◌==◌, ltb, if◌then◌else◌, u64, tst, tst_lem, Mem, bit, bit_lt_two,
  bit_lem, bit_and, bit_or, bit_not, bit_and-mask, digit_of_shr, max, bit-bit_or, bit_shr,
}
use d_risc_v_emulator_tinyem.Iomem.{PhysMemoryMap}
use d_risc_v_emulator_tinyem.Riscv.State.{RiscvCpuState}
use native.Mathlib.Nat.{
  add-mul-mod_self_right, mod-eq_of_lt, add-mul-div_right, div-eq_of_lt, mod-lt, one-le-pow,
}
use d_risc_v_emulator_tinyem.Riscv.Mmu.{phys_read, phys_write, leaf_allows, need_write, used_pte}

-- What the digits of a leaf entry say of an access: 0 reads, 1 writes, 2 fetches.
pub record Permits (s : RiscvCpuState) (priv access pte : ℕ) : Type 0 where
  pub valid : bit pte 0 ≡ 1
  pub right : (bit pte (1 + access) ≡ 1) ⊎ ((access ≡ 0) × (bit s.mstatus 19 ≡ 1) × (bit pte 3 ≡ 1))
  pub not_write_only : (bit pte 2 ≡ 0) ⊎ (bit pte 1 ≡ 1)
  pub mode :
      (bit pte 4 ≡ 1) × ((priv ≢ 1) ⊎ (bit s.mstatus 18 ≡ 1)) ⊎ ((bit pte 4 ≡ 0) × (priv ≡ 1))

-- The digits X, W and R that the code takes out of an entry.
xwr_digit : (pte i : ℕ) → bit (bit_and (pte / 2 ^ 1) 7) i ≡ (if ltb i 3 then bit pte (1 + i) else 0)
xwr_digit pte i =
    ap (λ (t : ℕ). bit t i) (bit_and-mask (pte / 2 ^ 1) 3)
    ∙ bit_mod (pte / 2 ^ 1) 3 i
    ∙ ap (λ (t : ℕ). if ltb i 3 then t else 0) (bit_shr pte 1 i)

access_digit :
    (pte access : ℕ) (mxr : Bool)
    → access ≤ 2
    → let xwr = bit_and (pte / 2 ^ 1) 7 in
      bit_and ((if mxr then bit_or xwr (xwr / 2 ^ 2) else xwr) / 2 ^ access) 1
      ≡ (if mxr && access == 0 then max (bit pte 1) (bit pte 3) else bit pte (1 + access))
access_digit pte access false h =
    digit_of_shr (bit_and (pte / 2 ^ 1) 7) access ∙ ground (arith, xwr_digit pte access)
access_digit pte access true h =
    let xwr = bit_and (pte / 2 ^ 1) 7 in
    digit_of_shr (bit_or xwr (xwr / 2 ^ 2)) access
    ∙ bit-bit_or xwr (xwr / 2 ^ 2) access
    ∙ ground (arith, xwr_digit pte access, bit_shr xwr 2 access, xwr_digit pte (2 + access))

leaf_allows-Permits :
    (s : RiscvCpuState) (priv access pte : ℕ)
    → access ≤ 2
    → bit pte 0 ≡ 1
    → leaf_allows s priv access pte ≡ true
    → Permits s priv access pte
unfolding leaf_allows
leaf_allows-Permits s priv access pte small v h = record {
  valid = v;
  right = ground (
    arith,
    access_digit pte access (tst s.mstatus (2 ^ 19)) small,
    tst_lem s.mstatus 19,
    bit_lt_two pte (1 + access),
    bit_lt_two pte 1,
    bit_lt_two pte 3,
  );
  not_write_only = ground (arith, bit_and-mask (pte / 2 ^ 1) 3, bit_lem pte 1, bit_lem pte 2);
  mode = ground (arith, tst_lem pte 4, tst_lem s.mstatus 18, bit_lt_two pte 4);
}

-- An entry that the digits forbid to use is not let through.
pub Permits-leaf_allows :
    (s : RiscvCpuState) (priv access pte : ℕ)
    → access ≤ 2
    → leaf_allows s priv access pte ≡ false
    → Permits s priv access pte
    → ⊥
unfolding leaf_allows
Permits-leaf_allows s priv access pte small h p = ground (
  arith,
  p.right,
  p.not_write_only,
  p.mode,
  access_digit pte access (tst s.mstatus (2 ^ 19)) small,
  bit_and-mask (pte / 2 ^ 1) 3,
  bit_lem pte 1,
  bit_lem pte 2,
  tst_lem s.mstatus 19,
  tst_lem pte 4,
  tst_lem s.mstatus 18,
)

-- The entry at `slot` that a translation of `vaddr` to `paddr` has used, a leaf that maps a block of
-- `2 ^ shift` bytes, and the memory it leaves: the digit A of the entry is set, and D for a write.
pub record Granted (s : RiscvCpuState) (map : PhysMemoryMap) (m : Mem)
    (priv vaddr access slot shift paddr : ℕ) (m' : Mem) : Type 0 where
  pub permits : Permits s priv access (phys_read 8 map m slot)
  pub offset : paddr % 2 ^ shift ≡ vaddr % 2 ^ shift
  pub block : paddr / 2 ^ shift ≡ phys_read 8 map m slot / 2 ^ 10 * 2 ^ 12 % 2 ^ 64 / 2 ^ shift
  pub memory :
      ((m' ≡ m)
        × (bit (phys_read 8 map m slot) 6 ≡ 1)
        × ((access ≢ 1) ⊎ (bit (phys_read 8 map m slot) 7 ≡ 1)))
      ⊎ ((pte : ℕ) × (m' ≡ phys_write 8 map m slot pte)
          × ((i : ℕ)
              → bit pte i ≡ (
                  if i == 6 || (i == 7 && access == 1) then 1 else bit (phys_read 8 map m slot) i)))

used_digits :
    (access pte i : ℕ)
    → bit (used_pte access pte) i ≡ (if i == 6 || (i == 7 && access == 1) then 1 else bit pte i)
unfolding used_pte
used_digits access pte i = ground (arith, set_digit pte 6 i, set_digit (bit_or pte (2 ^ 6)) 7 i)

-- The address within a block, and the block.
joined :
    (v p k : ℕ)
    → p < 2 ^ 64
    → k < 64
    → bit_or (bit_and v (2 ^ k - 1)) (bit_and p (bit_not 64 (2 ^ k - 1)))
      ≡ v % 2 ^ k + p / 2 ^ k * 2 ^ k
joined v p k h g =
    ap₂ bit_or (bit_and-mask v k) (bit_ext _ _ (λ i. high_digits i))
    ∙ bit_or_halves k (v % 2 ^ k) (p / 2 ^ k) (mod-lt v (one-le-pow k 2 (omega arith)))
  where
    high_digits : (i : ℕ) → bit (bit_and p (bit_not 64 (2 ^ k - 1))) i ≡ bit (p / 2 ^ k * 2 ^ k) i
    high_digits i = ground (
      arith,
      bit_masked 64 p (2 ^ k - 1) i h (omega (arith, two_pow_lt {k = k} {w = 64} g)),
      bit_ones k i,
      bit_shl (p / 2 ^ k) k i,
      bit_shr p k (i - k),
      bit_lt_two p i,
    )

joined_offset : (v p k : ℕ) → (v % 2 ^ k + p / 2 ^ k * 2 ^ k) % 2 ^ k ≡ v % 2 ^ k
joined_offset v p k =
    let small = mod-lt v {m = 2 ^ k} (one-le-pow k 2 (omega arith)) in
    add-mul-mod_self_right (v % 2 ^ k) (p / 2 ^ k) (2 ^ k) ∙ mod-eq_of_lt small

joined_block : (v p k : ℕ) → (v % 2 ^ k + p / 2 ^ k * 2 ^ k) / 2 ^ k ≡ p / 2 ^ k
joined_block v p k =
    let positive = one-le-pow k 2 (omega arith) in
    let nothing : v % 2 ^ k / 2 ^ k ≡ 0 = div-eq_of_lt (mod-lt v {m = 2 ^ k} positive) in
    add-mul-div_right (v % 2 ^ k) (p / 2 ^ k) positive ∙ omega arith

-- One leaf.
pub leaf-Granted :
    (left : ℕ) (s : RiscvCpuState) (map : PhysMemoryMap) (m : Mem) (priv vaddr access slot : ℕ)
    → left < 5
    → access ≤ 2
    → let pte = phys_read 8 map m slot in
      let k = 12 + 9 * left in
      let p = u64 (pte / 2 ^ 10 * 2 ^ 12) in
      bit pte 0 ≡ 1
      → leaf_allows s priv access pte ≡ true
      → Granted s map m priv vaddr access slot k
          (bit_or (bit_and vaddr (2 ^ k - 1)) (bit_and p (bit_not 64 (2 ^ k - 1))))
          (if need_write access pte then phys_write 8 map m slot (used_pte access pte) else m)
leaf-Granted left s map m priv vaddr access slot few small v allows =
    let pte = phys_read 8 map m slot in
    let k = 12 + 9 * left in
    let p = u64 (pte / 2 ^ 10 * 2 ^ 12) in
    let j = joined vaddr p k (mod-lt _ (omega arith)) (omega arith) in
    record {
      permits = leaf_allows-Permits s priv access pte small v allows;
      offset = ap (λ (t : ℕ). t % 2 ^ k) j ∙ joined_offset vaddr p k;
      block = ap (λ (t : ℕ). t / 2 ^ k) j ∙ joined_block vaddr p k;
      memory = elim (Bool-cases (need_write access pte)) [
        | inl writes ↦ rw writes (inr (used_pte access pte, refl, used_digits access pte))
        | inr keeps ↦ rw keeps (
            inl (
              refl,
              unfold need_write in ground (arith, tst_lem pte 6, bit_lt_two pte 6),
              unfold need_write in ground (arith, tst_lem pte 7, bit_lt_two pte 7),
            ))
      ];
    }
