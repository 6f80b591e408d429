-- ===== src/Iomem/Snapshot.antt =====
-- The two tables of dirty bits: the caller of `default_get_dirty_bits` keeps the old one.
use d_risc_v_emulator_tinyem.Base.{
  ℕ, zero, suc, ◌+◌, ◌/◌, ◌%◌, ◌≤◌, ◌<◌, ◌≡◌, ◌≢◌, ◌∙◌, ◌⊎◌, inl, inr, refl, arith, Bool-cases,
  ◌==◌, true, false, bit-zero, bit_xor, List, [], ◌∷◌,
}
use d_risc_v_emulator_tinyem.Iomem.{
  PhysMemoryRange, Flush, dirty_word, phys_mem_set_dirty_bit, phys_mem_is_dirty_bit,
  default_get_dirty_bits, any_dirty,
}
use d_risc_v_emulator_tinyem.Iomem.Dirty.{page, is_dirty_digit}

-- A scan that finds nothing has seen only zeros.
any_dirty-false :
    (left i : ℕ) (words : ℕ → ℕ)
    → any_dirty left i words ≡ false
    → (j : ℕ) → i ≤ j
    → j < i + left
    → words j ≡ 0
unfolding any_dirty
any_dirty-false zero i words h j le lt = absurd (omega arith)
any_dirty-false (suc left) i words h j le lt =
    let clean : words i ≡ 0 = ground arith in
    let rest : any_dirty left (i + 1) words ≡ false = ground arith in
    elim (Bool-cases (j == i)) [
      | inl here ↦ let e : j ≡ i = ground arith in rw e clean
      | inr later ↦ any_dirty-false left (i + 1) words rest j (ground arith) (omega arith)
    ]

-- No page of the range has its dirty bit set.
abbrev pub NoneDirty : PhysMemoryRange → Type 0
NoneDirty pr = (i : ℕ) → i < pr.dirty_bits_size / 4 → dirty_word pr i ≡ 0

-- What the call returns and leaves behind, for word `i` of the table and the pages of the offsets
-- `a` and `b`.
pub record Snapshot (pr : PhysMemoryRange) (out : ℕ × PhysMemoryRange × List Flush) (i a b : ℕ)
    : Type 0 where
  pub returned : out.0 ≡ pr.dirty_bits_index
  pub kept : out.1.dirty_bits_tab out.0 i ≡ dirty_word pr i
  pub clean : phys_mem_is_dirty_bit out.1 b ≡ false
  pub apart : (phys_mem_set_dirty_bit out.1 a).dirty_bits_tab out.0 i ≡ out.1.dirty_bits_tab out.0 i
  pub flushed :
      (out.2 ≡ record { ram_addr = pr.phys_mem; ram_size = pr.org_size } ∷ [])
      ⊎ (pr.size ≡ 0)
      ⊎ NoneDirty pr

other_table : (i : ℕ) → i < 2 → (bit_xor i 1 ≢ i) × (bit_xor i 1 < 2)
other_table zero h = omega arith
other_table (suc zero) h = omega arith
other_table (suc (suc i)) h = absurd (omega arith)

-- In a range with dirty bits, whose table in use is 0 or 1, the caller gets the table that was
-- in use, with every word as it was; in the range the page of `b`, if the table covers it, is
-- then clean, setting the dirty bit of any page `a` no longer writes the caller's table, and
-- the write TLBs of the whole RAM are flushed unless the range is not mapped or no bit was set.
pub default_get_dirty_bits-Snapshot :
    (pr : PhysMemoryRange) (i a b : ℕ)
    → pr.has_dirty_bits ≡ true
    → pr.dirty_bits_index < 2
    → page b / 32 < pr.dirty_bits_size / 4
    → Snapshot pr (default_get_dirty_bits pr) i a b
unfolding default_get_dirty_bits
default_get_dirty_bits-Snapshot pr i a b on small h = record {
  returned = refl;
  kept = ground (arith, other_table pr.dirty_bits_index small);
  clean = is_dirty_digit _ b on ∙ ground (arith, bit-zero (page b % 32));
  apart = unfold phys_mem_set_dirty_bit in ground (arith, other_table pr.dirty_bits_index small);
  flushed = elim (Bool-cases (any_dirty (pr.dirty_bits_size / 4) 0 (dirty_word pr))) [
    | inl some_dirty ↦ elim (Bool-cases (pr.size == 0)) [
      | inl unmapped ↦ inr (inl (ground arith))
      | inr mapped ↦ inl (rw (some_dirty, mapped))
    ]
    | inr none_dirty ↦
        inr (
          inr (λ j k. any_dirty-false _ 0 (dirty_word pr) none_dirty j (omega arith) (omega arith)))
  ];
}
