-- ===== src/Riscv/Access/Fill.antt =====
-- The slow paths fill the TLBs so that the fast paths find what they found.
use d_risc_v_emulator_tinyem.Base.{
  bit_and-le, ℕ, ◌-◌, ◌^◌, ◌≤◌, ◌<◌, ◌≡◌, ◌∙◌, inl, inr, ap, refl, arith, Bool-cases, ltb,
  if◌then◌else◌, Option, none, some, Mem, load_le, bit, bit_lt_two, bit_and, bit_not, bit-bit_and,
  bit-bit_not, bit_ones, bit_ext, lt_pow→bit, two_pow_lt, bit-zero, min,
}
use d_risc_v_emulator_tinyem.Iomem.{PhysMemoryRange}
use d_risc_v_emulator_tinyem.Riscv.State.{Tlb}
use d_risc_v_emulator_tinyem.Riscv.Tlb.{update_tlb}
use d_risc_v_emulator_tinyem.Riscv.Access.{Hart, tlb_idx_of, page_of, entry_for, host_of}
use d_risc_v_emulator_tinyem.Riscv.Access.Fetch.{
  insn_range, insn_translated, load_insn, target_read_insn_slow, target_read_insn_u16,
}
use mathlib.Core.Path.{subst}

-- An entry leads its own address to the host address that it was made from.
pub host_of-entry_for :
    (addr ptr : ℕ) → addr < 2 ^ 64 → ptr < 2 ^ 64 → host_of (entry_for addr ptr) addr ≡ ptr
host_of-entry_for addr ptr h k = omega arith

-- For an aligned access, the fast path compares the page.
pub hit_mask :
    (addr k : ℕ)
    → addr < 2 ^ 64
    → k ≤ 3
    → bit_and addr (2 ^ k - 1) ≡ 0
    → bit_and addr (bit_not 64 (bit_and (2 ^ 12 - 1) (bit_not 64 (2 ^ k - 1)))) ≡ page_of addr
hit_mask addr k h small aligned = bit_ext _ _ (λ i. digit i)
  where
    fits : 2 ^ k - 1 < 2 ^ 64
    fits = omega (arith, two_pow_lt {k = k} {w = 64} (omega arith))

    low : (i : ℕ) → min (bit addr i) (if ltb i k then 1 else 0) ≡ 0
    low i = ground (
      arith,
      bit-bit_and addr (2 ^ k - 1) i,
      bit_ones k i,
      ap (λ (t : ℕ). bit t i) aligned,
      bit-zero i,
    )

    digit :
        (i : ℕ)
        → bit (bit_and addr (bit_not 64 (bit_and (2 ^ 12 - 1) (bit_not 64 (2 ^ k - 1))))) i
          ≡ bit (page_of addr) i
    digit i = ground (
      arith,
      bit-bit_and addr (bit_not 64 (bit_and (2 ^ 12 - 1) (bit_not 64 (2 ^ k - 1)))) i,
      bit-bit_not 64 (bit_and (2 ^ 12 - 1) (bit_not 64 (2 ^ k - 1))) i
          (omega (arith, bit_and-le (2 ^ 12 - 1) (bit_not 64 (2 ^ k - 1)))),
      bit-bit_and (2 ^ 12 - 1) (bit_not 64 (2 ^ k - 1)) i,
      bit-bit_not 64 (2 ^ k - 1) i fits,
      bit_ones 12 i,
      bit_ones k i,
      bit-bit_and addr (bit_not 64 (2 ^ 12 - 1)) i,
      bit-bit_not 64 (2 ^ 12 - 1) i (omega arith),
      lt_pow→bit 64 addr i h,
      low i,
      bit_lt_two addr i,
    )

-- How a fetch past the TLB ends.
data Fetched {D : Type 0} (h : Hart D) (addr : ℕ) (r : Option ℕ × Hart D) : Type 0 where
  missed : r.0 ≡ none → Fetched h addr r
  filled :
      (ptr : ℕ)
      → r.0 ≡ some ptr
      → r.1.cpu.tlb_code ≡ update_tlb h.cpu.tlb_code (tlb_idx_of addr) (entry_for addr ptr)
      → Fetched h addr r

module _ {D : Type 0} (h : Hart D) (addr : ℕ) where
  insn_range-Fetched :
      (mem : Mem) (paddr : ℕ) (found : Option (ℕ × PhysMemoryRange))
      → Fetched h addr (insn_range (record h { mem = mem }) addr paddr found)
  unfolding insn_range
  insn_range-Fetched mem paddr none = missed refl
  insn_range-Fetched mem paddr (some (i, pr)) = elim (Bool-cases pr.is_ram) [
    | inl ram ↦ rw ram (filled _ refl refl)
    | inr io ↦ rw io (missed refl)
  ]

  insn_translated-Fetched : (t : Option ℕ × Mem) → Fetched h addr (insn_translated h addr t)
  unfolding insn_translated
  insn_translated-Fetched (none, mem) = missed refl
  insn_translated-Fetched (some paddr, mem) = insn_range-Fetched mem paddr _

  -- After a fetch past the TLB has found host address `ptr`, a fetch at the same address is a hit: it
  -- reads the two bytes at `ptr` and changes nothing.
  pub target_read_insn_u16-target_read_insn_slow :
      (ptr : ℕ) (h' : Hart D)
      → addr < 2 ^ 64
      → ptr < 2 ^ 64
      → target_read_insn_slow h addr ≡ (some ptr, h')
      → target_read_insn_u16 h' addr ≡ (some (load_le 2 h'.mem ptr), h')
  unfolding target_read_insn_u16 load_insn target_read_insn_slow
  target_read_insn_u16-target_read_insn_slow ptr h' small fits e =
      elim (subst (Fetched h addr) e (insn_translated-Fetched _)) [
        | missed none_found ↦ cc
        | filled p found tlb ↦
            let same : p ≡ ptr = cc in
            let entry : h'.cpu.tlb_code (tlb_idx_of addr) ≡ entry_for addr p =
              ap (λ (t : Tlb). t (tlb_idx_of addr)) tlb ∙ ground arith in
            ground (arith, entry, same, host_of-entry_for addr ptr small fits)
      ]
