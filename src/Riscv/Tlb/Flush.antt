-- ===== src/Riscv/Tlb/Flush.antt =====
-- `riscv_cpu_flush_tlb_write_range_ram`: no write goes past the slow path into the range.
use d_risc_v_emulator_tinyem.Base.{
  ℕ, zero, suc, ◌+◌, ◌%◌, ◌^◌, ◌≤◌, ◌<◌, ◌≡◌, ◌∙◌, ◌⊎◌, inl, inr, refl, arith, Bool-cases, ◌==◌,
}
use d_risc_v_emulator_tinyem.Riscv.State.{TlbEntry, Tlb, RiscvCpuState, tlb_size}
use d_risc_v_emulator_tinyem.Riscv.Tlb.{
  no_vaddr, drop_if_inside, flush_range_from, flush_tlb_write_range_ram,
}

-- The host address of the first byte of the page that an entry maps.
abbrev pub entry_ptr : TlbEntry → ℕ
entry_ptr e = (e.mem_addend + e.vaddr) % 2 ^ 64

-- An entry that maps no page of the range.
abbrev pub IsOutside : ℕ → ℕ → TlbEntry → Type 0
IsOutside lo hi e = (e.vaddr ≡ no_vaddr) ⊎ (entry_ptr e < lo) ⊎ (hi ≤ entry_ptr e)

flush_before : (left i lo hi j : ℕ) (t : Tlb) → j < i → flush_range_from left i lo hi t j ≡ t j
unfolding flush_range_from
flush_before zero i lo hi j t h = refl
flush_before (suc left) i lo hi j t h =
    flush_before left (i + 1) lo hi j _ (omega arith) ∙ ground arith

flush_at :
    (left i lo hi j : ℕ) (t : Tlb)
    → i ≤ j
    → j < i + left
    → flush_range_from left i lo hi t j ≡ drop_if_inside lo hi (t j)
unfolding flush_range_from
flush_at zero i lo hi j t h k = absurd (omega arith)
flush_at (suc left) i lo hi j t h k = elim (Bool-cases (j == i)) [
  | inl here ↦
      let e : i ≡ j = ground arith in
      flush_before left (i + 1) lo hi j _ (ground arith) ∙ rw (here, e) refl
  | inr later ↦ flush_at left (i + 1) lo hi j _ (ground arith) (omega arith) ∙ rw later refl
]

-- What a flush of the range does to one entry.
abbrev pub Flushed : ℕ → ℕ → TlbEntry → TlbEntry → Type 0
Flushed lo hi e after =
    IsOutside lo hi after
    × ((IsOutside lo hi e × (after.vaddr ≡ e.vaddr))
        ⊎ ((lo ≤ entry_ptr e) × (entry_ptr e < hi) × (after.vaddr ≡ no_vaddr)))

drop-Flushed : (lo hi : ℕ) (e : TlbEntry) → Flushed lo hi e (drop_if_inside lo hi e)
drop-Flushed lo hi e = ground arith

-- After the flush no entry of the write TLB maps a page whose host address lies in the range;
-- an entry that mapped none keeps its address, and one that did maps nothing.
pub flush_tlb_write_range_ram_lem :
    (s : RiscvCpuState) (ram_ptr ram_size i : ℕ)
    → i < tlb_size
    → Flushed ram_ptr
        (ram_ptr + ram_size)
        (s.tlb_write i)
        ((flush_tlb_write_range_ram s ram_ptr ram_size).tlb_write i)
unfolding flush_tlb_write_range_ram
flush_tlb_write_range_ram_lem s p n i h =
    rw (flush_at tlb_size 0 p (p + n) i s.tlb_write (omega arith) (omega arith))
      (drop-Flushed p (p + n) (s.tlb_write i))
