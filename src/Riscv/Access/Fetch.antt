-- ===== src/Riscv/Access/Fetch.antt =====
-- riscv_cpu.c: the fetch of instructions, through the TLB and past it.
use d_risc_v_emulator_tinyem.Base.{
  Mem, ℕ, ◌+◌, ◌-◌, not, ◌==◌, if◌then◌else◌, Option, none, some, load_le,
}
use d_risc_v_emulator_tinyem.Iomem.{PhysMemoryRange, get_phys_mem_range}
use d_risc_v_emulator_tinyem.Riscv.State.{cause_fault_fetch, cause_fetch_page_fault}
use d_risc_v_emulator_tinyem.Riscv.Tlb.{update_tlb}
use d_risc_v_emulator_tinyem.Riscv.Mmu.{get_phys_addr, access_code}
use d_risc_v_emulator_tinyem.Riscv.Access.{
  Hart, raise_pending, tlb_idx_of, page_of, entry_for, host_of,
}

-- The host address of an instruction in the range that was found for it, or `none` for -1.
unfoldable pub insn_range :
    {D : Type 0} → Hart D → ℕ → ℕ → Option (ℕ × PhysMemoryRange) → Option ℕ × Hart D
insn_range h addr paddr none = (none, raise_pending h addr cause_fault_fetch)
insn_range h addr paddr (some (i, pr)) =
    let ptr = pr.phys_mem + (paddr - pr.addr) in
    if not pr.is_ram then (none, raise_pending h addr cause_fault_fetch) else (
      some ptr,
      record h {
        cpu = record h.cpu {
          tlb_code = update_tlb h.cpu.tlb_code (tlb_idx_of addr) (entry_for addr ptr);
        };
      },
    )

unfoldable pub insn_translated : {D : Type 0} → Hart D → ℕ → Option ℕ × Mem → Option ℕ × Hart D
insn_translated h addr (none, mem) =
    (none, raise_pending (record h { mem = mem }) addr cause_fetch_page_fault)
insn_translated h addr (some paddr, mem) =
    insn_range (record h { mem = mem }) addr paddr (get_phys_mem_range h.map paddr)

unfoldable pub target_read_insn_slow : {D : Type 0} → Hart D → ℕ → Option ℕ × Hart D
target_read_insn_slow h addr =
    insn_translated h addr (get_phys_addr h.cpu h.map h.mem addr access_code)

unfoldable pub load_insn : {D : Type 0} → Option ℕ × Hart D → Option ℕ × Hart D
load_insn (none, h) = (none, h)
load_insn (some ptr, h) = (some (load_le 2 h.mem ptr), h)

-- `target_read_insn_u16`: a parcel of an instruction at an even address.
unfoldable pub target_read_insn_u16 : {D : Type 0} → Hart D → ℕ → Option ℕ × Hart D
target_read_insn_u16 h addr =
    let e = h.cpu.tlb_code (tlb_idx_of addr) in
    load_insn
      (if e.vaddr == page_of addr then (some (host_of e addr), h) else target_read_insn_slow h addr)
