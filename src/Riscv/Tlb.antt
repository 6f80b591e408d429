-- ===== src/Riscv/Tlb.antt =====
-- riscv_cpu.c: emptying the TLBs.
pub mod Coherence
pub mod Flush
use d_risc_v_emulator_tinyem.Base.{
  ℕ, zero, suc, ◌+◌, ◌-◌, ◌%◌, ◌^◌, ◌<◌, ◌≡◌, refl, arith, ltb, leb, ◌==◌, ◌&&◌, not, if◌then◌else◌,
}
use d_risc_v_emulator_tinyem.Riscv.State.{TlbEntry, Tlb, RiscvCpuState, tlb_size}

-- `(target_ulong)-1`, the address of an unused entry.
abbrev pub no_vaddr : ℕ
no_vaddr = 2 ^ 64 - 1

abbrev pub update_tlb : Tlb → ℕ → TlbEntry → Tlb
update_tlb t i e j = if j == i then e else t j

-- `t[i].vaddr = -1` for `i` from `i` on, `left` rounds.
unfoldable pub clear_from : ℕ → ℕ → Tlb → Tlb
clear_from zero i t = t
clear_from (suc left) i t =
    clear_from left (i + 1)
      (update_tlb t i (record { vaddr = no_vaddr; mem_addend = (t i).mem_addend }))

unfoldable pub tlb_init : RiscvCpuState → RiscvCpuState
tlb_init s = record s {
  tlb_read = clear_from tlb_size 0 s.tlb_read;
  tlb_write = clear_from tlb_size 0 s.tlb_write;
  tlb_code = clear_from tlb_size 0 s.tlb_code;
}

unfoldable pub tlb_flush_all : RiscvCpuState → RiscvCpuState
tlb_flush_all s = tlb_init s

unfoldable pub tlb_flush_vaddr : RiscvCpuState → ℕ → RiscvCpuState
tlb_flush_vaddr s vaddr = tlb_flush_all s

-- One round of the loop below, on the entry `e`.
abbrev pub drop_if_inside : ℕ → ℕ → TlbEntry → TlbEntry
drop_if_inside ram_ptr ram_end e =
    let ptr = (e.mem_addend + e.vaddr) % 2 ^ 64 in
    if not (e.vaddr == no_vaddr) && (leb ram_ptr ptr && ltb ptr ram_end)
    then record { vaddr = no_vaddr; mem_addend = e.mem_addend }
    else e

unfoldable pub flush_range_from : ℕ → ℕ → ℕ → ℕ → Tlb → Tlb
flush_range_from zero i ram_ptr ram_end t = t
flush_range_from (suc left) i ram_ptr ram_end t =
    flush_range_from left (i + 1) ram_ptr ram_end
      (update_tlb t i (drop_if_inside ram_ptr ram_end (t i)))

-- `riscv_cpu_flush_tlb_write_range_ram`; the range does not reach the end of the address space.
unfoldable pub flush_tlb_write_range_ram : RiscvCpuState → ℕ → ℕ → RiscvCpuState
flush_tlb_write_range_ram s ram_ptr ram_size = record s {
  tlb_write = flush_range_from tlb_size 0 ram_ptr (ram_ptr + ram_size) s.tlb_write;
}
