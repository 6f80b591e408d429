-- ===== src/Riscv/Access/Tests.antt =====
-- A hart with RAM and a page table, and each theorem on it.
use d_risc_v_emulator_tinyem.Base.{
  Bool-cases, ◌∙◌, if◌then◌else◌, ℕ, ◌+◌, ◌*◌, ◌^◌, ◌≡◌, ◌⊎◌, inl, inr, refl, arith, true, false,
  none, some, [], ◌∷◌, Mem, load_le, store_le, tst,
}
use d_risc_v_emulator_tinyem.Iomem.{
  PhysMemoryRange, PhysMemoryMap, get_phys_mem_range, range_from, in_range,
}
use d_risc_v_emulator_tinyem.Riscv.State.{RiscvCpuState}
use d_risc_v_emulator_tinyem.Riscv.Init.{zeroed}
use d_risc_v_emulator_tinyem.Riscv.Mmu.{get_phys_addr, access_priv}
use d_risc_v_emulator_tinyem.Riscv.Mmu.Walk.{Translated, get_phys_addr-Translated}
use d_risc_v_emulator_tinyem.Riscv.Access.{
  Devices, Hart, MipCall, mip_set, mip_reset, Answer, value, read_aligned, read_range,
  read_translated, target_read_slow, target_read,
}
use d_risc_v_emulator_tinyem.Riscv.Access.Fetch.{
  insn_range, insn_translated, target_read_insn_slow, target_read_insn_u16,
}
use d_risc_v_emulator_tinyem.Riscv.Access.Fill.{target_read_insn_u16-target_read_insn_slow}
use d_risc_v_emulator_tinyem.Riscv.Access.Reload.{IsHosted, target_read-target_read_slow}

-- 64 KB of RAM at 0x80000000, at the host address 0x10000.
abbrev ram : PhysMemoryRange
ram = record {
  addr = 0x80000000;
  org_size = 0x10000;
  size = 0x10000;
  is_ram = true;
  devram_flags = 0;
  phys_mem = 0x10000;
  dirty_bits_size = 0;
  has_dirty_bits = false;
  dirty_bits_tab = λ _ _. 0;
  dirty_bits_index = 0;
  device = 0;
  devio_flags = 0;
}

abbrev ram_map : PhysMemoryMap
ram_map = ram ∷ []

-- The root of the page table maps the first 1 GB to 0x80000000, for user mode.
abbrev table : Mem
table = store_le 8 (λ _. 0) 0x10000 0x200000df

abbrev machine_cpu : RiscvCpuState
machine_cpu = record zeroed { priv = 3; cur_xlen = 64; mxl = 2 }

abbrev paged_cpu : RiscvCpuState
paged_cpu = record zeroed { priv = 0; cur_xlen = 64; mxl = 2; satp = 8 * 2 ^ 60 + 0x80000 }

abbrev ram_hart : Hart ℕ
ram_hart = record { cpu = machine_cpu; map = ram_map; mem = table; devices = 0 }

-- Devices that count their accesses and raise the machine's software interrupt at a write.
abbrev counted : Hart ℕ → MipCall → Answer ℕ
counted h call = record { devices = h.devices + 1; map = h.map; mem = h.mem; calls = call ∷ [] }

abbrev counting : Devices ℕ
counting = record {
  read_func = λ h _ offset _. (offset, counted h (mip_reset 8));
  write_func = λ h _ _ _ _. counted h (mip_set 8);
}

get_phys_addr-Translated_example :
    Translated paged_cpu ram_map table 0x1234 1 (get_phys_addr paged_cpu ram_map table 0x1234 1)
get_phys_addr-Translated_example =
    get_phys_addr-Translated paged_cpu ram_map table 0x1234 1 (omega arith)
      (inr (omega arith, omega arith)) (omega arith) (omega arith)

abbrev fetched : Hart ℕ
fetched = (target_read_insn_slow ram_hart 0x80000010).1

fetches : target_read_insn_slow ram_hart 0x80000010 ≡ (some 0x10010, fetched)
unfolding target_read_insn_slow insn_translated insn_range get_phys_addr access_priv
    get_phys_mem_range range_from in_range tst
fetches = refl

target_read_insn_u16-target_read_insn_slow_example :
    target_read_insn_u16 fetched 0x80000010 ≡ (some (load_le 2 fetched.mem 0x10010), fetched)
target_read_insn_u16-target_read_insn_slow_example =
    target_read_insn_u16-target_read_insn_slow ram_hart 0x80000010 0x10010 fetched (omega arith)
      (omega arith) fetches

abbrev loaded : Hart ℕ
loaded = (target_read_slow counting ram_hart 0x80000000 2).1

loads : target_read_slow counting ram_hart 0x80000000 2 ≡ (value 0x200000df, loaded)
unfolding target_read_slow read_aligned read_translated read_range get_phys_addr access_priv
    get_phys_mem_range range_from in_range tst load_le store_le
loads = refl

ram_found :
    (paddr : ℕ)
    → get_phys_mem_range ram_map paddr ≡ (if in_range ram paddr then some (0, ram) else none)
unfolding get_phys_mem_range range_from
ram_found paddr = refl

ram_map-IsHosted : IsHosted ram_map
ram_map-IsHosted paddr i pr e = elim (Bool-cases (in_range ram paddr)) [
  | inl holds ↦
      let found : get_phys_mem_range ram_map paddr ≡ some (0, ram) =
        ram_found paddr ∙ rw holds refl in
      let same : pr ≡ ram = cc in rw same (unfold in_range in ground (arith, holds))
  | inr miss ↦
      let lost : get_phys_mem_range ram_map paddr ≡ none = ram_found paddr ∙ rw miss refl in cc
]

target_read-target_read_slow_example :
    (loaded.cpu.tlb_read ≡ ram_hart.cpu.tlb_read)
    ⊎ (target_read counting loaded 0x80000000 2 ≡ (value 0x200000df, loaded))
target_read-target_read_slow_example =
    target_read-target_read_slow counting ram_hart 0x80000000 2 ram_map-IsHosted 0x200000df loaded
      (omega arith) (omega arith) refl loads
