-- ===== src/Riscv/Tests.antt =====
-- Concrete harts, and each theorem on one of them.
use d_risc_v_emulator_tinyem.Base.{
  ℕ, ◌+◌, ◌*◌, ◌^◌, ◌<◌, ◌≡◌, ◌⊎◌, inl, refl, arith, true, false, some, tst, ◌==◌, ◌&&◌, ◌||◌,
  if◌then◌else◌, ◌/◌, ◌%◌, false, bit,
}
use d_risc_v_emulator_tinyem.Riscv.State.{RiscvCpuState}
use d_risc_v_emulator_tinyem.Riscv.Init.{zeroed, riscv_cpu_init}
use d_risc_v_emulator_tinyem.Riscv.Tlb.Coherence.{KeepsCoherent, SameTlbs}
use d_risc_v_emulator_tinyem.Riscv.Tlb.Flush.{flush_tlb_write_range_ram_lem}
use d_risc_v_emulator_tinyem.Riscv.Mstatus.Sxl.{set_mstatus-sxl_unchecked}
use d_risc_v_emulator_tinyem.Riscv.Csr.{csr_of, csr_read, read_csr, csr_write}
use d_risc_v_emulator_tinyem.Riscv.Csr.Coherence.{csr_write-KeepsCoherent}
use d_risc_v_emulator_tinyem.Riscv.Csr.Isolation.{SameMachine, csr_write-SameMachine}
use d_risc_v_emulator_tinyem.Riscv.Trap.{raise_exception2, handle_sret, handle_mret, delegated}
use d_risc_v_emulator_tinyem.Riscv.Trap.Entry.{EnteredS, raise_exception2-EnteredS}
use d_risc_v_emulator_tinyem.Riscv.Invariant.{IsValid, riscv_cpu_init-IsValid}
use d_risc_v_emulator_tinyem.Riscv.Steps.{here, next, csr, Reaches-IsValid}
use d_risc_v_emulator_tinyem.Riscv.Tlb.{tlb_init, flush_tlb_write_range_ram}
use d_risc_v_emulator_tinyem.Riscv.Tlb.Flush.{Flushed}
use d_risc_v_emulator_tinyem.Riscv.Mstatus.{set_mstatus, set_priv}
use d_risc_v_emulator_tinyem.Riscv.Mstatus.Write.{uxl_valid}
use d_risc_v_emulator_tinyem.Riscv.Trap.{raise_exception}
use d_risc_v_emulator_tinyem.Riscv.Trap.Fields.{mpp_of}
use d_risc_v_emulator_tinyem.Riscv.Trap.Return.{
  Resumed, handle_sret-raise_exception2, handle_mret-raise_exception2,
}
use d_risc_v_emulator_tinyem.Riscv.Trap.Coherence.{
  raise_exception2-KeepsCoherent, raise_exception2-stale,
}
use d_risc_v_emulator_tinyem.Riscv.Irq.{raise_interrupt}
use d_risc_v_emulator_tinyem.Riscv.Irq.Pending.{IsIrqState, MayTake, IsFirst, raise_interrupt_lem}

-- A user program with FS on, page faults and the timer interrupt handed to the supervisor.
abbrev user_hart : RiscvCpuState
user_hart = record zeroed {
  pc = 0x10002;
  priv = 0;
  cur_xlen = 64;
  mxl = 2;
  mstatus = 2 ^ 33 + 2 ^ 35 + 2 ^ 13 + 2 ^ 5 + 2 ^ 1;
  medeleg = 2 ^ 13;
  mideleg = 2 ^ 5;
  mie = 2 ^ 5 + 2 ^ 7;
  mip = 2 ^ 5 + 2 ^ 7;
  stvec = 0x80000000;
  mtvec = 0x1000;
}

abbrev machine_hart : RiscvCpuState
machine_hart = record user_hart { priv = 3 }

abbrev supervisor_hart : RiscvCpuState
supervisor_hart = record user_hart { priv = 1; sscratch = 7; satp = 0 }

csr_write-KeepsCoherent_example : KeepsCoherent user_hart (csr_write user_hart 0x300 (2 ^ 17)).1
csr_write-KeepsCoherent_example =
    csr_write-KeepsCoherent user_hart 0x300 (2 ^ 17) (omega arith) (omega arith)

Reaches-IsValid_example : IsValid (csr_write riscv_cpu_init 0x305 0x80000001).1
Reaches-IsValid_example =
    Reaches-IsValid (next here (csr riscv_cpu_init 0x305 0x80000001 (omega arith)))

reads_sscratch : csr_read supervisor_hart 0x140 true ≡ some 7
unfolding csr_read read_csr csr_of
reads_sscratch = refl

csr_write-SameMachine_example : SameMachine supervisor_hart (csr_write supervisor_hart 0x140 5).1
csr_write-SameMachine_example =
    csr_write-SameMachine supervisor_hart 0x140 5 true (omega arith) (omega arith) (omega arith)
      (omega arith) (omega arith) reads_sscratch

hands_down : delegated user_hart 13 ≡ true
unfolding delegated tst
hands_down = refl

raise_exception2-EnteredS_example :
    EnteredS user_hart (raise_exception2 user_hart 13 0x5000) 13 0x5000
raise_exception2-EnteredS_example =
    raise_exception2-EnteredS user_hart 13 0x5000 (omega arith) (omega arith) hands_down

to_machine : delegated user_hart 8 ≡ false
unfolding delegated tst
to_machine = refl

handle_sret-raise_exception2_example :
    let r = handle_sret (raise_exception2 user_hart 13 0x5000) in
    Resumed user_hart r
    × ((i : ℕ)
        → bit r.mstatus i ≡ (
            if i == 8
            then 0
            else if i == 5
            then 1
            else if i == 1 && true
            then 0
            else bit user_hart.mstatus i))
handle_sret-raise_exception2_example =
    handle_sret-raise_exception2 user_hart 13 0x5000 (omega arith) (omega arith) hands_down

handle_mret-raise_exception2_example :
    let r = handle_mret (raise_exception2 user_hart 8 0) in
    Resumed user_hart r
    × ((i : ℕ)
        → bit r.mstatus i ≡ (
            if i == 11 || i == 12
            then 0
            else if i == 7
            then 1
            else if i == 3 && true
            then 0
            else bit user_hart.mstatus i))
handle_mret-raise_exception2_example =
    handle_mret-raise_exception2 user_hart 8 0 (omega arith) (omega arith) to_machine

-- A supervisor about to return to user mode, and a machine program about to return to it.
abbrev leaving_hart : RiscvCpuState
leaving_hart = record supervisor_hart { mstatus = 2 ^ 5; sepc = 0x4000; mepc = 0x8000 }

raise_exception2-KeepsCoherent_example : KeepsCoherent user_hart (raise_exception2 user_hart 8 0)
raise_exception2-KeepsCoherent_example =
    raise_exception2-KeepsCoherent user_hart 8 0 (omega arith) (omega arith) (inl (omega arith))

-- Machine mode with MPRV set and MPP = S.
abbrev mprv_hart : RiscvCpuState
mprv_hart = record zeroed { priv = 3; mstatus = 2 ^ 17 + 2 ^ 11 }

mprv_set : bit mprv_hart.mstatus 17 ≡ 1
unfolding bit
mprv_set = refl

raise_exception2-stale_example :
    let t = raise_exception2 mprv_hart 5 0 in
    SameTlbs mprv_hart t × (t.priv ≡ 3) × (bit t.mstatus 17 ≡ 1) × (mpp_of t.mstatus ≡ 3)
raise_exception2-stale_example = raise_exception2-stale mprv_hart 5 0 (omega arith) refl mprv_set

user_hart-IsIrqState : IsIrqState user_hart
user_hart-IsIrqState = record {
  mip_fits = omega arith;
  mie_fits = omega arith;
  mideleg_fits = omega arith;
  mode_fits = omega arith;
  mode_exists = omega arith;
}

raise_interrupt_lem_example :
    (((n : ℕ) → ¬ (MayTake user_hart n)) × (raise_interrupt user_hart ≡ (false, user_hart)))
    ⊎ ((n : ℕ) × IsFirst user_hart n
        × (n < 32)
        × (raise_interrupt user_hart ≡ (true, raise_exception user_hart (n + 2 ^ 31))))
raise_interrupt_lem_example = raise_interrupt_lem user_hart user_hart-IsIrqState

-- UXL = 2 and SXL = 0.
uxl_only : uxl_valid (2 ^ 33) ≡ true
uxl_only = refl

set_mstatus-sxl_unchecked_example :
    (set_priv (set_mstatus riscv_cpu_init (2 ^ 33)) 1).cur_xlen ≡ 2 ^ (4 + 2 ^ 33 / 2 ^ 34 % 4)
set_mstatus-sxl_unchecked_example =
    set_mstatus-sxl_unchecked riscv_cpu_init (2 ^ 33) riscv_cpu_init-IsValid.mstatus_fits
      (λ e. absurd (unfold riscv_cpu_init tlb_init in omega arith)) uxl_only

-- Two entries of the write TLB lead into the RAM at 0x700000.
abbrev writing_hart : RiscvCpuState
writing_hart = record zeroed {
  tlb_write = λ i. record { vaddr = 0x1000 * i; mem_addend = 0x700000 };
}

flush_tlb_write_range_ram_lem_example :
    Flushed 0x700000
      (0x700000 + 0x2000)
      (writing_hart.tlb_write 1)
      ((flush_tlb_write_range_ram writing_hart 0x700000 0x2000).tlb_write 1)
flush_tlb_write_range_ram_lem_example =
    flush_tlb_write_range_ram_lem writing_hart 0x700000 0x2000 1 (omega arith)
