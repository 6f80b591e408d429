-- ===== src/Riscv/Trap/Entry.antt =====
-- Which mode `raise_exception2` enters, and with what state.
use d_risc_v_emulator_tinyem.Base.{
  ℕ, ◌+◌, ◌/◌, ◌%◌, ◌^◌, ◌≤◌, ◌<◌, ◌≡◌, ◌∙◌, ap, arith, bit_and, bit_or, leb, ◌==◌, ◌&&◌, true,
  false, if◌then◌else◌, bit, bit_lt_two, bit_and-mask, bit_or_halves, digit_of_shr, tst, tst_lem,
  set_digit, lt_pow→bit,
}
use d_risc_v_emulator_tinyem.Riscv.State.{RiscvCpuState, cause_interrupt, prv_s}
use d_risc_v_emulator_tinyem.Riscv.Mstatus.{set_priv}
use d_risc_v_emulator_tinyem.Riscv.Mstatus.Priv.{with_mode, set_priv_frame, priv-set_priv}
use d_risc_v_emulator_tinyem.Riscv.Trap.{delegated, cause_value, enter_s, enter_m, raise_exception2}
use d_risc_v_emulator_tinyem.Riscv.Trap.Fields.{enter_s-bit, enter_m-bit, enter_s-lt, enter_m-lt}

-- An interrupt number with the interrupt flag.
pub irq_cause : (n : ℕ) → n < 32 → bit_or n cause_interrupt ≡ n + 2 ^ 31
irq_cause n h = bit_or_halves 31 n 1 (omega arith)

exception_tst : (c : ℕ) → c < 2 ^ 31 → tst c cause_interrupt ≡ false
exception_tst c h = tst_lem c 31 ∙ ground (arith, lt_pow→bit 31 c 31 h)

irq_tst : (n : ℕ) → tst (bit_or n cause_interrupt) cause_interrupt ≡ true
irq_tst n = tst_lem (bit_or n (2 ^ 31)) 31 ∙ ground (arith, set_digit n 31 31)

-- An exception is delegated from S and U by its digit of medeleg.
pub delegated_exception :
    (s : RiscvCpuState) (c : ℕ)
    → c < 2 ^ 31
    → delegated s c ≡ (leb s.priv prv_s && (bit s.medeleg c == 1))
unfolding delegated
delegated_exception s c h =
    rw (exception_tst c h, digit_of_shr s.medeleg c) (ground (arith, bit_lt_two s.medeleg c))

-- An interrupt is delegated from S and U by its digit of mideleg.
pub delegated_irq :
    (s : RiscvCpuState) (n : ℕ)
    → n < 32
    → delegated s (bit_or n cause_interrupt) ≡ (leb s.priv prv_s && (bit s.mideleg n == 1))
unfolding delegated
delegated_irq s n h =
    rw (irq_tst n, low, digit_of_shr s.mideleg n) (ground (arith, bit_lt_two s.mideleg n))
  where
    low : bit_and (bit_or n cause_interrupt) 63 ≡ n
    low = bit_and-mask _ 6 ∙ omega (arith, irq_cause n h)

-- What entering supervisor mode does: the trap's cause, address and value are in the supervisor's
-- registers, mstatus keeps the previous mode and interrupt enable, and nothing else of it changes.
pub record EnteredS (s t : RiscvCpuState) (cause tval : ℕ) : Type 0 where
  pub mode : t.priv ≡ 1
  pub vector : t.pc ≡ s.stvec
  pub epc : t.sepc ≡ s.pc
  pub reason : t.scause ≡ cause_value s cause
  pub value : t.stval ≡ tval
  pub status :
      (i : ℕ)
      → bit t.mstatus i ≡ (
          if i == 1
          then 0
          else if i == 8
          then s.priv
          else if i == 5
          then bit s.mstatus s.priv
          else bit s.mstatus i)
  pub machine_epc : t.mepc ≡ s.mepc
  pub machine_cause : t.mcause ≡ s.mcause
  pub machine_value : t.mtval ≡ s.mtval
  pub registers : t.reg ≡ s.reg
  pub status_fits : t.mstatus < 2 ^ 64

pub record EnteredM (s t : RiscvCpuState) (cause tval : ℕ) : Type 0 where
  pub mode : t.priv ≡ 3
  pub vector : t.pc ≡ s.mtvec
  pub epc : t.mepc ≡ s.pc
  pub reason : t.mcause ≡ cause_value s cause
  pub value : t.mtval ≡ tval
  pub status :
      (i : ℕ)
      → bit t.mstatus i ≡ (
          if i == 3
          then 0
          else if i == 11
          then s.priv % 2
          else if i == 12
          then s.priv / 2
          else if i == 7
          then bit s.mstatus s.priv
          else bit s.mstatus i)
  pub supervisor_epc : t.sepc ≡ s.sepc
  pub supervisor_cause : t.scause ≡ s.scause
  pub supervisor_value : t.stval ≡ s.stval
  pub registers : t.reg ≡ s.reg
  pub status_fits : t.mstatus < 2 ^ 64

-- On a hart whose mstatus is a 64-bit word, a delegated trap from S or U enters supervisor mode
-- at stvec: address, cause and value go to the supervisor's registers, SPP and SPIE keep the
-- mode and its interrupt enable, SIE is cleared, and no other digit of mstatus, no register and
-- no trap register of machine mode changes.
pub raise_exception2-EnteredS :
    (s : RiscvCpuState) (cause tval : ℕ)
    → s.mstatus < 2 ^ 64
    → s.priv ≤ 1
    → delegated s cause ≡ true
    → EnteredS s (raise_exception2 s cause tval) cause tval
unfolding raise_exception2
raise_exception2-EnteredS s cause tval h p d = rw d (record {
  mode = priv-set_priv s1 1;
  vector = ap (λ (t : RiscvCpuState). t.stvec) frame;
  epc = ap (λ (t : RiscvCpuState). t.sepc) frame;
  reason = ap (λ (t : RiscvCpuState). t.scause) frame;
  value = ap (λ (t : RiscvCpuState). t.stval) frame;
  status =
      λ i. ap (λ (t : RiscvCpuState). bit t.mstatus i) frame ∙ enter_s-bit s.mstatus s.priv h p i;
  machine_epc = ap (λ (t : RiscvCpuState). t.mepc) frame;
  machine_cause = ap (λ (t : RiscvCpuState). t.mcause) frame;
  machine_value = ap (λ (t : RiscvCpuState). t.mtval) frame;
  registers = ap (λ (t : RiscvCpuState). t.reg) frame;
  status_fits = rw frame (enter_s-lt s.mstatus s.priv h p);
})
  where
    s1 : RiscvCpuState
    s1 = record s {
      scause = cause_value s cause;
      sepc = s.pc;
      stval = tval;
      mstatus = enter_s s.mstatus s.priv;
    }

    frame : set_priv s1 1 ≡ with_mode s1 (set_priv s1 1)
    frame = set_priv_frame s1 1

-- On a hart whose mstatus is a 64-bit word and whose mode is at most 3, a trap that is not
-- delegated enters machine mode at mtvec: address, cause and value go to the machine's
-- registers, MPP and MPIE keep the mode and its interrupt enable, MIE is cleared, and no other
-- digit of mstatus, no register and no trap register of the supervisor changes.
pub raise_exception2-EnteredM :
    (s : RiscvCpuState) (cause tval : ℕ)
    → s.mstatus < 2 ^ 64
    → s.priv ≤ 3
    → delegated s cause ≡ false
    → EnteredM s (raise_exception2 s cause tval) cause tval
unfolding raise_exception2
raise_exception2-EnteredM s cause tval h p d = rw d (record {
  mode = priv-set_priv s1 3;
  vector = ap (λ (t : RiscvCpuState). t.mtvec) frame;
  epc = ap (λ (t : RiscvCpuState). t.mepc) frame;
  reason = ap (λ (t : RiscvCpuState). t.mcause) frame;
  value = ap (λ (t : RiscvCpuState). t.mtval) frame;
  status =
      λ i. ap (λ (t : RiscvCpuState). bit t.mstatus i) frame ∙ enter_m-bit s.mstatus s.priv h p i;
  supervisor_epc = ap (λ (t : RiscvCpuState). t.sepc) frame;
  supervisor_cause = ap (λ (t : RiscvCpuState). t.scause) frame;
  supervisor_value = ap (λ (t : RiscvCpuState). t.stval) frame;
  registers = ap (λ (t : RiscvCpuState). t.reg) frame;
  status_fits = rw frame (enter_m-lt s.mstatus s.priv h p);
})
  where
    s1 : RiscvCpuState
    s1 = record s {
      mcause = cause_value s cause;
      mepc = s.pc;
      mtval = tval;
      mstatus = enter_m s.mstatus s.priv;
    }

    frame : set_priv s1 3 ≡ with_mode s1 (set_priv s1 3)
    frame = set_priv_frame s1 3
