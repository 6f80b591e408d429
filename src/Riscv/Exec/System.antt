-- ===== src/Riscv/Exec/System.antt =====
-- riscv_cpu_template.h: opcode 0x73, the accesses to CSRs and the privileged instructions.
use d_risc_v_emulator_tinyem.Base.{
  ℕ, ◌+◌, ◌/◌, ◌^◌, bit_and, bit_or, bit_not, Bool, true, false, not, ◌==◌, ltb, if◌then◌else◌, u64,
  tst, Option, none, some,
}
use d_risc_v_emulator_tinyem.Base.Int.{pos}
use d_risc_v_emulator_tinyem.Riscv.State.{RiscvCpuState, prv_u, prv_s, prv_m}
use d_risc_v_emulator_tinyem.Riscv.Tlb.{tlb_flush_all, tlb_flush_vaddr}
use d_risc_v_emulator_tinyem.Riscv.Csr.{
  WriteResult, invalid, done, exit_loop, tlb_flushed, csr_read, csr_write,
}
use d_risc_v_emulator_tinyem.Riscv.Trap.{handle_sret, handle_mret}
use d_risc_v_emulator_tinyem.Riscv.Access.{Hart}
use d_risc_v_emulator_tinyem.Riscv.Alu.{sx}
use d_risc_v_emulator_tinyem.Riscv.Exec.{
  Outcome, next, jump, illegal_insn, exception, done_interp, rd_of, rs1_of, funct3_of, set_reg,
  set_pc,
}

abbrev pub cause_breakpoint : ℕ
cause_breakpoint = 0x3

abbrev pub cause_user_ecall : ℕ
cause_user_ecall = 0x8

unfoldable pub set_cpu : {D : Type 0} → Hart D → RiscvCpuState → Hart D
set_cpu h cpu = record h { cpu = cpu }

-- `s->pending_exception = cause`
unfoldable pub set_pending : {D : Type 0} → Hart D → ℕ → Hart D
set_pending h cause = record h { cpu = record h.cpu { pending_exception = pos cause } }

-- What follows `csr_write`, whose results less than, equal to and greater than 0 are constructors.
unfoldable pub after_csr_write :
    {D : Type 0} → Hart D → ℕ → ℕ → WriteResult × RiscvCpuState → Outcome D
after_csr_write h rd val2 (invalid, cpu) = illegal_insn (set_cpu h cpu)
after_csr_write h rd val2 (done, cpu) = next 4 (set_reg (set_cpu h cpu) rd val2)
after_csr_write h rd val2 (exit_loop, cpu) =
    done_interp (set_pc (set_reg (set_cpu h cpu) rd val2) (u64 (h.cpu.pc + 4)))
after_csr_write h rd val2 (tlb_flushed, cpu) =
    jump (set_pc (set_reg (set_cpu h cpu) rd val2) (u64 (h.cpu.pc + 4)))

-- `s->insn_counter = GET_INSN_COUNTER()`
unfoldable pub set_insn_counter : {D : Type 0} → Hart D → ℕ → Hart D
set_insn_counter h counter = record h { cpu = record h.cpu { insn_counter = counter } }

module _ {D : Type 0} (xlen : ℕ) where
  -- `val` is the operand: a register, or the number of one.
  unfoldable pub csrrw : Hart D → ℕ → ℕ → Option ℕ → Outcome D
  csrrw h insn val none = illegal_insn h
  csrrw h insn val (some val2) =
      after_csr_write h (rd_of insn) (sx xlen val2) (csr_write h.cpu (insn / 2 ^ 20) val)

  -- csrrs, and csrrc where `clear`.
  unfoldable pub csrrs : Hart D → ℕ → Bool → ℕ → Option ℕ → Outcome D
  csrrs h insn clear val none = illegal_insn h
  csrrs h insn clear val (some val2) =
      let old = sx xlen val2 in
      if rs1_of insn == 0
      then next 4 (set_reg h (rd_of insn) old)
      else after_csr_write h (rd_of insn) old (
          csr_write h.cpu (insn / 2 ^ 20)
            (if clear then bit_and old (bit_not 64 val) else bit_or old val))

unfoldable pub ecall : {D : Type 0} → Hart D → ℕ → Outcome D
ecall h insn =
    if tst insn 0x000fff80
    then illegal_insn h
    else exception (set_pending h (cause_user_ecall + h.cpu.priv))

unfoldable pub ebreak : {D : Type 0} → Hart D → ℕ → Outcome D
ebreak h insn =
    if tst insn 0x000fff80 then illegal_insn h else exception (set_pending h cause_breakpoint)

unfoldable pub sret : {D : Type 0} → Hart D → ℕ → Outcome D
sret h insn =
    if tst insn 0x000fff80
    then illegal_insn h
    else if ltb h.cpu.priv prv_s
    then illegal_insn h
    else done_interp (set_cpu h (handle_sret h.cpu))

unfoldable pub mret : {D : Type 0} → Hart D → ℕ → Outcome D
mret h insn =
    if tst insn 0x000fff80
    then illegal_insn h
    else if ltb h.cpu.priv prv_m
    then illegal_insn h
    else done_interp (set_cpu h (handle_mret h.cpu))

unfoldable pub wfi : {D : Type 0} → Hart D → ℕ → Outcome D
wfi h insn =
    if tst insn 0x00007f80
    then illegal_insn h
    else if h.cpu.priv == prv_u
    then illegal_insn h
    else if bit_and h.cpu.mip h.cpu.mie == 0
    then done_interp (set_cpu h (record h.cpu { power_down_flag = true; pc = u64 (h.cpu.pc + 4) }))
    else next 4 h

unfoldable pub sfence_vma : {D : Type 0} → Hart D → ℕ → Outcome D
sfence_vma h insn =
    let flushed =
      if rs1_of insn == 0
      then tlb_flush_all h.cpu
      else tlb_flush_vaddr h.cpu (h.cpu.reg (rs1_of insn)) in
    if tst insn 0x00007f80
    then illegal_insn h
    else if h.cpu.priv == prv_u
    then illegal_insn h
    else jump (set_pc (set_cpu h flushed) (u64 (h.cpu.pc + 4)))

-- The cases of funct3 0.
unfoldable pub privileged : {D : Type 0} → Hart D → ℕ → Outcome D
privileged h insn =
    let imm = insn / 2 ^ 20 in
    if imm == 0x000
    then ecall h insn
    else if imm == 0x001
    then ebreak h insn
    else if imm == 0x102
    then sret h insn
    else if imm == 0x302
    then mret h insn
    else if imm == 0x105
    then wfi h insn
    else if imm / 2 ^ 5 == 0x09
    then sfence_vma h insn
    else illegal_insn h

-- `counter` is GET_INSN_COUNTER().
unfoldable pub system : {D : Type 0} → ℕ → Hart D → ℕ → ℕ → Outcome D
system xlen h insn counter =
    let val = if tst (funct3_of insn) 4 then rs1_of insn else h.cpu.reg (rs1_of insn) in
    let kind = bit_and (funct3_of insn) 3 in
    let counted = set_insn_counter h counter in
    if kind == 1
    then csrrw xlen counted insn val (csr_read counted.cpu (insn / 2 ^ 20) true)
    else if kind == 2
    then csrrs xlen counted insn false val
        (csr_read counted.cpu (insn / 2 ^ 20) (not (rs1_of insn == 0)))
    else if kind == 3
    then csrrs xlen counted insn true val
        (csr_read counted.cpu (insn / 2 ^ 20) (not (rs1_of insn == 0)))
    else privileged h insn
