-- ===== src/Riscv/Exec/Insn.antt =====
-- riscv_cpu_template.h: the switch over the opcodes.
use d_risc_v_emulator_tinyem.Base.{
  ℕ, ◌/◌, ◌^◌, bit_and, bit_or, ◌||◌, ◌==◌, leb, if◌then◌else◌, ◌&&◌,
}
use d_risc_v_emulator_tinyem.Riscv.Access.{Devices, Hart}
use d_risc_v_emulator_tinyem.Riscv.Alu.{op_imm, op_imm_32, op, op_32}
use d_risc_v_emulator_tinyem.Riscv.Exec.{
  Outcome, illegal_insn, floating, rd_of, rs1_of, rs2_of, funct3_of, imm_i, after_op,
}
use d_risc_v_emulator_tinyem.Riscv.Exec.Jumps.{lui, auipc, jal, jalr, branch}
use d_risc_v_emulator_tinyem.Riscv.Exec.Memory.{load, store, fp_load, fp_store, misc_mem}
use d_risc_v_emulator_tinyem.Riscv.Exec.Atomic.{atomic}
use d_risc_v_emulator_tinyem.Riscv.Exec.System.{system}
use d_risc_v_emulator_tinyem.Riscv.Exec.Quadrant0.{quadrant0}
use d_risc_v_emulator_tinyem.Riscv.Exec.Quadrant1.{quadrant1}
use d_risc_v_emulator_tinyem.Riscv.Exec.Quadrant2.{quadrant2}

-- funct3 with bit 30 of the instruction as its digit 3.
abbrev pub funct4_of : ℕ → ℕ
funct4_of insn = bit_or (funct3_of insn) (bit_and (insn / 2 ^ 27) 8)

-- The opcodes of the FPU's arithmetic, 0x43 to 0x53, whose code the model leaves out.
unfoldable pub fp_arith : {D : Type 0} → Hart D → Outcome D
fp_arith h = if h.cpu.fs == 0 then illegal_insn h else floating h

module _ {D : Type 0} (dev : Devices D) (xlen : ℕ) where
  -- The opcodes that only compute on registers.
  unfoldable pub compute : Hart D → ℕ → ℕ → Outcome D
  compute h insn opcode =
      let rd = rd_of insn in
      let a = h.cpu.reg (rs1_of insn) in
      let b = h.cpu.reg (rs2_of insn) in
      if opcode == 0x13
      then after_op h rd (op_imm xlen (funct3_of insn) a (imm_i insn))
      else if opcode == 0x33
      then after_op h rd (op xlen (insn / 2 ^ 25) (funct4_of insn) a b)
      else if leb 64 xlen && opcode == 0x1b
      then after_op h rd (op_imm_32 (funct3_of insn) a (imm_i insn))
      else if leb 64 xlen && opcode == 0x3b
      then after_op h rd (op_32 (insn / 2 ^ 25) (funct4_of insn) a b)
      else illegal_insn h

  unfoldable pub exec_wide : Hart D → ℕ → ℕ → Outcome D
  exec_wide h insn counter =
      let opcode = bit_and insn 0x7f in
      if opcode == 0x37
      then lui xlen h insn
      else if opcode == 0x17
      then auipc xlen h insn
      else if opcode == 0x6f
      then jal xlen h insn
      else if opcode == 0x67
      then jalr xlen h insn
      else if opcode == 0x63
      then branch xlen h insn
      else if opcode == 0x03
      then load dev xlen h insn
      else if opcode == 0x23
      then store dev xlen h insn
      else if opcode == 0x73
      then system xlen h insn counter
      else if opcode == 0x0f
      then misc_mem dev xlen h insn
      else if opcode == 0x2f
      then atomic dev xlen h insn
      else if opcode == 0x07
      then fp_load dev xlen h insn
      else if opcode == 0x27
      then fp_store dev xlen h insn
      else if opcode == 0x43
          || (opcode == 0x47 || (opcode == 0x4b || (opcode == 0x4f || opcode == 0x53)))
      then fp_arith h
      else compute h insn opcode

  -- One instruction; `counter` is GET_INSN_COUNTER().
  unfoldable pub exec_insn : Hart D → ℕ → ℕ → Outcome D
  exec_insn h insn counter =
      let quadrant = bit_and insn 3 in
      if quadrant == 0
      then quadrant0 dev xlen h insn
      else if quadrant == 1
      then quadrant1 xlen h insn
      else if quadrant == 2
      then quadrant2 dev xlen h insn
      else exec_wide h insn counter
