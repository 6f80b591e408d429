-- ===== src/Riscv/Exec/Jumps.antt =====
-- riscv_cpu_template.h: lui, auipc, the jumps and the branches.
use d_risc_v_emulator_tinyem.Base.{
  ℕ, ◌+◌, ◌*◌, ◌/◌, ◌^◌, bit_and, bit_or, bit_not, Bool, not, ◌==◌, ltb, if◌then◌else◌, u32, u64,
  Option, none, some,
}
use d_risc_v_emulator_tinyem.Riscv.Access.{Hart}
use d_risc_v_emulator_tinyem.Riscv.Alu.{sx, slt}
use d_risc_v_emulator_tinyem.Riscv.Exec.{
  Outcome, next, jump, illegal_insn, sext, rd_of, rs1_of, rs2_of, funct3_of, imm_i, set_reg, set_pc,
}

-- `(int32_t)(insn & 0xfffff000)`
abbrev pub imm_u : ℕ → ℕ
imm_u insn = sx 32 (bit_and insn 0xfffff000)

unfoldable pub imm_j : ℕ → ℕ
imm_j insn =
    sext
      (bit_or
        (bit_or (bit_or (bit_and (insn / 2 ^ 11) (2 ^ 20)) (bit_and (insn / 2 ^ 20) 0x7fe))
          (bit_and (insn / 2 ^ 9) (2 ^ 11)))
        (bit_and insn 0xff000))
      21

unfoldable pub imm_b : ℕ → ℕ
imm_b insn =
    sext
      (bit_or
        (bit_or (bit_or (bit_and (insn / 2 ^ 19) (2 ^ 12)) (bit_and (insn / 2 ^ 20) 0x7e0))
          (bit_and (insn / 2 ^ 7) 0x1e))
        (bit_and (u32 (insn * 2 ^ 4)) (2 ^ 11)))
      13

-- The test of a branch, or `none` where its funct3 is not one.
unfoldable pub branch_cond : ℕ → ℕ → ℕ → Option Bool
branch_cond funct3 a b =
    let kind = funct3 / 2 in
    let flip = λ (c : Bool). if bit_and funct3 1 == 0 then c else not c in
    if kind == 0
    then some (flip (a == b))
    else if kind == 2
    then some (flip (slt a b))
    else if kind == 3
    then some (flip (ltb a b))
    else none

module _ {D : Type 0} (xlen : ℕ) where
  unfoldable pub lui : Hart D → ℕ → Outcome D
  lui h insn = next 4 (set_reg h (rd_of insn) (imm_u insn))

  unfoldable pub auipc : Hart D → ℕ → Outcome D
  auipc h insn = next 4 (set_reg h (rd_of insn) (sx xlen (h.cpu.pc + imm_u insn)))

  unfoldable pub jal : Hart D → ℕ → Outcome D
  jal h insn =
      jump (set_pc (set_reg h (rd_of insn) (u64 (h.cpu.pc + 4))) (sx xlen (h.cpu.pc + imm_j insn)))

  unfoldable pub jalr : Hart D → ℕ → Outcome D
  jalr h insn =
      let target = bit_and (sx xlen (h.cpu.reg (rs1_of insn) + imm_i insn)) (bit_not 64 1) in
      jump (set_reg (set_pc h target) (rd_of insn) (u64 (h.cpu.pc + 4)))

  unfoldable pub take_branch : Hart D → ℕ → Option Bool → Outcome D
  take_branch h insn none = illegal_insn h
  take_branch h insn (some cond) =
      if cond then jump (set_pc h (sx xlen (h.cpu.pc + imm_b insn))) else next 4 h

  unfoldable pub branch : Hart D → ℕ → Outcome D
  branch h insn =
      take_branch h insn
        (branch_cond (funct3_of insn) (h.cpu.reg (rs1_of insn)) (h.cpu.reg (rs2_of insn)))
