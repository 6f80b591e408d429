-- ===== src/Riscv/Exec/Quadrant1.antt =====
-- riscv_cpu_template.h: C_QUADRANT(1), the compressed arithmetic, jumps and branches.
use d_risc_v_emulator_tinyem.Base.{
  ℕ, ◌+◌, ◌-◌, ◌/◌, ◌%◌, ◌^◌, bit_and, bit_or, bit_xor, ◌&&◌, not, ◌==◌, leb, if◌then◌else◌, u64,
  tst,
}
use d_risc_v_emulator_tinyem.Riscv.Access.{Hart}
use d_risc_v_emulator_tinyem.Riscv.Alu.{sx, sar}
use d_risc_v_emulator_tinyem.Riscv.Exec.{
  Outcome, next, jump, illegal_insn, sext, get_field1, rd_of, put_reg, set_reg, set_pc,
}
use d_risc_v_emulator_tinyem.Riscv.Exec.Quadrant0.{creg, cfunct3}

-- The immediates: of c.srli before `sext`, of c.addi, c.addi16sp, c.lui, c.j and c.beqz.
unfoldable pub shamt_c : ℕ → ℕ
shamt_c insn = bit_or (get_field1 insn 12 5 5) (get_field1 insn 2 0 4)

unfoldable pub imm_ci : ℕ → ℕ
imm_ci insn = sext (shamt_c insn) 6

unfoldable pub imm_addi16sp : ℕ → ℕ
imm_addi16sp insn =
    sext
      (bit_or
        (bit_or
          (bit_or (bit_or (get_field1 insn 12 9 9) (get_field1 insn 6 4 4)) (get_field1 insn 5 6 6))
          (get_field1 insn 3 7 8))
        (get_field1 insn 2 5 5))
      10

unfoldable pub imm_clui : ℕ → ℕ
imm_clui insn = sext (bit_or (get_field1 insn 12 17 17) (get_field1 insn 2 12 16)) 18

unfoldable pub imm_cj : ℕ → ℕ
imm_cj insn =
    let high =
      bit_or
        (bit_or (bit_or (get_field1 insn 12 11 11) (get_field1 insn 11 4 4))
          (get_field1 insn 9 8 9))
        (get_field1 insn 8 10 10) in
    let low =
      bit_or
        (bit_or (bit_or (get_field1 insn 7 6 6) (get_field1 insn 6 7 7)) (get_field1 insn 3 1 3))
        (get_field1 insn 2 5 5) in
    sext (bit_or high low) 12

unfoldable pub imm_cb : ℕ → ℕ
imm_cb insn =
    sext
      (bit_or
        (bit_or
          (bit_or (bit_or (get_field1 insn 12 8 8) (get_field1 insn 10 3 4))
            (get_field1 insn 5 6 7))
          (get_field1 insn 3 1 2))
        (get_field1 insn 2 5 5))
      9

module _ {D : Type 0} (xlen : ℕ) where
  unfoldable pub addi16sp_or_lui : Hart D → ℕ → Outcome D
  addi16sp_or_lui h insn =
      if rd_of insn == 2
      then (if imm_addi16sp insn == 0
          then illegal_insn h
          else next 2 (put_reg h 2 (sx xlen (h.cpu.reg 2 + imm_addi16sp insn))))
      else next 2 (set_reg h (rd_of insn) (imm_clui insn))

  unfoldable pub c_shift : Hart D → ℕ → Outcome D
  c_shift h insn =
      let rd = creg insn 7 in
      let imm = shamt_c insn in
      let x = h.cpu.reg rd in
      if xlen == 32 && tst imm 0x20
      then illegal_insn h
      else if bit_and (insn / 2 ^ 10) 3 == 0
      then next 2 (put_reg h rd (sx xlen (x % 2 ^ xlen / 2 ^ imm)))
      else next 2 (put_reg h rd (sar xlen x imm))

  -- c.sub to c.addw.
  unfoldable pub c_op : Hart D → ℕ → Outcome D
  c_op h insn =
      let rd = creg insn 7 in
      let a = h.cpu.reg rd in
      let b = h.cpu.reg (creg insn 2) in
      let funct3 = bit_or (bit_and (insn / 2 ^ 5) 3) (bit_and (insn / 2 ^ 10) 4) in
      if funct3 == 0
      then next 2 (put_reg h rd (sx xlen (a + 2 ^ 64 - b)))
      else if funct3 == 1
      then next 2 (put_reg h rd (bit_xor a b))
      else if funct3 == 2
      then next 2 (put_reg h rd (bit_or a b))
      else if funct3 == 3
      then next 2 (put_reg h rd (bit_and a b))
      else if leb 64 xlen && funct3 == 4
      then next 2 (put_reg h rd (sx 32 (a + 2 ^ 64 - b)))
      else if leb 64 xlen && funct3 == 5
      then next 2 (put_reg h rd (sx 32 (a + b)))
      else illegal_insn h

  unfoldable pub c_alu : Hart D → ℕ → Outcome D
  c_alu h insn =
      let kind = bit_and (insn / 2 ^ 10) 3 in
      let rd = creg insn 7 in
      if leb kind 1
      then c_shift h insn
      else if kind == 2
      then next 2 (put_reg h rd (bit_and (h.cpu.reg rd) (imm_ci insn)))
      else c_op h insn

  unfoldable pub c_j : Hart D → ℕ → Outcome D
  c_j h insn = jump (set_pc h (sx xlen (h.cpu.pc + imm_cj insn)))

  -- c.jal of 32-bit mode, and c.addiw.
  unfoldable pub c_jal_or_addiw : Hart D → ℕ → Outcome D
  c_jal_or_addiw h insn =
      if xlen == 32
      then jump (set_pc (put_reg h 1 (u64 (h.cpu.pc + 2))) (sx xlen (h.cpu.pc + imm_cj insn)))
      else next 2 (set_reg h (rd_of insn) (sx 32 (h.cpu.reg (rd_of insn) + imm_ci insn)))

  -- c.beqz, and c.bnez.
  unfoldable pub c_beqz : Hart D → ℕ → Outcome D
  c_beqz h insn =
      if h.cpu.reg (creg insn 7) == 0
      then jump (set_pc h (sx xlen (h.cpu.pc + imm_cb insn)))
      else next 2 h

  unfoldable pub c_bnez : Hart D → ℕ → Outcome D
  c_bnez h insn =
      if not (h.cpu.reg (creg insn 7) == 0)
      then jump (set_pc h (sx xlen (h.cpu.pc + imm_cb insn)))
      else next 2 h

  unfoldable pub quadrant1 : Hart D → ℕ → Outcome D
  quadrant1 h insn =
      let funct3 = cfunct3 insn in
      let rd = rd_of insn in
      if funct3 == 0
      then next 2 (set_reg h rd (sx xlen (h.cpu.reg rd + imm_ci insn)))
      else if funct3 == 1
      then c_jal_or_addiw h insn
      else if funct3 == 2
      then next 2 (set_reg h rd (imm_ci insn))
      else if funct3 == 3
      then addi16sp_or_lui h insn
      else if funct3 == 4
      then c_alu h insn
      else if funct3 == 5
      then c_j h insn
      else if funct3 == 6
      then c_beqz h insn
      else c_bnez h insn
