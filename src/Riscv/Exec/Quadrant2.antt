-- ===== src/Riscv/Exec/Quadrant2.antt =====
-- riscv_cpu_template.h: C_QUADRANT(2), shifts, moves, jumps to registers and accesses to the stack.
use d_risc_v_emulator_tinyem.Base.{
  ℕ, ◌+◌, ◌*◌, ◌/◌, ◌^◌, bit_and, bit_or, bit_not, ◌&&◌, ◌==◌, leb, if◌then◌else◌, u64, tst,
}
use d_risc_v_emulator_tinyem.Riscv.Access.{Devices, Hart, target_read}
use d_risc_v_emulator_tinyem.Riscv.Alu.{sx}
use d_risc_v_emulator_tinyem.Riscv.Exec.{
  Outcome, next, jump, illegal_insn, exception, get_field1, rd_of, put_reg, set_reg, set_pc,
  after_load,
}
use d_risc_v_emulator_tinyem.Riscv.Exec.Memory.{f32_high}
use d_risc_v_emulator_tinyem.Riscv.Exec.System.{cause_breakpoint, set_pending}
use d_risc_v_emulator_tinyem.Riscv.Exec.Quadrant0.{cfunct3, cload_fp, cstore, cstore_fp}

abbrev pub crs2 : ℕ → ℕ
crs2 insn = bit_and (insn / 2 ^ 2) 0x1f

-- The offsets of loads and stores of words and doublewords at sp.
unfoldable pub imm_lwsp : ℕ → ℕ
imm_lwsp insn =
    bit_or (bit_or (get_field1 insn 12 5 5) (bit_and (crs2 insn) 0x1c)) (get_field1 insn 2 6 7)

unfoldable pub imm_ldsp : ℕ → ℕ
imm_ldsp insn =
    bit_or (bit_or (get_field1 insn 12 5 5) (bit_and (crs2 insn) 0x18)) (get_field1 insn 2 6 8)

unfoldable pub imm_swsp : ℕ → ℕ
imm_swsp insn = bit_or (get_field1 insn 9 2 5) (get_field1 insn 7 6 7)

unfoldable pub imm_sdsp : ℕ → ℕ
imm_sdsp insn = bit_or (get_field1 insn 10 3 5) (get_field1 insn 7 6 8)

module _ {D : Type 0} (dev : Devices D) (xlen : ℕ) where
  abbrev stack_address : Hart D → ℕ → ℕ
  stack_address h imm = sx xlen (h.cpu.reg 2 + imm)

  unfoldable pub c_slli : Hart D → ℕ → Outcome D
  c_slli h insn =
      let imm = bit_or (get_field1 insn 12 5 5) (crs2 insn) in
      if xlen == 32 && tst imm 0x20
      then illegal_insn h
      else next 2 (set_reg h (rd_of insn) (sx xlen (h.cpu.reg (rd_of insn) * 2 ^ imm)))

  unfoldable pub cload_sp : Hart D → ℕ → ℕ → ℕ → Outcome D
  cload_sp h addr rd size_log2 =
      after_load (λ v h'. next 2 (set_reg h' rd (sx (8 * 2 ^ size_log2) v)))
        (target_read dev h addr size_log2)

  -- c.jr, c.mv, c.ebreak, c.jalr and c.add.
  unfoldable pub c_jr : Hart D → ℕ → Outcome D
  c_jr h insn =
      if rd_of insn == 0
      then illegal_insn h
      else jump (set_pc h (bit_and (h.cpu.reg (rd_of insn)) (bit_not 64 1)))

  unfoldable pub c_jalr : Hart D → ℕ → Outcome D
  c_jalr h insn =
      if rd_of insn == 0
      then exception (set_pending h cause_breakpoint)
      else jump (
          put_reg (set_pc h (bit_and (h.cpu.reg (rd_of insn)) (bit_not 64 1))) 1
            (u64 (h.cpu.pc + 2)))

  unfoldable pub c_move : Hart D → ℕ → Outcome D
  c_move h insn =
      let rd = rd_of insn in
      let rs2 = crs2 insn in
      if bit_and (insn / 2 ^ 12) 1 == 0
      then (if rs2 == 0 then c_jr h insn else next 2 (set_reg h rd (h.cpu.reg rs2)))
      else if rs2 == 0
      then c_jalr h insn
      else next 2 (set_reg h rd (sx xlen (h.cpu.reg rd + h.cpu.reg rs2)))

  unfoldable pub quadrant2 : Hart D → ℕ → Outcome D
  quadrant2 h insn =
      let funct3 = cfunct3 insn in
      let rd = rd_of insn in
      let rs2 = crs2 insn in
      if funct3 == 0
      then c_slli h insn
      else if funct3 == 1
      then cload_fp dev xlen h (stack_address h (imm_ldsp insn)) rd 3 0
      else if funct3 == 2
      then cload_sp h (stack_address h (imm_lwsp insn)) rd 2
      else if funct3 == 3
      then (if leb 64 xlen
          then cload_sp h (stack_address h (imm_ldsp insn)) rd 3
          else cload_fp dev xlen h (stack_address h (imm_lwsp insn)) rd 2 f32_high)
      else if funct3 == 4
      then c_move h insn
      else if funct3 == 5
      then cstore_fp dev xlen h (stack_address h (imm_sdsp insn)) rs2 3
      else if funct3 == 6
      then cstore dev xlen h (stack_address h (imm_swsp insn)) (h.cpu.reg rs2) 2
      else if leb 64 xlen
      then cstore dev xlen h (stack_address h (imm_sdsp insn)) (h.cpu.reg rs2) 3
      else cstore_fp dev xlen h (stack_address h (imm_swsp insn)) rs2 2
