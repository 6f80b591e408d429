-- ===== src/Riscv/Exec/Atomic.antt =====
-- riscv_cpu_template.h: the atomic instructions, OP_A of opcode 0x2f.
use d_risc_v_emulator_tinyem.Base.{
  ℕ, ◌+◌, ◌*◌, ◌/◌, ◌%◌, ◌^◌, bit_and, bit_or, bit_xor, Bool, ◌&&◌, ◌||◌, not, ◌==◌, ltb, leb,
  if◌then◌else◌,
}
use d_risc_v_emulator_tinyem.Riscv.Access.{Devices, Hart, target_read, target_write}
use d_risc_v_emulator_tinyem.Riscv.Alu.{sx, slt}
use d_risc_v_emulator_tinyem.Riscv.Exec.{
  Outcome, next, illegal_insn, rd_of, rs1_of, rs2_of, funct3_of, set_reg, after_load, after_store,
}

-- The cases of the switch that read and write.
unfoldable pub is_amo : ℕ → Bool
is_amo funct5 =
    leb funct5 1
    || (funct5 == 4
        || (funct5 == 0xc
            || (funct5 == 0x8
                || (funct5 == 0x10 || (funct5 == 0x14 || (funct5 == 0x18 || funct5 == 0x1c))))))

-- What is written: `val` is the word of memory, sign extended, and `val2` the register.
unfoldable pub amo_value : ℕ → ℕ → ℕ → ℕ → ℕ
amo_value w funct5 val val2 =
    if funct5 == 1
    then val2
    else if funct5 == 0
    then sx w (val + val2)
    else if funct5 == 4
    then sx w (bit_xor val val2)
    else if funct5 == 0xc
    then sx w (bit_and val val2)
    else if funct5 == 0x8
    then sx w (bit_or val val2)
    else if funct5 == 0x10
    then (if slt (sx w val) (sx w val2) then sx w val else val2)
    else if funct5 == 0x14
    then (if slt (sx w val2) (sx w val) then sx w val else val2)
    else if funct5 == 0x18
    then (if ltb (val % 2 ^ w) (val2 % 2 ^ w) then sx w val else val2)
    else (if ltb (val2 % 2 ^ w) (val % 2 ^ w) then sx w val else val2)

-- `s->load_res = addr`
unfoldable pub set_load_res : {D : Type 0} → Hart D → ℕ → Hart D
set_load_res h addr = record h { cpu = record h.cpu { load_res = addr } }

module _ {D : Type 0} (dev : Devices D) (xlen : ℕ) where
  unfoldable pub load_reserved : Hart D → ℕ → ℕ → Outcome D
  load_reserved h insn size_log2 =
      let addr = h.cpu.reg (rs1_of insn) in
      after_load
        (λ v h'. next 4 (set_reg (set_load_res h' addr) (rd_of insn) (sx (8 * 2 ^ size_log2) v)))
        (target_read dev h addr size_log2)

  unfoldable pub store_conditional : Hart D → ℕ → ℕ → Outcome D
  store_conditional h insn size_log2 =
      let addr = h.cpu.reg (rs1_of insn) in
      if h.cpu.load_res == addr
      then after_store (λ h'. next 4 (set_reg h' (rd_of insn) 0))
          (target_write dev h addr (h.cpu.reg (rs2_of insn)) size_log2)
      else next 4 (set_reg h (rd_of insn) 1)

  unfoldable pub amo : Hart D → ℕ → ℕ → Outcome D
  amo h insn size_log2 =
      let addr = h.cpu.reg (rs1_of insn) in
      let w = 8 * 2 ^ size_log2 in
      after_load
        (λ v h'.
          after_store (λ h''. next 4 (set_reg h'' (rd_of insn) (sx w v)))
            (target_write dev h' addr
              (amo_value w (insn / 2 ^ 27) (sx w v) (h'.cpu.reg (rs2_of insn))) size_log2))
        (target_read dev h addr size_log2)

  -- OP_A
  unfoldable pub op_a : Hart D → ℕ → ℕ → Outcome D
  op_a h insn size_log2 =
      let funct5 = insn / 2 ^ 27 in
      if funct5 == 2
      then (if not (rs2_of insn == 0) then illegal_insn h else load_reserved h insn size_log2)
      else if funct5 == 3
      then store_conditional h insn size_log2
      else if is_amo funct5
      then amo h insn size_log2
      else illegal_insn h

  unfoldable pub atomic : Hart D → ℕ → Outcome D
  atomic h insn =
      let funct3 = funct3_of insn in
      if funct3 == 2
      then op_a h insn 2
      else if leb 64 xlen && funct3 == 3
      then op_a h insn 3
      else illegal_insn h
