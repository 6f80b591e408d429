-- ===== src/Riscv/Exec/Memory.antt =====
-- riscv_cpu_template.h: loads and stores, of the FPU's registers too, and fences.
use d_risc_v_emulator_tinyem.Base.{
  ℕ, ◌+◌, ◌-◌, ◌/◌, ◌^◌, bit_and, bit_or, ◌&&◌, not, ◌==◌, leb, if◌then◌else◌, u64, u8, u16, u32,
  tst,
}
use d_risc_v_emulator_tinyem.Riscv.Access.{Devices, Hart, target_read, target_write}
use d_risc_v_emulator_tinyem.Riscv.Alu.{sx}
use d_risc_v_emulator_tinyem.Riscv.Exec.{
  Outcome, next, illegal_insn, sext, rd_of, rs1_of, rs2_of, funct3_of, imm_i, set_reg, set_fp_reg,
  after_load, after_store,
}

-- F32_HIGH; F64_HIGH is 0.
abbrev pub f32_high : ℕ
f32_high = 2 ^ 64 - 2 ^ 32

unfoldable pub imm_s : ℕ → ℕ
imm_s insn = sext (bit_or (rd_of insn) (bit_and (insn / 2 ^ 20) 0xfe0)) 12

abbrev pub address_i : {D : Type 0} → Hart D → ℕ → ℕ
address_i h insn = u64 (h.cpu.reg (rs1_of insn) + imm_i insn)

abbrev pub address_s : {D : Type 0} → Hart D → ℕ → ℕ
address_s h insn = u64 (h.cpu.reg (rs1_of insn) + imm_s insn)

module _ {D : Type 0} (dev : Devices D) (xlen : ℕ) where
  -- A load of 2 ^ `size_log2` bytes into `rd`, as `f` converts it.
  unfoldable pub load_reg : Hart D → ℕ → ℕ → ℕ → (ℕ → ℕ) → Outcome D
  load_reg h insn rd size_log2 f =
      after_load (λ v h'. next 4 (set_reg h' rd (f v)))
        (target_read dev h (address_i h insn) size_log2)

  unfoldable pub load : Hart D → ℕ → Outcome D
  load h insn =
      let funct3 = funct3_of insn in
      let rd = rd_of insn in
      if funct3 == 0
      then load_reg h insn rd 0 (sx 8)
      else if funct3 == 1
      then load_reg h insn rd 1 (sx 16)
      else if funct3 == 2
      then load_reg h insn rd 2 (sx 32)
      else if funct3 == 4
      then load_reg h insn rd 0 u8
      else if funct3 == 5
      then load_reg h insn rd 1 u16
      else if leb 64 xlen && funct3 == 3
      then load_reg h insn rd 3 (sx 64)
      else if leb 64 xlen && funct3 == 6
      then load_reg h insn rd 2 u32
      else illegal_insn h

  unfoldable pub store : Hart D → ℕ → Outcome D
  store h insn =
      let funct3 = funct3_of insn in
      let sized = leb funct3 2 in
      if (if sized then sized else leb 64 xlen && funct3 == 3)
      then after_store (next 4)
          (target_write dev h (address_s h insn) (h.cpu.reg (rs2_of insn)) funct3)
      else illegal_insn h

  unfoldable pub fp_load : Hart D → ℕ → Outcome D
  fp_load h insn =
      let funct3 = funct3_of insn in
      let addr = address_i h insn in
      if h.cpu.fs == 0
      then illegal_insn h
      else if funct3 == 2
      then after_load (λ v h'. next 4 (set_fp_reg h' (rd_of insn) (bit_or v f32_high)))
          (target_read dev h addr 2)
      else if funct3 == 3
      then after_load (λ v h'. next 4 (set_fp_reg h' (rd_of insn) v)) (target_read dev h addr 3)
      else illegal_insn h

  unfoldable pub fp_store : Hart D → ℕ → Outcome D
  fp_store h insn =
      let funct3 = funct3_of insn in
      if h.cpu.fs == 0
      then illegal_insn h
      else if leb 2 funct3 && leb funct3 3
      then after_store (next 4)
          (target_write dev h (address_s h insn) (h.cpu.fp_reg (rs2_of insn)) funct3)
      else illegal_insn h

  unfoldable pub misc_mem : Hart D → ℕ → Outcome D
  misc_mem h insn =
      let funct3 = funct3_of insn in
      if funct3 == 0
      then (if tst insn 0xf00fff80 then illegal_insn h else next 4 h)
      else if funct3 == 1
      then (if not (insn == 0x0000100f) then illegal_insn h else next 4 h)
      else illegal_insn h
