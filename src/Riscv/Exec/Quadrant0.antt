-- ===== src/Riscv/Exec/Quadrant0.antt =====
-- riscv_cpu_template.h: C_QUADRANT(0), the compressed loads and stores.
use d_risc_v_emulator_tinyem.Base.{ℕ, ◌+◌, ◌*◌, ◌/◌, ◌^◌, bit_and, bit_or, ◌==◌, leb, if◌then◌else◌}
use d_risc_v_emulator_tinyem.Riscv.Access.{Devices, Hart, target_read, target_write}
use d_risc_v_emulator_tinyem.Riscv.Alu.{sx}
use d_risc_v_emulator_tinyem.Riscv.Exec.{
  Outcome, next, illegal_insn, get_field1, put_reg, set_fp_reg, after_load, after_store,
}
use d_risc_v_emulator_tinyem.Riscv.Exec.Memory.{f32_high}

-- The registers x8 to x15 that three digits name.
abbrev pub creg : ℕ → ℕ → ℕ
creg insn pos = bit_or (bit_and (insn / 2 ^ pos) 7) 8

abbrev pub cfunct3 : ℕ → ℕ
cfunct3 insn = bit_and (insn / 2 ^ 13) 7

-- The offsets of c.addi4spn, c.lw and c.ld.
unfoldable pub imm_addi4spn : ℕ → ℕ
imm_addi4spn insn =
    bit_or
      (bit_or (bit_or (get_field1 insn 11 4 5) (get_field1 insn 7 6 9)) (get_field1 insn 6 2 2))
      (get_field1 insn 5 3 3)

unfoldable pub imm_clw : ℕ → ℕ
imm_clw insn =
    bit_or (bit_or (get_field1 insn 10 3 5) (get_field1 insn 6 2 2)) (get_field1 insn 5 6 6)

unfoldable pub imm_cld : ℕ → ℕ
imm_cld insn = bit_or (get_field1 insn 10 3 5) (get_field1 insn 5 6 7)

module _ {D : Type 0} (dev : Devices D) (xlen : ℕ) where
  abbrev caddress : Hart D → ℕ → ℕ → ℕ
  caddress h insn imm = sx xlen (h.cpu.reg (creg insn 7) + imm)

  -- A load of 2 ^ `size_log2` bytes at an address into register `rd`, and into an FPU register.
  unfoldable pub cload : Hart D → ℕ → ℕ → ℕ → Outcome D
  cload h addr rd size_log2 =
      after_load (λ v h'. next 2 (put_reg h' rd (sx (8 * 2 ^ size_log2) v)))
        (target_read dev h addr size_log2)

  unfoldable pub cload_fp : Hart D → ℕ → ℕ → ℕ → ℕ → Outcome D
  cload_fp h addr rd size_log2 high =
      if h.cpu.fs == 0
      then illegal_insn h
      else after_load (λ v h'. next 2 (set_fp_reg h' rd (bit_or v high)))
          (target_read dev h addr size_log2)

  unfoldable pub cstore : Hart D → ℕ → ℕ → ℕ → Outcome D
  cstore h addr val size_log2 = after_store (next 2) (target_write dev h addr val size_log2)

  unfoldable pub cstore_fp : Hart D → ℕ → ℕ → ℕ → Outcome D
  cstore_fp h addr fp size_log2 =
      if h.cpu.fs == 0
      then illegal_insn h
      else after_store (next 2) (target_write dev h addr (h.cpu.fp_reg fp) size_log2)

  unfoldable pub addi4spn : Hart D → ℕ → Outcome D
  addi4spn h insn =
      if imm_addi4spn insn == 0
      then illegal_insn h
      else next 2 (put_reg h (creg insn 2) (sx xlen (h.cpu.reg 2 + imm_addi4spn insn)))

  unfoldable pub quadrant0 : Hart D → ℕ → Outcome D
  quadrant0 h insn =
      let funct3 = cfunct3 insn in
      let rd = creg insn 2 in
      let word = caddress h insn (imm_clw insn) in
      let double = caddress h insn (imm_cld insn) in
      if funct3 == 0
      then addi4spn h insn
      else if funct3 == 1
      then cload_fp h double rd 3 0
      else if funct3 == 2
      then cload h word rd 2
      else if funct3 == 3
      then (if leb 64 xlen then cload h double rd 3 else cload_fp h word rd 2 f32_high)
      else if funct3 == 5
      then cstore_fp h double rd 3
      else if funct3 == 6
      then cstore h word (h.cpu.reg rd) 2
      else if funct3 == 7
      then (if leb 64 xlen then cstore h double (h.cpu.reg rd) 3 else cstore_fp h word rd 2)
      else illegal_insn h
