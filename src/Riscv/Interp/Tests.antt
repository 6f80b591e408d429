-- ===== src/Riscv/Interp/Tests.antt =====
-- Instructions as an assembler encodes them, a hart with a program, and each theorem on it.
use d_risc_v_emulator_tinyem.Base.{
  ◌⊎◌, ◌≢◌, ℕ, ◌+◌, ◌-◌, ◌^◌, ◌≡◌, inr, refl, arith, true, false, [], ◌∷◌, Mem, store_le,
}
use d_risc_v_emulator_tinyem.Iomem.{PhysMemoryRange}
use d_risc_v_emulator_tinyem.Riscv.State.{RiscvCpuState}
use d_risc_v_emulator_tinyem.Riscv.Init.{zeroed}
use d_risc_v_emulator_tinyem.Riscv.Access.{MipCall, mip_set, mip_reset, Answer, Devices, Hart}
use d_risc_v_emulator_tinyem.Riscv.Alu.{
  is_neg, mulh_halves, mulh, mulhsu_halves, mulhsu, sar, div, rem, mulhu_halves, mulhu,
}
use d_risc_v_emulator_tinyem.Riscv.Alu.Div.{Divides, div-rem-Divides}
use d_risc_v_emulator_tinyem.Riscv.Alu.Mulh.{mulh_halves-mulh, mulhu_halves-mulhu}
use d_risc_v_emulator_tinyem.Riscv.Exec.{sext, get_field1}
use d_risc_v_emulator_tinyem.Riscv.Exec.Effect.{IsSound}
use d_risc_v_emulator_tinyem.Riscv.Exec.Jumps.{imm_j, imm_b}
use d_risc_v_emulator_tinyem.Riscv.Exec.Memory.{imm_s}
use d_risc_v_emulator_tinyem.Riscv.Exec.Quadrant0.{imm_addi4spn, imm_clw, imm_cld}
use d_risc_v_emulator_tinyem.Riscv.Exec.Quadrant1.{
  shamt_c, imm_ci, imm_addi16sp, imm_clui, imm_cj, imm_cb,
}
use d_risc_v_emulator_tinyem.Riscv.Exec.Quadrant2.{imm_lwsp, imm_ldsp, imm_swsp, imm_sdsp}
use d_risc_v_emulator_tinyem.Riscv.Exec.Insn.{exec_insn}
use d_risc_v_emulator_tinyem.Riscv.Exec.Sound.{SoundEnds, exec_insn-SoundEnds}
use d_risc_v_emulator_tinyem.Riscv.Exec.Isolated.{BelowEnds, exec_insn-BelowEnds}

-- `jal x0, -4`, `beq x0, x0, -8` and `sd ra, 24(sp)`.
jal_back : imm_j 0xffdff06f ≡ 2 ^ 64 - 4
unfolding imm_j sext sar
jal_back = refl

beq_back : imm_b 0xfe000ce3 ≡ 2 ^ 64 - 8
unfolding imm_b sext sar
beq_back = refl

sd_up : imm_s 0x00113c23 ≡ 24
unfolding imm_s sext sar
sd_up = refl

-- `c.addi4spn s0, sp, 16`, `c.lw a5, 4(a0)`, `c.ld a5, 8(a0)`.
addi4spn_sixteen : imm_addi4spn 0x0800 ≡ 16
unfolding imm_addi4spn get_field1
addi4spn_sixteen = refl

clw_four : imm_clw 0x415c ≡ 4
unfolding imm_clw get_field1
clw_four = refl

cld_eight : imm_cld 0x651c ≡ 8
unfolding imm_cld get_field1
cld_eight = refl

-- `c.addi sp, -32`, `c.addi16sp sp, -64`, `c.lui a5, 0x1`, `c.j -2`, `c.beqz a0, 6`.
caddi_down : imm_ci 0x1101 ≡ 2 ^ 64 - 32
unfolding imm_ci shamt_c sext sar get_field1
caddi_down = refl

caddi16sp_down : imm_addi16sp 0x7139 ≡ 2 ^ 64 - 64
unfolding imm_addi16sp sext sar get_field1
caddi16sp_down = refl

clui_page : imm_clui 0x6785 ≡ 0x1000
unfolding imm_clui sext sar get_field1
clui_page = refl

cj_back : imm_cj 0xbffd ≡ 2 ^ 64 - 2
unfolding imm_cj sext sar get_field1
cj_back = refl

cbeqz_six : imm_cb 0xc119 ≡ 6
unfolding imm_cb sext sar get_field1
cbeqz_six = refl

-- `c.lwsp a0, 12(sp)`, `c.ldsp ra, 8(sp)`, `c.swsp a0, 12(sp)`, `c.sdsp ra, 8(sp)`.
clwsp_twelve : imm_lwsp 0x4532 ≡ 12
unfolding imm_lwsp get_field1
clwsp_twelve = refl

cldsp_eight : imm_ldsp 0x60a2 ≡ 8
unfolding imm_ldsp get_field1
cldsp_eight = refl

cswsp_twelve : imm_swsp 0xc62a ≡ 12
unfolding imm_swsp get_field1
cswsp_twelve = refl

csdsp_eight : imm_sdsp 0xe406 ≡ 8
unfolding imm_sdsp get_field1
csdsp_eight = refl

-- 64 KB of RAM at 0x80000000, at the host address 0x10000, with `addi ra, ra, 1` and a jump to it.
abbrev ram : PhysMemoryRange
ram = record {
  addr = 0x80000000;
  org_size = 0x10000;
  size = 0x10000;
  is_ram = true;
  devram_flags = 0;
  phys_mem = 0x10000;
  dirty_bits_size = 0;
  has_dirty_bits = false;
  dirty_bits_tab = λ _ _. 0;
  dirty_bits_index = 0;
  device = 0;
  devio_flags = 0;
}

abbrev program : Mem
program = store_le 8 (λ _. 0) 0x10000 0xffdff06f00108093

abbrev cpu_in : ℕ → RiscvCpuState
cpu_in mode = record zeroed { pc = 0x80000000; priv = mode; cur_xlen = 64; mxl = 2 }

abbrev hart_in : ℕ → Hart ℕ
hart_in mode = record { cpu = cpu_in mode; map = ram ∷ []; mem = program; devices = 0 }

abbrev counted : Hart ℕ → MipCall → Answer ℕ
counted h call = record { devices = h.devices + 1; map = h.map; mem = h.mem; calls = call ∷ [] }

abbrev counting : Devices ℕ
counting = record {
  read_func = λ h _ offset _. (offset, counted h (mip_reset 8));
  write_func = λ h _ _ _ _. counted h (mip_set 8);
}

machine-IsSound : IsSound (cpu_in 3)
machine-IsSound = record { valid = ground arith; zero_reg = refl; words = λ i. omega arith }

user-IsSound : IsSound (cpu_in 0)
user-IsSound = record { valid = ground arith; zero_reg = refl; words = λ i. omega arith }

-- `addi ra, ra, 1`
exec_insn-SoundEnds_example : SoundEnds (exec_insn counting 64 (hart_in 3) 0x00108093 0)
exec_insn-SoundEnds_example =
    exec_insn-SoundEnds counting 64 (hart_in 3) 0x00108093 0 (inr refl) machine-IsSound

-- `csrrw x0, mtvec, ra`, from user mode.
exec_insn-BelowEnds_example : BelowEnds (cpu_in 0) (exec_insn counting 64 (hart_in 0) 0x30509073 0)
exec_insn-BelowEnds_example =
    exec_insn-BelowEnds counting 64 (hart_in 0) 0x30509073 0 (inr refl) user-IsSound (omega arith)

div-rem-Divides_example : Divides 32 (2 ^ 32 - 7) 2 (div 32 (2 ^ 32 - 7) 2) (rem 32 (2 ^ 32 - 7) 2)
div-rem-Divides_example =
    div-rem-Divides 32 (2 ^ 32 - 7) 2 (omega arith) (omega arith) (omega arith)

mulhu_halves-mulhu_example :
    mulhu_halves 32 (2 ^ 64 - 1) (2 ^ 63 + 5) ≡ mulhu 64 (2 ^ 64 - 1) (2 ^ 63 + 5)
mulhu_halves-mulhu_example =
    mulhu_halves-mulhu (2 ^ 64 - 1) (2 ^ 63 + 5) (omega arith) (omega arith)

-- -1 and 3.
mulh_halves-mulh_example :
    let a = 2 ^ 64 - 1 in
    (((is_neg 64 a ≡ is_neg 64 3) × (mulh_halves 32 a 3 ≡ mulh 64 a 3))
      ⊎ ((is_neg 64 a ≢ is_neg 64 3) × (mulh_halves 32 a 3 ≢ mulh 64 a 3)))
    × ((((is_neg 64 a ≡ false) ⊎ (a ≡ 3)) × (mulhsu_halves 32 a 3 ≡ mulhsu 64 a 3))
        ⊎ ((is_neg 64 a ≡ true) × (a ≢ 3) × (mulhsu_halves 32 a 3 ≢ mulhsu 64 a 3)))
mulh_halves-mulh_example = mulh_halves-mulh (2 ^ 64 - 1) 3 (omega arith) (omega arith)
