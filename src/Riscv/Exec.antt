-- ===== src/Riscv/Exec.antt =====
-- riscv_cpu_template.h: how the execution of one instruction ends, and the parts the opcodes share.
-- `pc` of the state is GET_PC() all along: the code keeps it as `code_ptr` plus an addend and stores
-- it where it leaves the block.
pub mod Effect
pub mod Parity
pub mod Accesses
pub mod Jumps
pub mod Memory
pub mod Atomic
pub mod System
pub mod Quadrant0
pub mod Quadrant1
pub mod Quadrant2
pub mod Insn
pub mod Plain
pub mod Compressed
pub mod Privileged
pub mod Dispatch
pub mod Sound
pub mod Isolated
use d_risc_v_emulator_tinyem.Base.{
  ℕ, ◌+◌, ◌-◌, ◌*◌, ◌/◌, ◌^◌, bit_and, bit_or, Bool, true, false, ◌==◌, leb, if◌then◌else◌, u32,
  u64, Option, none, some,
}
use d_risc_v_emulator_tinyem.Riscv.State.{RiscvCpuState}
use d_risc_v_emulator_tinyem.Riscv.Access.{Hart, Load, fault, value, unset}
use d_risc_v_emulator_tinyem.Riscv.Alu.{sar}

-- The ends of an instruction: NEXT_INSN and C_NEXT_INSN with its length, JUMP_INSN, and the labels
-- `illegal_insn`, `exception` (and `mmu_exception`), and `done_interp`. `undefined` is a load that
-- found no range and left its variable unset, and `floating` an instruction of the FPU's arithmetic.
pub data Outcome (D : Type 0) : Type 0 where
  next : ℕ → Hart D → Outcome D
  jump : Hart D → Outcome D
  illegal_insn : Hart D → Outcome D
  exception : Hart D → Outcome D
  done_interp : Hart D → Outcome D
  undefined : Hart D → Outcome D
  floating : Hart D → Outcome D

-- `sext`, as a 64-bit word.
unfoldable pub sext : ℕ → ℕ → ℕ
sext val n = sar 32 (val * 2 ^ (32 - n)) (32 - n)

unfoldable pub get_field1 : ℕ → ℕ → ℕ → ℕ → ℕ
get_field1 val src_pos dst_pos dst_pos_max =
    let mask = (2 ^ (dst_pos_max - dst_pos + 1) - 1) * 2 ^ dst_pos in
    if leb src_pos dst_pos
    then bit_and (u32 (val * 2 ^ (dst_pos - src_pos))) mask
    else bit_and (val / 2 ^ (src_pos - dst_pos)) mask

-- The fields of an instruction.
abbrev pub rd_of : ℕ → ℕ
rd_of insn = bit_and (insn / 2 ^ 7) 0x1f

abbrev pub rs1_of : ℕ → ℕ
rs1_of insn = bit_and (insn / 2 ^ 15) 0x1f

abbrev pub rs2_of : ℕ → ℕ
rs2_of insn = bit_and (insn / 2 ^ 20) 0x1f

abbrev pub funct3_of : ℕ → ℕ
funct3_of insn = bit_and (insn / 2 ^ 12) 7

-- `(int32_t)insn >> 20`
abbrev pub imm_i : ℕ → ℕ
imm_i insn = sar 32 insn 20

-- `s->reg[rd] = val`
unfoldable pub put_reg : {D : Type 0} → Hart D → ℕ → ℕ → Hart D
put_reg h rd val = record h {
  cpu = record h.cpu { reg = λ i. if i == rd then val else h.cpu.reg i };
}

-- `if (rd != 0) s->reg[rd] = val`
unfoldable pub set_reg : {D : Type 0} → Hart D → ℕ → ℕ → Hart D
set_reg h rd val = if rd == 0 then h else put_reg h rd val

-- `s->fp_reg[rd] = val; s->fs = 3`
unfoldable pub set_fp_reg : {D : Type 0} → Hart D → ℕ → ℕ → Hart D
set_fp_reg h rd val = record h {
  cpu = record h.cpu { fp_reg = λ i. if i == rd then val else h.cpu.fp_reg i; fs = 3 };
}

unfoldable pub set_pc : {D : Type 0} → Hart D → ℕ → Hart D
set_pc h pc = record h { cpu = record h.cpu { pc = pc } }

-- What follows a load or a store.
unfoldable pub after_load : {D : Type 0} → (ℕ → Hart D → Outcome D) → Load × Hart D → Outcome D
after_load f (fault, h) = exception h
after_load f (value v, h) = f v h
after_load f (unset, h) = undefined h

unfoldable pub after_store : {D : Type 0} → (Hart D → Outcome D) → Bool × Hart D → Outcome D
after_store f (true, h) = exception h
after_store f (false, h) = f h

-- The result of an operation that may be illegal, put in a register.
unfoldable pub after_op : {D : Type 0} → Hart D → ℕ → Option ℕ → Outcome D
after_op h rd none = illegal_insn h
after_op h rd (some val) = next 4 (set_reg h rd val)
