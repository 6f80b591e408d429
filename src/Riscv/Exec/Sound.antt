-- ===== src/Riscv/Exec/Sound.antt =====
-- riscv_cpu_template.h: every instruction keeps a hart well formed.
use d_risc_v_emulator_tinyem.Base.{
  ℕ, ◌/◌, ◌^◌, ◌<◌, ◌≡◌, inr, refl, arith, ap, sym, ◌∙◌, bit_and, bit_and-le, bit_or, bit_or-lt,
  bit_not, Bool, true, false, if◌then◌else◌, tst, Option, none, some,
}
use mathlib.Core.Path.{subst}
use d_risc_v_emulator_tinyem.Riscv.State.{RiscvCpuState}
use d_risc_v_emulator_tinyem.Riscv.Tlb.{tlb_init, tlb_flush_all}
use d_risc_v_emulator_tinyem.Riscv.Mstatus.{set_priv, set_mstatus}
use d_risc_v_emulator_tinyem.Riscv.Csr.{
  Csr, WriteResult, invalid, done, exit_loop, tlb_flushed, csr_of, csr_write, write_csr, write_misa,
  set_frm,
}
use d_risc_v_emulator_tinyem.Riscv.Invariant.{IsValid, set_mstatus-frame, csr_write-IsValid}
use d_risc_v_emulator_tinyem.Riscv.Steps.{
  raise_exception2-IsValid, handle_sret-IsValid, handle_mret-IsValid,
}
use d_risc_v_emulator_tinyem.Riscv.Trap.{raise_exception2, handle_sret, handle_mret}
use d_risc_v_emulator_tinyem.Riscv.Access.{Devices, Hart}
use d_risc_v_emulator_tinyem.Riscv.Alu.{sx}
use d_risc_v_emulator_tinyem.Riscv.Alu.Words.{IsWidth, width_le, sx-lt, bit_and-lt}
use d_risc_v_emulator_tinyem.Riscv.Exec.{Outcome, illegal_insn, rs1_of, funct3_of}
use d_risc_v_emulator_tinyem.Riscv.Exec.Effect.{
  Effect-IsSound, IsSound, HasEffect, Ends, Ends-map, if-Ends, next_ends, jump_ends, done_ends,
  illegal_ends, set_reg-Effect, set_pc-Effect,
}
use d_risc_v_emulator_tinyem.Riscv.Exec.Dispatch.{exec_insn-Ends}
use d_risc_v_emulator_tinyem.Riscv.Exec.Privileged.{
  even_next, set_insn_counter-Effect, ecall-HasEffect, ebreak-HasEffect, wfi-HasEffect,
  sfence_vma-HasEffect,
}
use d_risc_v_emulator_tinyem.Riscv.Exec.System.{
  set_cpu, set_insn_counter, after_csr_write, csrrw, csrrs, sret, mret, privileged, system,
}
use d_risc_v_emulator_tinyem.Riscv.Exec.Insn.{exec_insn}

-- A change that leaves the general registers alone.
Same_regs-IsSound : {s t : RiscvCpuState} → t.reg ≡ s.reg → IsValid t → IsSound s → IsSound t
Same_regs-IsSound e valid v = record {
  valid = valid;
  zero_reg = ap (λ (r : ℕ → ℕ). r 0) e ∙ v.zero_reg;
  words = λ i. subst (λ (r : ℕ → ℕ). r i < 2 ^ 64) (sym e) (v.words i);
}

set_mstatus-reg : (s : RiscvCpuState) (val : ℕ) → (set_mstatus s val).reg ≡ s.reg
set_mstatus-reg s val = ap (λ (c : RiscvCpuState). c.reg) (set_mstatus-frame s val)

write_csr-reg : (s : RiscvCpuState) (c : Csr) (val : ℕ) → (write_csr s c val).1.reg ≡ s.reg
unfolding write_csr write_misa set_frm tlb_flush_all tlb_init
write_csr-reg s Csr.sstatus val = set_mstatus-reg s _
write_csr-reg s Csr.mstatus val = set_mstatus-reg s val
write_csr-reg s _ val = ground arith

csr_write-IsSound :
    (s : RiscvCpuState) (csr val : ℕ) → val < 2 ^ 64 → IsSound s → IsSound (csr_write s csr val).1
unfolding csr_write
csr_write-IsSound s csr val h v =
    Same_regs-IsSound (write_csr-reg s (csr_of csr) val)
      (unfold csr_write in csr_write-IsValid s csr val h v.valid) v

raise_exception2-reg : (s : RiscvCpuState) (c t : ℕ) → (raise_exception2 s c t).reg ≡ s.reg
unfolding raise_exception2 set_priv tlb_flush_all tlb_init
raise_exception2-reg s c t = ground arith

pub raise_exception2-IsSound :
    (s : RiscvCpuState) (c t : ℕ) → IsSound s → IsSound (raise_exception2 s c t)
raise_exception2-IsSound s c t v =
    Same_regs-IsSound (raise_exception2-reg s c t) (raise_exception2-IsValid s c t v.valid) v

handle_sret-reg : (s : RiscvCpuState) → (handle_sret s).reg ≡ s.reg
unfolding handle_sret set_priv tlb_flush_all tlb_init
handle_sret-reg s = ground arith

handle_mret-reg : (s : RiscvCpuState) → (handle_mret s).reg ≡ s.reg
unfolding handle_mret set_priv tlb_flush_all tlb_init
handle_mret-reg s = ground arith

-- A well-formed hart however the instruction ends.
abbrev pub SoundEnds : {D : Type 0} → Outcome D → Type 0
SoundEnds o = Ends (λ h. IsSound h.cpu) (λ h. IsSound h.cpu) o

HasEffect-SoundEnds :
    {D : Type 0} {s : RiscvCpuState} {o : Outcome D} → IsSound s → HasEffect s o → SoundEnds o
HasEffect-SoundEnds v e = Ends-map (λ h k. Effect-IsSound k v) (λ h k. Effect-IsSound k v) e

module _ {D : Type 0} (h : Hart D) (v : IsSound h.cpu) where
  after_csr_write-SoundEnds :
      (rd val2 : ℕ) (r : WriteResult × RiscvCpuState)
      → val2 < 2 ^ 64
      → IsSound r.1
      → SoundEnds (after_csr_write h rd val2 r)
  unfolding after_csr_write set_cpu
  after_csr_write-SoundEnds rd val2 (invalid, cpu) lt k = illegal_ends _ k
  after_csr_write-SoundEnds rd val2 (done, cpu) lt k =
      next_ends 4 _ (inr refl)
        (Effect-IsSound (set_reg-Effect (record h { cpu = cpu }) rd val2 (λ r. lt)) k)
  after_csr_write-SoundEnds rd val2 (exit_loop, cpu) lt k = done_ends _ (
      Effect-IsSound
        (set_pc-Effect _ _ (set_reg-Effect (record h { cpu = cpu }) rd val2 (λ r. lt))
          (λ p. even_next h.cpu.pc v.valid.pc_even))
        k)
  after_csr_write-SoundEnds rd val2 (tlb_flushed, cpu) lt k = jump_ends _ (
      Effect-IsSound
        (set_pc-Effect _ _ (set_reg-Effect (record h { cpu = cpu }) rd val2 (λ r. lt))
          (λ p. even_next h.cpu.pc v.valid.pc_even))
        k)

  csrrw-SoundEnds :
      (xlen insn val : ℕ) (r : Option ℕ)
      → IsWidth xlen
      → val < 2 ^ 64
      → SoundEnds (csrrw xlen h insn val r)
  unfolding csrrw
  csrrw-SoundEnds xlen insn val none w lt = illegal_ends h v
  csrrw-SoundEnds xlen insn val (some val2) w lt =
      after_csr_write-SoundEnds _ _ _ (sx-lt xlen val2 (width_le xlen w))
        (csr_write-IsSound h.cpu (insn / 2 ^ 20) val lt v)

  csrrs-SoundEnds :
      (xlen insn : ℕ) (clear : Bool) (val : ℕ) (r : Option ℕ)
      → IsWidth xlen
      → val < 2 ^ 64
      → SoundEnds (csrrs xlen h insn clear val r)
  unfolding csrrs
  csrrs-SoundEnds xlen insn clear val none w lt = illegal_ends h v
  csrrs-SoundEnds xlen insn clear val (some val2) w lt =
      let old = sx-lt xlen val2 (width_le xlen w) in
      if-Ends _ (next_ends 4 _ (inr refl) (Effect-IsSound (set_reg-Effect h _ _ (λ r. old)) v)) (
        after_csr_write-SoundEnds _ _ _ old
          (csr_write-IsSound h.cpu (insn / 2 ^ 20) _ (operand clear) v))
    where
      operand :
          (b : Bool)
          → (if b then bit_and (sx xlen val2) (bit_not 64 val) else bit_or (sx xlen val2) val)
            < 2 ^ 64
      operand true = bit_and-lt (sx xlen val2) _ (sx-lt xlen val2 (width_le xlen w))
      operand false = bit_or-lt 64 (sx xlen val2) val (sx-lt xlen val2 (width_le xlen w)) lt

  sret-SoundEnds : (insn : ℕ) → SoundEnds (sret h insn)
  unfolding sret set_cpu
  sret-SoundEnds insn = if-Ends _ (illegal_ends h v) (
      if-Ends _ (illegal_ends h v) (
        done_ends _
          (Same_regs-IsSound (handle_sret-reg h.cpu) (handle_sret-IsValid h.cpu v.valid) v)))

  mret-SoundEnds : (insn : ℕ) → SoundEnds (mret h insn)
  unfolding mret set_cpu
  mret-SoundEnds insn = if-Ends _ (illegal_ends h v) (
      if-Ends _ (illegal_ends h v) (
        done_ends _
          (Same_regs-IsSound (handle_mret-reg h.cpu) (handle_mret-IsValid h.cpu v.valid) v)))

  privileged-SoundEnds : (insn : ℕ) → SoundEnds (privileged h insn)
  unfolding privileged
  privileged-SoundEnds insn =
      let stay : SoundEnds (illegal_insn h) = illegal_ends h v in
      let e = HasEffect-SoundEnds v (ecall-HasEffect h insn) in
      let b = HasEffect-SoundEnds v (ebreak-HasEffect h insn) in
      let w = HasEffect-SoundEnds v (wfi-HasEffect h insn) in
      let f = HasEffect-SoundEnds v (sfence_vma-HasEffect h insn) in
      search (if-Ends, sret-SoundEnds, mret-SoundEnds) depth 9

-- The operand of the instructions on CSRs.
operand-lt :
    {D : Type 0} (h : Hart D) (b : Bool) (insn : ℕ)
    → IsSound h.cpu
    → (if b then rs1_of insn else h.cpu.reg (rs1_of insn)) < 2 ^ 64
operand-lt h true insn v = omega (arith, bit_and-le (insn / 2 ^ 15) 0x1f)
operand-lt h false insn v = v.words (rs1_of insn)

system-SoundEnds :
    {D : Type 0} (xlen : ℕ) (h : Hart D) (insn counter : ℕ)
    → IsWidth xlen
    → IsSound h.cpu
    → SoundEnds (system xlen h insn counter)
unfolding system
system-SoundEnds xlen h insn counter w v =
    let counted = set_insn_counter h counter in
    let cv = Effect-IsSound (set_insn_counter-Effect h counter) v in
    let lt = operand-lt h (tst (funct3_of insn) 4) insn v in
    if-Ends _ (csrrw-SoundEnds counted cv xlen insn _ _ w lt) (
      if-Ends _ (csrrs-SoundEnds counted cv xlen insn false _ _ w lt) (
        if-Ends _ (csrrs-SoundEnds counted cv xlen insn true _ _ w lt)
          (privileged-SoundEnds h v insn)))

-- On a hart that is well formed, whose zero register is 0 and whose registers are 64-bit words, every
-- instruction in every mode, of width 32 or 64, that the model executes, which is each but the
-- arithmetic of the FPU, leaves such a hart, whatever the devices that it accesses do, whether it goes on, jumps, is
-- illegal, raises an exception or leaves the loop; and it goes on by 2 or by 4 bytes.
pub exec_insn-SoundEnds :
    {D : Type 0} (dev : Devices D) (xlen : ℕ) (h : Hart D) (insn counter : ℕ)
    → IsWidth xlen
    → IsSound h.cpu
    → SoundEnds (exec_insn dev xlen h insn counter)
exec_insn-SoundEnds dev xlen h insn counter w v =
    exec_insn-Ends dev xlen w h (λ o e. HasEffect-SoundEnds v e) insn counter
      (system-SoundEnds xlen h insn counter w v)
