-- ===== src/Riscv/Exec/Isolated.antt =====
-- riscv_cpu_template.h: a program below machine mode cannot change the machine's state.
use d_risc_v_emulator_tinyem.Base.{
  ℕ, ◌/◌, ◌^◌, ◌<◌, ◌≤◌, ◌≡◌, ◌≢◌, bit_lt_two, inr, refl, arith, ap, sym, ◌∙◌, bit, bit_and,
  bit_and-le, Bool, true, false, ltb, Option, none, some,
}
use mathlib.Core.Path.{subst}
use d_risc_v_emulator_tinyem.Riscv.State.{RiscvCpuState}
use d_risc_v_emulator_tinyem.Riscv.Mstatus.{sstatus_mask, set_priv}
use d_risc_v_emulator_tinyem.Riscv.Mstatus.Priv.{set_priv_frame, priv-set_priv}
use d_risc_v_emulator_tinyem.Riscv.Csr.{
  WriteResult, invalid, done, exit_loop, tlb_flushed, csr_read, csr_write,
}
use d_risc_v_emulator_tinyem.Riscv.Csr.Isolation.{SameMachine, csr_write-SameMachine}
use d_risc_v_emulator_tinyem.Riscv.Trap.{handle_sret, leave_s}
use d_risc_v_emulator_tinyem.Riscv.Trap.Fields.{leave_s-bit}
use d_risc_v_emulator_tinyem.Riscv.Access.{Devices, Hart}
use d_risc_v_emulator_tinyem.Riscv.Alu.Words.{IsWidth, width_le, sx-lt}
use d_risc_v_emulator_tinyem.Riscv.Exec.{Outcome, illegal_insn}
use d_risc_v_emulator_tinyem.Riscv.Exec.Effect.{
  Effect, Effect-IsSound, IsSound, with_program, HasEffect, Ends, Ends-map, if-Ends, next_ends,
  jump_ends, done_ends, illegal_ends, set_reg-Effect, set_pc-Effect,
}
use d_risc_v_emulator_tinyem.Riscv.Exec.Dispatch.{exec_insn-Ends}
use d_risc_v_emulator_tinyem.Riscv.Exec.Privileged.{
  even_next, set_insn_counter-Effect, ecall-HasEffect, ebreak-HasEffect, wfi-HasEffect,
  sfence_vma-HasEffect,
}
use d_risc_v_emulator_tinyem.Riscv.Exec.System.{
  set_cpu, set_insn_counter, after_csr_write, csrrw, csrrs, sret, mret, privileged, system,
}
use d_risc_v_emulator_tinyem.Riscv.Exec.Insn.{exec_insn}

-- From `s` to `t` the hart stays below machine mode and keeps the state that is the machine's: its
-- registers, the enabling of interrupts that are not handed down, and mstatus outside the fields of sstatus.
pub record BelowMachine (s t : RiscvCpuState) : Type 0 where
  pub mode : t.priv ≤ 1
  pub mtvec : t.mtvec ≡ s.mtvec
  pub mscratch : t.mscratch ≡ s.mscratch
  pub mepc : t.mepc ≡ s.mepc
  pub mcause : t.mcause ≡ s.mcause
  pub mtval : t.mtval ≡ s.mtval
  pub misa : t.misa ≡ s.misa
  pub mxl : t.mxl ≡ s.mxl
  pub medeleg : t.medeleg ≡ s.medeleg
  pub mideleg : t.mideleg ≡ s.mideleg
  pub mcounteren : t.mcounteren ≡ s.mcounteren
  pub mie : (i : ℕ) → i < 32 → bit s.mideleg i ≡ 0 → bit t.mie i ≡ bit s.mie i
  pub mstatus : (i : ℕ) → bit sstatus_mask i ≡ 0 → bit t.mstatus i ≡ bit s.mstatus i

SameMachine-BelowMachine : {s t : RiscvCpuState} → s.priv ≤ 1 → SameMachine s t → BelowMachine s t
SameMachine-BelowMachine low m = record {
  mode = omega (arith, m.priv);
  mtvec = m.mtvec;
  mscratch = m.mscratch;
  mepc = m.mepc;
  mcause = m.mcause;
  mtval = m.mtval;
  misa = m.misa;
  mxl = m.mxl;
  medeleg = m.medeleg;
  mideleg = m.mideleg;
  mcounteren = m.mcounteren;
  mie = m.mie;
  mstatus = m.mstatus;
}

BelowMachine-refl : (s : RiscvCpuState) → s.priv ≤ 1 → BelowMachine s s
BelowMachine-refl s low = record {
  mode = low;
  mtvec = refl;
  mscratch = refl;
  mepc = refl;
  mcause = refl;
  mtval = refl;
  misa = refl;
  mxl = refl;
  medeleg = refl;
  mideleg = refl;
  mcounteren = refl;
  mie = λ i _ _. refl;
  mstatus = λ i _. refl;
}

-- An effect on what a program works on changes nothing of it.
after_Effect-BelowMachine :
    {s t u : RiscvCpuState} → BelowMachine s t → Effect t u → BelowMachine s u
after_Effect-BelowMachine {s} {t} {u} b e =
    subst (BelowMachine s) (sym e.control) (extended s t u b)
  where
    extended : (s t u : RiscvCpuState) → BelowMachine s t → BelowMachine s (with_program t u)
    extended s t u b = record {
      mode = b.mode;
      mtvec = b.mtvec;
      mscratch = b.mscratch;
      mepc = b.mepc;
      mcause = b.mcause;
      mtval = b.mtval;
      misa = b.misa;
      mxl = b.mxl;
      medeleg = b.medeleg;
      mideleg = b.mideleg;
      mcounteren = b.mcounteren;
      mie = b.mie;
      mstatus = b.mstatus;
    }

-- The machine's state is kept however the instruction ends.
abbrev pub BelowEnds : {D : Type 0} → RiscvCpuState → Outcome D → Type 0
BelowEnds s o = Ends (λ h. BelowMachine s h.cpu) (λ h. BelowMachine s h.cpu) o

HasEffect-BelowEnds :
    {D : Type 0} {s t : RiscvCpuState} {o : Outcome D}
    → BelowMachine s t
    → HasEffect t o
    → BelowEnds s o
HasEffect-BelowEnds b e =
    Ends-map (λ h k. after_Effect-BelowMachine b k) (λ h k. after_Effect-BelowMachine b k) e

-- The digits that `sret` writes are fields of sstatus.
not_field : (i k : ℕ) → bit sstatus_mask i ≡ 0 → bit sstatus_mask k ≡ 1 → i ≢ k
not_field i k z one e = omega (arith, z, one, ap (λ (j : ℕ). bit sstatus_mask j) e)

leave_s_outside : (m i : ℕ) → m < 2 ^ 64 → bit sstatus_mask i ≡ 0 → bit (leave_s m) i ≡ bit m i
unfolding bit
leave_s_outside m i h z =
    let n0 = not_field i 0 z refl in
    let n1 = not_field i 1 z refl in
    let n5 = not_field i 5 z refl in
    let n8 = not_field i 8 z refl in leave_s-bit m i h ∙ ground (arith, bit_lt_two m 8)

handle_sret-BelowMachine : (s : RiscvCpuState) → s.mstatus < 2 ^ 64 → BelowMachine s (handle_sret s)
unfolding handle_sret
handle_sret-BelowMachine s h =
    let s1 = record s { mstatus = leave_s s.mstatus } in
    let spp = bit_and (s.mstatus / 2 ^ 8) 1 in
    let mode : (set_priv s1 spp).priv ≤ 1 =
      omega (arith, priv-set_priv s1 spp, bit_and-le (s.mstatus / 2 ^ 8) 1) in
    rw (set_priv_frame s1 spp) (record {
      mode = mode;
      mtvec = refl;
      mscratch = refl;
      mepc = refl;
      mcause = refl;
      mtval = refl;
      misa = refl;
      mxl = refl;
      medeleg = refl;
      mideleg = refl;
      mcounteren = refl;
      mie = λ i _ _. refl;
      mstatus = λ i z. leave_s_outside s.mstatus i h z;
    })

module _ {D : Type 0} (h : Hart D) (v : IsSound h.cpu) (low : h.cpu.priv ≤ 1) where
  keeps : BelowMachine h.cpu h.cpu
  keeps = BelowMachine-refl h.cpu low

  after_csr_write-BelowEnds :
      (rd val2 : ℕ) (r : WriteResult × RiscvCpuState)
      → val2 < 2 ^ 64
      → BelowMachine h.cpu r.1
      → BelowEnds h.cpu (after_csr_write h rd val2 r)
  unfolding after_csr_write set_cpu
  after_csr_write-BelowEnds rd val2 (invalid, cpu) lt k = illegal_ends _ k
  after_csr_write-BelowEnds rd val2 (done, cpu) lt k =
      next_ends 4 _ (inr refl)
        (after_Effect-BelowMachine k (set_reg-Effect (record h { cpu = cpu }) rd val2 (λ r. lt)))
  after_csr_write-BelowEnds rd val2 (exit_loop, cpu) lt k = done_ends _ (
      after_Effect-BelowMachine k (
        set_pc-Effect _ _ (set_reg-Effect (record h { cpu = cpu }) rd val2 (λ r. lt))
          (λ p. even_next h.cpu.pc v.valid.pc_even)))
  after_csr_write-BelowEnds rd val2 (tlb_flushed, cpu) lt k = jump_ends _ (
      after_Effect-BelowMachine k (
        set_pc-Effect _ _ (set_reg-Effect (record h { cpu = cpu }) rd val2 (λ r. lt))
          (λ p. even_next h.cpu.pc v.valid.pc_even)))

  -- A write that the check before it lets pass.
  csr_write-BelowMachine :
      (csr val : ℕ) (will_write : Bool) {old : ℕ}
      → csr_read h.cpu csr will_write ≡ some old
      → BelowMachine h.cpu (csr_write h.cpu csr val).1
  csr_write-BelowMachine csr val will_write ok = SameMachine-BelowMachine low (
      csr_write-SameMachine h.cpu csr val will_write v.valid.mstatus_fits v.valid.mie_fits
        v.valid.mip_fits v.valid.mideleg_fits low ok)

  csrrw-BelowEnds :
      (xlen insn val : ℕ) (r : Option ℕ)
      → IsWidth xlen
      → csr_read h.cpu (insn / 2 ^ 20) true ≡ r
      → BelowEnds h.cpu (csrrw xlen h insn val r)
  unfolding csrrw
  csrrw-BelowEnds xlen insn val none w ok = illegal_ends h keeps
  csrrw-BelowEnds xlen insn val (some val2) w ok =
      after_csr_write-BelowEnds _ _ _ (sx-lt xlen val2 (width_le xlen w))
        (csr_write-BelowMachine (insn / 2 ^ 20) val true ok)

  csrrs-BelowEnds :
      (xlen insn : ℕ) (clear : Bool) (val : ℕ) (will_write : Bool) (r : Option ℕ)
      → IsWidth xlen
      → csr_read h.cpu (insn / 2 ^ 20) will_write ≡ r
      → BelowEnds h.cpu (csrrs xlen h insn clear val r)
  unfolding csrrs
  csrrs-BelowEnds xlen insn clear val will_write none w ok = illegal_ends h keeps
  csrrs-BelowEnds xlen insn clear val will_write (some val2) w ok =
      let old = sx-lt xlen val2 (width_le xlen w) in
      if-Ends _
        (next_ends 4 _ (inr refl)
          (after_Effect-BelowMachine keeps (set_reg-Effect h _ _ (λ r. old))))
        (after_csr_write-BelowEnds _ _ _ old
          (csr_write-BelowMachine (insn / 2 ^ 20) _ will_write ok))

  sret-BelowEnds : (insn : ℕ) → BelowEnds h.cpu (sret h insn)
  unfolding sret set_cpu
  sret-BelowEnds insn = if-Ends _ (illegal_ends h keeps) (
      if-Ends _ (illegal_ends h keeps)
        (done_ends _ (handle_sret-BelowMachine h.cpu v.valid.mstatus_fits)))

  mret-BelowEnds : (insn : ℕ) → BelowEnds h.cpu (mret h insn)
  unfolding mret
  mret-BelowEnds insn =
      let refused : ltb h.cpu.priv 3 ≡ true = ground arith in
      rw refused (if-Ends _ (illegal_ends h keeps) (illegal_ends h keeps))

  privileged-BelowEnds : (insn : ℕ) → BelowEnds h.cpu (privileged h insn)
  unfolding privileged
  privileged-BelowEnds insn =
      let stay : BelowEnds h.cpu (illegal_insn h) = illegal_ends h keeps in
      let e = HasEffect-BelowEnds keeps (ecall-HasEffect h insn) in
      let b = HasEffect-BelowEnds keeps (ebreak-HasEffect h insn) in
      let w = HasEffect-BelowEnds keeps (wfi-HasEffect h insn) in
      let f = HasEffect-BelowEnds keeps (sfence_vma-HasEffect h insn) in
      search (if-Ends, sret-BelowEnds, mret-BelowEnds) depth 9

-- The counter of instructions is no part of the machine's state.
counted :
    {D : Type 0} (h : Hart D) (counter : ℕ) {o : Outcome D}
    → BelowEnds (set_insn_counter h counter).cpu o
    → BelowEnds h.cpu o
unfolding set_insn_counter
counted h counter k = Ends-map (λ g b. same b) (λ g b. same b) k
  where
    same :
        {t : RiscvCpuState}
        → BelowMachine (record h.cpu { insn_counter = counter }) t
        → BelowMachine h.cpu t
    same b = record {
      mode = b.mode;
      mtvec = b.mtvec;
      mscratch = b.mscratch;
      mepc = b.mepc;
      mcause = b.mcause;
      mtval = b.mtval;
      misa = b.misa;
      mxl = b.mxl;
      medeleg = b.medeleg;
      mideleg = b.mideleg;
      mcounteren = b.mcounteren;
      mie = b.mie;
      mstatus = b.mstatus;
    }

system-BelowEnds :
    {D : Type 0} (xlen : ℕ) (h : Hart D) (insn counter : ℕ)
    → IsWidth xlen
    → IsSound h.cpu
    → h.cpu.priv ≤ 1
    → BelowEnds h.cpu (system xlen h insn counter)
unfolding system
system-BelowEnds xlen h insn counter w v low =
    let g = set_insn_counter h counter in
    let e = set_insn_counter-Effect h counter in
    let gv = Effect-IsSound e v in
    let b = after_Effect-BelowMachine (BelowMachine-refl h.cpu low) e in
    if-Ends _ (counted h counter (csrrw-BelowEnds g gv b.mode xlen insn _ _ w refl)) (
      if-Ends _ (counted h counter (csrrs-BelowEnds g gv b.mode xlen insn false _ _ _ w refl)) (
        if-Ends _ (counted h counter (csrrs-BelowEnds g gv b.mode xlen insn true _ _ _ w refl))
          (privileged-BelowEnds h v low insn)))

-- On a well-formed hart in S or U, no instruction, of either width, that the model executes, which is
-- each but the arithmetic of the FPU, changes the machine's state, pending interrupts aside, which the
-- devices that it accesses drive: whether it goes on, jumps, is illegal, raises an exception or leaves
-- the loop, before a trap is taken, the registers of machine mode, the enabling digits of interrupts
-- that are not delegated and mstatus outside the fields of sstatus stay, and so does the hart below
-- machine mode.
pub exec_insn-BelowEnds :
    {D : Type 0} (dev : Devices D) (xlen : ℕ) (h : Hart D) (insn counter : ℕ)
    → IsWidth xlen
    → IsSound h.cpu
    → h.cpu.priv ≤ 1
    → BelowEnds h.cpu (exec_insn dev xlen h insn counter)
exec_insn-BelowEnds dev xlen h insn counter w v low =
    exec_insn-Ends dev xlen w h (λ o e. HasEffect-BelowEnds (BelowMachine-refl h.cpu low) e) insn
      counter (system-BelowEnds xlen h insn counter w v low)
