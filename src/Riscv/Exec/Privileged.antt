-- ===== src/Riscv/Exec/Privileged.antt =====
-- riscv_cpu_template.h: the effects of the privileged instructions that stay in their mode.
use d_risc_v_emulator_tinyem.Base.{
  ℕ, ◌+◌, ◌%◌, ◌≡◌, refl, arith, ◌==◌, u64, if◌then◌else◌, Bool, true, false, inr,
}
use d_risc_v_emulator_tinyem.Riscv.State.{RiscvCpuState}
use d_risc_v_emulator_tinyem.Riscv.Tlb.{tlb_init, tlb_flush_all, tlb_flush_vaddr}
use d_risc_v_emulator_tinyem.Riscv.Access.{Hart}
use d_risc_v_emulator_tinyem.Riscv.Exec.{next, illegal_insn, done_interp, rs1_of}
use d_risc_v_emulator_tinyem.Riscv.Exec.Effect.{
  Effect, Effect-refl, HasEffect, if-HasEffect, next_ends, jump_ends, done_ends, illegal_ends,
  exception_ends, set_pc-Effect,
}
use d_risc_v_emulator_tinyem.Riscv.Exec.Compressed.{set_pending-Effect}
use d_risc_v_emulator_tinyem.Riscv.Exec.System.{
  cause_breakpoint, cause_user_ecall, set_cpu, set_insn_counter, ecall, ebreak, wfi, sfence_vma,
}

-- An even address that the next instruction follows.
pub even_next : (pc : ℕ) → pc % 2 ≡ 0 → u64 (pc + 4) % 2 ≡ 0
even_next pc e = ground arith

tlb_flush_all-Effect : (s : RiscvCpuState) → Effect s (tlb_flush_all s)
unfolding tlb_flush_all tlb_init
tlb_flush_all-Effect s = record {
  control = refl;
  zero_kept = refl;
  words_kept = λ r. r;
  pc_kept = λ p. p;
  fs_kept = λ f. f;
  mip_kept = λ m. m;
}

module _ {D : Type 0} (h : Hart D) where
  pub set_insn_counter-Effect : (counter : ℕ) → Effect h.cpu (set_insn_counter h counter).cpu
  unfolding set_insn_counter
  set_insn_counter-Effect counter = record {
    control = refl;
    zero_kept = refl;
    words_kept = λ r. r;
    pc_kept = λ p. p;
    fs_kept = λ f. f;
    mip_kept = λ m. m;
  }

  stays : HasEffect h.cpu (illegal_insn h)
  stays = illegal_ends h (Effect-refl h.cpu)

  pub ecall-HasEffect : (insn : ℕ) → HasEffect h.cpu (ecall h insn)
  unfolding ecall
  ecall-HasEffect insn =
      if-HasEffect _ stays (exception_ends _ (set_pending-Effect h (cause_user_ecall + h.cpu.priv)))

  pub ebreak-HasEffect : (insn : ℕ) → HasEffect h.cpu (ebreak h insn)
  unfolding ebreak
  ebreak-HasEffect insn =
      if-HasEffect _ stays (exception_ends _ (set_pending-Effect h cause_breakpoint))

  powered_down :
      Effect h.cpu
        (set_cpu h (record h.cpu { power_down_flag = true; pc = u64 (h.cpu.pc + 4) })).cpu
  unfolding set_cpu
  powered_down = record {
    control = refl;
    zero_kept = refl;
    words_kept = λ r. r;
    pc_kept = even_next h.cpu.pc;
    fs_kept = λ f. f;
    mip_kept = λ m. m;
  }

  sleeps :
      HasEffect h.cpu
        (done_interp (set_cpu h (record h.cpu { power_down_flag = true; pc = u64 (h.cpu.pc + 4) })))
  sleeps = done_ends _ powered_down

  goes : HasEffect h.cpu (next 4 h)
  goes = next_ends 4 h (inr refl) (Effect-refl h.cpu)

  pub wfi-HasEffect : (insn : ℕ) → HasEffect h.cpu (wfi h insn)
  unfolding wfi
  wfi-HasEffect insn = search (if-HasEffect, stays, sleeps, goes) depth 9

  pub sfence_vma-HasEffect : (insn : ℕ) → HasEffect h.cpu (sfence_vma h insn)
  unfolding sfence_vma tlb_flush_vaddr set_cpu
  sfence_vma-HasEffect insn = if-HasEffect _ stays (
      if-HasEffect _ stays
        (jump_ends _ (set_pc-Effect _ _ (flushed (rs1_of insn == 0)) (even_next h.cpu.pc))))
    where
      flushed : (b : Bool) → Effect h.cpu (if b then tlb_flush_all h.cpu else tlb_flush_all h.cpu)
      flushed true = tlb_flush_all-Effect h.cpu
      flushed false = tlb_flush_all-Effect h.cpu
