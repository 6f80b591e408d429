-- ===== src/Riscv/Interp/Progress.antt =====
-- riscv_cpu_template.h and riscv_cpu.c: the loops of the interpreter end, with a well-formed hart.
use d_risc_v_emulator_tinyem.Base.{
  ◌⊎◌, false, ℕ, zero, suc, ◌+◌, ◌*◌, ◌%◌, ◌≤◌, ◌≡◌, ◌⊎◌, inl, inr, refl, arith, false, u64,
}
use d_risc_v_emulator_tinyem.Base.Int.{ℤ, pos, negsuc}
use d_risc_v_emulator_tinyem.Riscv.Access.{Devices, Hart}
use d_risc_v_emulator_tinyem.Riscv.Alu.Words.{IsWidth}
use d_risc_v_emulator_tinyem.Riscv.Exec.{next, jump, set_pc, undefined, floating, Outcome}
use d_risc_v_emulator_tinyem.Riscv.Exec.Effect.{
  Effect, Effect-refl, Effect-IsSound, IsSound, next_ends, jump_ends, done_ends, illegal_ends,
  exception_ends, undefined_ends, floating_ends, set_pc-Effect,
}
use d_risc_v_emulator_tinyem.Riscv.Exec.Sound.{
  raise_exception2-IsSound, SoundEnds, exec_insn-SoundEnds,
}
use d_risc_v_emulator_tinyem.Riscv.Exec.Privileged.{set_insn_counter-Effect}
use d_risc_v_emulator_tinyem.Riscv.Exec.System.{set_cpu, set_insn_counter}
use d_risc_v_emulator_tinyem.Riscv.Interp.{
  insn_at, fetch_insn, Fetch, Run, returned, unknown, aborted, check_interrupts, take_exception,
  take_illegal, the_end, after_insn, after_fetch, interp_loop,
}
use d_risc_v_emulator_tinyem.Riscv.Exec.Insn.{exec_insn}
use d_risc_v_emulator_tinyem.Riscv.Interp.Block.{
  IsFetched, at_insn, at_the_end, at_exception, InBlock, fetch_insn-IsFetched,
}

-- The loop of a run of `n` cycles, from the instruction counter `counter`, comes from the hart given, after
-- `used` cycles and at the place given in a block, to an instruction whose effect the model does not
-- know: one of the FPU's arithmetic, or a load that found no range. It leaves the hart `t`.
pub data Meets {D : Type 0} (dev : Devices D) (xlen n counter : ℕ) (t : Hart D)
    : ℕ → ℕ → ℕ → Hart D → Type 0 where
  meets :
      (used ptr end insn ptr' end' : ℕ) (h g : Hart D)
      → fetch_insn n used ptr end h ≡ insn_at insn ptr' end' g
      → (exec_insn dev xlen g insn (u64 (counter + used)) ≡ undefined t)
        ⊎ (exec_insn dev xlen g insn (u64 (counter + used)) ≡ floating t)
      → Meets dev xlen n counter t used ptr end h
  passes :
      (used ptr end insn ptr' end' len : ℕ) (h g h' : Hart D)
      → fetch_insn n used ptr end h ≡ insn_at insn ptr' end' g
      → exec_insn dev xlen g insn (u64 (counter + used)) ≡ next len h'
      → Meets dev xlen n counter t (used + 1) (ptr' + len) end' (set_pc h' (u64 (h'.cpu.pc + len)))
      → Meets dev xlen n counter t used ptr end h
  jumps :
      (used ptr end insn ptr' end' : ℕ) (h g h' : Hart D)
      → fetch_insn n used ptr end h ≡ insn_at insn ptr' end' g
      → exec_insn dev xlen g insn (u64 (counter + used)) ≡ jump h'
      → Meets dev xlen n counter t (used + 1) 0 0 h'
      → Meets dev xlen n counter t used ptr end h

-- The run ends, and where it returns, `P` holds of its cycles and of the hart. Where the model does not
-- know how it goes on, `U` holds of the hart, and where it aborts, `A`.
pub data Finishes {D : Type 0} (U A : Hart D → Type 0) (P : ℕ → Hart D → Type 0)
    : Run D → Type 0 where
  returns : (used : ℕ) (h : Hart D) → P used h → Finishes U A P (returned used h)
  unknowns : (h : Hart D) → U h → Finishes U A P (unknown h)
  aborts : (h : Hart D) → A h → Finishes U A P (aborted h)

pub Finishes-map :
    {D : Type 0} {U A V B : Hart D → Type 0} {P : ℕ → Hart D → Type 0} {r : Run D}
    → ((h : Hart D) → U h → V h)
    → ((h : Hart D) → A h → B h)
    → Finishes U A P r
    → Finishes V B P r
Finishes-map f g (returns used h p) = returns used h p
Finishes-map f g (unknowns h u) = unknowns h (f h u)
Finishes-map f g (aborts h a) = aborts h (g h a)

-- A run of a given width does not abort.
abbrev pub Never : {D : Type 0} → Hart D → Type 0
Never h = ⊥

-- What a run of `n` cycles from the instruction counter `counter` leaves.
pub record Ran {D : Type 0} (n counter used : ℕ) (h : Hart D) : Type 0 where
  pub sound : IsSound h.cpu
  pub progress : 1 ≤ used
  pub bounded : used ≤ n + 2050
  pub counted : h.cpu.insn_counter ≡ u64 (counter + used)

take_exception-IsSound :
    {D : Type 0} (z : ℤ) (h : Hart D) → IsSound h.cpu → IsSound (take_exception z h).cpu
unfolding take_exception set_cpu
take_exception-IsSound (pos cause) h v = raise_exception2-IsSound h.cpu cause _ v
take_exception-IsSound (negsuc k) h v = v

take_illegal-IsSound :
    {D : Type 0} (h : Hart D) (insn : ℕ) → IsSound h.cpu → IsSound (take_illegal h insn).cpu
unfolding take_illegal set_cpu
take_illegal-IsSound h insn v =
    let e : Effect h.cpu (record h.cpu { pending_exception = pos 2; pending_tval = insn }) =
      record {
        control = refl;
        zero_kept = refl;
        words_kept = λ r. r;
        pc_kept = λ p. p;
        fs_kept = λ f. f;
        mip_kept = λ m. m;
      } in
    raise_exception2-IsSound _ 2 insn (Effect-IsSound e v)

module _ {D : Type 0} (n counter : ℕ) (dev : Devices D) where
  pub the_end-Finishes :
      {U A : Hart D → Type 0} (used : ℕ) (h : Hart D)
      → 1 ≤ used
      → used ≤ n + 2050
      → IsSound h.cpu
      → Finishes U A (Ran n counter) (the_end counter used h)
  unfolding the_end
  the_end-Finishes used h one le v = returns used _ (record {
    sound = Effect-IsSound (set_insn_counter-Effect h (u64 (counter + used))) v;
    progress = one;
    bounded = le;
    counted = unfold set_insn_counter in refl;
  })

  -- The loop goes on with the condition of a block.
  after_insn-Finishes :
      (U : Hart D → Type 0) (rest : ℕ → ℕ → ℕ → Hart D → Run D) (used insn ptr end : ℕ)
      (o : Outcome D)
      → used ≤ n + 2048
      → (end ≤ ptr) ⊎ (2 * used + end ≤ 2 * n + 4098 + ptr)
      → ((len : ℕ) (h : Hart D)
          → o ≡ next len h
          → InBlock n (used + 1) (ptr + len) end
          → IsSound (set_pc h (u64 (h.cpu.pc + len))).cpu
          → Finishes U Never
              (Ran n counter)
              (rest (used + 1) (ptr + len) end (set_pc h (u64 (h.cpu.pc + len)))))
      → ((h : Hart D)
          → o ≡ jump h
          → InBlock n (used + 1) 0 0
          → IsSound h.cpu
          → Finishes U Never (Ran n counter) (rest (used + 1) 0 0 h))
      → ((h : Hart D) → (o ≡ undefined h) ⊎ (o ≡ floating h) → U h)
      → SoundEnds o
      → Finishes U Never (Ran n counter) (after_insn rest counter used insn ptr end o)
  unfolding after_insn
  after_insn-Finishes U rest used insn ptr end o le short k j why (next_ends len h two v) =
      let even : h.cpu.pc % 2 ≡ 0 → u64 (h.cpu.pc + len) % 2 ≡ 0 =
        λ e. even_step h.cpu.pc len two e in
      k len h refl (record { cycles = omega arith; short = room len two short })
        (Effect-IsSound (set_pc-Effect h _ (Effect-refl h.cpu) even) v)
    where
      even_step : (pc len : ℕ) → (len ≡ 2) ⊎ (len ≡ 4) → pc % 2 ≡ 0 → u64 (pc + len) % 2 ≡ 0
      even_step pc len two e = ground arith

      room :
          (len : ℕ)
          → (len ≡ 2) ⊎ (len ≡ 4)
          → (end ≤ ptr) ⊎ (2 * used + end ≤ 2 * n + 4098 + ptr)
          → (end ≤ ptr + len) ⊎ (2 * (used + 1) + end ≤ 2 * n + 4098 + (ptr + len))
      room len two (inl past) = inl (omega arith)
      room len two (inr fits) = inr (omega arith)
  after_insn-Finishes U rest used insn ptr end o le short k j why (jump_ends h v) =
      j h refl (record { cycles = omega arith; short = inl (omega arith) }) v
  after_insn-Finishes U rest used insn ptr end o le short k j why (illegal_ends h v) =
      the_end-Finishes (used + 1) _ (omega arith) (omega arith) (take_illegal-IsSound h insn v)
  after_insn-Finishes U rest used insn ptr end o le short k j why (exception_ends h v) =
      the_end-Finishes (used + 1) _ (omega arith) (omega arith) (take_exception-IsSound _ h v)
  after_insn-Finishes U rest used insn ptr end o le short k j why (done_ends h v) =
      the_end-Finishes (used + 1) h (omega arith) (omega arith) v
  after_insn-Finishes U rest used insn ptr end o le short k j why (undefined_ends h v) =
      unknowns h (why h (inl refl))
  after_insn-Finishes U rest used insn ptr end o le short k j why (floating_ends h v) =
      unknowns h (why h (inr refl))

  module _ (xlen : ℕ) (w : IsWidth xlen) where
    after_fetch-Finishes :
        (fuel used ptr end : ℕ) (h : Hart D) (f : Fetch D)
        → fetch_insn n used ptr end h ≡ f
        → used ≤ n + 2049
        → ((ptr' end' : ℕ) (h' : Hart D)
            → InBlock n (used + 1) ptr' end'
            → IsSound h'.cpu
            → Finishes
                (λ t. Meets dev xlen n counter t (used + 1) ptr' end' h')
                Never
                (Ran n counter)
                (interp_loop dev xlen n counter fuel (used + 1) ptr' end' h'))
        → IsFetched n used f
        → Finishes
            (λ t. Meets dev xlen n counter t used ptr end h)
            Never
            (Ran n counter)
            (after_fetch dev xlen n counter (interp_loop dev xlen n counter fuel) used f)
    unfolding after_fetch
    after_fetch-Finishes fuel used ptr end h f e le k (at_insn insn ptr' end' g v short few) =
        after_insn-Finishes (λ t. Meets dev xlen n counter t used ptr end h)
          (interp_loop dev xlen n counter fuel) used insn ptr' end' _ few short
          (λ len h' o inside sound.
            Finishes-map (λ t m. passes used ptr end insn ptr' end' len h g h' e o m) (λ t a. a)
              (k (ptr' + len) end' _ inside sound))
          (λ h' o inside sound.
            Finishes-map (λ t m. jumps used ptr end insn ptr' end' h g h' e o m) (λ t a. a)
              (k 0 0 h' inside sound))
          (λ t o. meets used ptr end insn ptr' end' h g e o)
          (exec_insn-SoundEnds dev xlen g insn (u64 (counter + used)) w v)
    after_fetch-Finishes fuel used ptr end h f e le k (at_the_end g v one) =
        the_end-Finishes used g one (omega arith) v
    after_fetch-Finishes fuel used ptr end h f e le k (at_exception g v more) =
        the_end-Finishes (used + 1) _ (omega arith) (omega arith) (take_exception-IsSound _ g v)

    pub interp_loop-Finishes :
        (fuel used ptr end : ℕ) (h : Hart D)
        → 1 ≤ n
        → used + fuel ≡ n + 2050
        → InBlock n used ptr end
        → IsSound h.cpu
        → (used ≡ 0 → (check_interrupts h).0 ≡ false)
        → Finishes
            (λ t. Meets dev xlen n counter t used ptr end h)
            Never
            (Ran n counter)
            (interp_loop dev xlen n counter fuel used ptr end h)
    unfolding interp_loop
    interp_loop-Finishes zero used ptr end h one total inside v first =
        absurd (omega (arith, inside.cycles))
    interp_loop-Finishes (suc fuel) used ptr end h one total inside v first =
        after_fetch-Finishes fuel used ptr end h _ refl inside.cycles
          (λ ptr' end' h' inside' v'.
            interp_loop-Finishes fuel (used + 1) ptr' end' h' one (omega arith) inside' v'
              (λ e. absurd (omega arith)))
          (fetch_insn-IsFetched n used ptr end h one inside v first)
