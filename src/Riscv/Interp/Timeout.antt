-- ===== src/Riscv/Interp/Timeout.antt =====
-- riscv_cpu_template.h and riscv_cpu.c: a run of the interpreter, and the loop over runs, end.
use d_risc_v_emulator_tinyem.Base.{◌≢◌, ℕ, ◌+◌, ◌≤◌, ◌≡◌, ◌⊎◌, true}
use d_risc_v_emulator_tinyem.Base.Int.{negsuc}
use d_risc_v_emulator_tinyem.Riscv.Access.{Devices, Hart}
use d_risc_v_emulator_tinyem.Riscv.Exec.Effect.{Effect, IsSound}
use d_risc_v_emulator_tinyem.Riscv.Exec.System.{set_cpu}
use d_risc_v_emulator_tinyem.Riscv.Interp.{
  returned, check_interrupts, interp_width, cycles_left, goes_on,
}
use d_risc_v_emulator_tinyem.Riscv.Interp.Progress.{Meets}

-- `s->pending_exception = -1`
abbrev pub cleared : {D : Type 0} → Hart D → Hart D
cleared h = set_cpu h (record h.cpu { pending_exception = negsuc 0 })

-- A run of `n` cycles from `h` comes to an instruction that the model does not know, which leaves `t`.
abbrev pub RunMeets : {D : Type 0} → Devices D → ℕ → Hart D → ℕ → Hart D → Type 0
RunMeets dev xlen h n t =
    Meets dev xlen n h.cpu.insn_counter t 0 0 0 (cleared (check_interrupts h).1)

-- The run in the hart's width.
abbrev pub WidthMeets : {D : Type 0} → Devices D → Hart D → ℕ → Hart D → Type 0
WidthMeets dev h n t =
    ((h.cpu.cur_xlen ≡ 32) × RunMeets dev 32 h n t)
    ⊎ ((h.cpu.cur_xlen ≡ 64) × RunMeets dev 64 h n t)

-- A hart of no legal width.
abbrev pub HasNoWidth : {D : Type 0} → Hart D → Type 0
HasNoWidth h = (h.cpu.cur_xlen ≢ 32) × (h.cpu.cur_xlen ≢ 64)

-- The loop over runs, up to the timeout, comes to such an instruction: in its first run, or after a run
-- that returned.
pub data LoopMeets {D : Type 0} (dev : Devices D) (timeout : ℕ) (t : Hart D) : Hart D → Type 0 where
  in_this_run :
      (h : Hart D)
      → goes_on timeout h ≡ true
      → WidthMeets dev h (cycles_left timeout h) t
      → LoopMeets dev timeout t h
  in_a_later_run :
      (used : ℕ) (h h' : Hart D)
      → goes_on timeout h ≡ true
      → interp_width dev h (cycles_left timeout h) ≡ returned used h'
      → LoopMeets dev timeout t h'
      → LoopMeets dev timeout t h

-- How `riscv_cpu_interp` returns after `total` cycles: a well-formed hart that sleeps, or all cycles.
pub record Elapsed {D : Type 0} (n total : ℕ) (h : Hart D) : Type 0 where
  pub sound : IsSound h.cpu
  pub over : (h.cpu.power_down_flag ≡ true) ⊎ (n ≤ total)
  pub bounded : total ≤ n + 2050
