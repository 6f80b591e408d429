-- ===== src/Riscv/Irq.antt =====
-- riscv_cpu.c: pending interrupts, and the calls by which devices set them.
pub mod Pending
use d_risc_v_emulator_tinyem.Base.{
  ℕ, ◌-◌, ◌^◌, bit_and, bit_or, bit_not, Bool, true, false, not, ◌&&◌, ◌==◌, if◌then◌else◌, tst,
}
use d_risc_v_emulator_tinyem.Cutils.{ctz32}
use d_risc_v_emulator_tinyem.Riscv.State.{
  RiscvCpuState, cause_interrupt, prv_s, prv_m, mstatus_sie, mstatus_mie,
}
use d_risc_v_emulator_tinyem.Riscv.Trap.{raise_exception}

-- The interrupts that the privilege and mstatus let through.
unfoldable pub enabled_ints : RiscvCpuState → ℕ
enabled_ints s =
    if s.priv == prv_m
    then (if tst s.mstatus mstatus_mie then bit_not 32 s.mideleg else 0)
    else if s.priv == prv_s
    then (if tst s.mstatus mstatus_sie
        then bit_or (bit_not 32 s.mideleg) s.mideleg
        else bit_not 32 s.mideleg)
    else 2 ^ 32 - 1

unfoldable pub get_pending_irq_mask : RiscvCpuState → ℕ
get_pending_irq_mask s =
    let pending_ints = bit_and s.mip s.mie in
    if pending_ints == 0 then 0 else bit_and pending_ints (enabled_ints s)

-- The flag is the return value: true is -1, an interrupt was taken.
unfoldable pub raise_interrupt : RiscvCpuState → Bool × RiscvCpuState
raise_interrupt s =
    let mask = get_pending_irq_mask s in
    if mask == 0
    then (false, s)
    else (true, raise_exception s (bit_or (ctz32 mask) cause_interrupt))

unfoldable pub set_mip : RiscvCpuState → ℕ → RiscvCpuState
set_mip s mask =
    let mip = bit_or s.mip mask in
    record s {
      mip = mip;
      power_down_flag =
          if s.power_down_flag && not (bit_and mip s.mie == 0) then false else s.power_down_flag;
    }

unfoldable pub reset_mip : RiscvCpuState → ℕ → RiscvCpuState
reset_mip s mask = record s { mip = bit_and s.mip (bit_not 32 mask) }
