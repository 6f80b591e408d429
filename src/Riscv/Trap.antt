-- ===== src/Riscv/Trap.antt =====
-- riscv_cpu.c: entering a trap, and returning from one.
pub mod Fields
pub mod Entry
pub mod Return
pub mod Coherence
use d_risc_v_emulator_tinyem.Base.{
  ℕ, ◌+◌, ◌-◌, ◌*◌, ◌/◌, ◌^◌, bit_and, bit_or, bit_not, Bool, false, not, ltb, leb, ◌==◌,
  if◌then◌else◌, tst, u64,
}
use d_risc_v_emulator_tinyem.Riscv.State.{
  RiscvCpuState, max_xlen, cause_interrupt, prv_s, prv_m, mstatus_spie_shift, mstatus_mpie_shift,
  mstatus_spp_shift, mstatus_mpp_shift, mstatus_sie, mstatus_mie, mstatus_spie, mstatus_mpie,
  mstatus_spp, mstatus_mpp,
}
use d_risc_v_emulator_tinyem.Riscv.Mstatus.{set_priv}

-- Whether the exception is handed to the supervisor.
unfoldable pub delegated : RiscvCpuState → ℕ → Bool
delegated s cause =
    if leb s.priv prv_s
    then (if tst cause cause_interrupt
        then not (bit_and (s.mideleg / 2 ^ bit_and cause (max_xlen - 1)) 1 == 0)
        else not (bit_and (s.medeleg / 2 ^ cause) 1 == 0))
    else false

-- The value of scause or mcause.
unfoldable pub cause_value : RiscvCpuState → ℕ → ℕ
cause_value s cause =
    let causel = bit_and cause 0x7fffffff in
    if tst cause cause_interrupt then bit_or causel (u64 (2 ^ (s.cur_xlen - 1))) else causel

-- mstatus on entering the supervisor from `priv`.
unfoldable pub enter_s : ℕ → ℕ → ℕ
enter_s mstatus priv =
    let m1 =
      bit_or (bit_and mstatus (bit_not 64 mstatus_spie))
        (bit_and (mstatus / 2 ^ priv) 1 * 2 ^ mstatus_spie_shift) in
    let m2 = bit_or (bit_and m1 (bit_not 64 mstatus_spp)) (priv * 2 ^ mstatus_spp_shift) in
    bit_and m2 (bit_not 64 mstatus_sie)

-- mstatus on entering machine mode from `priv`.
unfoldable pub enter_m : ℕ → ℕ → ℕ
enter_m mstatus priv =
    let m1 =
      bit_or (bit_and mstatus (bit_not 64 mstatus_mpie))
        (bit_and (mstatus / 2 ^ priv) 1 * 2 ^ mstatus_mpie_shift) in
    let m2 = bit_or (bit_and m1 (bit_not 64 mstatus_mpp)) (priv * 2 ^ mstatus_mpp_shift) in
    bit_and m2 (bit_not 64 mstatus_mie)

unfoldable pub raise_exception2 : RiscvCpuState → ℕ → ℕ → RiscvCpuState
raise_exception2 s cause tval =
    if delegated s cause
    then (let s1 = record s {
      scause = cause_value s cause;
      sepc = s.pc;
      stval = tval;
      mstatus = enter_s s.mstatus s.priv;
    } in
        let s2 = set_priv s1 prv_s in record s2 { pc = s2.stvec })
    else (let s1 = record s {
      mcause = cause_value s cause;
      mepc = s.pc;
      mtval = tval;
      mstatus = enter_m s.mstatus s.priv;
    } in
        let s2 = set_priv s1 prv_m in record s2 { pc = s2.mtvec })

unfoldable pub raise_exception : RiscvCpuState → ℕ → RiscvCpuState
raise_exception s cause = raise_exception2 s cause 0

-- mstatus after `sret`, from the previous privilege and interrupt enable that it holds.
unfoldable pub leave_s : ℕ → ℕ
leave_s mstatus =
    let spp = bit_and (mstatus / 2 ^ mstatus_spp_shift) 1 in
    let spie = bit_and (mstatus / 2 ^ mstatus_spie_shift) 1 in
    let m1 = bit_or (bit_and mstatus (bit_not 64 (2 ^ spp))) (spie * 2 ^ spp) in
    let m2 = bit_or m1 mstatus_spie in bit_and m2 (bit_not 64 mstatus_spp)

unfoldable pub leave_m : ℕ → ℕ
leave_m mstatus =
    let mpp = bit_and (mstatus / 2 ^ mstatus_mpp_shift) 3 in
    let mpie = bit_and (mstatus / 2 ^ mstatus_mpie_shift) 1 in
    let m1 = bit_or (bit_and mstatus (bit_not 64 (2 ^ mpp))) (mpie * 2 ^ mpp) in
    let m2 = bit_or m1 mstatus_mpie in bit_and m2 (bit_not 64 mstatus_mpp)

unfoldable pub handle_sret : RiscvCpuState → RiscvCpuState
handle_sret s =
    let spp = bit_and (s.mstatus / 2 ^ mstatus_spp_shift) 1 in
    let s1 = record s { mstatus = leave_s s.mstatus } in
    let s2 = set_priv s1 spp in record s2 { pc = s2.sepc }

unfoldable pub handle_mret : RiscvCpuState → RiscvCpuState
handle_mret s =
    let mpp = bit_and (s.mstatus / 2 ^ mstatus_mpp_shift) 3 in
    let s1 = record s { mstatus = leave_m s.mstatus } in
    let s2 = set_priv s1 mpp in record s2 { pc = s2.mepc }
