-- ===== src/Machine.antt =====
-- riscv_machine.c: the host-target interface, the clock with its timer, and the interrupt controller.
-- The hart is part of the machine's state. The time of the host is an argument `now`, and what goes
-- to the console, or ends the program, is a value that the handler returns. An access of a size that
-- the source asserts away is `none`.
pub mod Plic
pub mod Clint
pub mod Htif
mod Tests
use d_risc_v_emulator_tinyem.Base.{
  ℕ, ◌+◌, ◌-◌, ◌*◌, ◌/◌, ◌%◌, ◌^◌, ◌<◌, bit_and, bit_or, bit_not, Bool, true, false, not, ◌&&◌,
  ◌||◌, ◌==◌, ltb, leb, if◌then◌else◌, u32, u64, tst, Option, none, some,
}
use d_risc_v_emulator_tinyem.Cutils.{ctz32}
use d_risc_v_emulator_tinyem.Riscv.State.{RiscvCpuState, mip_mtip, mip_seip, mip_meip}
use d_risc_v_emulator_tinyem.Riscv.Irq.{set_mip, reset_mip}

pub record RiscvMachine : Type 0 where
  pub cpu_state : RiscvCpuState
  pub rtc_real_time : Bool
  pub rtc_start_time : ℕ
  pub timecmp : ℕ
  pub plic_pending_irq : ℕ
  pub plic_served_irq : ℕ
  pub htif_tohost : ℕ
  pub htif_fromhost : ℕ

abbrev pub rtc_freq : ℕ
rtc_freq = 10000000

abbrev pub rtc_freq_div : ℕ
rtc_freq_div = 16

-- `clock_gettime(CLOCK_MONOTONIC, &ts)` gives the seconds and the nanoseconds.
unfoldable pub rtc_get_real_time : ℕ × ℕ → ℕ
rtc_get_real_time (tv_sec, tv_nsec) = u64 (tv_sec * rtc_freq + tv_nsec / (1000000000 / rtc_freq))

unfoldable pub riscv_cpu_get_cycles : RiscvCpuState → ℕ
riscv_cpu_get_cycles s = s.insn_counter

unfoldable pub rtc_get_time : RiscvMachine → ℕ × ℕ → ℕ
rtc_get_time m now =
    if m.rtc_real_time
    then u64 (rtc_get_real_time now + 2 ^ 64 - m.rtc_start_time)
    else riscv_cpu_get_cycles m.cpu_state / rtc_freq_div

-- The word at an offset of the host-target interface.
unfoldable pub htif_read : RiscvMachine → ℕ → ℕ → Option ℕ
htif_read s offset size_log2 =
    let val =
      if offset == 0
      then u32 s.htif_tohost
      else if offset == 4
      then u32 (s.htif_tohost / 2 ^ 32)
      else if offset == 8
      then u32 s.htif_fromhost
      else if offset == 12
      then u32 (s.htif_fromhost / 2 ^ 32)
      else 0 in
    if size_log2 == 2 then some val else none

-- What a command of the host-target interface does outside the machine.
pub data HtifOutput : Type 0 where
  power_off : HtifOutput
  write_data : ℕ → HtifOutput
  unsupported : HtifOutput
  silent : HtifOutput

unfoldable pub htif_handle_cmd : RiscvMachine → HtifOutput × RiscvMachine
htif_handle_cmd s =
    let device = s.htif_tohost / 2 ^ 56 in
    let cmd = bit_and (s.htif_tohost / 2 ^ 48) 0xff in
    if s.htif_tohost == 1
    then (power_off, s)
    else if device == 1 && cmd == 1
    then (
      write_data (bit_and s.htif_tohost 0xff),
      record s { htif_tohost = 0; htif_fromhost = bit_or (device * 2 ^ 56) (cmd * 2 ^ 48) },
    )
    else if device == 1 && cmd == 0
    then (silent, record s { htif_tohost = 0 })
    else (unsupported, s)

-- The mask `~0xffffffff`, of the type of its operand `unsigned int`.
abbrev pub low_mask : ℕ
low_mask = bit_not 32 0xffffffff

unfoldable pub htif_write : RiscvMachine → ℕ → ℕ → ℕ → Option (HtifOutput × RiscvMachine)
htif_write s offset val size_log2 =
    let out =
      if offset == 0
      then (silent, record s { htif_tohost = bit_or (bit_and s.htif_tohost low_mask) val })
      else if offset == 4
      then htif_handle_cmd
          (record s { htif_tohost = bit_or (bit_and s.htif_tohost 0xffffffff) (val * 2 ^ 32) })
      else if offset == 8
      then (silent, record s { htif_fromhost = bit_or (bit_and s.htif_fromhost low_mask) val })
      else if offset == 12
      then (
        silent,
        record s { htif_fromhost = bit_or (bit_and s.htif_fromhost 0xffffffff) (val * 2 ^ 32) },
      )
      else (silent, s) in
    if size_log2 == 2 then some out else none

unfoldable pub clint_read : RiscvMachine → ℕ × ℕ → ℕ → ℕ → Option ℕ
clint_read m now offset size_log2 =
    let val =
      if offset == 0xbff8
      then u32 (rtc_get_time m now)
      else if offset == 0xbffc
      then u32 (rtc_get_time m now / 2 ^ 32)
      else if offset == 0x4000
      then u32 m.timecmp
      else if offset == 0x4004
      then u32 (m.timecmp / 2 ^ 32)
      else 0 in
    if size_log2 == 2 then some val else none

unfoldable pub clint_write : RiscvMachine → ℕ → ℕ → ℕ → Option RiscvMachine
clint_write m offset val size_log2 =
    let m' =
      if offset == 0x4000
      then record m {
        timecmp = bit_or (bit_and m.timecmp low_mask) val;
        cpu_state = reset_mip m.cpu_state mip_mtip;
      }
      else if offset == 0x4004
      then record m {
        timecmp = bit_or (bit_and m.timecmp 0xffffffff) (val * 2 ^ 32);
        cpu_state = reset_mip m.cpu_state mip_mtip;
      }
      else m in
    if size_log2 == 2 then some m' else none

-- The interrupts that wait to be claimed.
abbrev pub claimable : RiscvMachine → ℕ
claimable s = bit_and s.plic_pending_irq (bit_not 32 s.plic_served_irq)

unfoldable pub plic_update_mip : RiscvMachine → RiscvMachine
plic_update_mip s =
    let lines = bit_or mip_meip mip_seip in
    record s {
      cpu_state =
          if not (claimable s == 0) then set_mip s.cpu_state lines else reset_mip s.cpu_state lines;
    }

abbrev pub plic_hart_base : ℕ
plic_hart_base = 0x200000

-- A read of the claim register takes an interrupt.
unfoldable pub plic_read : RiscvMachine → ℕ → ℕ → Option (ℕ × RiscvMachine)
plic_read s offset size_log2 =
    let mask = claimable s in
    let i = ctz32 mask in
    let out =
      if offset == plic_hart_base
      then (0, s)
      else if offset == plic_hart_base + 4
      then (if not (mask == 0)
          then (
            i + 1,
            plic_update_mip (record s { plic_served_irq = bit_or s.plic_served_irq (2 ^ i) }),
          )
          else (0, s))
      else (0, s) in
    if size_log2 == 2 then some out else none

unfoldable pub plic_write : RiscvMachine → ℕ → ℕ → ℕ → Option RiscvMachine
plic_write s offset val size_log2 =
    let val' = u32 (val + 2 ^ 32 - 1) in
    let s' =
      if offset == plic_hart_base + 4
      then (if ltb val' 32
          then plic_update_mip
              (record s { plic_served_irq = bit_and s.plic_served_irq (bit_not 32 (2 ^ val')) })
          else s)
      else s in
    if size_log2 == 2 then some s' else none

-- `irq_num` is from 1 to 32.
unfoldable pub plic_set_irq : RiscvMachine → ℕ → Bool → RiscvMachine
plic_set_irq s irq_num state =
    let mask = 2 ^ (irq_num - 1) in
    plic_update_mip (record s {
      plic_pending_irq =
          if state
          then bit_or s.plic_pending_irq mask
          else bit_and s.plic_pending_irq (bit_not 32 mask);
    })

-- The hart's `riscv_cpu_get_mip` and `riscv_cpu_get_power_down` are the fields; `delay` and the
-- result are milliseconds, not negative, and `timecmp - now` is a signed 64-bit number.
unfoldable pub riscv_machine_get_sleep_duration : RiscvMachine → ℕ × ℕ → ℕ → ℕ × RiscvMachine
riscv_machine_get_sleep_duration m now delay =
    let delay1 = u64 (m.timecmp + 2 ^ 64 - rtc_get_time m now) in
    let waits = not (tst m.cpu_state.mip mip_mtip) in
    let due = delay1 == 0 || leb (2 ^ 63) delay1 in
    let m' = if waits && due then record m { cpu_state = set_mip m.cpu_state mip_mtip } else m in
    let ms = delay1 / (rtc_freq / 1000) in
    let delay' = if waits then (if due then 0 else if ltb ms delay then ms else delay) else delay in
    (if not m'.cpu_state.power_down_flag then 0 else delay', m')
