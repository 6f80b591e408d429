-- ===== src/Machine/Clint.antt =====
-- The timer: its compare register, and when the hart may sleep.
use d_risc_v_emulator_tinyem.Base.{
  bit_not, clear_digit, bit_and-le, tst, ℕ, ◌+◌, ◌-◌, ◌*◌, ◌^◌, ◌≤◌, ◌<◌, ◌≡◌, ◌∙◌, ◌⊎◌, inl, inr,
  ap, refl, arith, Bool-cases, ◌==◌, leb, ◌||◌, true, false, some, bit, bit_and, bit_or,
  bit_or_halves, bit_and-mask, u64, tst_lem, set_digit,
}
use d_risc_v_emulator_tinyem.Riscv.Irq.{set_mip, reset_mip}
use d_risc_v_emulator_tinyem.Riscv.State.{RiscvCpuState}
use d_risc_v_emulator_tinyem.Machine.{
  RiscvMachine, rtc_get_time, clint_read, clint_write, riscv_machine_get_sleep_duration,
}

and-zero : (a : ℕ) → bit_and a 0 ≡ 0
and-zero a = bit_and-mask a 0 ∙ omega arith

or-zero : (a : ℕ) → bit_or 0 a ≡ a
or-zero a = ap (bit_or 0) (omega arith) ∙ bit_or_halves 0 0 a (omega arith) ∙ omega arith

keep_low : (lo : ℕ) → lo < 2 ^ 32 → bit_and lo 0xffffffff ≡ lo
keep_low lo h = bit_and-mask lo 32 ∙ omega arith

clint_write-low :
    (m : RiscvMachine) (val : ℕ)
    → clint_write m 0x4000 val 2
      ≡ some (record m { timecmp = val; cpu_state = reset_mip m.cpu_state 0x80 })
unfolding clint_write reset_mip bit_not
clint_write-low m val = rw (and-zero m.timecmp, or-zero val) refl

-- After a write of the low word of the compare register, that word reads back, and the high word
-- reads as 0, whatever it was before.
pub clint_read-clint_write_low :
    (m : RiscvMachine) (now : ℕ × ℕ) (val : ℕ)
    → val < 2 ^ 32
    → (t : RiscvMachine) × (clint_write m 0x4000 val 2 ≡ some t)
      × (clint_read t now 0x4000 2 ≡ some val)
      × (clint_read t now 0x4004 2 ≡ some 0)
unfolding clint_read
clint_read-clint_write_low m now val h = (
  record m { timecmp = val; cpu_state = reset_mip m.cpu_state 0x80 },
  clint_write-low m val,
  ap (λ (n : ℕ). some n) (omega arith),
  ap (λ (n : ℕ). some n) (omega arith),
)

mtip_down : (s : RiscvCpuState) → s.mip < 2 ^ 32 → tst (reset_mip s 0x80).mip 0x80 ≡ false
unfolding reset_mip
mtip_down s h =
    tst_lem (bit_and s.mip (bit_not 32 0x80)) 7
    ∙ ground (arith, clear_digit 32 s.mip 7 7 h (omega arith))

mtip_up : (s : RiscvCpuState) → bit (set_mip s 0x80).mip 7 ≡ 1
unfolding set_mip
mtip_up s = ground (arith, set_digit s.mip 7 7)

reset_mip-lt : (s : RiscvCpuState) (mask : ℕ) → s.mip < 2 ^ 32 → (reset_mip s mask).mip < 2 ^ 32
unfolding reset_mip
reset_mip-lt s mask h = omega (arith, bit_and-le s.mip (bit_not 32 mask))

-- On a hart whose mip is a 32-bit word, writing the low word of the compare register and then the high word succeeds, stores the two as
-- one 64-bit number, which is what the two reads give back, and each takes the timer interrupt down.
pub clint_read-clint_write :
    (m : RiscvMachine) (now : ℕ × ℕ) (lo hi : ℕ)
    → m.cpu_state.mip < 2 ^ 32
    → lo < 2 ^ 32
    → hi < 2 ^ 32
    → (t : RiscvMachine) × (u : RiscvMachine) × (clint_write m 0x4000 lo 2 ≡ some t)
      × (clint_write t 0x4004 hi 2 ≡ some u)
      × (u.timecmp ≡ lo + hi * 2 ^ 32)
      × (clint_read u now 0x4000 2 ≡ some lo)
      × (clint_read u now 0x4004 2 ≡ some hi)
      × (tst t.cpu_state.mip 0x80 ≡ false)
      × (tst u.cpu_state.mip 0x80 ≡ false)
unfolding clint_read
clint_read-clint_write m now lo hi v h k =
    let t = record m { timecmp = lo; cpu_state = reset_mip m.cpu_state 0x80 } in
    let u = record t { timecmp = lo + hi * 2 ^ 32; cpu_state = reset_mip t.cpu_state 0x80 } in
    (
      t,
      u,
      clint_write-low m lo,
      unfold clint_write in rw (keep_low lo h, bit_or_halves 32 lo hi h) refl,
      refl,
      ap (λ (n : ℕ). some n) (omega arith),
      ap (λ (n : ℕ). some n) (omega arith),
      mtip_down m.cpu_state v,
      mtip_down t.cpu_state (reset_mip-lt m.cpu_state 0x80 v),
    )

-- How long the machine may sleep, and the state that it leaves.
pub data Sleeps (m t : RiscvMachine) (time d : ℕ) : Type 0 where
  pending : bit m.cpu_state.mip 7 ≡ 1 → t ≡ m → Sleeps m t time d
  due : m.timecmp ≤ time → d ≡ 0 → bit t.cpu_state.mip 7 ≡ 1 → Sleeps m t time d
  waits : time < m.timecmp → t ≡ m → time + d * 10000 ≤ m.timecmp → Sleeps m t time d

-- The time to sleep is never more than was asked for, and 0 for a hart that is not powered down.
-- With both times below 2 ^ 63, if the timer interrupt is not yet pending, then it is made pending
-- without sleep if its time has come; else nothing changes and the sleep ends before the timer does.
pub riscv_machine_get_sleep_duration_lem :
    (m : RiscvMachine) (now : ℕ × ℕ) (delay : ℕ)
    → m.timecmp < 2 ^ 63
    → rtc_get_time m now < 2 ^ 63
    → let (d, t) = riscv_machine_get_sleep_duration m now delay in
      (d ≤ delay)
      × ((d ≡ 0) ⊎ (t.cpu_state.power_down_flag ≡ true))
      × Sleeps m t (rtc_get_time m now) d
unfolding riscv_machine_get_sleep_duration
riscv_machine_get_sleep_duration_lem m now delay h k = (
  ground arith,
  ground arith,
  elim (Bool-cases (tst m.cpu_state.mip 0x80)) [
    | inl set ↦ rw set (pending (ground (arith, tst_lem m.cpu_state.mip 7)) refl)
    | inr clear ↦ elim (Bool-cases (leb m.timecmp (rtc_get_time m now))) [
      | inl late ↦
          let over : (u64 (m.timecmp + 2 ^ 64 - rtc_get_time m now) == 0
                || leb (2 ^ 63) (u64 (m.timecmp + 2 ^ 64 - rtc_get_time m now)))
              ≡ true =
            ground arith in
          rw (clear, over) (due (ground arith) (ground arith) (mtip_up m.cpu_state))
      | inr early ↦
          let over : (u64 (m.timecmp + 2 ^ 64 - rtc_get_time m now) == 0
                || leb (2 ^ 63) (u64 (m.timecmp + 2 ^ 64 - rtc_get_time m now)))
              ≡ false =
            ground arith in
          rw (clear, over) (waits (ground arith) refl (ground arith))
    ]
  ],
)
