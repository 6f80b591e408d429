-- ===== src/Riscv/Steps.antt =====
-- The operations on a hart as steps, and what holds of every state that they reach.
use d_risc_v_emulator_tinyem.Base.{
  lt_of_bits, lt_pow→bit, bit_lt_two, ℕ, ◌/◌, ◌%◌, ◌^◌, ◌≤◌, ◌<◌, ◌≡◌, arith, Bool-cases, inl, inr,
  bit_and, bit_and-le, bit_or-lt, bit_not,
}
use d_risc_v_emulator_tinyem.Riscv.State.{RiscvCpuState}
use d_risc_v_emulator_tinyem.Riscv.Mstatus.{set_priv}
use d_risc_v_emulator_tinyem.Riscv.Mstatus.Priv.{set_priv_frame, priv-set_priv}
use d_risc_v_emulator_tinyem.Riscv.Csr.{csr_write}
use d_risc_v_emulator_tinyem.Riscv.Trap.{
  delegated, cause_value, enter_s, enter_m, leave_s, leave_m, raise_exception2, handle_sret,
  handle_mret,
}
use d_risc_v_emulator_tinyem.Riscv.Trap.Fields.{leave_s-bit, leave_m-bit, enter_s-lt, enter_m-lt}
use d_risc_v_emulator_tinyem.Riscv.Irq.{set_mip, reset_mip}
use d_risc_v_emulator_tinyem.Riscv.Init.{riscv_cpu_init}
use native.Mathlib.Nat.{mod-lt}
use d_risc_v_emulator_tinyem.Riscv.Invariant.{IsValid, riscv_cpu_init-IsValid, csr_write-IsValid}

-- Changing the mode, and then the address, of a valid state.
set_priv-IsValid : (s : RiscvCpuState) (p : ℕ) → p ≤ 3 → IsValid s → IsValid (set_priv s p)
set_priv-IsValid s p h v = rw (set_priv_frame s p) (
    let mode : (set_priv s p).priv ≤ 3 = omega (arith, priv-set_priv s p) in
    record {
      mode_fits = mode;
      mstatus_fits = v.mstatus_fits;
      fs_fits = v.fs_fits;
      frm_valid = v.frm_valid;
      fflags_fits = v.fflags_fits;
      mxl_valid = v.mxl_valid;
      mie_fits = v.mie_fits;
      mip_fits = v.mip_fits;
      medeleg_fits = v.medeleg_fits;
      mideleg_fits = v.mideleg_fits;
      satp_valid = v.satp_valid;
      pc_even = v.pc_even;
      sepc_even = v.sepc_even;
      mepc_even = v.mepc_even;
      stvec_aligned = v.stvec_aligned;
      mtvec_aligned = v.mtvec_aligned;
    })

jump-IsValid : (s : RiscvCpuState) (a : ℕ) → a % 2 ≡ 0 → IsValid s → IsValid (record s { pc = a })
jump-IsValid s a h v = ground arith

pub raise_exception2-IsValid :
    (s : RiscvCpuState) (cause tval : ℕ) → IsValid s → IsValid (raise_exception2 s cause tval)
unfolding raise_exception2
raise_exception2-IsValid s cause tval v = elim (Bool-cases (delegated s cause)) [
  | inl d ↦
      let e = enter_s-lt s.mstatus s.priv v.mstatus_fits (unfold delegated in ground arith) in
      let w =
        set_priv-IsValid
          (record s {
            scause = cause_value s cause;
            sepc = s.pc;
            stval = tval;
            mstatus = enter_s s.mstatus s.priv;
          })
          1 (omega arith) (ground arith) in
      rw d (jump-IsValid _ _ (omega (arith, w.stvec_aligned)) w)
  | inr d ↦
      let e = enter_m-lt s.mstatus s.priv v.mstatus_fits v.mode_fits in
      let w =
        set_priv-IsValid
          (record s {
            mcause = cause_value s cause;
            mepc = s.pc;
            mtval = tval;
            mstatus = enter_m s.mstatus s.priv;
          })
          3 (omega arith) (ground arith) in
      rw d (jump-IsValid _ _ (omega (arith, w.mtvec_aligned)) w)
]

leave_s-lt : (m : ℕ) → m < 2 ^ 64 → leave_s m < 2 ^ 64
leave_s-lt m h =
    lt_of_bits 64 _ (λ i k. ground (arith, leave_s-bit m i h, lt_pow→bit 64 m i h, bit_lt_two m 8))

leave_m-lt : (m : ℕ) → m < 2 ^ 64 → leave_m m < 2 ^ 64
leave_m-lt m h =
    lt_of_bits 64 _
      (λ i k. ground (arith, leave_m-bit m i h, lt_pow→bit 64 m i h, mod-lt (m / 2 ^ 11) {m = 4}))

pub handle_sret-IsValid : (s : RiscvCpuState) → IsValid s → IsValid (handle_sret s)
unfolding handle_sret
handle_sret-IsValid s v =
    let e = leave_s-lt s.mstatus v.mstatus_fits in
    let w =
      set_priv-IsValid (record s { mstatus = leave_s s.mstatus }) (bit_and (s.mstatus / 2 ^ 8) 1)
        (omega (arith, bit_and-le (s.mstatus / 2 ^ 8) 1)) (ground arith) in
    jump-IsValid _ _ w.sepc_even w

pub handle_mret-IsValid : (s : RiscvCpuState) → IsValid s → IsValid (handle_mret s)
unfolding handle_mret
handle_mret-IsValid s v =
    let e = leave_m-lt s.mstatus v.mstatus_fits in
    let w =
      set_priv-IsValid (record s { mstatus = leave_m s.mstatus }) (bit_and (s.mstatus / 2 ^ 11) 3)
        (omega (arith, bit_and-le (s.mstatus / 2 ^ 11) 3)) (ground arith) in
    jump-IsValid _ _ w.mepc_even w

set_mip-IsValid :
    (s : RiscvCpuState) (mask : ℕ) → mask < 2 ^ 32 → IsValid s → IsValid (set_mip s mask)
unfolding set_mip
set_mip-IsValid s mask h v = ground (arith, bit_or-lt 32 s.mip mask v.mip_fits h)

reset_mip-IsValid : (s : RiscvCpuState) (mask : ℕ) → IsValid s → IsValid (reset_mip s mask)
unfolding reset_mip
reset_mip-IsValid s mask v = ground (arith, bit_and-le s.mip (bit_not 32 mask))

-- What the interpreter and the devices do to the control state of a hart.
pub data HartStep : RiscvCpuState → RiscvCpuState → Type 0 where
  csr : (s : RiscvCpuState) (n val : ℕ) → val < 2 ^ 64 → HartStep s (csr_write s n val).1
  trap : (s : RiscvCpuState) (cause tval : ℕ) → HartStep s (raise_exception2 s cause tval)
  sret : (s : RiscvCpuState) → HartStep s (handle_sret s)
  mret : (s : RiscvCpuState) → HartStep s (handle_mret s)
  raise : (s : RiscvCpuState) (mask : ℕ) → mask < 2 ^ 32 → HartStep s (set_mip s mask)
  lower : (s : RiscvCpuState) (mask : ℕ) → HartStep s (reset_mip s mask)

pub data Reaches (s : RiscvCpuState) : RiscvCpuState → Type 0 where
  here : Reaches s s
  next : {t u : RiscvCpuState} → Reaches s t → HartStep t u → Reaches s u

HartStep-IsValid : {s t : RiscvCpuState} → HartStep s t → IsValid s → IsValid t
HartStep-IsValid (csr s n val h) v = csr_write-IsValid s n val h v
HartStep-IsValid (trap s cause tval) v = raise_exception2-IsValid s cause tval v
HartStep-IsValid (sret s) v = handle_sret-IsValid s v
HartStep-IsValid (mret s) v = handle_mret-IsValid s v
HartStep-IsValid (raise s mask h) v = set_mip-IsValid s mask h v
HartStep-IsValid (lower s mask) v = reset_mip-IsValid s mask v

-- Every state that register writes, traps, returns and interrupt lines lead to from a new hart is
-- well formed.
pub Reaches-IsValid : {t : RiscvCpuState} → Reaches riscv_cpu_init t → IsValid t
Reaches-IsValid here = riscv_cpu_init-IsValid
Reaches-IsValid (next r st) = HartStep-IsValid st (Reaches-IsValid r)
