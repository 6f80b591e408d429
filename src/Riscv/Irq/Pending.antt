-- ===== src/Riscv/Irq/Pending.antt =====
-- Which interrupt `raise_interrupt` takes, against the rule of the privileged architecture.
use d_risc_v_emulator_tinyem.Base.{
  ℕ, ◌+◌, ◌^◌, ◌≤◌, ◌<◌, ◌≡◌, ◌≢◌, ◌∙◌, ◌↔◌, ◌⊎◌, inl, inr, ap, arith, bit_and, bit_not, ◌||◌, ltb,
  ◌==◌, ◌&&◌, true, false, if◌then◌else◌, Bool-cases, bit, bit_lt_two, bit_ones, bit-bit_and,
  bit-bit_or, bit-bit_not, bit-zero, bit_and-le, tst_lem, lt_pow→bit, min, eq→==, ne→==,
}
use d_risc_v_emulator_tinyem.Cutils.{ctz32}
use d_risc_v_emulator_tinyem.Cutils.Ctz.{ctz32_lem}
use d_risc_v_emulator_tinyem.Riscv.State.{RiscvCpuState}
use d_risc_v_emulator_tinyem.Riscv.Trap.{raise_exception}
use d_risc_v_emulator_tinyem.Riscv.Trap.Entry.{irq_cause}
use d_risc_v_emulator_tinyem.Riscv.Irq.{enabled_ints, get_pending_irq_mask, raise_interrupt}

-- The interrupt registers are 32-bit words.
pub record IsIrqState (s : RiscvCpuState) : Type 0 where
  pub mip_fits : s.mip < 2 ^ 32
  pub mie_fits : s.mie < 2 ^ 32
  pub mideleg_fits : s.mideleg < 2 ^ 32
  pub mode_fits : s.priv ≤ 3
  pub mode_exists : s.priv ≢ 2

-- The mode that interrupt `n` is for: the supervisor, if mideleg hands it down.
abbrev pub target : RiscvCpuState → ℕ → ℕ
target s n = if bit s.mideleg n == 1 then 1 else 3

-- Interrupt `n` is pending, enabled in mie, and for a mode above the current one, or for the
-- current one with its interrupt enable set in mstatus.
pub record MayTake (s : RiscvCpuState) (n : ℕ) : Type 0 where
  pub pending : bit s.mip n ≡ 1
  pub enabled : bit s.mie n ≡ 1
  pub let_through :
      (s.priv < target s n) ⊎ ((s.priv ≡ target s n) × (bit s.mstatus (target s n) ≡ 1))

enabled_ints-bit :
    (s : RiscvCpuState) (n : ℕ)
    → IsIrqState s
    → n < 32
    → bit (enabled_ints s) n ≡ (
        if ltb s.priv (target s n) || (s.priv == target s n && bit s.mstatus (target s n) == 1)
        then 1
        else 0)
unfolding enabled_ints
enabled_ints-bit s n v h = ground (
  arith,
  tst_lem s.mstatus 3,
  tst_lem s.mstatus 1,
  bit-bit_not 32 s.mideleg n,
  bit-bit_or (bit_not 32 s.mideleg) s.mideleg n,
  bit_ones 32 n,
  bit-zero n,
  bit_lt_two s.mideleg n,
)

get_pending_irq_mask-and :
    (s : RiscvCpuState) → get_pending_irq_mask s ≡ bit_and (bit_and s.mip s.mie) (enabled_ints s)
unfolding get_pending_irq_mask
get_pending_irq_mask-and s = elim (Bool-cases (bit_and s.mip s.mie == 0)) [
  | inl z ↦
      let e : bit_and s.mip s.mie ≡ 0 = ground arith in
      rw (z, e) (omega (arith, bit_and-le 0 (enabled_ints s)))
  | inr nz ↦ rw nz
]

get_pending_irq_mask-lt : (s : RiscvCpuState) → IsIrqState s → get_pending_irq_mask s < 2 ^ 32
get_pending_irq_mask-lt s v = omega (
  arith,
  get_pending_irq_mask-and s,
  bit_and-le (bit_and s.mip s.mie) (enabled_ints s),
  bit_and-le s.mip s.mie,
)

-- On a hart in mode U, S or M whose interrupt registers are 32-bit words, a digit of the mask
-- is set exactly for the interrupts that may be taken: pending, enabled in mie, and for a mode
-- above the current one or for the current one with its interrupt enable set.
pub get_pending_irq_mask-MayTake :
    (s : RiscvCpuState) (n : ℕ) → IsIrqState s → (bit (get_pending_irq_mask s) n ≡ 1) ↔ MayTake s n
get_pending_irq_mask-MayTake s n v = elim (Bool-cases (ltb n 32)) [
  | inl small ↦ (
    λ set. record {
      pending = ground (arith, set, digits, bit_lt_two s.mip n);
      enabled = ground (arith, set, digits, bit_lt_two s.mie n);
      let_through = ground (arith, set, digits, enabled_ints-bit s n v);
    },
    λ m. ground (arith, m.pending, m.enabled, m.let_through, digits, enabled_ints-bit s n v),
  )
  | inr large ↦ (
    λ set. absurd (ground (arith, set, digits, lt_pow→bit 32 s.mip n v.mip_fits)),
    λ m. absurd (ground (arith, m.pending, lt_pow→bit 32 s.mip n v.mip_fits)),
  )
]
  where
    digits :
        bit (get_pending_irq_mask s) n
        ≡ min (min (bit s.mip n) (bit s.mie n)) (bit (enabled_ints s) n)
    digits =
        ap (λ (t : ℕ). bit t n) (get_pending_irq_mask-and s)
        ∙ bit-bit_and (bit_and s.mip s.mie) (enabled_ints s) n
        ∙ ap (λ (t : ℕ). min t (bit (enabled_ints s) n)) (bit-bit_and s.mip s.mie n)

-- `n` is the lowest interrupt that may be taken.
pub record IsFirst (s : RiscvCpuState) (n : ℕ) : Type 0 where
  pub may_take : MayTake s n
  pub none_below : (j : ℕ) → j < n → ¬ (MayTake s j)

-- On a hart in mode U, S or M whose interrupt registers are 32-bit words, `raise_interrupt`
-- leaves the state alone and returns 0 if no interrupt may be taken; else it takes the lowest
-- that may, with its number and the interrupt flag as the cause, and returns -1.
pub raise_interrupt_lem :
    (s : RiscvCpuState)
    → IsIrqState s
    → (((n : ℕ) → ¬ (MayTake s n)) × (raise_interrupt s ≡ (false, s)))
      ⊎ ((n : ℕ) × IsFirst s n
          × (n < 32)
          × (raise_interrupt s ≡ (true, raise_exception s (n + 2 ^ 31))))
unfolding raise_interrupt
raise_interrupt_lem s v = elim (ctz32_lem (get_pending_irq_mask s) (get_pending_irq_mask-lt s v)) [
  | inl (z, _) ↦ inl (
    λ n m. absurd (
        omega
          (arith, (get_pending_irq_mask-MayTake s n v).1 m, ap (λ (t : ℕ). bit t n) z, bit-zero n)),
    rw (eq→== z),
  )
  | inr (nz, small, low) ↦ inr (
    ctz32 (get_pending_irq_mask s),
    record {
      may_take = (get_pending_irq_mask-MayTake s _ v).0 low.set;
      none_below = λ j h m.
          absurd
            (omega (arith, low.below j (omega arith) h, (get_pending_irq_mask-MayTake s j v).1 m));
    },
    small,
    rw (ne→== nz, irq_cause _ small),
  )
]
