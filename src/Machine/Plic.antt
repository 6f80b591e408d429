-- ===== src/Machine/Plic.antt =====
-- Claiming and completing interrupts, and the interrupt lines of the hart.
use d_risc_v_emulator_tinyem.Base.{
  Bool, lt_of_bits, bit_masked, ℕ, ◌+◌, ◌-◌, ◌%◌, ◌^◌, ◌≤◌, ◌<◌, ◌≡◌, ◌≢◌, ◌∙◌, ◌⊎◌, inl, inr, refl,
  arith, ◌==◌, ltb, ◌&&◌, ◌||◌, if◌then◌else◌, true, false, some, bit, bit_lt_two, bit-bit_and,
  bit-bit_or, bit-bit_not, bit_and, bit_or, bit_not, bit_ext, bit_and-le, two_pow_lt, set_digit,
  clear_digit, lt_pow→bit, bit-two_pow,
}
use d_risc_v_emulator_tinyem.Cutils.{ctz32}
use d_risc_v_emulator_tinyem.Cutils.Ctz.{IsLowest, ctz32_lem}
use d_risc_v_emulator_tinyem.Riscv.Irq.{set_mip, reset_mip}
use d_risc_v_emulator_tinyem.Machine.{
  RiscvMachine, claimable, plic_update_mip, plic_read, plic_write, plic_set_irq,
}

-- The registers of the controller and the pending interrupts of the hart are 32-bit words.
pub record IsPlicState (s : RiscvMachine) : Type 0 where
  pub pending_fits : s.plic_pending_irq < 2 ^ 32
  pub served_fits : s.plic_served_irq < 2 ^ 32
  pub mip_fits : s.cpu_state.mip < 2 ^ 32

-- Digit `i` waits to be claimed if it is pending and not served.
claimable-bit :
    (s : RiscvMachine) (i : ℕ)
    → s.plic_served_irq < 2 ^ 32
    → s.plic_pending_irq < 2 ^ 32
    → bit (claimable s) i
      ≡ (if bit s.plic_pending_irq i == 1 && bit s.plic_served_irq i == 0 then 1 else 0)
claimable-bit s i h k = ground (
  arith,
  bit-bit_and s.plic_pending_irq (bit_not 32 s.plic_served_irq) i,
  bit-bit_not 32 s.plic_served_irq i h,
  lt_pow→bit 32 s.plic_pending_irq i k,
  bit_lt_two s.plic_pending_irq i,
  bit_lt_two s.plic_served_irq i,
)

-- The lines MEIP and SEIP of the hart are up exactly while an interrupt waits, and the others are
-- as they were.
pub record IsSynced (s t : RiscvMachine) : Type 0 where
  pub lines :
      (i : ℕ)
      → bit t.cpu_state.mip i
        ≡ (if i == 9 || i == 11 then (if claimable t == 0 then 0 else 1) else bit s.cpu_state.mip i)

lines-bit : (i : ℕ) → bit (bit_or (2 ^ 11) (2 ^ 9)) i ≡ (if i == 9 || i == 11 then 1 else 0)
lines-bit i = bit-bit_or (2 ^ 11) (2 ^ 9) i ∙ ground (arith, bit-two_pow 11 i, bit-two_pow 9 i)

plic_update_mip-IsSynced :
    (s : RiscvMachine) → s.cpu_state.mip < 2 ^ 32 → IsSynced s (plic_update_mip s)
unfolding plic_update_mip set_mip reset_mip
plic_update_mip-IsSynced s h = record {
  lines = λ i. ground (
    arith,
    lines-bit i,
    bit_lt_two s.cpu_state.mip i,
    bit-bit_or s.cpu_state.mip (bit_or (2 ^ 11) (2 ^ 9)) i,
    bit_masked 32 s.cpu_state.mip (bit_or (2 ^ 11) (2 ^ 9)) i h (omega arith),
  );
}

-- The interrupt `i + 1` that a claim takes: the lowest that waits.
pub record IsClaim (s t : RiscvMachine) (i : ℕ) : Type 0 where
  pub lowest : IsLowest (claimable s) 0 i
  pub small : i < 32
  pub served : (j : ℕ) → bit t.plic_served_irq j ≡ (if j == i then 1 else bit s.plic_served_irq j)
  pub pending : t.plic_pending_irq ≡ s.plic_pending_irq
  pub synced : IsSynced s t

-- On a machine whose interrupt registers are 32-bit words, a read of the claim register returns
-- 0 and changes nothing if no interrupt waits. Else it takes the lowest pending interrupt that
-- is not served: it returns its number, marks it served and no other, and the hart's external
-- lines are then up exactly if another one waits.
pub plic_read-IsClaim :
    (s : RiscvMachine)
    → IsPlicState s
    → ((claimable s ≡ 0) × (plic_read s 0x200004 2 ≡ some (0, s)))
      ⊎ ((i : ℕ) × (t : RiscvMachine) × (plic_read s 0x200004 2 ≡ some (i + 1, t)) × IsClaim s t i)
unfolding plic_read
plic_read-IsClaim s v =
    let fits : claimable s < 2 ^ 32 =
      omega (arith, v.pending_fits, bit_and-le s.plic_pending_irq (bit_not 32 s.plic_served_irq)) in
    elim (ctz32_lem (claimable s) fits) [
      | inl (none_waits, _) ↦ inl (none_waits, rw none_waits refl)
      | inr (waits, small, low) ↦
          let t =
            plic_update_mip
              (record s { plic_served_irq = bit_or s.plic_served_irq (2 ^ ctz32 (claimable s)) }) in
          let e : (claimable s == 0) ≡ false = ground arith in
          inr (
            ctz32 (claimable s),
            t,
            rw e refl,
            record {
              lowest = low;
              small = small;
              served = unfold plic_update_mip in set_digit s.plic_served_irq (ctz32 (claimable s));
              pending = unfold plic_update_mip in refl;
              synced = record {
                lines =
                    (plic_update_mip-IsSynced
                      (record s {
                        plic_served_irq = bit_or s.plic_served_irq (2 ^ ctz32 (claimable s));
                      })
                      v.mip_fits).lines;
              };
            },
          )
    ]

-- Completing interrupt `i + 1`, which is served, ends its service and no other's.
pub record IsCompletion (s t : RiscvMachine) (i : ℕ) : Type 0 where
  pub served : (j : ℕ) → bit t.plic_served_irq j ≡ (if j == i then 0 else bit s.plic_served_irq j)
  pub pending : t.plic_pending_irq ≡ s.plic_pending_irq
  pub synced : IsSynced s t

-- On a machine whose interrupt registers are 32-bit words, writing the number of an interrupt
-- from 1 to 32 to the claim register ends its service and no other's, keeps the pending
-- interrupts, and the hart's external lines are then up exactly if an interrupt waits.
pub plic_write-IsCompletion :
    (s : RiscvMachine) (i : ℕ)
    → IsPlicState s
    → i < 32
    → (t : RiscvMachine) × (plic_write s 0x200004 (i + 1) 2 ≡ some t) × IsCompletion s t i
unfolding plic_write
plic_write-IsCompletion s i v h =
    let number : (i + 1 + 2 ^ 32 - 1) % 2 ^ 32 ≡ i = omega arith in
    let valid : ltb i 32 ≡ true = ground arith in
    let s' = record s { plic_served_irq = bit_and s.plic_served_irq (bit_not 32 (2 ^ i)) } in
    (
      plic_update_mip s',
      rw (number, valid) refl,
      record {
        served =
            unfold plic_update_mip in
            λ j. clear_digit 32 s.plic_served_irq i j v.served_fits (two_pow_lt {k = i} {w = 32} h);
        pending = unfold plic_update_mip in refl;
        synced = record { lines = (plic_update_mip-IsSynced s' v.mip_fits).lines };
      },
    )

-- An interrupt line of a device, from 1 to 32.
pub record IsLine (s t : RiscvMachine) (n : ℕ) (state : Bool) : Type 0 where
  pub pending :
      (j : ℕ)
      → bit t.plic_pending_irq j
        ≡ (if j + 1 == n then (if state then 1 else 0) else bit s.plic_pending_irq j)
  pub served : t.plic_served_irq ≡ s.plic_served_irq
  pub synced : IsSynced s t

-- On a machine whose interrupt registers are 32-bit words, raising or lowering line `n`, from 1
-- to 32, sets or clears its pending digit and no other, and the hart's external lines are then
-- up exactly if an interrupt waits.
pub plic_set_irq-IsLine :
    (s : RiscvMachine) (n : ℕ) (state : Bool)
    → IsPlicState s
    → 1 ≤ n
    → n ≤ 32
    → IsLine s (plic_set_irq s n state) n state
unfolding plic_set_irq
plic_set_irq-IsLine s n true v lo hi = record {
  pending = λ j. unfold plic_update_mip in ground (arith, set_digit s.plic_pending_irq (n - 1) j);
  served = unfold plic_update_mip in refl;
  synced = record {
    lines =
        (plic_update_mip-IsSynced
          (record s { plic_pending_irq = bit_or s.plic_pending_irq (2 ^ (n - 1)) })
          v.mip_fits).lines;
  };
}
plic_set_irq-IsLine s n false v lo hi = record {
  pending = λ j.
      unfold plic_update_mip in
      ground (
        arith,
        clear_digit 32 s.plic_pending_irq (n - 1) j v.pending_fits
            (two_pow_lt {k = n - 1} {w = 32} (omega arith)),
      );
  served = unfold plic_update_mip in refl;
  synced = record {
    lines =
        (plic_update_mip-IsSynced
          (record s { plic_pending_irq = bit_and s.plic_pending_irq (bit_not 32 (2 ^ (n - 1))) })
          v.mip_fits).lines;
  };
}

IsClaim-IsPlicState : {s t : RiscvMachine} {i : ℕ} → IsPlicState s → IsClaim s t i → IsPlicState t
IsClaim-IsPlicState {s} {t} {i} v c = record {
  pending_fits = ground (arith, v.pending_fits, c.pending);
  served_fits =
      lt_of_bits 32 _ (λ j h.
        ground (arith, c.served j, c.small, lt_pow→bit 32 s.plic_served_irq j v.served_fits));
  mip_fits =
      lt_of_bits 32 _
        (λ j h. ground (arith, c.synced.lines j, lt_pow→bit 32 s.cpu_state.mip j v.mip_fits));
}

-- On a machine whose interrupt registers are 32-bit words, if an interrupt waits, a claim and
-- the completion of the number that it returned both succeed, and leave the served and the
-- pending interrupts as they were before the claim.
pub plic_write-plic_read :
    (s : RiscvMachine)
    → IsPlicState s
    → claimable s ≢ 0
    → (i : ℕ) × (t : RiscvMachine) × (u : RiscvMachine) × (plic_read s 0x200004 2 ≡ some (i + 1, t))
      × (plic_write t 0x200004 (i + 1) 2 ≡ some u)
      × (u.plic_served_irq ≡ s.plic_served_irq)
      × (u.plic_pending_irq ≡ s.plic_pending_irq)
plic_write-plic_read s v waits = elim (plic_read-IsClaim s v) [
  | inl (none_waits, _) ↦ absurd (waits none_waits)
  | inr (i, t, e, c) ↦
      let (u, e', d) = plic_write-IsCompletion t i (IsClaim-IsPlicState v c) c.small in
      let unserved : bit s.plic_served_irq i ≡ 0 = ground (
        arith,
        c.lowest.set,
        claimable-bit s i v.served_fits v.pending_fits,
        bit_lt_two s.plic_served_irq i,
      ) in
      (
        i,
        t,
        u,
        e,
        e',
        bit_ext _ _ (λ j. ground (arith, d.served j, c.served j, unserved)),
        d.pending ∙ c.pending,
      )
]
