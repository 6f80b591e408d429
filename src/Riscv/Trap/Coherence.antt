-- ===== src/Riscv/Trap/Coherence.antt =====
-- Which traps keep no stale translation, and which do.
use d_risc_v_emulator_tinyem.Base.{
  ℕ, ◌^◌, ◌≤◌, ◌<◌, ◌≡◌, ◌≢◌, ◌∙◌, ◌⊎◌, inl, inr, refl, arith, Bool-cases, ◌==◌, true, false, bit,
  bit_lem,
}
use d_risc_v_emulator_tinyem.Riscv.State.{RiscvCpuState}
use d_risc_v_emulator_tinyem.Riscv.Tlb.{tlb_flush_all}
use d_risc_v_emulator_tinyem.Riscv.Tlb.Coherence.{
  IsFlushed, SameTlbs, SameContext, KeepsCoherent, SameTlbs-IsFlushed, tlb_flush_all-IsFlushed,
}
use d_risc_v_emulator_tinyem.Riscv.Mstatus.{set_priv}
use d_risc_v_emulator_tinyem.Riscv.Trap.{delegated, enter_s, enter_m, cause_value, raise_exception2}
use d_risc_v_emulator_tinyem.Riscv.Trap.Fields.{enter_s-bit, enter_m-bit, mpp_of}

pub set_priv-flush : (s : RiscvCpuState) (p : ℕ) → s.priv ≢ p → IsFlushed (set_priv s p)
unfolding set_priv
set_priv-flush s p ne =
    let e : (s.priv == p) ≡ false = ground arith in
    rw e (
      SameTlbs-IsFlushed {s = tlb_flush_all s}
        (record { read_same = refl; write_same = refl; code_same = refl })
        (tlb_flush_all-IsFlushed s))

set_priv_eq : (s : RiscvCpuState) (p : ℕ) → s.priv ≡ p → set_priv s p ≡ s
unfolding set_priv
set_priv_eq s p h = let e : (s.priv == p) ≡ true = ground arith in rw e

-- The state before the change of mode.
abbrev in_s : RiscvCpuState → ℕ → ℕ → RiscvCpuState
in_s s cause tval = record s {
  scause = cause_value s cause;
  sepc = s.pc;
  stval = tval;
  mstatus = enter_s s.mstatus s.priv;
}

abbrev in_m : RiscvCpuState → ℕ → ℕ → RiscvCpuState
in_m s cause tval = record s {
  mcause = cause_value s cause;
  mepc = s.pc;
  mtval = tval;
  mstatus = enter_m s.mstatus s.priv;
}

module _ (s : RiscvCpuState) (cause tval : ℕ) (h : s.mstatus < 2 ^ 64) where
  same_in_s :
      delegated s cause ≡ true → SameTlbs s (in_s s cause tval) × SameContext s (in_s s cause tval)
  same_in_s d =
      let low : s.priv ≤ 1 = unfold delegated in ground arith in
      let digit = enter_s-bit s.mstatus s.priv h low in
      (
        record { read_same = refl; write_same = refl; code_same = refl },
        record {
          satp = refl;
          priv = refl;
          cur_xlen = refl;
          mprv = digit 17;
          sum = digit 18;
          mxr = digit 19;
          mpp_low = inr (digit 11);
          mpp_high = inr (digit 12);
        },
      )

  same_in_m :
      s.priv ≤ 3
      → bit s.mstatus 17 ≡ 0
      → SameTlbs s (in_m s cause tval) × SameContext s (in_m s cause tval)
  same_in_m p off =
      let digit = enter_m-bit s.mstatus s.priv h p in
      (
        record { read_same = refl; write_same = refl; code_same = refl },
        record {
          satp = refl;
          priv = refl;
          cur_xlen = refl;
          mprv = digit 17;
          sum = digit 18;
          mxr = digit 19;
          mpp_low = inl off;
          mpp_high = inl off;
        },
      )

-- Between `s` and `t` only registers were written and the privilege set to `p` and `pc` to `v`.
enters-KeepsCoherent :
    (s t : RiscvCpuState) (p v : ℕ)
    → t.priv ≡ s.priv
    → (s.priv ≢ p) ⊎ (SameTlbs s t × SameContext s t)
    → let r = set_priv t p in KeepsCoherent s (record r { pc = v })
enters-KeepsCoherent s t p v e same = elim (Bool-cases (s.priv == p)) [
  | inl stay ↦ elim same [
    | inl ne ↦ absurd (ne (ground arith))
    | inr (tlbs, context) ↦ inr (
        rw (set_priv_eq t p (ground arith)) (
          record {
            read_same = tlbs.read_same;
            write_same = tlbs.write_same;
            code_same = tlbs.code_same;
          },
          record {
            satp = context.satp;
            priv = context.priv;
            cur_xlen = context.cur_xlen;
            mprv = context.mprv;
            sum = context.sum;
            mxr = context.mxr;
            mpp_low = context.mpp_low;
            mpp_high = context.mpp_high;
          },
        ))
  ]
  | inr moves ↦ inl (
      SameTlbs-IsFlushed {s = set_priv t p}
        (record { read_same = refl; write_same = refl; code_same = refl })
        (set_priv-flush t p (ground arith)))
]

-- On a hart whose mstatus is a 64-bit word and whose mode is at most 3, a trap that does not
-- come from machine mode with MPRV set flushes the TLBs, or leaves them and what a translation
-- reads of the hart's state alone.
pub raise_exception2-KeepsCoherent :
    (s : RiscvCpuState) (cause tval : ℕ)
    → s.mstatus < 2 ^ 64
    → s.priv ≤ 3
    → (s.priv ≢ 3) ⊎ (bit s.mstatus 17 ≡ 0)
    → KeepsCoherent s (raise_exception2 s cause tval)
unfolding raise_exception2
raise_exception2-KeepsCoherent s cause tval h p plain = elim (Bool-cases (delegated s cause)) [
  | inl d ↦
      rw d (enters-KeepsCoherent s (in_s s cause tval) 1 _ refl (inr (same_in_s s cause tval h d)))
  | inr d ↦ rw d (
      enters-KeepsCoherent s (in_m s cause tval) 3 _ refl
        (elim plain [ inl ne ↦ inl ne | inr off ↦ inr (same_in_m s cause tval h p off) ]))
]

-- A trap taken in machine mode with MPRV set, on a hart whose mstatus is a 64-bit word, keeps
-- the TLBs and leaves MPRV set and MPP = M, whatever MPP was: data accesses move from the mode
-- of MPP to machine mode, and translations made for that mode stay in use.
pub raise_exception2-stale :
    (s : RiscvCpuState) (cause tval : ℕ)
    → s.mstatus < 2 ^ 64
    → s.priv ≡ 3
    → bit s.mstatus 17 ≡ 1
    → let t = raise_exception2 s cause tval in
      SameTlbs s t × (t.priv ≡ 3) × (bit t.mstatus 17 ≡ 1) × (mpp_of t.mstatus ≡ 3)
unfolding raise_exception2
raise_exception2-stale s cause tval h p on =
    let d : delegated s cause ≡ false = unfold delegated in ground arith in
    let digit = enter_m-bit s.mstatus s.priv h (omega arith) in
    rw (d, set_priv_eq (in_m s cause tval) 3 p)
      (
        record { read_same = refl; write_same = refl; code_same = refl },
        p,
        digit 17 ∙ on,
        omega (
          arith,
          digit 11,
          digit 12,
          bit_lem (enter_m s.mstatus s.priv) 11,
          bit_lem (enter_m s.mstatus s.priv) 12,
        ),
      )
