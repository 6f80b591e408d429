-- ===== src/Riscv/Csr/Coherence.antt =====
-- Writing a register keeps no stale translation.
use d_risc_v_emulator_tinyem.Base.{
  ◌≢◌, ℕ, ◌+◌, ◌^◌, ◌<◌, ◌≡◌, ◌⊎◌, inl, inr, ap, refl, arith, Bool-cases, ◌==◌, if◌then◌else◌,
  false, not, bit-zero, bit, bit_lt_two, bit_and, bit_xor, bit-bit_xor, bit-bit_and, tst, tst_lem,
}
use d_risc_v_emulator_tinyem.Riscv.State.{
  RiscvCpuState, mstatus_mprv, mstatus_sum, mstatus_mxr, mstatus_mpp,
}
use d_risc_v_emulator_tinyem.Riscv.Tlb.{tlb_flush_all, tlb_init}
use d_risc_v_emulator_tinyem.Riscv.Tlb.Coherence.{
  SameTlbs, KeepsCoherent, SameTlbs-IsFlushed, tlb_flush_all-IsFlushed,
}
use d_risc_v_emulator_tinyem.Riscv.Mstatus.{changes_mmu, set_mstatus}
use d_risc_v_emulator_tinyem.Riscv.Mstatus.Write.{set_mstatus-bit}
use d_risc_v_emulator_tinyem.Riscv.Csr.{
  machine_csr, Csr, csr_of, csr_write, write_csr, write_misa, set_frm,
}

-- A mask that shows nothing: its digits are zero in the word.
tst-false : (a m i : ℕ) → tst a m ≡ false → bit m i ≡ 1 → bit a i ≡ 0
unfolding tst
tst-false a m i h k =
    ground
      (arith, bit-bit_and a m i, ap (λ (t : ℕ). bit t i) (none_shown h), bit-zero i, bit_lt_two a i)
  where
    none_shown : not (bit_and a m == 0) ≡ false → bit_and a m ≡ 0
    none_shown g = ground arith

bit_xor-eq : (a b i : ℕ) → bit (bit_xor a b) i ≡ 0 → bit b i ≡ bit a i
bit_xor-eq a b i h = omega (arith, bit-bit_xor a b i, bit_lt_two a i, bit_lt_two b i)

-- A digit on which the two words agree, since no bit of the mask shows a difference.
agrees : (old val m i : ℕ) → tst (bit_xor old val) m ≡ false → bit m i ≡ 1 → bit val i ≡ bit old i
agrees old val m i h k = bit_xor-eq old val i (tst-false (bit_xor old val) m i h k)

abbrev mmu_mask : ℕ
mmu_mask = mstatus_mprv + mstatus_sum + mstatus_mxr

mmu_mask-bit : (bit mmu_mask 17 ≡ 1) × (bit mmu_mask 18 ≡ 1) × (bit mmu_mask 19 ≡ 1)
unfolding bit
mmu_mask-bit = (refl, refl, refl)

mpp-bit : (bit mstatus_mpp 11 ≡ 1) × (bit mstatus_mpp 12 ≡ 1)
unfolding bit
mpp-bit = (refl, refl)

-- The flush of `set_mstatus` is left out only if the two words agree where a translation looks.
changes_mmu-false :
    (old val : ℕ)
    → changes_mmu old val ≡ false
    → (bit val 17 ≡ bit old 17)
      × (bit val 18 ≡ bit old 18)
      × (bit val 19 ≡ bit old 19)
      × ((bit old 17 ≡ 0) ⊎ ((bit val 11 ≡ bit old 11) × (bit val 12 ≡ bit old 12)))
unfolding changes_mmu
changes_mmu-false old val h = (
  agrees old val mmu_mask 17 quiet mmu_mask-bit.0,
  agrees old val mmu_mask 18 quiet mmu_mask-bit.1,
  agrees old val mmu_mask 19 quiet mmu_mask-bit.2,
  elim (Bool-cases (tst old mstatus_mprv)) [
    | inl on ↦
        let same : tst (bit_xor old val) mstatus_mpp ≡ false = ground (arith, h, on) in
        inr (
          agrees old val mstatus_mpp 11 same mpp-bit.0,
          agrees old val mstatus_mpp 12 same mpp-bit.1,
        )
    | inr off ↦ inl (ground (arith, off, tst_lem old 17, bit_lt_two old 17))
  ],
)
  where
    quiet : tst (bit_xor old val) mmu_mask ≡ false
    quiet = ground (arith, h)

set_mstatus-tlbs :
    (s : RiscvCpuState) (val : ℕ)
    → SameTlbs (if changes_mmu s.mstatus val then tlb_flush_all s else s) (set_mstatus s val)
unfolding set_mstatus
set_mstatus-tlbs s val = record { read_same = refl; write_same = refl; code_same = refl }

set_mstatus-frame :
    (s : RiscvCpuState) (val : ℕ)
    → ((set_mstatus s val).satp ≡ s.satp)
      × ((set_mstatus s val).priv ≡ s.priv)
      × ((set_mstatus s val).cur_xlen ≡ s.cur_xlen)
unfolding set_mstatus tlb_flush_all tlb_init
set_mstatus-frame s val = ground arith

-- Writing mstatus flushes the TLBs, or leaves them and what a translation reads of the state alone.
pub set_mstatus-KeepsCoherent :
    (s : RiscvCpuState) (val : ℕ) → s.mstatus < 2 ^ 64 → KeepsCoherent s (set_mstatus s val)
set_mstatus-KeepsCoherent s val h = elim (Bool-cases (changes_mmu s.mstatus val)) [
  | inl change ↦
      inl (SameTlbs-IsFlushed (rw change at (set_mstatus-tlbs s val)) (tlb_flush_all-IsFlushed s))
  | inr quiet ↦
      let agree = changes_mmu-false s.mstatus val quiet in
      inr (
        rw quiet at (set_mstatus-tlbs s val),
        record {
          satp = (set_mstatus-frame s val).0;
          priv = (set_mstatus-frame s val).1;
          cur_xlen = (set_mstatus-frame s val).2;
          mprv = ground (arith, set_mstatus-bit s val 17 h, agree);
          sum = ground (arith, set_mstatus-bit s val 18 h, agree);
          mxr = ground (arith, set_mstatus-bit s val 19 h, agree);
          mpp_low = ground (arith, set_mstatus-bit s val 11 h, agree);
          mpp_high = ground (arith, set_mstatus-bit s val 12 h, agree);
        },
      )
]

write_csr-KeepsCoherent :
    (s : RiscvCpuState) (c : Csr) (val : ℕ)
    → s.mstatus < 2 ^ 64
    → c ≢ Csr.misa
    → KeepsCoherent s (write_csr s c val).1
unfolding write_csr write_misa set_frm
write_csr-KeepsCoherent s Csr.satp val h ne = inl (tlb_flush_all-IsFlushed _)
write_csr-KeepsCoherent s Csr.sstatus val h ne = set_mstatus-KeepsCoherent s _ h
write_csr-KeepsCoherent s Csr.mstatus val h ne = set_mstatus-KeepsCoherent s val h
write_csr-KeepsCoherent s Csr.misa val h ne = absurd (ne refl)
write_csr-KeepsCoherent s _ val h ne = inr (ground arith, ground arith)

misa-number : (n : ℕ) → csr_of n ≡ Csr.misa → n ≡ 0x301
unfolding csr_of machine_csr
misa-number n e = ground arith

-- A write of any register but misa, on a hart whose mstatus is a 64-bit word, flushes all three TLBs,
-- or leaves them alone and changes nothing of what a translation reads of the state: satp, the
-- width of the mode, the privilege, MPRV, SUM and MXR, and MPP where MPRV is set.
pub csr_write-KeepsCoherent :
    (s : RiscvCpuState) (csr val : ℕ)
    → s.mstatus < 2 ^ 64
    → csr ≢ 0x301
    → KeepsCoherent s (csr_write s csr val).1
unfolding csr_write
csr_write-KeepsCoherent s csr val h ne =
    write_csr-KeepsCoherent s (csr_of csr) val h (λ e. ne (misa-number csr e))
