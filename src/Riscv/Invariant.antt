-- ===== src/Riscv/Invariant.antt =====
-- The well-formedness of a hart's registers, which every operation keeps.
use d_risc_v_emulator_tinyem.Base.{
  ℕ, ◌-◌, ◌/◌, ◌%◌, ◌^◌, ◌≤◌, ◌<◌, ◌≡◌, ◌⊎◌, arith, bit_or-lt, bit_lt_two, bit_lem, bit_and,
  bit_not, bit_masked, bit_and-le, bit_or_halves, replaced-lt,
}
use d_risc_v_emulator_tinyem.Riscv.State.{RiscvCpuState}
use d_risc_v_emulator_tinyem.Riscv.Tlb.{tlb_flush_all, tlb_init}
use d_risc_v_emulator_tinyem.Riscv.Mstatus.{
  sstatus_mask, write_mask, set_mstatus, get_base_from_xlen,
}
use d_risc_v_emulator_tinyem.Riscv.Csr.{
  satp_mode, merge, Csr, csr_of, csr_write, write_csr, write_misa, write_satp, set_frm,
}
use d_risc_v_emulator_tinyem.Riscv.Init.{riscv_cpu_init}

-- The mode of satp is Bare, Sv39 or Sv48.
abbrev pub IsSatp : ℕ → Type 0
IsSatp satp = (satp / 2 ^ 60 ≡ 0) ⊎ ((8 ≤ satp / 2 ^ 60) × (satp / 2 ^ 60 ≤ 9))

pub record IsValid (s : RiscvCpuState) : Type 0 where
  pub mode_fits : s.priv ≤ 3
  pub mstatus_fits : s.mstatus < 2 ^ 64
  pub fs_fits : s.fs < 4
  pub frm_valid : s.frm < 5
  pub fflags_fits : s.fflags < 32
  pub mxl_valid : (1 ≤ s.mxl) × (s.mxl ≤ 2)
  pub mie_fits : s.mie < 2 ^ 32
  pub mip_fits : s.mip < 2 ^ 32
  pub medeleg_fits : s.medeleg < 2 ^ 16
  pub mideleg_fits : s.mideleg < 2 ^ 10
  pub satp_valid : IsSatp s.satp
  pub pc_even : s.pc % 2 ≡ 0
  pub sepc_even : s.sepc % 2 ≡ 0
  pub mepc_even : s.mepc % 2 ≡ 0
  pub stvec_aligned : s.stvec % 4 ≡ 0
  pub mtvec_aligned : s.mtvec % 4 ≡ 0

pub riscv_cpu_init-IsValid : IsValid riscv_cpu_init
unfolding riscv_cpu_init tlb_init get_base_from_xlen
riscv_cpu_init-IsValid = ground arith

clear_low : (v : ℕ) → v < 2 ^ 64 → bit_and v (bit_not 64 1) % 2 ≡ 0
clear_low v h = ground (
  arith,
  bit_lem (bit_and v (bit_not 64 1)) 0,
  bit_masked 64 v 1 0 h (omega arith),
  bit_lem 1 0,
  bit_lt_two v 0,
)

clear_low_two : (v : ℕ) → v < 2 ^ 64 → bit_and v (bit_not 64 3) % 4 ≡ 0
clear_low_two v h = ground (
  arith,
  bit_lem (bit_and v (bit_not 64 3)) 0,
  bit_lem (bit_and v (bit_not 64 3)) 1,
  bit_masked 64 v 3 0 h (omega arith),
  bit_masked 64 v 3 1 h (omega arith),
  bit_lem 3 0,
  bit_lem 3 1,
  bit_lt_two v 0,
  bit_lt_two v 1,
)

-- A mode that the hart does not have leaves the mode of satp as it was.
write_satp-mode : (old val : ℕ) → IsSatp old → IsSatp (write_satp old val)
unfolding write_satp satp_mode
write_satp-mode old val ok = ground (
  arith,
  bit_or_halves 60 (bit_and val (2 ^ 44 - 1)) (satp_mode old val),
  bit_and-le val (2 ^ 44 - 1),
)

merge-lt : (w old mask val : ℕ) → old < 2 ^ w → mask < 2 ^ w → merge old mask val < 2 ^ w
merge-lt w old mask val h k =
    bit_or-lt w _ _ (omega (arith, bit_and-le old (bit_not 64 mask)))
      (omega (arith, bit_and-le val mask))

-- `set_mstatus` changes mstatus, fs and the TLBs alone.
pub set_mstatus-frame :
    (s : RiscvCpuState) (val : ℕ)
    → set_mstatus s val ≡ record s {
      mstatus = (set_mstatus s val).mstatus;
      fs = (set_mstatus s val).fs;
      tlb_read = (set_mstatus s val).tlb_read;
      tlb_write = (set_mstatus s val).tlb_write;
      tlb_code = (set_mstatus s val).tlb_code;
    }
unfolding set_mstatus tlb_flush_all tlb_init
set_mstatus-frame s val = ground arith

set_mstatus-fits :
    (s : RiscvCpuState) (val : ℕ)
    → s.mstatus < 2 ^ 64
    → val < 2 ^ 64
    → ((set_mstatus s val).mstatus < 2 ^ 64) × ((set_mstatus s val).fs < 4)
unfolding set_mstatus
set_mstatus-fits s val h k = (
  replaced-lt 64 s.mstatus _ _ h (omega (arith, bit_and-le val (write_mask val))),
  omega (arith, bit_and-le (val / 2 ^ 13) 3),
)

set_mstatus-IsValid :
    (s : RiscvCpuState) (val : ℕ) → val < 2 ^ 64 → IsValid s → IsValid (set_mstatus s val)
set_mstatus-IsValid s val h v = rw (set_mstatus-frame s val) (
    let fits = set_mstatus-fits s val v.mstatus_fits h in
    record {
      mode_fits = v.mode_fits;
      mstatus_fits = fits.0;
      fs_fits = fits.1;
      frm_valid = v.frm_valid;
      fflags_fits = v.fflags_fits;
      mxl_valid = v.mxl_valid;
      mie_fits = v.mie_fits;
      mip_fits = v.mip_fits;
      medeleg_fits = v.medeleg_fits;
      mideleg_fits = v.mideleg_fits;
      satp_valid = v.satp_valid;
      pc_even = v.pc_even;
      sepc_even = v.sepc_even;
      mepc_even = v.mepc_even;
      stvec_aligned = v.stvec_aligned;
      mtvec_aligned = v.mtvec_aligned;
    })

write_csr-IsValid :
    (s : RiscvCpuState) (c : Csr) (val : ℕ)
    → val < 2 ^ 64
    → IsValid s
    → IsValid (write_csr s c val).1
unfolding write_csr write_misa set_frm tlb_flush_all tlb_init get_base_from_xlen
write_csr-IsValid s Csr.sstatus val h v =
    set_mstatus-IsValid s _
      (replaced-lt 64 s.mstatus sstatus_mask _ v.mstatus_fits
        (omega (arith, bit_and-le val sstatus_mask)))
      v
write_csr-IsValid s Csr.mstatus val h v = set_mstatus-IsValid s val h v
write_csr-IsValid s Csr.satp val h v = ground (arith, write_satp-mode s.satp val v.satp_valid)
write_csr-IsValid s Csr.fflags val h v = ground (arith, bit_and-le val 0x1f)
write_csr-IsValid s Csr.fcsr val h v = ground (arith, bit_and-le val 0x1f)
write_csr-IsValid s Csr.sepc val h v = ground (arith, clear_low val h)
write_csr-IsValid s Csr.mepc val h v = ground (arith, clear_low val h)
write_csr-IsValid s Csr.stvec val h v = ground (arith, clear_low_two val h)
write_csr-IsValid s Csr.mtvec val h v = ground (arith, clear_low_two val h)
write_csr-IsValid s Csr.medeleg val h v = ground (arith, merge-lt 16 s.medeleg 0xffff val)
write_csr-IsValid s Csr.mideleg val h v = ground (arith, merge-lt 10 s.mideleg 0x222 val)
write_csr-IsValid s _ val h v = ground arith

-- Writing any register number with a 64-bit value, on a hart whose registers are well formed,
-- keeps them well formed.
pub csr_write-IsValid :
    (s : RiscvCpuState) (csr val : ℕ) → val < 2 ^ 64 → IsValid s → IsValid (csr_write s csr val).1
unfolding csr_write
csr_write-IsValid s csr val h v = write_csr-IsValid s (csr_of csr) val h v
