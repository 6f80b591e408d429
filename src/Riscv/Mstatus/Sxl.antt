-- ===== src/Riscv/Mstatus/Sxl.antt =====
-- The field SXL is written whenever the field UXL is valid, whatever SXL itself holds.
use d_risc_v_emulator_tinyem.Base.{
  ℕ, ◌+◌, ◌/◌, ◌%◌, ◌^◌, ◌<◌, ◌≡◌, ◌≢◌, ◌∙◌, ap, refl, arith, ◌==◌, true, false, bit, bit_lem,
  bit_and-mask,
}
use d_risc_v_emulator_tinyem.Riscv.State.{RiscvCpuState}
use d_risc_v_emulator_tinyem.Riscv.Tlb.{tlb_flush_all, tlb_init}
use d_risc_v_emulator_tinyem.Riscv.Mstatus.{set_mstatus, mxl_of_priv, set_priv, write_mask}
use d_risc_v_emulator_tinyem.Riscv.Mstatus.Write.{uxl_valid, write_mask_lem, set_mstatus-bit}

sxl_written : (val : ℕ) → uxl_valid val ≡ true → bit (write_mask val) 34 ≡ 1
unfolding bit
sxl_written val h = rw (write_mask_lem val, h) refl

sxl_written_high : (val : ℕ) → uxl_valid val ≡ true → bit (write_mask val) 35 ≡ 1
unfolding bit
sxl_written_high val h = rw (write_mask_lem val, h) refl

sxl-set_mstatus :
    (s : RiscvCpuState) (val : ℕ)
    → s.mstatus < 2 ^ 64
    → uxl_valid val ≡ true
    → (set_mstatus s val).mstatus / 2 ^ 34 % 4 ≡ val / 2 ^ 34 % 4
sxl-set_mstatus s val h ok = ground (
  arith,
  set_mstatus-bit s val 34 h,
  set_mstatus-bit s val 35 h,
  sxl_written val ok,
  sxl_written_high val ok,
  bit_lem (set_mstatus s val).mstatus 34,
  bit_lem (set_mstatus s val).mstatus 35,
  bit_lem val 34,
  bit_lem val 35,
)

set_priv_width :
    (s : RiscvCpuState) → s.priv ≢ 1 → (set_priv s 1).cur_xlen ≡ 2 ^ (4 + s.mstatus / 2 ^ 34 % 4)
unfolding set_priv mxl_of_priv tlb_flush_all tlb_init
set_priv_width s h =
    let e : (s.priv == 1) ≡ false = ground arith in rw (e, bit_and-mask (s.mstatus / 2 ^ 34) 2) refl

set_mstatus-priv : (s : RiscvCpuState) (val : ℕ) → (set_mstatus s val).priv ≡ s.priv
unfolding set_mstatus tlb_flush_all tlb_init
set_mstatus-priv s val = ground arith

-- On a hart that is not in S and whose mstatus is a 64-bit word, a write of mstatus with a
-- valid UXL stores SXL unchecked: on entering S the width is then 2 ^ (4 + SXL), so 16 for SXL
-- = 0 and 128 for SXL = 3, which the hart does not have.
pub set_mstatus-sxl_unchecked :
    (s : RiscvCpuState) (val : ℕ)
    → s.mstatus < 2 ^ 64
    → s.priv ≢ 1
    → uxl_valid val ≡ true
    → (set_priv (set_mstatus s val) 1).cur_xlen ≡ 2 ^ (4 + val / 2 ^ 34 % 4)
set_mstatus-sxl_unchecked s val h p ok =
    set_priv_width (set_mstatus s val) (rw (set_mstatus-priv s val) p)
    ∙ ap (λ (t : ℕ). 2 ^ (4 + t)) (sxl-set_mstatus s val h ok)
