-- ===== src/Riscv/Mstatus/Write.antt =====
-- What `set_mstatus` stores, digit by digit.
use d_risc_v_emulator_tinyem.Base.{
  ℕ, ◌+◌, ◌-◌, ◌/◌, ◌%◌, ◌^◌, ◌<◌, ◌≡◌, ◌∙◌, arith, Bool, leb, ◌==◌, ◌&&◌, if◌then◌else◌, bit,
  bit_lt_two, bit_and, bit_not, bit-bit_and, bit_replaced, bit_and-mask,
}
use d_risc_v_emulator_tinyem.Riscv.State.{
  RiscvCpuState, mstatus_fs, mstatus_uxl_mask, mstatus_sxl_mask,
}
use d_risc_v_emulator_tinyem.Riscv.Tlb.{tlb_flush_all, tlb_init}
use d_risc_v_emulator_tinyem.Riscv.Mstatus.{
  mstatus_mask, get_base_from_xlen, write_mask, set_mstatus,
}

-- The UXL field of a value is a width that the hart has.
abbrev pub uxl_valid : ℕ → Bool
uxl_valid val = leb 1 (val / 2 ^ 32 % 4) && leb (val / 2 ^ 32 % 4) 2

pub write_mask_lem :
    (val : ℕ)
    → write_mask val ≡ (
        if uxl_valid val
        then mstatus_mask - mstatus_fs + mstatus_uxl_mask + mstatus_sxl_mask
        else mstatus_mask - mstatus_fs)
unfolding write_mask get_base_from_xlen bit_not
write_mask_lem val = rw (bit_and-mask (val / 2 ^ 32) 2) (ground arith)

pub write_mask-lt : (val : ℕ) → write_mask val < 2 ^ 64
write_mask-lt val = ground (arith, write_mask_lem val)

pub set_mstatus-bit :
    (s : RiscvCpuState) (val i : ℕ)
    → s.mstatus < 2 ^ 64
    → bit (set_mstatus s val).mstatus i
      ≡ (if bit (write_mask val) i == 1 then bit val i else bit s.mstatus i)
unfolding set_mstatus tlb_flush_all tlb_init
set_mstatus-bit s val i h =
    bit_replaced 64 s.mstatus (write_mask val) (bit_and val (write_mask val)) i h
      (write_mask-lt val)
    ∙ ground (
      arith,
      bit-bit_and val (write_mask val) i,
      bit_lt_two (write_mask val) i,
      bit_lt_two val i,
      bit_lt_two s.mstatus i,
    )
