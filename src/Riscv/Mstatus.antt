-- ===== src/Riscv/Mstatus.antt =====
-- riscv_cpu.c: reading and writing mstatus, and the change of privilege.
pub mod Priv
pub mod Write
pub mod Sxl
use d_risc_v_emulator_tinyem.Base.{
  ℕ, ◌+◌, ◌-◌, ◌*◌, ◌/◌, ◌%◌, ◌^◌, bit_and, bit_or, bit_xor, bit_not, Bool, not, ◌&&◌, ◌||◌, ltb,
  leb, ◌==◌, if◌then◌else◌, tst, u64,
}
use d_risc_v_emulator_tinyem.Riscv.State.{
  RiscvCpuState, max_xlen, prv_u, prv_s, mstatus_fs_shift, mstatus_uxl_shift, mstatus_sxl_shift,
  mstatus_uie, mstatus_sie, mstatus_mie, mstatus_upie, mstatus_spie, mstatus_mpie, mstatus_spp,
  mstatus_mpp, mstatus_fs, mstatus_xs, mstatus_mprv, mstatus_sum, mstatus_mxr, mstatus_uxl_mask,
  mstatus_sxl_mask,
}
use d_risc_v_emulator_tinyem.Riscv.Tlb.{tlb_flush_all}

-- The masks are sums of distinct bits in the source's order of `|`.
abbrev pub sstatus_mask : ℕ
sstatus_mask =
    mstatus_uie + mstatus_sie + mstatus_upie + mstatus_spie + mstatus_spp + mstatus_fs + mstatus_xs
    + mstatus_sum + mstatus_mxr + mstatus_uxl_mask

abbrev pub mstatus_mask : ℕ
mstatus_mask =
    mstatus_uie + mstatus_sie + mstatus_mie + mstatus_upie + mstatus_spie + mstatus_mpie
    + mstatus_spp + mstatus_mpp + mstatus_fs + mstatus_mprv + mstatus_sum + mstatus_mxr

abbrev pub counteren_mask : ℕ
counteren_mask = 2 ^ 0 + 2 ^ 2

unfoldable pub get_mstatus : RiscvCpuState → ℕ → ℕ
get_mstatus s mask =
    let val = bit_and (bit_or s.mstatus (s.fs * 2 ^ mstatus_fs_shift)) mask in
    let sd = bit_and val mstatus_fs == mstatus_fs || bit_and val mstatus_xs == mstatus_xs in
    if sd then bit_or val (u64 (2 ^ (s.cur_xlen - 1))) else val

unfoldable pub get_base_from_xlen : ℕ → ℕ
get_base_from_xlen xlen = if xlen == 32 then 1 else if xlen == 64 then 2 else 3

-- The mask of `set_mstatus`. The source reads `sxl` at the position of UXL, as here.
unfoldable pub write_mask : ℕ → ℕ
write_mask val =
    let mask = bit_and mstatus_mask (bit_not 64 mstatus_fs) in
    let uxl = bit_and (val / 2 ^ mstatus_uxl_shift) 3 in
    let mask1 =
      if leb 1 uxl && leb uxl (get_base_from_xlen max_xlen)
      then bit_or mask mstatus_uxl_mask
      else mask in
    let sxl = bit_and (val / 2 ^ mstatus_uxl_shift) 3 in
    if leb 1 sxl && leb sxl (get_base_from_xlen max_xlen)
    then bit_or mask1 mstatus_sxl_mask
    else mask1

-- Whether `set_mstatus` flushes the TLBs.
unfoldable pub changes_mmu : ℕ → ℕ → Bool
changes_mmu old val =
    let diff = bit_xor old val in
    tst diff (mstatus_mprv + mstatus_sum + mstatus_mxr)
    || (tst old mstatus_mprv && tst diff mstatus_mpp)

unfoldable pub set_mstatus : RiscvCpuState → ℕ → RiscvCpuState
set_mstatus s val =
    let s1 = if changes_mmu s.mstatus val then tlb_flush_all s else s in
    let mask = write_mask val in
    record s1 {
      fs = bit_and (val / 2 ^ mstatus_fs_shift) 3;
      mstatus = bit_or (bit_and s.mstatus (bit_not 64 mask)) (bit_and val mask);
    }

-- The width field that `set_priv` reads for a privilege.
unfoldable pub mxl_of_priv : RiscvCpuState → ℕ → ℕ
mxl_of_priv s priv =
    if priv == prv_s
    then bit_and (s.mstatus / 2 ^ mstatus_sxl_shift) 3
    else if priv == prv_u
    then bit_and (s.mstatus / 2 ^ mstatus_uxl_shift) 3
    else s.mxl

unfoldable pub set_priv : RiscvCpuState → ℕ → RiscvCpuState
set_priv s priv =
    let s1 = tlb_flush_all s in
    if not (s.priv == priv)
    then record s1 { cur_xlen = 2 ^ (4 + mxl_of_priv s1 priv); priv = priv }
    else s
