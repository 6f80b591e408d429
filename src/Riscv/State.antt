-- ===== src/Riscv/State.antt =====
-- riscv_cpu_priv.h and riscv_cpu.h: the state of a hart and its constants, for MAX_XLEN = 64.
-- The memory map that `mem_map` points to is shared with the machine, and is passed beside the state.
use d_risc_v_emulator_tinyem.Base.{ℕ, ◌-◌, ◌*◌, ◌^◌, Bool}
use d_risc_v_emulator_tinyem.Base.Int.{ℤ}

-- A TLB entry: `mem_addend` is a host address less the guest address, in `uintptr_t`.
pub record TlbEntry : Type 0 where
  pub vaddr : ℕ
  pub mem_addend : ℕ

abbrev pub Tlb : Type 0
Tlb = ℕ → TlbEntry

pub record RiscvCpuState : Type 0 where
  pub pc : ℕ
  pub reg : ℕ → ℕ
  pub fp_reg : ℕ → ℕ
  pub fflags : ℕ
  pub frm : ℕ
  pub cur_xlen : ℕ
  pub priv : ℕ
  pub fs : ℕ
  pub mxl : ℕ
  pub insn_counter : ℕ
  pub power_down_flag : Bool
  pub pending_exception : ℤ
  pub pending_tval : ℕ
  pub mstatus : ℕ
  pub mtvec : ℕ
  pub mscratch : ℕ
  pub mepc : ℕ
  pub mcause : ℕ
  pub mtval : ℕ
  pub mhartid : ℕ
  pub misa : ℕ
  pub mie : ℕ
  pub mip : ℕ
  pub medeleg : ℕ
  pub mideleg : ℕ
  pub mcounteren : ℕ
  pub stvec : ℕ
  pub sscratch : ℕ
  pub sepc : ℕ
  pub scause : ℕ
  pub stval : ℕ
  pub satp : ℕ
  pub scounteren : ℕ
  pub load_res : ℕ
  pub tlb_read : Tlb
  pub tlb_write : Tlb
  pub tlb_code : Tlb

abbrev pub max_xlen : ℕ
max_xlen = 64

abbrev pub tlb_size : ℕ
tlb_size = 256

abbrev pub cause_fault_fetch : ℕ
cause_fault_fetch = 0x1

abbrev pub cause_fetch_page_fault : ℕ
cause_fetch_page_fault = 0xc

abbrev pub cause_load_page_fault : ℕ
cause_load_page_fault = 0xd

abbrev pub cause_store_page_fault : ℕ
cause_store_page_fault = 0xf

abbrev pub cause_interrupt : ℕ
cause_interrupt = 2 ^ 31

abbrev pub prv_u : ℕ
prv_u = 0

abbrev pub prv_s : ℕ
prv_s = 1

abbrev pub prv_m : ℕ
prv_m = 3

abbrev pub mstatus_spie_shift : ℕ
mstatus_spie_shift = 5

abbrev pub mstatus_mpie_shift : ℕ
mstatus_mpie_shift = 7

abbrev pub mstatus_spp_shift : ℕ
mstatus_spp_shift = 8

abbrev pub mstatus_mpp_shift : ℕ
mstatus_mpp_shift = 11

abbrev pub mstatus_fs_shift : ℕ
mstatus_fs_shift = 13

abbrev pub mstatus_uxl_shift : ℕ
mstatus_uxl_shift = 32

abbrev pub mstatus_sxl_shift : ℕ
mstatus_sxl_shift = 34

abbrev pub mstatus_uie : ℕ
mstatus_uie = 2 ^ 0

abbrev pub mstatus_sie : ℕ
mstatus_sie = 2 ^ 1

abbrev pub mstatus_mie : ℕ
mstatus_mie = 2 ^ 3

abbrev pub mstatus_upie : ℕ
mstatus_upie = 2 ^ 4

abbrev pub mstatus_spie : ℕ
mstatus_spie = 2 ^ 5

abbrev pub mstatus_mpie : ℕ
mstatus_mpie = 2 ^ 7

abbrev pub mstatus_spp : ℕ
mstatus_spp = 2 ^ 8

abbrev pub mstatus_mpp : ℕ
mstatus_mpp = 3 * 2 ^ 11

abbrev pub mstatus_fs : ℕ
mstatus_fs = 3 * 2 ^ 13

abbrev pub mstatus_xs : ℕ
mstatus_xs = 3 * 2 ^ 15

abbrev pub mstatus_mprv : ℕ
mstatus_mprv = 2 ^ 17

abbrev pub mstatus_sum : ℕ
mstatus_sum = 2 ^ 18

abbrev pub mstatus_mxr : ℕ
mstatus_mxr = 2 ^ 19

abbrev pub mstatus_uxl_mask : ℕ
mstatus_uxl_mask = 3 * 2 ^ 32

abbrev pub mstatus_sxl_mask : ℕ
mstatus_sxl_mask = 3 * 2 ^ 34

abbrev pub pg_shift : ℕ
pg_shift = 12

abbrev pub pg_mask : ℕ
pg_mask = 2 ^ 12 - 1

abbrev pub mip_ssip : ℕ
mip_ssip = 2 ^ 1

abbrev pub mip_msip : ℕ
mip_msip = 2 ^ 3

abbrev pub mip_stip : ℕ
mip_stip = 2 ^ 5

abbrev pub mip_mtip : ℕ
mip_mtip = 2 ^ 7

abbrev pub mip_seip : ℕ
mip_seip = 2 ^ 9

abbrev pub mip_meip : ℕ
mip_meip = 2 ^ 11
