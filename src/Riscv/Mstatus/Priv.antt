-- ===== src/Riscv/Mstatus/Priv.antt =====
-- What `set_priv` changes.
use d_risc_v_emulator_tinyem.Base.{ℕ, ◌≡◌, arith}
use d_risc_v_emulator_tinyem.Riscv.State.{RiscvCpuState}
use d_risc_v_emulator_tinyem.Riscv.Tlb.{tlb_init, tlb_flush_all}
use d_risc_v_emulator_tinyem.Riscv.Mstatus.{set_priv}

-- The state with its privilege, its width and its TLBs replaced by those of another.
abbrev pub with_mode : RiscvCpuState → RiscvCpuState → RiscvCpuState
with_mode s t = record s {
  priv = t.priv;
  cur_xlen = t.cur_xlen;
  tlb_read = t.tlb_read;
  tlb_write = t.tlb_write;
  tlb_code = t.tlb_code;
}

pub set_priv_frame : (s : RiscvCpuState) (p : ℕ) → set_priv s p ≡ with_mode s (set_priv s p)
unfolding set_priv tlb_flush_all tlb_init
set_priv_frame s p = ground arith

pub priv-set_priv : (s : RiscvCpuState) (p : ℕ) → (set_priv s p).priv ≡ p
unfolding set_priv tlb_flush_all tlb_init
priv-set_priv s p = ground arith
