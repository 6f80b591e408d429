-- ===== src/Riscv/Tlb/Coherence.antt =====
-- When a change of state may keep the TLBs: the context in which addresses are translated is the
-- same. Else they have to be empty.
use d_risc_v_emulator_tinyem.Base.{
  ℕ, zero, suc, ◌+◌, ◌≤◌, ◌<◌, ◌≡◌, ◌∙◌, ◌⊎◌, inl, inr, ap, refl, arith, Bool-cases, ◌==◌, bit,
}
use d_risc_v_emulator_tinyem.Riscv.State.{TlbEntry, Tlb, RiscvCpuState, tlb_size}
use d_risc_v_emulator_tinyem.Riscv.Tlb.{no_vaddr, clear_from, tlb_init, tlb_flush_all}

abbrev pub IsEmpty : Tlb → Type 0
IsEmpty t = (i : ℕ) → i < tlb_size → (t i).vaddr ≡ no_vaddr

clear_from-outside : (left i j : ℕ) (t : Tlb) → j < i → clear_from left i t j ≡ t j
unfolding clear_from
clear_from-outside zero i j t h = refl
clear_from-outside (suc left) i j t h =
    clear_from-outside left (i + 1) j _ (omega arith) ∙ ground arith

clear_from-inside :
    (left i j : ℕ) (t : Tlb) → i ≤ j → j < i + left → (clear_from left i t j).vaddr ≡ no_vaddr
unfolding clear_from
clear_from-inside zero i j t h k = absurd (omega arith)
clear_from-inside (suc left) i j t h k = elim (Bool-cases (j == i)) [
  | inl here ↦
      ap (λ (e : TlbEntry). e.vaddr) (clear_from-outside left (i + 1) j _ (ground arith))
      ∙ rw here refl
  | inr later ↦ clear_from-inside left (i + 1) j _ (ground arith) (omega arith)
]

pub record IsFlushed (s : RiscvCpuState) : Type 0 where
  pub read_empty : IsEmpty s.tlb_read
  pub write_empty : IsEmpty s.tlb_write
  pub code_empty : IsEmpty s.tlb_code

pub tlb_flush_all-IsFlushed : (s : RiscvCpuState) → IsFlushed (tlb_flush_all s)
unfolding tlb_flush_all tlb_init
tlb_flush_all-IsFlushed s = record {
  read_empty = λ i h. clear_from-inside tlb_size 0 i s.tlb_read (omega arith) (omega arith);
  write_empty = λ i h. clear_from-inside tlb_size 0 i s.tlb_write (omega arith) (omega arith);
  code_empty = λ i h. clear_from-inside tlb_size 0 i s.tlb_code (omega arith) (omega arith);
}

-- What a translation reads of the hart's state: the root of the page table, the width
-- that addresses of machine mode are cut to, the privilege, and in
-- mstatus MPRV, SUM, MXR, and MPP where MPRV is set.
pub record SameContext (s t : RiscvCpuState) : Type 0 where
  pub satp : t.satp ≡ s.satp
  pub priv : t.priv ≡ s.priv
  pub cur_xlen : t.cur_xlen ≡ s.cur_xlen
  pub mprv : bit t.mstatus 17 ≡ bit s.mstatus 17
  pub sum : bit t.mstatus 18 ≡ bit s.mstatus 18
  pub mxr : bit t.mstatus 19 ≡ bit s.mstatus 19
  pub mpp_low : (bit s.mstatus 17 ≡ 0) ⊎ (bit t.mstatus 11 ≡ bit s.mstatus 11)
  pub mpp_high : (bit s.mstatus 17 ≡ 0) ⊎ (bit t.mstatus 12 ≡ bit s.mstatus 12)

pub record SameTlbs (s t : RiscvCpuState) : Type 0 where
  pub read_same : t.tlb_read ≡ s.tlb_read
  pub write_same : t.tlb_write ≡ s.tlb_write
  pub code_same : t.tlb_code ≡ s.tlb_code

-- The step from `s` to `t` keeps no stale translation.
abbrev pub KeepsCoherent : RiscvCpuState → RiscvCpuState → Type 0
KeepsCoherent s t = IsFlushed t ⊎ (SameTlbs s t × SameContext s t)

pub SameTlbs-IsFlushed : {s t : RiscvCpuState} → SameTlbs s t → IsFlushed s → IsFlushed t
SameTlbs-IsFlushed e f = record {
  read_empty = rw e.read_same f.read_empty;
  write_empty = rw e.write_same f.write_empty;
  code_empty = rw e.code_same f.code_empty;
}
