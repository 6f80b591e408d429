-- ===== src/Riscv/Csr/Isolation.antt =====
-- What the registers of the user and supervisor levels can change.
use d_risc_v_emulator_tinyem.Base.{
  ℕ, ◌/◌, ◌%◌, ◌^◌, ◌≤◌, ◌<◌, ◌≡◌, ◌∙◌, inl, inr, refl, arith, Bool, Bool-cases, true, false, some,
  bit, bit_lt_two, bit_and, bit_replaced, bit_mod, bit_and-mask, bit-bit_and,
}
use d_risc_v_emulator_tinyem.Riscv.State.{RiscvCpuState}
use d_risc_v_emulator_tinyem.Riscv.Tlb.{tlb_flush_all, tlb_init}
use d_risc_v_emulator_tinyem.Riscv.Mstatus.{sstatus_mask, set_mstatus}
use d_risc_v_emulator_tinyem.Riscv.Mstatus.Write.{set_mstatus-bit}
use d_risc_v_emulator_tinyem.Riscv.Csr.{Csr, csr_of, csr_read, csr_write, write_csr, merge, set_frm}
use d_risc_v_emulator_tinyem.Riscv.Invariant.{set_mstatus-frame}

-- The registers that only machine mode has.
abbrev is_machine : Csr → Bool
is_machine Csr.mstatus = true
is_machine Csr.misa = true
is_machine Csr.medeleg = true
is_machine Csr.mideleg = true
is_machine Csr.mie = true
is_machine Csr.mtvec = true
is_machine Csr.mcounteren = true
is_machine Csr.mscratch = true
is_machine Csr.mepc = true
is_machine Csr.mcause = true
is_machine Csr.mtval = true
is_machine Csr.mip = true
is_machine _ = false

is_machine_level : (n : ℕ) → is_machine (csr_of n) ≡ true → n / 2 ^ 8 % 4 ≡ 3
unfolding csr_of
is_machine_level n h = ground arith

-- The machine's state, as far as a less privileged program must not touch it: its registers, the
-- interrupts that are not handed down, and mstatus outside the fields that sstatus shows.
pub record SameMachine (s t : RiscvCpuState) : Type 0 where
  pub mtvec : t.mtvec ≡ s.mtvec
  pub mscratch : t.mscratch ≡ s.mscratch
  pub mepc : t.mepc ≡ s.mepc
  pub mcause : t.mcause ≡ s.mcause
  pub mtval : t.mtval ≡ s.mtval
  pub misa : t.misa ≡ s.misa
  pub mxl : t.mxl ≡ s.mxl
  pub cur_xlen : t.cur_xlen ≡ s.cur_xlen
  pub medeleg : t.medeleg ≡ s.medeleg
  pub mideleg : t.mideleg ≡ s.mideleg
  pub mcounteren : t.mcounteren ≡ s.mcounteren
  pub priv : t.priv ≡ s.priv
  pub mie : (i : ℕ) → i < 32 → bit s.mideleg i ≡ 0 → bit t.mie i ≡ bit s.mie i
  pub mip : (i : ℕ) → i < 32 → bit s.mideleg i ≡ 0 → bit t.mip i ≡ bit s.mip i
  pub mstatus : (i : ℕ) → bit sstatus_mask i ≡ 0 → bit t.mstatus i ≡ bit s.mstatus i

-- What a merge leaves of the old word outside the mask, in its low 32 digits.
merge-outside :
    (old mask val i : ℕ)
    → old < 2 ^ 64
    → mask < 2 ^ 64
    → bit mask i ≡ 0
    → bit (merge old mask val) i ≡ bit old i
merge-outside old mask val i h k z =
    bit_replaced 64 old mask (bit_and val mask) i h k
    ∙ ground (arith, bit-bit_and val mask i, bit_lt_two val i)

low_digits : (a i : ℕ) → i < 32 → bit (a % 2 ^ 32) i ≡ bit a i
low_digits a i h = bit_mod a 32 i ∙ ground arith

module _ (s : RiscvCpuState) (val : ℕ) (h : s.mstatus < 2 ^ 64) where
  sstatus_write : SameMachine s (set_mstatus s (merge s.mstatus sstatus_mask val))
  sstatus_write = rw (set_mstatus-frame s (merge s.mstatus sstatus_mask val)) (record {
    mtvec = refl;
    mscratch = refl;
    mepc = refl;
    mcause = refl;
    mtval = refl;
    misa = refl;
    mxl = refl;
    cur_xlen = refl;
    medeleg = refl;
    mideleg = refl;
    mcounteren = refl;
    priv = refl;
    mie = λ i _ _. refl;
    mip = λ i _ _. refl;
    mstatus = λ i z. ground (
      arith,
      set_mstatus-bit s (merge s.mstatus sstatus_mask val) i h,
      merge-outside s.mstatus sstatus_mask val i h (omega arith) z,
    );
  })

write_csr-SameMachine :
    (s : RiscvCpuState) (c : Csr) (val : ℕ)
    → s.mstatus < 2 ^ 64
    → s.mie < 2 ^ 32
    → s.mip < 2 ^ 32
    → s.mideleg < 2 ^ 10
    → is_machine c ≡ false
    → SameMachine s (write_csr s c val).1
unfolding write_csr set_frm tlb_flush_all tlb_init
write_csr-SameMachine s Csr.sstatus val h e p d n = sstatus_write s val h
write_csr-SameMachine s Csr.sie val h e p d n = record {
  mtvec = refl;
  mscratch = refl;
  mepc = refl;
  mcause = refl;
  mtval = refl;
  misa = refl;
  mxl = refl;
  cur_xlen = refl;
  medeleg = refl;
  mideleg = refl;
  mcounteren = refl;
  priv = refl;
  mie =
      λ i k z. low_digits _ i k ∙ merge-outside s.mie s.mideleg val i (omega arith) (omega arith) z;
  mip = λ i _ _. refl;
  mstatus = λ i _. refl;
}
write_csr-SameMachine s Csr.sip val h e p d n = record {
  mtvec = refl;
  mscratch = refl;
  mepc = refl;
  mcause = refl;
  mtval = refl;
  misa = refl;
  mxl = refl;
  cur_xlen = refl;
  medeleg = refl;
  mideleg = refl;
  mcounteren = refl;
  priv = refl;
  mie = λ i _ _. refl;
  mip =
      λ i k z. low_digits _ i k ∙ merge-outside s.mip s.mideleg val i (omega arith) (omega arith) z;
  mstatus = λ i _. refl;
}
write_csr-SameMachine s _ val h e p d n = ground arith

-- On a hart in S or U whose mstatus, mie and mip fit their widths and whose mideleg is below 2
-- ^ 10, a program whose access to a register passes the check of `csr_read` cannot change the
-- machine's state by writing it: neither the registers of machine mode, nor the enabling or
-- pending digit of an interrupt that is not delegated, nor mstatus outside the fields of
-- sstatus.
pub csr_write-SameMachine :
    (s : RiscvCpuState) (csr val : ℕ) (will_write : Bool) {old : ℕ}
    → s.mstatus < 2 ^ 64
    → s.mie < 2 ^ 32
    → s.mip < 2 ^ 32
    → s.mideleg < 2 ^ 10
    → s.priv ≤ 1
    → csr_read s csr will_write ≡ some old
    → SameMachine s (csr_write s csr val).1
unfolding csr_write
csr_write-SameMachine s csr val w h e p d low ok =
    write_csr-SameMachine s (csr_of csr) val h e p d
      (elim (Bool-cases (is_machine (csr_of csr))) [ inl m ↦ absurd (allowed m) | inr n ↦ n ])
  where
    allowed : is_machine (csr_of csr) ≡ true → ⊥
    allowed m =
        let level = is_machine_level csr m in
        let e : bit_and (csr / 2 ^ 8) 3 ≡ 3 = bit_and-mask (csr / 2 ^ 8) 2 ∙ level in
        unfold csr_read in ground arith
