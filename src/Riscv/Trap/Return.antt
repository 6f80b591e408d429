-- ===== src/Riscv/Trap/Return.antt =====
-- `sret` and `mret` undo the entry of a trap.
use d_risc_v_emulator_tinyem.Base.{
  ℕ, ◌/◌, ◌^◌, ◌≤◌, ◌<◌, ◌≡◌, not, ◌∙◌, ap, arith, bit_and, ◌||◌, ◌==◌, ◌&&◌, true, false,
  if◌then◌else◌, bit, bit_and-mask, digit_of_shr, bit_lem,
}
use d_risc_v_emulator_tinyem.Riscv.State.{RiscvCpuState}
use d_risc_v_emulator_tinyem.Riscv.Mstatus.{set_priv}
use d_risc_v_emulator_tinyem.Riscv.Mstatus.Priv.{with_mode, set_priv_frame, priv-set_priv}
use d_risc_v_emulator_tinyem.Riscv.Trap.{
  delegated, leave_s, leave_m, raise_exception2, handle_sret, handle_mret,
}
use d_risc_v_emulator_tinyem.Riscv.Trap.Fields.{leave_s-bit, leave_m-bit, mpp_of}
use d_risc_v_emulator_tinyem.Riscv.Trap.Entry.{
  EnteredS, EnteredM, raise_exception2-EnteredS, raise_exception2-EnteredM,
}

-- Where `sret` goes, and what it leaves in mstatus.
pub record ReturnedS (t r : RiscvCpuState) : Type 0 where
  pub mode : r.priv ≡ bit t.mstatus 8
  pub resumes : r.pc ≡ t.sepc
  pub status :
      (i : ℕ)
      → bit r.mstatus i ≡ (
          if i == 8
          then 0
          else if i == 5
          then 1
          else if i == bit t.mstatus 8
          then bit t.mstatus 5
          else bit t.mstatus i)
  pub registers : r.reg ≡ t.reg

-- On a hart whose mstatus is a 64-bit word, `sret` resumes at sepc in the mode of SPP with all
-- registers as they were: SPP is then 0, SPIE 1, the interrupt enable of that mode is what SPIE
-- was, and no other digit of mstatus changes.
pub handle_sret-ReturnedS : (t : RiscvCpuState) → t.mstatus < 2 ^ 64 → ReturnedS t (handle_sret t)
unfolding handle_sret
handle_sret-ReturnedS t h = record {
  mode = priv-set_priv t1 spp ∙ digit_of_shr t.mstatus 8;
  resumes = ap (λ (t : RiscvCpuState). t.sepc) frame;
  status = λ i. ap (λ (t : RiscvCpuState). bit t.mstatus i) frame ∙ leave_s-bit t.mstatus i h;
  registers = ap (λ (t : RiscvCpuState). t.reg) frame;
}
  where
    spp : ℕ
    spp = bit_and (t.mstatus / 2 ^ 8) 1

    t1 : RiscvCpuState
    t1 = record t { mstatus = leave_s t.mstatus }

    frame : set_priv t1 spp ≡ with_mode t1 (set_priv t1 spp)
    frame = set_priv_frame t1 spp

pub record ReturnedM (t r : RiscvCpuState) : Type 0 where
  pub mode : r.priv ≡ mpp_of t.mstatus
  pub resumes : r.pc ≡ t.mepc
  pub status :
      (i : ℕ)
      → bit r.mstatus i ≡ (
          if i == 11 || i == 12
          then 0
          else if i == 7
          then 1
          else if i == mpp_of t.mstatus
          then bit t.mstatus 7
          else bit t.mstatus i)
  pub registers : r.reg ≡ t.reg

-- On a hart whose mstatus is a 64-bit word, `mret` resumes at mepc in the mode of MPP with all
-- registers as they were: MPP is then 0, MPIE 1, the interrupt enable of that mode is what MPIE
-- was, and no other digit of mstatus changes.
pub handle_mret-ReturnedM : (t : RiscvCpuState) → t.mstatus < 2 ^ 64 → ReturnedM t (handle_mret t)
unfolding handle_mret
handle_mret-ReturnedM t h = record {
  mode = priv-set_priv t1 mpp ∙ bit_and-mask (t.mstatus / 2 ^ 11) 2;
  resumes = ap (λ (t : RiscvCpuState). t.mepc) frame;
  status = λ i. ap (λ (t : RiscvCpuState). bit t.mstatus i) frame ∙ leave_m-bit t.mstatus i h;
  registers = ap (λ (t : RiscvCpuState). t.reg) frame;
}
  where
    mpp : ℕ
    mpp = bit_and (t.mstatus / 2 ^ 11) 3

    t1 : RiscvCpuState
    t1 = record t { mstatus = leave_m t.mstatus }

    frame : set_priv t1 mpp ≡ with_mode t1 (set_priv t1 mpp)
    frame = set_priv_frame t1 mpp

-- The trap and the return have brought `r` back to the mode, the address and the registers of `s`.
pub record Resumed (s r : RiscvCpuState) : Type 0 where
  pub mode : r.priv ≡ s.priv
  pub address : r.pc ≡ s.pc
  pub registers : r.reg ≡ s.reg

-- On a hart whose mstatus is a 64-bit word, a trap delegated from S or U and the `sret` that
-- ends it resume the interrupted program, in its mode, at its address and with its registers.
-- In mstatus SPP is then 0 and SPIE is 1, SIE is 0 if that mode was U, and every other digit,
-- the interrupt enable of the interrupted mode included, is as before.
pub handle_sret-raise_exception2 :
    (s : RiscvCpuState) (cause tval : ℕ)
    → s.mstatus < 2 ^ 64
    → s.priv ≤ 1
    → delegated s cause ≡ true
    → let r = handle_sret (raise_exception2 s cause tval) in
      Resumed s r
      × ((i : ℕ)
          → bit r.mstatus i ≡ (
              if i == 8
              then 0
              else if i == 5
              then 1
              else if i == 1 && s.priv == 0
              then 0
              else bit s.mstatus i))
handle_sret-raise_exception2 s cause tval h p d =
    let t = raise_exception2 s cause tval in
    let e : EnteredS s t cause tval = raise_exception2-EnteredS s cause tval h p d in
    let b : ReturnedS t (handle_sret t) = handle_sret-ReturnedS t e.status_fits in
    (
      record {
        mode = ground (arith, b.mode, e.status 8);
        address = b.resumes ∙ e.epc;
        registers = b.registers ∙ e.registers;
      },
      λ i. ground (arith, b.status i, e.status i, e.status 5, e.status 8),
    )

-- On a hart whose mstatus is a 64-bit word and whose mode is at most 3, a trap that is not
-- delegated and the `mret` that ends it resume the interrupted program, in its mode, at its
-- address and with its registers. In mstatus MPP is then 0 and MPIE is 1, MIE is 0 if that mode
-- was not M, and every other digit, the interrupt enable of the interrupted mode included, is
-- as before.
pub handle_mret-raise_exception2 :
    (s : RiscvCpuState) (cause tval : ℕ)
    → s.mstatus < 2 ^ 64
    → s.priv ≤ 3
    → delegated s cause ≡ false
    → let r = handle_mret (raise_exception2 s cause tval) in
      Resumed s r
      × ((i : ℕ)
          → bit r.mstatus i ≡ (
              if i == 11 || i == 12
              then 0
              else if i == 7
              then 1
              else if i == 3 && not (s.priv == 3)
              then 0
              else bit s.mstatus i))
handle_mret-raise_exception2 s cause tval h p d =
    let t = raise_exception2 s cause tval in
    let e : EnteredM s t cause tval = raise_exception2-EnteredM s cause tval h p d in
    let b : ReturnedM t (handle_mret t) = handle_mret-ReturnedM t e.status_fits in
    let q : mpp_of t.mstatus ≡ s.priv =
      omega (arith, e.status 11, e.status 12, bit_lem t.mstatus 11, bit_lem t.mstatus 12) in
    (
      record {
        mode = b.mode ∙ q;
        address = b.resumes ∙ e.epc;
        registers = b.registers ∙ e.registers;
      },
      λ i. ground (arith, b.status i, e.status i, e.status 7, q),
    )
