-- ===== src/Riscv/Exec/Effect.antt =====
-- riscv_cpu_template.h: what an instruction does to a hart, control registers aside.
use d_risc_v_emulator_tinyem.Base.{
  ℕ, ◌%◌, ◌^◌, ◌<◌, ◌≡◌, ◌≢◌, ◌∙◌, ◌⊎◌, inl, inr, ap, sym, refl, arith, Bool, Bool-cases, true,
  false, ◌==◌, if◌then◌else◌, Option, none, some,
}
use mathlib.Core.Path.{subst}
use d_risc_v_emulator_tinyem.Riscv.State.{RiscvCpuState}
use d_risc_v_emulator_tinyem.Riscv.Alu.Words.{Fits, Fits-lt}
use d_risc_v_emulator_tinyem.Riscv.Invariant.{IsValid}
use d_risc_v_emulator_tinyem.Riscv.Access.{Hart, Load, fault, value, unset}
use d_risc_v_emulator_tinyem.Riscv.Exec.{
  Outcome, next, jump, illegal_insn, exception, done_interp, undefined, floating, put_reg, set_reg,
  set_fp_reg, set_pc, after_load, after_store, after_op,
}

-- The state `s` with the parts that a program works on from `t`.
abbrev pub with_program : RiscvCpuState → RiscvCpuState → RiscvCpuState
with_program s t = record s {
  pc = t.pc;
  reg = t.reg;
  fp_reg = t.fp_reg;
  fs = t.fs;
  insn_counter = t.insn_counter;
  power_down_flag = t.power_down_flag;
  pending_exception = t.pending_exception;
  pending_tval = t.pending_tval;
  mip = t.mip;
  load_res = t.load_res;
  tlb_read = t.tlb_read;
  tlb_write = t.tlb_write;
  tlb_code = t.tlb_code;
}

-- Every register is a 64-bit word.
abbrev pub HasWords : RiscvCpuState → Type 0
HasWords s = (i : ℕ) → s.reg i < 2 ^ 64

-- From `s` to `t` the control registers stay, and so do the zero register, the size of the others, an
-- even `pc` and the range of `fs`.
pub record Effect (s t : RiscvCpuState) : Type 0 where
  pub control : t ≡ with_program s t
  pub zero_kept : t.reg 0 ≡ s.reg 0
  pub words_kept : HasWords s → HasWords t
  pub pc_kept : s.pc % 2 ≡ 0 → t.pc % 2 ≡ 0
  pub fs_kept : s.fs < 4 → t.fs < 4
  pub mip_kept : s.mip < 2 ^ 32 → t.mip < 2 ^ 32

pub Effect-refl : (s : RiscvCpuState) → Effect s s
Effect-refl s = record {
  control = refl;
  zero_kept = refl;
  words_kept = λ w. w;
  pc_kept = λ p. p;
  fs_kept = λ f. f;
  mip_kept = λ m. m;
}

pub Effect-trans : {s t u : RiscvCpuState} → Effect s t → Effect t u → Effect s u
Effect-trans {u} p q = record {
  control = q.control ∙ ap (λ (x : RiscvCpuState). with_program x u) p.control;
  zero_kept = q.zero_kept ∙ p.zero_kept;
  words_kept = λ w. q.words_kept (p.words_kept w);
  pc_kept = λ e. q.pc_kept (p.pc_kept e);
  fs_kept = λ f. q.fs_kept (p.fs_kept f);
  mip_kept = λ m. q.mip_kept (p.mip_kept m);
}

-- The condition of a hart between two instructions.
pub record IsSound (s : RiscvCpuState) : Type 0 where
  pub valid : IsValid s
  pub zero_reg : s.reg 0 ≡ 0
  pub words : HasWords s

with_program-IsValid :
    (s t : RiscvCpuState)
    → t.pc % 2 ≡ 0
    → t.fs < 4
    → t.mip < 2 ^ 32
    → IsValid s
    → IsValid (with_program s t)
with_program-IsValid s t p f m v = ground arith

pub Effect-IsSound : {s t : RiscvCpuState} → Effect s t → IsSound s → IsSound t
Effect-IsSound {s} {t} e v = record {
  valid = subst IsValid (sym e.control) (
      with_program-IsValid s t (e.pc_kept v.valid.pc_even) (e.fs_kept v.valid.fs_fits)
        (e.mip_kept v.valid.mip_fits) v.valid);
  zero_reg = e.zero_kept ∙ v.zero_reg;
  words = e.words_kept v.words;
}

-- What holds of the hart however an instruction ends, `done_interp` apart.
pub data Ends {D : Type 0} (Keeps Stops : Hart D → Type 0) : Outcome D → Type 0 where
  next_ends :
      (len : ℕ) (h : Hart D) → (len ≡ 2) ⊎ (len ≡ 4) → Keeps h → Ends Keeps Stops (next len h)
  jump_ends : (h : Hart D) → Keeps h → Ends Keeps Stops (jump h)
  illegal_ends : (h : Hart D) → Keeps h → Ends Keeps Stops (illegal_insn h)
  exception_ends : (h : Hart D) → Keeps h → Ends Keeps Stops (exception h)
  done_ends : (h : Hart D) → Stops h → Ends Keeps Stops (done_interp h)
  undefined_ends : (h : Hart D) → Keeps h → Ends Keeps Stops (undefined h)
  floating_ends : (h : Hart D) → Keeps h → Ends Keeps Stops (floating h)

pub Ends-map :
    {D : Type 0} {K S K' S' : Hart D → Type 0} {o : Outcome D}
    → ((h : Hart D) → K h → K' h)
    → ((h : Hart D) → S h → S' h)
    → Ends K S o
    → Ends K' S' o
Ends-map f g (next_ends len h l k) = next_ends len h l (f h k)
Ends-map f g (jump_ends h k) = jump_ends h (f h k)
Ends-map f g (illegal_ends h k) = illegal_ends h (f h k)
Ends-map f g (exception_ends h k) = exception_ends h (f h k)
Ends-map f g (done_ends h s) = done_ends h (g h s)
Ends-map f g (undefined_ends h k) = undefined_ends h (f h k)
Ends-map f g (floating_ends h k) = floating_ends h (f h k)

-- An end with an effect on `s` of the kind above.
abbrev pub HasEffect : {D : Type 0} → RiscvCpuState → Outcome D → Type 0
HasEffect s o = Ends (λ h. Effect s h.cpu) (λ h. Effect s h.cpu) o

-- Both branches of a condition.
pub if-Ends :
    {D : Type 0} {K S : Hart D → Type 0} {x y : Outcome D} (b : Bool)
    → Ends K S x
    → Ends K S y
    → Ends K S (if b then x else y)
if-Ends true p q = p
if-Ends false p q = q

pub if-HasEffect :
    {D : Type 0} {s : RiscvCpuState} {x y : Outcome D} (b : Bool)
    → HasEffect s x
    → HasEffect s y
    → HasEffect s (if b then x else y)
if-HasEffect b p q = if-Ends b p q

module _ {D : Type 0} (h : Hart D) where
  pub put_reg-Effect :
      (rd val : ℕ) → rd ≢ 0 → (HasWords h.cpu → val < 2 ^ 64) → Effect h.cpu (put_reg h rd val).cpu
  unfolding put_reg
  put_reg-Effect rd val nonzero lt = record {
    control = refl;
    zero_kept = ground arith;
    words_kept = λ w i. ground (arith, w i, lt w);
    pc_kept = λ p. p;
    fs_kept = λ f. f;
    mip_kept = λ m. m;
  }

  pub set_reg-Effect :
      (rd val : ℕ) → (HasWords h.cpu → val < 2 ^ 64) → Effect h.cpu (set_reg h rd val).cpu
  unfolding set_reg
  set_reg-Effect rd val lt = elim (Bool-cases (rd == 0)) [
    | inl z ↦ rw z (Effect-refl h.cpu)
    | inr n ↦ rw n (put_reg-Effect rd val (λ e. ground arith) lt)
  ]

  pub set_fp_reg-Effect : (rd val : ℕ) → Effect h.cpu (set_fp_reg h rd val).cpu
  unfolding set_fp_reg
  set_fp_reg-Effect rd val = record {
    control = refl;
    zero_kept = refl;
    words_kept = λ w. w;
    pc_kept = λ p. p;
    fs_kept = λ f. omega arith;
    mip_kept = λ m. m;
  }

  pub set_pc-Effect :
      {s : RiscvCpuState} (pc : ℕ)
      → Effect s h.cpu
      → (s.pc % 2 ≡ 0 → pc % 2 ≡ 0)
      → Effect s (set_pc h pc).cpu
  unfolding set_pc
  set_pc-Effect pc e even = record {
    control = ap (λ (c : RiscvCpuState). record c { pc = pc }) e.control;
    zero_kept = e.zero_kept;
    words_kept = e.words_kept;
    pc_kept = even;
    fs_kept = e.fs_kept;
    mip_kept = e.mip_kept;
  }

pub HasEffect-trans :
    {D : Type 0} {s t : RiscvCpuState} {o : Outcome D} → Effect s t → HasEffect t o → HasEffect s o
HasEffect-trans e q = Ends-map (λ h. Effect-trans e) (λ h. Effect-trans e) q

pub after_load-HasEffect :
    {D : Type 0} {s : RiscvCpuState} (f : ℕ → Hart D → Outcome D) (r : Load × Hart D)
    → ((v : ℕ) (h : Hart D) → HasEffect h.cpu (f v h))
    → Effect s r.1.cpu
    → HasEffect s (after_load f r)
unfolding after_load
after_load-HasEffect f (fault, h) k e = exception_ends h e
after_load-HasEffect f (value v, h) k e = HasEffect-trans e (k v h)
after_load-HasEffect f (unset, h) k e = undefined_ends h e

pub after_store-HasEffect :
    {D : Type 0} {s : RiscvCpuState} (f : Hart D → Outcome D) (r : Bool × Hart D)
    → ((h : Hart D) → HasEffect h.cpu (f h))
    → Effect s r.1.cpu
    → HasEffect s (after_store f r)
unfolding after_store
after_store-HasEffect f (true, h) k e = exception_ends h e
after_store-HasEffect f (false, h) k e = HasEffect-trans e (k h)

pub after_op-HasEffect :
    {D : Type 0} (h : Hart D) (rd : ℕ) (r : Option ℕ)
    → (HasWords h.cpu → Fits r)
    → HasEffect h.cpu (after_op h rd r)
unfolding after_op
after_op-HasEffect h rd none f = illegal_ends h (Effect-refl h.cpu)
after_op-HasEffect h rd (some val) f =
    next_ends 4 (set_reg h rd val) (inr refl) (set_reg-Effect h rd val (λ w. Fits-lt (f w)))
