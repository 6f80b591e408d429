-- ===== src/Riscv/Exec/Parity.antt =====
-- riscv_cpu_template.h: the targets of the jumps are even.
use d_risc_v_emulator_tinyem.Base.{
  ℕ, ◌+◌, ◌-◌, ◌*◌, ◌/◌, ◌%◌, ◌^◌, ◌≡◌, inl, inr, refl, arith, bit_and, bit_or, bit, bit-bit_and,
  bit-bit_or, u32, leb, Bool-cases, min, max,
}
use d_risc_v_emulator_tinyem.Riscv.Alu.{sx, sar}
use d_risc_v_emulator_tinyem.Riscv.Alu.Words.{IsWidth}
use d_risc_v_emulator_tinyem.Riscv.Exec.{sext, get_field1}
use d_risc_v_emulator_tinyem.Riscv.Exec.Jumps.{imm_j, imm_b}
use d_risc_v_emulator_tinyem.Riscv.Exec.Quadrant1.{imm_cj, imm_cb}

pub even_and : (a m : ℕ) → m % 2 ≡ 0 → bit_and a m % 2 ≡ 0
unfolding bit
even_and a m e =
    let whole : bit_and a m % 2 ≡ min (a % 2) (m % 2) = bit-bit_and a m 0 in omega arith

even_or : (a b : ℕ) → a % 2 ≡ 0 → b % 2 ≡ 0 → bit_or a b % 2 ≡ 0
unfolding bit
even_or a b e f = let whole : bit_or a b % 2 ≡ max (a % 2) (b % 2) = bit-bit_or a b 0 in omega arith

pub even_sx : (w v : ℕ) → IsWidth w → v % 2 ≡ 0 → sx w v % 2 ≡ 0
unfolding sx
even_sx w v (inl e) even = rw e (ground arith)
even_sx w v (inr e) even = rw e (ground arith)

-- The immediates of the jumps and the branches.
pub even_imm_j : (insn : ℕ) → imm_j insn % 2 ≡ 0
unfolding imm_j sext sar
even_imm_j insn =
    let e =
      even_or _ _
        (even_or _ _
          (even_or _ _ (even_and (insn / 2 ^ 11) (2 ^ 20) refl)
            (even_and (insn / 2 ^ 20) 0x7fe refl))
          (even_and (insn / 2 ^ 9) (2 ^ 11) refl))
        (even_and insn 0xff000 refl) in
    ground (arith, e)

pub even_imm_b : (insn : ℕ) → imm_b insn % 2 ≡ 0
unfolding imm_b sext sar
even_imm_b insn =
    let e =
      even_or _ _
        (even_or _ _
          (even_or _ _ (even_and (insn / 2 ^ 19) (2 ^ 12) refl)
            (even_and (insn / 2 ^ 20) 0x7e0 refl))
          (even_and (insn / 2 ^ 7) 0x1e refl))
        (even_and (u32 (insn * 2 ^ 4)) (2 ^ 11) refl) in
    ground (arith, e)

-- A field that is put above digit 0.
even_field :
    (insn src dst top : ℕ)
    → (2 ^ (top - dst + 1) - 1) * 2 ^ dst % 2 ≡ 0
    → get_field1 insn src dst top % 2 ≡ 0
unfolding get_field1
even_field insn src dst top e = elim (Bool-cases (leb src dst)) [
  | inl up ↦ rw up (even_and (u32 (insn * 2 ^ (dst - src))) _ e)
  | inr down ↦ rw down (even_and (insn / 2 ^ (src - dst)) _ e)
]

pub even_imm_cj : (insn : ℕ) → imm_cj insn % 2 ≡ 0
unfolding imm_cj sext sar
even_imm_cj insn =
    let field = λ (src dst top : ℕ) (e : (2 ^ (top - dst + 1) - 1) * 2 ^ dst % 2 ≡ 0).
      even_field insn src dst top e in
    let high =
      even_or _ _
        (even_or _ _ (even_or _ _ (field 12 11 11 refl) (field 11 4 4 refl)) (field 9 8 9 refl))
        (field 8 10 10 refl) in
    let low =
      even_or _ _
        (even_or _ _ (even_or _ _ (field 7 6 6 refl) (field 6 7 7 refl)) (field 3 1 3 refl))
        (field 2 5 5 refl) in
    ground (arith, even_or _ _ high low)

pub even_imm_cb : (insn : ℕ) → imm_cb insn % 2 ≡ 0
unfolding imm_cb sext sar
even_imm_cb insn =
    let field = λ (src dst top : ℕ) (e : (2 ^ (top - dst + 1) - 1) * 2 ^ dst % 2 ≡ 0).
      even_field insn src dst top e in
    let e =
      even_or _ _
        (even_or _ _
          (even_or _ _ (even_or _ _ (field 12 8 8 refl) (field 10 3 4 refl)) (field 5 6 7 refl))
          (field 3 1 2 refl))
        (field 2 5 5 refl) in
    ground (arith, e)
