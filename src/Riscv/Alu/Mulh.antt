-- ===== src/Riscv/Alu/Mulh.antt =====
-- The multiplication in halves against the product of twice the width.
use d_risc_v_emulator_tinyem.Base.{
  ◌⊎◌, ◌≢◌, true, false, ◌==◌, bit_ext, bit-bit_or, ℕ, ◌+◌, ◌-◌, ◌*◌, ◌/◌, ◌%◌, ◌^◌, ◌≤◌, ◌<◌, ◌≡◌,
  ◌∙◌, ap, ap₂, sym, refl, arith, bit_or, bit_or_halves, Bool-cases, inl, inr,
}
use native.Mathlib.Nat.{mul-add, add-mul}
use d_risc_v_emulator_tinyem.Riscv.Alu.{
  is_neg, mulhu_halves, mulh_halves, mulhsu_halves, mulh, mulhsu, mulhu,
}

-- The product of two numbers in halves.
product :
    (a0 a1 b0 b1 : ℕ)
    → (a0 + a1 * 2 ^ 32) * (b0 + b1 * 2 ^ 32)
      ≡ a0 * b0 + (a0 * b1 + a1 * b0) * 2 ^ 32 + a1 * b1 * 2 ^ 64
product a0 a1 b0 b1 = grind arith

small_product : (a b : ℕ) → a < 2 ^ 32 → b < 2 ^ 32 → a * b ≤ (2 ^ 32 - 1) * (2 ^ 32 - 1)
small_product a b h k = grind arith

high_half :
    (r00 r01 r10 r11 : ℕ)
    → r00 ≤ (2 ^ 32 - 1) * (2 ^ 32 - 1)
    → r01 ≤ (2 ^ 32 - 1) * (2 ^ 32 - 1)
    → r10 ≤ (2 ^ 32 - 1) * (2 ^ 32 - 1)
    → r11 ≤ (2 ^ 32 - 1) * (2 ^ 32 - 1)
    → let c = r00 / 2 ^ 32 + r01 % 2 ^ 32 + r10 % 2 ^ 32 in
      let c' = c / 2 ^ 32 + r01 / 2 ^ 32 + r10 / 2 ^ 32 + r11 % 2 ^ 32 in
      c' % 2 ^ 32 + (c' / 2 ^ 32 + r11 / 2 ^ 32) % 2 ^ 32 * 2 ^ 32
      ≡ (r00 + (r01 + r10) * 2 ^ 32 + r11 * 2 ^ 64) % 2 ^ 128 / 2 ^ 64
high_half r00 r01 r10 r11 a b c d = omega arith

bit_or_comm : (a b : ℕ) → bit_or a b ≡ bit_or b a
bit_or_comm a b = bit_ext _ _ (λ i. ground (arith, bit-bit_or a b i, bit-bit_or b a i))

-- The high half of the product of two 64-bit words, computed from four products of 32-bit halves
-- without a wider type, is that of the 128-bit product.
pub mulhu_halves-mulhu : (a b : ℕ) → a < 2 ^ 64 → b < 2 ^ 64 → mulhu_halves 32 a b ≡ mulhu 64 a b
unfolding mulhu_halves mulhu
mulhu_halves-mulhu a b h k =
    let a0 = a % 2 ^ 32 in
    let a1 = a / 2 ^ 32 % 2 ^ 32 in
    let b0 = b % 2 ^ 32 in
    let b1 = b / 2 ^ 32 % 2 ^ 32 in
    let whole : a * b ≡ a0 * b0 + (a0 * b1 + a1 * b0) * 2 ^ 32 + a1 * b1 * 2 ^ 64 =
      ap₂ (λ (x y : ℕ). x * y) (halves a h) (halves b k) ∙ product a0 a1 b0 b1 in
    bit_or_comm _ _
    ∙ bit_or_halves 32 _ _ (omega arith)
    ∙ high_half (a0 * b0) (a0 * b1) (a1 * b0) (a1 * b1)
        (small_product a0 b0 (omega arith) (omega arith))
        (small_product a0 b1 (omega arith) (omega arith))
        (small_product a1 b0 (omega arith) (omega arith))
        (small_product a1 b1 (omega arith) (omega arith))
    ∙ ap (λ (t : ℕ). t % 2 ^ 128 / 2 ^ 64) (sym whole)
  where
    halves : (x : ℕ) → x < 2 ^ 64 → x ≡ x % 2 ^ 32 + x / 2 ^ 32 % 2 ^ 32 * 2 ^ 32
    halves x l = omega arith

-- The correction of the unsigned product for a negative factor.
one_negative :
    (p a b : ℕ)
    → p ≡ a * b
    → a < 2 ^ 64
    → b < 2 ^ 64
    → (a + (2 ^ 128 - 2 ^ 64)) * b % 2 ^ 128 / 2 ^ 64 ≡ (p % 2 ^ 128 / 2 ^ 64 + 2 ^ 64 - b) % 2 ^ 64
one_negative p a b e h k = omega (arith, add-mul a (2 ^ 128 - 2 ^ 64) b)

both_negative :
    (p a b : ℕ)
    → p ≡ a * b
    → a < 2 ^ 64
    → b < 2 ^ 64
    → (a + (2 ^ 128 - 2 ^ 64)) * (b + (2 ^ 128 - 2 ^ 64)) % 2 ^ 128 / 2 ^ 64
      ≡ ((p % 2 ^ 128 / 2 ^ 64 + 2 ^ 64 - b) % 2 ^ 64 + 2 ^ 64 - a) % 2 ^ 64
both_negative p a b e h k =
    omega
      (arith, add-mul a (2 ^ 128 - 2 ^ 64) (b + (2 ^ 128 - 2 ^ 64)), mul-add a b (2 ^ 128 - 2 ^ 64))

-- The code subtracts `a` where `b` is due.
corrected_twice :
    (p a b : ℕ)
    → p ≡ a * b
    → a < 2 ^ 64
    → b < 2 ^ 64
    → ((p % 2 ^ 128 / 2 ^ 64 + 2 ^ 64 - a) % 2 ^ 64 + 2 ^ 64 - b) % 2 ^ 64
      ≡ (a + (2 ^ 128 - 2 ^ 64)) * (b + (2 ^ 128 - 2 ^ 64)) % 2 ^ 128 / 2 ^ 64
corrected_twice p a b e h k = omega (arith, both_negative p a b e h k)

corrected_same :
    (p a b : ℕ)
    → p ≡ a * b
    → a < 2 ^ 64
    → b < 2 ^ 64
    → a ≡ b
    → (p % 2 ^ 128 / 2 ^ 64 + 2 ^ 64 - a) % 2 ^ 64 ≡ (a + (2 ^ 128 - 2 ^ 64)) * b % 2 ^ 128 / 2 ^ 64
corrected_same p a b e h k same = omega (arith, same, one_negative p a b e h k)

corrected_wrong :
    (p a b : ℕ)
    → p ≡ a * b
    → a < 2 ^ 64
    → b < 2 ^ 64
    → (p % 2 ^ 128 / 2 ^ 64 + 2 ^ 64 - a) % 2 ^ 64 ≡ (a + (2 ^ 128 - 2 ^ 64)) * b % 2 ^ 128 / 2 ^ 64
    → a ≡ b
corrected_wrong p a b e h k w = omega (arith, w, one_negative p a b e h k)

corrected_crossed :
    (a b : ℕ)
    → a < 2 ^ 64
    → b < 2 ^ 64
    → (a * b % 2 ^ 128 / 2 ^ 64 + 2 ^ 64 - b) % 2 ^ 64
      ≡ a * (b + (2 ^ 128 - 2 ^ 64)) % 2 ^ 128 / 2 ^ 64
    → a ≡ b
corrected_crossed a b h k w = omega (arith, w, mul-add a b (2 ^ 128 - 2 ^ 64))

-- With UHALF_LEN 32, on 64-bit words: `mulh_halves` subtracts the negative factor itself where the other
-- one is due. So it is the signed high product exactly if both factors have the same sign, and
-- `mulhsu_halves` is the mixed one exactly if the signed factor is not negative or both factors are
-- the same word.
pub mulh_halves-mulh :
    (a b : ℕ)
    → a < 2 ^ 64
    → b < 2 ^ 64
    → (((is_neg 64 a ≡ is_neg 64 b) × (mulh_halves 32 a b ≡ mulh 64 a b))
        ⊎ ((is_neg 64 a ≢ is_neg 64 b) × (mulh_halves 32 a b ≢ mulh 64 a b)))
      × ((((is_neg 64 a ≡ false) ⊎ (a ≡ b)) × (mulhsu_halves 32 a b ≡ mulhsu 64 a b))
          ⊎ ((is_neg 64 a ≡ true) × (a ≢ b) × (mulhsu_halves 32 a b ≢ mulhsu 64 a b)))
unfolding mulh_halves mulh mulhsu_halves mulhsu
mulh_halves-mulh a b h k =
    let u : mulhu_halves 32 a b ≡ a * b % 2 ^ 128 / 2 ^ 64 =
      unfold mulhu in mulhu_halves-mulhu a b h k in
    rw u (elim (Bool-cases (is_neg 64 a)) [
      | inl na ↦ elim (Bool-cases (is_neg 64 b)) [
        | inl nb ↦
            rw (na, nb)
              (
                inl (refl, corrected_twice (a * b) a b refl h k),
                elim (Bool-cases (a == b)) [
                  | inl same ↦
                      inl (inr (ground arith), corrected_same (a * b) a b refl h k (ground arith))
                  | inr other ↦
                      let ne : a ≢ b = λ e. ground arith in
                      inr (refl, ne, λ e. ne (corrected_wrong (a * b) a b refl h k e))
                ],
              )
        | inr pb ↦
            let ne : a ≢ b = λ e. ground arith in
            rw (na, pb)
              (
                inr (λ e. cc, λ e. ne (corrected_wrong (a * b) a b refl h k e)),
                inr (refl, ne, λ e. ne (corrected_wrong (a * b) a b refl h k e)),
              )
      ]
      | inr pa ↦ elim (Bool-cases (is_neg 64 b)) [
        | inl nb ↦
            let differ : a ≢ b = λ e. ground arith in
            rw (pa, nb)
              (inr (λ e. cc, λ e. differ (corrected_crossed a b h k e)), inl (inl refl, refl))
        | inr pb ↦ rw (pa, pb) (inl (refl, refl), inl (inl refl, refl))
      ]
    ])
