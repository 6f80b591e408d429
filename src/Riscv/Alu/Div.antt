-- ===== src/Riscv/Alu/Div.antt =====
-- Signed division: what the quotient and the remainder are.
use d_risc_v_emulator_tinyem.Base.{
  ℕ, ◌+◌, ◌-◌, ◌*◌, ◌/◌, ◌%◌, ◌^◌, ◌≤◌, ◌<◌, ◌≡◌, ◌∙◌, ◌⊎◌, inl, inr, ap, sym, refl, arith, Bool,
  Bool-cases, true, false, not, ◌==◌, ◌&&◌, leb, if◌then◌else◌,
}
use native.Mathlib.Nat.{
  div-add-mod, mod-lt, mod_self, mod-eq_of_lt, mul-le-mul, pow-suc, one-le-pow,
}
use d_risc_v_emulator_tinyem.Riscv.Alu.{is_neg, magnitude, div, rem}

-- Division of signed words rounded to zero, on absolute values and signs.
pub record Truncates (w a b q r : ℕ) : Type 0 where
  pub whole : magnitude w a ≡ magnitude w b * magnitude w q + magnitude w r
  pub smaller : magnitude w r < magnitude w b
  pub quotient_sign : (q ≡ 0) ⊎ (is_neg w q ≡ (if is_neg w a then not (is_neg w b) else is_neg w b))
  pub remainder_sign : (r ≡ 0) ⊎ (is_neg w r ≡ is_neg w a)

-- The three cases of the division instructions.
pub data Divides (w a b q r : ℕ) : Type 0 where
  by_zero : b ≡ 0 → q ≡ 2 ^ w - 1 → r ≡ a → Divides w a b q r
  overflow : a ≡ 2 ^ (w - 1) → b ≡ 2 ^ w - 1 → q ≡ a → r ≡ 0 → Divides w a b q r
  truncated : Truncates w a b q r → Divides w a b q r

half : (w : ℕ) → 1 ≤ w → 2 ^ w ≡ 2 ^ (w - 1) * 2
half w h = ap (λ (t : ℕ). 2 ^ t) (omega arith) ∙ pow-suc 2 (w - 1)

bounded_quotient : (a b q r h : ℕ) → a ≡ b * q + r → a ≤ h → 2 ≤ b → 0 < h → q < h
bounded_quotient a b q r h e le two pos =
    let m = mul-le-mul {n₁ = 2} {m₁ = q} {n₂ = b} {m₂ = q} two (omega arith) in omega arith

-- A quotient is at most the dividend.
quotient-le : (a b q r : ℕ) → a ≡ b * q + r → 1 ≤ b → q ≤ a
quotient-le a b q r e one =
    let m = mul-le-mul {n₁ = 1} {m₁ = q} {n₂ = b} {m₂ = q} one (omega arith) in omega arith

-- A word and its absolute value and sign.
record Signed (w : ℕ) (neg : Bool) (m x : ℕ) : Type 0 where
  of_magnitude : magnitude w x ≡ m
  of_sign : (x ≡ 0) ⊎ (is_neg w x ≡ neg)

nonnegative-Signed : (w m : ℕ) → m < 2 ^ (w - 1) → Signed w false m m
nonnegative-Signed w m small = record { of_magnitude = ground arith; of_sign = inr (ground arith) }

negated-Signed : (w m : ℕ) → 1 ≤ w → m ≤ 2 ^ (w - 1) → Signed w true m ((2 ^ w - m) % 2 ^ w)
negated-Signed w m pos small =
    let H = half w pos in
    let one = one-le-pow (w - 1) 2 (omega arith) in
    elim (Bool-cases (m == 0)) [
      | inl zero_m ↦
          let e : m ≡ 0 = ground arith in
          let r : (2 ^ w - m) % 2 ^ w ≡ 0 =
            ap (λ (t : ℕ). (2 ^ w - t) % 2 ^ w) e
            ∙ ap (λ (t : ℕ). t % 2 ^ w) (omega arith)
            ∙ mod_self (2 ^ w) in
          rw r (record { of_magnitude = ground arith; of_sign = inl refl })
      | inr nonzero ↦
          let p : 1 ≤ m = ground arith in
          let r : (2 ^ w - m) % 2 ^ w ≡ 2 ^ w - m = mod-eq_of_lt (omega arith) in
          rw r (record { of_magnitude = ground arith; of_sign = inr (ground arith) })
    ]

-- The word that `div` makes of an absolute value and the signs of its operands, and the one of `rem`.
abbrev signed_quotient : ℕ → Bool → Bool → ℕ → ℕ
signed_quotient w na nb m =
    if na then (if nb then m else (2 ^ w - m) % 2 ^ w) else (if nb then (2 ^ w - m) % 2 ^ w else m)

abbrev signed_remainder : ℕ → Bool → ℕ → ℕ
signed_remainder w na m = if na then (2 ^ w - m) % 2 ^ w else m

signed_quotient-Signed :
    (w : ℕ) (na nb : Bool) (m : ℕ)
    → 1 ≤ w
    → m ≤ 2 ^ (w - 1)
    → (na ≡ nb → m < 2 ^ (w - 1))
    → Signed w (if na then not nb else nb) m (signed_quotient w na nb m)
signed_quotient-Signed w true true m pos le lt = nonnegative-Signed w m (lt refl)
signed_quotient-Signed w true false m pos le lt = negated-Signed w m pos le
signed_quotient-Signed w false true m pos le lt = negated-Signed w m pos le
signed_quotient-Signed w false false m pos le lt = nonnegative-Signed w m (lt refl)

signed_remainder-Signed :
    (w : ℕ) (na : Bool) (m : ℕ) → 1 ≤ w → m < 2 ^ (w - 1) → Signed w na m (signed_remainder w na m)
signed_remainder-Signed w true m pos lt = negated-Signed w m pos (omega arith)
signed_remainder-Signed w false m pos lt = nonnegative-Signed w m lt

-- Two signed words that are a quotient and a remainder of absolute values.
Signed-Truncates :
    {w a b q r : ℕ}
    → 1 ≤ magnitude w b
    → Signed w
        (if is_neg w a then not (is_neg w b) else is_neg w b)
        (magnitude w a / magnitude w b)
        q
    → Signed w (is_neg w a) (magnitude w a % magnitude w b) r
    → Truncates w a b q r
Signed-Truncates {w} {a} {b} {q} pos sq sr = record {
  whole =
      sym (div-add-mod (magnitude w a) (magnitude w b))
      ∙ ap (λ t. magnitude w b * t + magnitude w a % magnitude w b) (sym sq.of_magnitude)
      ∙ ap (λ t. magnitude w b * magnitude w q + t) (sym sr.of_magnitude);
  smaller = rw sr.of_magnitude (mod-lt (magnitude w a) (omega arith));
  quotient_sign = sq.of_sign;
  remainder_sign = sr.of_sign;
}

-- For signed words of `w` bits: a division by zero gives all ones and the dividend as its remainder,
-- the one quotient that does not fit gives the dividend and no remainder, and every other division
-- is rounded to zero, with the sign of the dividend on the remainder.
pub div-rem-Divides :
    (w a b : ℕ) → 1 ≤ w → a < 2 ^ w → b < 2 ^ w → Divides w a b (div w a b) (rem w a b)
unfolding div rem
div-rem-Divides w a b pos h k =
    let H = half w pos in
    let one = one-le-pow (w - 1) 2 (omega arith) in
    elim (Bool-cases (b == 0)) [
      | inl zero_div ↦ rw zero_div (by_zero (ground arith) refl refl)
      | inr nonzero ↦ elim (Bool-cases (a == 2 ^ (w - 1) && b == 2 ^ w - 1)) [
        | inl over ↦ rw (nonzero, over) (overflow (ground arith) (ground arith) refl refl)
        | inr fits ↦
            let A = magnitude w a in
            let B = magnitude w b in
            let B_pos : 1 ≤ B = ground arith in
            let B_le : B ≤ 2 ^ (w - 1) = ground arith in
            let A_le : A ≤ 2 ^ (w - 1) = ground arith in
            let whole : A ≡ B * (A / B) + A % B = sym (div-add-mod A B) in
            let small : A % B < B = mod-lt A (omega arith) in
            let q_le : A / B ≤ A = quotient-le A B (A / B) (A % B) whole B_pos in
            let q_lt : is_neg w a ≡ is_neg w b → A / B < 2 ^ (w - 1) = λ same.
              elim (Bool-cases (leb 2 B)) [
                | inl two ↦
                    bounded_quotient A B (A / B) (A % B) (2 ^ (w - 1)) whole A_le (ground arith) one
                | inr unit ↦ let lt : A < 2 ^ (w - 1) = ground arith in omega arith
              ] in
            rw (nonzero, fits)
              (truncated (
                Signed-Truncates B_pos
                  (signed_quotient-Signed w (is_neg w a) (is_neg w b) (A / B) pos (omega arith)
                    q_lt)
                  (signed_remainder-Signed w (is_neg w a) (A % B) pos (omega arith))))
      ]
    ]
