-- ===== src/Riscv/Trap/Fields.antt =====
-- mstatus on entering and leaving a trap, digit by digit.
use d_risc_v_emulator_tinyem.Base.{
  ℕ, zero, suc, ◌*◌, ◌/◌, ◌^◌, ◌≤◌, ◌<◌, ◌≡◌, ◌∙◌, arith, bit_and, bit_or, bit_not, ◌==◌,
  if◌then◌else◌, bit, bit_lt_two, digit_of_shr, bit_and-mask, replace_two_digits, clear_two_digits,
  ◌||◌, ◌%◌, ap, replace_digit, clear_digit, set_digit, replaced-lt, bit_and-le, bit_or-lt,
}
use native.Mathlib.Nat.{pow-le-pow_right}
use d_risc_v_emulator_tinyem.Riscv.Trap.{enter_s, enter_m, leave_s, leave_m}

-- A digit shifted to a place inside the word fits.
digit_fits : (d k : ℕ) → d < 2 → 2 * 2 ^ k < 2 ^ 64 → d * 2 ^ k < 2 ^ 64
digit_fits zero k h j = omega arith
digit_fits (suc zero) k h j = omega arith
digit_fits (suc (suc d)) k h j = absurd (omega arith)

module _ (m p : ℕ) (h : m < 2 ^ 64) (k : p ≤ 1) where
  saved_s : ℕ
  saved_s = bit_or (bit_and m (bit_not 64 (2 ^ 5))) (bit_and (m / 2 ^ p) 1 * 2 ^ 5)

  saved_s-lt : saved_s < 2 ^ 64
  unfolding saved_s
  saved_s-lt =
      replaced-lt 64 m (2 ^ 5) _ h
        (digit_fits _ 5 (omega (arith, digit_of_shr m p, bit_lt_two m p)) (omega arith))

  from_s : ℕ
  from_s = bit_or (bit_and saved_s (bit_not 64 (2 ^ 8))) (p * 2 ^ 8)

  from_s-lt : from_s < 2 ^ 64
  unfolding from_s
  from_s-lt = replaced-lt 64 saved_s (2 ^ 8) _ saved_s-lt (omega arith)

  pub enter_s-bit :
      (i : ℕ)
      → bit (enter_s m p) i
        ≡ (if i == 1 then 0 else if i == 8 then p else if i == 5 then bit m p else bit m i)
  unfolding enter_s from_s saved_s
  enter_s-bit i = ground (
    arith,
    clear_digit 64 from_s 1 i from_s-lt (omega arith),
    replace_digit 64 saved_s 8 p i saved_s-lt (omega arith) (omega arith),
    replace_digit 64 m 5 (bit_and (m / 2 ^ p) 1) i h (omega arith),
    digit_of_shr m p,
    bit_lt_two m p,
  )

  pub enter_s-lt : enter_s m p < 2 ^ 64
  unfolding enter_s from_s saved_s
  enter_s-lt = omega (arith, bit_and-le from_s (bit_not 64 (2 ^ 1)), from_s-lt)

module _ (m p : ℕ) (h : m < 2 ^ 64) (k : p ≤ 3) where
  saved_m : ℕ
  saved_m = bit_or (bit_and m (bit_not 64 (2 ^ 7))) (bit_and (m / 2 ^ p) 1 * 2 ^ 7)

  saved_m-lt : saved_m < 2 ^ 64
  unfolding saved_m
  saved_m-lt =
      replaced-lt 64 m (2 ^ 7) _ h
        (digit_fits _ 7 (omega (arith, digit_of_shr m p, bit_lt_two m p)) (omega arith))

  from_m : ℕ
  from_m = bit_or (bit_and saved_m (bit_not 64 (3 * 2 ^ 11))) (p * 2 ^ 11)

  from_m-lt : from_m < 2 ^ 64
  unfolding from_m
  from_m-lt = replaced-lt 64 saved_m (3 * 2 ^ 11) _ saved_m-lt (omega arith)

  pub enter_m-bit :
      (i : ℕ)
      → bit (enter_m m p) i ≡ (
          if i == 3
          then 0
          else if i == 11
          then p % 2
          else if i == 12
          then p / 2
          else if i == 7
          then bit m p
          else bit m i)
  unfolding enter_m from_m saved_m
  enter_m-bit i = ground (
    arith,
    clear_digit 64 from_m 3 i from_m-lt (omega arith),
    replace_two_digits 64 saved_m 11 p i saved_m-lt (omega arith) (omega arith),
    replace_digit 64 m 7 (bit_and (m / 2 ^ p) 1) i h (omega arith),
    digit_of_shr m p,
    bit_lt_two m p,
  )

  pub enter_m-lt : enter_m m p < 2 ^ 64
  unfolding enter_m from_m saved_m
  enter_m-lt = omega (arith, bit_and-le from_m (bit_not 64 (2 ^ 3)), from_m-lt)

-- One interrupt enable restored from the saved digit, which is then set, and a field cleared.
module _ (m q d : ℕ) (h : m < 2 ^ 64) (k : q ≤ 3) (j : d < 2) where
  restored : ℕ → ℕ
  restored n = bit_or (bit_or (bit_and m (bit_not 64 (2 ^ q))) (d * 2 ^ q)) (2 ^ n)

  two_pow_fits : (n : ℕ) → n ≤ 10 → 2 * 2 ^ n < 2 ^ 64
  two_pow_fits n g = omega (arith, pow-le-pow_right {n = 2} (omega arith) {i = n} {j = 10} g)

  restored-lt : (n : ℕ) → n ≤ 10 → restored n < 2 ^ 64
  unfolding restored
  restored-lt n g =
      bit_or-lt 64 _ (2 ^ n)
        (replaced-lt 64 m (2 ^ q) _ h (digit_fits d q j (two_pow_fits q (omega arith))))
        (omega (arith, two_pow_fits n g))

  restored-bit :
      (n i : ℕ) → bit (restored n) i ≡ (if i == n then 1 else if i == q then d else bit m i)
  unfolding restored
  restored-bit n i = ground (
    arith,
    set_digit (bit_or (bit_and m (bit_not 64 (2 ^ q))) (d * 2 ^ q)) n i,
    replace_digit 64 m q d i h (omega (arith, two_pow_fits q (omega arith))) j,
  )

pub leave_s-bit :
    (m i : ℕ)
    → m < 2 ^ 64
    → bit (leave_s m) i
      ≡ (if i == 8 then 0 else if i == 5 then 1 else if i == bit m 8 then bit m 5 else bit m i)
unfolding leave_s restored
leave_s-bit m i h =
    rw (digit_of_shr m 8, digit_of_shr m 5)
      (clear_digit 64 (restored m q d h small digit 5) 8 i
          (restored-lt m q d h small digit 5 (omega arith)) (omega arith)
        ∙ ap (λ (t : ℕ). if i == 8 then 0 else t) (restored-bit m q d h small digit 5 i))
  where
    q : ℕ
    q = bit m 8

    d : ℕ
    d = bit m 5

    small : bit m 8 ≤ 3
    small = omega (arith, bit_lt_two m 8)

    digit : bit m 5 < 2
    digit = bit_lt_two m 5

-- The previous privilege of machine mode.
abbrev pub mpp_of : ℕ → ℕ
mpp_of m = m / 2 ^ 11 % 4

pub leave_m-bit :
    (m i : ℕ)
    → m < 2 ^ 64
    → bit (leave_m m) i ≡ (
        if i == 11 || i == 12
        then 0
        else if i == 7
        then 1
        else if i == mpp_of m
        then bit m 7
        else bit m i)
unfolding leave_m restored
leave_m-bit m i h =
    rw (bit_and-mask (m / 2 ^ 11) 2, digit_of_shr m 7)
      (clear_two_digits 64 (restored m q d h small digit 7) 11 i
          (restored-lt m q d h small digit 7 (omega arith)) (omega arith)
        ∙ ap (λ (t : ℕ). if i == 11 || i == 12 then 0 else t)
            (restored-bit m q d h small digit 7 i))
  where
    q : ℕ
    q = mpp_of m

    d : ℕ
    d = bit m 7

    small : mpp_of m ≤ 3
    small = omega arith

    digit : bit m 7 < 2
    digit = bit_lt_two m 7
