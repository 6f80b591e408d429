-- ===== src/Base/Pow.antt =====
-- The powers of two, as the test `v & (v - 1)` finds them.
use Prim.Native.Nat.{ℕ, zero, suc, ◌+◌, ◌-◌, ◌*◌, ◌/◌, ◌%◌, ◌^◌, ◌<◌, bit_and, min}
use mathlib.Core.Path.{◌≡◌, ap₂, ◌∙◌}
use mathlib.Core.Logic.{◌⊎◌, inl, inr}
use native.Mathlib.Omega.{arith}
use native.Mathlib.Nat.{pow-suc}
use d_risc_v_emulator_tinyem.Base.Bits.{bit_ext, bit-bit_and}
use d_risc_v_emulator_tinyem.Base.Bits.Step.{bit_and_step}

bit_and_self : (a : ℕ) → bit_and a a ≡ a
bit_and_self a = bit_ext (bit_and a a) a λ i. omega (arith, bit-bit_and a a i)

abbrev pub IsPowerOfTwo : ℕ → Type 0
IsPowerOfTwo n = (k : ℕ) × (n ≡ 2 ^ k)

-- Half of an even number passes the test if the number does.
half_test : (n u : ℕ) → n ≡ u * 2 → 0 < n → bit_and n (n - 1) ≡ 0 → bit_and u (u - 1) ≡ 0
half_test n u e p h =
    let upper : n / 2 ≡ u = omega arith in
    let lower : (n - 1) / 2 ≡ u - 1 = omega arith in
    let step : bit_and n (n - 1) ≡ bit_and u (u - 1) * 2 + min (n % 2) ((n - 1) % 2) =
      bit_and_step n (n - 1)
      ∙ ap₂ (λ (a b : ℕ). bit_and a b * 2 + min (n % 2) ((n - 1) % 2)) upper lower in
    omega arith

-- The only odd number that passes the test is one.
odd_test : (n u : ℕ) → n ≡ u * 2 + 1 → bit_and n (n - 1) ≡ 0 → n ≡ 1
odd_test n u e h =
    let upper : n / 2 ≡ u = omega arith in
    let lower : (n - 1) / 2 ≡ u = omega arith in
    let step : bit_and n (n - 1) ≡ bit_and u u * 2 + min (n % 2) ((n - 1) % 2) =
      bit_and_step n (n - 1)
      ∙ ap₂ (λ (a b : ℕ). bit_and a b * 2 + min (n % 2) ((n - 1) % 2)) upper lower in
    omega (arith, bit_and_self u)

even_or_odd : (n : ℕ) → (n ≡ n / 2 * 2) ⊎ (n ≡ n / 2 * 2 + 1)
even_or_odd n = ground arith

bit_and-IsPowerOfTwo_under :
    (fuel n : ℕ) → n < fuel → 0 < n → bit_and n (n - 1) ≡ 0 → IsPowerOfTwo n
bit_and-IsPowerOfTwo_under zero n b p h = elim b [ ]
bit_and-IsPowerOfTwo_under (suc fuel) n b p h = elim (even_or_odd n) [
  | inl even ↦
      let (k, e) =
        bit_and-IsPowerOfTwo_under fuel (n / 2) (omega arith) (omega arith)
          (half_test n (n / 2) even p h) in
      (suc k, omega (arith, pow-suc 2 k))
  | inr odd ↦ (0, odd_test n (n / 2) odd h)
]

pub bit_and-IsPowerOfTwo : (n : ℕ) → 0 < n → bit_and n (n - 1) ≡ 0 → IsPowerOfTwo n
bit_and-IsPowerOfTwo n p h = bit_and-IsPowerOfTwo_under (suc n) n (omega arith) p h
