-- ===== src/Cutils/Ctz.antt =====
-- What `ctz32` returns.
use d_risc_v_emulator_tinyem.Base.{
  ℕ, zero, suc, ◌+◌, ◌^◌, ◌≤◌, ◌<◌, ◌≡◌, ◌≢◌, refl, ◌⊎◌, inl, inr, arith, ◌==◌, Bool-cases, bit,
  bit_lt_two, bit_ext, bit-zero, bit_and, ◌/◌, digit_of_shr, lt_pow→bit,
}
use d_risc_v_emulator_tinyem.Cutils.{ctz_from, ctz32}

-- `r` is the lowest set digit of `a` from `i` on.
pub record IsLowest (a i r : ℕ) : Type 0 where
  pub from : i ≤ r
  pub set : bit a r ≡ 1
  pub below : (j : ℕ) → i ≤ j → j < r → bit a j ≡ 0

IsLowest-skip : (a i r : ℕ) → bit a i ≡ 0 → IsLowest a (i + 1) r → IsLowest a i r
IsLowest-skip a i r z l = record {
  from = omega (arith, l.from);
  set = l.set;
  below = λ j h k. ground (arith, l.below j);
}

ctz_from-cases :
    (left i a : ℕ)
    → i + left ≡ 32
    → (IsLowest a i (ctz_from left i a) × (ctz_from left i a < 32))
      ⊎ ((ctz_from left i a ≡ 32) × ((j : ℕ) → i ≤ j → j < 32 → bit a j ≡ 0))
unfolding ctz_from
ctz_from-cases zero i a e = inr (refl, λ j h k. absurd (omega arith))
ctz_from-cases (suc left) i a e = elim (Bool-cases (bit_and (a / 2 ^ i) 1 == 0)) [
  | inl clear ↦
      let z : bit a i ≡ 0 = ground (arith, digit_of_shr a i) in
      rw clear (elim (ctz_from-cases left (i + 1) a (omega arith)) [
        | inl (found, small) ↦ inl (IsLowest-skip a i _ z found, small)
        | inr (gone, low) ↦ inr (gone, λ j h k. ground (arith, low j))
      ])
  | inr set ↦ rw set (
      inl (
        record {
          from = omega arith;
          set = ground (arith, digit_of_shr a i, bit_lt_two a i);
          below = λ j h k. absurd (omega arith);
        },
        omega arith,
      ))
]

-- Of a 32-bit word, `ctz32` returns the position of the lowest set bit, and 32 exactly of 0.
pub ctz32_lem :
    (a : ℕ)
    → a < 2 ^ 32
    → ((a ≡ 0) × (ctz32 a ≡ 32)) ⊎ ((a ≢ 0) × (ctz32 a < 32) × IsLowest a 0 (ctz32 a))
unfolding ctz32
ctz32_lem a h = elim (Bool-cases (a == 0)) [
  | inl z ↦ rw z (inl (ground arith, refl))
  | inr nz ↦
      let nonzero : a ≢ 0 = ground arith in
      rw nz (elim (ctz_from-cases 32 0 a refl) [
        | inl (found, small) ↦ inr (nonzero, small, found)
        | inr (gone, low) ↦
            absurd
              (nonzero (bit_ext a 0 (λ i. ground (arith, low i, lt_pow→bit 32 a i h, bit-zero i))))
      ])
]
