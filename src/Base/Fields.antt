-- ===== src/Base/Fields.antt =====
-- Writing a field of a word, `(m & ~mask) | v`, digit by digit.
use Prim.Native.Nat.{ℕ, zero, suc, ◌+◌, ◌-◌, ◌*◌, ◌/◌, ◌%◌, ◌^◌, ◌≤◌, ◌<◌, max, bit_and, bit_or}
use mathlib.Core.Path.{◌≡◌, refl, sym, ap, ◌∙◌}
use mathlib.Core.Bool.{◌||◌}
use native.Mathlib.Omega.{arith}
use native.Mathlib.Nat.{mod-eq_of_lt, mod-lt, one-le-pow}
use d_risc_v_emulator_tinyem.Base.Tests.{◌==◌, if◌then◌else◌}
use d_risc_v_emulator_tinyem.Base.Bits.{
  bit_ext, bit, bit_lt_two, bit_not, bit-bit_and, bit-bit_or, bit-bit_not, bit_mod, bit_shl,
  bit-two_pow, bit_and-le, bit_or-lt, bit-zero,
}
use d_risc_v_emulator_tinyem.Base.Word.{bit_digit}

pub lt_pow→bit : (w a i : ℕ) → a < 2 ^ w → w ≤ i → bit a i ≡ 0
lt_pow→bit w a i h k = ap (λ t. bit t i) (sym (mod-eq_of_lt h)) ∙ bit_mod a w i ∙ ground arith

pub bit_masked :
    (w m mask i : ℕ)
    → m < 2 ^ w
    → mask < 2 ^ w
    → bit (bit_and m (bit_not w mask)) i ≡ bit m i - bit mask i
bit_masked w m mask i h k = ground (
  arith,
  bit-bit_and m (bit_not w mask) i,
  bit-bit_not w mask i k,
  lt_pow→bit w m i h,
  bit_lt_two m i,
  bit_lt_two mask i,
)

pub bit_replaced :
    (w m mask v i : ℕ)
    → m < 2 ^ w
    → mask < 2 ^ w
    → bit (bit_or (bit_and m (bit_not w mask)) v) i ≡ max (bit m i - bit mask i) (bit v i)
bit_replaced w m mask v i h k =
    bit-bit_or _ v i ∙ ap (λ (t : ℕ). max t (bit v i)) (bit_masked w m mask i h k)

pub replaced-lt :
    (w m mask v : ℕ) → m < 2 ^ w → v < 2 ^ w → bit_or (bit_and m (bit_not w mask)) v < 2 ^ w
replaced-lt w m mask v h k = bit_or-lt w _ v (omega (arith, bit_and-le m (bit_not w mask))) k

-- A digit `d` written at position `k`.
pub bit_shifted_digit : (d k i : ℕ) → d < 2 → bit (d * 2 ^ k) i ≡ (if i == k then d else 0)
bit_shifted_digit d k i h = ground (arith, bit_shl d k i, bit_digit d (i - k) h)

pub replace_digit :
    (w m k d i : ℕ)
    → m < 2 ^ w
    → 2 ^ k < 2 ^ w
    → d < 2
    → bit (bit_or (bit_and m (bit_not w (2 ^ k))) (d * 2 ^ k)) i ≡ (if i == k then d else bit m i)
replace_digit w m k d i h j g =
    bit_replaced w m (2 ^ k) (d * 2 ^ k) i h j
    ∙ ground (arith, bit-two_pow k i, bit_shifted_digit d k i g, bit_lt_two m i)

pub clear_digit :
    (w m k i : ℕ)
    → m < 2 ^ w
    → 2 ^ k < 2 ^ w
    → bit (bit_and m (bit_not w (2 ^ k))) i ≡ (if i == k then 0 else bit m i)
clear_digit w m k i h j =
    bit_masked w m (2 ^ k) i h j ∙ ground (arith, bit-two_pow k i, bit_lt_two m i)

pub set_digit : (m k i : ℕ) → bit (bit_or m (2 ^ k)) i ≡ (if i == k then 1 else bit m i)
set_digit m k i = bit-bit_or m (2 ^ k) i ∙ ground (arith, bit-two_pow k i, bit_lt_two m i)

-- The digits of a number below 4.
pub bit_two_digits :
    (p i : ℕ) → p < 4 → bit p i ≡ (if i == 0 then p % 2 else if i == 1 then p / 2 else 0)
unfolding bit
bit_two_digits p zero h = refl
bit_two_digits p (suc zero) h = omega arith
bit_two_digits p (suc (suc i)) h = ap (λ t. bit t i) (omega arith) ∙ bit-zero i ∙ ground arith

-- A two-digit field `p` written at position `k`.
pub replace_two_digits :
    (w m k p i : ℕ)
    → m < 2 ^ w
    → 3 * 2 ^ k < 2 ^ w
    → p < 4
    → bit (bit_or (bit_and m (bit_not w (3 * 2 ^ k))) (p * 2 ^ k)) i
      ≡ (if i == k then p % 2 else if i == k + 1 then p / 2 else bit m i)
replace_two_digits w m k p i h j g =
    bit_replaced w m (3 * 2 ^ k) (p * 2 ^ k) i h j
    ∙ ground (
      arith,
      bit_shl 3 k i,
      bit_shl p k i,
      bit_two_digits 3 (i - k),
      bit_two_digits p (i - k) g,
      bit_lt_two m i,
    )

pub clear_two_digits :
    (w m k i : ℕ)
    → m < 2 ^ w
    → 3 * 2 ^ k < 2 ^ w
    → bit (bit_and m (bit_not w (3 * 2 ^ k))) i ≡ (if i == k || i == k + 1 then 0 else bit m i)
clear_two_digits w m k i h j =
    bit_masked w m (3 * 2 ^ k) i h j
    ∙ ground (arith, bit_shl 3 k i, bit_two_digits 3 (i - k), bit_lt_two m i)

-- A number with no digit from `w` on is below `2 ^ w`.
pub lt_of_bits : (w a : ℕ) → ((i : ℕ) → w ≤ i → bit a i ≡ 0) → a < 2 ^ w
lt_of_bits w a h =
    let same : a ≡ a % 2 ^ w = bit_ext _ _ (λ i. ground (arith, bit_mod a w i, h i)) in
    omega (arith, same, mod-lt a {m = 2 ^ w} (one-le-pow w 2 (omega arith)))
