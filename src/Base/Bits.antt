-- ===== src/Base/Bits.antt =====
-- Binary digits of a number, and what `&`, `|`, `^` and `~` do to each of them, at every width.
pub mod Step
use Prim.Native.Nat.{ℕ, zero, suc, ◌+◌, ◌-◌, ◌*◌, ◌/◌, ◌%◌, ◌^◌, ◌≤◌, ◌<◌, min, max}
use Prim.Native.Nat.{bit_and, bit_or, bit_xor, bit_and-bitwise, bit_or-bitwise}
use mathlib.Core.Path.{◌≡◌, refl, sym, ap, ap₂, ◌∙◌}
use native.Mathlib.Omega.{arith}
use native.Mathlib.Nat.{
  pow-le-pow_right, pow-suc, pow-succ', one-le-pow, div-div-eq-div-mul, div-one, zero-add, suc-add,
}
use native.Mathlib.Nat.{
  mul-one, sub-zero, suc-sub-suc, div-add-mod, mod-lt, mod-eq_of_lt, mul-add-mod_self_left,
}
use Step.{bit_and_step, bit_or_step, bit_xor_step}
use d_risc_v_emulator_tinyem.Base.Tests.{ltb, ◌==◌, if◌then◌else◌}

-- Digit `i` of `a`, lowest first.
unfoldable pub bit : ℕ → ℕ → ℕ
bit a zero = a % 2
bit a (suc i) = bit (a / 2) i

pub bit_lt_two : (a i : ℕ) → bit a i < 2
unfolding bit
bit_lt_two a zero = omega arith
bit_lt_two a (suc i) = bit_lt_two (a / 2) i

pub bit-bit_and : (a b i : ℕ) → bit (bit_and a b) i ≡ min (bit a i) (bit b i)
unfolding bit
bit-bit_and a b zero = omega (arith, bit_and_step a b)
bit-bit_and a b (suc i) =
    ap (λ t. bit t i) (omega (arith, bit_and_step a b)) ∙ bit-bit_and (a / 2) (b / 2) i

pub bit-bit_or : (a b i : ℕ) → bit (bit_or a b) i ≡ max (bit a i) (bit b i)
unfolding bit
bit-bit_or a b zero = omega (arith, bit_or_step a b)
bit-bit_or a b (suc i) =
    ap (λ t. bit t i) (omega (arith, bit_or_step a b)) ∙ bit-bit_or (a / 2) (b / 2) i

pub bit-bit_xor : (a b i : ℕ) → bit (bit_xor a b) i ≡ (bit a i + bit b i) % 2
unfolding bit
bit-bit_xor a b zero = omega (arith, bit_xor_step a b)
bit-bit_xor a b (suc i) =
    ap (λ t. bit t i) (omega (arith, bit_xor_step a b)) ∙ bit-bit_xor (a / 2) (b / 2) i

-- `~a` on `w` bits.
unfoldable pub bit_not : ℕ → ℕ → ℕ
bit_not w a = 2 ^ w - 1 - a

pub bit-zero : (i : ℕ) → bit 0 i ≡ 0
unfolding bit
bit-zero zero = refl
bit-zero (suc i) = bit-zero i

pub bit-bit_not :
    (w a i : ℕ) → a < 2 ^ w → bit (bit_not w a) i ≡ (if ltb i w then 1 - bit a i else 0)
unfolding bit bit_not
bit-bit_not zero a i h = ap (λ t. bit t i) (omega arith) ∙ bit-zero i ∙ ground arith
bit-bit_not (suc w) a zero h = ground (arith, pow-suc 2 w, one-le-pow w 2)
bit-bit_not (suc w) a (suc i) h =
    ap (λ t. bit t i) (omega (arith, pow-suc 2 w))
    ∙ bit-bit_not w (a / 2) i (omega (arith, pow-suc 2 w))
    ∙ ground arith

pub bit_ones : (w i : ℕ) → bit (2 ^ w - 1) i ≡ (if ltb i w then 1 else 0)
unfolding bit_not
bit_ones w i =
    ap (λ t. bit t i) (sym (sub-zero (2 ^ w - 1)))
    ∙ bit-bit_not w 0 i (one-le-pow w 2 (omega arith))
    ∙ ap (λ (t : ℕ). if ltb i w then 1 - t else 0) (bit-zero i)

pub bit_not-lt : (w a : ℕ) → bit_not w a < 2 ^ w
unfolding bit_not
bit_not-lt w a = omega (arith, one-le-pow w 2)

half_shr : (a k : ℕ) → a / 2 ^ suc k ≡ a / 2 / 2 ^ k
half_shr a k = ap (λ (t : ℕ). a / t) (pow-succ' 2 k) ∙ sym (div-div-eq-div-mul a 2 (2 ^ k))

-- `a >> k`
pub bit_shr : (a k i : ℕ) → bit (a / 2 ^ k) i ≡ bit a (k + i)
unfolding bit
bit_shr a zero i = ap₂ bit (div-one a) (sym (zero-add i))
bit_shr a (suc k) i =
    ap (λ t. bit t i) (half_shr a k) ∙ bit_shr (a / 2) k i ∙ ap (bit a) (sym (suc-add k i))

-- `a << k`
pub bit_shl : (a k i : ℕ) → bit (a * 2 ^ k) i ≡ (if ltb i k then 0 else bit a (i - k))
unfolding bit
bit_shl a zero i = ap₂ bit (mul-one a) (sym (sub-zero i)) ∙ ground arith
bit_shl a (suc k) zero = ground (arith, ap (λ (t : ℕ). a * t) (pow-suc 2 k))
bit_shl a (suc k) (suc i) =
    ap (λ t. bit t i) (omega (arith, ap (λ (t : ℕ). a * t) (pow-suc 2 k)))
    ∙ bit_shl a k i
    ∙ ap (λ t. if ltb i k then 0 else bit a t) (sym (suc-sub-suc i k))
    ∙ ground arith

half_mod : (a m : ℕ) → 0 < m → (a % (m * 2) % 2 ≡ a % 2) × (a % (m * 2) / 2 ≡ a / 2 % m)
half_mod a m h = (omega (arith, div-add-mod a (m * 2)), sym (ap (λ (t : ℕ). t % m) halved ∙ low))
  where
    halved : a / 2 ≡ m * (a / (m * 2)) + a % (m * 2) / 2
    halved = omega (arith, div-add-mod a (m * 2))

    low : (m * (a / (m * 2)) + a % (m * 2) / 2) % m ≡ a % (m * 2) / 2
    low =
        mul-add-mod_self_left m _ _
        ∙ mod-eq_of_lt (omega (arith, mod-lt a {m = m * 2} (omega arith)))

pub bit_mod : (a w i : ℕ) → bit (a % 2 ^ w) i ≡ (if ltb i w then bit a i else 0)
unfolding bit
bit_mod a zero i = ap (λ t. bit t i) (omega arith) ∙ bit-zero i ∙ ground arith
bit_mod a (suc w) zero = ground (arith, pow-suc 2 w, one-le-pow w 2, half_mod a (2 ^ w))
bit_mod a (suc w) (suc i) =
    ap (λ t. bit t i)
      (ap (λ (t : ℕ). a % t / 2) (pow-suc 2 w)
        ∙ (half_mod a (2 ^ w) (one-le-pow w 2 (omega arith))).1)
    ∙ bit_mod (a / 2) w i
    ∙ ground arith

pub bit-two_pow : (k i : ℕ) → bit (2 ^ k) i ≡ (if i == k then 1 else 0)
unfolding bit
bit-two_pow zero zero = refl
bit-two_pow zero (suc i) = bit-zero i ∙ ground arith
bit-two_pow (suc k) zero = ground (arith, pow-suc 2 k)
bit-two_pow (suc k) (suc i) =
    ap (λ t. bit t i) (omega (arith, pow-suc 2 k)) ∙ bit-two_pow k i ∙ ground arith

-- Numbers with the same digits are equal.
bit_ext_below : (n a b : ℕ) → a ≤ n → b ≤ n → ((i : ℕ) → bit a i ≡ bit b i) → a ≡ b
unfolding bit
bit_ext_below zero a b h k e = omega arith
bit_ext_below (suc n) a b h k e =
    omega (arith, e 0, bit_ext_below n (a / 2) (b / 2) (omega arith) (omega arith) (λ i. e (suc i)))

pub bit_ext : (a b : ℕ) → ((i : ℕ) → bit a i ≡ bit b i) → a ≡ b
bit_ext a b e = bit_ext_below (a + b) a b (omega arith) (omega arith) e

bit_and-le_below : (n a b : ℕ) → a ≤ n → (bit_and a b ≤ a) × (bit_and a b ≤ b)
bit_and-le_below n zero b h = omega (arith, bit_and-bitwise 0 b)
bit_and-le_below zero (suc a) b h = absurd (omega arith)
bit_and-le_below (suc n) (suc a) b h =
    omega (arith, bit_and_step (suc a) b, bit_and-le_below n (suc a / 2) (b / 2) (omega arith))

pub bit_and-le : (a b : ℕ) → (bit_and a b ≤ a) × (bit_and a b ≤ b)
bit_and-le a b = bit_and-le_below a a b (omega arith)

pub bit_or-lt : (w a b : ℕ) → a < 2 ^ w → b < 2 ^ w → bit_or a b < 2 ^ w
bit_or-lt zero zero b h k = omega (arith, bit_or-bitwise 0 b)
bit_or-lt zero (suc a) b h k = absurd (omega arith)
bit_or-lt (suc w) a b h k = omega (
  arith,
  pow-suc 2 w,
  bit_or_step a b,
  bit_or-lt w (a / 2) (b / 2) (omega (arith, pow-suc 2 w)) (omega (arith, pow-suc 2 w)),
)

-- A low part below `2 ^ k` and a high part joined by `|` add up.
pub bit_or_halves : (k lo hi : ℕ) → lo < 2 ^ k → bit_or lo (hi * 2 ^ k) ≡ lo + hi * 2 ^ k
bit_or_halves zero lo hi h =
    let e : lo ≡ 0 = omega arith in rw e (omega (arith, bit_or-bitwise 0 (hi * 2 ^ 0)))
bit_or_halves (suc k) lo hi h = omega (
  arith,
  pow-suc 2 k,
  ap (λ (t : ℕ). hi * t) (pow-suc 2 k),
  bit_or_step lo (hi * 2 ^ suc k),
  ap (λ (t : ℕ). bit_or (lo / 2) t) halved,
  bit_or_halves k (lo / 2) hi (omega (arith, pow-suc 2 k)),
)
  where
    halved : hi * 2 ^ suc k / 2 ≡ hi * 2 ^ k
    halved = omega (arith, ap (λ (t : ℕ). hi * t) (pow-suc 2 k))

pub two_pow_lt : {k w : ℕ} → k < w → 2 ^ k < 2 ^ w
two_pow_lt {k} {w} h = omega (
  arith,
  pow-suc 2 k,
  one-le-pow k 2,
  pow-le-pow_right {n = 2} (omega arith) {i = suc k} {j = w} h,
)
