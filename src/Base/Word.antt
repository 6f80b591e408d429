-- ===== src/Base/Word.antt =====
-- Casts to the fixed widths and the bit tests of C, with the digits that they read.
use Prim.Native.Nat.{ℕ, zero, suc, ◌-◌, ◌*◌, ◌/◌, ◌%◌, ◌^◌, ◌<◌}
use Prim.Native.Nat.{bit_and}
use mathlib.Core.Bool.{Bool, not}
use mathlib.Core.Path.{◌≡◌, sym, ap, ◌∙◌}
use native.Mathlib.Omega.{arith}
use native.Mathlib.Nat.{one-le-pow, add-zero, mul-one}
use d_risc_v_emulator_tinyem.Base.Tests.{◌==◌, if◌then◌else◌}
use d_risc_v_emulator_tinyem.Base.Bits.{
  bit, bit_lt_two, bit_ext, bit-bit_and, bit-two_pow, bit_shl, bit_shr, bit_mod, bit_ones, bit-zero,
}

abbrev pub u8 : ℕ → ℕ
u8 n = n % 2 ^ 8

abbrev pub u16 : ℕ → ℕ
u16 n = n % 2 ^ 16

abbrev pub u32 : ℕ → ℕ
u32 n = n % 2 ^ 32

abbrev pub u64 : ℕ → ℕ
u64 n = n % 2 ^ 64

-- `a & m` as a condition.
unfoldable pub tst : ℕ → ℕ → Bool
tst a m = not (bit_and a m == 0)

-- The digits of a number below 2.
pub bit_digit : (d i : ℕ) → d < 2 → bit d i ≡ (if i == 0 then d else 0)
bit_digit zero i h = bit-zero i ∙ ground arith
bit_digit (suc zero) i h = bit-two_pow 0 i
bit_digit (suc (suc d)) i h = absurd (omega arith)

-- `a & (1 << k)` keeps digit `k` alone.
pub bit_and-two_pow : (a k : ℕ) → bit_and a (2 ^ k) ≡ bit a k * 2 ^ k
bit_and-two_pow a k = bit_ext _ _ λ i. ground (
  arith,
  bit-bit_and a (2 ^ k) i,
  bit-two_pow k i,
  bit_shl (bit a k) k i,
  bit_digit (bit a k) (i - k) (bit_lt_two a k),
  bit_lt_two a k,
  bit_lt_two a i,
)

pub tst_lem : (a k : ℕ) → tst a (2 ^ k) ≡ (bit a k == 1)
unfolding tst
tst_lem a k = ground (arith, bit_and-two_pow a k, bit_lt_two a k, one-le-pow k 2)

-- `(a >> k) & 1`
pub digit_of_shr : (a k : ℕ) → bit_and (a / 2 ^ k) 1 ≡ bit a k
digit_of_shr a k =
    bit_and-two_pow (a / 2 ^ k) 0 ∙ mul-one _ ∙ bit_shr a k 0 ∙ ap (bit a) (add-zero k)

-- `a & (2 ^ w - 1)` is the remainder.
pub bit_and-mask : (a w : ℕ) → bit_and a (2 ^ w - 1) ≡ a % 2 ^ w
bit_and-mask a w =
    bit_ext _ _
      λ i. ground (arith, bit-bit_and a (2 ^ w - 1) i, bit_ones w i, bit_mod a w i, bit_lt_two a i)

pub bit_lem : (a k : ℕ) → bit a k ≡ a / 2 ^ k % 2
bit_lem a k = sym (digit_of_shr a k) ∙ bit_and-mask (a / 2 ^ k) 1
