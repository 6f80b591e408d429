-- ===== src/Base/Memory.antt =====
-- Byte-addressed host memory: typed loads and stores through a pointer, little endian.
use Prim.Native.Nat.{ℕ, zero, suc, ◌+◌, ◌*◌, ◌/◌, ◌%◌, ◌^◌, ◌≤◌, ◌<◌}
use mathlib.Core.Path.{◌≡◌, refl, sym, ap, ap₂, ◌∙◌}
use mathlib.Core.Logic.{◌⊎◌}
use native.Mathlib.Omega.{arith}
use native.Mathlib.Nat.{
  pow-suc, one-le-pow, div-add-mod, mod-lt, mod-eq_of_lt, mul-add-mod_self_left,
}
use d_risc_v_emulator_tinyem.Base.Tests.{◌==◌, if◌then◌else◌}

abbrev pub Mem : Type 0
Mem = ℕ → ℕ

abbrev pub store8 : Mem → ℕ → ℕ → Mem
store8 m p v q = if q == p then v % 2 ^ 8 else m q

-- The `n` bytes from `p` as one number, and their overwriting by those of `v`.
unfoldable pub load_le : ℕ → Mem → ℕ → ℕ
load_le zero m p = 0
load_le (suc n) m p = m p + 256 * load_le n m (p + 1)

unfoldable pub store_le : ℕ → Mem → ℕ → ℕ → Mem
store_le zero m p v = m
store_le (suc n) m p v = store_le n (store8 m p v) (p + 1) (v / 2 ^ 8)

pub store_le_outside :
    (n : ℕ) (m : Mem) (p v q : ℕ) → (q < p) ⊎ (p + n ≤ q) → store_le n m p v q ≡ m q
unfolding store_le
store_le_outside zero m p v q h = refl
store_le_outside (suc n) m p v q h =
    store_le_outside n (store8 m p v) (p + 1) (v / 2 ^ 8) q (omega arith) ∙ ground arith

split_mod : (v b : ℕ) → 0 < b → v % 256 + 256 * (v / 256 % b) ≡ v % (b * 256)
split_mod v b h =
    sym (
      ap (λ (t : ℕ). t % (b * 256)) whole
      ∙ mul-add-mod_self_left (b * 256) _ _
      ∙ mod-eq_of_lt small)
  where
    whole : v ≡ b * 256 * (v / 256 / b) + (v % 256 + 256 * (v / 256 % b))
    whole = omega (arith, div-add-mod (v / 256) b)

    small : v % 256 + 256 * (v / 256 % b) < b * 256
    small = omega (arith, mod-lt (v / 256) h)

-- A load reads what a store of as many bytes wrote.
pub load_le-store_le : (n : ℕ) (m : Mem) (p v : ℕ) → load_le n (store_le n m p v) p ≡ v % 256 ^ n
unfolding load_le store_le
load_le-store_le zero m p v = omega arith
load_le-store_le (suc n) m p v =
    ap₂ (λ (a b : ℕ). a + 256 * b) first (load_le-store_le n (store8 m p v) (p + 1) (v / 2 ^ 8))
    ∙ split_mod v (256 ^ n) (one-le-pow n 256 (omega arith))
    ∙ ap (λ (t : ℕ). v % t) (sym (pow-suc 256 n))
  where
    first : store_le n (store8 m p v) (p + 1) (v / 2 ^ 8) p ≡ v % 256
    first = store_le_outside n (store8 m p v) (p + 1) (v / 2 ^ 8) p (omega arith) ∙ ground arith

-- A load is not changed by a store elsewhere.
pub load_le_congr :
    (n : ℕ) (m k : Mem) (p : ℕ)
    → ((q : ℕ) → p ≤ q → q < p + n → m q ≡ k q)
    → load_le n m p ≡ load_le n k p
unfolding load_le
load_le_congr zero m k p h = refl
load_le_congr (suc n) m k p h =
    ap₂ (λ (a b : ℕ). a + 256 * b) (h p (omega arith) (omega arith))
      (load_le_congr n m k (p + 1) (λ q a b. h q (omega arith) (omega arith)))

-- Bytes make a number of as many bytes.
pub load_le-lt : (n : ℕ) (m : Mem) (p : ℕ) → ((q : ℕ) → m q < 256) → load_le n m p < 256 ^ n
unfolding load_le
load_le-lt zero m p h = omega arith
load_le-lt (suc n) m p h = omega (arith, h p, load_le-lt n m (p + 1) h, pow-suc 256 n)
