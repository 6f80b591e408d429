-- ===== src/Riscv/Alu/Words.antt =====
-- The results of the integer instructions are 64-bit words.
use d_risc_v_emulator_tinyem.Base.{
  ℕ, ◌%◌, ◌^◌, ◌≤◌, ◌<◌, ◌≡◌, ◌⊎◌, inl, inr, arith, bit_and, bit_or, bit_xor, Bool, true, false,
  if◌then◌else◌, Option, none, some, lt_of_bits, lt_pow→bit, bit-bit_xor, bit_or-lt, bit_and-le,
  two_pow_lt,
}
use native.Mathlib.Nat.{mod-lt, one-le-pow, div-le_self}
use d_risc_v_emulator_tinyem.Riscv.Alu.{sx, sar, of_bool, op_imm, op_imm_32, op_mul, op, op_32}

-- A result is a 64-bit word where there is one.
pub data Fits : Option ℕ → Type 0 where
  no_result : Fits none
  fits : (v : ℕ) → v < 2 ^ 64 → Fits (some v)

-- The widths of the modes.
abbrev pub IsWidth : ℕ → Type 0
IsWidth xlen = (xlen ≡ 32) ⊎ (xlen ≡ 64)

pow_le : (w : ℕ) → w ≤ 64 → 2 ^ w ≤ 2 ^ 64
pow_le w h = elim (lt_or_eq w h) [
  | inl lt ↦ omega (arith, two_pow_lt {k = w} {w = 64} lt)
  | inr e ↦ rw e (omega arith)
]
  where
    lt_or_eq : (w : ℕ) → w ≤ 64 → (w < 64) ⊎ (w ≡ 64)
    lt_or_eq w h = omega arith

pub sx-lt : (w v : ℕ) → w ≤ 64 → sx w v < 2 ^ 64
unfolding sx
sx-lt w v h = ground (arith, pow_le w h, mod-lt v {m = 2 ^ w}, one-le-pow w 2)

pub sar-lt : (w v n : ℕ) → w ≤ 64 → sar w v n < 2 ^ 64
unfolding sar
sar-lt w v n h =
    ground
      (arith, pow_le w h, mod-lt v {m = 2 ^ w}, one-le-pow w 2, div-le_self (v % 2 ^ w) (2 ^ n))

pub bit_xor-lt : (a b : ℕ) → a < 2 ^ 64 → b < 2 ^ 64 → bit_xor a b < 2 ^ 64
bit_xor-lt a b h k =
    lt_of_bits 64 _
      (λ i le. ground (arith, bit-bit_xor a b i, lt_pow→bit 64 a i h le, lt_pow→bit 64 b i k le))

pub bit_and-lt : (a b : ℕ) → a < 2 ^ 64 → bit_and a b < 2 ^ 64
bit_and-lt a b h = omega (arith, bit_and-le a b)

of_bool-lt : (b : Bool) → of_bool b < 2 ^ 64
of_bool-lt true = omega arith
of_bool-lt false = omega arith

if-Fits : {x y : Option ℕ} (b : Bool) → Fits x → Fits y → Fits (if b then x else y)
if-Fits true p q = p
if-Fits false p q = q

pub Fits-lt : {v : ℕ} → Fits (some v) → v < 2 ^ 64
Fits-lt (fits v lt) = lt

pub width_le : (xlen : ℕ) → IsWidth xlen → xlen ≤ 64
width_le xlen w = omega arith

-- The value of a sign extension, and of an arithmetic shift.
sx-Fits : (w v : ℕ) → w ≤ 64 → Fits (some (sx w v))
sx-Fits w v h = fits (sx w v) (sx-lt w v h)

sar-Fits : (w v n : ℕ) → w ≤ 64 → Fits (some (sar w v n))
sar-Fits w v n h = fits (sar w v n) (sar-lt w v n h)

of_bool-Fits : (b : Bool) → Fits (some (of_bool b))
of_bool-Fits b = fits (of_bool b) (of_bool-lt b)

ruleset word_rules = (if-Fits, no_result, sx-Fits, sar-Fits, of_bool-Fits)

module _ (a b : ℕ) (h : a < 2 ^ 64) (k : b < 2 ^ 64) where
  xor-Fits : Fits (some (bit_xor a b))
  xor-Fits = fits (bit_xor a b) (bit_xor-lt a b h k)

  or-Fits : Fits (some (bit_or a b))
  or-Fits = fits (bit_or a b) (bit_or-lt 64 a b h k)

  and-Fits : Fits (some (bit_and a b))
  and-Fits = fits (bit_and a b) (bit_and-lt a b h)

pub op_imm-Fits :
    (xlen funct3 x imm : ℕ)
    → IsWidth xlen
    → x < 2 ^ 64
    → imm < 2 ^ 64
    → Fits (op_imm xlen funct3 x imm)
unfolding op_imm
op_imm-Fits xlen funct3 x imm w h k =
    let le = width_le xlen w in
    search (if-Fits, no_result, sx-Fits, sar-Fits, of_bool-Fits, xor-Fits, or-Fits, and-Fits) depth
      18

pub op_imm_32-Fits : (funct3 val imm : ℕ) → Fits (op_imm_32 funct3 val imm)
unfolding op_imm_32
op_imm_32-Fits funct3 val imm = let le : 32 ≤ 64 = omega arith in search word_rules depth 18

-- An instruction on two registers that hold 64-bit words is illegal or gives a 64-bit word.
pub op-Fits :
    (xlen funct7 funct4 a b : ℕ)
    → IsWidth xlen
    → a < 2 ^ 64
    → b < 2 ^ 64
    → Fits (op xlen funct7 funct4 a b)
unfolding op op_mul
op-Fits xlen funct7 funct4 a b w h k =
    let le = width_le xlen w in
    search (if-Fits, no_result, sx-Fits, sar-Fits, of_bool-Fits, xor-Fits, or-Fits, and-Fits) depth
      18

pub op_32-Fits : (funct7 funct4 a b : ℕ) → Fits (op_32 funct7 funct4 a b)
unfolding op_32
op_32-Fits funct7 funct4 a b = let le : 32 ≤ 64 = omega arith in search word_rules depth 18
