-- ===== src/Riscv/Alu.antt =====
-- riscv_cpu_template.h and riscv_cpu.c: the arithmetic of the integer instructions.
-- A register is a 64-bit word, and `xlen` is the width of the mode, 32 or 64. A value of the signed
-- type of `w` bits is kept as the 64-bit word that it is converted to.
pub mod Mulh
pub mod Div
pub mod Words
use d_risc_v_emulator_tinyem.Base.{
  ℕ, ◌+◌, ◌-◌, ◌*◌, ◌/◌, ◌%◌, ◌^◌, bit_and, bit_or, bit_xor, bit_not, Bool, true, false, not, ◌&&◌,
  ◌||◌, ◌==◌, ltb, leb, if◌then◌else◌, u32, u64, tst, Option, none, some,
}

-- The conversion to a signed type of `w` bits, and from it to `target_ulong`.
unfoldable pub sx : ℕ → ℕ → ℕ
sx w v = let x = v % 2 ^ w in if ltb x (2 ^ (w - 1)) then x else x + (2 ^ 64 - 2 ^ w)

-- `(intN_t)v >> n`
unfoldable pub sar : ℕ → ℕ → ℕ → ℕ
sar w v n =
    let x = v % 2 ^ w in
    if ltb x (2 ^ (w - 1)) then x / 2 ^ n else 2 ^ 64 - 1 - (2 ^ w - 1 - x) / 2 ^ n

-- `a < b` on `target_long`.
unfoldable pub slt : ℕ → ℕ → Bool
slt a b = ltb ((a + 2 ^ 63) % 2 ^ 64) ((b + 2 ^ 63) % 2 ^ 64)

abbrev pub of_bool : Bool → ℕ
of_bool b = if b then 1 else 0

-- Whether a word of `w` bits is negative, and its absolute value.
abbrev pub is_neg : ℕ → ℕ → Bool
is_neg w x = leb (2 ^ (w - 1)) x

abbrev pub magnitude : ℕ → ℕ → ℕ
magnitude w x = if is_neg w x then 2 ^ w - x else x

-- `div32` and `div64`, on two words of `w` bits; C rounds the quotient to zero.
unfoldable pub div : ℕ → ℕ → ℕ → ℕ
div w a b =
    let q = magnitude w a / magnitude w b in
    if b == 0
    then 2 ^ w - 1
    else if a == 2 ^ (w - 1) && b == 2 ^ w - 1
    then a
    else if is_neg w a
    then (if is_neg w b then q else (2 ^ w - q) % 2 ^ w)
    else (if is_neg w b then (2 ^ w - q) % 2 ^ w else q)

unfoldable pub divu : ℕ → ℕ → ℕ → ℕ
divu w a b = if b == 0 then 2 ^ w - 1 else a / b

unfoldable pub rem : ℕ → ℕ → ℕ → ℕ
rem w a b =
    let r = magnitude w a % magnitude w b in
    if b == 0
    then a
    else if a == 2 ^ (w - 1) && b == 2 ^ w - 1
    then 0
    else if is_neg w a
    then (2 ^ w - r) % 2 ^ w
    else r

unfoldable pub remu : ℕ → ℕ → ℕ → ℕ
remu w a b = if b == 0 then a else a % b

-- `mulhu` for hosts without a type of twice the width: `h` is UHALF_LEN, and a word has `2 * h` bits.
unfoldable pub mulhu_halves : ℕ → ℕ → ℕ → ℕ
mulhu_halves h a b =
    let a0 = a % 2 ^ h in
    let a1 = a / 2 ^ h % 2 ^ h in
    let b0 = b % 2 ^ h in
    let b1 = b / 2 ^ h % 2 ^ h in
    let r00 = a0 * b0 in
    let r01 = a0 * b1 in
    let r10 = a1 * b0 in
    let r11 = a1 * b1 in
    let c = r00 / 2 ^ h + r01 % 2 ^ h + r10 % 2 ^ h in
    let c' = c / 2 ^ h + r01 / 2 ^ h + r10 / 2 ^ h + r11 % 2 ^ h in
    let r2 = c' % 2 ^ h in let r3 = (c' / 2 ^ h + r11 / 2 ^ h) % 2 ^ h in bit_or (r3 * 2 ^ h) r2

-- `mulh` and `mulhsu` on top of it.
unfoldable pub mulh_halves : ℕ → ℕ → ℕ → ℕ
mulh_halves h a b =
    let w = 2 * h in
    let r1 = mulhu_halves h a b in
    let r2 = if is_neg w a then (r1 + 2 ^ w - a) % 2 ^ w else r1 in
    if is_neg w b then (r2 + 2 ^ w - b) % 2 ^ w else r2

unfoldable pub mulhsu_halves : ℕ → ℕ → ℕ → ℕ
mulhsu_halves h a b =
    let w = 2 * h in
    let r1 = mulhu_halves h a b in if is_neg w a then (r1 + 2 ^ w - a) % 2 ^ w else r1

-- A word of `w` bits as a word of `2 * w` bits of the same signed value.
abbrev pub widen : ℕ → ℕ → ℕ
widen w x = if is_neg w x then x + (2 ^ (2 * w) - 2 ^ w) else x

-- The versions through a type of twice the width: `mulh32` and, with int128_t, `mulh64`.
unfoldable pub mulh : ℕ → ℕ → ℕ → ℕ
mulh w a b = widen w a * widen w b % 2 ^ (2 * w) / 2 ^ w

unfoldable pub mulhsu : ℕ → ℕ → ℕ → ℕ
mulhsu w a b = widen w a * b % 2 ^ (2 * w) / 2 ^ w

unfoldable pub mulhu : ℕ → ℕ → ℕ → ℕ
mulhu w a b = a * b % 2 ^ (2 * w) / 2 ^ w

-- The operations of opcode 0x13 on a register and the immediate, both 64-bit words. `none` is an
-- illegal instruction.
unfoldable pub op_imm : ℕ → ℕ → ℕ → ℕ → Option ℕ
op_imm xlen funct3 x imm =
    let shift = bit_and imm (xlen - 1) in
    if funct3 == 0
    then some (sx xlen (x + imm))
    else if funct3 == 1
    then (if not (bit_and imm (bit_not 64 (xlen - 1)) == 0)
        then none
        else some (sx xlen (x * 2 ^ shift)))
    else if funct3 == 2
    then some (of_bool (slt x imm))
    else if funct3 == 3
    then some (of_bool (ltb x imm))
    else if funct3 == 4
    then some (bit_xor x imm)
    else if funct3 == 5
    then (if not (bit_and imm (bit_not 64 (bit_or (xlen - 1) 0x400)) == 0)
        then none
        else if tst imm 0x400
        then some (sar xlen x shift)
        else some (sx xlen (x % 2 ^ xlen / 2 ^ shift)))
    else if funct3 == 6
    then some (bit_or x imm)
    else some (bit_and x imm)

-- Opcode 0x1b, on the low 32 bits of a register.
unfoldable pub op_imm_32 : ℕ → ℕ → ℕ → Option ℕ
op_imm_32 funct3 val imm =
    let shift = bit_and imm 31 in
    if funct3 == 0
    then some (sx 32 (val + imm))
    else if funct3 == 1
    then (if not (bit_and imm (bit_not 64 31) == 0) then none else some (sx 32 (val * 2 ^ shift)))
    else if funct3 == 5
    then (if not (bit_and imm (bit_not 64 (bit_or 31 0x400)) == 0)
        then none
        else if tst imm 0x400
        then some (sar 32 val shift)
        else some (sx 32 (u32 val / 2 ^ shift)))
    else none

-- The multiplications and divisions of opcode 0x33.
unfoldable pub op_mul : ℕ → ℕ → ℕ → ℕ → ℕ
op_mul xlen funct3 val val2 =
    let a = val % 2 ^ xlen in
    let b = val2 % 2 ^ xlen in
    sx xlen (
      if funct3 == 0
      then a * b
      else if funct3 == 1
      then mulh xlen a b
      else if funct3 == 2
      then mulhsu xlen a b
      else if funct3 == 3
      then mulhu xlen a b
      else if funct3 == 4
      then div xlen a b
      else if funct3 == 5
      then divu xlen a b
      else if funct3 == 6
      then rem xlen a b
      else remu xlen a b)

-- Opcode 0x33: `funct7` is `insn >> 25`, and `funct4` is funct3 with bit 30 of the instruction as its digit 3.
unfoldable pub op : ℕ → ℕ → ℕ → ℕ → ℕ → Option ℕ
op xlen funct7 funct4 val val2 =
    let shift = bit_and val2 (xlen - 1) in
    if funct7 == 1
    then some (op_mul xlen (bit_and funct4 7) val val2)
    else if not (bit_and funct7 (bit_not 32 0x20) == 0)
    then none
    else if funct4 == 0
    then some (sx xlen (val + val2))
    else if funct4 == 8
    then some (sx xlen (val + 2 ^ 64 - val2))
    else if funct4 == 1
    then some (sx xlen (val * 2 ^ shift))
    else if funct4 == 2
    then some (of_bool (slt val val2))
    else if funct4 == 3
    then some (of_bool (ltb val val2))
    else if funct4 == 4
    then some (bit_xor val val2)
    else if funct4 == 5
    then some (sx xlen (val % 2 ^ xlen / 2 ^ shift))
    else if funct4 == 13
    then some (sar xlen val shift)
    else if funct4 == 6
    then some (bit_or val val2)
    else if funct4 == 7
    then some (bit_and val val2)
    else none

-- Opcode 0x3b.
unfoldable pub op_32 : ℕ → ℕ → ℕ → ℕ → Option ℕ
op_32 funct7 funct4 val val2 =
    let funct3 = bit_and funct4 7 in
    let a = u32 val in
    let b = u32 val2 in
    let shift = bit_and val2 31 in
    if funct7 == 1
    then (if funct3 == 0
        then some (sx 32 (a * b))
        else if funct3 == 4
        then some (sx 32 (div 32 a b))
        else if funct3 == 5
        then some (sx 32 (divu 32 a b))
        else if funct3 == 6
        then some (sx 32 (rem 32 a b))
        else if funct3 == 7
        then some (sx 32 (remu 32 a b))
        else none)
    else if not (bit_and funct7 (bit_not 32 0x20) == 0)
    then none
    else if funct4 == 0
    then some (sx 32 (val + val2))
    else if funct4 == 8
    then some (sx 32 (val + 2 ^ 64 - val2))
    else if funct4 == 1
    then some (sx 32 (a * 2 ^ shift))
    else if funct4 == 5
    then some (sx 32 (a / 2 ^ shift))
    else if funct4 == 13
    then some (sar 32 val shift)
    else none
