-- ===== src/Iomem/Dirty.antt =====
-- The dirty bits as a set of pages.
use d_risc_v_emulator_tinyem.Base.{
  two_pow_lt, bit_not, ℕ, ◌/◌, ◌%◌, ◌^◌, ◌<◌, ◌≡◌, ◌∙◌, arith, ◌==◌, ◌&&◌, ◌||◌, if◌then◌else◌,
  true, not, bit, bit_lt_two, bit_and, bit_or, bit_and-mask, digit_of_shr, set_digit, clear_digit,
  tst_lem,
}
use d_risc_v_emulator_tinyem.Iomem.{
  PhysMemoryRange, dirty_word, phys_mem_set_dirty_bit, phys_mem_is_dirty_bit,
  phys_mem_reset_dirty_bit,
}

-- The page of an offset.
abbrev pub page : ℕ → ℕ
page offset = offset / 2 ^ 12

-- Reading a dirty bit reads one digit of one word.
pub is_dirty_digit :
    (pr : PhysMemoryRange) (offset : ℕ)
    → pr.has_dirty_bits ≡ true
    → phys_mem_is_dirty_bit pr offset
      ≡ (bit (dirty_word pr (page offset / 32)) (page offset % 32) == 1)
unfolding phys_mem_is_dirty_bit
is_dirty_digit pr offset h =
    rw
      (
        h,
        bit_and-mask (offset / 2 ^ 12) 5,
        digit_of_shr (dirty_word pr (page offset / 32)) (page offset % 32),
      )
      (ground (arith, bit_lt_two (dirty_word pr (page offset / 32)) (page offset % 32)))

module _ (pr : PhysMemoryRange) (a b : ℕ) (on : pr.has_dirty_bits ≡ true) where
  abbrev word_a : ℕ
  word_a = dirty_word pr (page a / 32)

  abbrev digit_a : ℕ
  digit_a = page a % 32

  digit_a-eq : bit_and (a / 2 ^ 12) 0x1f ≡ digit_a
  digit_a-eq = bit_and-mask (a / 2 ^ 12) 5

  set_word : dirty_word (phys_mem_set_dirty_bit pr a) (page b / 32) ≡ (
      if page b / 32 == page a / 32
      then bit_or word_a (2 ^ digit_a)
      else dirty_word pr (page b / 32))
  unfolding phys_mem_set_dirty_bit
  set_word = rw (on, digit_a-eq) (ground arith)

  set_has : (phys_mem_set_dirty_bit pr a).has_dirty_bits ≡ true
  unfolding phys_mem_set_dirty_bit
  set_has = rw on

  -- In a range with dirty bits, setting the dirty bit of the page of `a` makes that page dirty
  -- and changes no other page.
  pub is_dirty-set_dirty :
      phys_mem_is_dirty_bit (phys_mem_set_dirty_bit pr a) b
      ≡ (page a == page b || phys_mem_is_dirty_bit pr b)
  is_dirty-set_dirty =
      is_dirty_digit (phys_mem_set_dirty_bit pr a) b set_has
      ∙ ground (
        arith,
        set_word,
        is_dirty_digit pr b on,
        set_digit word_a digit_a (page b % 32),
        bit_lt_two (dirty_word pr (page b / 32)) (page b % 32),
      )

  reset_word : dirty_word (phys_mem_reset_dirty_bit pr a).0 (page b / 32) ≡ (
      if page b / 32 == page a / 32 && bit word_a digit_a == 1
      then bit_and word_a (bit_not 32 (2 ^ digit_a))
      else dirty_word pr (page b / 32))
  unfolding phys_mem_reset_dirty_bit
  reset_word = rw (on, digit_a-eq, tst_lem word_a digit_a) (ground arith)

  reset_has : (phys_mem_reset_dirty_bit pr a).0.has_dirty_bits ≡ true
  unfolding phys_mem_reset_dirty_bit
  reset_has = ground arith

  -- In a range with dirty bits, kept in 32-bit words, resetting makes the page of `a` clean and
  -- changes no other page.
  pub is_dirty-reset_dirty :
      ((i : ℕ) → dirty_word pr i < 2 ^ 32)
      → phys_mem_is_dirty_bit (phys_mem_reset_dirty_bit pr a).0 b
        ≡ (not (page a == page b) && phys_mem_is_dirty_bit pr b)
  is_dirty-reset_dirty words =
      is_dirty_digit (phys_mem_reset_dirty_bit pr a).0 b reset_has
      ∙ ground (
        arith,
        reset_word,
        is_dirty_digit pr b on,
        clear_digit 32 word_a digit_a (page b % 32) (words (page a / 32))
            (two_pow_lt {k = digit_a} {w = 32} (omega arith)),
        bit_lt_two (dirty_word pr (page b / 32)) (page b % 32),
      )
