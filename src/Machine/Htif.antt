-- ===== src/Machine/Htif.antt =====
-- The host-target interface.
use d_risc_v_emulator_tinyem.Base.{
  ℕ, ◌+◌, ◌*◌, ◌/◌, ◌%◌, ◌^◌, ◌<◌, ◌≡◌, ◌∙◌, ap, refl, arith, ◌==◌, false, some, bit_and, bit_or,
  bit_not, bit_or_halves, bit_and-mask,
}
use d_risc_v_emulator_tinyem.Machine.{
  RiscvMachine, HtifOutput, write_data, silent, htif_write, htif_handle_cmd,
}

clear_low : (a val : ℕ) → bit_or (bit_and a (bit_not 32 0xffffffff)) val ≡ val
unfolding bit_not
clear_low a val =
    ap (λ (t : ℕ). bit_or t val) (bit_and-mask a 0 ∙ omega arith)
    ∙ ap (bit_or 0) (omega arith)
    ∙ bit_or_halves 0 0 val (omega arith)
    ∙ omega arith

put_command :
    (s : RiscvMachine) (c w : ℕ)
    → w ≡ c + 0x1010000 * 2 ^ 32
    → c < 2 ^ 32
    → htif_handle_cmd (record s { htif_tohost = w })
      ≡ (write_data (c % 256), record s { htif_tohost = 0; htif_fromhost = 0x101 * 2 ^ 48 })
unfolding htif_handle_cmd
put_command s c w e h =
    let not_off : (w == 1) ≡ false = ground arith in
    let device : w / 2 ^ 56 ≡ 1 = omega arith in
    let cmd : bit_and (w / 2 ^ 48) 0xff ≡ 1 = bit_and-mask (w / 2 ^ 48) 8 ∙ omega arith in
    let char : bit_and w 0xff ≡ c % 256 = bit_and-mask w 8 ∙ omega arith in
    rw (not_off, device, cmd, char) refl

-- A program prints a character with two writes: the character to the low word of tohost, then
-- device 1 and command 1 to the high word. Both succeed, the console gets the low byte, tohost
-- is 0 again and fromhost holds the answer, device 1 and command 1.
pub htif_write-putchar :
    (s : RiscvMachine) (c : ℕ)
    → c < 2 ^ 32
    → (t : RiscvMachine) × (htif_write s 0 c 2 ≡ some (silent, t))
      × (htif_write t 4 0x1010000 2
          ≡ some
              (write_data (c % 256), record s { htif_tohost = 0; htif_fromhost = 0x101 * 2 ^ 48 }))
unfolding htif_write htif_handle_cmd
htif_write-putchar s c h =
    let whole : bit_or (bit_and c 0xffffffff) (0x1010000 * 2 ^ 32) ≡ c + 0x1010000 * 2 ^ 32 =
      ap (λ (t : ℕ). bit_or t (0x1010000 * 2 ^ 32)) (bit_and-mask c 32 ∙ omega arith)
      ∙ bit_or_halves 32 c 0x1010000 h in
    (
      record s { htif_tohost = c },
      rw (clear_low s.htif_tohost c) refl,
      ap (λ (r : HtifOutput × RiscvMachine). some r) (put_command s c _ whole h),
    )
