-- ===== src/Pckbd.antt =====
-- pckbd.c: the keyboard controller of a PC between its ports and the PS/2 devices.
-- The callbacks of the two devices are applied to the calls of `update_irq` that an operation of
-- theirs adds to its trace; they touch nothing that the devices read. `irq_kbd` and `irq_mouse` are
-- the levels last given to `set_irq`. `none` is the end of the program on a reset.
pub mod Status
pub mod Reach
pub mod Buffer
mod Tests
use d_risc_v_emulator_tinyem.Base.{
  ℕ, ◌+◌, ◌-◌, ◌*◌, ◌/◌, ◌%◌, ◌^◌, bit_and, bit_or, bit_not, Bool, true, false, not, ◌&&◌, ◌||◌,
  ◌==◌, if◌then◌else◌, tst, u8, Option, none, some, List, [], ◌∷◌, length, take,
}
use d_risc_v_emulator_tinyem.Ps2.Mouse.{Ps2MouseState, ps2_write_mouse, ps2_mouse_init}
use d_risc_v_emulator_tinyem.Ps2.{
  Ps2State, Ps2KbdState, ps2_queue, ps2_read_data, ps2_write_keyboard, ps2_keyboard_set_translation,
  ps2_kbd_init,
}

abbrev pub kbd_stat_obf : ℕ
kbd_stat_obf = 2 ^ 0

abbrev pub kbd_stat_mouse_obf : ℕ
kbd_stat_mouse_obf = 2 ^ 5

abbrev pub kbd_stat_selftest : ℕ
kbd_stat_selftest = 2 ^ 2

abbrev pub kbd_stat_cmd : ℕ
kbd_stat_cmd = 2 ^ 3

abbrev pub kbd_stat_unlocked : ℕ
kbd_stat_unlocked = 2 ^ 4

abbrev pub kbd_mode_kbd_int : ℕ
kbd_mode_kbd_int = 2 ^ 0

abbrev pub kbd_mode_mouse_int : ℕ
kbd_mode_mouse_int = 2 ^ 1

abbrev pub kbd_mode_disable_kbd : ℕ
kbd_mode_disable_kbd = 2 ^ 4

abbrev pub kbd_mode_disable_mouse : ℕ
kbd_mode_disable_mouse = 2 ^ 5

abbrev pub kbd_mode_kcc : ℕ
kbd_mode_kcc = 2 ^ 6

abbrev pub kbd_pending_kbd : ℕ
kbd_pending_kbd = 2 ^ 0

abbrev pub kbd_pending_aux : ℕ
kbd_pending_aux = 2 ^ 1

abbrev pub kbd_ccmd_read_mode : ℕ
kbd_ccmd_read_mode = 0x20

abbrev pub kbd_ccmd_write_mode : ℕ
kbd_ccmd_write_mode = 0x60

abbrev pub kbd_ccmd_mouse_disable : ℕ
kbd_ccmd_mouse_disable = 0xa7

abbrev pub kbd_ccmd_mouse_enable : ℕ
kbd_ccmd_mouse_enable = 0xa8

abbrev pub kbd_ccmd_test_mouse : ℕ
kbd_ccmd_test_mouse = 0xa9

abbrev pub kbd_ccmd_self_test : ℕ
kbd_ccmd_self_test = 0xaa

abbrev pub kbd_ccmd_kbd_test : ℕ
kbd_ccmd_kbd_test = 0xab

abbrev pub kbd_ccmd_kbd_disable : ℕ
kbd_ccmd_kbd_disable = 0xad

abbrev pub kbd_ccmd_kbd_enable : ℕ
kbd_ccmd_kbd_enable = 0xae

abbrev pub kbd_ccmd_read_inport : ℕ
kbd_ccmd_read_inport = 0xc0

abbrev pub kbd_ccmd_read_outport : ℕ
kbd_ccmd_read_outport = 0xd0

abbrev pub kbd_ccmd_write_outport : ℕ
kbd_ccmd_write_outport = 0xd1

abbrev pub kbd_ccmd_write_obuf : ℕ
kbd_ccmd_write_obuf = 0xd2

abbrev pub kbd_ccmd_write_aux_obuf : ℕ
kbd_ccmd_write_aux_obuf = 0xd3

abbrev pub kbd_ccmd_write_mouse : ℕ
kbd_ccmd_write_mouse = 0xd4

abbrev pub kbd_ccmd_reset : ℕ
kbd_ccmd_reset = 0xfe

pub record KbdState : Type 0 where
  pub write_cmd : ℕ
  pub status : ℕ
  pub mode : ℕ
  pub pending : ℕ
  pub kbd : Ps2KbdState
  pub mouse : Ps2MouseState
  pub irq_kbd : ℕ
  pub irq_mouse : ℕ

-- The status with the two digits of the output buffer.
unfoldable pub buffer_status : ℕ → ℕ → ℕ
buffer_status status pending =
    let clear = bit_and status (bit_not 8 (bit_or kbd_stat_obf kbd_stat_mouse_obf)) in
    if pending == 0
    then clear
    else if pending == kbd_pending_aux
    then bit_or (bit_or clear kbd_stat_obf) kbd_stat_mouse_obf
    else bit_or clear kbd_stat_obf

unfoldable pub kbd_level : ℕ → ℕ → ℕ
kbd_level mode pending =
    if pending == 0 || pending == kbd_pending_aux
    then 0
    else if tst mode kbd_mode_kbd_int && not (tst mode kbd_mode_disable_kbd)
    then 1
    else 0

unfoldable pub mouse_level : ℕ → ℕ → ℕ
mouse_level mode pending =
    if pending == kbd_pending_aux && tst mode kbd_mode_mouse_int then 1 else 0

unfoldable pub kbd_update_irq : KbdState → KbdState
kbd_update_irq s = record s {
  status = buffer_status s.status s.pending;
  irq_kbd = kbd_level s.mode s.pending;
  irq_mouse = mouse_level s.mode s.pending;
}

unfoldable pub kbd_update_kbd_irq : KbdState → Bool → KbdState
kbd_update_kbd_irq s level = kbd_update_irq (record s {
  pending =
      if level
      then bit_or s.pending kbd_pending_kbd
      else bit_and s.pending (bit_not 8 kbd_pending_kbd);
})

unfoldable pub kbd_update_aux_irq : KbdState → Bool → KbdState
kbd_update_aux_irq s level = kbd_update_irq (record s {
  pending =
      if level
      then bit_or s.pending kbd_pending_aux
      else bit_and s.pending (bit_not 8 kbd_pending_aux);
})

-- The calls of `update_irq` by which one trace is longer than another, the latest first.
abbrev pub new_calls : List Bool → List Bool → List Bool
new_calls before after = take (length after - length before) after

-- The callback for each of the calls, the earliest first.
unfoldable pub call_back : (KbdState → Bool → KbdState) → KbdState → List Bool → KbdState
call_back update s [] = s
call_back update s (level ∷ earlier) = update (call_back update s earlier) level

unfoldable pub with_kbd : KbdState → Ps2KbdState → KbdState
with_kbd s kbd =
    call_back kbd_update_kbd_irq (record s { kbd = kbd })
      (new_calls s.kbd.common.irq_calls kbd.common.irq_calls)

unfoldable pub with_mouse : KbdState → Ps2MouseState → KbdState
with_mouse s mouse =
    call_back kbd_update_aux_irq (record s { mouse = mouse })
      (new_calls s.mouse.common.irq_calls mouse.common.irq_calls)

unfoldable pub kbd_read_status : KbdState → ℕ
kbd_read_status s = s.status

unfoldable pub kbd_queue : KbdState → ℕ → Bool → KbdState
kbd_queue s b aux =
    if aux
    then with_mouse s (record s.mouse { common = ps2_queue s.mouse.common b })
    else with_kbd s (record s.kbd { common = ps2_queue s.kbd.common b })

-- The output port, with the A20 line always enabled.
unfoldable pub outport : KbdState → ℕ
outport s =
    let val = bit_or 0x01 (1 * 2) in
    let val1 = if tst s.status kbd_stat_obf then bit_or val 0x10 else val in
    if tst s.status kbd_stat_mouse_obf then bit_or val1 0x20 else val1

unfoldable pub kbd_write_command : KbdState → ℕ → Option KbdState
kbd_write_command s val =
    if val == kbd_ccmd_read_mode
    then some (kbd_queue s s.mode true)
    else if val == kbd_ccmd_write_mode
        || val == kbd_ccmd_write_obuf
        || val == kbd_ccmd_write_aux_obuf
        || val == kbd_ccmd_write_mouse
        || val == kbd_ccmd_write_outport
    then some (record s { write_cmd = u8 val })
    else if val == kbd_ccmd_mouse_disable
    then some (record s { mode = bit_or s.mode kbd_mode_disable_mouse })
    else if val == kbd_ccmd_mouse_enable
    then some (record s { mode = bit_and s.mode (bit_not 8 kbd_mode_disable_mouse) })
    else if val == kbd_ccmd_test_mouse
    then some (kbd_queue s 0x00 false)
    else if val == kbd_ccmd_self_test
    then some (kbd_queue (record s { status = bit_or s.status kbd_stat_selftest }) 0x55 false)
    else if val == kbd_ccmd_kbd_test
    then some (kbd_queue s 0x00 false)
    else if val == kbd_ccmd_kbd_disable
    then some (kbd_update_irq (record s { mode = bit_or s.mode kbd_mode_disable_kbd }))
    else if val == kbd_ccmd_kbd_enable
    then some (kbd_update_irq (record s { mode = bit_and s.mode (bit_not 8 kbd_mode_disable_kbd) }))
    else if val == kbd_ccmd_read_inport
    then some (kbd_queue s 0x00 false)
    else if val == kbd_ccmd_read_outport
    then some (kbd_queue s (outport s) false)
    else if val == kbd_ccmd_reset
    then none
    else some s

unfoldable pub kbd_read_data : KbdState → ℕ × KbdState
kbd_read_data s =
    if s.pending == kbd_pending_aux
    then (let (val, c) = ps2_read_data s.mouse.common in
        (val, with_mouse s (record s.mouse { common = c })))
    else let (val, c) = ps2_read_data s.kbd.common in
      (val, with_kbd s (record s.kbd { common = c }))

-- The byte for the command that waits; `none` is the end of the program.
unfoldable pub write_argument : KbdState → ℕ → Option KbdState
write_argument s val =
    if s.write_cmd == 0
    then some (with_kbd s (ps2_write_keyboard s.kbd val))
    else if s.write_cmd == kbd_ccmd_write_mode
    then (let s1 : KbdState = record s { mode = u8 val } in
        let kcc = if tst s1.mode kbd_mode_kcc then 1 else 0 in
        some (kbd_update_irq (record s1 { kbd = ps2_keyboard_set_translation s1.kbd kcc })))
    else if s.write_cmd == kbd_ccmd_write_obuf
    then some (kbd_queue s val false)
    else if s.write_cmd == kbd_ccmd_write_aux_obuf
    then some (kbd_queue s val true)
    else if s.write_cmd == kbd_ccmd_write_outport
    then (if bit_and val 1 == 0 then none else some s)
    else if s.write_cmd == kbd_ccmd_write_mouse
    then some (with_mouse s (ps2_write_mouse s.mouse val))
    else some s

unfoldable pub kbd_write_data : KbdState → ℕ → Option KbdState
kbd_write_data s val = elim (write_argument s val) [
  | none ↦ none
  | some s' ↦ some (record s' { write_cmd = 0 })
]

unfoldable pub kbd_reset : KbdState → KbdState
kbd_reset s = record s {
  mode = bit_or kbd_mode_kbd_int kbd_mode_mouse_int;
  status = bit_or kbd_stat_cmd kbd_stat_unlocked;
}

-- The controller of `i8042_init`; the ports that lead to it are in the memory map.
unfoldable pub i8042_init : KbdState
i8042_init = kbd_reset (record {
  write_cmd = 0;
  status = 0;
  mode = 0;
  pending = 0;
  kbd = ps2_kbd_init;
  mouse = ps2_mouse_init;
  irq_kbd = 0;
  irq_mouse = 0;
})
