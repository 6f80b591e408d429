-- ===== src/Pckbd/Tests.antt =====
-- A controller that waits for the argument of a command when a key is pressed.
use d_risc_v_emulator_tinyem.Base.{false, arith, ◌<◌, bit_not, tst, true, some, ◌≡◌, refl}
use d_risc_v_emulator_tinyem.Pckbd.{
  kbd_queue, kbd_read_data, KbdState, i8042_init, kbd_write_command, kbd_reset, kbd_update_irq,
  buffer_status, kbd_level, mouse_level, kbd_update_kbd_irq, call_back, with_kbd,
}
use d_risc_v_emulator_tinyem.Pckbd.Status.{IsBytes}
use d_risc_v_emulator_tinyem.Pckbd.Buffer.{Passed, kbd_read_data-kbd_queue}
use d_risc_v_emulator_tinyem.Ps2.Queue.{IsQueue}
use d_risc_v_emulator_tinyem.Ps2.{ps2_put_keycode, ps2_queue, ps2_kbd_init, ps2_reset}

abbrev commanded : KbdState
commanded = record i8042_init { write_cmd = 0x60 }

commanded_run : kbd_write_command i8042_init 0x60 ≡ some commanded
unfolding kbd_write_command
commanded_run = refl

abbrev pressed : KbdState
pressed = with_kbd commanded (ps2_put_keycode commanded.kbd true 30)

-- The key fills the output buffer and raises the keyboard's line.
pressed_run : (pressed.status ≡ 0x19) × (pressed.irq_kbd ≡ 1) × (pressed.irq_mouse ≡ 0)
unfolding with_kbd call_back kbd_update_kbd_irq kbd_update_irq buffer_status kbd_level mouse_level
    i8042_init kbd_reset ps2_put_keycode ps2_queue ps2_kbd_init ps2_reset bit_not tst
pressed_run = (refl, refl, refl)

init-IsBytes : IsBytes i8042_init
unfolding i8042_init kbd_reset
init-IsBytes = record {
  status_byte = omega arith;
  mode_byte = omega arith;
  pending_small = omega arith;
}

init-IsQueue : IsQueue i8042_init.kbd.common.queue
unfolding i8042_init kbd_reset ps2_kbd_init ps2_reset
init-IsQueue = record { read_fits = omega arith; count_fits = omega arith; write_follows = refl }

init_has_room : i8042_init.kbd.common.queue.count < 256
unfolding i8042_init kbd_reset ps2_kbd_init ps2_reset
init_has_room = omega arith

-- The answer to a self-test.
kbd_read_data-kbd_queue_example :
    let t = kbd_queue i8042_init 0x55 false in Passed i8042_init t 0x55 (kbd_read_data t)
kbd_read_data-kbd_queue_example =
    kbd_read_data-kbd_queue i8042_init 0x55 init-IsBytes init-IsQueue init_has_room (omega arith)
