-- ===== src/Ps2.antt =====
-- ps2.c: the queue of a PS/2 device, and the keyboard.
-- The calls of `update_irq` are kept in `irq_calls`, the latest first; `write_cmd` is none for -1.
pub mod Queue
pub mod Mouse
mod Tests
use d_risc_v_emulator_tinyem.Base.{
  ℕ, ◌+◌, ◌-◌, ◌*◌, ◌%◌, ◌^◌, ◌<◌, bit_or, Bool, true, false, not, ◌&&◌, ◌||◌, ◌==◌, ltb, leb,
  if◌then◌else◌, Option, none, some, List, [], ◌∷◌, get_elem?, u8,
}

abbrev pub ps2_queue_size : ℕ
ps2_queue_size = 256

pub record Ps2Queue : Type 0 where
  pub data_at : ℕ → ℕ
  pub rptr : ℕ
  pub wptr : ℕ
  pub count : ℕ

pub record Ps2State : Type 0 where
  pub queue : Ps2Queue
  pub write_cmd : Option ℕ
  pub irq_calls : List Bool

pub record Ps2KbdState : Type 0 where
  pub common : Ps2State
  pub scan_enabled : Bool
  pub translate : ℕ

unfoldable pub ps2_queue : Ps2State → ℕ → Ps2State
ps2_queue s b =
    let q = s.queue in
    if leb ps2_queue_size q.count then s else record s {
      queue = record {
        data_at = λ i. if i == q.wptr then u8 b else q.data_at i;
        rptr = q.rptr;
        wptr = if q.wptr + 1 == ps2_queue_size then 0 else q.wptr + 1;
        count = q.count + 1;
      };
      irq_calls = true ∷ s.irq_calls;
    }

unfoldable pub ps2_read_data : Ps2State → ℕ × Ps2State
ps2_read_data s =
    let q = s.queue in
    if q.count == 0
    then (q.data_at (if q.rptr == 0 then ps2_queue_size - 1 else q.rptr - 1), s)
    else (
      q.data_at q.rptr,
      record s {
        queue = record q {
          rptr = if q.rptr + 1 == ps2_queue_size then 0 else q.rptr + 1;
          count = q.count - 1;
        };
        irq_calls = not (q.count - 1 == 0) ∷ (false ∷ s.irq_calls);
      },
    )

-- The keycodes from 96 to 127.
abbrev pub linux_input_to_keycode_set1 : List ℕ
linux_input_to_keycode_set1 =
    0x1c ∷ 0x1d ∷ 0x35 ∷ 0x00 ∷ 0x38 ∷ 0x00 ∷ 0x47 ∷ 0x48 ∷ 0x49 ∷ 0x4b ∷ 0x4d ∷ 0x4f ∷ 0x50 ∷ 0x51
    ∷ 0x52 ∷ 0x53 ∷ 0x00 ∷ 0x00 ∷ 0x00 ∷ 0x00 ∷ 0x00 ∷ 0x00 ∷ 0x00 ∷ 0x00 ∷ 0x00 ∷ 0x00 ∷ 0x00
    ∷ 0x00 ∷ 0x00 ∷ 0x5b ∷ 0x5c ∷ 0x5d ∷ []

abbrev pub with_common : Ps2KbdState → Ps2State → Ps2KbdState
with_common s c = record s { common = c }

abbrev pub send : Ps2KbdState → ℕ → Ps2KbdState
send s b = with_common s (ps2_queue s.common b)

unfoldable pub ps2_put_keycode : Ps2KbdState → Bool → ℕ → Ps2KbdState
ps2_put_keycode s is_down keycode =
    let up = if is_down then 0 else 2 ^ 7 in
    if leb 96 keycode
    then (if ltb 127 keycode
        then s
        else elim (get_elem? linux_input_to_keycode_set1 (keycode - 96)) [
          | none ↦ s
          | some k ↦ if k == 0 then s else send (send s 0xe0) (bit_or k up)
        ])
    else send s (bit_or keycode up)

unfoldable pub ps2_reset_keyboard : Ps2KbdState → Ps2KbdState
ps2_reset_keyboard s = record s { scan_enabled = true }

abbrev pub with_write_cmd : Ps2KbdState → Option ℕ → Ps2KbdState
with_write_cmd s cmd = with_common s (record s.common { write_cmd = cmd })

-- A command, when none waits for its argument.
unfoldable pub keyboard_command : Ps2KbdState → ℕ → Ps2KbdState
keyboard_command s val =
    if val == 0x00
    then send s 0xfa
    else if val == 0x05
    then send s 0xfe
    else if val == 0xf2
    then send (send (send s 0xfa) 0xab) 0x83
    else if val == 0xee
    then send s 0xee
    else if val == 0xf4
    then send (record s { scan_enabled = true }) 0xfa
    else if val == 0xed || val == 0xf3
    then send (with_write_cmd s (some val)) 0xfa
    else if val == 0xf5
    then send (record (ps2_reset_keyboard s) { scan_enabled = false }) 0xfa
    else if val == 0xf6
    then send (record (ps2_reset_keyboard s) { scan_enabled = true }) 0xfa
    else if val == 0xff
    then send (send (ps2_reset_keyboard s) 0xfa) 0xaa
    else send s 0xfa

unfoldable pub ps2_write_keyboard : Ps2KbdState → ℕ → Ps2KbdState
ps2_write_keyboard s val = elim s.common.write_cmd [
  | none ↦ keyboard_command s val
  | some cmd ↦
      if cmd == 0xed || cmd == 0xf3
      then with_write_cmd (send s 0xfa) none
      else keyboard_command s val
]

unfoldable pub ps2_keyboard_set_translation : Ps2KbdState → ℕ → Ps2KbdState
ps2_keyboard_set_translation s mode = record s { translate = mode }

unfoldable pub ps2_reset : Ps2State → Ps2State
ps2_reset s = record s {
  write_cmd = none;
  queue = record s.queue { rptr = 0; wptr = 0; count = 0 };
}

unfoldable pub ps2_kbd_init : Ps2KbdState
ps2_kbd_init = record {
  common = ps2_reset (record {
    queue = record { data_at = λ _. 0; rptr = 0; wptr = 0; count = 0 };
    write_cmd = some 0;
    irq_calls = [];
  });
  scan_enabled = false;
  translate = 0;
}
