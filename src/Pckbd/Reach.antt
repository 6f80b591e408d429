-- ===== src/Pckbd/Reach.antt =====
-- The states that the controller reaches.
use d_risc_v_emulator_tinyem.Base.{
  ℕ, ◌^◌, ◌<◌, ◌≡◌, refl, arith, bit, bit_and, bit_or, bit_not, Bool, true, false, ◌==◌,
  if◌then◌else◌, u8, Option, none, some, set_digit, clear_digit, bit_or-lt, bit_and-le,
}
use d_risc_v_emulator_tinyem.Base.Int.{ℤ}
use d_risc_v_emulator_tinyem.Pckbd.Status.{
  IsKbd, kbd_update_irq-IsKbd, same-IsKbd, with_kbd-IsKbd, with_mouse-IsKbd, kbd_queue-IsKbd,
  with_mode-IsKbd, self_test-IsKbd,
}
use d_risc_v_emulator_tinyem.Pckbd.{
  kbd_pending_aux, kbd_level, mouse_level, KbdState, kbd_mode_disable_mouse, kbd_mode_disable_kbd,
  with_kbd, with_mouse, kbd_write_command, kbd_read_data, write_argument, kbd_write_data, kbd_reset,
  i8042_init,
}
use d_risc_v_emulator_tinyem.Ps2.Mouse.{Ps2MouseState, ps2_mouse_event}
use d_risc_v_emulator_tinyem.Ps2.{Ps2KbdState, ps2_put_keycode}
use mathlib.Core.Option.{some-injective}
use mathlib.Core.Path.{subst}

-- What an access leaves, unless it ends the program.
data Lives : Option KbdState → Type 0 where
  lives : {s : KbdState} → IsKbd s → Lives (some s)
  ends : Lives none

if-Lives : (c : Bool) {p q : Option KbdState} → Lives p → Lives q → Lives (if c then p else q)
if-Lives true h k = h
if-Lives false h k = k

kbd_write_command-Lives : (s : KbdState) (val : ℕ) → IsKbd s → Lives (kbd_write_command s val)
unfolding kbd_write_command
kbd_write_command-Lives s val v =
    let queued = λ (b : ℕ) (aux : Bool). lives (kbd_queue-IsKbd s b aux v) in
    let tested = lives (kbd_queue-IsKbd _ 0x55 false (self_test-IsKbd s v)) in
    let waits = λ (c : ℕ). lives (same-IsKbd s s.kbd s.mouse c v) in
    let more : bit_or s.mode kbd_mode_disable_mouse < 2 ^ 8 =
      bit_or-lt 8 s.mode kbd_mode_disable_mouse v.mode_fits (omega arith) in
    let less : bit_and s.mode (bit_not 8 kbd_mode_disable_mouse) < 2 ^ 8 =
      omega (arith, v.mode_fits, bit_and-le s.mode (bit_not 8 kbd_mode_disable_mouse)) in
    let mouse_off = lives (
      with_mode-IsKbd s (bit_or s.mode kbd_mode_disable_mouse) more (set_digit s.mode 5 0)
        (set_digit s.mode 5 1) (set_digit s.mode 5 4) v) in
    let mouse_on = lives (
      with_mode-IsKbd s (bit_and s.mode (bit_not 8 kbd_mode_disable_mouse)) less
        (clear_digit 8 s.mode 5 0 v.mode_fits (omega arith))
        (clear_digit 8 s.mode 5 1 v.mode_fits (omega arith))
        (clear_digit 8 s.mode 5 4 v.mode_fits (omega arith)) v) in
    let kbd_off = lives (
      kbd_update_irq-IsKbd (record s { mode = bit_or s.mode kbd_mode_disable_kbd })
        (record {
          status_byte = v.status_fits;
          mode_byte = bit_or-lt 8 s.mode kbd_mode_disable_kbd v.mode_fits (omega arith);
          pending_small = v.pending_fits;
        })) in
    let kbd_on = lives (
      kbd_update_irq-IsKbd (record s { mode = bit_and s.mode (bit_not 8 kbd_mode_disable_kbd) })
        (record {
          status_byte = v.status_fits;
          mode_byte =
              omega (arith, v.mode_fits, bit_and-le s.mode (bit_not 8 kbd_mode_disable_kbd));
          pending_small = v.pending_fits;
        })) in
    let same = lives v in
    search (if-Lives, queued, tested, waits, mouse_off, mouse_on, kbd_off, kbd_on, same, ends) depth
      16

write_argument-Lives : (s : KbdState) (val : ℕ) → IsKbd s → Lives (write_argument s val)
unfolding write_argument
write_argument-Lives s val v =
    let to_kbd = λ (k : Ps2KbdState). lives (with_kbd-IsKbd s k v) in
    let to_mouse = λ (m : Ps2MouseState). lives (with_mouse-IsKbd s m v) in
    let queued = λ (b : ℕ) (aux : Bool). lives (kbd_queue-IsKbd s b aux v) in
    let mode_set = λ (k : Ps2KbdState). lives (
      kbd_update_irq-IsKbd (record s { mode = u8 val; kbd = k })
        (record {
          status_byte = v.status_fits;
          mode_byte = omega arith;
          pending_small = v.pending_fits;
        })) in
    let same = lives v in search (if-Lives, to_kbd, to_mouse, queued, mode_set, same, ends) depth 9

after_argument :
    (o : Option KbdState)
    → Lives o
    → Lives (elim o [ none ↦ none | some s' ↦ some (record s' { write_cmd = 0 }) ])
after_argument _ ends = ends
after_argument _ (lives {s} v) = lives (same-IsKbd s s.kbd s.mouse 0 v)

kbd_write_data-Lives : (s : KbdState) (val : ℕ) → IsKbd s → Lives (kbd_write_data s val)
unfolding kbd_write_data
kbd_write_data-Lives s val v = after_argument _ (write_argument-Lives s val v)

if_pair :
    (c : Bool) (p q : ℕ × KbdState)
    → IsKbd p.1
    → IsKbd q.1
    → IsKbd (let (_, t) = if c then p else q in t)
if_pair true p q h k = h
if_pair false p q h k = k

kbd_read_data-IsKbd : (s : KbdState) → IsKbd s → let (_, t) = kbd_read_data s in IsKbd t
unfolding kbd_read_data
kbd_read_data-IsKbd s v =
    if_pair (s.pending == kbd_pending_aux) _ _ (with_mouse-IsKbd s _ v) (with_kbd-IsKbd s _ v)

Lives-some : {o : Option KbdState} {t : KbdState} → Lives o → o ≡ some t → IsKbd t
Lives-some (lives v) e = subst IsKbd (some-injective _ _ e) v
Lives-some ends e = cc

i8042_init-IsKbd : IsKbd i8042_init
unfolding i8042_init kbd_reset bit kbd_level mouse_level
i8042_init-IsKbd = record {
  status_fits = omega arith;
  mode_fits = omega arith;
  pending_fits = omega arith;
  full = refl;
  aux = refl;
  kbd_line = refl;
  mouse_line = refl;
}

-- What can happen to the controller: an access of one of its ports, a key or a motion of the mouse.
pub data Step (s : KbdState) : KbdState → Type 0 where
  write_command : (val : ℕ) {t : KbdState} → kbd_write_command s val ≡ some t → Step s t
  write_data : (val : ℕ) {t : KbdState} → kbd_write_data s val ≡ some t → Step s t
  read_data : Step s (let (_, t) = kbd_read_data s in t)
  key : (is_down : Bool) (keycode : ℕ) → Step s (with_kbd s (ps2_put_keycode s.kbd is_down keycode))
  motion :
      (dx dy dz : ℤ) (buttons : ℕ) {m : Ps2MouseState}
      → ps2_mouse_event s.mouse dx dy dz buttons ≡ some m
      → Step s (with_mouse s m)

pub data Reaches : KbdState → Type 0 where
  init : Reaches i8042_init
  step : {s t : KbdState} → Reaches s → Step s t → Reaches t

Step-IsKbd : {s t : KbdState} → Step s t → IsKbd s → IsKbd t
Step-IsKbd {s} (write_command val e) v = Lives-some (kbd_write_command-Lives s val v) e
Step-IsKbd {s} (write_data val e) v = Lives-some (kbd_write_data-Lives s val v) e
Step-IsKbd {s} read_data v = kbd_read_data-IsKbd s v
Step-IsKbd {s} (key is_down keycode) v = with_kbd-IsKbd s _ v
Step-IsKbd {s} (motion dx dy dz buttons {m} e) v = with_mouse-IsKbd s m v

-- In every state that the keyboard controller reaches from its start by commands, data, reads,
-- keys and motions of the mouse, the status register says that the output buffer is full exactly
-- if a device has data, and that it is the mouse's exactly if only the mouse has, and the two
-- interrupt lines are what the mode and the devices with data call for.
pub Reaches-IsKbd : {s : KbdState} → Reaches s → IsKbd s
Reaches-IsKbd init = i8042_init-IsKbd
Reaches-IsKbd (step h e) = Step-IsKbd e (Reaches-IsKbd h)
