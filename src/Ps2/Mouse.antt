-- ===== src/Ps2/Mouse.antt =====
-- ps2.c: the mouse. Its motion that is not yet sent is kept as integers, which stand for `int`s that
-- do not overflow.
pub mod Packets
use d_risc_v_emulator_tinyem.Base.{
  [], ℕ, zero, suc, ◌+◌, ◌-◌, ◌*◌, ◌/◌, ◌%◌, ◌^◌, bit_and, bit_or, bit_not, Bool, true, false, not,
  ◌&&◌, ◌||◌, ◌==◌, ltb, leb, if◌then◌else◌, Option, none, some, u8, tst,
}
use d_risc_v_emulator_tinyem.Base.Int.{ℤ, pos, negsuc, ◌+ℤ◌, ◌-ℤ◌}
use d_risc_v_emulator_tinyem.Ps2.{Ps2State, ps2_queue_size, ps2_queue, ps2_reset}

abbrev pub mouse_status_remote : ℕ
mouse_status_remote = 0x40

abbrev pub mouse_status_enabled : ℕ
mouse_status_enabled = 0x20

abbrev pub mouse_status_scale21 : ℕ
mouse_status_scale21 = 0x10

-- `mouse_type` is 0 for PS2, 3 for IMPS/2 and 4 for IMEX.
pub record Ps2MouseState : Type 0 where
  pub common : Ps2State
  pub mouse_status : ℕ
  pub mouse_resolution : ℕ
  pub mouse_sample_rate : ℕ
  pub mouse_wrap : Bool
  pub mouse_type : ℕ
  pub mouse_detect_state : ℕ
  pub mouse_dx : ℤ
  pub mouse_dy : ℤ
  pub mouse_dz : ℤ
  pub mouse_buttons : ℕ

-- A number cut to the range from -m to m.
unfoldable pub clip : ℕ → ℤ → ℤ
clip m (pos n) = if leb n m then pos n else pos m
clip m (negsuc n) = if leb (n + 1) m then negsuc n else negsuc (m - 1)

-- `z & 0xff`, and `z < 0` as a digit.
unfoldable pub low_byte : ℤ → ℕ
low_byte (pos n) = n % 256
low_byte (negsuc n) = 255 - n % 256

unfoldable pub sign_digit : ℤ → ℕ
sign_digit (pos n) = 0
sign_digit (negsuc n) = 1

unfoldable pub is_zero : ℤ → Bool
is_zero (pos n) = n == 0
is_zero (negsuc n) = false

abbrev pub mouse_send : Ps2MouseState → ℕ → Ps2MouseState
mouse_send s b = record s { common = ps2_queue s.common b }

-- The first byte of a packet.
unfoldable pub packet_head : ℤ → ℤ → ℕ → ℕ
packet_head dx dy buttons =
    bit_or (bit_or (bit_or 0x08 (sign_digit dx * 2 ^ 4)) (sign_digit dy * 2 ^ 5))
      (bit_and buttons 7)

-- The motion of the wheel that one packet sends.
unfoldable pub sent_dz : ℕ → ℤ → ℤ
sent_dz mouse_type dz =
    if mouse_type == 3 then clip 127 dz else if mouse_type == 4 then clip 7 dz else dz

-- The byte of the wheel, if the type has one.
unfoldable pub send_wheel : Ps2MouseState → ℤ → Ps2MouseState
send_wheel s dz =
    if s.mouse_type == 3
    then mouse_send s (low_byte dz)
    else if s.mouse_type == 4
    then mouse_send s (bit_or (low_byte dz % 16) (bit_and s.mouse_buttons 0x18 * 2))
    else s

unfoldable pub ps2_mouse_send_packet : Ps2MouseState → Ps2MouseState
ps2_mouse_send_packet s =
    let dx = clip 127 s.mouse_dx in
    let dy = clip 127 s.mouse_dy in
    let dz = sent_dz s.mouse_type s.mouse_dz in
    let s1 = mouse_send s (packet_head dx dy s.mouse_buttons) in
    let s2 = mouse_send (mouse_send s1 (low_byte dx)) (low_byte dy) in
    let s3 = send_wheel s2 dz in
    record s3 {
      mouse_dx = s3.mouse_dx -ℤ dx;
      mouse_dy = s3.mouse_dy -ℤ dy;
      mouse_dz = s3.mouse_dz -ℤ dz;
    }

abbrev pub at_rest : Ps2MouseState → Bool
at_rest s = is_zero s.mouse_dx && (is_zero s.mouse_dy && is_zero s.mouse_dz)

-- The loop that sends packets, at most `fuel` of them.
unfoldable pub send_packets : ℕ → Ps2MouseState → Option Ps2MouseState
send_packets zero s = none
send_packets (suc fuel) s =
    let t = ps2_mouse_send_packet s in
    let rest = send_packets fuel t in if at_rest t then some t else rest

abbrev pub size : ℤ → ℕ
size (pos n) = n
size (negsuc n) = n + 1

-- Enough packets for the motion of a mouse.
unfoldable pub motion : Ps2MouseState → ℕ
motion s = size s.mouse_dx + size s.mouse_dy + size s.mouse_dz

-- Stream mode, with room in the queue.
unfoldable pub streams : Ps2MouseState → Bool
streams s =
    not (tst s.mouse_status mouse_status_remote) && ltb s.common.queue.count (ps2_queue_size - 16)

unfoldable pub stream_motion : Ps2MouseState → Option Ps2MouseState
stream_motion s = if streams s then send_packets (motion s + 1) s else some s

-- `none` would be a loop without end.
unfoldable pub ps2_mouse_event : Ps2MouseState → ℤ → ℤ → ℤ → ℕ → Option Ps2MouseState
ps2_mouse_event s dx dy dz buttons_state =
    let t = record s {
      mouse_dx = s.mouse_dx +ℤ dx;
      mouse_dy = s.mouse_dy -ℤ dy;
      mouse_dz = s.mouse_dz +ℤ dz;
    } in
    if not (tst s.mouse_status mouse_status_enabled)
    then some s
    else if at_rest t && s.mouse_buttons == buttons_state
    then some t
    else stream_motion (record t { mouse_buttons = u8 buttons_state })

abbrev pub set_status : Ps2MouseState → ℕ → Ps2MouseState
set_status s status = record s { mouse_status = status }

abbrev pub ack : Ps2MouseState → Ps2MouseState
ack s = mouse_send s 0xfa

-- A command, when none waits for its argument and the mouse does not wrap bytes.
unfoldable pub mouse_command : Ps2MouseState → ℕ → Ps2MouseState
mouse_command s val =
    let defaults = record s { mouse_sample_rate = 100; mouse_resolution = 2; mouse_status = 0 } in
    if val == 0xe6
    then ack (set_status s (bit_and s.mouse_status (bit_not 8 mouse_status_scale21)))
    else if val == 0xe7
    then ack (set_status s (bit_or s.mouse_status mouse_status_scale21))
    else if val == 0xea
    then ack (set_status s (bit_and s.mouse_status (bit_not 8 mouse_status_remote)))
    else if val == 0xee
    then ack (record s { mouse_wrap = true })
    else if val == 0xf0
    then ack (set_status s (bit_or s.mouse_status mouse_status_remote))
    else if val == 0xf2
    then mouse_send (ack s) s.mouse_type
    else if val == 0xe8 || val == 0xf3
    then ack (record s { common = record s.common { write_cmd = some val } })
    else if val == 0xe9
    then mouse_send (mouse_send (mouse_send (ack s) s.mouse_status) s.mouse_resolution)
        s.mouse_sample_rate
    else if val == 0xeb
    then ps2_mouse_send_packet (ack s)
    else if val == 0xf4
    then ack (set_status s (bit_or s.mouse_status mouse_status_enabled))
    else if val == 0xf5
    then ack (set_status s (bit_and s.mouse_status (bit_not 8 mouse_status_enabled)))
    else if val == 0xf6
    then ack defaults
    else if val == 0xff
    then mouse_send (mouse_send (ack (record defaults { mouse_type = 0 })) 0xaa) 0
    else s

unfoldable pub wrapped_command : Ps2MouseState → ℕ → Ps2MouseState
wrapped_command s val =
    if s.mouse_wrap && val == 0xec
    then ack (record s { mouse_wrap = false })
    else if s.mouse_wrap && not (val == 0xff)
    then mouse_send s val
    else mouse_command s val

-- The sample rates 200, 100, 80 and 200, 200, 80 ask for the types IMPS/2 and IMEX.
unfoldable pub detect_type : Ps2MouseState → ℕ → Ps2MouseState
detect_type s val =
    let k = s.mouse_detect_state in
    if k == 1
    then record s { mouse_detect_state = if val == 100 then 2 else if val == 200 then 3 else 0 }
    else if k == 2
    then record s { mouse_type = if val == 80 then 3 else s.mouse_type; mouse_detect_state = 0 }
    else if k == 3
    then record s { mouse_type = if val == 80 then 4 else s.mouse_type; mouse_detect_state = 0 }
    else record s { mouse_detect_state = if val == 200 then 1 else k }

-- The argument of a command ends it.
abbrev pub end_command : Ps2MouseState → Ps2MouseState
end_command s = record (ack s) { common = record (ps2_queue s.common 0xfa) { write_cmd = none } }

unfoldable pub ps2_write_mouse : Ps2MouseState → ℕ → Ps2MouseState
ps2_write_mouse s val = elim s.common.write_cmd [
  | none ↦ wrapped_command s val
  | some cmd ↦
      if cmd == 0xf3
      then end_command (detect_type (record s { mouse_sample_rate = u8 val }) val)
      else if cmd == 0xe8
      then end_command (record s { mouse_resolution = u8 val })
      else wrapped_command s val
]

unfoldable pub ps2_mouse_init : Ps2MouseState
ps2_mouse_init = record {
  common = ps2_reset (record {
    queue = record { data_at = λ _. 0; rptr = 0; wptr = 0; count = 0 };
    write_cmd = some 0;
    irq_calls = [];
  });
  mouse_status = 0;
  mouse_resolution = 0;
  mouse_sample_rate = 0;
  mouse_wrap = false;
  mouse_type = 0;
  mouse_detect_state = 0;
  mouse_dx = pos 0;
  mouse_dy = pos 0;
  mouse_dz = pos 0;
  mouse_buttons = 0;
}
