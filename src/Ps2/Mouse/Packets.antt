-- ===== src/Ps2/Mouse/Packets.antt =====
-- The packets of a mouse send its motion, all of it, in bounded steps.
use d_risc_v_emulator_tinyem.Base.{
  ℕ, zero, suc, ◌+◌, ◌-◌, ◌≤◌, ◌<◌, ◌≡◌, ◌⊎◌, inl, inr, refl, arith, ap, ◌∙◌, Bool, Bool-cases,
  true, false, ◌==◌, ◌&&◌, min, if◌then◌else◌, Option, some, tst, u8, bit, bit_or, bit_and,
  bit-bit_or, bit-bit_and,
}
use d_risc_v_emulator_tinyem.Base.Int.{ℤ, pos, negsuc, ◌+ℤ◌, ◌-ℤ◌}
use d_risc_v_emulator_tinyem.Ps2.Mouse.{
  streams, stream_motion, ps2_mouse_event, mouse_status_enabled, packet_head, Ps2MouseState, clip,
  low_byte, sign_digit, is_zero, sent_dz, send_wheel, mouse_send, at_rest, size, motion,
  ps2_mouse_send_packet, send_packets,
}

-- What is cut off a number to make it at most `m` long is sent.
clip-size : (m : ℕ) (z : ℤ) → 1 ≤ m → size (z -ℤ clip m z) + min (size z) m ≡ size z
unfolding clip ◌-ℤ◌
clip-size m (pos n) h = ground arith
clip-size m (negsuc n) h = ground arith

all_sent : (z : ℤ) → size (z -ℤ z) + min (size z) 1 ≤ size z
unfolding ◌-ℤ◌
all_sent (pos n) = ground arith
all_sent (negsuc n) = ground arith

sent_dz-size : (k : ℕ) (z : ℤ) → size (z -ℤ sent_dz k z) + min (size z) 1 ≤ size z
unfolding sent_dz
sent_dz-size k z = elim (Bool-cases (k == 3)) [
  | inl three ↦ rw three (omega (arith, clip-size 127 z (omega arith)))
  | inr other ↦ rw other (elim (Bool-cases (k == 4)) [
    | inl four ↦ rw four (omega (arith, clip-size 7 z (omega arith)))
    | inr none_of_them ↦ rw none_of_them (all_sent z)
  ])
]

-- The deltas of the motion after a packet.
wheel-deltas :
    (s : Ps2MouseState) (dz : ℤ)
    → ((send_wheel s dz).mouse_dx ≡ s.mouse_dx)
      × (((send_wheel s dz).mouse_dy ≡ s.mouse_dy) × ((send_wheel s dz).mouse_dz ≡ s.mouse_dz))
unfolding send_wheel
wheel-deltas s dz = ground arith

-- A packet leaves less motion, unless there is none.
packet-motion : (s : Ps2MouseState) → motion (ps2_mouse_send_packet s) + min (motion s) 1 ≤ motion s
unfolding ps2_mouse_send_packet motion
packet-motion s =
    let dz = sent_dz s.mouse_type s.mouse_dz in
    let (x, (y, z)) =
      wheel-deltas
        (mouse_send
          (mouse_send
            (mouse_send s (packet_head (clip 127 s.mouse_dx) (clip 127 s.mouse_dy) s.mouse_buttons))
            (low_byte (clip 127 s.mouse_dx)))
          (low_byte (clip 127 s.mouse_dy)))
        dz in
    rw (x, y, z)
      (omega (
        arith,
        clip-size 127 s.mouse_dx (omega arith),
        clip-size 127 s.mouse_dy (omega arith),
        sent_dz-size s.mouse_type s.mouse_dz,
      ))

is_zero-size : (z : ℤ) → is_zero z ≡ (size z == 0)
unfolding is_zero
is_zero-size (pos n) = refl
is_zero-size (negsuc n) = ground arith

at_rest-motion : (s : Ps2MouseState) → at_rest s ≡ false → 1 ≤ motion s
unfolding motion
at_rest-motion s e =
    ground (arith, is_zero-size s.mouse_dx, is_zero-size s.mouse_dy, is_zero-size s.mouse_dz)

-- The loop ended, with nothing left to send.
pub data Settled : Option Ps2MouseState → Type 0 where
  settled : (t : Ps2MouseState) → at_rest t ≡ true → Settled (some t)

pub send_packets-Settled :
    (fuel : ℕ) (s : Ps2MouseState) → motion s < fuel → Settled (send_packets fuel s)
unfolding send_packets
send_packets-Settled zero s h = absurd (omega arith)
send_packets-Settled (suc fuel) s h = elim (Bool-cases (at_rest (ps2_mouse_send_packet s))) [
  | inl rest ↦ rw rest (settled _ rest)
  | inr moving ↦
      let more = at_rest-motion (ps2_mouse_send_packet s) moving in
      rw moving
        (send_packets-Settled fuel (ps2_mouse_send_packet s) (omega (arith, packet-motion s)))
]

-- What an event of the mouse does: nothing while it is disabled; else the motion is added, and is
-- sent to the end where the mouse streams it, or waits, if there is any, where it does not.
pub data Moved (s : Ps2MouseState) (dx dy dz : ℤ) : Option Ps2MouseState → Type 0 where
  disabled : tst s.mouse_status 0x20 ≡ false → Moved s dx dy dz (some s)
  waits :
      (t : Ps2MouseState)
      → tst s.mouse_status 0x20 ≡ true
      → (streams s ≡ false) ⊎ (at_rest t ≡ true)
      → t.mouse_dx ≡ s.mouse_dx +ℤ dx
      → t.mouse_dy ≡ s.mouse_dy -ℤ dy
      → t.mouse_dz ≡ s.mouse_dz +ℤ dz
      → t.common ≡ s.common
      → Moved s dx dy dz (some t)
  sent :
      (t : Ps2MouseState)
      → tst s.mouse_status 0x20 ≡ true
      → streams s ≡ true
      → at_rest t ≡ true
      → Moved s dx dy dz (some t)

Settled-Moved :
    (s : Ps2MouseState) (dx dy dz : ℤ) (r : Option Ps2MouseState)
    → tst s.mouse_status 0x20 ≡ true
    → streams s ≡ true
    → Settled r
    → Moved s dx dy dz r
Settled-Moved s dx dy dz r on room (settled t rest) = sent t on room rest

module _ (s : Ps2MouseState) (dx dy dz : ℤ) (on : tst s.mouse_status 0x20 ≡ true) where
  -- The motion is added, and the buttons are noted.
  abbrev added : ℕ → Ps2MouseState
  added buttons = record s {
    mouse_dx = s.mouse_dx +ℤ dx;
    mouse_dy = s.mouse_dy -ℤ dy;
    mouse_dz = s.mouse_dz +ℤ dz;
    mouse_buttons = buttons;
  }

  stream_motion-Moved : (buttons : ℕ) → Moved s dx dy dz (stream_motion (added buttons))
  unfolding stream_motion streams
  stream_motion-Moved buttons = elim (Bool-cases (streams s)) [
    | inl room ↦
        let u = added buttons in
        rw room
          (Settled-Moved s dx dy dz _ on room (send_packets-Settled (motion u + 1) u (omega arith)))
    | inr closed ↦ rw closed (waits (added buttons) on (inl closed) refl refl refl refl)
  ]

  enabled-Moved :
      (buttons : ℕ) (same : Bool)
      → Moved s dx dy dz (
          if at_rest (added s.mouse_buttons) && same
          then some (added s.mouse_buttons)
          else stream_motion (added buttons))
  enabled-Moved buttons same = elim (Bool-cases (at_rest (added s.mouse_buttons) && same)) [
    | inl idle ↦ rw idle (waits (added s.mouse_buttons) on (inr (ground arith)) refl refl refl refl)
    | inr busy ↦ rw busy (stream_motion-Moved buttons)
  ]

-- Every event of the mouse comes to an end. It changes nothing while the mouse is disabled. Else the
-- motion is added: in stream mode with room in the queue packets are sent until none is left, and
-- otherwise, or where none is there, nothing is sent and the motion waits.
pub ps2_mouse_event-Moved :
    (s : Ps2MouseState) (dx dy dz : ℤ) (buttons : ℕ)
    → Moved s dx dy dz (ps2_mouse_event s dx dy dz buttons)
unfolding ps2_mouse_event
ps2_mouse_event-Moved s dx dy dz buttons =
    elim (Bool-cases (tst s.mouse_status mouse_status_enabled)) [
      | inl on ↦ rw on (enabled-Moved s dx dy dz on (u8 buttons) (s.mouse_buttons == buttons))
      | inr off ↦ rw off (disabled off)
    ]

-- The host's view of a motion: a sign digit and a byte in two's complement.
abbrev pub decoded : ℕ → ℕ → ℤ
decoded d b = if d == 0 then pos b else negsuc (255 - b)

-- The three buttons do not reach the digits above them.
head_digit : (m b i : ℕ) → bit 7 i ≡ 0 → bit (bit_or m (bit_and b 7)) i ≡ bit m i
head_digit m b i e = omega (arith, bit-bit_or m (bit_and b 7) i, bit-bit_and b 7 i)

sign_digits :
    (dx dy : ℤ) (b : ℕ)
    → (bit (packet_head dx dy b) 4 ≡ sign_digit dx) × (bit (packet_head dx dy b) 5 ≡ sign_digit dy)
unfolding packet_head sign_digit bit
sign_digits (pos n) (pos m) b = (head_digit 0x08 b 4 refl, head_digit 0x08 b 5 refl)
sign_digits (pos n) (negsuc m) b = (head_digit 0x28 b 4 refl, head_digit 0x28 b 5 refl)
sign_digits (negsuc n) (pos m) b = (head_digit 0x18 b 4 refl, head_digit 0x18 b 5 refl)
sign_digits (negsuc n) (negsuc m) b = (head_digit 0x38 b 4 refl, head_digit 0x38 b 5 refl)

byte-decoded : (z : ℤ) → decoded (sign_digit (clip 127 z)) (low_byte (clip 127 z)) ≡ clip 127 z
unfolding clip sign_digit low_byte
byte-decoded (pos n) = ground arith
byte-decoded (negsuc n) = ground arith

-- The host reads from the first byte of a packet, whatever the buttons, and from the byte of each
-- direction the motion cut to the range from -127 to 127.
pub packet_head-decoded :
    (dx dy : ℤ) (buttons : ℕ)
    → (decoded (bit (packet_head (clip 127 dx) (clip 127 dy) buttons) 4) (low_byte (clip 127 dx))
        ≡ clip 127 dx)
      × (decoded (bit (packet_head (clip 127 dx) (clip 127 dy) buttons) 5) (low_byte (clip 127 dy))
          ≡ clip 127 dy)
packet_head-decoded dx dy buttons =
    let (x, y) = sign_digits (clip 127 dx) (clip 127 dy) buttons in
    (
      ap (λ (d : ℕ). decoded d (low_byte (clip 127 dx))) x ∙ byte-decoded dx,
      ap (λ (d : ℕ). decoded d (low_byte (clip 127 dy))) y ∙ byte-decoded dy,
    )
