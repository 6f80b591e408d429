-- ===== src/Pckbd/Status.antt =====
-- The status register and the interrupt lines follow the devices that have data.
use d_risc_v_emulator_tinyem.Base.{
  ℕ, ◌^◌, ◌<◌, ◌≡◌, ◌∙◌, refl, arith, bit, bit_and, bit_or, bit_not, Bool, true, false, ◌||◌, ◌==◌,
  if◌then◌else◌, List, [], ◌∷◌, set_digit, bit_masked, bit-bit_or, bit-two_pow, bit_or-lt,
  bit_and-le, tst_lem, bit_lt_two,
}
use d_risc_v_emulator_tinyem.Pckbd.{
  kbd_stat_obf, kbd_stat_mouse_obf, kbd_stat_selftest, kbd_pending_kbd, kbd_pending_aux, KbdState,
  buffer_status, kbd_level, mouse_level, kbd_update_irq, kbd_update_kbd_irq, kbd_update_aux_irq,
  call_back, with_kbd, with_mouse, kbd_queue,
}
use d_risc_v_emulator_tinyem.Ps2.Mouse.{Ps2MouseState}
use d_risc_v_emulator_tinyem.Ps2.{Ps2KbdState}

-- The registers are bytes. The status says that the output buffer is full exactly if a device has
-- data, and that it is the mouse's exactly if the keyboard has none; at most one of the two lines is
-- up, and only as the mode permits.
pub record IsKbd (s : KbdState) : Type 0 where
  pub status_fits : s.status < 2 ^ 8
  pub mode_fits : s.mode < 2 ^ 8
  pub pending_fits : s.pending < 4
  pub full : bit s.status 0 ≡ (if s.pending == 0 then 0 else 1)
  pub aux : bit s.status 5 ≡ (if s.pending == 2 then 1 else 0)
  pub kbd_line : s.irq_kbd ≡ kbd_level s.mode s.pending
  pub mouse_line : s.irq_mouse ≡ mouse_level s.mode s.pending

pub buffer_status-lt : (st p : ℕ) → st < 2 ^ 8 → buffer_status st p < 2 ^ 8
unfolding buffer_status
buffer_status-lt st p h =
    let clear : bit_and st (bit_not 8 (bit_or kbd_stat_obf kbd_stat_mouse_obf)) < 2 ^ 8 =
      omega (arith, bit_and-le st (bit_not 8 (bit_or kbd_stat_obf kbd_stat_mouse_obf))) in
    let full = bit_or-lt 8 _ kbd_stat_obf clear (omega arith) in
    let aux = bit_or-lt 8 _ kbd_stat_mouse_obf full (omega arith) in ground arith

-- The status without the two digits.
clear_status-bit :
    (st i : ℕ)
    → st < 2 ^ 8
    → bit (bit_and st (bit_not 8 (bit_or kbd_stat_obf kbd_stat_mouse_obf))) i
      ≡ (if i == 0 || i == 5 then 0 else bit st i)
clear_status-bit st i h = ground (
  arith,
  bit_masked 8 st (bit_or kbd_stat_obf kbd_stat_mouse_obf) i h (omega arith),
  bit-bit_or (2 ^ 0) (2 ^ 5) i,
  bit-two_pow 0 i,
  bit-two_pow 5 i,
  bit_lt_two st i,
)

pub buffer_status-bit :
    (st p i : ℕ)
    → st < 2 ^ 8
    → bit (buffer_status st p) i ≡ (
        if i == 0
        then (if p == 0 then 0 else 1)
        else if i == 5
        then (if p == 2 then 1 else 0)
        else bit st i)
unfolding buffer_status
buffer_status-bit st p i h =
    let clear = bit_and st (bit_not 8 (bit_or kbd_stat_obf kbd_stat_mouse_obf)) in
    ground (
      arith,
      clear_status-bit st i h,
      set_digit clear 0 i,
      set_digit (bit_or clear kbd_stat_obf) 5 i,
    )

-- The registers of the controller are bytes, and two devices can have data.
pub record IsBytes (s : KbdState) : Type 0 where
  pub status_byte : s.status < 2 ^ 8
  pub mode_byte : s.mode < 2 ^ 8
  pub pending_small : s.pending < 4

pub kbd_update_irq-IsKbd : (s : KbdState) → IsBytes s → IsKbd (kbd_update_irq s)
unfolding kbd_update_irq
kbd_update_irq-IsKbd s v = record {
  status_fits = buffer_status-lt s.status s.pending v.status_byte;
  mode_fits = v.mode_byte;
  pending_fits = v.pending_small;
  full = buffer_status-bit s.status s.pending 0 v.status_byte;
  aux = buffer_status-bit s.status s.pending 5 v.status_byte;
  kbd_line = refl;
  mouse_line = refl;
}

IsKbd-IsBytes : (s : KbdState) → IsKbd s → IsBytes s
IsKbd-IsBytes s v = record {
  status_byte = v.status_fits;
  mode_byte = v.mode_fits;
  pending_small = v.pending_fits;
}

pending-lt :
    (p k : ℕ) (level : Bool)
    → p < 4
    → k < 4
    → (if level then bit_or p k else bit_and p (bit_not 8 k)) < 4
pending-lt p k true h b = bit_or-lt 2 p k h b
pending-lt p k false h b = omega (arith, bit_and-le p (bit_not 8 k))

kbd_update_kbd_irq-IsKbd :
    (s : KbdState) (level : Bool) → IsKbd s → IsKbd (kbd_update_kbd_irq s level)
unfolding kbd_update_kbd_irq
kbd_update_kbd_irq-IsKbd s level v = kbd_update_irq-IsKbd _ (record {
  status_byte = v.status_fits;
  mode_byte = v.mode_fits;
  pending_small = pending-lt s.pending kbd_pending_kbd level v.pending_fits (omega arith);
})

kbd_update_aux_irq-IsKbd :
    (s : KbdState) (level : Bool) → IsKbd s → IsKbd (kbd_update_aux_irq s level)
unfolding kbd_update_aux_irq
kbd_update_aux_irq-IsKbd s level v = kbd_update_irq-IsKbd _ (record {
  status_byte = v.status_fits;
  mode_byte = v.mode_fits;
  pending_small = pending-lt s.pending kbd_pending_aux level v.pending_fits (omega arith);
})

call_back-IsKbd :
    (update : KbdState → Bool → KbdState) (s : KbdState) (calls : List Bool)
    → ((t : KbdState) (level : Bool) → IsKbd t → IsKbd (update t level))
    → IsKbd s
    → IsKbd (call_back update s calls)
unfolding call_back
call_back-IsKbd update s [] h v = v
call_back-IsKbd update s (level ∷ earlier) h v = h _ level (call_back-IsKbd update s earlier h v)

-- What the invariant says of a state whose registers are the same.
pub same-IsKbd :
    (s : KbdState) (kbd : Ps2KbdState) (mouse : Ps2MouseState) (write_cmd : ℕ)
    → IsKbd s
    → IsKbd (record s { kbd = kbd; mouse = mouse; write_cmd = write_cmd })
same-IsKbd s kbd mouse write_cmd v = record {
  status_fits = v.status_fits;
  mode_fits = v.mode_fits;
  pending_fits = v.pending_fits;
  full = v.full;
  aux = v.aux;
  kbd_line = v.kbd_line;
  mouse_line = v.mouse_line;
}

pub with_kbd-IsKbd : (s : KbdState) (kbd : Ps2KbdState) → IsKbd s → IsKbd (with_kbd s kbd)
unfolding with_kbd
with_kbd-IsKbd s kbd v =
    call_back-IsKbd kbd_update_kbd_irq _ _ kbd_update_kbd_irq-IsKbd
      (same-IsKbd s kbd s.mouse s.write_cmd v)

pub with_mouse-IsKbd : (s : KbdState) (mouse : Ps2MouseState) → IsKbd s → IsKbd (with_mouse s mouse)
unfolding with_mouse
with_mouse-IsKbd s mouse v =
    call_back-IsKbd kbd_update_aux_irq _ _ kbd_update_aux_irq-IsKbd
      (same-IsKbd s s.kbd mouse s.write_cmd v)

pub kbd_queue-IsKbd : (s : KbdState) (b : ℕ) (aux : Bool) → IsKbd s → IsKbd (kbd_queue s b aux)
unfolding kbd_queue
kbd_queue-IsKbd s b true v = with_mouse-IsKbd s _ v
kbd_queue-IsKbd s b false v = with_kbd-IsKbd s _ v

-- A mode with the same three digits permits the same interrupts.
pub with_mode-IsKbd :
    (s : KbdState) (mode : ℕ)
    → mode < 2 ^ 8
    → bit mode 0 ≡ bit s.mode 0
    → bit mode 1 ≡ bit s.mode 1
    → bit mode 4 ≡ bit s.mode 4
    → IsKbd s
    → IsKbd (record s { mode = mode })
unfolding kbd_level mouse_level
with_mode-IsKbd s mode b h k l v = record {
  status_fits = v.status_fits;
  mode_fits = b;
  pending_fits = v.pending_fits;
  full = v.full;
  aux = v.aux;
  kbd_line =
      v.kbd_line
      ∙ ground (arith, tst_lem mode 0, tst_lem s.mode 0, tst_lem mode 4, tst_lem s.mode 4);
  mouse_line = v.mouse_line ∙ ground (arith, tst_lem mode 1, tst_lem s.mode 1);
}

-- The digit of the self test is none of those that the invariant is about.
pub self_test-IsKbd :
    (s : KbdState) → IsKbd s → IsKbd (record s { status = bit_or s.status kbd_stat_selftest })
self_test-IsKbd s v = record {
  status_fits = bit_or-lt 8 s.status kbd_stat_selftest v.status_fits (omega arith);
  mode_fits = v.mode_fits;
  pending_fits = v.pending_fits;
  full = set_digit s.status 2 0 ∙ v.full;
  aux = set_digit s.status 2 5 ∙ v.aux;
  kbd_line = v.kbd_line;
  mouse_line = v.mouse_line;
}
