-- ===== src/Pckbd/Buffer.antt =====
-- pckbd.c: a byte for the keyboard's queue, the output buffer that tells of it, and its read.
use d_risc_v_emulator_tinyem.Base.{
  tst_lem, zero, suc, ◌*◌, ◌/◌, ℕ, ◌+◌, ◌-◌, ◌<◌, ◌≡◌, ◌∙◌, ap, refl, arith, bit, bit_and, bit_or,
  bit_not, Bool, true, false, not, ◌&&◌, ◌==◌, leb, if◌then◌else◌, List, [], ◌∷◌, length, take,
  bit_lt_two, bit_lem, ◌||◌, ◌%◌,
}
use d_risc_v_emulator_tinyem.Pckbd.{
  KbdState, kbd_pending_kbd, kbd_pending_aux, kbd_level, kbd_update_irq, kbd_update_kbd_irq,
  call_back, new_calls, with_kbd, kbd_queue, kbd_read_data,
}
use d_risc_v_emulator_tinyem.Pckbd.Status.{IsBytes, buffer_status-bit, buffer_status-lt}
use d_risc_v_emulator_tinyem.Ps2.Queue.{IsQueue}
use d_risc_v_emulator_tinyem.Ps2.{Ps2KbdState, Ps2State, ps2_queue, ps2_read_data}

-- The calls that a trace got more than another.
one_call : (c : Bool) (l : List Bool) → new_calls l (c ∷ l) ≡ c ∷ []
one_call c l =
    let n : length (c ∷ l) - length l ≡ 1 = omega arith in ap (λ (k : ℕ). take k (c ∷ l)) n

two_calls : (c d : Bool) (l : List Bool) → new_calls l (c ∷ (d ∷ l)) ≡ c ∷ (d ∷ [])
two_calls c d l =
    let n : length (c ∷ (d ∷ l)) - length l ≡ 2 = omega arith in
    ap (λ (k : ℕ). take k (c ∷ (d ∷ l))) n

queued_kbd :
    (s : KbdState) (b : ℕ)
    → s.kbd.common.queue.count < 256
    → kbd_queue s b false
      ≡ kbd_update_kbd_irq
          (record s { kbd = record s.kbd { common = ps2_queue s.kbd.common b } })
          true
unfolding kbd_queue with_kbd call_back ps2_queue
queued_kbd s b room =
    let fits : leb 256 s.kbd.common.queue.count ≡ false = ground arith in
    rw (fits, one_call true s.kbd.common.irq_calls) refl

read_kbd :
    (s : KbdState)
    → (s.pending == kbd_pending_aux) ≡ false
    → 0 < s.kbd.common.queue.count
    → let r = ps2_read_data s.kbd.common in
      kbd_read_data s ≡ (
        s.kbd.common.queue.data_at s.kbd.common.queue.rptr,
        kbd_update_kbd_irq
            (kbd_update_kbd_irq (record s { kbd = record s.kbd { common = r.1 } }) false)
            (not (s.kbd.common.queue.count - 1 == 0)),
      )
unfolding kbd_read_data with_kbd call_back ps2_read_data
read_kbd s e some_data =
    let full : s.kbd.common.queue.count == 0 ≡ false = ground arith in
    rw (e, full, two_calls (not (s.kbd.common.queue.count - 1 == 0)) false s.kbd.common.irq_calls)
      refl

-- The digit of the keyboard in the two of the devices with data.
raise_kbd : (p : ℕ) → p < 4 → bit_or p kbd_pending_kbd ≡ p / 2 * 2 + 1
raise_kbd zero h = refl
raise_kbd (suc zero) h = refl
raise_kbd (suc (suc zero)) h = refl
raise_kbd (suc (suc (suc zero))) h = refl
raise_kbd (suc (suc (suc (suc p)))) h = absurd (omega arith)

lower_kbd : (p : ℕ) → p < 4 → bit_and p (bit_not 8 kbd_pending_kbd) ≡ p / 2 * 2
unfolding bit_not
lower_kbd zero h = refl
lower_kbd (suc zero) h = refl
lower_kbd (suc (suc zero)) h = refl
lower_kbd (suc (suc (suc zero))) h = refl
lower_kbd (suc (suc (suc (suc p)))) h = absurd (omega arith)

-- What the callback of the keyboard makes of a controller.
record Updated (s t : KbdState) (level : Bool) : Type 0 where
  full : bit t.status 0 ≡ (if level || bit s.pending 1 == 1 then 1 else 0)
  aux : bit t.status 5 ≡ (if level then 0 else bit s.pending 1)
  mouse_digit : bit t.pending 1 ≡ bit s.pending 1
  kbd_digit : t.pending % 2 ≡ (if level then 1 else 0)
  line : t.irq_kbd ≡ kbd_level s.mode t.pending
  same_kbd : t.kbd ≡ s.kbd
  bytes : IsBytes t

kbd_update_kbd_irq-Updated :
    (s : KbdState) (level : Bool) → IsBytes s → Updated s (kbd_update_kbd_irq s level) level
unfolding kbd_update_kbd_irq kbd_update_irq
kbd_update_kbd_irq-Updated s true v =
    let up = raise_kbd s.pending v.pending_small in
    let p = bit_or s.pending kbd_pending_kbd in
    record {
      full = ground (arith, buffer_status-bit s.status p 0 v.status_byte, up);
      aux = ground (arith, buffer_status-bit s.status p 5 v.status_byte, up);
      mouse_digit = omega (arith, bit_lem p 1, bit_lem s.pending 1, up);
      kbd_digit = omega (arith, up);
      line = refl;
      same_kbd = refl;
      bytes = record {
        status_byte = buffer_status-lt s.status p v.status_byte;
        mode_byte = v.mode_byte;
        pending_small = omega (arith, up, v.pending_small);
      };
    }
kbd_update_kbd_irq-Updated s false v =
    let down = lower_kbd s.pending v.pending_small in
    let p = bit_and s.pending (bit_not 8 kbd_pending_kbd) in
    let old = bit_lem s.pending 1 in
    record {
      full =
          ground (arith, buffer_status-bit s.status p 0 v.status_byte, down, old, v.pending_small);
      aux =
          ground (arith, buffer_status-bit s.status p 5 v.status_byte, down, old, v.pending_small);
      mouse_digit = omega (arith, bit_lem p 1, old, down);
      kbd_digit = omega (arith, down);
      line = refl;
      same_kbd = refl;
      bytes = record {
        status_byte = buffer_status-lt s.status p v.status_byte;
        mode_byte = v.mode_byte;
        pending_small = omega (arith, down, v.pending_small);
      };
    }

-- The keyboard's line while it has data.
kbd_level_lem :
    (mode p : ℕ)
    → p % 2 ≡ 1
    → kbd_level mode p ≡ (if bit mode 0 == 1 && bit mode 4 == 0 then 1 else 0)
unfolding kbd_level
kbd_level_lem mode p odd =
    ground (arith, tst_lem mode 0, tst_lem mode 4, bit_lt_two mode 0, bit_lt_two mode 4)

read_count :
    (c : Ps2State) → 0 < c.queue.count → (ps2_read_data c).1.queue.count ≡ c.queue.count - 1
unfolding ps2_read_data
read_count c h = ground arith

-- The byte `b` went into the keyboard's queue of `s`, which left `t`, and a read of the data port
-- gave `r`.
pub record Passed (s t : KbdState) (b : ℕ) (r : ℕ × KbdState) : Type 0 where
  pub full : bit t.status 0 ≡ 1
  pub of_kbd : bit t.status 5 ≡ 0
  pub line : t.irq_kbd ≡ (if bit s.mode 0 == 1 && bit s.mode 4 == 0 then 1 else 0)
  pub value : r.0 ≡ (
      if s.kbd.common.queue.count == 0
      then b
      else s.kbd.common.queue.data_at s.kbd.common.queue.rptr)
  pub left : r.1.kbd.common.queue.count ≡ s.kbd.common.queue.count
  pub full_after :
      bit r.1.status 0 ≡ (if s.kbd.common.queue.count == 0 && bit s.pending 1 == 0 then 0 else 1)
  pub mouse_after :
      bit r.1.status 5 ≡ (if s.kbd.common.queue.count == 0 && bit s.pending 1 == 1 then 1 else 0)

-- On a controller whose registers are bytes and whose keyboard has a well-formed queue with room: a
-- byte for the keyboard's queue makes the status say that the output buffer is full and not the
-- mouse's, and raises the keyboard's line if the mode lets it. The read of the data port that follows
-- gives the byte that waited longest, that byte itself if none did, and leaves as many as before.
-- After it the buffer is empty exactly if no other byte waits for the keyboard and the mouse has no
-- data, and the mouse's exactly if only the mouse has.
pub kbd_read_data-kbd_queue :
    (s : KbdState) (b : ℕ)
    → IsBytes s
    → IsQueue s.kbd.common.queue
    → s.kbd.common.queue.count < 256
    → b < 256
    → Passed s (kbd_queue s b false) b (kbd_read_data (kbd_queue s b false))
kbd_read_data-kbd_queue s b v q room byte =
    let c = ps2_queue s.kbd.common b in
    let s' = record s { kbd = record s.kbd { common = c } } in
    let t = kbd_update_kbd_irq s' true in
    let u = kbd_update_kbd_irq-Updated s' true (record {
      status_byte = v.status_byte;
      mode_byte = v.mode_byte;
      pending_small = v.pending_small;
    }) in
    let longer : c.queue.count ≡ s.kbd.common.queue.count + 1 = unfold ps2_queue in ground arith in
    let first : c.queue.data_at c.queue.rptr ≡ (
        if s.kbd.common.queue.count == 0
        then b
        else s.kbd.common.queue.data_at s.kbd.common.queue.rptr) =
      unfold ps2_queue in ground arith in
    let common : t.kbd.common ≡ c = ap (λ (k : Ps2KbdState). k.common) u.same_kbd in
    let count : t.kbd.common.queue.count ≡ s.kbd.common.queue.count + 1 =
      ap (λ (x : Ps2State). x.queue.count) common ∙ longer in
    let some_data : 0 < t.kbd.common.queue.count = omega (arith, count) in
    let level = not (t.kbd.common.queue.count - 1 == 0) in
    let t' : KbdState = record t {
      kbd = record t.kbd { common = (ps2_read_data t.kbd.common).1 };
    } in
    let u1 = kbd_update_kbd_irq-Updated t' false (record {
      status_byte = u.bytes.status_byte;
      mode_byte = u.bytes.mode_byte;
      pending_small = u.bytes.pending_small;
    }) in
    let u2 = kbd_update_kbd_irq-Updated (kbd_update_kbd_irq t' false) level u1.bytes in
    let not_aux : (t.pending == kbd_pending_aux) ≡ false = ground (arith, u.kbd_digit) in
    rw (queued_kbd s b room, read_kbd t not_aux some_data)
      (record {
        full = ground (arith, u.full);
        of_kbd = ground (arith, u.aux);
        line = u.line ∙ kbd_level_lem s.mode t.pending u.kbd_digit;
        value = ap (λ (x : Ps2State). x.queue.data_at x.queue.rptr) common ∙ first;
        left =
            ap (λ (k : Ps2KbdState). k.common.queue.count) (u2.same_kbd ∙ u1.same_kbd)
            ∙ read_count t.kbd.common some_data
            ∙ omega (arith, count);
        full_after =
            ground (arith, u2.full, u1.mouse_digit, u.mouse_digit, count, bit_lt_two s.pending 1);
        mouse_after =
            ground (arith, u2.aux, u1.mouse_digit, u.mouse_digit, count, bit_lt_two s.pending 1);
      })
