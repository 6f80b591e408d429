-- ===== src/Ps2/Tests.antt =====
-- A keyboard with two bytes waiting round the end of the buffer.
use d_risc_v_emulator_tinyem.Base.{
  ℕ, Option, none, some, tst, false, ◌+◌, ◌%◌, ◌<◌, ◌≡◌, ◌⊎◌, refl, arith, true, none, [], ◌∷◌,
}
use d_risc_v_emulator_tinyem.Ps2.{Ps2State, ps2_queue, ps2_read_data}
use d_risc_v_emulator_tinyem.Ps2.Mouse.{
  Ps2MouseState, ps2_mouse_event, stream_motion, streams, send_packets, ps2_mouse_send_packet,
  motion, clip, low_byte, sign_digit, is_zero, packet_head, sent_dz, send_wheel,
}
use d_risc_v_emulator_tinyem.Base.Int.{pos, negsuc, ◌+ℤ◌, ◌-ℤ◌}
use d_risc_v_emulator_tinyem.Ps2.Queue.{
  IsQueue, item, Queued, Taken, ps2_queue-Queued, ps2_read_data-Taken,
}

abbrev waiting : Ps2State
waiting = record {
  queue = record { data_at = λ i. i % 256; rptr = 255; wptr = 1; count = 2 };
  write_cmd = none;
  irq_calls = true ∷ [];
}

waiting-IsQueue : IsQueue waiting.queue
waiting-IsQueue = record { read_fits = omega arith; count_fits = omega arith; write_follows = refl }

ps2_queue-Queued_example :
    ((waiting.queue.count ≡ 256) × (ps2_queue waiting 0x1e ≡ waiting))
    ⊎ ((waiting.queue.count < 256) × Queued waiting (ps2_queue waiting 0x1e) 0x1e 1)
ps2_queue-Queued_example = ps2_queue-Queued waiting 0x1e 1 waiting-IsQueue (omega arith)

ps2_read_data-Taken_example :
    ((waiting.queue.count ≡ 0)
      × (ps2_read_data waiting
          ≡ (waiting.queue.data_at ((waiting.queue.rptr + 255) % 256), waiting)))
    ⊎ (((ps2_read_data waiting).0 ≡ item waiting.queue 0)
        × Taken waiting (ps2_read_data waiting).1 0)
ps2_read_data-Taken_example = ps2_read_data-Taken waiting 0 waiting-IsQueue

-- A mouse in stream mode with a motion of two packets.
abbrev moving : Ps2MouseState
moving = record {
  common = record waiting { queue = record { data_at = λ _. 0; rptr = 0; wptr = 0; count = 0 } };
  mouse_status = 0x20;
  mouse_resolution = 2;
  mouse_sample_rate = 100;
  mouse_wrap = false;
  mouse_type = 3;
  mouse_detect_state = 0;
  mouse_dx = pos 0;
  mouse_dy = pos 0;
  mouse_dz = pos 0;
  mouse_buttons = 0;
}

-- The count of bytes after an event, and byte `i` of the queue.
abbrev bytes_sent : Option Ps2MouseState → ℕ → ℕ × ℕ
bytes_sent none i = (0, 0)
bytes_sent (some s) i = (s.common.queue.count, s.common.queue.data_at i)

moves_left : bytes_sent (ps2_mouse_event moving (negsuc 199) (pos 5) (pos 0) 1) 1 ≡ (8, 129)
unfolding ps2_mouse_event stream_motion streams send_packets ps2_mouse_send_packet motion clip
    low_byte sign_digit is_zero packet_head sent_dz send_wheel ps2_queue ◌+ℤ◌ ◌-ℤ◌ tst
moves_left = refl
