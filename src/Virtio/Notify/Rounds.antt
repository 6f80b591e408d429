-- ===== src/Virtio/Notify/Rounds.antt =====
-- How the loop of `queue_notify` ends.
use d_risc_v_emulator_tinyem.Base.{
  ◌⊎◌, ℕ, zero, suc, ◌+◌, ◌-◌, ◌%◌, ◌^◌, ◌<◌, ◌≡◌, ◌≢◌, ◌∙◌, ap, sym, refl, arith, Bool, true,
  false, ◌==◌, u16, u64, Option, none, some, Bool-cases, inl, inr,
}
use d_risc_v_emulator_tinyem.Virtio.Notify.Keeps.{Keeps, Gives_at, notify_round-Gives}
use d_risc_v_emulator_tinyem.Virtio.Notify.{
  after_round, after_recv, give_chain, DeviceRecv, Result, returns, hangs, last_avail_idx_of,
  next_avail, notify_round, notify_from, queue_notify,
}
use d_risc_v_emulator_tinyem.Virtio.Queue.{VirtioDesc}
use d_risc_v_emulator_tinyem.Virtio.{VirtioDevice, virtio_read16}

pub virtio_read16-lt : {D : Type 0} (s : VirtioDevice D) (addr : ℕ) → virtio_read16 s addr < 2 ^ 16
unfolding virtio_read16
virtio_read16-lt s addr = ground arith

module _ {D : Type 0} (fuel : ℕ) (desc : VirtioDesc) (device_recv : DeviceRecv D)
    (queue_idx : ℕ) where
  -- So many rounds, none of which stops the loop.
  pub data Served : ℕ → VirtioDevice D → VirtioDevice D → Type 0 where
    nothing : {s : VirtioDevice D} → Served 0 s s
    served :
        {n : ℕ} {s s' t : VirtioDevice D}
        → notify_round fuel desc device_recv s queue_idx ≡ some (false, s')
        → Served n s' t
        → Served (suc n) s t

  -- The ends of the loop when `waiting` chains wait: all are served, or the device stops at one,
  -- or does not return from one.
  pub data Ends (waiting avail_idx : ℕ) (s : VirtioDevice D) : Result D → Type 0 where
    all_served :
        (t : VirtioDevice D)
        → Served waiting s t
        → last_avail_idx_of t queue_idx ≡ avail_idx
        → Ends waiting avail_idx s (returns t)
    stopped :
        (k : ℕ) (t t' : VirtioDevice D)
        → k < waiting
        → Served k s t
        → notify_round fuel desc device_recv t queue_idx ≡ some (true, t')
        → Ends waiting avail_idx s (returns t')
    stuck :
        (k : ℕ) (t : VirtioDevice D)
        → k < waiting
        → Served k s t
        → notify_round fuel desc device_recv t queue_idx ≡ none
        → Ends waiting avail_idx s hangs

  -- On a device with `P`, the callback leaves the position in the queue alone.
  unfoldable pub KeepsPosition : (VirtioDevice D → Type 0) → Type 0
  KeepsPosition P =
      (s s' : VirtioDevice D) (stop : Bool) (desc_idx read_size write_size : ℕ)
      → P s
      → device_recv s queue_idx desc_idx read_size write_size ≡ some (stop, s')
      → last_avail_idx_of s' queue_idx ≡ last_avail_idx_of s queue_idx

  next_avail_lem :
      (s : VirtioDevice D)
      → last_avail_idx_of (next_avail s queue_idx) queue_idx
        ≡ u16 (last_avail_idx_of s queue_idx + 1)
  unfolding next_avail
  next_avail_lem s = ground arith

  -- The position in the queue of the device that a round returns.
  position_of : Option (Bool × VirtioDevice D) → ℕ
  position_of none = 0
  position_of (some (_, s)) = last_avail_idx_of s queue_idx

  after_recv_moves :
      (last : ℕ) (o : Option (Bool × VirtioDevice D)) (t : VirtioDevice D)
      → ((stop : Bool) (s' : VirtioDevice D)
          → o ≡ some (stop, s')
          → last_avail_idx_of s' queue_idx ≡ last)
      → after_recv queue_idx o ≡ some (false, t)
      → last_avail_idx_of t queue_idx ≡ u16 (last + 1)
  unfolding after_recv position_of
  after_recv_moves last none t h e = cc
  after_recv_moves last (some (true, s')) t h e = cc
  after_recv_moves last (some (false, s')) t h e =
      sym (ap position_of e) ∙ next_avail_lem s' ∙ ap (λ (x : ℕ). u16 (x + 1)) (h false s' refl)

  give_chain_moves :
      (P : VirtioDevice D → Type 0) (s t : VirtioDevice D) (desc_idx : ℕ)
      (sizes : Option (Option (ℕ × ℕ)))
      → KeepsPosition P
      → P s
      → give_chain device_recv s queue_idx desc_idx sizes ≡ some (false, t)
      → last_avail_idx_of t queue_idx ≡ u16 (last_avail_idx_of s queue_idx + 1)
  unfolding give_chain position_of KeepsPosition
  give_chain_moves P s t desc_idx none keeps p e = cc
  give_chain_moves P s t desc_idx (some none) keeps p e = sym (ap position_of e) ∙ next_avail_lem s
  give_chain_moves P s t desc_idx (some (some (r, w))) keeps p e =
      after_recv_moves _ _ t (λ stop s' h. keeps s s' stop desc_idx r w p h) e

  round_moves :
      (P : VirtioDevice D → Type 0) (s t : VirtioDevice D)
      → KeepsPosition P
      → P s
      → notify_round fuel desc device_recv s queue_idx ≡ some (false, t)
      → last_avail_idx_of t queue_idx ≡ u16 (last_avail_idx_of s queue_idx + 1)
  unfolding notify_round
  round_moves P s t keeps p e = give_chain_moves P s t _ _ keeps p e

  -- One more chain before those that an end is about.
  one_more :
      {waiting avail_idx : ℕ} {s s' : VirtioDevice D} {r : Result D}
      → notify_round fuel desc device_recv s queue_idx ≡ some (false, s')
      → Ends waiting avail_idx s' r
      → Ends (suc waiting) avail_idx s r
  one_more e (all_served t h k) = all_served t (served e h) k
  one_more e (stopped k t t' b h f) = stopped (suc k) t t' (omega arith) (served e h) f
  one_more e (stuck k t b h f) = stuck (suc k) t (omega arith) (served e h) f

  -- How many chains wait.
  pub waiting_of : ℕ → VirtioDevice D → ℕ
  waiting_of avail_idx s = (avail_idx + 2 ^ 16 - last_avail_idx_of s queue_idx) % 2 ^ 16

  -- A chain fewer waits after a round.
  waiting_after :
      (avail_idx : ℕ) (s t : VirtioDevice D)
      → avail_idx < 2 ^ 16
      → last_avail_idx_of s queue_idx < 2 ^ 16
      → last_avail_idx_of s queue_idx ≢ avail_idx
      → last_avail_idx_of t queue_idx ≡ u16 (last_avail_idx_of s queue_idx + 1)
      → waiting_of avail_idx s ≡ suc (waiting_of avail_idx t)
  unfolding waiting_of
  waiting_after avail_idx s t ha hl ne e = rw e (ground arith)

  -- What the next round is.
  round-cases :
      (o : Option (Bool × VirtioDevice D))
      → (o ≡ none)
        ⊎ (((t : VirtioDevice D) × (o ≡ some (true, t)))
            ⊎ ((t : VirtioDevice D) × (o ≡ some (false, t))))
  round-cases none = inl refl
  round-cases (some (true, t)) = inr (inl (t, refl))
  round-cases (some (false, t)) = inr (inr (t, refl))

  no_wait :
      (avail_idx : ℕ) (s : VirtioDevice D)
      → avail_idx < 2 ^ 16
      → last_avail_idx_of s queue_idx ≡ avail_idx
      → waiting_of avail_idx s ≡ 0
  unfolding waiting_of
  no_wait avail_idx s h e = omega arith

  some_wait :
      (avail_idx : ℕ) (s : VirtioDevice D)
      → avail_idx < 2 ^ 16
      → last_avail_idx_of s queue_idx < 2 ^ 16
      → last_avail_idx_of s queue_idx ≢ avail_idx
      → 0 < waiting_of avail_idx s
  unfolding waiting_of
  some_wait avail_idx s h k e = ground arith

  notify_from-Ends :
      (P : VirtioDevice D → Type 0) (n avail_idx : ℕ) (s : VirtioDevice D)
      → KeepsPosition P
      → Keeps P device_recv queue_idx
      → P s
      → avail_idx < 2 ^ 16
      → last_avail_idx_of s queue_idx < 2 ^ 16
      → waiting_of avail_idx s < n
      → Ends
          (waiting_of avail_idx s)
          avail_idx
          s
          (notify_from n fuel desc device_recv s queue_idx avail_idx)
  unfolding notify_from after_round
  notify_from-Ends P zero avail_idx s keeps kp p ha hl h = elim h [ ]
  notify_from-Ends P (suc n) avail_idx s keeps kp p ha hl h =
      elim (Bool-cases (last_avail_idx_of s queue_idx == avail_idx)) [
        | inl e ↦
            let same : last_avail_idx_of s queue_idx ≡ avail_idx = ground arith in
            rw (e, notify_from, no_wait avail_idx s ha same) (all_served s nothing same)
        | inr e ↦
            let other : last_avail_idx_of s queue_idx ≢ avail_idx = ground arith in
            rw (e, notify_from)
              (elim (round-cases (notify_round fuel desc device_recv s queue_idx)) [
                | inl stuck_at ↦
                    rw stuck_at (stuck 0 s (some_wait avail_idx s ha hl other) nothing stuck_at)
                | inr (inl (t, stop)) ↦
                    rw stop (stopped 0 s t (some_wait avail_idx s ha hl other) nothing stop)
                | inr (inr (t, more)) ↦
                    let moved = round_moves P s t keeps p more in
                    let fewer = waiting_after avail_idx s t ha hl other moved in
                    rw (more, fewer)
                      (one_more more (
                        notify_from-Ends P n avail_idx t keeps kp
                          (Gives_at P (notify_round-Gives P device_recv queue_idx kp fuel desc s p)
                            more)
                          ha (omega arith) (omega arith)))
              ])
      ]

  waiting_of-lt : (avail_idx : ℕ) (s : VirtioDevice D) → waiting_of avail_idx s < 2 ^ 16
  unfolding waiting_of
  waiting_of-lt avail_idx s = omega arith

  -- If the device's callback keeps a property of the device, and leaves the position in the queue
  -- alone where the property holds, the loop of `queue_notify` never runs out of its 65,536 rounds
  -- on a device with the property whose queue is not left to `manual_recv`. With `n` chains between
  -- the position and the driver's index, modulo 65,536, it returns after exactly `n` rounds, with
  -- the position at that index, or it ends earlier, when the device refuses a chain or a round does
  -- not return.
  pub queue_notify-Ends :
      (P : VirtioDevice D → Type 0) (s : VirtioDevice D)
      → KeepsPosition P
      → Keeps P device_recv queue_idx
      → P s
      → last_avail_idx_of s queue_idx < 2 ^ 16
      → (s.queue queue_idx).manual_recv ≡ false
      → let avail_idx = virtio_read16 s (u64 ((s.queue queue_idx).avail_addr + 2)) in
        Ends (waiting_of avail_idx s) avail_idx s (queue_notify fuel desc device_recv s queue_idx)
  unfolding queue_notify
  queue_notify-Ends P s keeps kp p hl auto =
      rw (auto, queue_notify)
        (notify_from-Ends P (2 ^ 16) _ s keeps kp p (virtio_read16-lt s _) hl (waiting_of-lt _ s))
