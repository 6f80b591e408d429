-- ===== src/Virtio/Notify/Keeps.antt =====
-- What a notification keeps if the device keeps it.
use d_risc_v_emulator_tinyem.Base.{
  ap, ◌^◌, ℕ, zero, suc, ◌≡◌, Bool, true, false, ◌==◌, inl, inr, Option, none, some, Bool-cases,
}
use d_risc_v_emulator_tinyem.Virtio.Notify.{
  after_round, DeviceRecv, Result, returns, hangs, rounds_over, last_avail_idx_of, next_avail,
  after_recv, give_chain, notify_round, notify_from, queue_notify,
}
use d_risc_v_emulator_tinyem.Virtio.Queue.{VirtioDesc}
use d_risc_v_emulator_tinyem.Virtio.{VirtioDevice}
use mathlib.Core.Option.{some-injective}
use mathlib.Core.Path.{subst}

module _ {D : Type 0} (P : VirtioDevice D → Type 0) where
  -- The device that a handler returns, if it returns.
  pub data Returned : Result D → Type 0 where
    returned : {s : VirtioDevice D} → P s → Returned (returns s)
    hung : Returned hangs
    over : Returned rounds_over

  -- The device that a call returns, if it returns.
  pub data Gives : Option (Bool × VirtioDevice D) → Type 0 where
    gives : {stop : Bool} {s : VirtioDevice D} → P s → Gives (some (stop, s))
    gives_none : Gives none

  pub Gives_at :
      {o : Option (Bool × VirtioDevice D)} {stop : Bool} {t : VirtioDevice D}
      → Gives o
      → o ≡ some (stop, t)
      → P t
  Gives_at {t = t} (gives {stop = b} {s = s} p) e =
      subst P (ap (λ (r : Bool × VirtioDevice D). let (_, u) = r in u) (some-injective _ _ e)) p
  Gives_at gives_none e = cc

  -- The device's callback and the step to the next chain keep `P` for a queue.
  pub record Keeps (device_recv : DeviceRecv D) (queue_idx : ℕ) : Type 0 where
    pub recv_keeps :
        (s : VirtioDevice D) (desc_idx read_size write_size : ℕ)
        → P s
        → Gives (device_recv s queue_idx desc_idx read_size write_size)
    pub next_keeps : (s : VirtioDevice D) → P s → P (next_avail s queue_idx)

  module _ (device_recv : DeviceRecv D) (queue_idx : ℕ) (k : Keeps device_recv queue_idx) where
    after_recv-Gives :
        (o : Option (Bool × VirtioDevice D)) → Gives o → Gives (after_recv queue_idx o)
    unfolding after_recv
    after_recv-Gives _ gives_none = gives_none
    after_recv-Gives _ (gives {stop = true} {s = s} p) = gives p
    after_recv-Gives _ (gives {stop = false} {s = s} p) = gives (k.next_keeps s p)

    give_chain-Gives :
        (s : VirtioDevice D) (desc_idx : ℕ) (sizes : Option (Option (ℕ × ℕ)))
        → P s
        → Gives (give_chain device_recv s queue_idx desc_idx sizes)
    unfolding give_chain
    give_chain-Gives s desc_idx none p = gives_none
    give_chain-Gives s desc_idx (some none) p = gives (k.next_keeps s p)
    give_chain-Gives s desc_idx (some (some (r, w))) p =
        after_recv-Gives _ (k.recv_keeps s desc_idx r w p)

    pub notify_round-Gives :
        (fuel : ℕ) (desc : VirtioDesc) (s : VirtioDevice D)
        → P s
        → Gives (notify_round fuel desc device_recv s queue_idx)
    unfolding notify_round
    notify_round-Gives fuel desc s p = give_chain-Gives s _ _ p

    -- What the rest of the loop does with a round.
    after_round-Returned :
        (more : VirtioDevice D → Result D) (o : Option (Bool × VirtioDevice D))
        → ((s : VirtioDevice D) → P s → Returned (more s))
        → Gives o
        → Returned (after_round more o)
    unfolding after_round
    after_round-Returned more _ h gives_none = hung
    after_round-Returned more _ h (gives {stop = true} p) = returned p
    after_round-Returned more _ h (gives {stop = false} {s = s} p) = h s p

    notify_from-Returned :
        (n fuel : ℕ) (desc : VirtioDesc) (s : VirtioDevice D) (avail_idx : ℕ)
        → P s
        → Returned (notify_from n fuel desc device_recv s queue_idx avail_idx)
    unfolding notify_from
    notify_from-Returned zero fuel desc s avail_idx p = over
    notify_from-Returned (suc n) fuel desc s avail_idx p =
        elim (Bool-cases (last_avail_idx_of s queue_idx == avail_idx)) [
          | inl e ↦ rw (e, notify_from) (returned p)
          | inr e ↦
              rw (e, notify_from)
                (after_round-Returned _ _ (λ t q. notify_from-Returned n fuel desc t avail_idx q)
                  (notify_round-Gives fuel desc s p))
        ]

    pub queue_notify-Returned :
        (fuel : ℕ) (desc : VirtioDesc) (s : VirtioDevice D)
        → P s
        → Returned (queue_notify fuel desc device_recv s queue_idx)
    unfolding queue_notify
    queue_notify-Returned fuel desc s p = elim (Bool-cases (s.queue queue_idx).manual_recv) [
      | inl e ↦ rw (e, queue_notify) (returned p)
      | inr e ↦ rw (e, queue_notify) (notify_from-Returned (2 ^ 16) fuel desc s _ p)
    ]
