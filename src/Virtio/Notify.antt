-- ===== src/Virtio/Notify.antt =====
-- virtio.c: `queue_notify`, which hands the waiting chains of a queue to the device.
-- `device_recv` is a parameter: whether its result is negative and the device after it, or `none`
-- if it does not return.
pub mod Rounds
pub mod Keeps
use d_risc_v_emulator_tinyem.Base.{
  ℕ, zero, suc, ◌+◌, ◌-◌, ◌*◌, ◌%◌, ◌^◌, bit_and, Bool, true, false, ◌==◌, u16, u32, u64, Option,
  none, some,
}
use d_risc_v_emulator_tinyem.Virtio.Queue.{VirtioDesc, get_desc_rw_size}
use d_risc_v_emulator_tinyem.Virtio.{VirtioDevice, put_queue, virtio_read16}

abbrev pub DeviceRecv : Type 0 → Type 0
DeviceRecv D = VirtioDevice D → ℕ → ℕ → ℕ → ℕ → Option (Bool × VirtioDevice D)

-- How a handler ends: it returns, or a loop over a chain or `device_recv` does not, or the loop of
-- `queue_notify` has used its rounds up.
pub data Result (D : Type 0) : Type 0 where
  returns : VirtioDevice D → Result D
  hangs : Result D
  rounds_over : Result D

module _ {D : Type 0} where
  abbrev pub last_avail_idx_of : VirtioDevice D → ℕ → ℕ
  last_avail_idx_of s queue_idx = (s.queue queue_idx).last_avail_idx

  -- `qs->last_avail_idx++`
  unfoldable pub next_avail : VirtioDevice D → ℕ → VirtioDevice D
  next_avail s queue_idx =
      let qs = s.queue queue_idx in
      put_queue s queue_idx (record qs { last_avail_idx = u16 (qs.last_avail_idx + 1) })

  -- The first descriptor of the chain whose turn it is.
  unfoldable pub avail_desc : VirtioDevice D → ℕ → ℕ
  avail_desc s queue_idx =
      let qs = s.queue queue_idx in
      let slot = u32 (bit_and qs.last_avail_idx (u32 (qs.num + 2 ^ 32 - 1)) * 2) in
      virtio_read16 s (u64 (qs.avail_addr + 4 + slot))

  -- What the loop does with the result of `device_recv`.
  unfoldable pub after_recv : ℕ → Option (Bool × VirtioDevice D) → Option (Bool × VirtioDevice D)
  after_recv queue_idx none = none
  after_recv queue_idx (some (true, s')) = some (true, s')
  after_recv queue_idx (some (false, s')) = some (false, next_avail s' queue_idx)

  -- What it does with the sizes of the chain.
  unfoldable pub give_chain :
      DeviceRecv D
      → VirtioDevice D
      → ℕ
      → ℕ
      → Option (Option (ℕ × ℕ))
      → Option (Bool × VirtioDevice D)
  give_chain device_recv s queue_idx desc_idx none = none
  give_chain device_recv s queue_idx desc_idx (some none) = some (false, next_avail s queue_idx)
  give_chain device_recv s queue_idx desc_idx (some (some (read_size, write_size))) =
      after_recv queue_idx (device_recv s queue_idx desc_idx read_size write_size)

  -- One round: whether the loop stops, and the device after it.
  unfoldable pub notify_round :
      ℕ → VirtioDesc → DeviceRecv D → VirtioDevice D → ℕ → Option (Bool × VirtioDevice D)
  notify_round fuel desc device_recv s queue_idx =
      let desc_idx = avail_desc s queue_idx in
      give_chain device_recv s queue_idx desc_idx (get_desc_rw_size fuel desc s queue_idx desc_idx)

  -- How the loop goes on after a round.
  unfoldable pub after_round :
      (VirtioDevice D → Result D) → Option (Bool × VirtioDevice D) → Result D
  after_round more none = hangs
  after_round more (some (true, s)) = returns s
  after_round more (some (false, s)) = more s

  unfoldable pub notify_from : ℕ → ℕ → VirtioDesc → DeviceRecv D → VirtioDevice D → ℕ → ℕ → Result D
  notify_from zero fuel desc device_recv s queue_idx avail_idx = rounds_over
  notify_from (suc n) fuel desc device_recv s queue_idx avail_idx =
      elim (last_avail_idx_of s queue_idx == avail_idx) [
        | true ↦ returns s
        | false ↦
            after_round (λ t. notify_from n fuel desc device_recv t queue_idx avail_idx)
              (notify_round fuel desc device_recv s queue_idx)
      ]

  unfoldable pub queue_notify : ℕ → VirtioDesc → DeviceRecv D → VirtioDevice D → ℕ → Result D
  queue_notify fuel desc device_recv s queue_idx =
      let qs = s.queue queue_idx in
      let avail_idx = virtio_read16 s (u64 (qs.avail_addr + 2)) in
      elim qs.manual_recv [
        | true ↦ returns s
        | false ↦ notify_from (2 ^ 16) fuel desc device_recv s queue_idx avail_idx
      ]
