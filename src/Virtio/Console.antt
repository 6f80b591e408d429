-- ===== src/Virtio/Console.antt =====
-- virtio.c: the console device and the events of the input device.
-- What is written to the host's console is a list of bytes in the device's state. `frame` is what
-- the caller's frame and fresh memory hold.
pub mod Kind
use d_risc_v_emulator_tinyem.Base.{
  ℕ, zero, suc, ◌+◌, ◌-◌, ◌%◌, ◌^◌, Bool, true, false, ◌==◌, if◌then◌else◌, u16, u64, Option, none,
  some, Mem, List, [], ◌∷◌, ◌++◌,
}
use d_risc_v_emulator_tinyem.Cutils.{put_le16, put_le32}
use d_risc_v_emulator_tinyem.Iomem.{PhysMemoryMap}
use d_risc_v_emulator_tinyem.Virtio.Init.{virtio_init}
use d_risc_v_emulator_tinyem.Virtio.Notify.{DeviceRecv, last_avail_idx_of, next_avail, avail_desc}
use d_risc_v_emulator_tinyem.Virtio.Queue.{
  VirtioDesc, get_desc_rw_size, memcpy_from_queue, memcpy_to_queue,
}
use d_risc_v_emulator_tinyem.Virtio.{
  VirtioDevice, QueueState, put_queue, virtio_read16, virtio_consume_desc,
  virtio_config_change_notify, times,
}

-- The first `n` bytes of a buffer.
unfoldable pub bytes_of : ℕ → Mem → ℕ → List ℕ
bytes_of zero buf at = []
bytes_of (suc n) buf at = buf at ∷ bytes_of n buf (at + 1)

abbrev pub VirtioConsoleDevice : Type 0
VirtioConsoleDevice = VirtioDevice (List ℕ)

-- `write_data` and the consumed chain, after the copy out of the chain.
unfoldable pub written :
    ℕ → ℕ → ℕ → Option (Bool × VirtioConsoleDevice × Mem) → Option (Bool × VirtioConsoleDevice)
written queue_idx desc_idx read_size none = none
written queue_idx desc_idx read_size (some (_, s, buf)) =
    let s1 : VirtioConsoleDevice = record s {
      device = s.device ++ bytes_of (times read_size) buf 0;
    } in
    some (false, virtio_consume_desc s1 queue_idx desc_idx 0)

unfoldable pub virtio_console_recv_request : ℕ → VirtioDesc → DeviceRecv (List ℕ)
virtio_console_recv_request fuel frame s queue_idx desc_idx read_size write_size =
    elim (queue_idx == 1) [
      | false ↦ some (false, s)
      | true ↦
          written queue_idx desc_idx read_size
            (memcpy_from_queue fuel frame s frame queue_idx desc_idx 0 read_size)
    ]

abbrev pub write_part_of : Option (Option (ℕ × ℕ)) → Option ℕ
write_part_of none = none
write_part_of (some none) = some 0
write_part_of (some (some (_, write_size))) = some write_size

-- The 8 bytes of an event.
abbrev pub event_bytes : Mem → ℕ → ℕ → ℕ → Mem
event_bytes frame event_type code value =
    put_le32 (put_le16 (put_le16 frame 0 event_type) 2 code) 4 value

module _ {D : Type 0} where
  -- The driver's index of the queue of messages to the guest.
  unfoldable pub recv_avail_idx : VirtioDevice D → ℕ
  recv_avail_idx s = virtio_read16 s (u64 ((s.queue 0).avail_addr + 2))

  unfoldable pub virtio_console_can_write_data : VirtioDevice D → Bool
  virtio_console_can_write_data s =
      if (s.queue 0).ready == 0
      then false
      else if last_avail_idx_of s 0 == recv_avail_idx s
      then false
      else true

  unfoldable pub virtio_console_get_write_len : ℕ → VirtioDesc → VirtioDevice D → Option ℕ
  virtio_console_get_write_len fuel frame s =
      if (s.queue 0).ready == 0
      then some 0
      else if last_avail_idx_of s 0 == recv_avail_idx s
      then some 0
      else write_part_of (get_desc_rw_size fuel frame s 0 (avail_desc s 0))

  -- A message is in the chain: the chain is consumed, and the position moves on.
  unfoldable pub delivered :
      ℕ → ℕ → ℕ → Option (Bool × VirtioDevice D × Mem) → Option (ℕ × VirtioDevice D)
  delivered desc_idx len ret none = none
  delivered desc_idx len ret (some (_, s, _)) =
      some (ret, next_avail (virtio_consume_desc s 0 desc_idx len) 0)

  -- The number that the function returns, and the device after it.
  unfoldable pub virtio_console_write_data :
      ℕ → VirtioDesc → VirtioDevice D → Mem → ℕ → Option (ℕ × VirtioDevice D)
  virtio_console_write_data fuel frame s buf buf_len =
      let desc_idx = avail_desc s 0 in
      if (s.queue 0).ready == 0
      then some (0, s)
      else if last_avail_idx_of s 0 == recv_avail_idx s
      then some (0, s)
      else delivered desc_idx buf_len buf_len
          (memcpy_to_queue fuel frame s 0 desc_idx 0 buf buf_len)

  unfoldable pub virtio_console_resize_event : VirtioDevice D → ℕ → ℕ → VirtioDevice D
  virtio_console_resize_event s width height =
      virtio_config_change_notify (record s {
        config_space = put_le16 (put_le16 s.config_space 0 (u16 width)) 2 (u16 height);
      })

  -- The result 2^32 - 1 stands for -1.
  unfoldable pub virtio_input_queue_event :
      ℕ → VirtioDesc → VirtioDevice D → ℕ → ℕ → ℕ → Option (ℕ × VirtioDevice D)
  virtio_input_queue_event fuel frame s event_type code value =
      let desc_idx = avail_desc s 0 in
      if (s.queue 0).ready == 0
      then some (2 ^ 32 - 1, s)
      else if last_avail_idx_of s 0 == recv_avail_idx s
      then some (2 ^ 32 - 1, s)
      else delivered desc_idx 8 0
          (memcpy_to_queue fuel frame s 0 desc_idx 0 (event_bytes frame event_type code value) 8)

abbrev pub first_manual : VirtioConsoleDevice → VirtioConsoleDevice
first_manual s = put_queue s 0 (record (s.queue 0) { manual_recv = true })

unfoldable pub virtio_console_init : PhysMemoryMap → Mem → ℕ → ℕ → Option VirtioConsoleDevice
virtio_console_init mem_map mem addr opaque = elim (virtio_init mem_map mem addr opaque 3 4 []) [
  | none ↦ none
  | some s ↦ some (first_manual (record s { device_features = 2 ^ 0 }))
]
