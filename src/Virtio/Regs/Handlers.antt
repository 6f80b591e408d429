-- ===== src/Virtio/Regs/Handlers.antt =====
-- Every access of the guest leaves a valid device.
use d_risc_v_emulator_tinyem.Base.{
  Mem, ℕ, ◌+◌, ◌^◌, ◌<◌, ◌≡◌, refl, arith, Bool, true, false, ltb, ltb→lt, if◌then◌else◌, bit_and,
  u16, Option, none, some, Bool-cases, inl, inr,
}
use d_risc_v_emulator_tinyem.Virtio.Config.{virtio_config_write}
use d_risc_v_emulator_tinyem.Virtio.Notify.Keeps.{Returned, returned, Gives, queue_notify-Returned}
use d_risc_v_emulator_tinyem.Virtio.Notify.{
  DeviceRecv, Result, returns, last_avail_idx_of, next_avail, queue_notify,
}
use d_risc_v_emulator_tinyem.Virtio.Queue.{VirtioDesc}
use d_risc_v_emulator_tinyem.Virtio.Regs.Keeps.{
  if-IsDevice, mmio_set_register-IsDevice, pci_set_register-IsDevice,
}
use d_risc_v_emulator_tinyem.Virtio.Regs.Mmio.{virtio_mmio_write}
use d_risc_v_emulator_tinyem.Virtio.Regs.Pci.{with_device, virtio_pci_read, virtio_pci_write}
use d_risc_v_emulator_tinyem.Virtio.Valid.{IsDevice, put_queue-IsDevice}
use d_risc_v_emulator_tinyem.Virtio.{VirtioDevice, max_queue}

-- A kind of device, whose callbacks keep the common part valid.
pub record IsKind {D : Type 0} (device_recv : DeviceRecv D)
    (config_write : VirtioDevice D → VirtioDevice D) : Type 0 where
  pub recv_valid :
      (s : VirtioDevice D) (queue_idx desc_idx read_size write_size : ℕ)
      → IsDevice s
      → Gives IsDevice (device_recv s queue_idx desc_idx read_size write_size)
  pub config_valid : (s : VirtioDevice D) → IsDevice s → IsDevice (config_write s)

module _ {D : Type 0} where
  pub next_avail-IsDevice :
      (s : VirtioDevice D) (queue_idx : ℕ)
      → queue_idx < max_queue
      → IsDevice s
      → IsDevice (next_avail s queue_idx)
  unfolding next_avail
  next_avail-IsDevice s queue_idx b v =
      let q = v.queues queue_idx b in
      put_queue-IsDevice s queue_idx _ v (record {
        ready_fits = q.ready_fits;
        num_power = q.num_power;
        num_fits = q.num_fits;
        last_fits = omega arith;
        desc_fits = q.desc_fits;
        avail_fits = q.avail_fits;
        used_fits = q.used_fits;
      })

  pub next_avail-last :
      (s : VirtioDevice D) (queue_idx : ℕ)
      → last_avail_idx_of (next_avail s queue_idx) queue_idx
        ≡ u16 (last_avail_idx_of s queue_idx + 1)
  unfolding next_avail
  next_avail-last s queue_idx = ground arith

  with_config-IsDevice :
      (s : VirtioDevice D) (m : Mem) → IsDevice s → IsDevice {D = D} (record s { config_space = m })
  with_config-IsDevice s m v = record {
    paged = v.paged;
    sel_bound = v.sel_bound;
    queues = v.queues;
    line = v.line;
  }

  -- A read of the PCI transport, which may clear the interrupt status, leaves a valid device.
  pub data ReadIsDevice : Option (ℕ × VirtioDevice D) → Type 0 where
    aborts : ReadIsDevice none
    reads : (val : ℕ) (t : VirtioDevice D) → IsDevice t → ReadIsDevice (some (val, t))

  if-Read :
      (c : Bool) {q r : Option (ℕ × VirtioDevice D)}
      → ReadIsDevice q
      → ReadIsDevice r
      → ReadIsDevice (if c then q else r)
  if-Read true h k = h
  if-Read false h k = k

  config-Read : (s : VirtioDevice D) (o : Option ℕ) → IsDevice s → ReadIsDevice (with_device s o)
  config-Read s none v = aborts
  config-Read s (some val) v = reads val s v

  pub virtio_pci_read-IsDevice :
      (s : VirtioDevice D) (offset1 size_log2 : ℕ)
      → IsDevice s
      → ReadIsDevice (virtio_pci_read s offset1 size_log2)
  unfolding virtio_pci_read
  virtio_pci_read-IsDevice s offset1 size_log2 v =
      let cleared : IsDevice {D = D} (record s { int_status = 0; irq_level = 0 }) = record {
        paged = v.paged;
        sel_bound = v.sel_bound;
        queues = v.queues;
        line = refl;
      } in
      let same = λ (val : ℕ). reads val s v in
      let config = λ (o : Option ℕ). config-Read s o v in
      let clear = reads s.int_status _ cleared in search (if-Read, config, same, clear) depth 9

  if-Returned :
      (c : Bool) {q r : Result D}
      → Returned IsDevice q
      → Returned IsDevice r
      → Returned IsDevice (if c then q else r)
  if-Returned true h k = h
  if-Returned false h k = k

module _ {D : Type 0} (device_recv : DeviceRecv D) (config_write : VirtioDevice D → VirtioDevice D)
    (kind : IsKind device_recv config_write) where
  virtio_config_write-IsDevice :
      (s : VirtioDevice D) (offset val size_log2 : ℕ)
      → IsDevice s
      → IsDevice (virtio_config_write config_write s offset val size_log2)
  unfolding virtio_config_write
  virtio_config_write-IsDevice s offset val size_log2 v =
      search (if-IsDevice, kind.config_valid, with_config-IsDevice) depth 12

  notify_if-Returned :
      (fuel : ℕ) (desc : VirtioDesc) (s : VirtioDevice D) (val : ℕ)
      → IsDevice s
      → Returned IsDevice
          (if ltb val max_queue then queue_notify fuel desc device_recv s val else returns s)
  notify_if-Returned fuel desc s val v = elim (Bool-cases (ltb val max_queue)) [
    | inl e ↦ rw e (
        queue_notify-Returned IsDevice device_recv val
          (record {
            recv_keeps = λ t desc_idx r w p. kind.recv_valid t val desc_idx r w p;
            next_keeps = λ t p. next_avail-IsDevice t val (ltb→lt val max_queue e) p;
          })
          fuel desc s v)
    | inr e ↦ rw e (returned v)
  ]

  -- For a kind of device whose callbacks keep the common part valid, a write of the guest to the
  -- memory-mapped registers or to the configuration space, notifications included, leaves a valid
  -- device if it returns: the selected queue is one of the eight, each queue has registers of the
  -- right width and a power of two as its size, and the interrupt line is up exactly while the
  -- interrupt status is not 0. The value written is a 32-bit word.
  pub virtio_mmio_write-IsDevice :
      (fuel : ℕ) (desc : VirtioDesc) (s : VirtioDevice D) (offset val size_log2 : ℕ)
      → val < 2 ^ 32
      → IsDevice s
      → Returned IsDevice
          (virtio_mmio_write fuel desc device_recv config_write s offset val size_log2)
  unfolding virtio_mmio_write
  virtio_mmio_write-IsDevice fuel desc s offset val size_log2 h v =
      let notified = notify_if-Returned fuel desc s val v in
      let set : Returned IsDevice (returns _) =
        returned (mmio_set_register-IsDevice s offset val h v) in
      let same : Returned IsDevice (returns _) = returned v in
      search (if-Returned, returned, virtio_config_write-IsDevice) depth 9

  -- The same on PCI.
  pub virtio_pci_write-IsDevice :
      (fuel : ℕ) (desc : VirtioDesc) (s : VirtioDevice D) (offset1 val size_log2 : ℕ)
      → val < 2 ^ 32
      → IsDevice s
      → Returned IsDevice
          (virtio_pci_write fuel desc device_recv config_write s offset1 val size_log2)
  unfolding virtio_pci_write
  virtio_pci_write-IsDevice fuel desc s offset1 val size_log2 h v =
      let notified = notify_if-Returned fuel desc s val v in
      let set : Returned IsDevice (returns _) =
        returned (pci_set_register-IsDevice s (bit_and offset1 0xfff) val size_log2 h v) in
      let same : Returned IsDevice (returns _) = returned v in
      search (if-Returned, returned, virtio_config_write-IsDevice) depth 9
