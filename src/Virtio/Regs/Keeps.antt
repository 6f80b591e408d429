-- ===== src/Virtio/Regs/Keeps.antt =====
-- The registers keep a device valid.
use d_risc_v_emulator_tinyem.Base.{ℕ, ◌^◌, ◌<◌, Bool, true, false, if◌then◌else◌}
use d_risc_v_emulator_tinyem.Virtio.Regs.Mmio.{mmio_set_register}
use d_risc_v_emulator_tinyem.Virtio.Regs.Pci.{pci_set_word, pci_set_half, pci_set_register}
use d_risc_v_emulator_tinyem.Virtio.Regs.{
  selected, set_desc_low, set_desc_high, set_avail_low, set_avail_high, set_used_low, set_used_high,
}
use d_risc_v_emulator_tinyem.Virtio.Valid.{
  IsDevice, set_low32-lt, set_high32-lt, put_queue-IsDevice, select_queue-IsDevice,
  set_queue_num-IsDevice, set_queue_ready-IsDevice, set_device_status-IsDevice,
  interrupt_ack-IsDevice,
}
use d_risc_v_emulator_tinyem.Virtio.{put_queue, VirtioDevice}

module _ {D : Type 0} where
  pub if-IsDevice :
      (c : Bool) {s t : VirtioDevice D} → IsDevice s → IsDevice t → IsDevice (if c then s else t)
  if-IsDevice true h k = h
  if-IsDevice false h k = k

  set_features_sel-IsDevice :
      (s : VirtioDevice D) (val : ℕ)
      → IsDevice s
      → IsDevice {D = D} (record s { device_features_sel = val })
  set_features_sel-IsDevice s val v = record {
    paged = v.paged;
    sel_bound = v.sel_bound;
    queues = v.queues;
    line = v.line;
  }

  -- The selected queue with other addresses.
  set_addrs-IsDevice :
      (s : VirtioDevice D) (d a u : ℕ)
      → d < 2 ^ 64
      → a < 2 ^ 64
      → u < 2 ^ 64
      → IsDevice s
      → IsDevice (
          put_queue s s.queue_sel
            (record (selected s) { desc_addr = d; avail_addr = a; used_addr = u }))
  set_addrs-IsDevice s d a u hd ha hu v =
      let q = v.queues s.queue_sel v.sel_bound in
      put_queue-IsDevice s s.queue_sel _ v (record {
        ready_fits = q.ready_fits;
        num_power = q.num_power;
        num_fits = q.num_fits;
        last_fits = q.last_fits;
        desc_fits = hd;
        avail_fits = ha;
        used_fits = hu;
      })

  -- The six halves of the addresses.
  record HalvesKeep (s : VirtioDevice D) (val : ℕ) : Type 0 where
    desc_low : IsDevice (set_desc_low s val)
    desc_high : IsDevice (set_desc_high s val)
    avail_low : IsDevice (set_avail_low s val)
    avail_high : IsDevice (set_avail_high s val)
    used_low : IsDevice (set_used_low s val)
    used_high : IsDevice (set_used_high s val)

  halves_keep : (s : VirtioDevice D) (val : ℕ) → val < 2 ^ 32 → IsDevice s → HalvesKeep s val
  halves_keep s val h v =
      let q = v.queues s.queue_sel v.sel_bound in
      record {
        desc_low = set_addrs-IsDevice s _ _ _ (set_low32-lt _ val h) q.avail_fits q.used_fits v;
        desc_high = set_addrs-IsDevice s _ _ _ (set_high32-lt _ val h) q.avail_fits q.used_fits v;
        avail_low = set_addrs-IsDevice s _ _ _ q.desc_fits (set_low32-lt _ val h) q.used_fits v;
        avail_high = set_addrs-IsDevice s _ _ _ q.desc_fits (set_high32-lt _ val h) q.used_fits v;
        used_low = set_addrs-IsDevice s _ _ _ q.desc_fits q.avail_fits (set_low32-lt _ val h) v;
        used_high = set_addrs-IsDevice s _ _ _ q.desc_fits q.avail_fits (set_high32-lt _ val h) v;
      }

  pub mmio_set_register-IsDevice :
      (s : VirtioDevice D) (offset val : ℕ)
      → val < 2 ^ 32
      → IsDevice s
      → IsDevice (mmio_set_register s offset val)
  unfolding mmio_set_register
  mmio_set_register-IsDevice s offset val h v =
      let k = halves_keep s val h v in
      let a = k.desc_low in
      let b = k.desc_high in
      let c = k.avail_low in
      let d = k.avail_high in
      let e = k.used_low in
      let f = k.used_high in
      let g = set_queue_num-IsDevice s val h v in
      search
        (
          if-IsDevice, set_features_sel-IsDevice, select_queue-IsDevice, set_queue_ready-IsDevice,
          set_device_status-IsDevice, interrupt_ack-IsDevice,
        )
        depth 18

  pub pci_set_register-IsDevice :
      (s : VirtioDevice D) (offset val size_log2 : ℕ)
      → val < 2 ^ 32
      → IsDevice s
      → IsDevice (pci_set_register s offset val size_log2)
  unfolding pci_set_register pci_set_word pci_set_half
  pci_set_register-IsDevice s offset val size_log2 h v =
      let k = halves_keep s val h v in
      let a = k.desc_low in
      let b = k.desc_high in
      let c = k.avail_low in
      let d = k.avail_high in
      let e = k.used_low in
      let f = k.used_high in
      let g = set_queue_num-IsDevice s val h v in
      search
        (
          if-IsDevice, set_features_sel-IsDevice, select_queue-IsDevice, set_queue_ready-IsDevice,
          set_device_status-IsDevice,
        )
        depth 18
