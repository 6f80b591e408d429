-- ===== src/Virtio/Regs/Pci.antt =====
-- virtio.c: the PCI transport.
use d_risc_v_emulator_tinyem.Base.{
  ℕ, ◌/◌, ◌^◌, bit_and, ◌&&◌, ltb, ◌==◌, if◌then◌else◌, u32, Option, none, some,
}
use d_risc_v_emulator_tinyem.Virtio.Config.{virtio_config_read, virtio_config_write}
use d_risc_v_emulator_tinyem.Virtio.Notify.{DeviceRecv, Result, returns, queue_notify}
use d_risc_v_emulator_tinyem.Virtio.Queue.{VirtioDesc}
use d_risc_v_emulator_tinyem.Virtio.Regs.{
  selected, features_word, select_queue, set_queue_num, set_queue_ready, set_device_status,
  set_desc_low, set_desc_high, set_avail_low, set_avail_high, set_used_low, set_used_high,
}
use d_risc_v_emulator_tinyem.Virtio.{VirtioDevice, set_irq, max_queue, max_queue_num}

abbrev pub virtio_pci_device_feature_sel : ℕ
virtio_pci_device_feature_sel = 0x0

abbrev pub virtio_pci_device_feature : ℕ
virtio_pci_device_feature = 0x4

abbrev pub virtio_pci_num_queues : ℕ
virtio_pci_num_queues = 0x12

abbrev pub virtio_pci_device_status : ℕ
virtio_pci_device_status = 0x14

abbrev pub virtio_pci_queue_sel : ℕ
virtio_pci_queue_sel = 0x16

abbrev pub virtio_pci_queue_size : ℕ
virtio_pci_queue_size = 0x18

abbrev pub virtio_pci_queue_enable : ℕ
virtio_pci_queue_enable = 0x1c

abbrev pub virtio_pci_queue_notify_off : ℕ
virtio_pci_queue_notify_off = 0x1e

abbrev pub virtio_pci_queue_desc_low : ℕ
virtio_pci_queue_desc_low = 0x20

abbrev pub virtio_pci_queue_desc_high : ℕ
virtio_pci_queue_desc_high = 0x24

abbrev pub virtio_pci_queue_avail_low : ℕ
virtio_pci_queue_avail_low = 0x28

abbrev pub virtio_pci_queue_avail_high : ℕ
virtio_pci_queue_avail_high = 0x2c

abbrev pub virtio_pci_queue_used_low : ℕ
virtio_pci_queue_used_low = 0x30

abbrev pub virtio_pci_queue_used_high : ℕ
virtio_pci_queue_used_high = 0x34

abbrev pub virtio_pci_cfg_offset : ℕ
virtio_pci_cfg_offset = 0x0

abbrev pub virtio_pci_isr_offset : ℕ
virtio_pci_isr_offset = 0x1000

abbrev pub virtio_pci_config_offset : ℕ
virtio_pci_config_offset = 0x2000

abbrev pub virtio_pci_notify_offset : ℕ
virtio_pci_notify_offset = 0x3000

module _ {D : Type 0} where
  -- The registers of the common configuration, by their size.
  unfoldable pub pci_word : VirtioDevice D → ℕ → ℕ
  pci_word s offset =
      if offset == virtio_pci_device_feature
      then features_word s
      else if offset == virtio_pci_device_feature_sel
      then s.device_features_sel
      else if offset == virtio_pci_queue_desc_low
      then u32 (selected s).desc_addr
      else if offset == virtio_pci_queue_avail_low
      then u32 (selected s).avail_addr
      else if offset == virtio_pci_queue_used_low
      then u32 (selected s).used_addr
      else if offset == virtio_pci_queue_desc_high
      then u32 ((selected s).desc_addr / 2 ^ 32)
      else if offset == virtio_pci_queue_avail_high
      then u32 ((selected s).avail_addr / 2 ^ 32)
      else if offset == virtio_pci_queue_used_high
      then u32 ((selected s).used_addr / 2 ^ 32)
      else 0

  unfoldable pub pci_half : VirtioDevice D → ℕ → ℕ
  pci_half s offset =
      if offset == virtio_pci_num_queues
      then max_queue_num
      else if offset == virtio_pci_queue_sel
      then s.queue_sel
      else if offset == virtio_pci_queue_size
      then (selected s).num
      else if offset == virtio_pci_queue_enable
      then (selected s).ready
      else if offset == virtio_pci_queue_notify_off
      then 0
      else 0

  unfoldable pub pci_register : VirtioDevice D → ℕ → ℕ → ℕ
  pci_register s offset size_log2 =
      if size_log2 == 2
      then pci_word s offset
      else if size_log2 == 1
      then pci_half s offset
      else if size_log2 == 0
      then (if offset == virtio_pci_device_status then s.status else 0)
      else 0

  abbrev pub with_device : VirtioDevice D → Option ℕ → Option (ℕ × VirtioDevice D)
  with_device s none = none
  with_device s (some val) = some (val, s)

  -- The value, and the device after the read: a read of the interrupt status clears it.
  unfoldable pub virtio_pci_read : VirtioDevice D → ℕ → ℕ → Option (ℕ × VirtioDevice D)
  virtio_pci_read s offset1 size_log2 =
      let offset = bit_and offset1 0xfff in
      let page = offset1 / 2 ^ 12 in
      if page == virtio_pci_cfg_offset / 2 ^ 12
      then some (pci_register s offset size_log2, s)
      else if page == virtio_pci_isr_offset / 2 ^ 12
      then (if offset == 0 && size_log2 == 0
          then some (s.int_status, set_irq (record s { int_status = 0 }) 0)
          else some (0, s))
      else if page == virtio_pci_config_offset / 2 ^ 12
      then with_device s (virtio_config_read s offset size_log2)
      else some (0, s)

  unfoldable pub pci_set_word : VirtioDevice D → ℕ → ℕ → VirtioDevice D
  pci_set_word s offset val =
      if offset == virtio_pci_device_feature_sel
      then record s { device_features_sel = val }
      else if offset == virtio_pci_queue_desc_low
      then set_desc_low s val
      else if offset == virtio_pci_queue_avail_low
      then set_avail_low s val
      else if offset == virtio_pci_queue_used_low
      then set_used_low s val
      else if offset == virtio_pci_queue_desc_high
      then set_desc_high s val
      else if offset == virtio_pci_queue_avail_high
      then set_avail_high s val
      else if offset == virtio_pci_queue_used_high
      then set_used_high s val
      else s

  unfoldable pub pci_set_half : VirtioDevice D → ℕ → ℕ → VirtioDevice D
  pci_set_half s offset val =
      if offset == virtio_pci_queue_sel
      then select_queue s val
      else if offset == virtio_pci_queue_size
      then set_queue_num s val
      else if offset == virtio_pci_queue_enable
      then set_queue_ready s val
      else s

  unfoldable pub pci_set_register : VirtioDevice D → ℕ → ℕ → ℕ → VirtioDevice D
  pci_set_register s offset val size_log2 =
      if size_log2 == 2
      then pci_set_word s offset val
      else if size_log2 == 1
      then pci_set_half s offset val
      else if size_log2 == 0
      then (if offset == virtio_pci_device_status then set_device_status s val else s)
      else s

  unfoldable pub virtio_pci_write :
      ℕ
      → VirtioDesc
      → DeviceRecv D
      → (VirtioDevice D → VirtioDevice D)
      → VirtioDevice D
      → ℕ
      → ℕ
      → ℕ
      → Result D
  virtio_pci_write fuel desc device_recv config_write s offset1 val size_log2 =
      let offset = bit_and offset1 0xfff in
      let page = offset1 / 2 ^ 12 in
      if page == virtio_pci_cfg_offset / 2 ^ 12
      then returns (pci_set_register s offset val size_log2)
      else if page == virtio_pci_config_offset / 2 ^ 12
      then returns (virtio_config_write config_write s offset val size_log2)
      else if page == virtio_pci_notify_offset / 2 ^ 12
      then (if ltb val max_queue then queue_notify fuel desc device_recv s val else returns s)
      else returns s
