-- ===== src/Virtio/Regs/Mmio.antt =====
-- virtio.c: the memory-mapped transport.
use d_risc_v_emulator_tinyem.Base.{
  ℕ, ◌-◌, ◌/◌, ◌^◌, ltb, leb, ◌==◌, if◌then◌else◌, u32, Option, some,
}
use d_risc_v_emulator_tinyem.Virtio.Config.{virtio_config_read, virtio_config_write}
use d_risc_v_emulator_tinyem.Virtio.Notify.{DeviceRecv, Result, returns, queue_notify}
use d_risc_v_emulator_tinyem.Virtio.Queue.{VirtioDesc}
use d_risc_v_emulator_tinyem.Virtio.Regs.{
  selected, features_word, select_queue, set_queue_num, set_queue_ready, set_device_status,
  interrupt_ack, set_desc_low, set_desc_high, set_avail_low, set_avail_high, set_used_low,
  set_used_high,
}
use d_risc_v_emulator_tinyem.Virtio.{VirtioDevice, max_queue, max_queue_num}

abbrev pub virtio_mmio_magic_value : ℕ
virtio_mmio_magic_value = 0x0

abbrev pub virtio_mmio_version : ℕ
virtio_mmio_version = 0x4

abbrev pub virtio_mmio_device_id : ℕ
virtio_mmio_device_id = 0x8

abbrev pub virtio_mmio_vendor_id : ℕ
virtio_mmio_vendor_id = 0xc

abbrev pub virtio_mmio_device_features : ℕ
virtio_mmio_device_features = 0x10

abbrev pub virtio_mmio_device_features_sel : ℕ
virtio_mmio_device_features_sel = 0x14

abbrev pub virtio_mmio_queue_sel : ℕ
virtio_mmio_queue_sel = 0x30

abbrev pub virtio_mmio_queue_num_max : ℕ
virtio_mmio_queue_num_max = 0x34

abbrev pub virtio_mmio_queue_num : ℕ
virtio_mmio_queue_num = 0x38

abbrev pub virtio_mmio_queue_ready : ℕ
virtio_mmio_queue_ready = 0x44

abbrev pub virtio_mmio_queue_notify : ℕ
virtio_mmio_queue_notify = 0x50

abbrev pub virtio_mmio_interrupt_status : ℕ
virtio_mmio_interrupt_status = 0x60

abbrev pub virtio_mmio_interrupt_ack : ℕ
virtio_mmio_interrupt_ack = 0x64

abbrev pub virtio_mmio_status : ℕ
virtio_mmio_status = 0x70

abbrev pub virtio_mmio_queue_desc_low : ℕ
virtio_mmio_queue_desc_low = 0x80

abbrev pub virtio_mmio_queue_desc_high : ℕ
virtio_mmio_queue_desc_high = 0x84

abbrev pub virtio_mmio_queue_avail_low : ℕ
virtio_mmio_queue_avail_low = 0x90

abbrev pub virtio_mmio_queue_avail_high : ℕ
virtio_mmio_queue_avail_high = 0x94

abbrev pub virtio_mmio_queue_used_low : ℕ
virtio_mmio_queue_used_low = 0xa0

abbrev pub virtio_mmio_queue_used_high : ℕ
virtio_mmio_queue_used_high = 0xa4

abbrev pub virtio_mmio_config_generation : ℕ
virtio_mmio_config_generation = 0xfc

abbrev pub virtio_mmio_config : ℕ
virtio_mmio_config = 0x100

module _ {D : Type 0} where
  -- The registers below the configuration space, which are 32 bits wide.
  unfoldable pub mmio_register : VirtioDevice D → ℕ → ℕ
  mmio_register s offset =
      if offset == virtio_mmio_magic_value
      then 0x74726976
      else if offset == virtio_mmio_version
      then 2
      else if offset == virtio_mmio_device_id
      then s.device_id
      else if offset == virtio_mmio_vendor_id
      then s.vendor_id
      else if offset == virtio_mmio_device_features
      then features_word s
      else if offset == virtio_mmio_device_features_sel
      then s.device_features_sel
      else if offset == virtio_mmio_queue_sel
      then s.queue_sel
      else if offset == virtio_mmio_queue_num_max
      then max_queue_num
      else if offset == virtio_mmio_queue_num
      then (selected s).num
      else if offset == virtio_mmio_queue_desc_low
      then u32 (selected s).desc_addr
      else if offset == virtio_mmio_queue_avail_low
      then u32 (selected s).avail_addr
      else if offset == virtio_mmio_queue_used_low
      then u32 (selected s).used_addr
      else if offset == virtio_mmio_queue_desc_high
      then u32 ((selected s).desc_addr / 2 ^ 32)
      else if offset == virtio_mmio_queue_avail_high
      then u32 ((selected s).avail_addr / 2 ^ 32)
      else if offset == virtio_mmio_queue_used_high
      then u32 ((selected s).used_addr / 2 ^ 32)
      else if offset == virtio_mmio_queue_ready
      then (selected s).ready
      else if offset == virtio_mmio_interrupt_status
      then s.int_status
      else if offset == virtio_mmio_status
      then s.status
      else if offset == virtio_mmio_config_generation
      then 0
      else 0

  unfoldable pub virtio_mmio_read : VirtioDevice D → ℕ → ℕ → Option ℕ
  virtio_mmio_read s offset size_log2 =
      if leb virtio_mmio_config offset
      then virtio_config_read s (offset - virtio_mmio_config) size_log2
      else some (if size_log2 == 2 then mmio_register s offset else 0)

  -- The registers whose writing does not start the device.
  unfoldable pub mmio_set_register : VirtioDevice D → ℕ → ℕ → VirtioDevice D
  mmio_set_register s offset val =
      if offset == virtio_mmio_device_features_sel
      then record s { device_features_sel = val }
      else if offset == virtio_mmio_queue_sel
      then select_queue s val
      else if offset == virtio_mmio_queue_num
      then set_queue_num s val
      else if offset == virtio_mmio_queue_desc_low
      then set_desc_low s val
      else if offset == virtio_mmio_queue_avail_low
      then set_avail_low s val
      else if offset == virtio_mmio_queue_used_low
      then set_used_low s val
      else if offset == virtio_mmio_queue_desc_high
      then set_desc_high s val
      else if offset == virtio_mmio_queue_avail_high
      then set_avail_high s val
      else if offset == virtio_mmio_queue_used_high
      then set_used_high s val
      else if offset == virtio_mmio_status
      then set_device_status s val
      else if offset == virtio_mmio_queue_ready
      then set_queue_ready s val
      else if offset == virtio_mmio_interrupt_ack
      then interrupt_ack s val
      else s

  unfoldable pub virtio_mmio_write :
      ℕ
      → VirtioDesc
      → DeviceRecv D
      → (VirtioDevice D → VirtioDevice D)
      → VirtioDevice D
      → ℕ
      → ℕ
      → ℕ
      → Result D
  virtio_mmio_write fuel desc device_recv config_write s offset val size_log2 =
      if leb virtio_mmio_config offset
      then returns (virtio_config_write config_write s (offset - virtio_mmio_config) val size_log2)
      else if size_log2 == 2
      then (if offset == virtio_mmio_queue_notify
          then (if ltb val max_queue then queue_notify fuel desc device_recv s val else returns s)
          else returns (mmio_set_register s offset val))
      else returns s
