-- ===== src/Virtio/Regs.antt =====
-- virtio.c: the registers of the memory-mapped and of the PCI transport.
-- Addresses have 64 bits (`VIRTIO_ADDR_BITS`).
pub mod Mmio
pub mod Pci
pub mod Keeps
pub mod Halves
pub mod Handlers
use d_risc_v_emulator_tinyem.Base.{
  ℕ, ◌+◌, ◌-◌, ◌*◌, ◌/◌, ◌%◌, ◌^◌, bit_and, bit_or, bit_not, Bool, true, false, ◌&&◌, ltb, ◌==◌,
  if◌then◌else◌, u32,
}
use d_risc_v_emulator_tinyem.Virtio.{
  VirtioDevice, QueueState, put_queue, set_irq, virtio_reset, max_queue,
}

unfoldable pub set_low32 : ℕ → ℕ → ℕ
set_low32 paddr val = bit_or (bit_and paddr (bit_not 64 0xffffffff)) val

unfoldable pub set_high32 : ℕ → ℕ → ℕ
set_high32 paddr val = bit_or (bit_and paddr 0xffffffff) (val * 2 ^ 32)

module _ {D : Type 0} where
  abbrev pub selected : VirtioDevice D → QueueState
  selected s = s.queue s.queue_sel

  abbrev pub put_selected : VirtioDevice D → QueueState → VirtioDevice D
  put_selected s qs = put_queue s s.queue_sel qs

  -- The word of features that is selected.
  unfoldable pub features_word : VirtioDevice D → ℕ
  features_word s =
      if s.device_features_sel == 0
      then s.device_features
      else if s.device_features_sel == 1
      then 1
      else 0

  unfoldable pub select_queue : VirtioDevice D → ℕ → VirtioDevice D
  select_queue s val = if ltb val max_queue then record s { queue_sel = val } else s

  unfoldable pub set_queue_num : VirtioDevice D → ℕ → VirtioDevice D
  set_queue_num s val =
      if (bit_and val (u32 (val + 2 ^ 32 - 1)) == 0) && ltb 0 val
      then put_selected s (record (selected s) { num = val })
      else s

  unfoldable pub set_queue_ready : VirtioDevice D → ℕ → VirtioDevice D
  set_queue_ready s val = put_selected s (record (selected s) { ready = bit_and val 1 })

  unfoldable pub set_device_status : VirtioDevice D → ℕ → VirtioDevice D
  set_device_status s val =
      if val == 0
      then virtio_reset (set_irq (record s { status = val }) 0)
      else record s { status = val }

  unfoldable pub interrupt_ack : VirtioDevice D → ℕ → VirtioDevice D
  interrupt_ack s val =
      let s' : VirtioDevice D = record s { int_status = bit_and s.int_status (bit_not 32 val) } in
      if s'.int_status == 0 then set_irq s' 0 else s'

  -- The six halves of the addresses of the selected queue.
  abbrev pub set_desc_low : VirtioDevice D → ℕ → VirtioDevice D
  set_desc_low s val =
      let qs = selected s in put_selected s (record qs { desc_addr = set_low32 qs.desc_addr val })

  abbrev pub set_desc_high : VirtioDevice D → ℕ → VirtioDevice D
  set_desc_high s val =
      let qs = selected s in put_selected s (record qs { desc_addr = set_high32 qs.desc_addr val })

  abbrev pub set_avail_low : VirtioDevice D → ℕ → VirtioDevice D
  set_avail_low s val =
      let qs = selected s in put_selected s (record qs { avail_addr = set_low32 qs.avail_addr val })

  abbrev pub set_avail_high : VirtioDevice D → ℕ → VirtioDevice D
  set_avail_high s val =
      let qs = selected s in
      put_selected s (record qs { avail_addr = set_high32 qs.avail_addr val })

  abbrev pub set_used_low : VirtioDevice D → ℕ → VirtioDevice D
  set_used_low s val =
      let qs = selected s in put_selected s (record qs { used_addr = set_low32 qs.used_addr val })

  abbrev pub set_used_high : VirtioDevice D → ℕ → VirtioDevice D
  set_used_high s val =
      let qs = selected s in put_selected s (record qs { used_addr = set_high32 qs.used_addr val })
