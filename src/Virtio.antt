-- ===== src/Virtio.antt =====
-- virtio.c: a VirtIO device on the memory-mapped or the PCI transport.
-- Guest memory is the RAM of the physical memory map, in host memory. `get_ram_ptr` is
-- `phys_mem_get_ram_ptr` on both transports. A buffer of the host is a memory of its own, which
-- guest memory does not overlap. An `int` is its 32-bit pattern. `device` is what a kind of device
-- keeps behind the common part.
mod Tests
pub mod Queue
pub mod Notify
pub mod Block
pub mod Console
pub mod Init
pub mod Config
pub mod Valid
pub mod Pages
pub mod Used
pub mod Kinds
pub mod Confined
pub mod Safety
pub mod Regs
use d_risc_v_emulator_tinyem.Base.{
  ℕ, zero, suc, ◌+◌, ◌-◌, ◌*◌, ◌%◌, ◌^◌, bit_and, bit_or, Bool, true, false, not, ◌&&◌, ltb, leb,
  ◌==◌, if◌then◌else◌, tst, u16, u32, u64, min, Option, none, some, Mem, load_le, store_le,
}
use d_risc_v_emulator_tinyem.Iomem.{PhysMemoryMap, phys_mem_get_ram_ptr}

abbrev pub virtio_page_size : ℕ
virtio_page_size = 4096

abbrev pub max_queue : ℕ
max_queue = 8

abbrev pub max_queue_num : ℕ
max_queue_num = 16

abbrev pub vring_desc_f_next : ℕ
vring_desc_f_next = 2 ^ 0

abbrev pub vring_desc_f_write : ℕ
vring_desc_f_write = 2 ^ 1

pub record QueueState : Type 0 where
  pub ready : ℕ
  pub num : ℕ
  pub last_avail_idx : ℕ
  pub desc_addr : ℕ
  pub avail_addr : ℕ
  pub used_addr : ℕ
  pub manual_recv : Bool

-- `irq_level` is the level last given to `set_irq(s->irq, …)`.
pub record VirtioDevice (D : Type 0) : Type 0 where
  pub mem_map : PhysMemoryMap
  pub mem : Mem
  pub irq_level : ℕ
  pub int_status : ℕ
  pub status : ℕ
  pub device_features_sel : ℕ
  pub queue_sel : ℕ
  pub queue : ℕ → QueueState
  pub device_id : ℕ
  pub vendor_id : ℕ
  pub device_features : ℕ
  pub config_space_size : ℕ
  pub config_space : Mem
  pub device : D

module _ {D : Type 0} where
  abbrev pub set_irq : VirtioDevice D → ℕ → VirtioDevice D
  set_irq s level = record s { irq_level = level }

  abbrev pub put_queue : VirtioDevice D → ℕ → QueueState → VirtioDevice D
  put_queue s i qs = record s { queue = λ j. if j == i then qs else s.queue j }

  unfoldable pub virtio_reset : VirtioDevice D → VirtioDevice D
  virtio_reset s = record s {
    status = 0;
    queue_sel = 0;
    device_features_sel = 0;
    int_status = 0;
    queue = λ i.
        if ltb i max_queue
        then record {
          ready = 0;
          num = max_queue_num;
          last_avail_idx = 0;
          desc_addr = 0;
          avail_addr = 0;
          used_addr = 0;
          manual_recv = (s.queue i).manual_recv;
        }
        else s.queue i;
  }

  unfoldable pub get_ram_ptr : VirtioDevice D → ℕ → Bool → Option ℕ × VirtioDevice D
  get_ram_ptr s paddr is_rw =
      let (ptr, map) = phys_mem_get_ram_ptr s.mem_map paddr is_rw in
      (ptr, record s { mem_map = map })

  unfoldable pub virtio_read16 : VirtioDevice D → ℕ → ℕ
  virtio_read16 s addr =
      let (ptr, _) = get_ram_ptr s addr false in
      if tst addr 1 then 0 else elim ptr [ none ↦ 0 | some p ↦ u16 (load_le 2 s.mem p) ]

  unfoldable pub virtio_write16 : VirtioDevice D → ℕ → ℕ → VirtioDevice D
  virtio_write16 s addr val =
      if tst addr 1
      then s
      else let (ptr, s') = get_ram_ptr s addr true in
        elim ptr [ none ↦ s' | some p ↦ record s' { mem = store_le 2 s'.mem p val } ]

  unfoldable pub virtio_write32 : VirtioDevice D → ℕ → ℕ → VirtioDevice D
  virtio_write32 s addr val =
      if not (bit_and addr 3 == 0)
      then s
      else let (ptr, s') = get_ram_ptr s addr true in
        elim ptr [ none ↦ s' | some p ↦ record s' { mem = store_le 4 s'.mem p val } ]

-- `memcpy` of `l` bytes, from `src` at `p` to `dst` at `q`.
abbrev pub copy_bytes : Mem → ℕ → Mem → ℕ → ℕ → Mem
copy_bytes dst q src p l i = if leb q i && ltb i (q + l) then src (p + (i - q)) else dst i

-- The bytes that are left on the page of `addr`, or in all if they are fewer.
abbrev pub page_part : ℕ → ℕ → ℕ
page_part count addr = min count (virtio_page_size - bit_and addr (virtio_page_size - 1))

-- The number that a 32-bit pattern stands for is negative.
abbrev pub neg32 : ℕ → Bool
neg32 a = leb (2 ^ 31) a

-- How often a loop that counts down from an `int` can run.
abbrev pub times : ℕ → ℕ
times count = if neg32 count then 0 else count

module _ {D : Type 0} where
  -- The loop of `virtio_memcpy_from_ram`; a byte of fuel for every byte of `count` is enough.
  unfoldable pub from_ram_pages : ℕ → VirtioDevice D → Mem → ℕ → ℕ → ℕ → Bool × Mem
  from_ram_pages zero s buf at addr count = (true, buf)
  from_ram_pages (suc n) s buf at addr count = elim (count == 0) [
    | true ↦ (true, buf)
    | false ↦
        let l = page_part count addr in
        let (ptr, s') = get_ram_ptr s addr false in
        elim ptr [
          | none ↦ (false, buf)
          | some p ↦
              from_ram_pages n s (copy_bytes buf at s.mem p l) (at + l) (u64 (addr + l)) (count - l)
        ]
  ]

  -- The result, `true` for 0 and `false` for -1, with the buffer from `at` on.
  unfoldable pub virtio_memcpy_from_ram : VirtioDevice D → Mem → ℕ → ℕ → ℕ → Bool × Mem
  virtio_memcpy_from_ram s buf at addr count =
      from_ram_pages (times count) s buf at addr (times count)

  unfoldable pub to_ram_pages : ℕ → VirtioDevice D → ℕ → Mem → ℕ → ℕ → Bool × VirtioDevice D
  to_ram_pages zero s addr buf at count = (true, s)
  to_ram_pages (suc n) s addr buf at count = elim (count == 0) [
    | true ↦ (true, s)
    | false ↦
        let l = page_part count addr in
        let (ptr, s') = get_ram_ptr s addr true in
        elim ptr [
          | none ↦ (false, s')
          | some p ↦
              to_ram_pages n (record s' { mem = copy_bytes s'.mem p buf at l }) (u64 (addr + l)) buf
                (at + l) (count - l)
        ]
  ]

  unfoldable pub virtio_memcpy_to_ram : VirtioDevice D → ℕ → Mem → ℕ → ℕ → Bool × VirtioDevice D
  virtio_memcpy_to_ram s addr buf at count = to_ram_pages (times count) s addr buf at (times count)

  -- The used ring gets the chain and the number of bytes written, and the driver an interrupt.
  unfoldable pub virtio_consume_desc : VirtioDevice D → ℕ → ℕ → ℕ → VirtioDevice D
  virtio_consume_desc s queue_idx desc_idx desc_len =
      let qs = s.queue queue_idx in
      let addr = u64 (qs.used_addr + 2) in
      let index = virtio_read16 s addr in
      let s1 = virtio_write16 s addr (u16 (index + 1)) in
      let addr' = u64 (qs.used_addr + 4 + u32 (bit_and index (u32 (qs.num + 2 ^ 32 - 1)) * 8)) in
      let s2 = virtio_write32 s1 addr' desc_idx in
      let s3 = virtio_write32 s2 (u64 (addr' + 4)) desc_len in
      set_irq (record s3 { int_status = bit_or s3.int_status 1 }) 1

  unfoldable pub virtio_config_change_notify : VirtioDevice D → VirtioDevice D
  virtio_config_change_notify s = set_irq (record s { int_status = bit_or s.int_status 2 }) 1
