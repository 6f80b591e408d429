-- ===== src/Virtio/Confined.antt =====
-- What the device writes: the RAM of the guest, and no other memory of the host.
use d_risc_v_emulator_tinyem.Base.{
  tst_lem, bit_lem, ℕ, zero, suc, ◌+◌, ◌-◌, ◌%◌, ◌≤◌, ◌<◌, ◌≡◌, ◌∙◌, ◌⊎◌, refl, arith, Bool, true,
  not, ◌==◌, leb, ltb, ◌&&◌, tst, bit_and, bit_and-mask, none, some, Mem, store_le,
  store_le_outside, Bool-cases, inl, inr, u64,
}
use d_risc_v_emulator_tinyem.Iomem.Ram.{
  KeepsRanges, KeepsRanges-refl, KeepsRanges-trans, InRam, KeepsRanges-InRam, IsPaged,
  KeepsRanges-IsPaged, IsRamPtr, phys_mem_get_ram_ptr-cases,
}
use d_risc_v_emulator_tinyem.Iomem.{PhysMemoryMap}
use d_risc_v_emulator_tinyem.Virtio.{
  VirtioDevice, get_ram_ptr, virtio_write16, virtio_write32, copy_bytes, page_part, times,
  to_ram_pages, virtio_memcpy_to_ram,
}

-- The ranges stay where they are, the memory outside of the guest's RAM is not changed, and neither
-- are the registers of the device.
pub record IsRamWrite {D : Type 0} (s t : VirtioDevice D) : Type 0 where
  pub ranges : KeepsRanges s.mem_map t.mem_map
  pub outside : (b : ℕ) → (InRam s.mem_map b → ⊥) → t.mem b ≡ s.mem b
  pub same_queue : t.queue ≡ s.queue
  pub same_sel : t.queue_sel ≡ s.queue_sel
  pub same_line : t.irq_level ≡ s.irq_level
  pub same_status : t.int_status ≡ s.int_status
  pub same_device : t.device ≡ s.device

module _ {D : Type 0} where
  pub IsRamWrite-refl : (s : VirtioDevice D) → IsRamWrite s s
  IsRamWrite-refl s = record {
    ranges = KeepsRanges-refl s.mem_map;
    outside = λ b h. refl;
    same_queue = refl;
    same_sel = refl;
    same_line = refl;
    same_status = refl;
    same_device = refl;
  }

  pub IsRamWrite-trans : (s t u : VirtioDevice D) → IsRamWrite s t → IsRamWrite t u → IsRamWrite s u
  IsRamWrite-trans s t u h k = record {
    ranges = KeepsRanges-trans s.mem_map t.mem_map u.mem_map h.ranges k.ranges;
    outside = λ b out.
        k.outside b (λ ram. out (KeepsRanges-InRam s.mem_map t.mem_map b h.ranges ram))
        ∙ h.outside b out;
    same_queue = k.same_queue ∙ h.same_queue;
    same_sel = k.same_sel ∙ h.same_sel;
    same_line = k.same_line ∙ h.same_line;
    same_status = k.same_status ∙ h.same_status;
    same_device = k.same_device ∙ h.same_device;
  }

  -- What `get_ram_ptr` comes to.
  get_ram_ptr-cases :
      (s : VirtioDevice D) (addr : ℕ) (is_rw : Bool)
      → IsPaged s.mem_map
      → (get_ram_ptr s addr is_rw ≡ (none, s))
        ⊎ ((ptr : ℕ) × (map : PhysMemoryMap) × (get_ram_ptr s addr is_rw
              ≡ (some ptr, record s { mem_map = map }))
            × IsRamPtr s.mem_map addr ptr
            × KeepsRanges s.mem_map map)
  unfolding get_ram_ptr
  get_ram_ptr-cases s addr is_rw v = elim (phys_mem_get_ram_ptr-cases s.mem_map addr is_rw v) [
    | inl e ↦ inl (rw (e, get_ram_ptr) refl)
    | inr (ptr, map, e, at, keeps) ↦ inr (ptr, map, rw (e, get_ram_ptr) refl, at, keeps)
  ]

-- Bytes from a pointer to the end of its page are RAM.
pub page-InRam :
    (s : PhysMemoryMap) (addr ptr l b : ℕ)
    → IsPaged s
    → IsRamPtr s addr ptr
    → l ≤ 4096 - addr % 4096
    → ptr ≤ b
    → b < ptr + l
    → InRam s b
page-InRam s addr ptr l b v p h lo hi =
    let a = v.addr_paged p.index p.range p.stands in
    let z = v.size_paged p.index p.range p.stands in
    (
      p.index,
      p.range,
      p.stands,
      p.is_ram,
      omega (arith, p.offset),
      omega (arith, p.offset, p.above, p.below),
    )

copy_bytes_outside :
    (dst : Mem) (q : ℕ) (src : Mem) (p l b : ℕ)
    → (b < q) ⊎ (q + l ≤ b)
    → copy_bytes dst q src p l b ≡ dst b
copy_bytes_outside dst q src p l b h = ground arith

module _ {D : Type 0} where
  -- A write of the memory that keeps to the page of a pointer.
  written-IsRamWrite :
      (s : VirtioDevice D) (map : PhysMemoryMap) (m : Mem) (addr ptr l : ℕ)
      → IsPaged s.mem_map
      → IsRamPtr s.mem_map addr ptr
      → KeepsRanges s.mem_map map
      → l ≤ 4096 - addr % 4096
      → ((b : ℕ) → (b < ptr) ⊎ (ptr + l ≤ b) → m b ≡ s.mem b)
      → IsRamWrite s (record s { mem_map = map; mem = m })
  written-IsRamWrite s map m addr ptr l v p keeps h same = record {
    ranges = keeps;
    outside = λ b out. elim (Bool-cases (leb ptr b && ltb b (ptr + l))) [
      | inl e ↦ absurd (out (page-InRam s.mem_map addr ptr l b v p h (ground arith) (ground arith)))
      | inr e ↦ same b (ground arith)
    ];
    same_queue = refl;
    same_sel = refl;
    same_line = refl;
    same_status = refl;
    same_device = refl;
  }

  pub virtio_write16-IsRamWrite :
      (s : VirtioDevice D) (addr val : ℕ)
      → IsPaged s.mem_map
      → IsRamWrite s (virtio_write16 s addr val)
  unfolding virtio_write16
  virtio_write16-IsRamWrite s addr val v = elim (Bool-cases (tst addr 1)) [
    | inl e ↦ rw (e, virtio_write16) (IsRamWrite-refl s)
    | inr e ↦ elim (get_ram_ptr-cases s addr true v) [
      | inl none_there ↦ rw (e, virtio_write16, none_there, none_there) (IsRamWrite-refl s)
      | inr (ptr, map, there, p, keeps) ↦
          rw (e, virtio_write16, there, there)
            (written-IsRamWrite s map (store_le 2 s.mem ptr val) addr ptr 2 v p keeps
              (ground (arith, tst_lem addr 0, bit_lem addr 0))
              (λ b out. store_le_outside 2 s.mem ptr val b out))
    ]
  ]

  pub virtio_write32-IsRamWrite :
      (s : VirtioDevice D) (addr val : ℕ)
      → IsPaged s.mem_map
      → IsRamWrite s (virtio_write32 s addr val)
  unfolding virtio_write32
  virtio_write32-IsRamWrite s addr val v = elim (Bool-cases (not (bit_and addr 3 == 0))) [
    | inl e ↦ rw (e, virtio_write32) (IsRamWrite-refl s)
    | inr e ↦ elim (get_ram_ptr-cases s addr true v) [
      | inl none_there ↦ rw (e, virtio_write32, none_there, none_there) (IsRamWrite-refl s)
      | inr (ptr, map, there, p, keeps) ↦
          rw (e, virtio_write32, there, there)
            (written-IsRamWrite s map (store_le 4 s.mem ptr val) addr ptr 4 v p keeps
              (ground (arith, bit_and-mask addr 2))
              (λ b out. store_le_outside 4 s.mem ptr val b out))
    ]
  ]

  pub to_ram_pages-IsRamWrite :
      (n : ℕ) (s : VirtioDevice D) (addr : ℕ) (buf : Mem) (at count : ℕ)
      → IsPaged s.mem_map
      → let (_, t) = to_ram_pages n s addr buf at count in IsRamWrite s t
  unfolding to_ram_pages
  to_ram_pages-IsRamWrite zero s addr buf at count v = IsRamWrite-refl s
  to_ram_pages-IsRamWrite (suc n) s addr buf at count v = elim (Bool-cases (count == 0)) [
    | inl e ↦ rw (e, to_ram_pages) (IsRamWrite-refl s)
    | inr e ↦ elim (get_ram_ptr-cases s addr true v) [
      | inl none_there ↦ rw (e, to_ram_pages, none_there, none_there) (IsRamWrite-refl s)
      | inr (ptr, map, there, p, keeps) ↦
          let l = page_part count addr in
          let first =
            written-IsRamWrite s map (copy_bytes s.mem ptr buf at l) addr ptr l v p keeps
              (omega (arith, bit_and-mask addr 12))
              (λ b out. copy_bytes_outside s.mem ptr buf at l b out) in
          rw (e, to_ram_pages, there, there)
            (IsRamWrite-trans s _ _ first (
              to_ram_pages-IsRamWrite n _ (u64 (addr + l)) buf (at + l) (count - l)
                (KeepsRanges-IsPaged s.mem_map map keeps v)))
    ]
  ]

  -- On a map of whole pages, `virtio_memcpy_to_ram` changes no byte of the host's memory outside
  -- of the RAM of the guest, and no register of the device, whatever the address and the number of
  -- bytes are.
  pub virtio_memcpy_to_ram-IsRamWrite :
      (s : VirtioDevice D) (addr : ℕ) (buf : Mem) (at count : ℕ)
      → IsPaged s.mem_map
      → let (_, t) = virtio_memcpy_to_ram s addr buf at count in IsRamWrite s t
  unfolding virtio_memcpy_to_ram
  virtio_memcpy_to_ram-IsRamWrite s addr buf at count v =
      to_ram_pages-IsRamWrite (times count) s addr buf at (times count) v
