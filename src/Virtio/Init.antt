-- ===== src/Virtio/Init.antt =====
-- virtio.c: the start of a device on the memory-mapped transport.
-- `opaque` is the number that stands for the device in the memory map; `device_recv` is an argument
-- of the handlers. `none` is a failed assertion of `cpu_register_device`.
use d_risc_v_emulator_tinyem.Base.{
  ◌⊎◌, ℕ, zero, suc, ◌+◌, ◌%◌, ◌^◌, ◌<◌, ◌≡◌, ◌∙◌, refl, sym, ap, arith, true, false, tst, bit_or,
  ltb, Option, none, some, List, [], ◌∷◌, ◌++◌, get_elem?, Mem, inl, inr, length,
}
use d_risc_v_emulator_tinyem.Iomem.Ram.{IsPaged}
use d_risc_v_emulator_tinyem.Iomem.{PhysMemoryRange, PhysMemoryMap, cpu_register_device}
use d_risc_v_emulator_tinyem.Virtio.Valid.{IsDevice, virtio_reset-IsDevice}
use d_risc_v_emulator_tinyem.Virtio.{VirtioDevice, virtio_reset, virtio_page_size}
use mathlib.Core.Option.{some-injective}
use mathlib.Core.Path.{subst}

-- `DEVIO_SIZE8 | DEVIO_SIZE16 | DEVIO_SIZE32`
abbrev pub devio_sizes : ℕ
devio_sizes = bit_or (bit_or (2 ^ 0) (2 ^ 1)) (2 ^ 2)

module _ {D : Type 0} where
  -- The zeroed device with the fields that `virtio_init` sets.
  abbrev pub fresh_device : PhysMemoryMap → Mem → ℕ → ℕ → D → VirtioDevice D
  fresh_device mem_map mem device_id config_space_size device = record {
    mem_map = mem_map;
    mem = mem;
    irq_level = 0;
    int_status = 0;
    status = 0;
    device_features_sel = 0;
    queue_sel = 0;
    queue = λ _. record {
      ready = 0;
      num = 0;
      last_avail_idx = 0;
      desc_addr = 0;
      avail_addr = 0;
      used_addr = 0;
      manual_recv = false;
    };
    device_id = device_id;
    vendor_id = 0xffff;
    device_features = 0;
    config_space_size = config_space_size;
    config_space = λ _. 0;
    device = device;
  }

  unfoldable pub virtio_init : PhysMemoryMap → Mem → ℕ → ℕ → ℕ → ℕ → D → Option (VirtioDevice D)
  virtio_init mem_map mem addr opaque device_id config_space_size device =
      elim (cpu_register_device mem_map addr virtio_page_size opaque devio_sizes) [
        | none ↦ none
        | some (_, map) ↦
            some (virtio_reset (fresh_device map mem device_id config_space_size device))
      ]

get_elem?-snoc :
    {A : Type 0} (xs : List A) (x a : A) (i : ℕ)
    → get_elem? (xs ++ (x ∷ [])) i ≡ some a
    → (get_elem? xs i ≡ some a) ⊎ (x ≡ a)
get_elem?-snoc [] x a zero e = inr (some-injective _ _ e)
get_elem?-snoc [] x a (suc i) e = cc
get_elem?-snoc (y ∷ ys) x a zero e = inl e
get_elem?-snoc (y ∷ ys) x a (suc i) e = get_elem?-snoc ys x a i e

IsPaged-snoc :
    (s : PhysMemoryMap) (p : PhysMemoryRange)
    → IsPaged s
    → p.addr % 4096 ≡ 0
    → p.size % 4096 ≡ 0
    → p.addr + p.size < 2 ^ 64
    → IsPaged (s ++ (p ∷ []))
IsPaged-snoc s p v a z f = record {
  addr_paged = λ i q e. elim (get_elem?-snoc s p q i e) [
    | inl there ↦ v.addr_paged i q there
    | inr new ↦ ap (λ (r : PhysMemoryRange). r.addr % 4096) (sym new) ∙ a
  ];
  size_paged = λ i q e. elim (get_elem?-snoc s p q i e) [
    | inl there ↦ v.size_paged i q there
    | inr new ↦ ap (λ (r : PhysMemoryRange). r.size % 4096) (sym new) ∙ z
  ];
  end_fits = λ i q e. elim (get_elem?-snoc s p q i e) [
    | inl there ↦ v.end_fits i q there
    | inr new ↦ subst (λ (r : PhysMemoryRange). r.addr + r.size < 2 ^ 64) new f
  ];
}

-- A device that `virtio_init` puts on a page of a map of whole pages is valid, if there is room in
-- the map.
pub virtio_init-IsDevice :
    {D : Type 0} (map : PhysMemoryMap) (mem : Mem) (addr opaque device_id size : ℕ) (device : D)
    → IsPaged map
    → addr % 4096 ≡ 0
    → addr + 4096 < 2 ^ 64
    → length map < 32
    → (s : VirtioDevice D) × (virtio_init map mem addr opaque device_id size device ≡ some s)
      × IsDevice s
unfolding virtio_init cpu_register_device tst
virtio_init-IsDevice map mem addr opaque device_id size device v a f room =
    let test : ltb (length map) 32 ≡ true = ground arith in
    let p : PhysMemoryRange = record {
      addr = addr;
      org_size = 4096;
      size = 4096;
      is_ram = false;
      devram_flags = 0;
      phys_mem = 0;
      dirty_bits_size = 0;
      has_dirty_bits = false;
      dirty_bits_tab = λ _ _. 0;
      dirty_bits_index = 0;
      device = opaque;
      devio_flags = devio_sizes;
    } in
    let s = fresh_device (map ++ (p ∷ [])) mem device_id size device in
    (
      virtio_reset s,
      rw (virtio_init, cpu_register_device, test) refl,
      virtio_reset-IsDevice s refl (IsPaged-snoc map p v a (omega arith) f),
    )
