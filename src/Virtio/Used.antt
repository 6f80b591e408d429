-- ===== src/Virtio/Used.antt =====
-- What a consumed chain leaves in the used ring.
use d_risc_v_emulator_tinyem.Base.{
  ℕ, zero, suc, ◌+◌, ◌-◌, ◌*◌, ◌/◌, ◌%◌, ◌^◌, ◌≤◌, ◌<◌, ◌≡◌, ◌∙◌, ◌⊎◌, inl, inr, ap, sym, refl,
  arith, true, false, not, ◌==◌, if◌then◌else◌, tst, tst_lem, bit_lem, bit_and, bit_and-mask,
  bit_or, Option, none, some, [], ◌∷◌, set, get_elem?, Mem, load_le, store_le, load_le-store_le,
  store_le_outside, load_le_congr, u16, u32, u64, Bool-cases,
}
use d_risc_v_emulator_tinyem.Iomem.Lookup.{get_phys_mem_range_lem}
use d_risc_v_emulator_tinyem.Iomem.Ram.{
  IsSamePlace, KeepsRanges, IsPaged, phys_mem_set_dirty_bit-IsSamePlace, set-KeepsRanges,
}
use d_risc_v_emulator_tinyem.Iomem.{
  PhysMemoryRange, PhysMemoryMap, in_range, range_from, get_phys_mem_range, phys_mem_get_ram_ptr,
  phys_mem_set_dirty_bit,
}
use d_risc_v_emulator_tinyem.Virtio.Pages.{ram_ptr, ram_ptr_found, ram_ptr_missing, ram_ptr-page}
use d_risc_v_emulator_tinyem.Virtio.{
  VirtioDevice, get_ram_ptr, virtio_read16, virtio_write16, virtio_write32, virtio_consume_desc,
}
use mathlib.Core.Option.{some-injective}
use mathlib.Core.Path.{subst}
use native.Mathlib.Nat.{mod-lt, one-le-pow}
use d_risc_v_emulator_tinyem.Virtio.Kinds.{raise_used}

-- The pointer of a range that was found.
place_ptr : Option (ℕ × PhysMemoryRange) → ℕ → Option ℕ
place_ptr none a = none
place_ptr (some (_, pr)) a = if pr.is_ram then some (pr.phys_mem + (a - pr.addr)) else none

ram_ptr-place_ptr : (s : PhysMemoryMap) (a : ℕ) → ram_ptr s a ≡ place_ptr (get_phys_mem_range s a) a
unfolding place_ptr
ram_ptr-place_ptr s a = elim (get_phys_mem_range_lem s a) [
  | inl (i, pr, e, first) ↦ ram_ptr_found s a i pr e ∙ rw e refl
  | inr (e, gone) ↦ ram_ptr_missing s a e ∙ rw e refl
]

in_range-IsSamePlace :
    (p q : PhysMemoryRange) (a : ℕ) → IsSamePlace p q → in_range q a ≡ in_range p a
unfolding in_range
in_range-IsSamePlace p q a h = rw (h.same_addr, h.same_size) refl

same_head :
    (k : ℕ) (p q : PhysMemoryRange) (a : ℕ) (r : Option (ℕ × PhysMemoryRange))
    → IsSamePlace p q
    → place_ptr (if in_range q a then some (k, q) else r) a
      ≡ place_ptr (if in_range p a then some (k, p) else r) a
unfolding place_ptr
same_head k p q a r h = rw (in_range-IsSamePlace p q a h) (elim (Bool-cases (in_range p a)) [
  | inl hit ↦ rw (hit, h.same_is_ram, h.same_phys_mem, h.same_addr) refl
  | inr miss ↦ rw miss refl
])

range_from-set :
    (k : ℕ) (s : PhysMemoryMap) (i : ℕ) (p q : PhysMemoryRange) (a : ℕ)
    → get_elem? s i ≡ some p
    → IsSamePlace p q
    → place_ptr (range_from k (set s i q) a) a ≡ place_ptr (range_from k s a) a
unfolding range_from place_ptr in_range
range_from-set k [] i p q a e h = cc
range_from-set k (o ∷ s) zero p q a e h =
    subst
      (λ (r : PhysMemoryRange).
        place_ptr (if in_range q a then some (k, q) else range_from (k + 1) s a) a
        ≡ place_ptr (if in_range r a then some (k, r) else range_from (k + 1) s a) a)
      (sym (some-injective _ _ e)) (same_head k p q a _ h)
range_from-set k (o ∷ s) (suc i) p q a e h = elim (Bool-cases (in_range o a)) [
  | inl hit ↦ rw hit refl
  | inr miss ↦ rw miss (range_from-set (k + 1) s i p q a e h)
]

ram_ptr-set :
    (s : PhysMemoryMap) (i : ℕ) (p q : PhysMemoryRange) (a : ℕ)
    → get_elem? s i ≡ some p
    → IsSamePlace p q
    → ram_ptr (set s i q) a ≡ ram_ptr s a
unfolding get_phys_mem_range
ram_ptr-set s i p q a e h =
    ram_ptr-place_ptr (set s i q) a ∙ range_from-set 0 s i p q a e h ∙ sym (ram_ptr-place_ptr s a)

-- A map with the same ranges, where every address has the same pointer.
record IsSameMap (s t : PhysMemoryMap) : Type 0 where
  ranges : KeepsRanges s t
  pointers : (a : ℕ) → ram_ptr t a ≡ ram_ptr s a

-- Where the index and a slot of the ring lie, as `virtio_consume_desc` computes it.
ring_offsets :
    (used num k index : ℕ)
    → num ≡ 2 ^ k
    → used % 4096 + 4 + 8 * 2 ^ k ≤ 4096
    → used + 4096 < 2 ^ 64
    → (u64 (used + 2) ≡ used + 2)
      × (u64 (used + 4 + u32 (bit_and index (u32 (num + 2 ^ 32 - 1)) * 8))
          ≡ used + (4 + 8 * (index % 2 ^ k)))
      × (u64 (used + (4 + 8 * (index % 2 ^ k)) + 4) ≡ used + (8 + 8 * (index % 2 ^ k)))
      × (used / 4096 ≡ (used + 2) / 4096)
      × (used / 4096 ≡ (used + (4 + 8 * (index % 2 ^ k))) / 4096)
      × (used / 4096 ≡ (used + (8 + 8 * (index % 2 ^ k))) / 4096)
ring_offsets used num k index e page fits =
    let one : 1 ≤ 2 ^ k = one-le-pow k 2 (omega arith) in
    let small : index % 2 ^ k < 2 ^ k = mod-lt index one in
    let mask : u32 (num + 2 ^ 32 - 1) ≡ 2 ^ k - 1 = omega arith in
    let slot : bit_and index (u32 (num + 2 ^ 32 - 1)) ≡ index % 2 ^ k =
      ap (bit_and index) mask ∙ bit_and-mask index k in
    (omega arith, omega arith, omega arith, omega arith, omega arith, omega arith)

even_of : (used : ℕ) → used % 4 ≡ 0 → (used + 2) % 2 ≡ 0
even_of used h = omega arith

four_of : (used slot : ℕ) → used % 4 ≡ 0 → (used + (4 + 8 * slot)) % 4 ≡ 0
four_of used slot h = omega arith

eight_of : (used slot : ℕ) → used % 4 ≡ 0 → (used + (8 + 8 * slot)) % 4 ≡ 0
eight_of used slot h = omega arith

-- The memory after the index and a slot have been written.
abbrev ring_memory : Mem → ℕ → ℕ → ℕ → ℕ → ℕ → Mem
ring_memory m p slot index d l =
    store_le 4 (store_le 4 (store_le 2 m (p + 2) index) (p + (4 + 8 * slot)) d) (p + (8 + 8 * slot))
      l

record RingStores (m : Mem) (p slot index d l : ℕ) : Type 0 where
  index_there : load_le 2 (ring_memory m p slot index d l) (p + 2) ≡ index % 2 ^ 16
  desc_there : load_le 4 (ring_memory m p slot index d l) (p + 4 + 8 * slot) ≡ d % 2 ^ 32
  len_there : load_le 4 (ring_memory m p slot index d l) (p + 8 + 8 * slot) ≡ l % 2 ^ 32
  others :
      (b : ℕ)
      → (b < p + 2) ⊎ (p + 4 ≤ b)
      → (b < p + 4 + 8 * slot) ⊎ (p + 12 + 8 * slot ≤ b)
      → ring_memory m p slot index d l b ≡ m b

ring_stores : (m : Mem) (p slot index d l : ℕ) → RingStores m p slot index d l
ring_stores m p slot index d l =
    let m1 = store_le 2 m (p + 2) index in
    let m2 = store_le 4 m1 (p + (4 + 8 * slot)) d in
    let q = p + (8 + 8 * slot) in
    let four : p + 4 + 8 * slot ≡ p + (4 + 8 * slot) = omega arith in
    let eight : p + 8 + 8 * slot ≡ q = omega arith in
    record {
      index_there =
          load_le_congr 2 _ m1 (p + 2) (λ b lo hi.
            store_le_outside 4 m2 q l b (inl (omega arith))
            ∙ store_le_outside 4 m1 (p + (4 + 8 * slot)) d b (inl (omega arith)))
          ∙ load_le-store_le 2 m (p + 2) index;
      desc_there =
          ap (load_le 4 (store_le 4 m2 q l)) four
          ∙ load_le_congr 4 _ m2 (p + (4 + 8 * slot))
              (λ b lo hi. store_le_outside 4 m2 q l b (inl (omega arith)))
          ∙ load_le-store_le 4 m1 (p + (4 + 8 * slot)) d;
      len_there = ap (load_le 4 (store_le 4 m2 q l)) eight ∙ load_le-store_le 4 m2 q l;
      others = λ b h k.
          store_le_outside 4 m2 q l b
            (elim k [ inl x ↦ inl (omega arith) | inr x ↦ inr (omega arith) ])
          ∙ store_le_outside 4 m1 (p + (4 + 8 * slot)) d b
              (elim k [ inl x ↦ inl (omega arith) | inr x ↦ inr (omega arith) ])
          ∙ store_le_outside 2 m (p + 2) index b
              (elim h [ inl x ↦ inl (omega arith) | inr x ↦ inr (omega arith) ]);
    }

module _ {D : Type 0} where
  -- A pointer that is to be written, where there is RAM.
  get_ram_ptr-write :
      (s : VirtioDevice D) (a p : ℕ)
      → ram_ptr s.mem_map a ≡ some p
      → (map : PhysMemoryMap) × (get_ram_ptr s a true ≡ (some p, record s { mem_map = map }))
        × IsSameMap s.mem_map map
  unfolding get_ram_ptr phys_mem_get_ram_ptr
  get_ram_ptr-write s a p e = elim (get_phys_mem_range_lem s.mem_map a) [
    | inl (i, pr, f, first) ↦
        let there = ram_ptr_found s.mem_map a i pr f in
        elim (Bool-cases pr.is_ram) [
          | inl ram ↦
              let at : p ≡ pr.phys_mem + (a - pr.addr) =
                some-injective _ _ (sym e ∙ there ∙ rw ram refl) in
              let same = phys_mem_set_dirty_bit-IsSamePlace pr (a - pr.addr) in
              (
                set s.mem_map i (phys_mem_set_dirty_bit pr (a - pr.addr)),
                rw (at, get_ram_ptr, phys_mem_get_ram_ptr, f, ram) refl,
                record {
                  ranges = set-KeepsRanges s.mem_map i pr _ first.stands same;
                  pointers = λ b. ram_ptr-set s.mem_map i pr _ b first.stands same;
                },
              )
          | inr io ↦ let none_there : some p ≡ none = sym e ∙ there ∙ rw io refl in cc
        ]
    | inr (f, gone) ↦ let none_there : some p ≡ none = sym e ∙ ram_ptr_missing s.mem_map a f in cc
  ]

  -- The memory and the map that a write leaves.
  abbrev stored : VirtioDevice D → PhysMemoryMap → Mem → VirtioDevice D
  stored s map m = record s { mem_map = map; mem = m }

  write16_at :
      (s : VirtioDevice D) (a p v : ℕ)
      → a % 2 ≡ 0
      → ram_ptr s.mem_map a ≡ some p
      → (map : PhysMemoryMap) × (virtio_write16 s a v ≡ stored s map (store_le 2 s.mem p v))
        × IsSameMap s.mem_map map
  unfolding virtio_write16
  write16_at s a p v even e =
      let (map, there, same) = get_ram_ptr-write s a p e in
      let aligned : tst a 1 ≡ false = ground (arith, tst_lem a 0, bit_lem a 0) in
      (map, rw (aligned, virtio_write16, there, there) refl, same)

  write32_at :
      (s : VirtioDevice D) (a p v : ℕ)
      → a % 4 ≡ 0
      → ram_ptr s.mem_map a ≡ some p
      → (map : PhysMemoryMap) × (virtio_write32 s a v ≡ stored s map (store_le 4 s.mem p v))
        × IsSameMap s.mem_map map
  unfolding virtio_write32
  write32_at s a p v even e =
      let (map, there, same) = get_ram_ptr-write s a p e in
      let aligned : not (bit_and a 3 == 0) ≡ false = ground (arith, bit_and-mask a 2) in
      (map, rw (aligned, virtio_write32, there, there) refl, same)

  -- The used ring of a queue lies on one page of RAM, at `p` in the host's memory, and has `n`
  -- slots, a power of two.
  pub record IsRing (s : VirtioDevice D) (queue_idx p k : ℕ) : Type 0 where
    pub paged : IsPaged s.mem_map
    pub num_power : (s.queue queue_idx).num ≡ 2 ^ k
    pub aligned : (s.queue queue_idx).used_addr % 4 ≡ 0
    pub on_page : (s.queue queue_idx).used_addr % 4096 + 4 + 8 * 2 ^ k ≤ 4096
    pub fits : (s.queue queue_idx).used_addr + 4096 < 2 ^ 64
    pub there : ram_ptr s.mem_map (s.queue queue_idx).used_addr ≡ some p

  -- The chain and the number of bytes are in the slot of the index, modulo the size, the index is
  -- one higher, no other byte has changed, and the interrupt is raised.
  pub record IsUsed (s t : VirtioDevice D) (p k index desc_idx desc_len : ℕ) : Type 0 where
    pub next_index : load_le 2 t.mem (p + 2) ≡ (index + 1) % 2 ^ 16
    pub chain : load_le 4 t.mem (p + 4 + 8 * (index % 2 ^ k)) ≡ desc_idx % 2 ^ 32
    pub written : load_le 4 t.mem (p + 8 + 8 * (index % 2 ^ k)) ≡ desc_len % 2 ^ 32
    pub rest :
        (b : ℕ)
        → (b < p + 2) ⊎ (p + 4 ≤ b)
        → (b < p + 4 + 8 * (index % 2 ^ k)) ⊎ (p + 12 + 8 * (index % 2 ^ k) ≤ b)
        → t.mem b ≡ s.mem b
    pub status : t.int_status ≡ bit_or s.int_status 1
    pub line : t.irq_level ≡ 1

  -- On a device whose used ring of 2^k slots lies on one page of RAM of a map of whole pages, at
  -- an address divisible by 4, `virtio_consume_desc` writes the chain and the number of bytes, as
  -- 32-bit words, into the slot of the ring's index modulo 2^k, adds 1 to the index, changes no
  -- other byte of the host's memory, sets digit 0 of the interrupt status and raises the line.
  pub virtio_consume_desc-IsUsed :
      (s : VirtioDevice D) (queue_idx desc_idx desc_len p k : ℕ)
      → IsRing s queue_idx p k
      → let index = virtio_read16 s (u64 ((s.queue queue_idx).used_addr + 2)) in
        IsUsed s (virtio_consume_desc s queue_idx desc_idx desc_len) p k index desc_idx desc_len
  unfolding virtio_consume_desc
  virtio_consume_desc-IsUsed s queue_idx desc_idx desc_len p k v =
      let used = (s.queue queue_idx).used_addr in
      let index = virtio_read16 s (u64 (used + 2)) in
      let slot = index % 2 ^ k in
      let ring = ring_offsets used (s.queue queue_idx).num k index v.num_power v.on_page v.fits in
      let (a1, a2, a3, o1, o2, o3) = ring in
      let p1 = ram_ptr-page s.mem_map used 2 p v.paged o1 v.there in
      let p2 = ram_ptr-page s.mem_map used (4 + 8 * slot) p v.paged o2 v.there in
      let p3 = ram_ptr-page s.mem_map used (8 + 8 * slot) p v.paged o3 v.there in
      let (m1, e1, k1) =
        write16_at s (used + 2) (p + 2) (u16 (index + 1)) (even_of used v.aligned) p1 in
      let s1 = stored s m1 (store_le 2 s.mem (p + 2) (u16 (index + 1))) in
      let (m2, e2, k2) =
        write32_at s1 (used + (4 + 8 * slot)) (p + (4 + 8 * slot)) desc_idx
          (four_of used slot v.aligned) (k1.pointers _ ∙ p2) in
      let s2 = stored s1 m2 (store_le 4 s1.mem (p + (4 + 8 * slot)) desc_idx) in
      let (m3, e3, k3) =
        write32_at s2 (used + (8 + 8 * slot)) (p + (8 + 8 * slot)) desc_len
          (eight_of used slot v.aligned) (k2.pointers _ ∙ k1.pointers _ ∙ p3) in
      let s3 = stored s2 m3 (store_le 4 s2.mem (p + (8 + 8 * slot)) desc_len) in
      let second =
        u64 (used + 4 + u32 (bit_and index (u32 ((s.queue queue_idx).num + 2 ^ 32 - 1)) * 8)) in
      let whole : virtio_consume_desc s queue_idx desc_idx desc_len ≡ raise_used s3 =
        ap
          (λ (t : VirtioDevice D).
            raise_used
              (virtio_write32 (virtio_write32 t second desc_idx) (u64 (second + 4)) desc_len))
          (ap (λ (a : ℕ). virtio_write16 s a (u16 (index + 1))) a1 ∙ e1)
        ∙ ap
            (λ (a : ℕ).
              raise_used (virtio_write32 (virtio_write32 s1 a desc_idx) (u64 (a + 4)) desc_len))
            a2
        ∙ ap
            (λ (t : VirtioDevice D).
              raise_used (virtio_write32 t (u64 (used + (4 + 8 * slot) + 4)) desc_len))
            e2
        ∙ ap (λ (a : ℕ). raise_used (virtio_write32 s2 a desc_len)) a3
        ∙ ap raise_used e3 in
      let out = ring_stores s.mem p slot (u16 (index + 1)) desc_idx desc_len in
      subst (λ (t : VirtioDevice D). IsUsed s t p k index desc_idx desc_len) (sym whole)
        (record {
          next_index = out.index_there ∙ omega arith;
          chain = out.desc_there;
          written = out.len_there;
          rest = out.others;
          status = refl;
          line = refl;
        })
