-- ===== src/Virtio/Pages.antt =====
-- Copying out of guest memory page by page gives what reading it byte by byte does.
use d_risc_v_emulator_tinyem.Base.{
  ltb→lt, Option-cases, ℕ, zero, suc, ◌+◌, ◌-◌, ◌/◌, ◌%◌, ◌^◌, ◌≤◌, ◌<◌, ◌≡◌, ◌∙◌, ◌⊎◌, ap, sym,
  refl, arith, Bool, true, false, ◌==◌, leb, ltb, ◌&&◌, if◌then◌else◌, bit_and-mask, Option, none,
  some, [], ◌∷◌, Mem, Bool-cases, inl, inr, u64,
}
use d_risc_v_emulator_tinyem.Iomem.Lookup.{Holds-in_range, get_phys_mem_range_lem}
use d_risc_v_emulator_tinyem.Iomem.Ram.{IsPaged, in_range-IsPaged}
use mathlib.Core.Option.{some-injective}
use d_risc_v_emulator_tinyem.Iomem.{
  PhysMemoryRange, PhysMemoryMap, in_range, range_from, get_phys_mem_range, phys_mem_get_ram_ptr,
}
use d_risc_v_emulator_tinyem.Virtio.{
  VirtioDevice, get_ram_ptr, copy_bytes, page_part, times, from_ram_pages, virtio_memcpy_from_ram,
}

-- The host's address of a byte of guest memory.
unfoldable pub ram_ptr : PhysMemoryMap → ℕ → Option ℕ
ram_ptr s paddr = let (ptr, _) = phys_mem_get_ram_ptr s paddr false in ptr

-- A byte of guest memory, by its own address.
unfoldable pub guest_byte : {D : Type 0} → VirtioDevice D → ℕ → Option ℕ
guest_byte s paddr = elim (ram_ptr s.mem_map paddr) [ none ↦ none | some p ↦ some (s.mem p) ]

tail-IsPaged : (pr : PhysMemoryRange) (s : PhysMemoryMap) → IsPaged (pr ∷ s) → IsPaged s
tail-IsPaged pr s v = record {
  addr_paged = λ i q e. v.addr_paged (suc i) q e;
  size_paged = λ i q e. v.size_paged (suc i) q e;
  end_fits = λ i q e. v.end_fits (suc i) q e;
}

-- A range holds all of a page or nothing of it.
in_range-page :
    (pr : PhysMemoryRange) (s : PhysMemoryMap) (a b : ℕ)
    → IsPaged (pr ∷ s)
    → a / 4096 ≡ b / 4096
    → in_range pr a ≡ in_range pr b
unfolding in_range
in_range-page pr s a b v h =
    ground (arith, v.addr_paged 0 pr refl, v.size_paged 0 pr refl, v.end_fits 0 pr refl)

range_from-page :
    (i : ℕ) (s : PhysMemoryMap) (a b : ℕ)
    → IsPaged s
    → a / 4096 ≡ b / 4096
    → range_from i s a ≡ range_from i s b
unfolding range_from
range_from-page i [] a b v h = refl
range_from-page i (pr ∷ s) a b v h =
    rw (in_range-page pr s a b v h, range_from-page (i + 1) s a b (tail-IsPaged pr s v) h) refl

pub ram_ptr_found :
    (s : PhysMemoryMap) (a i : ℕ) (pr : PhysMemoryRange)
    → get_phys_mem_range s a ≡ some (i, pr)
    → ram_ptr s a ≡ (if pr.is_ram then some (pr.phys_mem + (a - pr.addr)) else none)
unfolding ram_ptr phys_mem_get_ram_ptr
ram_ptr_found s a i pr e = elim (Bool-cases pr.is_ram) [
  | inl ram ↦ rw (e, ram_ptr, phys_mem_get_ram_ptr, ram) refl
  | inr io ↦ rw (e, ram_ptr, phys_mem_get_ram_ptr, io) refl
]

pub ram_ptr_missing :
    (s : PhysMemoryMap) (a : ℕ) → get_phys_mem_range s a ≡ none → ram_ptr s a ≡ none
unfolding ram_ptr phys_mem_get_ram_ptr
ram_ptr_missing s a e = rw (e, ram_ptr, phys_mem_get_ram_ptr) refl

get_phys_mem_range-page :
    (s : PhysMemoryMap) (a b : ℕ)
    → IsPaged s
    → a / 4096 ≡ b / 4096
    → get_phys_mem_range s a ≡ get_phys_mem_range s b
unfolding get_phys_mem_range
get_phys_mem_range-page s a b v h = range_from-page 0 s a b v h

-- Pointers to the bytes of a page lie side by side.
pub ram_ptr-page :
    (s : PhysMemoryMap) (a k p : ℕ)
    → IsPaged s
    → a / 4096 ≡ (a + k) / 4096
    → ram_ptr s a ≡ some p
    → ram_ptr s (a + k) ≡ some (p + k)
ram_ptr-page s a k p v h e = elim (get_phys_mem_range_lem s a) [
  | inl (i, pr, e', first) ↦
      let (lo, _) = in_range-IsPaged s i pr a v first.stands (Holds-in_range pr a first.holds) in
      let there = ram_ptr_found s a i pr e' in
      let near =
        ram_ptr_found s (a + k) i pr (sym (get_phys_mem_range-page s a (a + k) v h) ∙ e') in
      elim (Bool-cases pr.is_ram) [
        | inl ram ↦
            let here : p ≡ pr.phys_mem + (a - pr.addr) =
              some-injective _ _ (sym e ∙ there ∙ rw ram refl) in
            near ∙ rw ram (ap some (omega arith))
        | inr io ↦ let here : some p ≡ none = sym e ∙ there ∙ rw io refl in cc
      ]
  | inr (e', gone) ↦ let here : some p ≡ none = sym e ∙ ram_ptr_missing s a e' in cc
]

copy_bytes_inside :
    (dst : Mem) (q : ℕ) (src : Mem) (p l i : ℕ)
    → i < l
    → copy_bytes dst q src p l (q + i) ≡ src (p + i)
copy_bytes_inside dst q src p l i h =
    let back : q + i - q ≡ i = omega arith in
    let test : (leb q (q + i) && ltb (q + i) (q + l)) ≡ true = ground arith in rw (test, back) refl

page_part_lem :
    (count addr : ℕ)
    → 0 < count
    → (page_part count addr ≤ count)
      × (page_part count addr ≤ 4096 - addr % 4096)
      × (0 < page_part count addr)
page_part_lem count addr h =
    (omega arith, omega (arith, bit_and-mask addr 12), omega (arith, bit_and-mask addr 12))

module _ {D : Type 0} where
  get_ram_ptr_lem :
      (s : VirtioDevice D) (a : ℕ)
      → (let (ptr, _) = get_ram_ptr s a false in ptr) ≡ ram_ptr s.mem_map a
  unfolding get_ram_ptr ram_ptr
  get_ram_ptr_lem s a = refl

  guest_byte-page :
      (s : VirtioDevice D) (a k p : ℕ)
      → IsPaged s.mem_map
      → a / 4096 ≡ (a + k) / 4096
      → ram_ptr s.mem_map a ≡ some p
      → guest_byte s (a + k) ≡ some (s.mem (p + k))
  unfolding guest_byte
  guest_byte-page s a k p v h e = rw (ram_ptr-page s.mem_map a k p v h e, guest_byte) refl

  -- What a copy of `count` bytes comes to: the bytes of the guest one by one, or a byte without RAM
  -- on the way; the rest of the buffer is as it was.
  pub record IsCopy (s : VirtioDevice D) (buf : Mem) (at addr count : ℕ) (ok : Bool) (out : Mem)
      : Type 0 where
    pub bytes :
        ok ≡ true → (i : ℕ) → i < count → guest_byte s (u64 (addr + i)) ≡ some (out (at + i))
    pub fails : ok ≡ false → (i : ℕ) × (i < count) × (guest_byte s (u64 (addr + i)) ≡ none)
    pub rest : (j : ℕ) → (j < at) ⊎ (at + count ≤ j) → out j ≡ buf j

  abbrev CopyOf : VirtioDevice D → Mem → ℕ → ℕ → ℕ → Bool × Mem → Type 0
  CopyOf s buf at addr count r = let (ok, out) = r in IsCopy s buf at addr count ok out

  no_bytes :
      (s : VirtioDevice D) (buf : Mem) (at addr count : ℕ)
      → count ≡ 0
      → IsCopy s buf at addr count true buf
  no_bytes s buf at addr count z = record {
    bytes = λ ok i b. absurd (omega arith);
    fails = λ bad. cc;
    rest = λ j h. refl;
  }

  no_page :
      (s : VirtioDevice D) (buf : Mem) (at addr count : ℕ)
      → addr < 2 ^ 64
      → 0 < count
      → ram_ptr s.mem_map addr ≡ none
      → IsCopy s buf at addr count false buf
  unfolding guest_byte
  no_page s buf at addr count f pos_count e = record {
    bytes = λ ok. cc;
    fails = λ bad.
        let here : u64 (addr + 0) ≡ addr = omega arith in
        (0, pos_count, ap (guest_byte s) here ∙ rw (e, guest_byte) refl);
    rest = λ j h. refl;
  }

  -- The bytes of one page, and those of a copy that goes on behind them.
  page_more :
      (s : VirtioDevice D) (buf : Mem) (at addr count p l : ℕ) (ok : Bool) (out : Mem)
      → IsPaged s.mem_map
      → addr < 2 ^ 64
      → l ≤ count
      → l ≤ 4096 - addr % 4096
      → ram_ptr s.mem_map addr ≡ some p
      → IsCopy s (copy_bytes buf at s.mem p l) (at + l) (u64 (addr + l)) (count - l) ok out
      → IsCopy s buf at addr count ok out
  page_more s buf at addr count p l ok out v f lc lp e later = record {
    bytes = λ good i b. elim (Bool-cases (ltb i l)) [
      | inl small ↦
          let near : i < l = ltb→lt i l small in
          let here : u64 (addr + i) ≡ addr + i = omega arith in
          let back : at + i - at ≡ i = omega arith in
          ap (guest_byte s) here
          ∙ guest_byte-page s addr i p v (omega arith) e
          ∙ ap some (
              sym (
                later.rest (at + i) (inl (omega arith))
                ∙ copy_bytes_inside buf at s.mem p l i near))
      | inr large ↦
          let far : l ≤ i = ground arith in
          let here : u64 (addr + i) ≡ u64 (u64 (addr + l) + (i - l)) = omega arith in
          let there : at + l + (i - l) ≡ at + i = omega arith in
          ap (guest_byte s) here
          ∙ later.bytes good (i - l) (omega arith)
          ∙ ap (λ (j : ℕ). some (out j)) there
    ];
    fails = λ bad.
        let (i, b, gone) = later.fails bad in
        let here : u64 (addr + (l + i)) ≡ u64 (u64 (addr + l) + i) = omega arith in
        (l + i, omega arith, ap (guest_byte s) here ∙ gone);
    rest = λ j h. later.rest j (ground arith) ∙ ground arith;
  }

  from_ram_pages-IsCopy :
      (n : ℕ) (s : VirtioDevice D) (buf : Mem) (at addr count : ℕ)
      → IsPaged s.mem_map
      → addr < 2 ^ 64
      → count ≤ n
      → CopyOf s buf at addr count (from_ram_pages n s buf at addr count)
  unfolding from_ram_pages
  from_ram_pages-IsCopy zero s buf at addr count v f h = no_bytes s buf at addr count (omega arith)
  from_ram_pages-IsCopy (suc n) s buf at addr count v f h = elim (Bool-cases (count == 0)) [
    | inl e ↦ rw (e, from_ram_pages) (no_bytes s buf at addr count (ground arith))
    | inr e ↦
        let more : 0 < count = ground arith in
        elim (Option-cases (ram_ptr s.mem_map addr)) [
          | inl gone ↦
              rw (e, from_ram_pages, get_ram_ptr_lem s addr ∙ gone)
                (no_page s buf at addr count f more gone)
          | inr (p, there) ↦
              let l = page_part count addr in
              let part : (l ≤ count) × (l ≤ 4096 - addr % 4096) × (0 < l) =
                page_part_lem count addr more in
              let (lc, lp, lpos) = part in
              rw (e, from_ram_pages, get_ram_ptr_lem s addr ∙ there)
                (page_more s buf at addr count p l _ _ v f lc lp there (
                  from_ram_pages-IsCopy n s (copy_bytes buf at s.mem p l) (at + l) (u64 (addr + l))
                    (count - l) v (omega arith) (omega arith)))
        ]
  ]

  -- On a map of whole pages, `virtio_memcpy_from_ram` succeeds exactly if every byte of guest
  -- memory, looked up by its own address, is RAM. It has then put those bytes into the buffer, and
  -- in any case it writes no byte of the buffer beyond the count.
  pub virtio_memcpy_from_ram-IsCopy :
      (s : VirtioDevice D) (buf : Mem) (at addr count : ℕ)
      → IsPaged s.mem_map
      → addr < 2 ^ 64
      → count < 2 ^ 31
      → let (ok, out) = virtio_memcpy_from_ram s buf at addr count in
        IsCopy s buf at addr count ok out
  unfolding virtio_memcpy_from_ram
  virtio_memcpy_from_ram-IsCopy s buf at addr count v f h =
      let same : times count ≡ count = ground arith in
      rw (virtio_memcpy_from_ram, same)
        (from_ram_pages-IsCopy count s buf at addr count v f (omega arith))
