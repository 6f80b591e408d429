-- ===== src/Iomem/Ram.antt =====
-- The host memory behind the RAM of a map, and the pointers into it.
use mathlib.Core.Option.{some-injective}
use mathlib.Core.Path.{subst}
use d_risc_v_emulator_tinyem.Base.{
  List, [], ◌∷◌, zero, suc, ℕ, ◌+◌, ◌-◌, ◌%◌, ◌^◌, ◌≤◌, ◌<◌, ◌≡◌, ◌≢◌, ◌∙◌, ◌⊎◌, sym, ap, refl,
  arith, Bool, true, false, ◌==◌, if◌then◌else◌, none, some, set, get_elem?, get_elem?-set_self,
  get_elem?-set_ne, length, Bool-cases, inl, inr,
}
use d_risc_v_emulator_tinyem.Iomem.Lookup.{Holds-in_range, get_phys_mem_range_lem}
use d_risc_v_emulator_tinyem.Iomem.{
  PhysMemoryRange, PhysMemoryMap, in_range, phys_mem_set_dirty_bit, phys_mem_get_ram_ptr,
}

-- Two ranges at the same place, with the same memory.
pub record IsSamePlace (p q : PhysMemoryRange) : Type 0 where
  pub same_addr : q.addr ≡ p.addr
  pub same_size : q.size ≡ p.size
  pub same_is_ram : q.is_ram ≡ p.is_ram
  pub same_phys_mem : q.phys_mem ≡ p.phys_mem

IsSamePlace-refl : (p : PhysMemoryRange) → IsSamePlace p p
IsSamePlace-refl p = record {
  same_addr = refl;
  same_size = refl;
  same_is_ram = refl;
  same_phys_mem = refl;
}

-- Every range of the second map stands where the first has one.
abbrev pub KeepsRanges : PhysMemoryMap → PhysMemoryMap → Type 0
KeepsRanges s t =
    (i : ℕ) (q : PhysMemoryRange)
    → get_elem? t i ≡ some q
    → (p : PhysMemoryRange) × (get_elem? s i ≡ some p) × IsSamePlace p q

pub KeepsRanges-refl : (s : PhysMemoryMap) → KeepsRanges s s
KeepsRanges-refl s i q e = (q, e, IsSamePlace-refl q)

pub KeepsRanges-trans :
    (s t u : PhysMemoryMap) → KeepsRanges s t → KeepsRanges t u → KeepsRanges s u
KeepsRanges-trans s t u h k i q e =
    let (p, f, a) = k i q e in
    let (o, g, b) = h i p f in
    (
      o,
      g,
      record {
        same_addr = a.same_addr ∙ b.same_addr;
        same_size = a.same_size ∙ b.same_size;
        same_is_ram = a.same_is_ram ∙ b.same_is_ram;
        same_phys_mem = a.same_phys_mem ∙ b.same_phys_mem;
      },
    )

-- A byte of host memory that is RAM of the guest.
abbrev pub InRam : PhysMemoryMap → ℕ → Type 0
InRam s b =
    (i : ℕ) × (pr : PhysMemoryRange) × (get_elem? s i ≡ some pr)
    × (pr.is_ram ≡ true)
    × (pr.phys_mem ≤ b)
    × (b < pr.phys_mem + pr.size)

pub KeepsRanges-InRam : (s t : PhysMemoryMap) (b : ℕ) → KeepsRanges s t → InRam t b → InRam s b
KeepsRanges-InRam s t b k (i, q, e, ram, lo, hi) =
    let (p, f, a) = k i q e in
    (
      i,
      p,
      f,
      sym a.same_is_ram ∙ ram,
      omega (arith, a.same_phys_mem),
      omega (arith, a.same_phys_mem, a.same_size),
    )

-- The ranges are made of whole pages, and end below 2^64.
pub record IsPaged (s : PhysMemoryMap) : Type 0 where
  pub addr_paged : (i : ℕ) (pr : PhysMemoryRange) → get_elem? s i ≡ some pr → pr.addr % 4096 ≡ 0
  pub size_paged : (i : ℕ) (pr : PhysMemoryRange) → get_elem? s i ≡ some pr → pr.size % 4096 ≡ 0
  pub end_fits :
      (i : ℕ) (pr : PhysMemoryRange) → get_elem? s i ≡ some pr → pr.addr + pr.size < 2 ^ 64

pub KeepsRanges-IsPaged : (s t : PhysMemoryMap) → KeepsRanges s t → IsPaged s → IsPaged t
KeepsRanges-IsPaged s t k v = record {
  addr_paged = λ i q e. let (p, f, a) = k i q e in omega (arith, a.same_addr, v.addr_paged i p f);
  size_paged = λ i q e. let (p, f, a) = k i q e in omega (arith, a.same_size, v.size_paged i p f);
  end_fits =
      λ i q e. let (p, f, a) = k i q e in omega (arith, a.same_addr, a.same_size, v.end_fits i p f);
}

pub phys_mem_set_dirty_bit-IsSamePlace :
    (pr : PhysMemoryRange) (offset : ℕ) → IsSamePlace pr (phys_mem_set_dirty_bit pr offset)
unfolding phys_mem_set_dirty_bit
phys_mem_set_dirty_bit-IsSamePlace pr offset = elim (Bool-cases pr.has_dirty_bits) [
  | inl e ↦
      rw e (record { same_addr = refl; same_size = refl; same_is_ram = refl; same_phys_mem = refl })
  | inr e ↦ simp e (IsSamePlace-refl pr)
]

get_elem?-lt {ℓ} :
    {A : Type ℓ} (xs : List A) (i : ℕ) (a : A) → get_elem? xs i ≡ some a → i < length xs
get_elem?-lt [] i a e = cc
get_elem?-lt (x ∷ xs) zero a e = omega arith
get_elem?-lt (x ∷ xs) (suc i) a e = omega (arith, get_elem?-lt xs i a e)

pub set-KeepsRanges :
    (s : PhysMemoryMap) (i : ℕ) (p q : PhysMemoryRange)
    → get_elem? s i ≡ some p
    → IsSamePlace p q
    → KeepsRanges s (set s i q)
set-KeepsRanges s i p q e a j o f = elim (Bool-cases (i == j)) [
  | inl e' ↦
      let same : i ≡ j = ground arith in
      let out : some q ≡ some o =
        sym (get_elem?-set_self s i q (get_elem?-lt s i p e))
        ∙ ap (get_elem? (set s i q)) same
        ∙ f in
      (
        p,
        sym (ap (get_elem? s) same) ∙ e,
        subst (λ (t : PhysMemoryRange). IsSamePlace p t) (some-injective _ _ out) a,
      )
  | inr e' ↦
      let other : i ≢ j = ground arith in
      (o, sym (get_elem?-set_ne s q other) ∙ f, IsSamePlace-refl o)
]

-- What a pointer to RAM is: it points as far into the memory of a range as the address lies in it.
pub record IsRamPtr (s : PhysMemoryMap) (paddr ptr : ℕ) : Type 0 where
  pub index : ℕ
  pub range : PhysMemoryRange
  pub stands : get_elem? s index ≡ some range
  pub is_ram : range.is_ram ≡ true
  pub above : range.addr ≤ paddr
  pub below : paddr < range.addr + range.size
  pub offset : ptr ≡ range.phys_mem + (paddr - range.addr)

if-KeepsRanges :
    (s t : PhysMemoryMap) (c : Bool) → KeepsRanges s t → KeepsRanges s (if c then t else s)
if-KeepsRanges s t true h = h
if-KeepsRanges s t false h = KeepsRanges-refl s

-- What holds of an address in a range of a paged map.
pub in_range-IsPaged :
    (s : PhysMemoryMap) (i : ℕ) (pr : PhysMemoryRange) (paddr : ℕ)
    → IsPaged s
    → get_elem? s i ≡ some pr
    → in_range pr paddr ≡ true
    → (pr.addr ≤ paddr) × (paddr < pr.addr + pr.size)
unfolding in_range
in_range-IsPaged s i pr paddr v e h = ground (arith, v.end_fits i pr e)

-- `phys_mem_get_ram_ptr` returns NULL, or a pointer to the RAM at the address.
pub phys_mem_get_ram_ptr-cases :
    (s : PhysMemoryMap) (paddr : ℕ) (is_rw : Bool)
    → IsPaged s
    → (phys_mem_get_ram_ptr s paddr is_rw ≡ (none, s))
      ⊎ ((ptr : ℕ) × (t : PhysMemoryMap) × (phys_mem_get_ram_ptr s paddr is_rw ≡ (some ptr, t))
          × IsRamPtr s paddr ptr
          × KeepsRanges s t)
unfolding phys_mem_get_ram_ptr
phys_mem_get_ram_ptr-cases s paddr is_rw v = elim (get_phys_mem_range_lem s paddr) [
  | inl (i, pr, e, first) ↦ elim (Bool-cases pr.is_ram) [
    | inl ram ↦
        let dirty = phys_mem_set_dirty_bit pr (paddr - pr.addr) in
        let (lo, hi) =
          in_range-IsPaged s i pr paddr v first.stands (Holds-in_range pr paddr first.holds) in
        inr (
          pr.phys_mem + (paddr - pr.addr),
          if is_rw then set s i dirty else s,
          rw (e, phys_mem_get_ram_ptr, ram) refl,
          record {
            index = i;
            range = pr;
            stands = first.stands;
            is_ram = ram;
            above = lo;
            below = hi;
            offset = refl;
          },
          if-KeepsRanges s _ is_rw (
              set-KeepsRanges s i pr dirty first.stands
                (phys_mem_set_dirty_bit-IsSamePlace pr (paddr - pr.addr))),
        )
    | inr io ↦ inl (rw (e, phys_mem_get_ram_ptr, io) refl)
  ]
  | inr (e, gone) ↦ inl (rw (e, phys_mem_get_ram_ptr) refl)
]
