-- ===== src/Iomem/Lookup.antt =====
-- What `get_phys_mem_range` finds.
use d_risc_v_emulator_tinyem.Base.{
  ◌≤◌, ◌%◌, ◌^◌, ℕ, zero, suc, ◌+◌, ◌<◌, ◌≡◌, ◌∙◌, ◌⊎◌, inl, inr, ap, refl, arith, Bool-cases, true,
  false, Option, none, some, [], ◌∷◌, get_elem?,
}
use mathlib.Core.Path.{subst}
use d_risc_v_emulator_tinyem.Iomem.{
  PhysMemoryRange, PhysMemoryMap, in_range, range_from, get_phys_mem_range,
}

-- The address is in the range, whose end wraps around at 2 ^ 64, or outside it.
abbrev pub Holds : PhysMemoryRange → ℕ → Type 0
Holds pr paddr = (pr.addr ≤ paddr) × (paddr < (pr.addr + pr.size) % 2 ^ 64)

abbrev pub Misses : PhysMemoryRange → ℕ → Type 0
Misses pr paddr = (paddr < pr.addr) ⊎ ((pr.addr + pr.size) % 2 ^ 64 ≤ paddr)

in_range-Holds : (pr : PhysMemoryRange) (paddr : ℕ) → in_range pr paddr ≡ true → Holds pr paddr
unfolding in_range
in_range-Holds pr paddr e = ground arith

pub Holds-in_range : (pr : PhysMemoryRange) (paddr : ℕ) → Holds pr paddr → in_range pr paddr ≡ true
unfolding in_range
Holds-in_range pr paddr h = ground arith

in_range-Misses : (pr : PhysMemoryRange) (paddr : ℕ) → in_range pr paddr ≡ false → Misses pr paddr
unfolding in_range
in_range-Misses pr paddr e = ground arith

-- The first range of the map that holds the address, with its index.
pub record IsFirstRange (s : PhysMemoryMap) (paddr i : ℕ) (pr : PhysMemoryRange) : Type 0 where
  pub stands : get_elem? s i ≡ some pr
  pub holds : Holds pr paddr
  pub none_before : (j : ℕ) (q : PhysMemoryRange) → j < i → get_elem? s j ≡ some q → Misses q paddr

-- How the search through a list ends, started at index `k`.
data Found (k : ℕ) (s : PhysMemoryMap) (paddr : ℕ) (r : Option (ℕ × PhysMemoryRange)) : Type 0 where
  found :
      (i : ℕ) (pr : PhysMemoryRange)
      → r ≡ some (k + i, pr)
      → IsFirstRange s paddr i pr
      → Found k s paddr r
  missing :
      r ≡ none
      → ((i : ℕ) (pr : PhysMemoryRange) → get_elem? s i ≡ some pr → Misses pr paddr)
      → Found k s paddr r

-- A range that does not hold the address, put before others that do not.
before_cons :
    (q : PhysMemoryRange) (s : PhysMemoryMap) (paddr i : ℕ)
    → Misses q paddr
    → ((j : ℕ) (p : PhysMemoryRange) → j < i → get_elem? s j ≡ some p → Misses p paddr)
    → (j : ℕ) (p : PhysMemoryRange) → j < suc i
    → get_elem? (q ∷ s) j ≡ some p
    → Misses p paddr
before_cons q s paddr i miss rest zero p h e =
    let same : q ≡ p = cc in subst (λ (x : PhysMemoryRange). Misses x paddr) same miss
before_cons q s paddr i miss rest (suc j) p h e = rest j p (omega arith) e

none_cons :
    (q : PhysMemoryRange) (s : PhysMemoryMap) (paddr : ℕ)
    → Misses q paddr
    → ((j : ℕ) (p : PhysMemoryRange) → get_elem? s j ≡ some p → Misses p paddr)
    → (j : ℕ) (p : PhysMemoryRange) → get_elem? (q ∷ s) j ≡ some p
    → Misses p paddr
none_cons q s paddr miss rest zero p e =
    let same : q ≡ p = cc in subst (λ (x : PhysMemoryRange). Misses x paddr) same miss
none_cons q s paddr miss rest (suc j) p e = rest j p e

range_from-Found : (k : ℕ) (s : PhysMemoryMap) (paddr : ℕ) → Found k s paddr (range_from k s paddr)
unfolding range_from
range_from-Found k [] paddr = missing refl (λ i pr h. cc)
range_from-Found k (q ∷ s) paddr = elim (Bool-cases (in_range q paddr)) [
  | inl hit ↦ found 0 q (rw hit (ap (λ (t : ℕ). some (t, q)) (omega arith))) (record {
    stands = refl;
    holds = in_range-Holds q paddr hit;
    none_before = λ j q h e. elim h [ ];
  })
  | inr miss ↦ elim (range_from-Found (k + 1) s paddr) [
    | found i pr e first ↦
        found (suc i) pr (rw miss (e ∙ ap (λ (t : ℕ). some (t, pr)) (omega arith))) (record {
          stands = first.stands;
          holds = first.holds;
          none_before = before_cons q s paddr i (in_range-Misses q paddr miss) first.none_before;
        })
    | missing e gone ↦ missing (rw miss e) (none_cons q s paddr (in_range-Misses q paddr miss) gone)
  ]
]

-- No range of the map holds the address.
abbrev pub IsUnmapped : PhysMemoryMap → ℕ → Type 0
IsUnmapped s paddr = (i : ℕ) (pr : PhysMemoryRange) → get_elem? s i ≡ some pr → Misses pr paddr

-- `get_phys_mem_range` finds the first range whose addresses, from its start to before its end modulo
-- 2 ^ 64, hold the one given, with its index, or returns NULL if none does.
pub get_phys_mem_range_lem :
    (s : PhysMemoryMap) (paddr : ℕ)
    → ((i : ℕ) × (pr : PhysMemoryRange) × (get_phys_mem_range s paddr ≡ some (i, pr))
        × IsFirstRange s paddr i pr)
      ⊎ ((get_phys_mem_range s paddr ≡ none) × IsUnmapped s paddr)
unfolding get_phys_mem_range
get_phys_mem_range_lem s paddr = elim (range_from-Found 0 s paddr) [
  | found i pr e first ↦ inl (i, pr, e ∙ ap (λ (t : ℕ). some (t, pr)) (omega arith), first)
  | missing e gone ↦ inr (e, gone)
]
