-- ===== src/Riscv/Mmu/Walk.antt =====
-- How a translation ends: the walk through the page table, and the addresses that need none.
use d_risc_v_emulator_tinyem.Base.{
  bit, bit_lem, bit_lt_two, ℕ, zero, suc, ◌+◌, ◌-◌, ◌*◌, ◌/◌, ◌%◌, ◌^◌, ◌≤◌, ◌<◌, ◌≡◌, ◌≢◌, ◌∙◌,
  ◌⊎◌, inl, inr, ap, refl, arith, Bool-cases, ◌==◌, ltb, if◌then◌else◌, tst, tst_lem, Option, none,
  some, Mem, bit_and, bit_and-mask,
}
use d_risc_v_emulator_tinyem.Iomem.{PhysMemoryMap}
use d_risc_v_emulator_tinyem.Riscv.State.{RiscvCpuState}
use d_risc_v_emulator_tinyem.Riscv.Mmu.{
  sign_extended, phys_read, access_priv, leaf_allows, walk, get_phys_addr,
}
use d_risc_v_emulator_tinyem.Riscv.Mmu.Leaf.{Granted, Permits, leaf-Granted, Permits-leaf_allows}

-- The entry for `vaddr` in the table at `table`, `level` levels above the last.
abbrev pub entry_slot : ℕ → ℕ → ℕ → ℕ
entry_slot vaddr level table = (table + vaddr / 2 ^ (12 + 9 * level) % 512 * 8) % 2 ^ 64

-- The table that an entry points to.
abbrev pub next_table : ℕ → ℕ
next_table pte = pte / 2 ^ 10 * 2 ^ 12 % 2 ^ 64

-- A valid entry with none of the digits R, W and X, and one with some.
abbrev pub IsPointer : ℕ → Type 0
IsPointer pte = (bit pte 0 ≡ 1) × (bit pte 1 ≡ 0) × (bit pte 2 ≡ 0) × (bit pte 3 ≡ 0)

abbrev pub IsLeaf : ℕ → Type 0
IsLeaf pte = (bit pte 0 ≡ 1) × ((bit pte 1 ≡ 1) ⊎ (bit pte 2 ≡ 1) ⊎ (bit pte 3 ≡ 1))

-- How a walk through the page table ends, with that many levels to go from the table.
pub data Walked (s : RiscvCpuState) (map : PhysMemoryMap) (m : Mem) (priv vaddr access : ℕ)
    (r : Option ℕ × Mem) : ℕ → ℕ → Type 0 where
  exhausted : (table : ℕ) → r ≡ (none, m) → Walked s map m priv vaddr access r 0 table
  invalid :
      (level table : ℕ)
      → bit (phys_read 8 map m (entry_slot vaddr level table)) 0 ≡ 0
      → r ≡ (none, m)
      → Walked s map m priv vaddr access r (suc level) table
  below :
      (level table : ℕ)
      → IsPointer (phys_read 8 map m (entry_slot vaddr level table))
      → Walked s map m priv vaddr access r level
          (next_table (phys_read 8 map m (entry_slot vaddr level table)))
      → Walked s map m priv vaddr access r (suc level) table
  refused :
      (level table : ℕ)
      → IsLeaf (phys_read 8 map m (entry_slot vaddr level table))
      → (Permits s priv access (phys_read 8 map m (entry_slot vaddr level table)) → ⊥)
      → r ≡ (none, m)
      → Walked s map m priv vaddr access r (suc level) table
  granted :
      (level table paddr : ℕ) (m' : Mem)
      → IsLeaf (phys_read 8 map m (entry_slot vaddr level table))
      → r ≡ (some paddr, m')
      → Granted s map m priv vaddr access (entry_slot vaddr level table) (12 + 9 * level) paddr m'
      → Walked s map m priv vaddr access r (suc level) table

digits-IsPointer : (pte : ℕ) → bit pte 0 ≡ 1 → bit_and (pte / 2 ^ 1) 7 ≡ 0 → IsPointer pte
digits-IsPointer pte v z =
    let low = bit_and-mask (pte / 2 ^ 1) 3 in
    (
      v,
      omega (arith, low, bit_lem pte 1),
      omega (arith, low, bit_lem pte 2),
      omega (arith, low, bit_lem pte 3),
    )

digits-IsLeaf : (pte : ℕ) → bit pte 0 ≡ 1 → bit_and (pte / 2 ^ 1) 7 ≢ 0 → IsLeaf pte
digits-IsLeaf pte v n =
    (v, ground (arith, bit_and-mask (pte / 2 ^ 1) 3, bit_lem pte 1, bit_lem pte 2, bit_lem pte 3))

walk-Walked :
    (left : ℕ) (s : RiscvCpuState) (map : PhysMemoryMap) (m : Mem) (priv vaddr access table : ℕ)
    → left ≤ 4
    → access ≤ 2
    → Walked s map m priv vaddr access (walk left s map m priv vaddr access table) left table
unfolding walk
walk-Walked zero s map m priv vaddr access table few small = exhausted table refl
walk-Walked (suc left) s map m priv vaddr access table few small =
    let idx : bit_and (vaddr / 2 ^ (12 + 9 * left)) 0x1ff ≡ vaddr / 2 ^ (12 + 9 * left) % 512 =
      bit_and-mask (vaddr / 2 ^ (12 + 9 * left)) 9 in
    let slot = entry_slot vaddr left table in
    let pte = phys_read 8 map m slot in
    rw idx (elim (Bool-cases (tst pte (2 ^ 0))) [
      | inr bad ↦ rw bad (invalid left table (ground (arith, tst_lem pte 0, bit_lt_two pte 0)) refl)
      | inl valid ↦
          let v : bit pte 0 ≡ 1 = ground (arith, tst_lem pte 0) in
          elim (Bool-cases (bit_and (pte / 2 ^ 1) 7 == 0)) [
            | inl down ↦
                rw (valid, down)
                  (below left table (digits-IsPointer pte v (ground arith)) (
                    walk-Walked left s map m priv vaddr access (next_table pte) (omega arith)
                      small))
            | inr leaf ↦
                let l = digits-IsLeaf pte v (λ e. ground arith) in
                elim (Bool-cases (leaf_allows s priv access pte)) [
                  | inr denied ↦
                      rw (valid, leaf, denied)
                        (refused left table l (Permits-leaf_allows s priv access pte small denied)
                          refl)
                  | inl allows ↦
                      rw (valid, leaf, allows)
                        (granted left table _ _ l refl (
                          leaf-Granted left s map m priv vaddr access slot (omega arith) small v
                            allows))
                ]
          ]
    ])

-- An address of `w` bits whose sign the digits above repeat.
abbrev pub IsCanonical : ℕ → ℕ → Type 0
IsCanonical w vaddr = (vaddr < 2 ^ (w - 1)) ⊎ (2 ^ 64 - 2 ^ (w - 1) ≤ vaddr)

sign_extended-IsCanonical :
    (levels vaddr : ℕ)
    → (levels ≡ 3) ⊎ (levels ≡ 4)
    → vaddr < 2 ^ 64
    → sign_extended vaddr (64 - (12 + levels * 9)) ≡ vaddr
    → IsCanonical (12 + levels * 9) vaddr
unfolding sign_extended
sign_extended-IsCanonical levels vaddr (inl three) word e =
    rw three (let e' = rw three at e in ground (arith, e'))
sign_extended-IsCanonical levels vaddr (inr four) word e =
    rw four (let e' = rw four at e in ground (arith, e'))

wild :
    (levels vaddr : ℕ)
    → (levels ≡ 3) ⊎ (levels ≡ 4)
    → vaddr < 2 ^ 64
    → sign_extended vaddr (64 - (12 + levels * 9)) ≢ vaddr
    → IsCanonical (12 + levels * 9) vaddr
    → ⊥
unfolding sign_extended
wild levels vaddr (inl three) word e c =
    let e' = rw three at e in let c' = rw three at c in ground (arith, e', c')
wild levels vaddr (inr four) word e c =
    let e' = rw four at e in let c' = rw four at c in ground (arith, e', c')

truncated :
    (s : RiscvCpuState) (vaddr : ℕ)
    → s.cur_xlen ≤ 64
    → vaddr < 2 ^ 64
    → (if ltb s.cur_xlen 64 then bit_and vaddr (2 ^ s.cur_xlen - 1) else vaddr)
      ≡ vaddr % 2 ^ s.cur_xlen
truncated s vaddr width word = elim (Bool-cases (ltb s.cur_xlen 64)) [
  | inl narrow ↦ rw narrow (bit_and-mask vaddr s.cur_xlen)
  | inr wide ↦ let full : s.cur_xlen ≡ 64 = ground arith in rw (wide, full) (omega arith)
]

-- The ways of an address: to machine mode, untranslated, refused for its digits, and through the page
-- table that satp leads to, of 3 or 4 levels.
pub data Translated (s : RiscvCpuState) (map : PhysMemoryMap) (m : Mem) (vaddr access : ℕ)
    (r : Option ℕ × Mem) : Type 0 where
  machine :
      access_priv s access ≡ 3
      → r ≡ (some (vaddr % 2 ^ s.cur_xlen), m)
      → Translated s map m vaddr access r
  bare :
      access_priv s access ≢ 3
      → s.satp / 2 ^ 60 ≡ 0
      → r ≡ (some vaddr, m)
      → Translated s map m vaddr access r
  not_canonical :
      access_priv s access ≢ 3
      → s.satp / 2 ^ 60 ≢ 0
      → (IsCanonical (12 + (s.satp / 2 ^ 60 - 5) * 9) vaddr → ⊥)
      → r ≡ (none, m)
      → Translated s map m vaddr access r
  paged :
      access_priv s access ≢ 3
      → s.satp / 2 ^ 60 ≢ 0
      → IsCanonical (12 + (s.satp / 2 ^ 60 - 5) * 9) vaddr
      → Walked s map m
          (access_priv s access)
          vaddr
          access
          r
          (s.satp / 2 ^ 60 - 5)
          (s.satp % 2 ^ 44 * 2 ^ 12)
      → Translated s map m vaddr access r

-- On a hart whose satp holds mode 0, 8 or 9: an access made with machine privilege is not
-- translated, but cut to the width of the mode. Any other, with satp off, has the address as it
-- is. With satp on, an address that is not canonical faults. For the others the walk starts at the
-- table of satp, with 3 or 4 levels, takes in each table the entry that 9 digits of the address
-- select, and goes on to the table that this one points to; it faults, and leaves memory alone, where
-- the levels are used up, or the entry is invalid or is a leaf whose digits do not permit the access.
-- At a leaf that permits it the address is granted: the offset in the page is kept, the block is the
-- leaf's, and memory changes in that entry only, by the setting of its digit A and, for a write, D.
pub get_phys_addr-Translated :
    (s : RiscvCpuState) (map : PhysMemoryMap) (m : Mem) (vaddr access : ℕ)
    → s.cur_xlen ≤ 64
    → (s.satp / 2 ^ 60 ≡ 0) ⊎ ((8 ≤ s.satp / 2 ^ 60) × (s.satp / 2 ^ 60 ≤ 9))
    → vaddr < 2 ^ 64
    → access ≤ 2
    → Translated s map m vaddr access (get_phys_addr s map m vaddr access)
unfolding get_phys_addr
get_phys_addr-Translated s map m vaddr access width modes word small =
    let mode : bit_and (s.satp / 2 ^ 60) 0xf ≡ s.satp / 2 ^ 60 =
      bit_and-mask (s.satp / 2 ^ 60) 4 ∙ omega arith in
    elim (Bool-cases (access_priv s access == 3)) [
      | inl to_machine ↦
          machine (ground arith)
            (rw to_machine (ap (λ (t : ℕ). (some t, m)) (truncated s vaddr width word)))
      | inr other ↦ elim (Bool-cases (s.satp / 2 ^ 60 == 0)) [
        | inl off ↦ bare (ground arith) (ground arith) (rw (other, mode, off) refl)
        | inr on ↦
            let depth : s.satp / 2 ^ 60 + 3 - 8 ≡ s.satp / 2 ^ 60 - 5 = ground arith in
            let few : (s.satp / 2 ^ 60 - 5 ≡ 3) ⊎ (s.satp / 2 ^ 60 - 5 ≡ 4) = ground arith in
            let root = bit_and-mask s.satp 44 in
            elim (Bool-cases
              (sign_extended vaddr (64 - (12 + (s.satp / 2 ^ 60 - 5) * 9)) == vaddr)) [
                | inr bad ↦
                    not_canonical (ground arith) (ground arith)
                      (wild (s.satp / 2 ^ 60 - 5) vaddr few word (λ e. ground arith))
                      (rw (other, mode, on, depth, bad) refl)
                | inl good ↦
                    paged (ground arith) (ground arith)
                      (sign_extended-IsCanonical (s.satp / 2 ^ 60 - 5) vaddr few word
                        (ground arith))
                      (rw (other, mode, on, depth, good, root)
                        (walk-Walked (s.satp / 2 ^ 60 - 5) s map m (access_priv s access) vaddr
                          access (s.satp % 2 ^ 44 * 2 ^ 12) (omega arith) small))
              ]
      ]
    ]
