-- ===== src/Iomem.antt =====
-- iomem.h and iomem.c: the physical memory map, its dirty bits and its device ranges.
-- A range is known by its index in `phys_mem_range`, where the source has a pointer to it. RAM is
-- host memory at `phys_mem`, and a device is the number that stands for its `opaque` and callbacks.
-- A call of `flush_tlb_write_range` is a value that the operation returns.
mod Tests
pub mod Lookup
pub mod Dirty
pub mod Snapshot
pub mod Ram
use d_risc_v_emulator_tinyem.Base.{
  ℕ, zero, suc, ◌+◌, ◌-◌, ◌*◌, ◌/◌, ◌%◌, ◌^◌, bit_and, bit_or, bit_xor, bit_not, Bool, true, false,
  not, ◌&&◌, ◌||◌, ltb, leb, ◌==◌, if◌then◌else◌, tst, Option, none, some, List, [], ◌∷◌, ◌++◌,
  length, set, get_elem?,
}

abbrev pub devio_size32 : ℕ
devio_size32 = 2 ^ 2

abbrev pub devio_disabled : ℕ
devio_disabled = 2 ^ 4

abbrev pub devram_flag_dirty_bits : ℕ
devram_flag_dirty_bits = 2 ^ 1

abbrev pub devram_flag_disabled : ℕ
devram_flag_disabled = 2 ^ 2

abbrev pub devram_page_size_log2 : ℕ
devram_page_size_log2 = 12

abbrev pub devram_page_size : ℕ
devram_page_size = 2 ^ devram_page_size_log2

abbrev pub phys_mem_range_max : ℕ
phys_mem_range_max = 32

-- `dirty_bits` is `dirty_bits_tab[dirty_bits_index]`, or null where `has_dirty_bits` is false.
pub record PhysMemoryRange : Type 0 where
  pub addr : ℕ
  pub org_size : ℕ
  pub size : ℕ
  pub is_ram : Bool
  pub devram_flags : ℕ
  pub phys_mem : ℕ
  pub dirty_bits_size : ℕ
  pub has_dirty_bits : Bool
  pub dirty_bits_tab : ℕ → ℕ → ℕ
  pub dirty_bits_index : ℕ
  pub device : ℕ
  pub devio_flags : ℕ

abbrev pub PhysMemoryMap : Type 0
PhysMemoryMap = List PhysMemoryRange

-- A call `flush_tlb_write_range(opaque, ram_addr, ram_size)`.
pub record Flush : Type 0 where
  pub ram_addr : ℕ
  pub ram_size : ℕ

-- Whether `paddr` lies in a range; the end is a `uint64_t` sum.
unfoldable pub in_range : PhysMemoryRange → ℕ → Bool
in_range pr paddr = leb pr.addr paddr && ltb paddr ((pr.addr + pr.size) % 2 ^ 64)

-- The loop of `get_phys_mem_range` at index `i`.
unfoldable pub range_from : ℕ → PhysMemoryMap → ℕ → Option (ℕ × PhysMemoryRange)
range_from i [] paddr = none
range_from i (pr ∷ rest) paddr =
    let later = range_from (i + 1) rest paddr in if in_range pr paddr then some (i, pr) else later

unfoldable pub get_phys_mem_range : PhysMemoryMap → ℕ → Option (ℕ × PhysMemoryRange)
get_phys_mem_range s paddr = range_from 0 s paddr

-- The fields that `register_ram_entry` leaves as they are in the zeroed array are zero. `none` is
-- a failed assertion.
unfoldable pub register_ram_entry :
    PhysMemoryMap → ℕ → ℕ → ℕ → Option (PhysMemoryRange × PhysMemoryMap)
register_ram_entry s addr size devram_flags =
    let pr : PhysMemoryRange = record {
      addr = addr;
      org_size = size;
      size = if tst devram_flags devram_flag_disabled then 0 else size;
      is_ram = true;
      devram_flags = bit_and devram_flags (bit_not 32 devram_flag_disabled);
      phys_mem = 0;
      dirty_bits_size = 0;
      has_dirty_bits = false;
      dirty_bits_tab = λ _ _. 0;
      dirty_bits_index = 0;
      device = 0;
      devio_flags = 0;
    } in
    if ltb (length s) phys_mem_range_max
      && (bit_and size (devram_page_size - 1) == 0 && not (size == 0))
    then some (pr, s ++ (pr ∷ []))
    else none

-- `phys_mem` is what `mallocz` returned, `none` for its failure, on which the program exits.
unfoldable pub default_register_ram :
    PhysMemoryMap → ℕ → ℕ → ℕ → Option ℕ → Option (PhysMemoryRange × PhysMemoryMap)
default_register_ram s addr size devram_flags none = none
default_register_ram s addr size devram_flags (some phys_mem) =
    elim (register_ram_entry s addr size devram_flags) [
      | none ↦ none
      | some (pr, s') ↦
          let nb_pages = size / 2 ^ devram_page_size_log2 in
          let dirty = tst devram_flags devram_flag_dirty_bits in
          let pr' : PhysMemoryRange = record pr {
            phys_mem = phys_mem;
            has_dirty_bits = dirty;
            dirty_bits_size = if dirty then (nb_pages + 31) / 32 * 4 else 0;
          } in
          some (pr', s ++ (pr' ∷ []))
    ]

unfoldable pub cpu_register_device :
    PhysMemoryMap → ℕ → ℕ → ℕ → ℕ → Option (PhysMemoryRange × PhysMemoryMap)
cpu_register_device s addr size device devio_flags =
    let pr : PhysMemoryRange = record {
      addr = addr;
      org_size = size;
      size = if tst devio_flags devio_disabled then 0 else size;
      is_ram = false;
      devram_flags = 0;
      phys_mem = 0;
      dirty_bits_size = 0;
      has_dirty_bits = false;
      dirty_bits_tab = λ _ _. 0;
      dirty_bits_index = 0;
      device = device;
      devio_flags = devio_flags;
    } in
    if ltb (length s) phys_mem_range_max && leb size 0xffffffff
    then some (pr, s ++ (pr ∷ []))
    else none

-- The word `i` of the table in use.
abbrev pub dirty_word : PhysMemoryRange → ℕ → ℕ
dirty_word pr i = pr.dirty_bits_tab pr.dirty_bits_index i

abbrev pub put_word : (ℕ → ℕ → ℕ) → ℕ → ℕ → ℕ → ℕ → ℕ → ℕ
put_word tab t i v t' i' = if t' == t && i' == i then v else tab t' i'

unfoldable pub phys_mem_set_dirty_bit : PhysMemoryRange → ℕ → PhysMemoryRange
phys_mem_set_dirty_bit pr offset =
    let page_index = offset / 2 ^ devram_page_size_log2 in
    let mask = 2 ^ bit_and page_index 0x1f in
    let i = page_index / 2 ^ 5 in
    if pr.has_dirty_bits
    then record pr {
      dirty_bits_tab =
          put_word pr.dirty_bits_tab pr.dirty_bits_index i (bit_or (dirty_word pr i) mask);
    }
    else pr

unfoldable pub phys_mem_is_dirty_bit : PhysMemoryRange → ℕ → Bool
phys_mem_is_dirty_bit pr offset =
    let page_index = offset / 2 ^ devram_page_size_log2 in
    if not pr.has_dirty_bits
    then true
    else not (bit_and (dirty_word pr (page_index / 2 ^ 5) / 2 ^ bit_and page_index 0x1f) 1 == 0)

unfoldable pub phys_mem_reset_dirty_bit : PhysMemoryRange → ℕ → PhysMemoryRange × List Flush
phys_mem_reset_dirty_bit pr offset =
    let page_index = offset / 2 ^ devram_page_size_log2 in
    let mask = 2 ^ bit_and page_index 0x1f in
    let i = page_index / 2 ^ 5 in
    let page = bit_and offset (bit_not 64 (devram_page_size - 1)) in
    if pr.has_dirty_bits && tst (dirty_word pr i) mask
    then (
      record pr {
        dirty_bits_tab =
            put_word pr.dirty_bits_tab pr.dirty_bits_index i
              (bit_and (dirty_word pr i) (bit_not 32 mask));
      },
      record { ram_addr = pr.phys_mem + page; ram_size = devram_page_size } ∷ [],
    )
    else (pr, [])

-- The scan for a word that is not zero, from word `i`.
unfoldable pub any_dirty : ℕ → ℕ → (ℕ → ℕ) → Bool
any_dirty zero i words = false
any_dirty (suc left) i words =
    let later = any_dirty left (i + 1) words in if not (words i == 0) then true else later

-- The number returned is the index of the table that the caller gets.
unfoldable pub default_get_dirty_bits : PhysMemoryRange → ℕ × PhysMemoryRange × List Flush
default_get_dirty_bits pr =
    let n = pr.dirty_bits_size / 4 in
    let has_dirty_bits = any_dirty n 0 (dirty_word pr) in
    let index = bit_xor pr.dirty_bits_index 1 in
    let flushes =
      if has_dirty_bits && not (pr.size == 0)
      then record { ram_addr = pr.phys_mem; ram_size = pr.org_size } ∷ []
      else [] in
    (
      pr.dirty_bits_index,
      record pr {
        dirty_bits_index = index;
        dirty_bits_tab = λ t i. if t == index && ltb i n then 0 else pr.dirty_bits_tab t i;
      },
      flushes,
    )

unfoldable pub default_set_addr : PhysMemoryRange → ℕ → Bool → PhysMemoryRange × List Flush
default_set_addr pr addr enabled =
    let flushes =
      if pr.is_ram then record { ram_addr = pr.phys_mem; ram_size = pr.org_size } ∷ [] else [] in
    if enabled
    then (if pr.size == 0 || not (pr.addr == addr)
        then (record pr { addr = addr; size = pr.org_size }, flushes)
        else (pr, []))
    else if not (pr.size == 0)
    then (record pr { addr = 0; size = 0 }, flushes)
    else (pr, [])

-- `set_ram_addr` is `default_set_addr` too.
unfoldable pub phys_mem_set_addr : PhysMemoryRange → ℕ → Bool → PhysMemoryRange × List Flush
phys_mem_set_addr pr addr enabled = default_set_addr pr addr enabled

-- The host pointer, and the map with the dirty bit of the page set where it is to be written.
unfoldable pub phys_mem_get_ram_ptr : PhysMemoryMap → ℕ → Bool → Option ℕ × PhysMemoryMap
phys_mem_get_ram_ptr map paddr is_rw = elim (get_phys_mem_range map paddr) [
  | none ↦ (none, map)
  | some (i, pr) ↦
      let offset = paddr - pr.addr in
      let map' = if is_rw then set map i (phys_mem_set_dirty_bit pr offset) else map in
      if not pr.is_ram then (none, map) else (some (pr.phys_mem + offset), map')
]
