-- ===== src/Iomem/Tests.antt =====
-- A small memory map, and each theorem on it.
use d_risc_v_emulator_tinyem.Base.{
  ℕ, ◌≡◌, refl, arith, true, ◌==◌, if◌then◌else◌, ◌⊎◌, some, none, [], ◌∷◌,
}
use d_risc_v_emulator_tinyem.Iomem.{
  PhysMemoryRange, PhysMemoryMap, get_phys_mem_range, default_get_dirty_bits,
}
use d_risc_v_emulator_tinyem.Iomem.Snapshot.{Snapshot, default_get_dirty_bits-Snapshot}
use d_risc_v_emulator_tinyem.Iomem.Lookup.{IsFirstRange, IsUnmapped, get_phys_mem_range_lem}

-- A frame buffer of 64 pages, with page 33 dirty.
abbrev framebuffer : PhysMemoryRange
framebuffer = record {
  addr = 0x41000000;
  org_size = 0x40000;
  size = 0x40000;
  is_ram = true;
  devram_flags = 2;
  phys_mem = 0x700000;
  dirty_bits_size = 8;
  has_dirty_bits = true;
  dirty_bits_tab = λ t i. if i == 1 then 2 else 0;
  dirty_bits_index = 0;
  device = 0;
  devio_flags = 0;
}

default_get_dirty_bits-Snapshot_example :
    Snapshot framebuffer (default_get_dirty_bits framebuffer) 1 0x3000 0x21000
default_get_dirty_bits-Snapshot_example =
    default_get_dirty_bits-Snapshot framebuffer 1 0x3000 0x21000 refl (omega arith) (omega arith)

abbrev one_range : PhysMemoryMap
one_range = framebuffer ∷ []

get_phys_mem_range_lem_example :
    ((i : ℕ) × (pr : PhysMemoryRange) × (get_phys_mem_range one_range 0x41000004 ≡ some (i, pr))
      × IsFirstRange one_range 0x41000004 i pr)
    ⊎ ((get_phys_mem_range one_range 0x41000004 ≡ none) × IsUnmapped one_range 0x41000004)
get_phys_mem_range_lem_example = get_phys_mem_range_lem one_range 0x41000004
