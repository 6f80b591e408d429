-- ===== src/Virtio/Tests.antt =====
-- Devices of four kilobytes of guest memory, and what the theorems say of them.
use d_risc_v_emulator_tinyem.Base.{
  tst, ℕ, zero, suc, ◌+◌, ◌-◌, ◌*◌, ◌/◌, ◌%◌, ◌^◌, ◌<◌, ◌≡◌, refl, sym, ap, arith, Bool, true,
  false, ltb, leb, if◌then◌else◌, Option, none, some, List, [], ◌∷◌, get_elem?, Mem, u64, load_le,
}
use d_risc_v_emulator_tinyem.Iomem.Ram.{IsPaged}
use d_risc_v_emulator_tinyem.Iomem.{
  phys_mem_get_ram_ptr, get_phys_mem_range, range_from, in_range, PhysMemoryRange, PhysMemoryMap,
}
use d_risc_v_emulator_tinyem.Virtio.Block.Kind.{virtio_block-IsKind}
use d_risc_v_emulator_tinyem.Virtio.Block.{
  BlockDevice, BlockState, VirtioBlockDevice, virtio_block_recv_request,
}
use d_risc_v_emulator_tinyem.Virtio.Notify.Keeps.{Returned}
use d_risc_v_emulator_tinyem.Virtio.Pages.{ram_ptr, IsCopy, virtio_memcpy_from_ram-IsCopy}
use d_risc_v_emulator_tinyem.Virtio.Queue.Chain.{
  IsChain, last, next, chain_sizes, get_desc_rw_size-chain_sizes, IsEndless,
  get_desc_rw_size-IsEndless,
}
use d_risc_v_emulator_tinyem.Virtio.Queue.{
  rw_size_from, write_size_from, find_offset, copy_chain, copy_found, seek_and_copy, VirtioDesc,
  get_desc, desc_at, desc_flags, desc_next, get_desc_rw_size, memcpy_to_from_queue,
  memcpy_from_queue,
}
use d_risc_v_emulator_tinyem.Virtio.Regs.Halves.{desc, mmio_set_register-mmio_register}
use d_risc_v_emulator_tinyem.Virtio.Regs.Handlers.{virtio_mmio_write-IsDevice}
use d_risc_v_emulator_tinyem.Virtio.Regs.Mmio.{virtio_mmio_write, mmio_register, mmio_set_register}
use d_risc_v_emulator_tinyem.Virtio.Regs.{selected}
use d_risc_v_emulator_tinyem.Virtio.Used.{IsRing, IsUsed, virtio_consume_desc-IsUsed}
use d_risc_v_emulator_tinyem.Virtio.Valid.{IsDevice}
use d_risc_v_emulator_tinyem.Virtio.{
  virtio_consume_desc, from_ram_pages, get_ram_ptr, VirtioDevice, QueueState, virtio_read16,
  virtio_memcpy_from_ram,
}
use mathlib.Core.Option.{some-injective}
use mathlib.Core.Path.{subst}

abbrev page_of_ram : PhysMemoryRange
page_of_ram = record {
  addr = 0x1000;
  org_size = 0x1000;
  size = 0x1000;
  is_ram = true;
  devram_flags = 0;
  phys_mem = 0x50000;
  dirty_bits_size = 0;
  has_dirty_bits = false;
  dirty_bits_tab = λ _ _. 0;
  dirty_bits_index = 0;
  device = 0;
  devio_flags = 0;
}

abbrev one_page : PhysMemoryMap
one_page = page_of_ram ∷ []

in_one_page :
    (P : PhysMemoryRange → Type 0) (i : ℕ) (pr : PhysMemoryRange)
    → get_elem? one_page i ≡ some pr
    → P page_of_ram
    → P pr
in_one_page P zero pr e p = subst P (some-injective _ _ e) p
in_one_page P (suc i) pr e p = cc

one_page-IsPaged : IsPaged one_page
one_page-IsPaged = record {
  addr_paged = λ i pr e. in_one_page (λ r. r.addr % 4096 ≡ 0) i pr e refl;
  size_paged = λ i pr e. in_one_page (λ r. r.size % 4096 ≡ 0) i pr e refl;
  end_fits = λ i pr e. in_one_page (λ r. r.addr + r.size < 2 ^ 64) i pr e (omega arith);
}

-- Little-endian numbers at addresses of the guest, the first that fits.
abbrev bytes_at : List (ℕ × ℕ × ℕ) → Mem
bytes_at [] q = 0
bytes_at ((n, p, v) ∷ rest) q =
    let later = bytes_at rest q in
    if leb (0x50000 + p) q
    then (if ltb q (0x50000 + p + n) then v / 256 ^ (q - 0x50000 - p) % 256 else later)
    else later

abbrev ring : QueueState
ring = record {
  ready = 1;
  num = 4;
  last_avail_idx = 0;
  desc_addr = 0x1000;
  avail_addr = 0x1100;
  used_addr = 0x1200;
  manual_recv = false;
}

abbrev demo : {D : Type 0} → D → List (ℕ × ℕ × ℕ) → VirtioDevice D
demo d words = record {
  mem_map = one_page;
  mem = bytes_at words;
  irq_level = 0;
  int_status = 0;
  status = 4;
  device_features_sel = 0;
  queue_sel = 0;
  queue = λ _. ring;
  device_id = 2;
  vendor_id = 0xffff;
  device_features = 0;
  config_space_size = 8;
  config_space = λ _. 0;
  device = d;
}

demo-IsDevice : {D : Type 0} (d : D) (words : List (ℕ × ℕ × ℕ)) → IsDevice (demo d words)
demo-IsDevice d words = record {
  sel_bound = omega arith;
  queues = λ i b. record {
    ready_fits = omega arith;
    num_power = (2, refl);
    num_fits = omega arith;
    last_fits = omega arith;
    desc_fits = omega arith;
    avail_fits = omega arith;
    used_fits = omega arith;
  };
  line = refl;
  paged = one_page-IsPaged;
}

-- Two descriptors: 16 bytes to read, and 512 and one bytes to write.
abbrev two_descs : List (ℕ × ℕ × ℕ)
two_descs =
    (8, 0, 0x1800)
    ∷ (4, 8, 16)
    ∷ (2, 12, 1)
    ∷ (2, 14, 1)
    ∷ (8, 16, 0x1400)
    ∷ (4, 24, 513)
    ∷ (2, 28, 2)
    ∷ (2, 30, 0)
    ∷ (2, 0x102, 1)
    ∷ []

-- A descriptor whose next is itself.
abbrev loop_desc : List (ℕ × ℕ × ℕ)
loop_desc = (4, 8, 16) ∷ (2, 12, 1) ∷ []

blank : VirtioDesc
blank = λ _. 0

abbrev idle : BlockState
idle = record {
  req_in_progress = false;
  req = record { req_type = 0; buf = λ _. 0; write_size = 0; queue_idx = 0; desc_idx = 0 };
}

-- A disk that answers every request at once.
abbrev disk : BlockDevice
disk = record {
  read_async = λ sector buf n. (0, λ q. if ltb q (n * 512) then sector % 256 else buf q);
  write_async = λ sector buf n. 0;
  get_sector_count = 64;
}

abbrev block_demo : VirtioBlockDevice
block_demo = demo idle two_descs

-- The sizes of a chain of two, and a chain that is its own next.
chain_sizes_run :
    (get_desc_rw_size 2 blank block_demo 0 0 ≡ some (some (16, 513)))
    × (get_desc_rw_size 9 blank (demo idle loop_desc) 0 0 ≡ none)
unfolding get_desc_rw_size rw_size_from write_size_from tst load_le desc_at get_desc
    virtio_memcpy_from_ram from_ram_pages get_ram_ptr phys_mem_get_ram_ptr get_phys_mem_range
    range_from in_range blank
chain_sizes_run = (refl, refl)

-- A chain whose first descriptor has the length 2^32 - 1.
abbrev long_desc : List (ℕ × ℕ × ℕ)
long_desc =
    (8, 0, 0x1800)
    ∷ (4, 8, 2 ^ 32 - 1)
    ∷ (2, 12, 1)
    ∷ (2, 14, 1)
    ∷ (8, 16, 0x1400)
    ∷ (4, 24, 64)
    ∷ (2, 28, 0)
    ∷ (1, 0x400, 0xab)
    ∷ []

-- The byte before the buffer, after a copy.
abbrev byte_before : Option (Bool × VirtioBlockDevice × Mem) → ℕ
byte_before none = 0
byte_before (some (_, _, buf)) = buf (2 ^ 64 - 1)

-- The copy of 16 bytes out of it writes the byte before the buffer.
copy_underflow_run :
    byte_before (memcpy_from_queue 3 blank (demo idle long_desc) blank 0 0 0 16) ≡ 0xab
unfolding memcpy_from_queue memcpy_to_from_queue seek_and_copy copy_found find_offset copy_chain tst
    load_le desc_at get_desc virtio_memcpy_from_ram from_ram_pages get_ram_ptr phys_mem_get_ram_ptr
    get_phys_mem_range range_from in_range blank
copy_underflow_run = refl

virtio_mmio_write-IsDevice_example : Returned IsDevice (
    virtio_mmio_write 2 blank (virtio_block_recv_request 2 blank disk) (λ s. s) block_demo 0x50 0 2)
virtio_mmio_write-IsDevice_example =
    virtio_mmio_write-IsDevice (virtio_block_recv_request 2 blank disk) (λ s. s)
      (virtio_block-IsKind 2 blank disk) 2 blank block_demo 0x50 0 2 (omega arith)
      (demo-IsDevice idle two_descs)

virtio_memcpy_from_ram-IsCopy_example :
    let (ok, out) = virtio_memcpy_from_ram block_demo blank 0 0x1000 16 in
    IsCopy block_demo blank 0 0x1000 16 ok out
virtio_memcpy_from_ram-IsCopy_example =
    virtio_memcpy_from_ram-IsCopy block_demo blank 0 0x1000 16 one_page-IsPaged (omega arith)
      (omega arith)

abbrev first_desc : VirtioDesc
first_desc = desc_at block_demo blank 0 0

abbrev second_desc : VirtioDesc
second_desc = desc_at block_demo first_desc 0 (desc_next first_desc)

two-IsChain : IsChain block_demo 0 first_desc (first_desc ∷ second_desc ∷ [])
unfolding tst load_le desc_at get_desc virtio_memcpy_from_ram from_ram_pages get_ram_ptr
    phys_mem_get_ram_ptr get_phys_mem_range range_from in_range blank
two-IsChain = next refl (last refl)

get_desc_rw_size-chain_sizes_example :
    get_desc_rw_size 2 blank block_demo 0 0 ≡ some (chain_sizes (first_desc ∷ second_desc ∷ []))
get_desc_rw_size-chain_sizes_example =
    get_desc_rw_size-chain_sizes block_demo 0 2 blank 0 (first_desc ∷ second_desc ∷ []) two-IsChain
      (omega arith)

-- A descriptor with the flag `next` only, whose next is 0.
abbrev Loops : VirtioDesc → Type 0
Loops d = (desc_flags d ≡ 1) × (desc_next d ≡ 0)

desc_at-Loops : (d : VirtioDesc) → Loops (desc_at (demo idle loop_desc) d 0 0)
unfolding tst load_le desc_at get_desc virtio_memcpy_from_ram from_ram_pages get_ram_ptr
    phys_mem_get_ram_ptr get_phys_mem_range range_from in_range blank
desc_at-Loops d = (refl, refl)

loop-IsEndless : IsEndless (demo idle loop_desc) 0 Loops
unfolding tst
loop-IsEndless = record {
  is_read = λ d p. ap (λ (f : ℕ). tst f 2) p.0;
  goes_on = λ d p. ap (λ (f : ℕ). tst f 1) p.0;
  stays = λ d p.
      subst (λ (n : ℕ). Loops (desc_at (demo idle loop_desc) d 0 n)) (sym p.1) (desc_at-Loops d);
}

get_desc_rw_size-IsEndless_example : get_desc_rw_size 100 blank (demo idle loop_desc) 0 0 ≡ none
get_desc_rw_size-IsEndless_example =
    get_desc_rw_size-IsEndless (demo idle loop_desc) 0 Loops blank 0 loop-IsEndless
      (desc_at-Loops blank) 100

mmio_set_register-mmio_register_example :
    let t = mmio_set_register (mmio_set_register block_demo 0x80 0x2000) 0x84 1 in
    ((selected t).desc_addr ≡ 0x2000 + 1 * 2 ^ 32)
    × (mmio_register t 0x80 ≡ 0x2000)
    × (mmio_register t 0x84 ≡ 1)
mmio_set_register-mmio_register_example =
    mmio_set_register-mmio_register block_demo 0x80 0x84 (λ qs. qs.desc_addr) 0x2000 1 desc
      (omega arith) (omega arith) (omega arith)

block_demo-IsRing : IsRing block_demo 0 0x50200 2
unfolding ram_ptr phys_mem_get_ram_ptr get_phys_mem_range range_from in_range
block_demo-IsRing = record {
  paged = one_page-IsPaged;
  num_power = refl;
  aligned = refl;
  on_page = omega arith;
  fits = omega arith;
  there = refl;
}

virtio_consume_desc-IsUsed_example :
    let index = virtio_read16 block_demo (u64 0x1202) in
    IsUsed block_demo (virtio_consume_desc block_demo 0 1 513) 0x50200 2 index 1 513
virtio_consume_desc-IsUsed_example =
    virtio_consume_desc-IsUsed block_demo 0 1 513 0x50200 2 block_demo-IsRing
