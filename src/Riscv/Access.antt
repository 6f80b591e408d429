-- ===== src/Riscv/Access.antt =====
-- riscv_cpu.c and riscv_cpu_priv.h: loads, stores and fetches, through the TLBs and past them.
-- The device behind a range is code of other files: a callback is a parameter that reads the hart and
-- changes the devices, memory and, by calls, the pending interrupts.
mod Tests
pub mod Fetch
pub mod Fill
pub mod Reload
use d_risc_v_emulator_tinyem.Base.{
  ℕ, zero, suc, ◌+◌, ◌-◌, ◌*◌, ◌/◌, ◌%◌, ◌^◌, ◌<◌, bit_and, bit_or, bit_not, Bool, true, false, not,
  ◌&&◌, ◌||◌, ◌==◌, ltb, if◌then◌else◌, u32, u64, tst, Option, none, some, set, Mem, load_le,
  store_le, List, [], ◌∷◌,
}
use d_risc_v_emulator_tinyem.Base.Int.{pos}
use d_risc_v_emulator_tinyem.Iomem.{
  PhysMemoryRange, PhysMemoryMap, get_phys_mem_range, phys_mem_set_dirty_bit, devio_size32,
}
use d_risc_v_emulator_tinyem.Riscv.State.{
  RiscvCpuState, TlbEntry, Tlb, tlb_size, pg_shift, pg_mask, cause_fault_fetch,
  cause_fetch_page_fault, cause_load_page_fault, cause_store_page_fault,
}
use d_risc_v_emulator_tinyem.Riscv.Tlb.{update_tlb}
use d_risc_v_emulator_tinyem.Riscv.Irq.{set_mip, reset_mip}
use d_risc_v_emulator_tinyem.Riscv.Mmu.{get_phys_addr, access_read, access_write, access_code}

-- A hart with what it can reach.
pub record Hart (D : Type 0) : Type 0 where
  pub cpu : RiscvCpuState
  pub map : PhysMemoryMap
  pub mem : Mem
  pub devices : D

-- The calls by which a callback drives the hart's interrupt lines: `riscv_cpu_set_mip` and
-- `riscv_cpu_reset_mip`.
pub data MipCall : Type 0 where
  mip_set : ℕ → MipCall
  mip_reset : ℕ → MipCall

unfoldable pub make_call : RiscvCpuState → MipCall → RiscvCpuState
make_call s (mip_set mask) = set_mip s (u32 mask)
make_call s (mip_reset mask) = reset_mip s (u32 mask)

unfoldable pub make_calls : List MipCall → RiscvCpuState → RiscvCpuState
make_calls [] s = s
make_calls (c ∷ cs) s = make_calls cs (make_call s c)

-- What a callback leaves: the devices, the memory map with its dirty bits, host memory, to which a
-- device may have copied, and its calls, in order.
pub record Answer (D : Type 0) : Type 0 where
  pub devices : D
  pub map : PhysMemoryMap
  pub mem : Mem
  pub calls : List MipCall

-- The callbacks of the devices, on the range's `device`, the offset, the value of a write and the size.
pub record Devices (D : Type 0) : Type 0 where
  pub read_func : Hart D → ℕ → ℕ → ℕ → ℕ × Answer D
  pub write_func : Hart D → ℕ → ℕ → ℕ → ℕ → Answer D

unfoldable pub answered : {D : Type 0} → Hart D → Answer D → Hart D
answered h a = record {
  cpu = make_calls a.calls h.cpu;
  map = a.map;
  mem = a.mem;
  devices = a.devices;
}

-- A load: -1 with an exception pending, 0 with a value, or 0 with `*pval` not written.
pub data Load : Type 0 where
  fault : Load
  value : ℕ → Load
  unset : Load

-- `*pval = val`, to the type of the access.
unfoldable pub narrow : ℕ → Load → Load
narrow size_log2 fault = fault
narrow size_log2 (value v) = value (v % 2 ^ (8 * 2 ^ size_log2))
narrow size_log2 unset = unset

abbrev pub tlb_idx_of : ℕ → ℕ
tlb_idx_of addr = bit_and (addr / 2 ^ pg_shift) (tlb_size - 1)

abbrev pub page_of : ℕ → ℕ
page_of addr = bit_and addr (bit_not 64 pg_mask)

-- The entry that the slow paths store for `addr`, whose host address is `ptr`.
abbrev pub entry_for : ℕ → ℕ → TlbEntry
entry_for addr ptr = record { vaddr = page_of addr; mem_addend = (ptr + 2 ^ 64 - addr) % 2 ^ 64 }

-- `tlb[idx].mem_addend + (uintptr_t)addr`
abbrev pub host_of : TlbEntry → ℕ → ℕ
host_of e addr = (e.mem_addend + addr) % 2 ^ 64

-- The fast path's test for an access of `n` bytes.
abbrev pub tlb_hits : Tlb → ℕ → ℕ → Bool
tlb_hits t addr n =
    (t (tlb_idx_of addr)).vaddr == bit_and addr (bit_not 64 (bit_and pg_mask (bit_not 64 (n - 1))))

abbrev pub raise_pending : {D : Type 0} → Hart D → ℕ → ℕ → Hart D
raise_pending h addr cause = record h {
  cpu = record h.cpu { pending_tval = addr; pending_exception = pos cause };
}

-- What an unaligned load makes of its two parts.
unfoldable pub join_parts : (ℕ → ℕ → ℕ) → Load → Load → Load
join_parts f fault w = fault
join_parts f (value a) fault = fault
join_parts f (value a) (value b) = value (f a b)
join_parts f (value a) unset = unset
join_parts f unset fault = fault
join_parts f unset (value b) = unset
join_parts f unset unset = unset

module _ {D : Type 0} (dev : Devices D) where
  -- A device's answer to a load, in one access or, for 64 bits, in two of 32.
  unfoldable pub device_read : Hart D → PhysMemoryRange → ℕ → ℕ → Load × Hart D
  device_read h pr offset size_log2 =
      if not (bit_and (pr.devio_flags / 2 ^ size_log2) 1 == 0)
      then (let (v, a) = dev.read_func h pr.device (u32 offset) size_log2 in
          (value (u32 v), answered h a))
      else if tst pr.devio_flags devio_size32 && size_log2 == 3
      then (let (lo, a) = dev.read_func h pr.device (u32 offset) 2 in
          let h' = answered h a in
          let (hi, a') = dev.read_func h' pr.device (u32 (offset + 4)) 2 in
          (value (bit_or (u32 lo) (u32 hi * 2 ^ 32)), answered h' a'))
      else (value 0, h)

  -- A load at a physical address, in the range that was found for it.
  unfoldable pub read_range : Hart D → ℕ → ℕ → ℕ → Option (ℕ × PhysMemoryRange) → Load × Hart D
  read_range h addr size_log2 paddr none = (unset, h)
  read_range h addr size_log2 paddr (some (i, pr)) =
      let ptr = pr.phys_mem + (paddr - pr.addr) in
      if pr.is_ram
      then (
        value (load_le (2 ^ size_log2) h.mem ptr),
        record h {
          cpu = record h.cpu {
            tlb_read = update_tlb h.cpu.tlb_read (tlb_idx_of addr) (entry_for addr ptr);
          };
        },
      )
      else device_read h pr (paddr - pr.addr) size_log2

  unfoldable pub read_translated : Hart D → ℕ → ℕ → Option ℕ × Mem → Load × Hart D
  read_translated h addr size_log2 (none, mem) =
      (fault, raise_pending (record h { mem = mem }) addr cause_load_page_fault)
  read_translated h addr size_log2 (some paddr, mem) =
      read_range (record h { mem = mem }) addr size_log2 paddr (get_phys_mem_range h.map paddr)

  -- The branch of `target_read_slow` for an aligned address.
  unfoldable pub read_aligned : Hart D → ℕ → ℕ → Load × Hart D
  read_aligned h addr size_log2 =
      read_translated h addr size_log2 (get_phys_addr h.cpu h.map h.mem addr access_read)

  -- `target_read_u8` to `u64` at an aligned address, for which `target_read_slow` is `read_aligned`.
  unfoldable pub read_part : Hart D → ℕ → ℕ → Load × Hart D
  read_part h addr size_log2 =
      if tlb_hits h.cpu.tlb_read addr (2 ^ size_log2)
      then (
        value (load_le (2 ^ size_log2) h.mem (host_of (h.cpu.tlb_read (tlb_idx_of addr)) addr)),
        h,
      )
      else (let (v, h') = read_aligned h addr size_log2 in (narrow size_log2 v, h'))

  unfoldable pub read_two : Hart D → ℕ → ℕ → ℕ → (ℕ → ℕ → ℕ) → Load × Hart D
  read_two h first second size_log2 f =
      let (v0, h0) = read_part h first size_log2 in
      let (v1, h1) = read_part h0 second size_log2 in
      elim v0 [
        | fault ↦ (fault, h0)
        | value a ↦ (join_parts f (value a) v1, h1)
        | unset ↦ (join_parts f unset v1, h1)
      ]

  -- `size_log2` is from 0 to 3.
  unfoldable pub target_read_slow : Hart D → ℕ → ℕ → Load × Hart D
  target_read_slow h addr size_log2 =
      let al = bit_and addr (2 ^ size_log2 - 1) in
      let base = addr - al in
      if not (al == 0)
      then (if size_log2 == 1
          then read_two h addr (u64 (addr + 1)) 0 (λ v0 v1. bit_or v0 (v1 * 2 ^ 8))
          else if size_log2 == 2
          then read_two h base (u64 (base + 4)) 2
              (λ v0 v1. bit_or (v0 / 2 ^ (al * 8)) (u32 (v1 * 2 ^ (32 - al * 8))))
          else read_two h base (u64 (base + 8)) 3
              (λ v0 v1. bit_or (v0 / 2 ^ (al * 8)) (u64 (v1 * 2 ^ (64 - al * 8)))))
      else read_aligned h addr size_log2

  -- `target_read_u8` to `target_read_u64`.
  unfoldable pub target_read : Hart D → ℕ → ℕ → Load × Hart D
  target_read h addr size_log2 =
      if tlb_hits h.cpu.tlb_read addr (2 ^ size_log2)
      then (
        value (load_le (2 ^ size_log2) h.mem (host_of (h.cpu.tlb_read (tlb_idx_of addr)) addr)),
        h,
      )
      else (let (v, h') = target_read_slow h addr size_log2 in (narrow size_log2 v, h'))

  unfoldable pub device_write : Hart D → PhysMemoryRange → ℕ → ℕ → ℕ → Hart D
  device_write h pr offset val size_log2 =
      if not (bit_and (pr.devio_flags / 2 ^ size_log2) 1 == 0)
      then answered h (dev.write_func h pr.device (u32 offset) (u32 val) size_log2)
      else if tst pr.devio_flags devio_size32 && size_log2 == 3
      then (let h' =
            answered h (dev.write_func h pr.device (u32 offset) (bit_and val 0xffffffff) 2) in
          answered h'
            (dev.write_func h' pr.device (u32 (offset + 4)) (bit_and (val / 2 ^ 32) 0xffffffff) 2))
      else h

  -- A store at a physical address, in the range that was found for it.
  unfoldable pub write_range : Hart D → ℕ → ℕ → ℕ → ℕ → Option (ℕ × PhysMemoryRange) → Hart D
  write_range h addr val size_log2 paddr none = h
  write_range h addr val size_log2 paddr (some (i, pr)) =
      let ptr = pr.phys_mem + (paddr - pr.addr) in
      if pr.is_ram
      then record h {
        map = set h.map i (phys_mem_set_dirty_bit pr (paddr - pr.addr));
        mem = store_le (2 ^ size_log2) h.mem ptr val;
        cpu = record h.cpu {
          tlb_write = update_tlb h.cpu.tlb_write (tlb_idx_of addr) (entry_for addr ptr);
        };
      }
      else device_write h pr (paddr - pr.addr) val size_log2

  unfoldable pub write_translated : Hart D → ℕ → ℕ → ℕ → Option ℕ × Mem → Bool × Hart D
  write_translated h addr val size_log2 (none, mem) =
      (true, raise_pending (record h { mem = mem }) addr cause_store_page_fault)
  write_translated h addr val size_log2 (some paddr, mem) = (
    false,
    write_range (record h { mem = mem }) addr val size_log2 paddr (get_phys_mem_range h.map paddr),
  )

  -- The branch of `target_write_slow` for an aligned address; true is -1.
  unfoldable pub write_aligned : Hart D → ℕ → ℕ → ℕ → Bool × Hart D
  write_aligned h addr val size_log2 =
      write_translated h addr val size_log2 (get_phys_addr h.cpu h.map h.mem addr access_write)

  unfoldable pub write_part : Hart D → ℕ → ℕ → ℕ → Bool × Hart D
  write_part h addr val size_log2 =
      if tlb_hits h.cpu.tlb_write addr (2 ^ size_log2)
      then (
        false,
        record h {
          mem =
              store_le (2 ^ size_log2) h.mem (host_of (h.cpu.tlb_write (tlb_idx_of addr)) addr) val;
        },
      )
      else write_aligned h addr val size_log2

  -- The loop over the bytes of an unaligned store, from byte `i`.
  unfoldable pub write_bytes : ℕ → ℕ → Hart D → ℕ → ℕ → Bool × Hart D
  write_bytes zero i h addr val = (false, h)
  write_bytes (suc left) i h addr val =
      let (err, h') = write_part h (u64 (addr + i)) (bit_and (val / 2 ^ (8 * i)) 0xff) 0 in
      let rest = write_bytes left (i + 1) h' addr val in if err then (true, h') else rest

  unfoldable pub target_write_slow : Hart D → ℕ → ℕ → ℕ → Bool × Hart D
  target_write_slow h addr val size_log2 =
      if not (bit_and addr (2 ^ size_log2 - 1) == 0)
      then write_bytes (2 ^ size_log2) 0 h addr val
      else write_aligned h addr val size_log2

  -- `target_write_u8` to `target_write_u64`, to whose types the value is cut.
  unfoldable pub target_write : Hart D → ℕ → ℕ → ℕ → Bool × Hart D
  target_write h addr wide size_log2 =
      let val = wide % 2 ^ (8 * 2 ^ size_log2) in
      if tlb_hits h.cpu.tlb_write addr (2 ^ size_log2)
      then (
        false,
        record h {
          mem =
              store_le (2 ^ size_log2) h.mem (host_of (h.cpu.tlb_write (tlb_idx_of addr)) addr) val;
        },
      )
      else target_write_slow h addr val size_log2
