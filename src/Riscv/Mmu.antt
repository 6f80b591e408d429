-- ===== src/Riscv/Mmu.antt =====
-- riscv_cpu.c: physical accesses and the translation of addresses, for MAX_XLEN = 64.
-- Host memory is `Mem`, and `mem_map` is passed beside the hart's state. satp holds mode 0, 8 or 9.
pub mod Leaf
pub mod Walk
use d_risc_v_emulator_tinyem.Base.{
  ℕ, zero, suc, ◌+◌, ◌-◌, ◌*◌, ◌/◌, ◌%◌, ◌^◌, ◌<◌, bit_and, bit_or, bit_not, Bool, true, false, not,
  ◌&&◌, ◌||◌, ◌==◌, ltb, if◌then◌else◌, u64, tst, Option, none, some, Mem, load_le, store_le,
}
use d_risc_v_emulator_tinyem.Iomem.{PhysMemoryRange, PhysMemoryMap, get_phys_mem_range}
use d_risc_v_emulator_tinyem.Riscv.State.{
  RiscvCpuState, max_xlen, prv_s, prv_m, pg_shift, mstatus_mprv, mstatus_mxr, mstatus_sum,
}

-- `phys_write_u8`, `u32` and `u64`: `n` bytes at a physical address, in RAM only.
unfoldable pub phys_write : ℕ → PhysMemoryMap → Mem → ℕ → ℕ → Mem
phys_write n map m addr val = elim (get_phys_mem_range map addr) [
  | none ↦ m
  | some (_, pr) ↦ if not pr.is_ram then m else store_le n m (pr.phys_mem + (addr - pr.addr)) val
]

unfoldable pub phys_read : ℕ → PhysMemoryMap → Mem → ℕ → ℕ
phys_read n map m addr = elim (get_phys_mem_range map addr) [
  | none ↦ 0
  | some (_, pr) ↦ if not pr.is_ram then 0 else load_le n m (pr.phys_mem + (addr - pr.addr))
]

abbrev pub pte_v_mask : ℕ
pte_v_mask = 2 ^ 0

abbrev pub pte_u_mask : ℕ
pte_u_mask = 2 ^ 4

abbrev pub pte_a_mask : ℕ
pte_a_mask = 2 ^ 6

abbrev pub pte_d_mask : ℕ
pte_d_mask = 2 ^ 7

abbrev pub access_read : ℕ
access_read = 0

abbrev pub access_write : ℕ
access_write = 1

abbrev pub access_code : ℕ
access_code = 2

-- The privilege that an access is made with.
unfoldable pub access_priv : RiscvCpuState → ℕ → ℕ
access_priv s access =
    if tst s.mstatus mstatus_mprv && not (access == access_code)
    then bit_and (s.mstatus / 2 ^ 11) 3
    else s.priv

-- `((target_long)vaddr << shift) >> shift`
unfoldable pub sign_extended : ℕ → ℕ → ℕ
sign_extended vaddr shift =
    let x = u64 (vaddr * 2 ^ shift) in
    if ltb x (2 ^ 63) then x / 2 ^ shift else x / 2 ^ shift + (2 ^ 64 - 2 ^ (64 - shift))

-- Whether an entry that is a leaf lets the access through.
unfoldable pub leaf_allows : RiscvCpuState → ℕ → ℕ → ℕ → Bool
leaf_allows s priv access pte =
    let xwr = bit_and (pte / 2 ^ 1) 7 in
    let xwr' = if tst s.mstatus mstatus_mxr then bit_or xwr (xwr / 2 ^ 2) else xwr in
    not (xwr == 2 || xwr == 6)
    && (if priv == prv_s
        then not (tst pte pte_u_mask && not (tst s.mstatus mstatus_sum))
        else tst pte pte_u_mask)
    && not (bit_and (xwr' / 2 ^ access) 1 == 0)

unfoldable pub need_write : ℕ → ℕ → Bool
need_write access pte =
    not (tst pte pte_a_mask) || (not (tst pte pte_d_mask) && access == access_write)

-- The entry with its digits A and D after the access.
unfoldable pub used_pte : ℕ → ℕ → ℕ
used_pte access pte =
    let pte' = bit_or pte pte_a_mask in
    if access == access_write then bit_or pte' pte_d_mask else pte'

-- The loop, with `left` rounds to go: `levels - 1 - i` is `left - 1`, and `pte_bits` is 9.
unfoldable pub walk : ℕ → RiscvCpuState → PhysMemoryMap → Mem → ℕ → ℕ → ℕ → ℕ → Option ℕ × Mem
walk zero s map m priv vaddr access table = (none, m)
walk (suc left) s map m priv vaddr access table =
    let vaddr_shift = pg_shift + 9 * left in
    let pte_idx = bit_and (vaddr / 2 ^ vaddr_shift) 0x1ff in
    let pte_addr = u64 (table + pte_idx * 2 ^ 3) in
    let pte = phys_read 8 map m pte_addr in
    let paddr = u64 (pte / 2 ^ 10 * 2 ^ pg_shift) in
    let vaddr_mask = 2 ^ vaddr_shift - 1 in
    let rest = walk left s map m priv vaddr access paddr in
    if not (tst pte pte_v_mask)
    then (none, m)
    else if bit_and (pte / 2 ^ 1) 7 == 0
    then rest
    else if leaf_allows s priv access pte
    then (
      some (bit_or (bit_and vaddr vaddr_mask) (bit_and paddr (bit_not 64 vaddr_mask))),
      (if need_write access pte then phys_write 8 map m pte_addr (used_pte access pte) else m),
    )
    else (none, m)

-- `none` is -1.
unfoldable pub get_phys_addr : RiscvCpuState → PhysMemoryMap → Mem → ℕ → ℕ → Option ℕ × Mem
get_phys_addr s map m vaddr access =
    let priv = access_priv s access in
    let mode = bit_and (s.satp / 2 ^ 60) 0xf in
    let levels = mode + 3 - 8 in
    let table = bit_and s.satp (2 ^ 44 - 1) * 2 ^ pg_shift in
    if priv == prv_m
    then (some (if ltb s.cur_xlen max_xlen then bit_and vaddr (2 ^ s.cur_xlen - 1) else vaddr), m)
    else if mode == 0
    then (some vaddr, m)
    else if not (sign_extended vaddr (max_xlen - (pg_shift + levels * 9)) == vaddr)
    then (none, m)
    else walk levels s map m priv vaddr access table
