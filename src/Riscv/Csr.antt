-- ===== src/Riscv/Csr.antt =====
-- riscv_cpu.c: reading and writing the control and status registers, for MAX_XLEN = 64, FLEN = 64.
pub mod Coherence
pub mod Isolation
use d_risc_v_emulator_tinyem.Base.{
  ℕ, ◌+◌, ◌-◌, ◌*◌, ◌/◌, ◌%◌, ◌^◌, bit_and, bit_or, bit_not, Bool, true, false, not, ◌&&◌, ◌||◌,
  ltb, leb, ◌==◌, if◌then◌else◌, Option, none, some, u32, u64,
}
use d_risc_v_emulator_tinyem.Riscv.State.{
  RiscvCpuState, max_xlen, prv_s, prv_m, cause_store_page_fault, mip_ssip, mip_msip, mip_stip,
  mip_mtip, mip_seip,
}
use d_risc_v_emulator_tinyem.Riscv.Tlb.{tlb_flush_all}
use d_risc_v_emulator_tinyem.Riscv.Mstatus.{
  sstatus_mask, counteren_mask, get_mstatus, set_mstatus, get_base_from_xlen,
}

-- The case labels of the two `switch (csr)`.
pub data Csr : Type 0 where
  fflags frm fcsr : Csr
  cycle instret cycleh instreth : Csr
  sstatus sie stvec scounteren sscratch sepc scause stval sip satp : Csr
  mstatus misa medeleg mideleg mie mtvec mcounteren : Csr
  mscratch mepc mcause mtval mip : Csr
  mcycle minstret mcycleh minstreth mhartid : Csr
  unknown : Csr

unfoldable pub machine_csr : ℕ → Csr
machine_csr n =
    if n == 0x300
    then Csr.mstatus
    else if n == 0x301
    then Csr.misa
    else if n == 0x302
    then Csr.medeleg
    else if n == 0x303
    then Csr.mideleg
    else if n == 0x304
    then Csr.mie
    else if n == 0x305
    then Csr.mtvec
    else if n == 0x306
    then Csr.mcounteren
    else if n == 0x340
    then Csr.mscratch
    else if n == 0x341
    then Csr.mepc
    else if n == 0x342
    then Csr.mcause
    else if n == 0x343
    then Csr.mtval
    else if n == 0x344
    then Csr.mip
    else if n == 0xb00
    then Csr.mcycle
    else if n == 0xb02
    then Csr.minstret
    else if n == 0xb80
    then Csr.mcycleh
    else if n == 0xb82
    then Csr.minstreth
    else if n == 0xf14
    then Csr.mhartid
    else Csr.unknown

unfoldable pub csr_of : ℕ → Csr
unfolding machine_csr
csr_of n =
    if n == 0x001
    then Csr.fflags
    else if n == 0x002
    then Csr.frm
    else if n == 0x003
    then Csr.fcsr
    else if n == 0xc00
    then Csr.cycle
    else if n == 0xc02
    then Csr.instret
    else if n == 0xc80
    then Csr.cycleh
    else if n == 0xc82
    then Csr.instreth
    else if n == 0x100
    then Csr.sstatus
    else if n == 0x104
    then Csr.sie
    else if n == 0x105
    then Csr.stvec
    else if n == 0x106
    then Csr.scounteren
    else if n == 0x140
    then Csr.sscratch
    else if n == 0x141
    then Csr.sepc
    else if n == 0x142
    then Csr.scause
    else if n == 0x143
    then Csr.stval
    else if n == 0x144
    then Csr.sip
    else if n == 0x180
    then Csr.satp
    else machine_csr n

-- Whether the counter with bit `k` of the enable registers may be read.
unfoldable pub counter_allowed : RiscvCpuState → ℕ → Bool
counter_allowed s k =
    let counteren = if ltb s.priv prv_s then s.scounteren else s.mcounteren in
    if ltb s.priv prv_m then not (bit_and (counteren / 2 ^ k) 1 == 0) else true

unfoldable pub read_high : RiscvCpuState → ℕ → Option ℕ
read_high s k =
    if not (s.cur_xlen == 32)
    then none
    else if counter_allowed s k
    then some (s.insn_counter / 2 ^ 32)
    else none

-- The `switch` of `csr_read`; `none` is the return of -1.
unfoldable pub read_csr : RiscvCpuState → Csr → Option ℕ
read_csr s Csr.fflags = if s.fs == 0 then none else some s.fflags
read_csr s Csr.frm = if s.fs == 0 then none else some s.frm
read_csr s Csr.fcsr = if s.fs == 0 then none else some (bit_or s.fflags (s.frm * 2 ^ 5))
read_csr s Csr.cycle = if counter_allowed s 0 then some s.insn_counter else none
read_csr s Csr.instret = if counter_allowed s 2 then some s.insn_counter else none
read_csr s Csr.cycleh = read_high s 0
read_csr s Csr.instreth = read_high s 2
read_csr s Csr.sstatus = some (get_mstatus s sstatus_mask)
read_csr s Csr.sie = some (bit_and s.mie s.mideleg)
read_csr s Csr.stvec = some s.stvec
read_csr s Csr.scounteren = some s.scounteren
read_csr s Csr.sscratch = some s.sscratch
read_csr s Csr.sepc = some s.sepc
read_csr s Csr.scause = some s.scause
read_csr s Csr.stval = some s.stval
read_csr s Csr.sip = some (bit_and s.mip s.mideleg)
read_csr s Csr.satp = some s.satp
read_csr s Csr.mstatus = some (get_mstatus s (2 ^ 64 - 1))
read_csr s Csr.misa = some (bit_or s.misa (u64 (s.mxl * 2 ^ (s.cur_xlen - 2))))
read_csr s Csr.medeleg = some s.medeleg
read_csr s Csr.mideleg = some s.mideleg
read_csr s Csr.mie = some s.mie
read_csr s Csr.mtvec = some s.mtvec
read_csr s Csr.mcounteren = some s.mcounteren
read_csr s Csr.mscratch = some s.mscratch
read_csr s Csr.mepc = some s.mepc
read_csr s Csr.mcause = some s.mcause
read_csr s Csr.mtval = some s.mtval
read_csr s Csr.mip = some s.mip
read_csr s Csr.mcycle = some s.insn_counter
read_csr s Csr.minstret = some s.insn_counter
read_csr s Csr.mcycleh = if not (s.cur_xlen == 32) then none else some (s.insn_counter / 2 ^ 32)
read_csr s Csr.minstreth = if not (s.cur_xlen == 32) then none else some (s.insn_counter / 2 ^ 32)
read_csr s Csr.mhartid = some s.mhartid
read_csr s Csr.unknown = none

unfoldable pub csr_read : RiscvCpuState → ℕ → Bool → Option ℕ
csr_read s csr will_write =
    if bit_and csr 0xc00 == 0xc00 && will_write
    then none
    else if ltb s.priv (bit_and (csr / 2 ^ 8) 3)
    then none
    else read_csr s (csr_of csr)

unfoldable pub set_frm : RiscvCpuState → ℕ → RiscvCpuState
set_frm s val = record s { frm = if leb 5 val then 0 else val }

unfoldable pub get_insn_rm : RiscvCpuState → ℕ → Option ℕ
get_insn_rm s rm = if rm == 7 then some s.frm else if leb 5 rm then none else some rm

-- The return values -1, 0, 1 and 2 of `csr_write`.
pub data WriteResult : Type 0 where
  invalid done exit_loop tlb_flushed : WriteResult

-- `(old & ~mask) | (val & mask)`, where `mask` is a `target_ulong`.
abbrev pub merge : ℕ → ℕ → ℕ → ℕ
merge old mask val = bit_or (bit_and old (bit_not 64 mask)) (bit_and val mask)

-- The mode field of satp after a write of `val`.
unfoldable pub satp_mode : ℕ → ℕ → ℕ
satp_mode old val =
    let mode = old / 2 ^ 60 in
    let new_mode = bit_and (val / 2 ^ 60) 0xf in
    if new_mode == 0 || leb 8 new_mode && leb new_mode 9 then new_mode else mode

unfoldable pub write_satp : ℕ → ℕ → ℕ
write_satp old val = bit_or (bit_and val (2 ^ 44 - 1)) (satp_mode old val * 2 ^ 60)

unfoldable pub write_misa : RiscvCpuState → ℕ → WriteResult × RiscvCpuState
write_misa s val =
    let new_mxl = bit_and (val / 2 ^ (s.cur_xlen - 2)) 3 in
    if leb 1 new_mxl && leb new_mxl (get_base_from_xlen max_xlen) && not (s.mxl == new_mxl)
    then (WriteResult.exit_loop, record s { mxl = new_mxl; cur_xlen = 2 ^ (new_mxl + 4) })
    else (WriteResult.done, s)

-- The `switch` of `csr_write`.
unfoldable pub write_csr : RiscvCpuState → Csr → ℕ → WriteResult × RiscvCpuState
write_csr s Csr.fflags val = (WriteResult.done, record s { fflags = bit_and val 0x1f; fs = 3 })
write_csr s Csr.frm val =
    let s1 = set_frm s (bit_and val 7) in (WriteResult.done, record s1 { fs = 3 })
write_csr s Csr.fcsr val =
    let s1 = set_frm s (bit_and (val / 2 ^ 5) 7) in
    (WriteResult.done, record s1 { fflags = bit_and val 0x1f; fs = 3 })
write_csr s Csr.sstatus val = (WriteResult.done, set_mstatus s (merge s.mstatus sstatus_mask val))
write_csr s Csr.sie val = (WriteResult.done, record s { mie = u32 (merge s.mie s.mideleg val) })
write_csr s Csr.stvec val = (WriteResult.done, record s { stvec = bit_and val (bit_not 64 3) })
write_csr s Csr.scounteren val =
    (WriteResult.done, record s { scounteren = bit_and val counteren_mask })
write_csr s Csr.sscratch val = (WriteResult.done, record s { sscratch = val })
write_csr s Csr.sepc val = (WriteResult.done, record s { sepc = bit_and val (bit_not 64 1) })
write_csr s Csr.scause val = (WriteResult.done, record s { scause = val })
write_csr s Csr.stval val = (WriteResult.done, record s { stval = val })
write_csr s Csr.sip val = (WriteResult.done, record s { mip = u32 (merge s.mip s.mideleg val) })
write_csr s Csr.satp val =
    let s1 = record s { satp = write_satp s.satp val } in
    (WriteResult.tlb_flushed, tlb_flush_all s1)
write_csr s Csr.mstatus val = (WriteResult.done, set_mstatus s val)
write_csr s Csr.misa val = write_misa s val
write_csr s Csr.medeleg val = (
  WriteResult.done,
  record s { medeleg = u32 (merge s.medeleg (2 ^ (cause_store_page_fault + 1) - 1) val) },
)
write_csr s Csr.mideleg val = (
  WriteResult.done,
  record s { mideleg = u32 (merge s.mideleg (mip_ssip + mip_stip + mip_seip) val) },
)
write_csr s Csr.mie val = (
  WriteResult.done,
  record s { mie = u32 (merge s.mie (mip_msip + mip_mtip + mip_ssip + mip_stip + mip_seip) val) },
)
write_csr s Csr.mtvec val = (WriteResult.done, record s { mtvec = bit_and val (bit_not 64 3) })
write_csr s Csr.mcounteren val =
    (WriteResult.done, record s { mcounteren = bit_and val counteren_mask })
write_csr s Csr.mscratch val = (WriteResult.done, record s { mscratch = val })
write_csr s Csr.mepc val = (WriteResult.done, record s { mepc = bit_and val (bit_not 64 1) })
write_csr s Csr.mcause val = (WriteResult.done, record s { mcause = val })
write_csr s Csr.mtval val = (WriteResult.done, record s { mtval = val })
write_csr s Csr.mip val =
    (WriteResult.done, record s { mip = u32 (merge s.mip (mip_ssip + mip_stip) val) })
write_csr s _ val = (WriteResult.invalid, s)

unfoldable pub csr_write : RiscvCpuState → ℕ → ℕ → WriteResult × RiscvCpuState
csr_write s csr val = write_csr s (csr_of csr) val
