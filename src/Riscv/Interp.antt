-- ===== src/Riscv/Interp.antt =====
-- riscv_cpu_template.h: the loop of the interpreter, over blocks of instructions in one page; and
-- riscv_cpu.c: the loop around it. `n` is the parameter n_cycles, and `used` is by how much the
-- variable of that name has come down, so that it is at most 0 when `n` is at most `used`.
-- The host addresses `code_ptr` and `code_end` are numbers; NULL is 0.
pub mod Block
pub mod Progress
pub mod Timeout
mod Tests
use d_risc_v_emulator_tinyem.Base.{
  ℕ, zero, suc, ◌+◌, ◌-◌, ◌*◌, ◌^◌, ◌%◌, bit_and, bit_or, bit_not, Bool, true, false, not, ◌&&◌,
  ◌==◌, ltb, leb, if◌then◌else◌, u32, u64, Option, none, some, load_le,
}
use d_risc_v_emulator_tinyem.Base.Int.{ℤ, pos, negsuc}
use d_risc_v_emulator_tinyem.Riscv.State.{RiscvCpuState, pg_mask}
use d_risc_v_emulator_tinyem.Riscv.Irq.{raise_interrupt}
use d_risc_v_emulator_tinyem.Riscv.Trap.{raise_exception2}
use d_risc_v_emulator_tinyem.Riscv.Access.{Devices, Hart, tlb_idx_of, page_of, host_of}
use d_risc_v_emulator_tinyem.Riscv.Access.Fetch.{target_read_insn_slow, target_read_insn_u16}
use d_risc_v_emulator_tinyem.Riscv.Exec.{
  Outcome, next, jump, illegal_insn, exception, done_interp, undefined, floating, set_pc,
}
use d_risc_v_emulator_tinyem.Riscv.Exec.Insn.{exec_insn}
use d_risc_v_emulator_tinyem.Riscv.Exec.System.{set_cpu, set_insn_counter}

abbrev pub cause_illegal_instruction : ℕ
cause_illegal_instruction = 0x2

-- How the next instruction is found: with the block it is in, or not, at one of three labels.
pub data Fetch (D : Type 0) : Type 0 where
  insn_at : ℕ → ℕ → ℕ → Hart D → Fetch D
  to_the_end : Hart D → Fetch D
  to_exception : Hart D → Fetch D

-- How a run of the interpreter ends: after a number of cycles, at a load or an instruction whose
-- effect is not known, in `abort`, or, in the model alone, without fuel.
pub data Run (D : Type 0) : Type 0 where
  returned : ℕ → Hart D → Run D
  unknown : Hart D → Run D
  aborted : Hart D → Run D
  no_fuel : Run D

-- A pending interrupt, taken if it is enabled. The flag says whether one was.
unfoldable pub check_interrupts : {D : Type 0} → Hart D → Bool × Hart D
check_interrupts h =
    let (taken, cpu) = raise_interrupt h.cpu in
    if not (bit_and h.cpu.mip h.cpu.mie == 0) then (taken, set_cpu h cpu) else (false, h)

-- The end of a block that starts at host address `ptr` and guest address `addr`.
unfoldable pub block_end : ℕ → ℕ → ℕ
block_end ptr addr = ptr + (pg_mask - 1 - bit_and addr pg_mask)

-- The second half of an instruction in the last two bytes of a page.
unfoldable pub second_half : {D : Type 0} → ℕ → ℕ → Option ℕ × Hart D → Fetch D
second_half ptr low (none, h) = to_exception h
second_half ptr low (some insn_high, h) = insn_at (bit_or low (insn_high * 2 ^ 16)) ptr ptr h

unfoldable pub first_insn : {D : Type 0} → ℕ → Option ℕ × Hart D → Fetch D
first_insn addr (none, h) = to_exception h
first_insn addr (some ptr, h) =
    let low = load_le 2 h.mem ptr in
    if leb (block_end ptr addr) ptr
    then (if bit_and low 3 == 3
        then second_half ptr low (target_read_insn_u16 h (u64 (addr + 2)))
        else insn_at low ptr ptr h)
    else insn_at (load_le 4 h.mem ptr) ptr (block_end ptr addr) h

unfoldable pub fetch_block : {D : Type 0} → Hart D → Fetch D
fetch_block h =
    let addr = h.cpu.pc in
    let e = h.cpu.tlb_code (tlb_idx_of addr) in
    first_insn addr
      (if e.vaddr == page_of addr then (some (host_of e addr), h) else target_read_insn_slow h addr)

unfoldable pub after_interrupts : {D : Type 0} → Bool × Hart D → Fetch D
after_interrupts (true, h) = to_the_end h
after_interrupts (false, h) = fetch_block h

-- The top of the loop.
unfoldable pub fetch_insn : {D : Type 0} → ℕ → ℕ → ℕ → ℕ → Hart D → Fetch D
fetch_insn n used code_ptr code_end h =
    if leb code_end code_ptr
    then (if leb n used then to_the_end h else after_interrupts (check_interrupts h))
    else insn_at (load_le 4 h.mem code_ptr) code_ptr code_end h

-- The label `exception`, and `illegal_insn` before it.
unfoldable pub take_exception : {D : Type 0} → ℤ → Hart D → Hart D
take_exception (pos cause) h = set_cpu h (raise_exception2 h.cpu cause h.cpu.pending_tval)
take_exception (negsuc k) h = h

unfoldable pub take_illegal : {D : Type 0} → Hart D → ℕ → Hart D
take_illegal h insn =
    let cpu = record h.cpu {
      pending_exception = pos cause_illegal_instruction;
      pending_tval = insn;
    } in
    set_cpu h (raise_exception2 cpu cause_illegal_instruction insn)

-- The label `the_end`: `counter` is `insn_counter` on entry.
unfoldable pub the_end : {D : Type 0} → ℕ → ℕ → Hart D → Run D
the_end counter used h = returned used (set_insn_counter h (u64 (counter + used)))

-- What follows an instruction of the block from `ptr` to `end`, `rest` being the loop.
unfoldable pub after_insn :
    {D : Type 0} → (ℕ → ℕ → ℕ → Hart D → Run D) → ℕ → ℕ → ℕ → ℕ → ℕ → Outcome D → Run D
after_insn rest counter used insn ptr end (next len h) =
    rest (used + 1) (ptr + len) end (set_pc h (u64 (h.cpu.pc + len)))
after_insn rest counter used insn ptr end (jump h) = rest (used + 1) 0 0 h
after_insn rest counter used insn ptr end (illegal_insn h) =
    the_end counter (used + 1) (take_illegal h insn)
after_insn rest counter used insn ptr end (exception h) =
    the_end counter (used + 1) (take_exception h.cpu.pending_exception h)
after_insn rest counter used insn ptr end (done_interp h) = the_end counter (used + 1) h
after_insn rest counter used insn ptr end (undefined h) = unknown h
after_insn rest counter used insn ptr end (floating h) = unknown h

module _ {D : Type 0} (dev : Devices D) (xlen n counter : ℕ) where
  unfoldable pub after_fetch : (ℕ → ℕ → ℕ → Hart D → Run D) → ℕ → Fetch D → Run D
  after_fetch rest used (insn_at insn ptr end h) =
      after_insn rest counter used insn ptr end (exec_insn dev xlen h insn (u64 (counter + used)))
  after_fetch rest used (to_the_end h) = the_end counter used h
  after_fetch rest used (to_exception h) =
      the_end counter (used + 1) (take_exception h.cpu.pending_exception h)

  -- The main loop, at most `fuel` instructions of it.
  unfoldable pub interp_loop : ℕ → ℕ → ℕ → ℕ → Hart D → Run D
  interp_loop zero used code_ptr code_end h = no_fuel
  interp_loop (suc fuel) used code_ptr code_end h =
      after_fetch (interp_loop fuel) used (fetch_insn n used code_ptr code_end h)

-- An instruction of 2 bytes at each even offset of a page, at most.
abbrev pub block_fuel : ℕ
block_fuel = 2050

-- The start of `riscv_cpu_interp_x32` and `riscv_cpu_interp_x64`, after the first check for interrupts.
unfoldable pub start_loop : {D : Type 0} → Devices D → ℕ → ℕ → ℕ → Bool × Hart D → Run D
start_loop dev xlen n counter (true, h) = the_end counter 1 h
start_loop dev xlen n counter (false, h) =
    interp_loop dev xlen n counter (n + block_fuel) 0 0 0
      (set_cpu h (record h.cpu { pending_exception = negsuc 0 }))

unfoldable pub riscv_cpu_interp_x : {D : Type 0} → Devices D → ℕ → Hart D → ℕ → Run D
riscv_cpu_interp_x dev xlen h n =
    if n == 0 then returned 0 h else start_loop dev xlen n h.cpu.insn_counter (check_interrupts h)

-- A width of neither 32 nor 64 ends the program.
unfoldable pub interp_width : {D : Type 0} → Devices D → Hart D → ℕ → Run D
interp_width dev h n =
    if h.cpu.cur_xlen == 32
    then riscv_cpu_interp_x dev 32 h n
    else if h.cpu.cur_xlen == 64
    then riscv_cpu_interp_x dev 64 h n
    else aborted h

-- What follows a run in the loop `rest`, after `total` cycles.
unfoldable pub after_run : {D : Type 0} → (ℕ → Hart D → Run D) → ℕ → Run D → Run D
after_run rest total (returned used h) = rest (total + used) h
after_run rest total (unknown h) = unknown h
after_run rest total (aborted h) = aborted h
after_run rest total no_fuel = no_fuel

-- `timeout - s->insn_counter`, to 32 bits.
abbrev pub cycles_left : {D : Type 0} → ℕ → Hart D → ℕ
cycles_left timeout h = u32 (timeout + 2 ^ 64 - h.cpu.insn_counter)

-- The condition of the loop: the cycles left are positive as an `int`.
abbrev pub goes_on : {D : Type 0} → ℕ → Hart D → Bool
goes_on timeout h =
    not h.cpu.power_down_flag
    && (ltb 0 (cycles_left timeout h) && ltb (cycles_left timeout h) (2 ^ 31))

unfoldable pub interp_until : {D : Type 0} → Devices D → ℕ → ℕ → ℕ → Hart D → Run D
interp_until dev zero timeout total h = if goes_on timeout h then no_fuel else returned total h
interp_until dev (suc fuel) timeout total h =
    let ran =
      after_run (interp_until dev fuel timeout) total
        (interp_width dev h (cycles_left timeout h)) in
    if goes_on timeout h then ran else returned total h

-- `riscv_cpu_interp64`
unfoldable pub riscv_cpu_interp : {D : Type 0} → Devices D → Hart D → ℕ → Run D
riscv_cpu_interp dev h n = interp_until dev n (u64 (h.cpu.insn_counter + n)) 0 h
