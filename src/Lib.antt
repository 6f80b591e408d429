-- ===== src/Lib.antt =====
-- TinyEMU in C, source_c/: the RISC-V hart, its memory map and the machine around it.
--
-- The parts and how they interact. A hart (source_c/riscv_cpu.c) translates the addresses of its
-- loads, stores and fetches and caches the translations in three TLBs. Physical addresses go to the
-- memory map (source_c/iomem.c), which leads to RAM in the host's memory or to the callbacks of a
-- device, and keeps dirty bits for the pages of some ranges. The machine (source_c/riscv_machine.c)
-- raises and lowers the interrupt lines of the hart through its interrupt controller and its timer.
-- VirtIO devices (source_c/virtio.c) exchange buffers with the guest through rings in its RAM.
-- A PS/2 keyboard and a mouse (source_c/ps2.c) hand their bytes over through a queue and an interrupt line.
--
-- Which file models which part:
--   * Base: numbers of a fixed width and their binary digits, lists, host memory as bytes (Memory),
--     fields of a word (Fields), integers (Int).
--   * Cutils: source_c/cutils.h and cutils.c, byte order (Endian), ctz32 (Ctz) and the growing buffer
--     (Dbuf, Dbuf/Append).
--   * Iomem: source_c/iomem.c and iomem.h. A PhysMemoryMap is the list of its ranges, and a call of
--     flush_tlb_write_range is a value that an operation returns. Lookup, Dirty and Snapshot hold
--     the proofs about get_phys_mem_range and the dirty bits.
--   * Riscv: source_c/riscv_cpu.c, riscv_cpu_priv.h. State is RISCVCPUState; Tlb, Mstatus, Csr, Trap,
--     Irq, Init, Mmu and Access have its operations under their names in the source, and their
--     child modules the proofs: what keeps the TLBs coherent (Coherence), what a less privileged
--     program cannot reach (Csr/Isolation), the digits of mstatus (Trap/Fields), the page table
--     (Mmu/Leaf, Mmu/Walk), fast paths (Access/Fill, Access/Reload). Invariant and Steps have the
--     well-formed states and the transitions that keep them so.
--   * Riscv/Alu, Riscv/Exec, Riscv/Interp: source_c/riscv_cpu_template.h. Alu is the arithmetic of the
--     integer instructions. Exec executes one instruction: Jumps, Memory, Atomic, System and
--     Quadrant0 to 2 have the cases of the switch over the opcodes, Insn the switch itself, and an
--     Outcome says by which of the code's labels or macros the instruction ends. Interp is the loop
--     over blocks of instructions and, from riscv_cpu.c, the loop around it. Exec/Effect, Accesses,
--     Parity, Plain, Compressed and Privileged have what the instructions do to a hart, control
--     registers aside; Dispatch collects them, for Sound and Isolated. Interp/Block, Progress
--     and Timeout have the bound on the loops.
--   * Machine: source_c/riscv_machine.c, the PLIC (Plic), the CLINT (Clint) and HTIF (Htif).
--   * Ps2: source_c/ps2.c, the queue (Queue), the keyboard and the mouse (Mouse, Mouse/Packets); calls of
--     update_irq are a trace. The loop that sends the packets of a motion has as fuel the sum of the
--     absolute deltas and 1, and each packet takes off at least 1.
--   * Pckbd: source_c/pckbd.c, the keyboard controller that reads and commands the two PS/2 devices;
--     Status and Reach have its invariant, Buffer the way of a byte through it.
--   * Virtio: source_c/virtio.c. VirtioDevice is VIRTIODevice, with a parameter for what a kind of device
--     adds to it. Virtio has the access of guest memory, Queue the chains of descriptors, Notify the
--     loop of queue_notify, Config the configuration space, Regs/Mmio and Regs/Pci the two
--     transports, Init the start on the memory-mapped one, Block the block device and Console the
--     console with the events of the input device. Valid has the well-formed devices, and Regs/Keeps
--     and Regs/Handlers that the handlers keep them so, for the kinds of device that IsKind
--     describes, which Block/Kind and Console/Kind fill. Confined, Safety, Pages and Used are about guest
--     memory, Queue/Chain, Notify/Rounds and Notify/Keeps about the loops, Regs/Halves and
--     Config/Bounds about the registers. The loops over a chain have fuel, since a guest can make
--     them endless; a chain that ends needs as much as it has descriptors. The copies by page have
--     the number of bytes as fuel, and queue_notify has 65,536 rounds, which Rounds shows to be
--     enough.
--   * Tests in each of them has concrete states, on which each theorem is applied.
--
-- The model. Numbers are naturals with the wrap-around of their C types written out, and MAX_XLEN is
-- 64. An operation takes the state and returns the new one. Loops are recursion on the number of
-- rounds left, which is the source's bound: 32 digits for ctz32, 256 entries of a TLB, the levels of
-- the page table, the bytes of a store, so no fuel is needed. The loops of the interpreter have fuel:
-- a run of `n` cycles gets `n` + 2,050, since only the end of a block tests the cycles and a block has
-- at most 2,047 instructions of 2 bytes, and the loop around it gets its cycles, of which each run
-- uses one at least; Timeout shows that neither runs out. An instruction whose effect the
-- model does not know, the arithmetic of the FPU or a load that found no range, ends a run as `unknown`. Host memory is a function from addresses to bytes, and a TLB
-- entry has the host address less the guest address modulo 2 ^ 64, as the source does. Code outside
-- these files is a parameter: the callbacks of devices (Riscv.Access.Devices), which read the hart and
-- change the devices, the memory map, host memory and, by calls of riscv_cpu_set_mip and
-- riscv_cpu_reset_mip, the pending interrupts; the host's clock (the argument `now`), what mallocz
-- returns, and the disk behind a block device. In Virtio the buffer of the host that a chain is copied
-- from or to is a memory of its own: what the code writes past its ends is not followed.
--
-- Not modelled: the arithmetic of floating point (source_c/softfp.c, riscv_cpu_fp_template.h), the device
-- tree and set-up of the machine, the other devices (the rest of VirtIO, PCI, IDE, displays), file
-- systems, front ends, the x86 machine, and the port to D in source_d/.
pub mod Base
pub mod Cutils
pub mod Iomem
pub mod Riscv
pub mod Machine
pub mod Ps2
pub mod Pckbd
pub mod Virtio
