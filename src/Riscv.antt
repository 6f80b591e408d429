-- ===== src/Riscv.antt =====
-- The RISC-V hart of riscv_cpu.c, built with MAX_XLEN = 64 and FLEN = 64.
pub mod State
pub mod Tlb
pub mod Mstatus
pub mod Trap
pub mod Irq
pub mod Csr
pub mod Init
pub mod Invariant
pub mod Steps
pub mod Mmu
pub mod Alu
pub mod Exec
pub mod Interp
pub mod Access
mod Tests
