-- ===== src/Riscv/Init.antt =====
-- riscv_cpu.c: a new hart, and the calls by which the machine reads it.
use d_risc_v_emulator_tinyem.Base.{ℕ, ◌+◌, ◌*◌, ◌^◌, false, bit_or}
use d_risc_v_emulator_tinyem.Base.Int.{pos}
use d_risc_v_emulator_tinyem.Riscv.State.{
  RiscvCpuState, max_xlen, prv_m, mstatus_uxl_shift, mstatus_sxl_shift,
}
use d_risc_v_emulator_tinyem.Riscv.Tlb.{tlb_init}
use d_risc_v_emulator_tinyem.Riscv.Mstatus.{get_base_from_xlen}

-- What `mallocz` returns.
abbrev pub zeroed : RiscvCpuState
zeroed = record {
  pc = 0;
  reg = λ _. 0;
  fp_reg = λ _. 0;
  fflags = 0;
  frm = 0;
  cur_xlen = 0;
  priv = 0;
  fs = 0;
  mxl = 0;
  insn_counter = 0;
  power_down_flag = false;
  pending_exception = pos 0;
  pending_tval = 0;
  mstatus = 0;
  mtvec = 0;
  mscratch = 0;
  mepc = 0;
  mcause = 0;
  mtval = 0;
  mhartid = 0;
  misa = 0;
  mie = 0;
  mip = 0;
  medeleg = 0;
  mideleg = 0;
  mcounteren = 0;
  stvec = 0;
  sscratch = 0;
  sepc = 0;
  scause = 0;
  stval = 0;
  satp = 0;
  scounteren = 0;
  load_res = 0;
  tlb_read = λ _. record { vaddr = 0; mem_addend = 0 };
  tlb_write = λ _. record { vaddr = 0; mem_addend = 0 };
  tlb_code = λ _. record { vaddr = 0; mem_addend = 0 };
}

-- MCPUID_SUPER, USER, I, M, A, F, D and C.
abbrev pub misa_reset : ℕ
misa_reset = 2 ^ 18 + 2 ^ 20 + 2 ^ 8 + 2 ^ 12 + 2 ^ 0 + 2 ^ 5 + 2 ^ 3 + 2 ^ 2

unfoldable pub riscv_cpu_init : RiscvCpuState
riscv_cpu_init =
    let mxl = get_base_from_xlen max_xlen in
    tlb_init (record zeroed {
      pc = 0x1000;
      priv = prv_m;
      cur_xlen = max_xlen;
      mxl = mxl;
      mstatus = bit_or (mxl * 2 ^ mstatus_uxl_shift) (mxl * 2 ^ mstatus_sxl_shift);
      misa = misa_reset;
    })
