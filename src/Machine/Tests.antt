-- ===== src/Machine/Tests.antt =====
-- Concrete machines, and each theorem on one of them.
use d_risc_v_emulator_tinyem.Base.{
  bit_not, ℕ, ◌+◌, ◌*◌, ◌%◌, ◌^◌, ◌<◌, ◌≡◌, ◌≢◌, ◌⊎◌, arith, true, false, some, tst,
}
use d_risc_v_emulator_tinyem.Riscv.Init.{zeroed}
use d_risc_v_emulator_tinyem.Machine.{
  RiscvMachine, claimable, plic_read, plic_write, clint_read, clint_write, htif_write, silent,
  write_data, rtc_get_time, riscv_cpu_get_cycles,
}
use d_risc_v_emulator_tinyem.Machine.Plic.{
  IsPlicState, IsClaim, plic_read-IsClaim, plic_write-plic_read,
}
use d_risc_v_emulator_tinyem.Machine.Clint.{clint_read-clint_write_low, clint_read-clint_write}
use d_risc_v_emulator_tinyem.Machine.Htif.{htif_write-putchar}

-- Interrupts 2 and 6 are pending, and 2 is served.
abbrev board : RiscvMachine
board = record {
  cpu_state = record zeroed { mip = 2 ^ 11 + 2 ^ 9; power_down_flag = true; insn_counter = 1600 };
  rtc_real_time = false;
  rtc_start_time = 0;
  timecmp = 2 ^ 40 + 7;
  plic_pending_irq = 2 ^ 5 + 2 ^ 1;
  plic_served_irq = 2 ^ 1;
  htif_tohost = 5;
  htif_fromhost = 0;
}

board-IsPlicState : IsPlicState board
board-IsPlicState = record {
  pending_fits = omega arith;
  served_fits = omega arith;
  mip_fits = omega arith;
}

plic_read-IsClaim_example :
    ((claimable board ≡ 0) × (plic_read board 0x200004 2 ≡ some (0, board)))
    ⊎ ((i : ℕ) × (t : RiscvMachine) × (plic_read board 0x200004 2 ≡ some (i + 1, t))
        × IsClaim board t i)
plic_read-IsClaim_example = plic_read-IsClaim board board-IsPlicState

board_waits : claimable board ≢ 0
unfolding bit_not
board_waits = λ e. absurd (omega arith)

plic_write-plic_read_example :
    (i : ℕ) × (t : RiscvMachine) × (u : RiscvMachine) × (plic_read board 0x200004 2
      ≡ some (i + 1, t))
    × (plic_write t 0x200004 (i + 1) 2 ≡ some u)
    × (u.plic_served_irq ≡ board.plic_served_irq)
    × (u.plic_pending_irq ≡ board.plic_pending_irq)
plic_write-plic_read_example = plic_write-plic_read board board-IsPlicState board_waits

-- The high word of the compare register, 2 ^ 8, is lost.
clint_read-clint_write_low_example :
    (t : RiscvMachine) × (clint_write board 0x4000 9 2 ≡ some t)
    × (clint_read t (0, 0) 0x4000 2 ≡ some 9)
    × (clint_read t (0, 0) 0x4004 2 ≡ some 0)
clint_read-clint_write_low_example = clint_read-clint_write_low board (0, 0) 9 (omega arith)

clint_read-clint_write_example :
    (t : RiscvMachine) × (u : RiscvMachine) × (clint_write board 0x4000 9 2 ≡ some t)
    × (clint_write t 0x4004 1 2 ≡ some u)
    × (u.timecmp ≡ 9 + 1 * 2 ^ 32)
    × (clint_read u (0, 0) 0x4000 2 ≡ some 9)
    × (clint_read u (0, 0) 0x4004 2 ≡ some 1)
    × (tst t.cpu_state.mip 0x80 ≡ false)
    × (tst u.cpu_state.mip 0x80 ≡ false)
clint_read-clint_write_example =
    clint_read-clint_write board (0, 0) 9 1 (omega arith) (omega arith) (omega arith)

board_time : rtc_get_time board (0, 0) < 2 ^ 63
unfolding rtc_get_time riscv_cpu_get_cycles
board_time = omega arith

htif_write-putchar_example :
    (t : RiscvMachine) × (htif_write board 0 65 2 ≡ some (silent, t))
    × (htif_write t 4 0x1010000 2
        ≡ some (
          write_data (65 % 256),
          record board { htif_tohost = 0; htif_fromhost = 0x101 * 2 ^ 48 },
        ))
htif_write-putchar_example = htif_write-putchar board 65 (omega arith)
