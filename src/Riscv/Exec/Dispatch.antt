-- ===== src/Riscv/Exec/Dispatch.antt =====
-- riscv_cpu_template.h: what holds at the end of each instruction, from what holds for opcode 0x73.
use d_risc_v_emulator_tinyem.Base.{ℕ}
use d_risc_v_emulator_tinyem.Riscv.Access.{Devices, Hart}
use d_risc_v_emulator_tinyem.Riscv.Alu.Words.{IsWidth}
use d_risc_v_emulator_tinyem.Riscv.Exec.{Outcome}
use d_risc_v_emulator_tinyem.Riscv.Exec.Effect.{HasEffect, Ends, if-Ends}
use d_risc_v_emulator_tinyem.Riscv.Exec.Plain.{
  lui-HasEffect, auipc-HasEffect, jal-HasEffect, jalr-HasEffect, branch-HasEffect, load-HasEffect,
  store-HasEffect, fp_load-HasEffect, fp_store-HasEffect, misc_mem-HasEffect, atomic-HasEffect,
  fp_arith-HasEffect, compute-HasEffect,
}
use d_risc_v_emulator_tinyem.Riscv.Exec.Compressed.{
  quadrant0-HasEffect, quadrant1-HasEffect, quadrant2-HasEffect,
}
use d_risc_v_emulator_tinyem.Riscv.Exec.System.{system}
use d_risc_v_emulator_tinyem.Riscv.Exec.Insn.{exec_wide, exec_insn}

module _ {D : Type 0} (dev : Devices D) (xlen : ℕ) (w : IsWidth xlen) (h : Hart D)
    {K S : Hart D → Type 0} (keep : (o : Outcome D) → HasEffect h.cpu o → Ends K S o) where
  exec_wide-Ends :
      (insn counter : ℕ)
      → Ends K S (system xlen h insn counter)
      → Ends K S (exec_wide dev xlen h insn counter)
  unfolding exec_wide
  exec_wide-Ends insn counter sys =
      let lui' = keep _ (lui-HasEffect dev xlen w h insn) in
      let auipc' = keep _ (auipc-HasEffect dev xlen w h insn) in
      let jal' = keep _ (jal-HasEffect dev xlen w h insn) in
      let jalr' = keep _ (jalr-HasEffect dev xlen w h insn) in
      let branch' = keep _ (branch-HasEffect dev xlen w h insn) in
      let load' = keep _ (load-HasEffect dev xlen w h insn) in
      let store' = keep _ (store-HasEffect dev xlen w h insn) in
      let fp_load' = keep _ (fp_load-HasEffect dev xlen w h insn) in
      let fp_store' = keep _ (fp_store-HasEffect dev xlen w h insn) in
      let misc_mem' = keep _ (misc_mem-HasEffect dev xlen w h insn) in
      let atomic' = keep _ (atomic-HasEffect dev xlen w h insn) in
      let fp = keep _ (fp_arith-HasEffect dev xlen w h) in
      let ops = λ (opcode : ℕ). keep _ (compute-HasEffect dev xlen w h insn opcode) in
      search (if-Ends, ops) depth 18

  pub exec_insn-Ends :
      (insn counter : ℕ)
      → Ends K S (system xlen h insn counter)
      → Ends K S (exec_insn dev xlen h insn counter)
  unfolding exec_insn
  exec_insn-Ends insn counter sys =
      let q0 = keep _ (quadrant0-HasEffect dev xlen w h insn) in
      let q1 = keep _ (quadrant1-HasEffect dev xlen w h insn) in
      let q2 = keep _ (quadrant2-HasEffect dev xlen w h insn) in
      search (if-Ends, exec_wide-Ends) depth 9
