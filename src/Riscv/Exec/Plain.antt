-- ===== src/Riscv/Exec/Plain.antt =====
-- riscv_cpu_template.h: the effects of the uncompressed instructions other than opcode 0x73.
use d_risc_v_emulator_tinyem.Base.{
  ℕ, ◌+◌, ◌*◌, ◌/◌, ◌%◌, ◌^◌, ◌<◌, ◌≤◌, ◌≡◌, ◌⊎◌, inr, refl, arith, bit_and, bit_or, bit_not, Bool,
  true, false, Option, none, some, u8, u16, u32,
}
use native.Mathlib.Nat.{mod-lt}
use d_risc_v_emulator_tinyem.Riscv.Access.{Devices, Hart, target_read}
use d_risc_v_emulator_tinyem.Riscv.Alu.{sx}
use d_risc_v_emulator_tinyem.Riscv.Alu.Words.{
  IsWidth, width_le, sx-lt, sar-lt, op_imm-Fits, op_imm_32-Fits, op-Fits, op_32-Fits,
}
use d_risc_v_emulator_tinyem.Riscv.Exec.{
  next, illegal_insn, rd_of, rs1_of, rs2_of, funct3_of, imm_i, set_reg, after_load, set_fp_reg,
}
use d_risc_v_emulator_tinyem.Riscv.Exec.Effect.{
  Effect, Effect-refl, Effect-trans, HasWords, HasEffect, if-HasEffect, next_ends, jump_ends,
  illegal_ends, floating_ends, set_reg-Effect, set_fp_reg-Effect, set_pc-Effect,
  after_load-HasEffect, after_store-HasEffect, after_op-HasEffect,
}
use d_risc_v_emulator_tinyem.Riscv.Exec.Accesses.{target_read-Effect, target_write-Effect}
use d_risc_v_emulator_tinyem.Riscv.Exec.Parity.{even_and, even_sx, even_imm_j, even_imm_b}
use d_risc_v_emulator_tinyem.Riscv.Exec.Jumps.{
  imm_j, imm_b, lui, auipc, jal, jalr, take_branch, branch,
}
use d_risc_v_emulator_tinyem.Riscv.Exec.Memory.{
  f32_high, address_i, load_reg, load, store, fp_load, fp_store, misc_mem,
}
use d_risc_v_emulator_tinyem.Riscv.Exec.Atomic.{
  set_load_res, load_reserved, store_conditional, amo, op_a, atomic,
}
use d_risc_v_emulator_tinyem.Riscv.Exec.Insn.{funct4_of, compute, fp_arith}

pub word-lt : (v : ℕ) → v % 2 ^ 64 < 2 ^ 64
word-lt v = mod-lt v (omega arith)

-- An even `pc` and an even offset make an even target.
pub even_target :
    (xlen pc imm : ℕ) → IsWidth xlen → imm % 2 ≡ 0 → pc % 2 ≡ 0 → sx xlen (pc + imm) % 2 ≡ 0
even_target xlen pc imm w i p = even_sx xlen (pc + imm) w (omega arith)

module _ {D : Type 0} (dev : Devices D) (xlen : ℕ) (w : IsWidth xlen) where
  -- An instruction that puts a word in a register.
  pub set_reg-HasEffect :
      (h : Hart D) (len rd val : ℕ)
      → (len ≡ 2) ⊎ (len ≡ 4)
      → (HasWords h.cpu → val < 2 ^ 64)
      → HasEffect h.cpu (next len (set_reg h rd val))
  set_reg-HasEffect h len rd val l lt = next_ends len _ l (set_reg-Effect h rd val lt)

  pub stays-HasEffect : (h : Hart D) → HasEffect h.cpu (illegal_insn h)
  stays-HasEffect h = illegal_ends h (Effect-refl h.cpu)

  pub goes-HasEffect : (h : Hart D) → HasEffect h.cpu (next 4 h)
  goes-HasEffect h = next_ends 4 h (inr refl) (Effect-refl h.cpu)

  pub lui-HasEffect : (h : Hart D) (insn : ℕ) → HasEffect h.cpu (lui xlen h insn)
  unfolding lui
  lui-HasEffect h insn =
      set_reg-HasEffect h 4 _ _ (inr refl) (λ r. sx-lt 32 (bit_and insn 0xfffff000) (omega arith))

  pub auipc-HasEffect : (h : Hart D) (insn : ℕ) → HasEffect h.cpu (auipc xlen h insn)
  unfolding auipc
  auipc-HasEffect h insn =
      set_reg-HasEffect h 4 _ _ (inr refl) (λ r. sx-lt xlen _ (width_le xlen w))

  pub jal-HasEffect : (h : Hart D) (insn : ℕ) → HasEffect h.cpu (jal xlen h insn)
  unfolding jal
  jal-HasEffect h insn = jump_ends _ (
      set_pc-Effect _ _ (set_reg-Effect h _ _ (λ r. word-lt (h.cpu.pc + 4)))
        (even_target xlen h.cpu.pc (imm_j insn) w (even_imm_j insn)))

  pub jalr-HasEffect : (h : Hart D) (insn : ℕ) → HasEffect h.cpu (jalr xlen h insn)
  unfolding jalr bit_not
  jalr-HasEffect h insn = jump_ends _ (
      Effect-trans (set_pc-Effect _ _ (Effect-refl h.cpu) (λ p. even_and _ (bit_not 64 1) refl))
        (set_reg-Effect _ _ _ (λ r. word-lt (h.cpu.pc + 4))))

  take_branch-HasEffect :
      (h : Hart D) (insn : ℕ) (cond : Option Bool) → HasEffect h.cpu (take_branch xlen h insn cond)
  unfolding take_branch
  take_branch-HasEffect h insn none = stays-HasEffect h
  take_branch-HasEffect h insn (some false) = next_ends 4 h (inr refl) (Effect-refl h.cpu)
  take_branch-HasEffect h insn (some true) = jump_ends _ (
      set_pc-Effect _ _ (Effect-refl h.cpu)
        (even_target xlen h.cpu.pc (imm_b insn) w (even_imm_b insn)))

  pub branch-HasEffect : (h : Hart D) (insn : ℕ) → HasEffect h.cpu (branch xlen h insn)
  unfolding branch
  branch-HasEffect h insn = take_branch-HasEffect h insn _

  load_reg-HasEffect :
      (h : Hart D) (insn rd k : ℕ) (f : ℕ → ℕ)
      → ((v : ℕ) → f v < 2 ^ 64)
      → HasEffect h.cpu (load_reg dev xlen h insn rd k f)
  unfolding load_reg
  load_reg-HasEffect h insn rd k f lt =
      after_load-HasEffect _ _ (λ v h'. set_reg-HasEffect h' 4 rd (f v) (inr refl) (λ r. lt v))
        (target_read-Effect dev h _ k)

  pub load-HasEffect : (h : Hart D) (insn : ℕ) → HasEffect h.cpu (load dev xlen h insn)
  unfolding load
  load-HasEffect h insn =
      let small = λ (n k : ℕ) (le : n ≤ 64).
        load_reg-HasEffect h insn (rd_of insn) k (sx n) (λ v. sx-lt n v le) in
      let b = small 8 0 (omega arith) in
      let s = small 16 1 (omega arith) in
      let l = small 32 2 (omega arith) in
      let d = small 64 3 (omega arith) in
      let bu =
        load_reg-HasEffect h insn (rd_of insn) 0 u8 (λ v. omega (arith, mod-lt v {m = 2 ^ 8})) in
      let su =
        load_reg-HasEffect h insn (rd_of insn) 1 u16 (λ v. omega (arith, mod-lt v {m = 2 ^ 16})) in
      let lu =
        load_reg-HasEffect h insn (rd_of insn) 2 u32 (λ v. omega (arith, mod-lt v {m = 2 ^ 32})) in
      search (if-HasEffect, stays-HasEffect) depth 18

  pub store-HasEffect : (h : Hart D) (insn : ℕ) → HasEffect h.cpu (store dev xlen h insn)
  unfolding store
  store-HasEffect h insn =
      if-HasEffect _
        (after_store-HasEffect _ _ (λ h'. next_ends 4 h' (inr refl) (Effect-refl h'.cpu))
          (target_write-Effect dev h _ _ _))
        (stays-HasEffect h)

  fp_load_reg-HasEffect :
      (h : Hart D) (rd addr k : ℕ) (f : ℕ → ℕ)
      → HasEffect h.cpu
          (after_load (λ v h'. next 4 (set_fp_reg h' rd (f v))) (target_read dev h addr k))
  fp_load_reg-HasEffect h rd addr k f =
      after_load-HasEffect _ _ (λ v h'. next_ends 4 _ (inr refl) (set_fp_reg-Effect h' rd (f v)))
        (target_read-Effect dev h addr k)

  pub fp_load-HasEffect : (h : Hart D) (insn : ℕ) → HasEffect h.cpu (fp_load dev xlen h insn)
  unfolding fp_load
  fp_load-HasEffect h insn =
      let addr = address_i h insn in
      let word = fp_load_reg-HasEffect h (rd_of insn) addr 2 (λ v. bit_or v f32_high) in
      let double = fp_load_reg-HasEffect h (rd_of insn) addr 3 (λ v. v) in
      search (if-HasEffect, stays-HasEffect) depth 9

  pub fp_store-HasEffect : (h : Hart D) (insn : ℕ) → HasEffect h.cpu (fp_store dev xlen h insn)
  unfolding fp_store
  fp_store-HasEffect h insn = if-HasEffect _ (stays-HasEffect h) (
      if-HasEffect _
        (after_store-HasEffect _ _ (λ h'. next_ends 4 h' (inr refl) (Effect-refl h'.cpu))
          (target_write-Effect dev h _ _ _))
        (stays-HasEffect h))

  pub misc_mem-HasEffect : (h : Hart D) (insn : ℕ) → HasEffect h.cpu (misc_mem dev xlen h insn)
  unfolding misc_mem
  misc_mem-HasEffect h insn = search (if-HasEffect, stays-HasEffect, goes-HasEffect) depth 9

  set_load_res-Effect : (h : Hart D) (addr : ℕ) → Effect h.cpu (set_load_res h addr).cpu
  unfolding set_load_res
  set_load_res-Effect h addr = record {
    control = refl;
    zero_kept = refl;
    words_kept = λ r. r;
    pc_kept = λ p. p;
    fs_kept = λ f. f;
    mip_kept = λ m. m;
  }

  load_reserved-HasEffect :
      (h : Hart D) (insn k : ℕ) → 8 * 2 ^ k ≤ 64 → HasEffect h.cpu (load_reserved dev xlen h insn k)
  unfolding load_reserved
  load_reserved-HasEffect h insn k le =
      after_load-HasEffect _ _
        (λ v h'. next_ends 4 _ (inr refl) (
          Effect-trans (set_load_res-Effect h' (h.cpu.reg (rs1_of insn)))
            (set_reg-Effect _ _ _ (λ r. sx-lt (8 * 2 ^ k) v le))))
        (target_read-Effect dev h _ k)

  store_conditional-HasEffect :
      (h : Hart D) (insn k : ℕ) → HasEffect h.cpu (store_conditional dev xlen h insn k)
  unfolding store_conditional
  store_conditional-HasEffect h insn k =
      if-HasEffect _
        (after_store-HasEffect _ _ (λ h'. set_reg-HasEffect h' 4 _ 0 (inr refl) (λ r. omega arith))
          (target_write-Effect dev h _ _ k))
        (set_reg-HasEffect h 4 _ 1 (inr refl) (λ r. omega arith))

  amo-HasEffect :
      (h : Hart D) (insn k : ℕ) → 8 * 2 ^ k ≤ 64 → HasEffect h.cpu (amo dev xlen h insn k)
  unfolding amo
  amo-HasEffect h insn k le =
      after_load-HasEffect _ _
        (λ v h'.
          after_store-HasEffect _ _
            (λ h''. set_reg-HasEffect h'' 4 _ _ (inr refl) (λ r. sx-lt (8 * 2 ^ k) v le))
            (target_write-Effect dev h' _ _ k))
        (target_read-Effect dev h _ k)

  op_a-HasEffect :
      (h : Hart D) (insn k : ℕ) → 8 * 2 ^ k ≤ 64 → HasEffect h.cpu (op_a dev xlen h insn k)
  unfolding op_a
  op_a-HasEffect h insn k le =
      search
        (
          if-HasEffect, stays-HasEffect, load_reserved-HasEffect, store_conditional-HasEffect,
          amo-HasEffect,
        )
        depth 9

  pub atomic-HasEffect : (h : Hart D) (insn : ℕ) → HasEffect h.cpu (atomic dev xlen h insn)
  unfolding atomic
  atomic-HasEffect h insn =
      let word = op_a-HasEffect h insn 2 (omega arith) in
      let double = op_a-HasEffect h insn 3 (omega arith) in
      search (if-HasEffect, stays-HasEffect) depth 9

  pub fp_arith-HasEffect : (h : Hart D) → HasEffect h.cpu (fp_arith h)
  unfolding fp_arith
  fp_arith-HasEffect h = if-HasEffect _ (stays-HasEffect h) (floating_ends h (Effect-refl h.cpu))

  pub compute-HasEffect :
      (h : Hart D) (insn opcode : ℕ) → HasEffect h.cpu (compute dev xlen h insn opcode)
  unfolding compute
  compute-HasEffect h insn opcode =
      let imm = sar-lt 32 insn 20 (omega arith) in
      let i = after_op-HasEffect h (rd_of insn) _ (λ r.
        op_imm-Fits xlen (funct3_of insn) (h.cpu.reg (rs1_of insn)) (imm_i insn) w (r _) imm) in
      let o = after_op-HasEffect h (rd_of insn) _ (λ r.
        op-Fits xlen (insn / 2 ^ 25) (funct4_of insn) _ _ w (r (rs1_of insn)) (r (rs2_of insn))) in
      let i32 =
        after_op-HasEffect h (rd_of insn) _
          (λ r. op_imm_32-Fits (funct3_of insn) (h.cpu.reg (rs1_of insn)) (imm_i insn)) in
      let o32 = after_op-HasEffect h (rd_of insn) _ (λ r.
        op_32-Fits (insn / 2 ^ 25) (funct4_of insn) (h.cpu.reg (rs1_of insn))
          (h.cpu.reg (rs2_of insn))) in
      search (if-HasEffect, stays-HasEffect) depth 9
