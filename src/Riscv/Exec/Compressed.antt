-- ===== src/Riscv/Exec/Compressed.antt =====
-- riscv_cpu_template.h: the effects of the compressed instructions.
use d_risc_v_emulator_tinyem.Base.{
  ℕ, ◌+◌, ◌-◌, ◌*◌, ◌/◌, ◌%◌, ◌^◌, ◌<◌, ◌≤◌, ◌≡◌, ◌≢◌, inl, refl, arith, ap, sym, ◌∙◌, bit_and,
  bit_or, bit_xor, bit_not, bit, set_digit, bit-zero, bit_or-lt,
}
use d_risc_v_emulator_tinyem.Riscv.Access.{Devices, Hart}
use d_risc_v_emulator_tinyem.Riscv.Alu.{sx}
use d_risc_v_emulator_tinyem.Riscv.Alu.Words.{
  IsWidth, width_le, sx-lt, sar-lt, bit_xor-lt, bit_and-lt,
}
use d_risc_v_emulator_tinyem.Riscv.Exec.{next, jump, sext, rd_of, put_reg, set_reg, set_pc}
use d_risc_v_emulator_tinyem.Riscv.Exec.Effect.{
  Effect, Effect-refl, Effect-trans, HasWords, HasEffect, if-HasEffect, next_ends, jump_ends,
  exception_ends, put_reg-Effect, set_fp_reg-Effect, set_pc-Effect, after_load-HasEffect,
  after_store-HasEffect,
}
use d_risc_v_emulator_tinyem.Riscv.Exec.Accesses.{target_read-Effect, target_write-Effect}
use d_risc_v_emulator_tinyem.Riscv.Exec.Parity.{even_and, even_imm_cj, even_imm_cb}
use d_risc_v_emulator_tinyem.Riscv.Exec.Plain.{
  even_target, word-lt, stays-HasEffect, set_reg-HasEffect,
}
use d_risc_v_emulator_tinyem.Riscv.Exec.System.{set_pending, cause_breakpoint}
use d_risc_v_emulator_tinyem.Riscv.Exec.Quadrant0.{
  creg, cload, cload_fp, cstore, cstore_fp, addi4spn, quadrant0,
}
use d_risc_v_emulator_tinyem.Riscv.Exec.Quadrant1.{
  imm_ci, imm_clui, imm_cj, imm_cb, addi16sp_or_lui, c_shift, c_op, c_alu, c_j, c_jal_or_addiw,
  c_beqz, c_bnez, quadrant1,
}
use d_risc_v_emulator_tinyem.Riscv.Exec.Quadrant2.{
  crs2, c_slli, cload_sp, c_jr, c_jalr, c_move, quadrant2,
}

-- The registers of the three-digit fields are not the zero register.
creg_nonzero : (insn place : ℕ) → creg insn place ≢ 0
creg_nonzero insn place e =
    let one : bit (creg insn place) 3 ≡ 1 = set_digit (bit_and (insn / 2 ^ place) 7) 3 3 in
    omega (arith, one, sym one ∙ ap (λ (x : ℕ). bit x 3) e ∙ bit-zero 3)

sext-lt : (v n : ℕ) → sext v n < 2 ^ 64
unfolding sext
sext-lt v n = sar-lt 32 (v * 2 ^ (32 - n)) (32 - n) (omega arith)

imm_ci-lt : (insn : ℕ) → imm_ci insn < 2 ^ 64
unfolding imm_ci
imm_ci-lt insn = sext-lt _ 6

imm_clui-lt : (insn : ℕ) → imm_clui insn < 2 ^ 64
unfolding imm_clui
imm_clui-lt insn = sext-lt _ 18

pub set_pending-Effect :
    {D : Type 0} (h : Hart D) (cause : ℕ) → Effect h.cpu (set_pending h cause).cpu
unfolding set_pending
set_pending-Effect h cause = record {
  control = refl;
  zero_kept = refl;
  words_kept = λ r. r;
  pc_kept = λ p. p;
  fs_kept = λ f. f;
  mip_kept = λ m. m;
}

module _ {D : Type 0} (dev : Devices D) (xlen : ℕ) (w : IsWidth xlen) where
  c_goes-HasEffect : (h : Hart D) → HasEffect h.cpu (next 2 h)
  c_goes-HasEffect h = next_ends 2 h (inl refl) (Effect-refl h.cpu)

  put_reg-HasEffect :
      (h : Hart D) (rd val : ℕ)
      → rd ≢ 0
      → (HasWords h.cpu → val < 2 ^ 64)
      → HasEffect h.cpu (next 2 (put_reg h rd val))
  put_reg-HasEffect h rd val n lt = next_ends 2 _ (inl refl) (put_reg-Effect h rd val n lt)

  -- A sign extension, put in one of those registers, and in any.
  put_sx-HasEffect :
      (h : Hart D) (insn place n v : ℕ)
      → n ≤ 64
      → HasEffect h.cpu (next 2 (put_reg h (creg insn place) (sx n v)))
  put_sx-HasEffect h insn place n v le =
      put_reg-HasEffect h (creg insn place) (sx n v) (creg_nonzero insn place) (λ r. sx-lt n v le)

  set_sx-HasEffect :
      (h : Hart D) (rd n v : ℕ) → n ≤ 64 → HasEffect h.cpu (next 2 (set_reg h rd (sx n v)))
  set_sx-HasEffect h rd n v le =
      set_reg-HasEffect dev xlen w h 2 rd (sx n v) (inl refl) (λ r. sx-lt n v le)

  cload-HasEffect :
      (h : Hart D) (addr insn place k : ℕ)
      → 8 * 2 ^ k ≤ 64
      → HasEffect h.cpu (cload dev xlen h addr (creg insn place) k)
  unfolding cload
  cload-HasEffect h addr insn place k le =
      after_load-HasEffect _ _ (λ v h'. put_sx-HasEffect h' insn place (8 * 2 ^ k) v le)
        (target_read-Effect dev h addr k)

  cload_sp-HasEffect :
      (h : Hart D) (addr rd k : ℕ)
      → 8 * 2 ^ k ≤ 64
      → HasEffect h.cpu (cload_sp dev xlen h addr rd k)
  unfolding cload_sp
  cload_sp-HasEffect h addr rd k le =
      after_load-HasEffect _ _ (λ v h'. set_sx-HasEffect h' rd (8 * 2 ^ k) v le)
        (target_read-Effect dev h addr k)

  cload_fp-HasEffect :
      (h : Hart D) (addr rd k high : ℕ) → HasEffect h.cpu (cload_fp dev xlen h addr rd k high)
  unfolding cload_fp
  cload_fp-HasEffect h addr rd k high = if-HasEffect _ (stays-HasEffect dev xlen w h) (
      after_load-HasEffect _ _
        (λ v h'. next_ends 2 _ (inl refl) (set_fp_reg-Effect h' rd (bit_or v high)))
        (target_read-Effect dev h addr k))

  cstore-HasEffect : (h : Hart D) (addr val k : ℕ) → HasEffect h.cpu (cstore dev xlen h addr val k)
  unfolding cstore
  cstore-HasEffect h addr val k =
      after_store-HasEffect _ _ (λ h'. c_goes-HasEffect h') (target_write-Effect dev h addr val k)

  cstore_fp-HasEffect :
      (h : Hart D) (addr fp k : ℕ) → HasEffect h.cpu (cstore_fp dev xlen h addr fp k)
  unfolding cstore_fp
  cstore_fp-HasEffect h addr fp k =
      if-HasEffect _ (stays-HasEffect dev xlen w h)
        (after_store-HasEffect _ _ (λ h'. c_goes-HasEffect h') (target_write-Effect dev h addr _ k))

  addi4spn-HasEffect : (h : Hart D) (insn : ℕ) → HasEffect h.cpu (addi4spn dev xlen h insn)
  unfolding addi4spn
  addi4spn-HasEffect h insn =
      if-HasEffect _ (stays-HasEffect dev xlen w h)
        (put_sx-HasEffect h insn 2 xlen _ (width_le xlen w))

  pub quadrant0-HasEffect : (h : Hart D) (insn : ℕ) → HasEffect h.cpu (quadrant0 dev xlen h insn)
  unfolding quadrant0
  quadrant0-HasEffect h insn =
      let word = λ (addr : ℕ). cload-HasEffect h addr insn 2 2 (omega arith) in
      let double = λ (addr : ℕ). cload-HasEffect h addr insn 2 3 (omega arith) in
      search
        (
          if-HasEffect,
          stays-HasEffect dev xlen w,
          word,
          double,
          cload_fp-HasEffect,
          cstore-HasEffect,
          cstore_fp-HasEffect,
          addi4spn-HasEffect,
        )
        depth 12

  addi16sp_or_lui-HasEffect :
      (h : Hart D) (insn : ℕ) → HasEffect h.cpu (addi16sp_or_lui xlen h insn)
  unfolding addi16sp_or_lui
  addi16sp_or_lui-HasEffect h insn =
      if-HasEffect _
        (if-HasEffect _ (stays-HasEffect dev xlen w h)
          (put_reg-HasEffect h 2 _ (λ e. omega (arith, e)) (λ r. sx-lt xlen _ (width_le xlen w))))
        (set_reg-HasEffect dev xlen w h 2 _ _ (inl refl) (λ r. imm_clui-lt insn))

  c_shift-HasEffect : (h : Hart D) (insn : ℕ) → HasEffect h.cpu (c_shift xlen h insn)
  unfolding c_shift
  c_shift-HasEffect h insn = if-HasEffect _ (stays-HasEffect dev xlen w h) (
      if-HasEffect _ (put_sx-HasEffect h insn 7 xlen _ (width_le xlen w))
        (put_reg-HasEffect h _ _ (creg_nonzero insn 7) (λ r. sar-lt xlen _ _ (width_le xlen w))))

  c_op-HasEffect : (h : Hart D) (insn : ℕ) → HasEffect h.cpu (c_op xlen h insn)
  unfolding c_op
  c_op-HasEffect h insn =
      let rd = creg insn 7 in
      let rs2 = creg insn 2 in
      let sum = λ (v : ℕ). put_sx-HasEffect h insn 7 xlen v (width_le xlen w) in
      let word = λ (v : ℕ). put_sx-HasEffect h insn 7 32 v (omega arith) in
      let put = λ (v : ℕ) (lt : HasWords h.cpu → v < 2 ^ 64).
        put_reg-HasEffect h rd v (creg_nonzero insn 7) lt in
      let x = put (bit_xor (h.cpu.reg rd) (h.cpu.reg rs2)) (λ r. bit_xor-lt _ _ (r rd) (r rs2)) in
      let o = put (bit_or (h.cpu.reg rd) (h.cpu.reg rs2)) (λ r. bit_or-lt 64 _ _ (r rd) (r rs2)) in
      let a = put (bit_and (h.cpu.reg rd) (h.cpu.reg rs2)) (λ r. bit_and-lt _ _ (r rd)) in
      search (if-HasEffect, stays-HasEffect dev xlen w, sum, word) depth 12

  c_alu-HasEffect : (h : Hart D) (insn : ℕ) → HasEffect h.cpu (c_alu xlen h insn)
  unfolding c_alu
  c_alu-HasEffect h insn = if-HasEffect _ (c_shift-HasEffect h insn) (
      if-HasEffect _
        (put_reg-HasEffect h _ _ (creg_nonzero insn 7)
          (λ r. bit_and-lt _ (imm_ci insn) (r (creg insn 7))))
        (c_op-HasEffect h insn))

  -- A jump to an even offset.
  to-HasEffect :
      (h : Hart D) (imm : ℕ)
      → imm % 2 ≡ 0
      → HasEffect h.cpu (jump (set_pc h (sx xlen (h.cpu.pc + imm))))
  to-HasEffect h imm even =
      jump_ends _ (set_pc-Effect h _ (Effect-refl h.cpu) (even_target xlen h.cpu.pc imm w even))

  c_j-HasEffect : (h : Hart D) (insn : ℕ) → HasEffect h.cpu (c_j xlen h insn)
  unfolding c_j
  c_j-HasEffect h insn = to-HasEffect h (imm_cj insn) (even_imm_cj insn)

  c_jal_or_addiw-HasEffect : (h : Hart D) (insn : ℕ) → HasEffect h.cpu (c_jal_or_addiw xlen h insn)
  unfolding c_jal_or_addiw
  c_jal_or_addiw-HasEffect h insn =
      if-HasEffect _
        (jump_ends _ (
          set_pc-Effect _ _
            (put_reg-Effect h 1 _ (λ e. omega (arith, e)) (λ r. word-lt (h.cpu.pc + 2)))
            (even_target xlen h.cpu.pc (imm_cj insn) w (even_imm_cj insn))))
        (set_sx-HasEffect h _ 32 _ (omega arith))

  c_beqz-HasEffect : (h : Hart D) (insn : ℕ) → HasEffect h.cpu (c_beqz xlen h insn)
  unfolding c_beqz
  c_beqz-HasEffect h insn =
      if-HasEffect _ (to-HasEffect h (imm_cb insn) (even_imm_cb insn)) (c_goes-HasEffect h)

  c_bnez-HasEffect : (h : Hart D) (insn : ℕ) → HasEffect h.cpu (c_bnez xlen h insn)
  unfolding c_bnez
  c_bnez-HasEffect h insn =
      if-HasEffect _ (to-HasEffect h (imm_cb insn) (even_imm_cb insn)) (c_goes-HasEffect h)

  pub quadrant1-HasEffect : (h : Hart D) (insn : ℕ) → HasEffect h.cpu (quadrant1 xlen h insn)
  unfolding quadrant1
  quadrant1-HasEffect h insn =
      let addi = λ (v : ℕ). set_sx-HasEffect h (rd_of insn) xlen v (width_le xlen w) in
      let li =
        set_reg-HasEffect dev xlen w h 2 (rd_of insn) (imm_ci insn) (inl refl)
          (λ r. imm_ci-lt insn) in
      search
        (
          if-HasEffect, addi, c_jal_or_addiw-HasEffect, addi16sp_or_lui-HasEffect, c_alu-HasEffect,
          c_j-HasEffect, c_beqz-HasEffect, c_bnez-HasEffect,
        )
        depth 12

  c_slli-HasEffect : (h : Hart D) (insn : ℕ) → HasEffect h.cpu (c_slli dev xlen h insn)
  unfolding c_slli
  c_slli-HasEffect h insn =
      if-HasEffect _ (stays-HasEffect dev xlen w h) (set_sx-HasEffect h _ xlen _ (width_le xlen w))

  c_jr-HasEffect : (h : Hart D) (insn : ℕ) → HasEffect h.cpu (c_jr dev xlen h insn)
  unfolding c_jr bit_not
  c_jr-HasEffect h insn =
      if-HasEffect _ (stays-HasEffect dev xlen w h)
        (jump_ends _ (set_pc-Effect h _ (Effect-refl h.cpu) (λ p. even_and _ (bit_not 64 1) refl)))

  c_jalr-HasEffect : (h : Hart D) (insn : ℕ) → HasEffect h.cpu (c_jalr dev xlen h insn)
  unfolding c_jalr bit_not
  c_jalr-HasEffect h insn =
      if-HasEffect _ (exception_ends _ (set_pending-Effect h cause_breakpoint)) (
        jump_ends _ (
          Effect-trans (set_pc-Effect h _ (Effect-refl h.cpu) (λ p. even_and _ (bit_not 64 1) refl))
            (put_reg-Effect _ 1 _ (λ e. omega (arith, e)) (λ r. word-lt (h.cpu.pc + 2)))))

  c_move-HasEffect : (h : Hart D) (insn : ℕ) → HasEffect h.cpu (c_move dev xlen h insn)
  unfolding c_move
  c_move-HasEffect h insn =
      let mv =
        set_reg-HasEffect dev xlen w h 2 (rd_of insn) (h.cpu.reg (crs2 insn)) (inl refl)
          (λ r. r (crs2 insn)) in
      let add = λ (v : ℕ). set_sx-HasEffect h (rd_of insn) xlen v (width_le xlen w) in
      search (if-HasEffect, add, c_jr-HasEffect, c_jalr-HasEffect) depth 9

  pub quadrant2-HasEffect : (h : Hart D) (insn : ℕ) → HasEffect h.cpu (quadrant2 dev xlen h insn)
  unfolding quadrant2
  quadrant2-HasEffect h insn =
      let word = λ (addr : ℕ). cload_sp-HasEffect h addr (rd_of insn) 2 (omega arith) in
      let double = λ (addr : ℕ). cload_sp-HasEffect h addr (rd_of insn) 3 (omega arith) in
      search
        (
          if-HasEffect, word, double, c_slli-HasEffect, c_move-HasEffect, cload_fp-HasEffect,
          cstore-HasEffect, cstore_fp-HasEffect,
        )
        depth 12
