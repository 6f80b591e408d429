-- ===== src/Riscv/Interp/Block.antt =====
-- riscv_cpu_template.h: the fetch of an instruction keeps a hart well formed, and the number of
-- instructions in a block is bounded.
use d_risc_v_emulator_tinyem.Base.{
  ℕ, zero, suc, ◌+◌, ◌-◌, ◌*◌, ◌<◌, ◌≤◌, ◌≡◌, ◌⊎◌, inl, inr, refl, arith, sym, Bool, Bool-cases,
  true, false, ◌==◌, leb, bit_and, if◌then◌else◌, u64, Option, none, some, Mem, load_le,
}
use mathlib.Core.Path.{subst}
use d_risc_v_emulator_tinyem.Iomem.{PhysMemoryRange}
use d_risc_v_emulator_tinyem.Riscv.State.{RiscvCpuState, pg_mask}
use d_risc_v_emulator_tinyem.Riscv.Irq.{raise_interrupt, get_pending_irq_mask}
use d_risc_v_emulator_tinyem.Riscv.Trap.{raise_exception}
use d_risc_v_emulator_tinyem.Riscv.Access.{Hart, raise_pending, tlb_idx_of, page_of, host_of}
use d_risc_v_emulator_tinyem.Riscv.Access.Fetch.{
  insn_range, insn_translated, target_read_insn_slow, load_insn, target_read_insn_u16,
}
use d_risc_v_emulator_tinyem.Riscv.Exec.Effect.{Effect, Effect-refl, Effect-IsSound, IsSound}
use d_risc_v_emulator_tinyem.Riscv.Exec.Sound.{raise_exception2-IsSound}
use d_risc_v_emulator_tinyem.Riscv.Exec.System.{set_cpu}
use d_risc_v_emulator_tinyem.Riscv.Interp.{
  Fetch, insn_at, to_the_end, to_exception, check_interrupts, block_end, second_half, first_insn,
  fetch_block, after_interrupts, fetch_insn,
}

raise_interrupt-IsSound : (s : RiscvCpuState) → IsSound s → IsSound (raise_interrupt s).1
unfolding raise_interrupt raise_exception
raise_interrupt-IsSound s v = elim (Bool-cases (get_pending_irq_mask s == 0)) [
  | inl none_pending ↦ rw none_pending v
  | inr pending ↦ rw pending (raise_exception2-IsSound s _ 0 v)
]

pub check_interrupts-IsSound :
    {D : Type 0} (h : Hart D) → IsSound h.cpu → IsSound (check_interrupts h).1.cpu
unfolding check_interrupts set_cpu
check_interrupts-IsSound h v = elim (Bool-cases (bit_and h.cpu.mip h.cpu.mie == 0)) [
  | inl quiet ↦ rw quiet v
  | inr waiting ↦ rw waiting (raise_interrupt-IsSound h.cpu v)
]

-- A change that the fetch of an instruction makes to the TLB of code and to the pending exception.
raise_pending-Effect :
    {D : Type 0} (h : Hart D) (addr cause : ℕ) → Effect h.cpu (raise_pending h addr cause).cpu
raise_pending-Effect h addr cause = record {
  control = refl;
  zero_kept = refl;
  words_kept = λ r. r;
  pc_kept = λ p. p;
  fs_kept = λ f. f;
  mip_kept = λ m. m;
}

module _ {D : Type 0} where
  insn_range-Effect :
      (h : Hart D) (addr paddr : ℕ) (found : Option (ℕ × PhysMemoryRange))
      → Effect h.cpu (insn_range h addr paddr found).1.cpu
  unfolding insn_range
  insn_range-Effect h addr paddr none = raise_pending-Effect h addr _
  insn_range-Effect h addr paddr (some (i, pr)) = elim (Bool-cases pr.is_ram) [
    | inl ram ↦ rw ram (record {
      control = refl;
      zero_kept = refl;
      words_kept = λ r. r;
      pc_kept = λ p. p;
      fs_kept = λ f. f;
      mip_kept = λ m. m;
    })
    | inr io ↦ rw io (raise_pending-Effect h addr _)
  ]

  insn_translated-Effect :
      (h : Hart D) (addr : ℕ) (t : Option ℕ × Mem) → Effect h.cpu (insn_translated h addr t).1.cpu
  unfolding insn_translated
  insn_translated-Effect h addr (none, mem) = raise_pending-Effect (record h { mem = mem }) addr _
  insn_translated-Effect h addr (some paddr, mem) =
      insn_range-Effect (record h { mem = mem }) addr paddr _

  target_read_insn_slow-Effect :
      (h : Hart D) (addr : ℕ) → Effect h.cpu (target_read_insn_slow h addr).1.cpu
  unfolding target_read_insn_slow
  target_read_insn_slow-Effect h addr = insn_translated-Effect h addr _

  -- The pointer to an instruction, by the TLB or past it.
  pointer-Effect :
      (h : Hart D) (addr ptr : ℕ) (hit : Bool)
      → Effect h.cpu (if hit then (some ptr, h) else target_read_insn_slow h addr).1.cpu
  pointer-Effect h addr ptr true = Effect-refl h.cpu
  pointer-Effect h addr ptr false = target_read_insn_slow-Effect h addr

  load_insn-cpu : (r : Option ℕ × Hart D) → (load_insn r).1.cpu ≡ r.1.cpu
  unfolding load_insn
  load_insn-cpu (none, h) = refl
  load_insn-cpu (some ptr, h) = refl

-- What is found at the top of the loop after `used` cycles of `n`: an instruction in a block that is
-- not too long, or a way out of the loop.
pub data IsFetched {D : Type 0} (n used : ℕ) : Fetch D → Type 0 where
  at_insn :
      (insn ptr end : ℕ) (h : Hart D)
      → IsSound h.cpu
      → (end ≤ ptr) ⊎ (2 * used + end ≤ 2 * n + 4098 + ptr)
      → used ≤ n + 2048
      → IsFetched n used (insn_at insn ptr end h)
  at_the_end : (h : Hart D) → IsSound h.cpu → 1 ≤ used → IsFetched n used (to_the_end h)
  at_exception : (h : Hart D) → IsSound h.cpu → used < n → IsFetched n used (to_exception h)

module _ {D : Type 0} (n used : ℕ) (more : used < n) where
  second_half-IsFetched :
      (ptr low : ℕ) (r : Option ℕ × Hart D)
      → IsSound r.1.cpu
      → IsFetched n used (second_half ptr low r)
  unfolding second_half
  second_half-IsFetched ptr low (none, h) v = at_exception h v more
  second_half-IsFetched ptr low (some high, h) v =
      at_insn _ ptr ptr h v (inl (omega arith)) (omega arith)

  target_read_insn_u16-IsSound :
      (h : Hart D) (addr : ℕ) → IsSound h.cpu → IsSound (target_read_insn_u16 h addr).1.cpu
  unfolding target_read_insn_u16
  target_read_insn_u16-IsSound h addr v =
      let e = h.cpu.tlb_code (tlb_idx_of addr) in
      let p = pointer-Effect h addr (host_of e addr) (e.vaddr == page_of addr) in
      subst IsSound (sym (load_insn-cpu _)) (Effect-IsSound p v)

  first_insn-IsFetched :
      (addr : ℕ) (r : Option ℕ × Hart D) → IsSound r.1.cpu → IsFetched n used (first_insn addr r)
  unfolding first_insn block_end
  first_insn-IsFetched addr (none, h) v = at_exception h v more
  first_insn-IsFetched addr (some ptr, h) v =
      elim (Bool-cases (leb (ptr + (pg_mask - 1 - bit_and addr pg_mask)) ptr)) [
        | inl last ↦ rw last (elim (Bool-cases (bit_and (load_le 2 h.mem ptr) 3 == 3)) [
          | inl long ↦
              rw long
                (second_half-IsFetched ptr _ _ (target_read_insn_u16-IsSound h (u64 (addr + 2)) v))
          | inr short ↦ rw short (at_insn _ ptr ptr h v (inl (omega arith)) (omega arith))
        ])
        | inr inside ↦ rw inside (at_insn _ ptr _ h v (inr (omega arith)) (omega arith))
      ]

  after_interrupts-IsFetched :
      (r : Bool × Hart D)
      → IsSound r.1.cpu
      → (used ≡ 0 → r.0 ≡ false)
      → IsFetched n used (after_interrupts r)
  unfolding after_interrupts fetch_block
  after_interrupts-IsFetched (true, h) v first = at_the_end h v (progress used first)
    where
      progress : (k : ℕ) → (k ≡ 0 → true ≡ false) → 1 ≤ k
      progress zero e = absurd (cc (e refl))
      progress (suc k) e = omega arith
  after_interrupts-IsFetched (false, h) v first =
      let e = h.cpu.tlb_code (tlb_idx_of h.cpu.pc) in
      let p = pointer-Effect h h.cpu.pc (host_of e h.cpu.pc) (e.vaddr == page_of h.cpu.pc) in
      first_insn-IsFetched h.cpu.pc _ (Effect-IsSound p v)

-- The condition of the loop between two instructions.
pub record InBlock (n used code_ptr code_end : ℕ) : Type 0 where
  pub cycles : used ≤ n + 2049
  pub short : (code_end ≤ code_ptr) ⊎ (2 * used + code_end ≤ 2 * n + 4098 + code_ptr)

pub fetch_insn-IsFetched :
    {D : Type 0} (n used code_ptr code_end : ℕ) (h : Hart D)
    → 1 ≤ n
    → InBlock n used code_ptr code_end
    → IsSound h.cpu
    → (used ≡ 0 → (check_interrupts h).0 ≡ false)
    → IsFetched n used (fetch_insn n used code_ptr code_end h)
unfolding fetch_insn
fetch_insn-IsFetched n used code_ptr code_end h one inside v first =
    elim (Bool-cases (leb code_end code_ptr)) [
      | inl ended ↦ rw ended (elim (Bool-cases (leb n used)) [
        | inl spent ↦ rw spent (at_the_end h v (ground arith))
        | inr left ↦ rw left (
            after_interrupts-IsFetched n used (ground arith) (check_interrupts h)
              (check_interrupts-IsSound h v) first)
      ])
      | inr going ↦
          let room : 2 * used + code_end ≤ 2 * n + 4098 + code_ptr = ground (arith, inside.short) in
          rw going (at_insn _ code_ptr code_end h v (inr room) (ground arith))
    ]
