-- ===== src/Riscv/Exec/Accesses.antt =====
-- riscv_cpu.c: loads and stores change of a hart its TLBs and the pending exception.
use d_risc_v_emulator_tinyem.Base.{
  ℕ, zero, suc, ◌+◌, ◌-◌, ◌*◌, ◌/◌, ◌^◌, inl, inr, refl, arith, Bool-cases, false, ◌==◌, bit_and,
  u64, u32, tst, not, ◌&&◌, bit_not, bit_and-le, bit_or-lt, ◌%◌, List, [], ◌∷◌, Option, none, some,
  Mem,
}
use d_risc_v_emulator_tinyem.Base.Int.{ℤ}
use d_risc_v_emulator_tinyem.Iomem.{PhysMemoryRange, devio_size32}
use d_risc_v_emulator_tinyem.Riscv.Access.{
  Devices, Hart, MipCall, mip_set, mip_reset, make_call, make_calls, answered, Load, fault, value,
  unset, tlb_hits, device_read, join_parts, read_range, read_translated, read_aligned, read_part,
  read_two, target_read_slow, target_read, device_write, write_range, write_translated,
  write_aligned, write_part, write_bytes, target_write_slow, target_write,
}
use d_risc_v_emulator_tinyem.Riscv.State.{RiscvCpuState, Tlb}
use d_risc_v_emulator_tinyem.Riscv.Irq.{set_mip, reset_mip}
use d_risc_v_emulator_tinyem.Riscv.Exec.Effect.{Effect, Effect-refl, Effect-trans}

-- A change of the TLBs and of the pending exception alone.
moved-Effect :
    (s : RiscvCpuState) (reads writes : Tlb) (cause : ℤ) (tval : ℕ)
    → Effect s (record s {
      tlb_read = reads;
      tlb_write = writes;
      pending_exception = cause;
      pending_tval = tval;
    })
moved-Effect s reads writes cause tval = record {
  control = refl;
  zero_kept = refl;
  words_kept = λ w. w;
  pc_kept = λ p. p;
  fs_kept = λ f. f;
  mip_kept = λ m. m;
}

-- A call of a device changes of a hart the pending interrupts, which stay a 32-bit word, and wakes it.
call-Effect : (c : MipCall) (s : RiscvCpuState) → Effect s (make_call s c)
unfolding make_call set_mip reset_mip
call-Effect (mip_set mask) s = record {
  control = refl;
  zero_kept = refl;
  words_kept = λ w. w;
  pc_kept = λ p. p;
  fs_kept = λ f. f;
  mip_kept = λ m. bit_or-lt 32 s.mip (u32 mask) m (omega arith);
}
call-Effect (mip_reset mask) s = record {
  control = refl;
  zero_kept = refl;
  words_kept = λ w. w;
  pc_kept = λ p. p;
  fs_kept = λ f. f;
  mip_kept = λ m. omega (arith, bit_and-le s.mip (bit_not 32 (u32 mask)));
}

pub calls-Effect : (cs : List MipCall) (s : RiscvCpuState) → Effect s (make_calls cs s)
unfolding make_calls
calls-Effect [] s = Effect-refl s
calls-Effect (c ∷ cs) s = Effect-trans (call-Effect c s) (calls-Effect cs (make_call s c))

module _ {D : Type 0} (dev : Devices D) where
  device_read-Effect :
      (h : Hart D) (pr : PhysMemoryRange) (offset k : ℕ)
      → Effect h.cpu (device_read dev h pr offset k).1.cpu
  unfolding device_read answered
  device_read-Effect h pr offset k =
      let b = not (bit_and (pr.devio_flags / 2 ^ k) 1 == 0) in
      let c = tst pr.devio_flags devio_size32 && k == 3 in
      let a = (dev.read_func h pr.device (u32 offset) 2).1 in
      let h' = answered h a in
      let a' = (dev.read_func h' pr.device (u32 (offset + 4)) 2).1 in
      elim (Bool-cases b) [
        | inl whole ↦
            rw whole (calls-Effect (dev.read_func h pr.device (u32 offset) k).1.calls h.cpu)
        | inr parts ↦ rw parts (elim (Bool-cases c) [
          | inl two ↦
              rw two (Effect-trans (calls-Effect a.calls h.cpu) (calls-Effect a'.calls h'.cpu))
          | inr none_of ↦ rw none_of (Effect-refl h.cpu)
        ])
      ]

  read_range-Effect :
      (h : Hart D) (addr k paddr : ℕ) (found : Option (ℕ × PhysMemoryRange))
      → Effect h.cpu (read_range dev h addr k paddr found).1.cpu
  unfolding read_range
  read_range-Effect h addr k paddr none = Effect-refl h.cpu
  read_range-Effect h addr k paddr (some (i, pr)) = elim (Bool-cases pr.is_ram) [
    | inl ram ↦
        rw ram (moved-Effect h.cpu _ h.cpu.tlb_write h.cpu.pending_exception h.cpu.pending_tval)
    | inr io ↦ rw io (device_read-Effect h (record pr { is_ram = false }) (paddr - pr.addr) k)
  ]

  read_translated-Effect :
      (h : Hart D) (addr k : ℕ) (t : Option ℕ × Mem)
      → Effect h.cpu (read_translated dev h addr k t).1.cpu
  unfolding read_translated
  read_translated-Effect h addr k (none, mem) =
      moved-Effect h.cpu h.cpu.tlb_read h.cpu.tlb_write _ _
  read_translated-Effect h addr k (some paddr, mem) =
      read_range-Effect (record h { mem = mem }) addr k paddr _

  read_aligned-Effect : (h : Hart D) (addr k : ℕ) → Effect h.cpu (read_aligned dev h addr k).1.cpu
  unfolding read_aligned
  read_aligned-Effect h addr k = read_translated-Effect h addr k _

  read_part-Effect : (h : Hart D) (addr k : ℕ) → Effect h.cpu (read_part dev h addr k).1.cpu
  unfolding read_part
  read_part-Effect h addr k = elim (Bool-cases (tlb_hits h.cpu.tlb_read addr (2 ^ k))) [
    | inl hit ↦ rw hit (Effect-refl h.cpu)
    | inr miss ↦ rw miss (read_aligned-Effect h addr k)
  ]

  read_two-Effect :
      (h : Hart D) (first second k : ℕ) (f : ℕ → ℕ → ℕ)
      → Effect h.cpu (read_two dev h first second k f).1.cpu
  unfolding read_two
  read_two-Effect h first second k f =
      let r0 = read_part dev h first k in
      let r1 = read_part dev r0.1 second k in
      let one = read_part-Effect h first k in
      let two = Effect-trans one (read_part-Effect r0.1 second k) in
      elim r0.0
        as (λ v0.
          Effect h.cpu
            (elim v0 as (λ x. Load × Hart D) [
              | fault ↦ (fault, r0.1)
              | value a ↦ (join_parts f (value a) r1.0, r1.1)
              | unset ↦ (join_parts f unset r1.0, r1.1)
            ]).1.cpu) [ fault ↦ one | value a ↦ two | unset ↦ two ]

  target_read_slow-Effect :
      (h : Hart D) (addr k : ℕ) → Effect h.cpu (target_read_slow dev h addr k).1.cpu
  unfolding target_read_slow
  target_read_slow-Effect h addr k = elim (Bool-cases (bit_and addr (2 ^ k - 1) == 0)) [
    | inl aligned ↦ rw aligned (read_aligned-Effect h addr k)
    | inr unaligned ↦ rw unaligned (elim (Bool-cases (k == 1)) [
      | inl half ↦ rw half (read_two-Effect h _ _ 0 _)
      | inr wide ↦ rw wide (elim (Bool-cases (k == 2)) [
        | inl word ↦ rw word (read_two-Effect h _ _ 2 _)
        | inr double ↦ rw double (read_two-Effect h _ _ 3 _)
      ])
    ])
  ]

  pub target_read-Effect : (h : Hart D) (addr k : ℕ) → Effect h.cpu (target_read dev h addr k).1.cpu
  unfolding target_read
  target_read-Effect h addr k = elim (Bool-cases (tlb_hits h.cpu.tlb_read addr (2 ^ k))) [
    | inl hit ↦ rw hit (Effect-refl h.cpu)
    | inr miss ↦ rw miss (target_read_slow-Effect h addr k)
  ]

  device_write-Effect :
      (h : Hart D) (pr : PhysMemoryRange) (offset val k : ℕ)
      → Effect h.cpu (device_write dev h pr offset val k).cpu
  unfolding device_write answered
  device_write-Effect h pr offset val k =
      let b = not (bit_and (pr.devio_flags / 2 ^ k) 1 == 0) in
      let c = tst pr.devio_flags devio_size32 && k == 3 in
      let a = dev.write_func h pr.device (u32 offset) (bit_and val 0xffffffff) 2 in
      let h' = answered h a in
      let high = bit_and (val / 2 ^ 32) 0xffffffff in
      let a' = dev.write_func h' pr.device (u32 (offset + 4)) high 2 in
      elim (Bool-cases b) [
        | inl whole ↦
            rw whole
              (calls-Effect (dev.write_func h pr.device (u32 offset) (u32 val) k).calls h.cpu)
        | inr parts ↦ rw parts (elim (Bool-cases c) [
          | inl two ↦
              rw two (Effect-trans (calls-Effect a.calls h.cpu) (calls-Effect a'.calls h'.cpu))
          | inr none_of ↦ rw none_of (Effect-refl h.cpu)
        ])
      ]

  write_range-Effect :
      (h : Hart D) (addr val k paddr : ℕ) (found : Option (ℕ × PhysMemoryRange))
      → Effect h.cpu (write_range dev h addr val k paddr found).cpu
  unfolding write_range
  write_range-Effect h addr val k paddr none = Effect-refl h.cpu
  write_range-Effect h addr val k paddr (some (i, pr)) = elim (Bool-cases pr.is_ram) [
    | inl ram ↦
        rw ram (moved-Effect h.cpu h.cpu.tlb_read _ h.cpu.pending_exception h.cpu.pending_tval)
    | inr io ↦ rw io (device_write-Effect h (record pr { is_ram = false }) (paddr - pr.addr) val k)
  ]

  write_translated-Effect :
      (h : Hart D) (addr val k : ℕ) (t : Option ℕ × Mem)
      → Effect h.cpu (write_translated dev h addr val k t).1.cpu
  unfolding write_translated
  write_translated-Effect h addr val k (none, mem) =
      moved-Effect h.cpu h.cpu.tlb_read h.cpu.tlb_write _ _
  write_translated-Effect h addr val k (some paddr, mem) =
      write_range-Effect (record h { mem = mem }) addr val k paddr _

  write_aligned-Effect :
      (h : Hart D) (addr val k : ℕ) → Effect h.cpu (write_aligned dev h addr val k).1.cpu
  unfolding write_aligned
  write_aligned-Effect h addr val k = write_translated-Effect h addr val k _

  write_part-Effect :
      (h : Hart D) (addr val k : ℕ) → Effect h.cpu (write_part dev h addr val k).1.cpu
  unfolding write_part
  write_part-Effect h addr val k = elim (Bool-cases (tlb_hits h.cpu.tlb_write addr (2 ^ k))) [
    | inl hit ↦ rw hit (Effect-refl h.cpu)
    | inr miss ↦ rw miss (write_aligned-Effect h addr val k)
  ]

  write_bytes-Effect :
      (left i : ℕ) (h : Hart D) (addr val : ℕ)
      → Effect h.cpu (write_bytes dev left i h addr val).1.cpu
  unfolding write_bytes
  write_bytes-Effect zero i h addr val = Effect-refl h.cpu
  write_bytes-Effect (suc left) i h addr val =
      let r = write_part dev h (u64 (addr + i)) (bit_and (val / 2 ^ (8 * i)) 0xff) 0 in
      let one = write_part-Effect h (u64 (addr + i)) (bit_and (val / 2 ^ (8 * i)) 0xff) 0 in
      elim (Bool-cases r.0) [
        | inl err ↦ rw err one
        | inr ok ↦ rw ok (Effect-trans one (write_bytes-Effect left (i + 1) r.1 addr val))
      ]

  target_write_slow-Effect :
      (h : Hart D) (addr val k : ℕ) → Effect h.cpu (target_write_slow dev h addr val k).1.cpu
  unfolding target_write_slow
  target_write_slow-Effect h addr val k = elim (Bool-cases (bit_and addr (2 ^ k - 1) == 0)) [
    | inl aligned ↦ rw aligned (write_aligned-Effect h addr val k)
    | inr unaligned ↦ rw unaligned (write_bytes-Effect (2 ^ k) 0 h addr val)
  ]

  pub target_write-Effect :
      (h : Hart D) (addr val k : ℕ) → Effect h.cpu (target_write dev h addr val k).1.cpu
  unfolding target_write
  target_write-Effect h addr val k = elim (Bool-cases (tlb_hits h.cpu.tlb_write addr (2 ^ k))) [
    | inl hit ↦ rw hit (Effect-refl h.cpu)
    | inr miss ↦ rw miss (target_write_slow-Effect h addr (val % 2 ^ (8 * 2 ^ k)) k)
  ]
