-- ===== src/Riscv/Access/Reload.antt =====
-- A load past the TLB, and the same load again.
use d_risc_v_emulator_tinyem.Base.{
  ◌/◌, u32, tst, not, ◌&&◌, ◌==◌, List, [], ◌∷◌, ℕ, ◌+◌, ◌-◌, ◌^◌, ◌≤◌, ◌<◌, ◌≡◌, ◌∙◌, ◌⊎◌, inl,
  inr, ap, sym, refl, arith, Bool-cases, false, Option, none, some, Mem, load_le, bit_and,
}
use mathlib.Core.Path.{subst}
use d_risc_v_emulator_tinyem.Iomem.{
  devio_size32, PhysMemoryRange, PhysMemoryMap, get_phys_mem_range,
}
use d_risc_v_emulator_tinyem.Riscv.State.{RiscvCpuState, Tlb}
use d_risc_v_emulator_tinyem.Riscv.Tlb.{update_tlb}
use d_risc_v_emulator_tinyem.Riscv.Access.{
  MipCall, mip_set, mip_reset, make_call, make_calls, answered, Devices, Hart, Load, value,
  tlb_idx_of, entry_for, read_aligned, read_translated, read_range, target_read_slow, target_read,
  device_read,
}
use d_risc_v_emulator_tinyem.Riscv.Irq.{set_mip, reset_mip}
use d_risc_v_emulator_tinyem.Riscv.Access.Fill.{host_of-entry_for, hit_mask}

-- Every byte of RAM that the map leads to has a 64-bit host address.
abbrev pub IsHosted : PhysMemoryMap → Type 0
IsHosted map =
    (paddr i : ℕ) (pr : PhysMemoryRange)
    → get_phys_mem_range map paddr ≡ some (i, pr)
    → pr.phys_mem + (paddr - pr.addr) < 2 ^ 64

-- How a load past the TLB ends: without an entry made, or with one for host address `ptr`.
data Loaded {D : Type 0} (h : Hart D) (addr k : ℕ) (r : Load × Hart D) : Type 0 where
  elsewhere : r.1.cpu.tlb_read ≡ h.cpu.tlb_read → Loaded h addr k r
  filled :
      (ptr : ℕ)
      → ptr < 2 ^ 64
      → r.0 ≡ value (load_le (2 ^ k) r.1.mem ptr)
      → r.1.cpu.tlb_read ≡ update_tlb h.cpu.tlb_read (tlb_idx_of addr) (entry_for addr ptr)
      → Loaded h addr k r

-- The calls of a device leave the TLBs alone.
tlb_read-calls : (cs : List MipCall) (s : RiscvCpuState) → (make_calls cs s).tlb_read ≡ s.tlb_read
unfolding make_calls make_call set_mip reset_mip
tlb_read-calls [] s = refl
tlb_read-calls (mip_set mask ∷ cs) s = tlb_read-calls cs (make_call s (mip_set mask))
tlb_read-calls (mip_reset mask ∷ cs) s = tlb_read-calls cs (make_call s (mip_reset mask))

module _ {D : Type 0} (dev : Devices D) (h : Hart D) (addr k : ℕ) (hosted : IsHosted h.map) where
  device_read-tlb_read :
      (g : Hart D) (pr : PhysMemoryRange) (offset : ℕ)
      → (device_read dev g pr offset k).1.cpu.tlb_read ≡ g.cpu.tlb_read
  unfolding device_read answered
  device_read-tlb_read g pr offset =
      let a = (dev.read_func g pr.device (u32 offset) 2).1 in
      let g' = answered g a in
      let a' = (dev.read_func g' pr.device (u32 (offset + 4)) 2).1 in
      elim (Bool-cases (not (bit_and (pr.devio_flags / 2 ^ k) 1 == 0))) [
        | inl whole ↦
            rw whole (tlb_read-calls (dev.read_func g pr.device (u32 offset) k).1.calls g.cpu)
        | inr parts ↦ rw parts (elim (Bool-cases (tst pr.devio_flags devio_size32 && k == 3)) [
          | inl two ↦ rw two (tlb_read-calls a'.calls g'.cpu ∙ tlb_read-calls a.calls g.cpu)
          | inr neither ↦ rw neither refl
        ])
      ]

  read_range-Loaded :
      (mem : Mem) (paddr : ℕ) (found : Option (ℕ × PhysMemoryRange))
      → get_phys_mem_range h.map paddr ≡ found
      → Loaded h addr k (read_range dev (record h { mem = mem }) addr k paddr found)
  unfolding read_range
  read_range-Loaded mem paddr none e = elsewhere refl
  read_range-Loaded mem paddr (some (i, pr)) e = elim (Bool-cases pr.is_ram) [
    | inl ram ↦ rw ram (filled _ (hosted paddr i pr e) refl refl)
    | inr io ↦
        let through =
          device_read-tlb_read (record h { mem = mem }) (record pr { is_ram = false })
            (paddr - pr.addr) in
        rw io (elsewhere through)
  ]

  read_translated-Loaded : (t : Option ℕ × Mem) → Loaded h addr k (read_translated dev h addr k t)
  unfolding read_translated
  read_translated-Loaded (none, mem) = elsewhere refl
  read_translated-Loaded (some paddr, mem) = read_range-Loaded mem paddr _ refl

  -- On a map whose RAM has 64-bit host addresses: an aligned load past the TLB that returns a value
  -- leaves the read TLB alone, or makes an entry by which the same load, done again through the TLB,
  -- returns the same value and changes nothing.
  pub target_read-target_read_slow :
      (v : ℕ) (h' : Hart D)
      → addr < 2 ^ 64
      → k ≤ 3
      → bit_and addr (2 ^ k - 1) ≡ 0
      → target_read_slow dev h addr k ≡ (value v, h')
      → (h'.cpu.tlb_read ≡ h.cpu.tlb_read) ⊎ (target_read dev h' addr k ≡ (value v, h'))
  target_read-target_read_slow v h' small width aligned e =
      let slow : target_read_slow dev h addr k ≡ read_aligned dev h addr k =
        unfold target_read_slow in rw aligned refl in
      elim (subst (Loaded h addr k) (sym slow ∙ e)
        (unfold read_aligned in read_translated-Loaded _)) [
          | elsewhere same ↦ inl same
          | filled ptr fits found tlb ↦
              let entry : h'.cpu.tlb_read (tlb_idx_of addr) ≡ entry_for addr ptr =
                ap (λ (t : Tlb). t (tlb_idx_of addr)) tlb ∙ ground arith in
              inr (
                unfold target_read in
                ground (
                  arith,
                  entry,
                  found,
                  host_of-entry_for addr ptr small fits,
                  hit_mask addr k small width aligned,
                ))
        ]
