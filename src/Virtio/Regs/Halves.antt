-- ===== src/Virtio/Regs/Halves.antt =====
-- The addresses of a queue, written and read in halves.
use d_risc_v_emulator_tinyem.Base.{
  true, ℕ, ◌+◌, ◌-◌, ◌*◌, ◌/◌, ◌%◌, ◌^◌, ◌<◌, ◌≡◌, ◌∙◌, ap, sym, refl, arith, ◌==◌, ltb,
  if◌then◌else◌, bit, bit_and, bit_not, bit_lt_two, bit-bit_and, bit-bit_or, bit_ones, bit_shl,
  bit_ext, lt_pow→bit, bit_or_halves, bit_masked,
}
use d_risc_v_emulator_tinyem.Virtio.Regs.Mmio.{
  mmio_register, mmio_set_register, virtio_mmio_queue_desc_low, virtio_mmio_queue_desc_high,
  virtio_mmio_queue_avail_low, virtio_mmio_queue_avail_high, virtio_mmio_queue_used_low,
  virtio_mmio_queue_used_high,
}
use d_risc_v_emulator_tinyem.Virtio.Regs.{selected, set_low32, set_high32}
use d_risc_v_emulator_tinyem.Virtio.{QueueState, VirtioDevice}

set_low32-bit :
    (a v i : ℕ)
    → a < 2 ^ 64
    → v < 2 ^ 32
    → bit (set_low32 a v) i ≡ (if ltb i 32 then bit v i else bit a i)
unfolding set_low32
set_low32-bit a v i h k = ground (
  arith,
  bit-bit_or (bit_and a (bit_not 64 0xffffffff)) v i,
  bit_masked 64 a 0xffffffff i h (omega arith),
  bit_ones 32 i,
  lt_pow→bit 32 v i k,
  bit_lt_two a i,
  bit_lt_two v i,
)

set_high32-bit :
    (a v i : ℕ) → bit (set_high32 a v) i ≡ (if ltb i 32 then bit a i else bit v (i - 32))
unfolding set_high32
set_high32-bit a v i = ground (
  arith,
  bit-bit_or (bit_and a 0xffffffff) (v * 2 ^ 32) i,
  bit-bit_and a 0xffffffff i,
  bit_ones 32 i,
  bit_shl v 32 i,
  bit_lt_two a i,
  bit_lt_two v (i - 32),
)

halves-bit :
    (lo hi i : ℕ)
    → lo < 2 ^ 32
    → bit (lo + hi * 2 ^ 32) i ≡ (if ltb i 32 then bit lo i else bit hi (i - 32))
halves-bit lo hi i h =
    ap (λ (t : ℕ). bit t i) (sym (bit_or_halves 32 lo hi h))
    ∙ ground (
      arith,
      bit-bit_or lo (hi * 2 ^ 32) i,
      bit_shl hi 32 i,
      lt_pow→bit 32 lo i h,
      bit_lt_two lo i,
      bit_lt_two hi (i - 32),
    )

-- The low half and then the high half make the whole address.
pub set_high32-set_low32 :
    (a lo hi : ℕ) → a < 2 ^ 64 → lo < 2 ^ 32 → set_high32 (set_low32 a lo) hi ≡ lo + hi * 2 ^ 32
set_high32-set_low32 a lo hi h k = bit_ext _ _ λ i.
    ground
      (arith, set_high32-bit (set_low32 a lo) hi i, set_low32-bit a lo i h k, halves-bit lo hi i k)

-- The three addresses of a queue, by the offsets of their halves.
pub data IsHalves : ℕ → ℕ → (QueueState → ℕ) → Type 0 where
  desc : IsHalves virtio_mmio_queue_desc_low virtio_mmio_queue_desc_high (λ qs. qs.desc_addr)
  avail : IsHalves virtio_mmio_queue_avail_low virtio_mmio_queue_avail_high (λ qs. qs.avail_addr)
  used : IsHalves virtio_mmio_queue_used_low virtio_mmio_queue_used_high (λ qs. qs.used_addr)

low_of : (lo hi : ℕ) → lo < 2 ^ 32 → (lo + hi * 2 ^ 32) % 2 ^ 32 ≡ lo
low_of lo hi h = omega arith

high_of : (lo hi : ℕ) → lo < 2 ^ 32 → hi < 2 ^ 32 → (lo + hi * 2 ^ 32) / 2 ^ 32 % 2 ^ 32 ≡ hi
high_of lo hi h k = omega arith

-- When the driver writes the low and then the high half of one of the three addresses of the
-- selected queue, both 32-bit words, over an address of 64 bits, the address is made of the two
-- halves, and both registers read back what was written.
pub mmio_set_register-mmio_register :
    {D : Type 0} (s : VirtioDevice D) (low high : ℕ) (field : QueueState → ℕ) (lo hi : ℕ)
    → IsHalves low high field
    → field (selected s) < 2 ^ 64
    → lo < 2 ^ 32
    → hi < 2 ^ 32
    → let t = mmio_set_register (mmio_set_register s low lo) high hi in
      (field (selected t) ≡ lo + hi * 2 ^ 32)
      × (mmio_register t low ≡ lo)
      × (mmio_register t high ≡ hi)
unfolding mmio_set_register mmio_register
mmio_set_register-mmio_register s _ _ _ lo hi desc f h k =
    let whole = set_high32-set_low32 (selected s).desc_addr lo hi f h in
    let here : (s.queue_sel == s.queue_sel) ≡ true = ground arith in
    rw (here, whole) (refl, low_of lo hi h, high_of lo hi h k)
mmio_set_register-mmio_register s _ _ _ lo hi avail f h k =
    let whole = set_high32-set_low32 (selected s).avail_addr lo hi f h in
    let here : (s.queue_sel == s.queue_sel) ≡ true = ground arith in
    rw (here, whole) (refl, low_of lo hi h, high_of lo hi h k)
mmio_set_register-mmio_register s _ _ _ lo hi used f h k =
    let whole = set_high32-set_low32 (selected s).used_addr lo hi f h in
    let here : (s.queue_sel == s.queue_sel) ≡ true = ground arith in
    rw (here, whole) (refl, low_of lo hi h, high_of lo hi h k)
