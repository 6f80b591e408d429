-- ===== src/Virtio/Valid.antt =====
-- What holds of a device between two accesses of the guest.
use d_risc_v_emulator_tinyem.Base.Pow.{IsPowerOfTwo, bit_and-IsPowerOfTwo}
use d_risc_v_emulator_tinyem.Base.{
  set_digit, bit-zero, bit, lt→ltb, ltb→lt, ℕ, ◌+◌, ◌-◌, ◌*◌, ◌^◌, ◌<◌, ◌≡◌, ◌≢◌, ap, refl, arith,
  bit_and, bit_or, bit_not, bit_or-lt, bit_and-le, bit_and-mask, Bool-cases, inl, inr, ◌==◌, ltb,
  if◌then◌else◌, u32, bit_not-lt, ◌&&◌,
}
use d_risc_v_emulator_tinyem.Iomem.Ram.{IsPaged}
use d_risc_v_emulator_tinyem.Virtio.Regs.{
  set_low32, set_high32, select_queue, set_queue_num, set_queue_ready, set_device_status,
  interrupt_ack,
}
use d_risc_v_emulator_tinyem.Virtio.{
  VirtioDevice, QueueState, put_queue, set_irq, virtio_reset, max_queue,
  virtio_config_change_notify,
}

-- The registers of a queue fit, and its size is a power of two.
pub record IsQueue (qs : QueueState) : Type 0 where
  pub ready_fits : qs.ready < 2
  pub num_power : IsPowerOfTwo qs.num
  pub num_fits : qs.num < 2 ^ 32
  pub last_fits : qs.last_avail_idx < 2 ^ 16
  pub desc_fits : qs.desc_addr < 2 ^ 64
  pub avail_fits : qs.avail_addr < 2 ^ 64
  pub used_fits : qs.used_addr < 2 ^ 64

-- The selected queue is one of the eight, every queue is valid, and the interrupt line is up
-- exactly while an interrupt waits; the memory map has whole pages.
pub record IsDevice {D : Type 0} (s : VirtioDevice D) : Type 0 where
  pub sel_bound : s.queue_sel < max_queue
  pub queues : (i : ℕ) → i < max_queue → IsQueue (s.queue i)
  pub line : s.irq_level ≡ (if s.int_status == 0 then 0 else 1)
  pub paged : IsPaged s.mem_map

pub set_low32-lt : (a v : ℕ) → v < 2 ^ 32 → set_low32 a v < 2 ^ 64
unfolding set_low32
set_low32-lt a v h = omega (
  arith,
  bit_or-lt 64 (bit_and a (bit_not 64 0xffffffff)) v
      (omega (arith, bit_and-le a (bit_not 64 0xffffffff), bit_not-lt 64 0xffffffff)) (omega arith),
)

pub set_high32-lt : (a v : ℕ) → v < 2 ^ 32 → set_high32 a v < 2 ^ 64
unfolding set_high32
set_high32-lt a v h =
    bit_or-lt 64 (bit_and a 0xffffffff) (v * 2 ^ 32) (omega (arith, bit_and-le a 0xffffffff))
      (omega arith)

pub bit_or-ne_zero : (a k : ℕ) → bit_or a (2 ^ k) ≢ 0
bit_or-ne_zero a k e = ground (arith, set_digit a k k, bit-zero k, ap (λ (t : ℕ). bit t k) e)

module _ {D : Type 0} where
  pub put_queue-IsDevice :
      (s : VirtioDevice D) (i : ℕ) (qs : QueueState)
      → IsDevice s
      → IsQueue qs
      → IsDevice (put_queue s i qs)
  put_queue-IsDevice s i qs v q = record {
    paged = v.paged;
    sel_bound = v.sel_bound;
    queues = λ j h. elim (Bool-cases (j == i)) [ inl e ↦ rw e q | inr e ↦ rw e (v.queues j h) ];
    line = v.line;
  }

  pub virtio_reset-IsDevice :
      (s : VirtioDevice D) → s.irq_level ≡ 0 → IsPaged s.mem_map → IsDevice (virtio_reset s)
  unfolding virtio_reset
  virtio_reset-IsDevice s h v = record {
    paged = v;
    sel_bound = omega arith;
    queues = λ i b. rw (lt→ltb i max_queue b) (record {
      ready_fits = omega arith;
      num_power = (4, refl);
      num_fits = omega arith;
      last_fits = omega arith;
      desc_fits = omega arith;
      avail_fits = omega arith;
      used_fits = omega arith;
    });
    line = h;
  }

  pub select_queue-IsDevice :
      (s : VirtioDevice D) (val : ℕ) → IsDevice s → IsDevice (select_queue s val)
  unfolding select_queue
  select_queue-IsDevice s val v = elim (Bool-cases (ltb val max_queue)) [
    | inl e ↦ rw e (record {
      paged = v.paged;
      sel_bound = ltb→lt val max_queue e;
      queues = v.queues;
      line = v.line;
    })
    | inr e ↦ rw e v
  ]

  pub set_queue_num-IsDevice :
      (s : VirtioDevice D) (val : ℕ) → val < 2 ^ 32 → IsDevice s → IsDevice (set_queue_num s val)
  unfolding set_queue_num
  set_queue_num-IsDevice s val h v =
      elim (Bool-cases ((bit_and val (u32 (val + 2 ^ 32 - 1)) == 0) && ltb 0 val)) [
        | inl e ↦ rw e (
            let q = v.queues s.queue_sel v.sel_bound in
            let pred : u32 (val + 2 ^ 32 - 1) ≡ val - 1 = ground arith in
            put_queue-IsDevice s s.queue_sel _ v (record {
              ready_fits = q.ready_fits;
              num_power = bit_and-IsPowerOfTwo val (ground arith) (ground arith);
              num_fits = h;
              last_fits = q.last_fits;
              desc_fits = q.desc_fits;
              avail_fits = q.avail_fits;
              used_fits = q.used_fits;
            }))
        | inr e ↦ rw e v
      ]

  pub set_queue_ready-IsDevice :
      (s : VirtioDevice D) (val : ℕ) → IsDevice s → IsDevice (set_queue_ready s val)
  unfolding set_queue_ready
  set_queue_ready-IsDevice s val v =
      let q = v.queues s.queue_sel v.sel_bound in
      put_queue-IsDevice s s.queue_sel _ v (record {
        ready_fits = omega (arith, bit_and-mask val 1);
        num_power = q.num_power;
        num_fits = q.num_fits;
        last_fits = q.last_fits;
        desc_fits = q.desc_fits;
        avail_fits = q.avail_fits;
        used_fits = q.used_fits;
      })

  pub set_device_status-IsDevice :
      (s : VirtioDevice D) (val : ℕ) → IsDevice s → IsDevice (set_device_status s val)
  unfolding set_device_status
  set_device_status-IsDevice s val v = elim (Bool-cases (val == 0)) [
    | inl e ↦ rw e (virtio_reset-IsDevice (set_irq (record s { status = val }) 0) refl v.paged)
    | inr e ↦
        rw e (record { paged = v.paged; sel_bound = v.sel_bound; queues = v.queues; line = v.line })
  ]

  pub interrupt_ack-IsDevice :
      (s : VirtioDevice D) (val : ℕ) → IsDevice s → IsDevice (interrupt_ack s val)
  unfolding interrupt_ack
  interrupt_ack-IsDevice s val v = elim (Bool-cases (bit_and s.int_status (bit_not 32 val) == 0)) [
    | inl e ↦ rw e (record {
      paged = v.paged;
      sel_bound = v.sel_bound;
      queues = v.queues;
      line = ground arith;
    })
    | inr e ↦ rw e (record {
      paged = v.paged;
      sel_bound = v.sel_bound;
      queues = v.queues;
      line = ground (arith, v.line, bit_and-le s.int_status (bit_not 32 val));
    })
  ]

  pub virtio_config_change_notify-IsDevice :
      (s : VirtioDevice D) → IsDevice s → IsDevice (virtio_config_change_notify s)
  unfolding virtio_config_change_notify
  virtio_config_change_notify-IsDevice s v = record {
    paged = v.paged;
    sel_bound = v.sel_bound;
    queues = v.queues;
    line = ground (arith, bit_or-ne_zero s.int_status 1);
  }
