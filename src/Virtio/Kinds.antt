-- ===== src/Virtio/Kinds.antt =====
-- What the kinds of device do between their callbacks: copies and consumed chains.
use d_risc_v_emulator_tinyem.Base.{
  ℕ, ◌<◌, ◌≡◌, ◌∙◌, ap, sym, refl, arith, ◌==◌, if◌then◌else◌, bit_or, Option, none, some,
}
use d_risc_v_emulator_tinyem.Iomem.Ram.{IsPaged, KeepsRanges-IsPaged}
use d_risc_v_emulator_tinyem.Virtio.Confined.{
  IsRamWrite, IsRamWrite-trans, virtio_write16-IsRamWrite, virtio_write32-IsRamWrite,
}
use d_risc_v_emulator_tinyem.Virtio.Valid.{IsQueue, IsDevice, bit_or-ne_zero}
use d_risc_v_emulator_tinyem.Virtio.{VirtioDevice, set_irq, virtio_consume_desc, max_queue}
use mathlib.Core.Path.{subst}

module _ {D : Type 0} where
  pub IsRamWrite-IsDevice : (s t : VirtioDevice D) → IsRamWrite s t → IsDevice s → IsDevice t
  IsRamWrite-IsDevice s t h v = record {
    sel_bound = subst (λ (n : ℕ). n < max_queue) (sym h.same_sel) v.sel_bound;
    queues = λ i b. subst IsQueue (sym (ap (λ f. f i) h.same_queue)) (v.queues i b);
    line = h.same_line ∙ v.line ∙ ap (λ (n : ℕ). if n == 0 then 0 else 1) (sym h.same_status);
    paged = KeepsRanges-IsPaged s.mem_map t.mem_map h.ranges v.paged;
  }

  -- The interrupt that says that a chain is in the used ring.
  abbrev pub raise_used : VirtioDevice D → VirtioDevice D
  raise_used s = set_irq (record s { int_status = bit_or s.int_status 1 }) 1

  -- A consumed chain is a write of guest memory, and then the interrupt.
  pub virtio_consume_desc_lem :
      (s : VirtioDevice D) (queue_idx desc_idx desc_len : ℕ)
      → IsPaged s.mem_map
      → (u : VirtioDevice D) × IsRamWrite s u
        × (virtio_consume_desc s queue_idx desc_idx desc_len ≡ raise_used u)
  unfolding virtio_consume_desc
  virtio_consume_desc_lem s queue_idx desc_idx desc_len v =
      let first = virtio_write16-IsRamWrite s _ _ v in
      let v1 = KeepsRanges-IsPaged s.mem_map _ first.ranges v in
      let second = virtio_write32-IsRamWrite _ _ desc_idx v1 in
      let v2 = KeepsRanges-IsPaged _ _ second.ranges v1 in
      let third = virtio_write32-IsRamWrite _ _ desc_len v2 in
      (_, IsRamWrite-trans s _ _ first (IsRamWrite-trans _ _ _ second third), refl)

  raise_used-IsDevice : (s : VirtioDevice D) → IsDevice s → IsDevice (raise_used s)
  raise_used-IsDevice s v = record {
    sel_bound = v.sel_bound;
    queues = v.queues;
    line = ground (arith, bit_or-ne_zero s.int_status 0);
    paged = v.paged;
  }

  pub virtio_consume_desc-IsDevice :
      (s : VirtioDevice D) (queue_idx desc_idx desc_len : ℕ)
      → IsDevice s
      → IsDevice (virtio_consume_desc s queue_idx desc_idx desc_len)
  virtio_consume_desc-IsDevice s queue_idx desc_idx desc_len v =
      let (u, h, e) = virtio_consume_desc_lem s queue_idx desc_idx desc_len v.paged in
      subst IsDevice (sym e) (raise_used-IsDevice u (IsRamWrite-IsDevice s u h v))

  -- A consumed chain leaves the queues and the state of the device alone.
  pub virtio_consume_desc-queue :
      (s : VirtioDevice D) (queue_idx desc_idx desc_len : ℕ)
      → IsPaged s.mem_map
      → (virtio_consume_desc s queue_idx desc_idx desc_len).queue ≡ s.queue
  virtio_consume_desc-queue s queue_idx desc_idx desc_len v =
      let (u, h, e) = virtio_consume_desc_lem s queue_idx desc_idx desc_len v in
      ap (λ (t : VirtioDevice D). t.queue) e ∙ h.same_queue

-- A result that, where there is one, is as `P` says.
pub data Holds {A : Type 0} (P : A → Type 0) : Option A → Type 0 where
  holds : {a : A} → P a → Holds P (some a)
  nothing : Holds P none

-- A valid device with the queues that `s` has.
pub record IsSuccessor {D : Type 0} (s t : VirtioDevice D) : Type 0 where
  pub valid : IsDevice t
  pub queue_same : t.queue ≡ s.queue

module _ {D : Type 0} where
  pub IsRamWrite-IsSuccessor :
      (s t u : VirtioDevice D) → IsRamWrite t u → IsSuccessor s t → IsSuccessor s u
  IsRamWrite-IsSuccessor s t u h k = record {
    valid = IsRamWrite-IsDevice t u h k.valid;
    queue_same = h.same_queue ∙ k.queue_same;
  }

  pub virtio_consume_desc-IsSuccessor :
      (s t : VirtioDevice D) (queue_idx desc_idx desc_len : ℕ)
      → IsSuccessor s t
      → IsSuccessor s (virtio_consume_desc t queue_idx desc_idx desc_len)
  virtio_consume_desc-IsSuccessor s t queue_idx desc_idx desc_len k = record {
    valid = virtio_consume_desc-IsDevice t queue_idx desc_idx desc_len k.valid;
    queue_same =
        virtio_consume_desc-queue t queue_idx desc_idx desc_len k.valid.paged ∙ k.queue_same;
  }

  -- The device's own part does not matter.
  pub put_device-IsSuccessor :
      (s t : VirtioDevice D) (d : D) → IsSuccessor s t → IsSuccessor s (record t { device = d })
  put_device-IsSuccessor s t d k = record {
    valid = record {
      sel_bound = k.valid.sel_bound;
      queues = k.valid.queues;
      line = k.valid.line;
      paged = k.valid.paged;
    };
    queue_same = k.queue_same;
  }
