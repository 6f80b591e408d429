-- ===== src/Virtio/Console/Kind.antt =====
-- Messages to the guest, and the console as a kind of VirtIO device.
use d_risc_v_emulator_tinyem.Base.{
  ◌≢◌, ◌⊎◌, inl, inr, Bool-cases, ℕ, ◌+◌, ◌≡◌, ◌∙◌, ap, refl, arith, Bool, true, false, ◌==◌,
  Option, none, some, Mem, u16,
}
use d_risc_v_emulator_tinyem.Virtio.Console.{
  VirtioConsoleDevice, written, virtio_console_recv_request, recv_avail_idx, delivered,
  virtio_console_write_data,
}
use d_risc_v_emulator_tinyem.Virtio.Kinds.{
  IsSuccessor, IsRamWrite-IsSuccessor, virtio_consume_desc-IsSuccessor, put_device-IsSuccessor,
}
use d_risc_v_emulator_tinyem.Virtio.Notify.Keeps.{Gives, gives, gives_none}
use d_risc_v_emulator_tinyem.Virtio.Notify.{last_avail_idx_of}
use d_risc_v_emulator_tinyem.Virtio.Queue.{VirtioDesc, memcpy_from_queue, memcpy_to_queue}
use d_risc_v_emulator_tinyem.Virtio.Regs.Handlers.{next_avail-last, IsKind, next_avail-IsDevice}
use d_risc_v_emulator_tinyem.Virtio.Safety.{
  CopyIsRamWrite, runs_on, copied, memcpy_to_from_queue-CopyIsRamWrite,
}
use d_risc_v_emulator_tinyem.Virtio.Valid.{IsDevice}
use d_risc_v_emulator_tinyem.Virtio.{VirtioDevice, QueueState}

written-Gives :
    (s : VirtioConsoleDevice) (q d r : ℕ) (o : Option (Bool × VirtioConsoleDevice × Mem))
    → CopyIsRamWrite s o
    → IsSuccessor s s
    → Gives IsDevice (written q d r o)
unfolding written
written-Gives s q d r _ runs_on k = gives_none
written-Gives s q d r _ (copied ok t buf h) k =
    let moved = put_device-IsSuccessor s t _ (IsRamWrite-IsSuccessor s s t h k) in
    gives (virtio_consume_desc-IsSuccessor s _ q d 0 moved).valid

to_console-Gives :
    (b : Bool) {s : VirtioConsoleDevice} {o : Option (Bool × VirtioConsoleDevice)}
    → IsDevice s
    → Gives IsDevice o
    → Gives IsDevice (elim b [ false ↦ some (false, s) | true ↦ o ])
to_console-Gives true v h = h
to_console-Gives false v h = gives v

recv_request-Gives :
    (fuel : ℕ) (frame : VirtioDesc) (s : VirtioConsoleDevice) (q d r w : ℕ)
    → IsDevice s
    → Gives IsDevice (virtio_console_recv_request fuel frame s q d r w)
unfolding virtio_console_recv_request memcpy_from_queue
recv_request-Gives fuel frame s q d r w v = to_console-Gives (q == 1) v (
    written-Gives s q d r _
      (memcpy_to_from_queue-CopyIsRamWrite fuel frame s frame q d 0 r false v.paged)
      (record { valid = v; queue_same = refl }))

pub virtio_console-IsKind :
    (fuel : ℕ) (frame : VirtioDesc) → IsKind (virtio_console_recv_request fuel frame) (λ s. s)
virtio_console-IsKind fuel frame = record {
  recv_valid = λ s q d r w v. recv_request-Gives fuel frame s q d r w v;
  config_valid = λ s v. v;
}

-- How a message to the guest ends: it runs on in the chain, or the guest gave no chain and nothing
-- happens, or the message takes one chain.
pub data Delivery {D : Type 0} (s : VirtioDevice D) (len : ℕ)
    : Option (ℕ × VirtioDevice D) → Type 0 where
  hung : Delivery s len none
  refused :
      ((s.queue 0).ready ≡ 0) ⊎ (last_avail_idx_of s 0 ≡ recv_avail_idx s)
      → Delivery s len (some (0, s))
  taken :
      (t : VirtioDevice D)
      → (s.queue 0).ready ≢ 0
      → last_avail_idx_of s 0 ≢ recv_avail_idx s
      → IsDevice t
      → last_avail_idx_of t 0 ≡ u16 (last_avail_idx_of s 0 + 1)
      → Delivery s len (some (len, t))

module _ {D : Type 0} where
  delivered-Delivery :
      (s : VirtioDevice D) (d len : ℕ) (o : Option (Bool × VirtioDevice D × Mem))
      → IsDevice s
      → (s.queue 0).ready ≢ 0
      → last_avail_idx_of s 0 ≢ recv_avail_idx s
      → CopyIsRamWrite s o
      → Delivery s len (delivered d len len o)
  unfolding delivered
  delivered-Delivery s d len _ v r a runs_on = hung
  delivered-Delivery s d len _ v r a (copied ok t buf h) =
      let same : IsSuccessor s s = record { valid = v; queue_same = refl } in
      let k = virtio_consume_desc-IsSuccessor s t 0 d len (IsRamWrite-IsSuccessor s s t h same) in
      taken _ r a (next_avail-IsDevice _ 0 (omega arith) k.valid) (
        next_avail-last _ 0
        ∙ ap (λ (f : ℕ → QueueState). u16 ((f 0).last_avail_idx + 1)) k.queue_same)

  -- On a valid device, `virtio_console_write_data` refuses the data, and changes nothing, exactly if
  -- the receive queue is not ready or the driver has given no chain. Else it leaves a valid device
  -- with the position one further, if the copy into the chain ends, and returns the length.
  pub virtio_console_write_data-Delivery :
      (fuel : ℕ) (frame : VirtioDesc) (s : VirtioDevice D) (buf : Mem) (buf_len : ℕ)
      → IsDevice s
      → Delivery s buf_len (virtio_console_write_data fuel frame s buf buf_len)
  unfolding virtio_console_write_data memcpy_to_queue
  virtio_console_write_data-Delivery fuel frame s buf buf_len v =
      elim (Bool-cases ((s.queue 0).ready == 0)) [
        | inl e ↦ rw (e, virtio_console_write_data) (refused (inl (ground arith)))
        | inr e ↦ elim (Bool-cases (last_avail_idx_of s 0 == recv_avail_idx s)) [
          | inl f ↦ rw (e, f, virtio_console_write_data) (refused (inr (ground arith)))
          | inr f ↦
              rw (e, f, virtio_console_write_data)
                (delivered-Delivery s _ buf_len _ v (ground arith) (ground arith)
                  (memcpy_to_from_queue-CopyIsRamWrite fuel frame s buf 0 _ 0 buf_len true v.paged))
        ]
      ]
