-- ===== src/Virtio/Block/Kind.antt =====
-- The block device as a kind of VirtIO device.
use d_risc_v_emulator_tinyem.Base.{
  ◌<◌, u64, ℕ, ◌+◌, ◌-◌, ◌^◌, ◌≡◌, ap, refl, Bool, true, false, ◌==◌, if◌then◌else◌, u32, Option,
  none, some, Mem, load_le,
}
use d_risc_v_emulator_tinyem.Virtio.Block.{
  VirtioBlockDevice, BlockDevice, BlockRequest, set_block, virtio_blk_t_in, virtio_blk_t_out,
  header_size, answered, virtio_block_req_end, accepted, started, read_request, written_data,
  write_request, with_header, virtio_block_recv_request,
}
use d_risc_v_emulator_tinyem.Virtio.Kinds.{
  Holds, holds, nothing, IsSuccessor, IsRamWrite-IsSuccessor, virtio_consume_desc-IsSuccessor,
  put_device-IsSuccessor,
}
use d_risc_v_emulator_tinyem.Virtio.Notify.Rounds.{
  Ends, waiting_of, queue_notify-Ends, KeepsPosition,
}
use d_risc_v_emulator_tinyem.Virtio.Regs.Handlers.{next_avail-IsDevice, IsKind}
use d_risc_v_emulator_tinyem.Virtio.Notify.Keeps.{Gives_at, Gives, gives, gives_none}
use d_risc_v_emulator_tinyem.Virtio.Queue.{VirtioDesc, memcpy_from_queue, memcpy_to_queue}
use d_risc_v_emulator_tinyem.Virtio.Safety.{
  CopyIsRamWrite, runs_on, copied, memcpy_to_from_queue-CopyIsRamWrite,
}
use d_risc_v_emulator_tinyem.Virtio.Valid.{IsDevice}
use d_risc_v_emulator_tinyem.Virtio.Notify.{queue_notify}
use d_risc_v_emulator_tinyem.Virtio.{max_queue, virtio_read16, QueueState}

module _ (fuel : ℕ) (frame : VirtioDesc) (bs : BlockDevice) (s0 : VirtioBlockDevice) where
  if-Holds :
      (c : Bool) {p q : Option VirtioBlockDevice}
      → Holds (IsSuccessor s0) p
      → Holds (IsSuccessor s0) q
      → Holds (IsSuccessor s0) (if c then p else q)
  if-Holds true h k = h
  if-Holds false h k = k

  if-Gives :
      (c : Bool) {p q : Option (Bool × VirtioBlockDevice)}
      → Gives (IsSuccessor s0) p
      → Gives (IsSuccessor s0) q
      → Gives (IsSuccessor s0) (if c then p else q)
  if-Gives true h k = h
  if-Gives false h k = k

  answered-Holds :
      (s : VirtioBlockDevice) (q d len : ℕ) (o : Option (Bool × VirtioBlockDevice × Mem))
      → CopyIsRamWrite s o
      → IsSuccessor s0 s
      → Holds (IsSuccessor s0) (answered q d len o)
  unfolding answered
  answered-Holds s q d len _ runs_on k = nothing
  answered-Holds s q d len _ (copied ok t buf h) k =
      holds (virtio_consume_desc-IsSuccessor s0 t q d len (IsRamWrite-IsSuccessor s0 s t h k))

  virtio_block_req_end-Holds :
      (s : VirtioBlockDevice) (ret : ℕ)
      → IsSuccessor s0 s
      → Holds (IsSuccessor s0) (virtio_block_req_end fuel frame s ret)
  unfolding virtio_block_req_end memcpy_to_queue
  virtio_block_req_end-Holds s ret k =
      if-Holds (s.device.req.req_type == virtio_blk_t_in)
        (answered-Holds s _ _ _ _
          (memcpy_to_from_queue-CopyIsRamWrite fuel frame s _ _ _ _ _ true k.valid.paged) k)
        (if-Holds (s.device.req.req_type == virtio_blk_t_out)
          (answered-Holds s _ _ _ _
            (memcpy_to_from_queue-CopyIsRamWrite fuel frame s _ _ _ _ _ true k.valid.paged) k)
          nothing)

  accepted-Gives :
      (o : Option VirtioBlockDevice)
      → Holds (IsSuccessor s0) o
      → Gives (IsSuccessor s0) (accepted o)
  unfolding accepted
  accepted-Gives _ nothing = gives_none
  accepted-Gives _ (holds k) = gives k

  started-Gives :
      (s : VirtioBlockDevice) (ret : ℕ)
      → IsSuccessor s0 s
      → Gives (IsSuccessor s0) (started fuel frame s ret)
  unfolding started
  started-Gives s ret k =
      let ended = accepted-Gives _ (virtio_block_req_end-Holds s ret k) in
      let waits : Gives (IsSuccessor s0)
          (some (false, set_block s (record s.device { req_in_progress = true }))) =
        gives (put_device-IsSuccessor s0 s (record s.device { req_in_progress = true }) k) in
      search (if-Gives, ended, waits) depth 6

  written_data-Gives :
      (s : VirtioBlockDevice) (sector_num len : ℕ) (o : Option (Bool × VirtioBlockDevice × Mem))
      → CopyIsRamWrite s o
      → IsSuccessor s0 s
      → Gives (IsSuccessor s0) (written_data fuel frame bs sector_num len o)
  unfolding written_data
  written_data-Gives s sector_num len _ runs_on k = gives_none
  written_data-Gives s sector_num len _ (copied ok t buf h) k =
      started-Gives t _ (IsRamWrite-IsSuccessor s0 s t h k)

  write_request-Gives :
      (s : VirtioBlockDevice) (sector_num read_size write_size : ℕ)
      → IsSuccessor s0 s
      → Gives (IsSuccessor s0) (write_request fuel frame bs s sector_num read_size write_size)
  unfolding write_request memcpy_from_queue
  write_request-Gives s sector_num read_size write_size k =
      let data_there =
        written_data-Gives s sector_num (u32 (read_size + 2 ^ 32 - header_size)) _
          (memcpy_to_from_queue-CopyIsRamWrite fuel frame s frame s.device.req.queue_idx
            s.device.req.desc_idx header_size (u32 (read_size + 2 ^ 32 - header_size)) false
            k.valid.paged)
          k in
      let fails : Gives (IsSuccessor s0) none = gives_none in
      search (if-Gives, data_there, fails) depth 6

  read_request-Gives :
      (s : VirtioBlockDevice) (sector_num write_size : ℕ)
      → IsSuccessor s0 s
      → Gives (IsSuccessor s0) (read_request fuel frame bs s sector_num write_size)
  unfolding read_request
  read_request-Gives s sector_num write_size k = started-Gives _ _ (put_device-IsSuccessor s0 s _ k)

  with_header-Gives :
      (s : VirtioBlockDevice) (q d r w : ℕ) (o : Option (Bool × VirtioBlockDevice × Mem))
      → CopyIsRamWrite s o
      → IsSuccessor s0 s
      → Gives (IsSuccessor s0) (with_header fuel frame bs q d r w o)
  unfolding with_header
  with_header-Gives s q d r w _ runs_on k = gives_none
  with_header-Gives s q d r w _ (copied false t h c) k = gives (IsRamWrite-IsSuccessor s0 s t c k)
  with_header-Gives s q d r w _ (copied true t h c) k =
      let req : BlockRequest = record t.device.req {
        req_type = load_le 4 h 0;
        queue_idx = q;
        desc_idx = d;
      } in
      let s1 : VirtioBlockDevice = set_block t (record t.device { req = req }) in
      let k1 : IsSuccessor s0 s1 =
        put_device-IsSuccessor s0 t _ (IsRamWrite-IsSuccessor s0 s t c k) in
      let reads = read_request-Gives s1 (load_le 8 h 8) w k1 in
      let writes = write_request-Gives s1 (load_le 8 h 8) r w k1 in
      let other : Gives (IsSuccessor s0) (some (false, s1)) = gives k1 in
      search (if-Gives, reads, writes, other) depth 6

  busy-Gives :
      (b : Bool) {p : Option (Bool × VirtioBlockDevice)}
      → IsSuccessor s0 s0
      → Gives (IsSuccessor s0) p
      → Gives (IsSuccessor s0) (elim b [ true ↦ some (true, s0) | false ↦ p ])
  busy-Gives true k h = gives k
  busy-Gives false k h = h

  recv_request-Gives :
      (q d r w : ℕ)
      → IsDevice s0
      → Gives (IsSuccessor s0) (virtio_block_recv_request fuel frame bs s0 q d r w)
  unfolding virtio_block_recv_request memcpy_from_queue
  recv_request-Gives q d r w v =
      let k : IsSuccessor s0 s0 = record { valid = v; queue_same = refl } in
      busy-Gives s0.device.req_in_progress k (
        with_header-Gives s0 q d r w _
          (memcpy_to_from_queue-CopyIsRamWrite fuel frame s0 frame q d 0 header_size false v.paged)
          k)

Gives-map :
    {P Q : VirtioBlockDevice → Type 0} {o : Option (Bool × VirtioBlockDevice)}
    → ((s : VirtioBlockDevice) → P s → Q s)
    → Gives P o
    → Gives Q o
Gives-map f gives_none = gives_none
Gives-map f (gives p) = gives (f _ p)

-- The block device keeps the common part valid, whatever the guest asks for and the disk answers.
pub virtio_block-IsKind :
    (fuel : ℕ) (frame : VirtioDesc) (bs : BlockDevice)
    → IsKind (virtio_block_recv_request fuel frame bs) (λ s. s)
virtio_block-IsKind fuel frame bs = record {
  recv_valid =
      λ s q d r w v. Gives-map (λ t k. k.valid) (recv_request-Gives fuel frame bs s q d r w v);
  config_valid = λ s v. v;
}

-- It leaves the position in the queues alone.
pub virtio_block-KeepsPosition :
    (fuel : ℕ) (frame : VirtioDesc) (bs : BlockDevice) (queue_idx : ℕ)
    → KeepsPosition fuel frame (virtio_block_recv_request fuel frame bs) queue_idx IsDevice
unfolding KeepsPosition
virtio_block-KeepsPosition fuel frame bs queue_idx s s' stop d r w v e =
    let k = Gives_at (IsSuccessor s) (recv_request-Gives fuel frame bs s queue_idx d r w v) e in
    ap (λ (f : ℕ → QueueState). (f queue_idx).last_avail_idx) k.queue_same

-- On a valid block device, with a queue that is not left to `manual_recv`, the loop of
-- `queue_notify` ends within its 65,536 rounds: with `n` chains between the position and the
-- driver's index, modulo 65,536, after exactly `n` rounds, or earlier, when a request is in
-- progress or a round does not return.
pub block_notify-Ends :
    (fuel : ℕ) (frame : VirtioDesc) (bs : BlockDevice) (s : VirtioBlockDevice) (queue_idx : ℕ)
    → IsDevice s
    → queue_idx < max_queue
    → (s.queue queue_idx).manual_recv ≡ false
    → let recv = virtio_block_recv_request fuel frame bs in
      let avail_idx = virtio_read16 s (u64 ((s.queue queue_idx).avail_addr + 2)) in
      Ends fuel frame recv queue_idx
        (waiting_of fuel frame recv queue_idx avail_idx s)
        avail_idx
        s
        (queue_notify fuel frame recv s queue_idx)
block_notify-Ends fuel frame bs s queue_idx v b auto =
    queue_notify-Ends fuel frame (virtio_block_recv_request fuel frame bs) queue_idx IsDevice s
      (virtio_block-KeepsPosition fuel frame bs queue_idx)
      (record {
        recv_keeps =
            λ t d r w k. (virtio_block-IsKind fuel frame bs).recv_valid t queue_idx d r w k;
        next_keeps = λ t k. next_avail-IsDevice t queue_idx b k;
      })
      v (v.queues queue_idx b).last_fits auto
