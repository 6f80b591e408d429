-- ===== src/Virtio/Safety.antt =====
-- No chain that the guest sets up makes the device write outside of the guest's RAM.
use d_risc_v_emulator_tinyem.Base.{
  ℕ, zero, suc, Bool, true, false, ◌==◌, if◌then◌else◌, not, u32, u64, ◌+◌, ◌-◌, ◌^◌, Option, none,
  some, Mem,
}
use d_risc_v_emulator_tinyem.Iomem.Ram.{IsPaged, KeepsRanges-IsPaged}
use d_risc_v_emulator_tinyem.Virtio.Confined.{
  IsRamWrite, IsRamWrite-refl, IsRamWrite-trans, virtio_memcpy_to_ram-IsRamWrite,
}
use d_risc_v_emulator_tinyem.Virtio.Queue.{
  copy_found, seek_and_copy, min_int, sext64, VirtioDesc, desc_at, find_offset, copy_part,
  copy_chain, memcpy_to_from_queue, desc_len, desc_next, has_next, is_write,
}
use d_risc_v_emulator_tinyem.Virtio.{VirtioDevice}

module _ {D : Type 0} where
  -- What a call that returns a device leaves of it.
  pub data CopyIsRamWrite (s : VirtioDevice D) : Option (Bool × VirtioDevice D × Mem) → Type 0 where
    runs_on : CopyIsRamWrite s none
    copied :
        (ok : Bool) (t : VirtioDevice D) (buf : Mem)
        → IsRamWrite s t
        → CopyIsRamWrite s (some (ok, t, buf))

  after_part :
      {s t : VirtioDevice D} {r : Option (Bool × VirtioDevice D × Mem)}
      → IsRamWrite s t
      → CopyIsRamWrite t r
      → CopyIsRamWrite s r
  after_part h runs_on = runs_on
  after_part h (copied ok u buf k) = copied ok u buf (IsRamWrite-trans _ _ _ h k)

  if-Copy :
      (s : VirtioDevice D) (c : Bool) (q r : Option (Bool × VirtioDevice D × Mem))
      → CopyIsRamWrite s q
      → CopyIsRamWrite s r
      → CopyIsRamWrite s (elim c [ true ↦ q | false ↦ r ])
  if-Copy s true q r h k = h
  if-Copy s false q r h k = k

  copy_part-IsRamWrite :
      (s : VirtioDevice D) (to_queue : Bool) (desc : VirtioDesc) (offset : ℕ) (buf : Mem) (at l : ℕ)
      → IsPaged s.mem_map
      → let (t, _) = copy_part s to_queue desc offset buf at l in IsRamWrite s t
  copy_part-IsRamWrite s true desc offset buf at l v =
      virtio_memcpy_to_ram-IsRamWrite s _ buf at l v
  copy_part-IsRamWrite s false desc offset buf at l v = IsRamWrite-refl s

  copy_chain-IsRamWrite :
      (n : ℕ) (s : VirtioDevice D) (queue_idx : ℕ) (to_queue : Bool) (desc : VirtioDesc)
      (offset : ℕ) (buf : Mem) (at count : ℕ)
      → IsPaged s.mem_map
      → CopyIsRamWrite s (copy_chain n s queue_idx to_queue desc offset buf at count)
  unfolding copy_chain
  copy_chain-IsRamWrite zero s queue_idx to_queue desc offset buf at count v = runs_on
  copy_chain-IsRamWrite (suc n) s queue_idx to_queue desc offset buf at count v =
      let l = min_int count (u32 (desc_len desc + 2 ^ 32 - offset)) in
      let (s', buf') = copy_part s to_queue desc offset buf at l in
      let count' = u32 (count + 2 ^ 32 - l) in
      let offset' = u32 (offset + l) in
      let at' = u64 (at + sext64 l) in
      let desc' = desc_at s' desc queue_idx (desc_next desc) in
      let first : IsRamWrite s s' = copy_part-IsRamWrite s to_queue desc offset buf at l v in
      let v' = KeepsRanges-IsPaged s.mem_map _ first.ranges v in
      let same = copy_chain-IsRamWrite n s' queue_idx to_queue desc offset' buf' at' count' v' in
      let next = copy_chain-IsRamWrite n s' queue_idx to_queue desc' 0 buf' at' count' v' in
      if-Copy s (count' == 0) _ _ (copied true s' buf' first) (
        if-Copy s (offset' == desc_len desc) _ _
          (if-Copy s (has_next desc) _ _
            (if-Copy s (if is_write desc' then to_queue else not to_queue) _ _
              (after_part first next) (copied false s' buf' first))
            (copied false s' buf' first))
          (after_part first same))

  copied_from :
      (s : VirtioDevice D) (buf : Mem) (n queue_idx : ℕ) (to_queue : Bool) (count : ℕ)
      (o : Option (Option (VirtioDesc × ℕ)))
      → IsPaged s.mem_map
      → CopyIsRamWrite s (copy_found n s queue_idx to_queue buf count o)
  unfolding copy_found
  copied_from s buf n queue_idx to_queue count none v = runs_on
  copied_from s buf n queue_idx to_queue count (some none) v =
      copied false s buf (IsRamWrite-refl s)
  copied_from s buf n queue_idx to_queue count (some (some (desc, offset))) v =
      copy_chain-IsRamWrite n s queue_idx to_queue desc offset buf 0 count v

  seek_from :
      (s : VirtioDevice D) (buf : Mem) (n queue_idx : ℕ) (to_queue : Bool) (offset count : ℕ)
      (o : Option (Option VirtioDesc))
      → IsPaged s.mem_map
      → CopyIsRamWrite s (seek_and_copy n s queue_idx to_queue buf offset count o)
  unfolding seek_and_copy
  seek_from s buf n queue_idx to_queue offset count none v = runs_on
  seek_from s buf n queue_idx to_queue offset count (some none) v =
      copied false s buf (IsRamWrite-refl s)
  seek_from s buf n queue_idx to_queue offset count (some (some desc)) v =
      copied_from s buf n queue_idx to_queue count (find_offset n s queue_idx to_queue desc offset)
        v

  -- On a map of whole pages, a copy between a buffer and a chain of descriptors changes no byte
  -- outside of the RAM of the guest and of the memory of the buffer, which is kept apart, and no
  -- register of the device.
  pub memcpy_to_from_queue-CopyIsRamWrite :
      (fuel : ℕ) (desc : VirtioDesc) (s : VirtioDevice D) (buf : Mem)
      (queue_idx desc_idx offset count : ℕ) (to_queue : Bool)
      → IsPaged s.mem_map
      → CopyIsRamWrite s
          (memcpy_to_from_queue fuel desc s buf queue_idx desc_idx offset count to_queue)
  unfolding memcpy_to_from_queue
  memcpy_to_from_queue-CopyIsRamWrite fuel desc s buf queue_idx desc_idx offset count to_queue v =
      if-Copy s (count == 0) _ _ (copied true s buf (IsRamWrite-refl s))
        (seek_from s buf fuel queue_idx to_queue offset count _ v)
