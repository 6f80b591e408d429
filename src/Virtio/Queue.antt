-- ===== src/Virtio/Queue.antt =====
-- virtio.c: the chains of descriptors of a queue, and the notification of a queue.
-- The loops over a chain follow the `next` fields of the guest, so they run on fuel and are `none`
-- where it is used up. `desc` is the descriptor in the caller's frame, as its 16 bytes: a failed
-- read leaves the old bytes in it, and at first it holds whatever the frame held.
pub mod Chain
use d_risc_v_emulator_tinyem.Base.{
  ℕ, zero, suc, ◌+◌, ◌-◌, ◌*◌, ◌%◌, ◌^◌, bit_and, Bool, true, false, not, ltb, leb, ◌==◌,
  if◌then◌else◌, tst, u16, u32, u64, min, Option, none, some, Mem, load_le,
}
use d_risc_v_emulator_tinyem.Virtio.{
  VirtioDevice, QueueState, put_queue, neg32, vring_desc_f_next, vring_desc_f_write, virtio_read16,
  virtio_memcpy_from_ram, virtio_memcpy_to_ram,
}

abbrev pub VirtioDesc : Type 0
VirtioDesc = Mem

abbrev pub desc_addr : VirtioDesc → ℕ
desc_addr desc = load_le 8 desc 0

abbrev pub desc_len : VirtioDesc → ℕ
desc_len desc = load_le 4 desc 8

abbrev pub desc_flags : VirtioDesc → ℕ
desc_flags desc = load_le 2 desc 12

abbrev pub desc_next : VirtioDesc → ℕ
desc_next desc = load_le 2 desc 14

abbrev pub has_next : VirtioDesc → Bool
has_next desc = tst (desc_flags desc) vring_desc_f_next

abbrev pub is_write : VirtioDesc → Bool
is_write desc = tst (desc_flags desc) vring_desc_f_write

-- The smaller of two `int`.
abbrev pub min_int : ℕ → ℕ → ℕ
min_int a b = if ltb (u32 (a + 2 ^ 31)) (u32 (b + 2 ^ 31)) then a else b

-- An `int` as a 64-bit pattern.
abbrev pub sext64 : ℕ → ℕ
sext64 a = if neg32 a then a + (2 ^ 64 - 2 ^ 32) else a

module _ {D : Type 0} where
  unfoldable pub get_desc : VirtioDevice D → VirtioDesc → ℕ → ℕ → Bool × VirtioDesc
  get_desc s desc queue_idx desc_idx =
      virtio_memcpy_from_ram s desc 0 (u64 ((s.queue queue_idx).desc_addr + desc_idx * 16)) 16

  -- The descriptor after the call, whose result the callers do not look at.
  unfoldable pub desc_at : VirtioDevice D → VirtioDesc → ℕ → ℕ → VirtioDesc
  desc_at s desc queue_idx desc_idx = let (_, desc') = get_desc s desc queue_idx desc_idx in desc'

  -- The first write descriptor of the chain; `some none` is the result -1.
  unfoldable pub find_write : ℕ → VirtioDevice D → ℕ → VirtioDesc → Option (Option VirtioDesc)
  find_write zero s queue_idx desc = none
  find_write (suc n) s queue_idx desc = elim (is_write desc) [
    | true ↦ some (some desc)
    | false ↦ elim (has_next desc) [
      | false ↦ some none
      | true ↦ find_write n s queue_idx (desc_at s desc queue_idx (desc_next desc))
    ]
  ]

  -- The descriptor that holds `offset`, with the offset in it.
  unfoldable pub find_offset :
      ℕ → VirtioDevice D → ℕ → Bool → VirtioDesc → ℕ → Option (Option (VirtioDesc × ℕ))
  find_offset zero s queue_idx to_queue desc offset = none
  find_offset (suc n) s queue_idx to_queue desc offset =
      elim (if is_write desc then to_queue else not to_queue) [
        | false ↦ some none
        | true ↦ elim (ltb offset (desc_len desc)) [
          | true ↦ some (some (desc, offset))
          | false ↦ elim (has_next desc) [
            | false ↦ some none
            | true ↦
                find_offset n s queue_idx to_queue (desc_at s desc queue_idx (desc_next desc))
                  (u32 (offset + 2 ^ 32 - desc_len desc))
          ]
        ]
      ]

  -- One copy between the buffer at `at` and the descriptor at `offset`.
  abbrev pub copy_part : VirtioDevice D → Bool → VirtioDesc → ℕ → Mem → ℕ → ℕ → VirtioDevice D × Mem
  copy_part s to_queue desc offset buf at l =
      let addr = u64 (desc_addr desc + sext64 offset) in
      if to_queue
      then (let (_, s') = virtio_memcpy_to_ram s addr buf at l in (s', buf))
      else (let (_, buf') = virtio_memcpy_from_ram s buf at addr l in (s, buf'))

  unfoldable pub copy_chain :
      ℕ
      → VirtioDevice D
      → ℕ
      → Bool
      → VirtioDesc
      → ℕ
      → Mem
      → ℕ
      → ℕ
      → Option (Bool × VirtioDevice D × Mem)
  copy_chain zero s queue_idx to_queue desc offset buf at count = none
  copy_chain (suc n) s queue_idx to_queue desc offset buf at count =
      let l = min_int count (u32 (desc_len desc + 2 ^ 32 - offset)) in
      let (s', buf') = copy_part s to_queue desc offset buf at l in
      let count' = u32 (count + 2 ^ 32 - l) in
      let offset' = u32 (offset + l) in
      let at' = u64 (at + sext64 l) in
      let desc' = desc_at s' desc queue_idx (desc_next desc) in
      elim (count' == 0) [
        | true ↦ some (true, s', buf')
        | false ↦ elim (offset' == desc_len desc) [
          | false ↦ copy_chain n s' queue_idx to_queue desc offset' buf' at' count'
          | true ↦ elim (has_next desc) [
            | false ↦ some (false, s', buf')
            | true ↦ elim (if is_write desc' then to_queue else not to_queue) [
              | false ↦ some (false, s', buf')
              | true ↦ copy_chain n s' queue_idx to_queue desc' 0 buf' at' count'
            ]
          ]
        ]
      ]

  -- The last loop, from where the second one ended.
  unfoldable pub copy_found :
      ℕ
      → VirtioDevice D
      → ℕ
      → Bool
      → Mem
      → ℕ
      → Option (Option (VirtioDesc × ℕ))
      → Option (Bool × VirtioDevice D × Mem)
  copy_found fuel s queue_idx to_queue buf count none = none
  copy_found fuel s queue_idx to_queue buf count (some none) = some (false, s, buf)
  copy_found fuel s queue_idx to_queue buf count (some (some (desc, offset))) =
      copy_chain fuel s queue_idx to_queue desc offset buf 0 count

  -- The second loop and the last one, from where the first one ended.
  unfoldable pub seek_and_copy :
      ℕ
      → VirtioDevice D
      → ℕ
      → Bool
      → Mem
      → ℕ
      → ℕ
      → Option (Option VirtioDesc)
      → Option (Bool × VirtioDevice D × Mem)
  seek_and_copy fuel s queue_idx to_queue buf offset count none = none
  seek_and_copy fuel s queue_idx to_queue buf offset count (some none) = some (false, s, buf)
  seek_and_copy fuel s queue_idx to_queue buf offset count (some (some desc)) =
      copy_found fuel s queue_idx to_queue buf count
        (find_offset fuel s queue_idx to_queue desc offset)

  -- `fuel` bounds each of the three loops. The host's buffer is a memory of its own: what the code writes
  -- before or beyond it, for a descriptor of 2 ^ 31 bytes or more, stays in it.
  unfoldable pub memcpy_to_from_queue :
      ℕ
      → VirtioDesc
      → VirtioDevice D
      → Mem
      → ℕ
      → ℕ
      → ℕ
      → ℕ
      → Bool
      → Option (Bool × VirtioDevice D × Mem)
  memcpy_to_from_queue fuel desc s buf queue_idx desc_idx offset count to_queue =
      let first = desc_at s desc queue_idx desc_idx in
      let found = if to_queue then find_write fuel s queue_idx first else some (some first) in
      elim (count == 0) [
        | true ↦ some (true, s, buf)
        | false ↦ seek_and_copy fuel s queue_idx to_queue buf offset count found
      ]

  unfoldable pub memcpy_from_queue :
      ℕ → VirtioDesc → VirtioDevice D → Mem → ℕ → ℕ → ℕ → ℕ → Option (Bool × VirtioDevice D × Mem)
  memcpy_from_queue fuel desc s buf queue_idx desc_idx offset count =
      memcpy_to_from_queue fuel desc s buf queue_idx desc_idx offset count false

  unfoldable pub memcpy_to_queue :
      ℕ → VirtioDesc → VirtioDevice D → ℕ → ℕ → ℕ → Mem → ℕ → Option (Bool × VirtioDevice D × Mem)
  memcpy_to_queue fuel desc s queue_idx desc_idx offset buf count =
      memcpy_to_from_queue fuel desc s buf queue_idx desc_idx offset count true

  -- The two loops of `get_desc_rw_size`, the write part first.
  unfoldable pub write_size_from : ℕ → VirtioDevice D → ℕ → VirtioDesc → ℕ → Option (Option ℕ)
  write_size_from zero s queue_idx desc write_size = none
  write_size_from (suc n) s queue_idx desc write_size = elim (is_write desc) [
    | false ↦ some none
    | true ↦
        let write_size' = u32 (write_size + desc_len desc) in
        elim (has_next desc) [
          | false ↦ some (some write_size')
          | true ↦
              write_size_from n s queue_idx (desc_at s desc queue_idx (desc_next desc)) write_size'
        ]
  ]

  unfoldable pub rw_size_from : ℕ → VirtioDevice D → ℕ → VirtioDesc → ℕ → Option (Option (ℕ × ℕ))
  rw_size_from zero s queue_idx desc read_size = none
  rw_size_from (suc n) s queue_idx desc read_size = elim (is_write desc) [
    | true ↦ elim (write_size_from (suc n) s queue_idx desc 0) [
      | none ↦ none
      | some none ↦ some none
      | some (some write_size) ↦ some (some (read_size, write_size))
    ]
    | false ↦
        let read_size' = u32 (read_size + desc_len desc) in
        elim (has_next desc) [
          | false ↦ some (some (read_size', 0))
          | true ↦ rw_size_from n s queue_idx (desc_at s desc queue_idx (desc_next desc)) read_size'
        ]
  ]

  -- The read and the write size of a chain; `some none` is the result -1.
  unfoldable pub get_desc_rw_size :
      ℕ → VirtioDesc → VirtioDevice D → ℕ → ℕ → Option (Option (ℕ × ℕ))
  get_desc_rw_size fuel desc s queue_idx desc_idx =
      rw_size_from fuel s queue_idx (desc_at s desc queue_idx desc_idx) 0
