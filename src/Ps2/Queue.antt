-- ===== src/Ps2/Queue.antt =====
-- The queue as a bounded FIFO: item `j` is the `j`-th byte that will be read.
use d_risc_v_emulator_tinyem.Base.{
  ℕ, ◌+◌, ◌-◌, ◌%◌, ◌≤◌, ◌<◌, ◌≡◌, ◌⊎◌, inl, inr, refl, arith, Bool-cases, ◌==◌, leb, if◌then◌else◌,
  true, false, not, ◌∷◌,
}
use d_risc_v_emulator_tinyem.Ps2.{Ps2Queue, Ps2State, ps2_queue, ps2_read_data}

pub record IsQueue (q : Ps2Queue) : Type 0 where
  pub read_fits : q.rptr < 256
  pub count_fits : q.count ≤ 256
  pub write_follows : q.wptr ≡ (q.rptr + q.count) % 256

abbrev pub item : Ps2Queue → ℕ → ℕ
item q j = q.data_at ((q.rptr + j) % 256)

-- A byte is put behind those that wait, with what stands at position `j` of the buffer.
pub record Queued (s t : Ps2State) (b j : ℕ) : Type 0 where
  pub longer : t.queue.count ≡ s.queue.count + 1
  pub items : item t.queue j ≡ (if j == s.queue.count then b % 256 else item s.queue j)
  pub raised : t.irq_calls ≡ true ∷ s.irq_calls
  pub fits : IsQueue t.queue

-- On a well-formed queue of 256 bytes, a full one stays as it is. Else the byte is put behind those
-- that wait, every other position `j` of the buffer, counted from the read position, holds what it
-- held, the interrupt is raised, and the queue is well formed.
pub ps2_queue-Queued :
    (s : Ps2State) (b j : ℕ)
    → IsQueue s.queue
    → j < 256
    → ((s.queue.count ≡ 256) × (ps2_queue s b ≡ s))
      ⊎ ((s.queue.count < 256) × Queued s (ps2_queue s b) b j)
unfolding ps2_queue
ps2_queue-Queued s b j v h = elim (Bool-cases (leb 256 s.queue.count)) [
  | inl full ↦ inl (ground (arith, v.count_fits), rw full refl)
  | inr room ↦
      let w = v.write_follows in
      let r = v.read_fits in
      inr (
        ground arith,
        rw room (record {
          longer = refl;
          items = ground arith;
          raised = refl;
          fits = record {
            read_fits = v.read_fits;
            count_fits = ground arith;
            write_follows = ground arith;
          };
        }),
      )
]

-- The first byte is taken off.
pub record Taken (s t : Ps2State) (j : ℕ) : Type 0 where
  pub shorter : t.queue.count + 1 ≡ s.queue.count
  pub rest : item t.queue j ≡ item s.queue (j + 1)
  pub lowered : t.irq_calls ≡ not (t.queue.count == 0) ∷ (false ∷ s.irq_calls)
  pub fits : IsQueue t.queue

-- On a well-formed queue, a read of an empty one changes nothing and gives the byte before the read
-- position again. Else it gives the first byte that waits and takes it off: item `j + 1` is then
-- item `j`, the interrupt is lowered and raised again if a byte is left, and the queue is well formed.
pub ps2_read_data-Taken :
    (s : Ps2State) (j : ℕ)
    → IsQueue s.queue
    → ((s.queue.count ≡ 0) × (ps2_read_data s ≡ (s.queue.data_at ((s.queue.rptr + 255) % 256), s)))
      ⊎ (((ps2_read_data s).0 ≡ item s.queue 0) × Taken s (ps2_read_data s).1 j)
unfolding ps2_read_data
ps2_read_data-Taken s j v = elim (Bool-cases (s.queue.count == 0)) [
  | inl empty ↦
      let r = v.read_fits in
      let before : (if s.queue.rptr == 0 then 255 else s.queue.rptr - 1)
          ≡ (s.queue.rptr + 255) % 256 =
        ground arith in
      inl (ground arith, rw (empty, before) refl)
  | inr some_left ↦
      let w = v.write_follows in
      let r = v.read_fits in
      let c = v.count_fits in
      inr (
        ground arith,
        rw some_left (record {
          shorter = ground arith;
          rest = ground arith;
          lowered = refl;
          fits = record {
            read_fits = ground arith;
            count_fits = omega arith;
            write_follows = ground arith;
          };
        }),
      )
]
