-- ===== src/Scheduler/Enqueue.antt =====
-- Enqueue: the limit on the queue, and what a job that is let in changes.
use tasch.Base.{
  ℕ, ◌+◌, ◌≡◌, ◌≢◌, refl, String, pos, ◌≤ℤ◌, ◌<ℤ◌, true, false, none, some, ◌⊎◌, ◌∷◌, lookup,
  insert, count, arith, ◌==◌, if◌then◌else◌, inl, inr, Bool-cases, lookup-insert, eq_iff,
}
use tasch.Heap.Ops.{push-Inserted}
use tasch.Jobs.{JobState}
use tasch.Jobs.Less.{less_in-IsOrder}
use tasch.Scheduler.{
  GlobalScheduler, less, is_full, set_state, heap_push, notify_job_change, enqueue, queue_full,
  queue_len, write, job_change,
}
use tasch.Scheduler.WellFormed.{
  IsWellFormed, write-IsWellFormed, register_push-IsWellFormed, notify-IsWellFormed, less_in-update,
}

-- The job `p` is new: its id is not registered.
abbrev pub IsNew : GlobalScheduler → ℕ → Type 0
IsNew s p = lookup (s.mem p).id s.jobs ≡ none

pub new-count :
    (s : GlobalScheduler) (p : ℕ) → IsWellFormed s → IsNew s p → count p s.queue.items ≡ 0
new-count s p v new = ground (arith, v.tracked p)

-- Enqueue of a new job keeps the invariant, whether it lets the job in or not.
pub enqueue-IsWellFormed :
    (s : GlobalScheduler) (p : ℕ) → IsWellFormed s → IsNew s p → IsWellFormed (enqueue s p).0
unfolding enqueue set_state
enqueue-IsWellFormed s p v new = elim (Bool-cases (is_full s)) [
  | inl full ↦ rw full v
  | inr room ↦
      let id = (s.mem p).id in
      let w =
        write-IsWellFormed s v p (record (s.mem p) { state = JobState.queued }) refl refl refl in
      let mine = lookup-insert id id p s.jobs in
      rw room (
        notify-IsWellFormed _
          (register_push-IsWellFormed (write s p (record (s.mem p) { state = JobState.queued })) w p
            (insert ((write s p (record (s.mem p) { state = JobState.queued })).mem p).id p s.jobs)
            (new-count s p v new) (ground (arith, mine, eq_iff id id))
            (λ k r h. ground (arith, lookup-insert k id p s.jobs, eq_iff id k))
            (λ k r h e. ground (arith, lookup-insert k id p s.jobs, eq_iff id k))
            (λ k h. ground (arith, lookup-insert k id p s.jobs, eq_iff id k, v.named k p)))
          p)
]

-- What letting the job `p` in changes: the queue has `p` once more, `p` is QUEUED and registered
-- under its id, and all other jobs and ids are as before.
pub record Admitted (s : GlobalScheduler) (p : ℕ) (s' : GlobalScheduler) : Type 0 where
  pub counted : (r : ℕ) → count r s'.queue.items ≡ count r s.queue.items + (if p == r then 1 else 0)
  pub size : queue_len s' ≡ queue_len s + 1
  pub written : s'.mem p ≡ record (s.mem p) { state = JobState.queued }
  pub found : lookup (s.mem p).id s'.jobs ≡ some p
  pub others : (r : ℕ) → p ≢ r → s'.mem r ≡ s.mem r
  pub kept : (id : String) → (s.mem p).id ≢ id → lookup id s'.jobs ≡ lookup id s.jobs

notify-Admitted :
    (s s' : GlobalScheduler) (p r : ℕ) → Admitted s p s' → Admitted s p (notify_job_change s' r)
unfolding notify_job_change
notify-Admitted s s' p r a =
    elim s'.on_job_change as (λ b. Admitted s p (if b then logged else s')) [
      | true ↦ record {
        counted = a.counted;
        size = a.size;
        written = a.written;
        found = a.found;
        others = a.others;
        kept = a.kept;
      }
      | false ↦ a
    ]
  where
    logged : GlobalScheduler
    logged = record s' { changes = job_change r ∷ s'.changes }

-- Enqueue refuses exactly when a limit is set and reached, and then changes nothing; else it lets
-- the new job in.
pub enqueue_cases :
    (s : GlobalScheduler) (p : ℕ)
    → IsWellFormed s
    → IsNew s p
    → ((pos 0 <ℤ s.max_queue_size)
        × (s.max_queue_size ≤ℤ pos (queue_len s))
        × (enqueue s p ≡ (s, some (queue_full s.max_queue_size))))
      ⊎ (((s.max_queue_size ≤ℤ pos 0) ⊎ (pos (queue_len s) <ℤ s.max_queue_size))
          × ((enqueue s p).1 ≡ none)
          × Admitted s p (enqueue s p).0)
unfolding enqueue set_state heap_push
enqueue_cases s p v new = elim (Bool-cases (is_full s)) [
  | inl full ↦ inl (ground arith, ground arith, rw full)
  | inr room ↦
      let j = record (s.mem p) { state = JobState.queued } in
      let order = less_in-update s.mem p j refl refl in
      let one =
        push-Inserted (less s) (less_in-IsOrder s.mem) s.queue p v.valid (new-count s p v new) in
      let own : (write s p j).mem p ≡ j = ground arith in
      inr (
        ground arith,
        rw room,
        rw room (
            notify-Admitted s _ p p (record {
              counted = rw order one.same;
              size = rw order one.size;
              written = own;
              found = ground (
                arith,
                own,
                lookup-insert (s.mem p).id (s.mem p).id p s.jobs,
                eq_iff (s.mem p).id (s.mem p).id,
              );
              others = λ r e. ground arith;
              kept = λ id e.
                  ground
                    (arith, own, lookup-insert id (s.mem p).id p s.jobs, eq_iff (s.mem p).id id);
            })),
      )
]

-- With a limit set, Enqueue never takes the queue past it.
pub queue_len-enqueue-le :
    (s : GlobalScheduler) (p : ℕ)
    → IsWellFormed s
    → IsNew s p
    → pos 0 <ℤ s.max_queue_size
    → pos (queue_len s) ≤ℤ s.max_queue_size
    → pos (queue_len (enqueue s p).0) ≤ℤ s.max_queue_size
queue_len-enqueue-le s p v new set h = elim (enqueue_cases s p v new) [
  | inl (a, b, refused) ↦ rw refused h
  | inr (room, taken, a) ↦ ground (arith, a.size)
]
