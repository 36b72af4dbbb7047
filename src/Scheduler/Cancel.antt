-- ===== src/Scheduler/Cancel.antt =====
-- RemoveByID and Cancel: the index field leads to the one entry of the job.
use tasch.Base.{
  ℕ, ◌≡◌, ◌≢◌, refl, String, ℤ, pos, negsuc, Bool, true, false, Option, none, some, ◌⊎◌, ◌∷◌, count,
  lookup, arith, ◌==◌, if◌then◌else◌, inl, inr, Bool-cases, ltb, Option-cases, index_of_count,
  count-get,
}
use tasch.Heap.Ops.{remove-Taken}
use tasch.Jobs.{Job, JobState, copy, is_queued}
use tasch.Jobs.Less.{less_in-IsOrder}
use tasch.Scheduler.{
  GlobalScheduler, less, queue_len, remove_index, remove_by_id, cancel, cancel_found, end_cancelled,
  notify_job_change, job_change, write,
}
use tasch.Scheduler.WellFormed.{IsWellFormed, IsPlaced, write-IsWellFormed, notify-IsWellFormed}
use tasch.Scheduler.Dequeue.{Taken-Removed}

-- `s'` is `s` with no entry of `p` in the queue, and nothing else changed.
pub record Cleared (s : GlobalScheduler) (p : ℕ) (s' : GlobalScheduler) : Type 0 where
  pub well_formed : IsWellFormed s'
  pub gone : count p s'.queue.items ≡ 0
  pub rest : (r : ℕ) → p ≢ r → count r s'.queue.items ≡ count r s.queue.items
  pub mem_kept : s'.mem ≡ s.mem
  pub jobs_kept : s'.jobs ≡ s.jobs

module _ (s : GlobalScheduler) (v : IsWellFormed s) (p : ℕ) (placed : IsPlaced s.queue p) where
  remove_index_at : (z : ℤ) → s.queue.index p ≡ z → Cleared s p (remove_index s z)
  unfolding remove_index
  remove_index_at (pos i) e =
      let (inside, found) = placed i e in
      let t = (remove-Taken (less s) (less_in-IsOrder s.mem) s.queue i v.valid inside).1 in
      let one =
        Taken-Removed s v p _ (rw found at (count-get s.queue.items i inside)) (rw found at t) in
      let here : ltb i (queue_len s) ≡ true = ground arith in
      rw here (record {
        well_formed = one.well_formed;
        gone = one.gone;
        rest = one.rest;
        mem_kept = refl;
        jobs_kept = refl;
      })
  remove_index_at (negsuc i) e = record {
    well_formed = v;
    gone = elim (Bool-cases (count p s.queue.items == 0)) [
      | inl out ↦ ground arith
      | inr inside ↦
          let (k, at, found) = index_of_count p s.queue.items (ground arith) in
          let there = rw found at (v.valid.indexed k at) in absurd (ground arith)
    ];
    rest = λ r d. refl;
    mem_kept = refl;
    jobs_kept = refl;
  }

  -- The test on the index field and heap.Remove take the job out of the queue, if it is there.
  remove_index-Cleared : Cleared s p (remove_index s (s.queue.index p))
  remove_index-Cleared = remove_index_at (s.queue.index p) refl

-- RemoveByID gives nothing and changes nothing for an unknown id or a job that is not QUEUED. Else
-- it gives the copy of the job, which then has no entry in the queue, and keeps the other entries.
pub remove_by_id_cases :
    (s : GlobalScheduler) (job_id : String)
    → IsWellFormed s
    → ((remove_by_id s job_id ≡ (s, none))
        × ((p : ℕ) → lookup job_id s.jobs ≡ some p → (s.mem p).state ≢ JobState.queued))
      ⊎ ((p : ℕ) × (lookup job_id s.jobs ≡ some p)
          × ((s.mem p).state ≡ JobState.queued)
          × ((remove_by_id s job_id).1 ≡ some (copy (s.mem p)))
          × Cleared s p (remove_by_id s job_id).0)
unfolding remove_by_id
remove_by_id_cases s job_id v = elim (Option-cases (lookup job_id s.jobs)) [
  | inl unknown ↦ inl (rw (unknown, remove_by_id), λ p e. ground arith)
  | inr (p, known) ↦ elim (Bool-cases (is_queued (s.mem p).state)) [
    | inl waits ↦
        let clear = remove_index-Cleared s v p (v.placed job_id p known) in
        inr (
          p,
          known,
          ground arith,
          rw (known, remove_by_id) (rw waits),
          rw (known, remove_by_id) (rw waits clear),
        )
    | inr other ↦ inl (rw (known, remove_by_id) (rw other), λ r e d. ground arith)
  ]
]

-- The fields of a cancelled job.
abbrev pub cancelled_at : ℕ → Job → Job
cancelled_at now j = record j { state = JobState.cancelled; end_time = now }

-- `s'` is `s` with the job `p` CANCELLED at `now`: a QUEUED job has left the queue, a RUNNING one has
-- not touched it, and no other job has changed or moved out of the queue or into it.
pub record Cancelled (s : GlobalScheduler) (p now : ℕ) (s' : GlobalScheduler) : Type 0 where
  pub well_formed : IsWellFormed s'
  pub written : s'.mem p ≡ cancelled_at now (s.mem p)
  pub others : (r : ℕ) → p ≢ r → s'.mem r ≡ s.mem r
  pub jobs_kept : s'.jobs ≡ s.jobs
  pub gone : (s.mem p).state ≡ JobState.queued → count p s'.queue.items ≡ 0
  pub stays : (s.mem p).state ≡ JobState.running → s'.queue ≡ s.queue
  pub rest : (r : ℕ) → p ≢ r → count r s'.queue.items ≡ count r s.queue.items

notify-Cancelled :
    (s : GlobalScheduler) (p now : ℕ) (t : GlobalScheduler)
    → IsWellFormed (notify_job_change t p)
    → Cancelled s p now t
    → Cancelled s p now (notify_job_change t p)
unfolding notify_job_change
notify-Cancelled s p now t =
    elim t.on_job_change
      as (λ b.
        IsWellFormed (if b then logged else t)
        → Cancelled s p now t
        → Cancelled s p now (if b then logged else t)) [
          | true ↦ λ w c. record {
            well_formed = w;
            written = c.written;
            others = c.others;
            jobs_kept = c.jobs_kept;
            gone = c.gone;
            stays = c.stays;
            rest = c.rest;
          }
          | false ↦ λ w c. c
        ]
  where
    logged : GlobalScheduler
    logged = record t { changes = job_change p ∷ t.changes }

-- The write and the hook, on a state that differs from `s` in the queue alone.
end_cancelled-Cancelled :
    (s t : GlobalScheduler) (p now : ℕ)
    → IsWellFormed t
    → t.mem ≡ s.mem
    → t.jobs ≡ s.jobs
    → ((s.mem p).state ≡ JobState.queued → count p t.queue.items ≡ 0)
    → ((s.mem p).state ≡ JobState.running → t.queue ≡ s.queue)
    → ((r : ℕ) → p ≢ r → count r t.queue.items ≡ count r s.queue.items)
    → Cancelled s p now (end_cancelled t p now)
unfolding end_cancelled
end_cancelled-Cancelled s t p now v m j gone stays rest =
    let w = write-IsWellFormed t v p (cancelled_at now (t.mem p)) refl refl refl in
    notify-Cancelled s p now (write t p (cancelled_at now (t.mem p))) (notify-IsWellFormed _ w p)
      (record {
        well_formed = w;
        written = rw m (ground arith);
        others = λ r e. rw m (ground arith);
        jobs_kept = j;
        gone = gone;
        stays = stays;
        rest = rest;
      })

-- The three ends of Cancel: an unknown id; a job that is neither QUEUED nor RUNNING, where nothing
-- changes; and a job that is CANCELLED, of which the copy is given.
pub data CancelEnd (s : GlobalScheduler) (job_id : String) (now : ℕ)
    (r : GlobalScheduler × Option Job × Bool) : Type 0 where
  unknown : lookup job_id s.jobs ≡ none → r ≡ (s, none, false) → CancelEnd s job_id now r
  ended :
      (p : ℕ)
      → lookup job_id s.jobs ≡ some p
      → (s.mem p).state ≢ JobState.queued
      → (s.mem p).state ≢ JobState.running
      → r ≡ (s, some (copy (s.mem p)), false)
      → CancelEnd s job_id now r
  done :
      (p : ℕ)
      → lookup job_id s.jobs ≡ some p
      → ((s.mem p).state ≡ JobState.queued) ⊎ ((s.mem p).state ≡ JobState.running)
      → r.1 ≡ some (copy (cancelled_at now (s.mem p)))
      → r.2 ≡ true
      → Cancelled s p now r.0
      → CancelEnd s job_id now r

cancel_found-CancelEnd :
    (s : GlobalScheduler) (job_id : String) (now p : ℕ) (state : JobState)
    → IsWellFormed s
    → lookup job_id s.jobs ≡ some p
    → (s.mem p).state ≡ state
    → CancelEnd s job_id now
        (let (s', ok) = cancel_found s p now state in (s', some (copy (s'.mem p)), ok))
unfolding cancel_found
cancel_found-CancelEnd s job_id now p JobState.queued v known e =
    let t = remove_index-Cleared s v p (v.placed job_id p known) in
    let c =
      end_cancelled-Cancelled s _ p now t.well_formed t.mem_kept t.jobs_kept (λ h. t.gone)
        (λ h. absurd (ground arith)) t.rest in
    done p known (inl e) (rw c.written) refl c
cancel_found-CancelEnd s job_id now p JobState.running v known e =
    let c =
      end_cancelled-Cancelled s s p now v refl refl (λ h. absurd (ground arith)) (λ h. refl)
        (λ r h. refl) in
    done p known (inr e) (rw c.written) refl c
cancel_found-CancelEnd s job_id now p _ v known e = ended p known (ground arith) (ground arith) refl

-- Cancel of an unknown id, or of a job that is neither QUEUED nor RUNNING, changes nothing and says
-- so. Else it gives the copy of the job as CANCELLED at `now`; a QUEUED job has then no entry in the
-- queue, a RUNNING one leaves the queue as it is, and no other job or entry changes.
pub cancel-CancelEnd :
    (s : GlobalScheduler) (job_id : String) (now : ℕ)
    → IsWellFormed s
    → CancelEnd s job_id now (cancel s job_id now)
unfolding cancel
cancel-CancelEnd s job_id now v = elim (Option-cases (lookup job_id s.jobs)) [
  | inl missing ↦ unknown missing (rw (missing, cancel))
  | inr (p, known) ↦
      rw (known, cancel) (cancel_found-CancelEnd s job_id now p (s.mem p).state v known refl)
]
