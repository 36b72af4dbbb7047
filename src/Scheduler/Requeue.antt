-- ===== src/Scheduler/Requeue.antt =====
-- Requeue and RequeueRunningJob, and the orders of calls that lose a result or a cancellation.
use tasch.Base.{
  ℤ, pos, ◌+ℤ◌, ℕ, ◌+◌, ◌<◌, ◌≡◌, ◌≢◌, refl, ◌∙◌, ap, String, Bool, true, false, none, some, ◌⊎◌,
  count, lookup, arith, ◌==◌, if◌then◌else◌, inl, inr, Bool-cases, Option-cases, count-get,
}
use tasch.JobQueue.Swap.{count-IsIndexed-le_one}
use tasch.Heap.Ops.{count-push}
use tasch.Jobs.{Job, JobState, copy, is_running}
use tasch.Scheduler.{GlobalScheduler, less, cancel, heap_push, notify_job_change, write}
use tasch.Scheduler.Moves.{
  reset_fields, unset_index, requeue_found, requeue, mark_running, requeue_running_found,
  requeue_running_job, finish, mark_completed,
}
use tasch.Scheduler.WellFormed.{
  IsWellFormed, write-IsWellFormed, notify-IsWellFormed, register_push-IsWellFormed,
}
use tasch.Scheduler.Cancel.{unknown, ended, done, cancel-CancelEnd}
use tasch.Scheduler.Lifecycle.{
  IsOut, notify-queue, notify-mem, notify-jobs, mark_running_lem, mark_completed_lem,
}

-- A registered job that is out of the queue is pushed.
push-IsWellFormed :
    (s : GlobalScheduler) (p : ℕ)
    → IsWellFormed s
    → lookup (s.mem p).id s.jobs ≡ some p
    → count p s.queue.items ≡ 0
    → IsWellFormed (heap_push s p)
push-IsWellFormed s p v own out =
    register_push-IsWellFormed s v p s.jobs out own (λ id r h. h) (λ id r h e. h)
      (λ id h. v.named id p h)

unset_index-IsWellFormed :
    (s : GlobalScheduler) (p : ℕ)
    → IsWellFormed s
    → count p s.queue.items ≡ 0
    → IsWellFormed (unset_index s p)
unfolding unset_index
unset_index-IsWellFormed s p v out = record {
  valid = record {
    heap = v.valid.heap;
    indexed = λ i h. ground (arith, count-get s.queue.items i, v.valid.indexed i);
  };
  named = v.named;
  tracked = v.tracked;
  placed = λ id r known i at. elim (Bool-cases (p == r)) [
    | inl same ↦ absurd (ground arith)
    | inr other ↦ v.placed id r known i (ground arith)
  ];
}

-- Requeue of a job that is not in the queue keeps the invariant.
pub requeue-IsWellFormed :
    (s : GlobalScheduler) (job_id : String) (increment_retry : Bool)
    → IsWellFormed s
    → IsOut s job_id
    → IsWellFormed (requeue s job_id increment_retry).0
unfolding requeue requeue_found reset_fields unset_index
requeue-IsWellFormed s job_id increment_retry v out = elim (Option-cases (lookup job_id s.jobs)) [
  | inl missing ↦ rw (missing, requeue) v
  | inr (p, known) ↦
      let t = write s p (reset_fields increment_retry (s.mem p)) in
      let w = write-IsWellFormed s v p (reset_fields increment_retry (s.mem p)) refl refl refl in
      rw (known, requeue)
        (notify-IsWellFormed _
          (push-IsWellFormed (unset_index t p) p (unset_index-IsWellFormed t p w (out p known))
            (own (unset_index t p) p job_id known (ground (arith, v.named job_id p))) (out p known))
          p)
]
  where
    own :
        (t : GlobalScheduler) (p : ℕ) (id : String)
        → lookup id t.jobs ≡ some p
        → (t.mem p).id ≡ id
        → lookup (t.mem p).id t.jobs ≡ some p
    own t p id known e = rw e known

-- The job `p` has the fields `j`, the queue has one entry of it more, and no other job, entry or id
-- has changed.
pub record Requeued (s : GlobalScheduler) (p : ℕ) (j : Job) (s' : GlobalScheduler) : Type 0 where
  pub written : s'.mem p ≡ j
  pub others : (r : ℕ) → p ≢ r → s'.mem r ≡ s.mem r
  pub counted : (r : ℕ) → count r s'.queue.items ≡ count r s.queue.items + (if p == r then 1 else 0)
  pub jobs_kept : s'.jobs ≡ s.jobs

pushed-Requeued :
    (s t : GlobalScheduler) (p : ℕ) (j : Job)
    → t.mem ≡ (write s p j).mem
    → t.queue.items ≡ s.queue.items
    → t.jobs ≡ s.jobs
    → Requeued s p j (notify_job_change (heap_push t p) p)
unfolding heap_push
pushed-Requeued s t p j m q k = record {
  written = rw (notify-mem (heap_push t p) p) (rw m (ground arith));
  others = λ r e. rw (notify-mem (heap_push t p) p) (rw m (ground arith));
  counted = λ r. rw (notify-queue (heap_push t p) p) (rw (← q) (count-push (less t) t.queue p r));
  jobs_kept = notify-jobs (heap_push t p) p ∙ k;
}

-- The fields of a job that waits again, with its retries.
abbrev pub waiting_again : ℤ → Job → Job
waiting_again retries j = record j {
  retry_count = retries;
  state = JobState.queued;
  worker_node = "";
  start_time = 0;
  end_time = 0;
  output = "";
  error = "";
}

-- Requeue of a registered job, in the queue or not, makes it QUEUED with no node, times, output and
-- error, counts one retry more where it is told to, adds one entry of it to the queue, and changes no
-- other field, job, entry or id.
pub requeue-Requeued :
    (s : GlobalScheduler) (job_id : String) (increment_retry : Bool) (p : ℕ)
    → lookup job_id s.jobs ≡ some p
    → Requeued s p
        (waiting_again
          (if increment_retry then (s.mem p).retry_count +ℤ pos 1 else (s.mem p).retry_count)
          (s.mem p))
        (requeue s job_id increment_retry).0
unfolding requeue requeue_found unset_index reset_fields
requeue-Requeued s job_id increment_retry p known =
    rw (known, requeue)
      (pushed-Requeued s (unset_index (write s p (reset_fields increment_retry (s.mem p))) p) p
        (reset_fields increment_retry (s.mem p)) refl refl refl)

-- Two calls of Requeue with no removal between them put two entries of one job into the queue, and
-- break the invariant: the index field of the job can name only one of them.
pub requeue_twice :
    (s : GlobalScheduler) (job_id : String) (first second : Bool) (p : ℕ)
    → lookup job_id s.jobs ≡ some p
    → let s' = (requeue (requeue s job_id first).0 job_id second).0 in
      (count p s'.queue.items ≡ count p s.queue.items + 2) × ¬ IsWellFormed s'
requeue_twice s job_id first second p known =
    let one = requeue-Requeued s job_id first p known in
    let still : lookup job_id (requeue s job_id first).0.jobs ≡ some p = rw one.jobs_kept known in
    let two = requeue-Requeued (requeue s job_id first).0 job_id second p still in
    (
      ground (arith, one.counted p, two.counted p),
      λ v. ground (
        arith,
        one.counted p,
        two.counted p,
        count-IsIndexed-le_one (requeue (requeue s job_id first).0 job_id second).0.queue
            v.valid.indexed p,
      ),
    )

-- The fields of a job whose dispatch has timed out.
abbrev pub undispatched : Job → Job
undispatched j = record j { state = JobState.queued; worker_node = ""; start_time = 0 }

pub requeue_running_job-IsWellFormed :
    (s : GlobalScheduler) (job_id : String)
    → IsWellFormed s
    → IsOut s job_id
    → IsWellFormed (requeue_running_job s job_id).0
unfolding requeue_running_job requeue_running_found
requeue_running_job-IsWellFormed s job_id v out = elim (Option-cases (lookup job_id s.jobs)) [
  | inl missing ↦ rw (missing, requeue_running_job) v
  | inr (p, known) ↦ elim (Bool-cases (is_running (s.mem p).state)) [
    | inr other ↦ rw (known, requeue_running_job) (rw other v)
    | inl runs ↦
        let t = write s p (undispatched (s.mem p)) in
        let w = write-IsWellFormed s v p (undispatched (s.mem p)) refl refl refl in
        let e : (t.mem p).id ≡ job_id = ground (arith, v.named job_id p) in
        rw (known, requeue_running_job)
          (rw runs (notify-IsWellFormed _ (push-IsWellFormed t p w (rw e known) (out p known)) p))
  ]
]

-- RequeueRunningJob touches a RUNNING job alone. Then the job is QUEUED with no node and no start
-- time, and has one entry in the queue more.
pub requeue_running_job_cases :
    (s : GlobalScheduler) (job_id : String) (p : ℕ)
    → lookup job_id s.jobs ≡ some p
    → (((s.mem p).state ≢ JobState.running) × (requeue_running_job s job_id ≡ (s, none, false)))
      ⊎ (((s.mem p).state ≡ JobState.running)
          × ((requeue_running_job s job_id).1 ≡ some (copy (undispatched (s.mem p))))
          × ((requeue_running_job s job_id).2 ≡ true)
          × Requeued s p (undispatched (s.mem p)) (requeue_running_job s job_id).0)
unfolding requeue_running_job requeue_running_found
requeue_running_job_cases s job_id p known = elim (Bool-cases (is_running (s.mem p).state)) [
  | inr other ↦ inl (ground arith, rw (known, requeue_running_job) (rw other))
  | inl runs ↦
      let t = write s p (undispatched (s.mem p)) in
      let r = pushed-Requeued s t p (undispatched (s.mem p)) refl refl refl in
      inr (
        ground arith,
        rw (known, requeue_running_job) (rw runs (rw r.written)),
        rw (known, requeue_running_job) (rw runs),
        rw (known, requeue_running_job) (rw runs r),
      )
]

-- A worker's report that comes in after the dispatch of its job has timed out makes the job
-- COMPLETED while it stands in the queue, from which it is dispatched once more.
pub late_report_stays_queued :
    (s : GlobalScheduler) (job_id output err_msg : String) (now p : ℕ)
    → lookup job_id s.jobs ≡ some p
    → (s.mem p).state ≡ JobState.running
    → let s' = mark_completed (requeue_running_job s job_id).0 job_id true output err_msg now in
      ((s'.mem p).state ≡ JobState.completed) × (0 < count p s'.queue.items)
unfolding finish
late_report_stays_queued s job_id output err_msg now p known runs =
    elim (requeue_running_job_cases s job_id p known) [
      | inl (other, same) ↦ absurd (other runs)
      | inr (e, given, yes_done, r) ↦
          let still : lookup job_id (requeue_running_job s job_id).0.jobs ≡ some p =
            rw r.jobs_kept known in
          elim (mark_completed_lem (requeue_running_job s job_id).0 job_id true output err_msg now p
            still) [
              | inl (ended_job, same) ↦ absurd (ground (arith, r.written))
              | inr (open_job, written, others, queue, jobs) ↦
                  (rw written, rw queue (ground (arith, r.counted p)))
            ]
    ]

-- A Cancel that comes between the removal of a QUEUED job from the queue and MarkRunning succeeds,
-- and is lost: the job is RUNNING afterwards.
pub cancel_before_dispatch_lost :
    (s : GlobalScheduler) (job_id worker_node : String) (now later p : ℕ)
    → IsWellFormed s
    → lookup job_id s.jobs ≡ some p
    → (s.mem p).state ≡ JobState.queued
    → let r = cancel s job_id now in
      (r.2 ≡ true)
      × ((r.0.mem p).state ≡ JobState.cancelled)
      × (((mark_running r.0 job_id worker_node later).mem p).state ≡ JobState.running)
cancel_before_dispatch_lost s job_id worker_node now later p v known waits =
    elim (cancel-CancelEnd s job_id now v) [
      | unknown missing e ↦ absurd (ground arith)
      | ended r at other e f ↦ absurd (ground arith)
      | done r at either copied success c ↦
          let same : r ≡ p = ground arith in
          let at_p : lookup job_id (cancel s job_id now).0.jobs ≡ some p = rw c.jobs_kept known in
          (
            success,
            rw same at (ap (λ (j : Job). j.state) c.written),
            ap (λ (j : Job). j.state)
                (mark_running_lem (cancel s job_id now).0 job_id worker_node later p at_p).0,
          )
    ]
