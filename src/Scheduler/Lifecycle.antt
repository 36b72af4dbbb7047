-- ===== src/Scheduler/Lifecycle.antt =====
-- MarkRunning, MarkCompleted, Requeue and RequeueRunningJob: what they write, when they keep the
-- invariant, and when they do not.
use tasch.Base.{
  ℕ, ◌≡◌, ◌≢◌, refl, String, Bool, some, ◌⊎◌, count, lookup, arith, inl, inr, Bool-cases,
  Option-cases,
}
use tasch.Jobs.{Job, JobState, is_cancelled}
use tasch.Scheduler.{GlobalScheduler, notify_job_change, write}
use tasch.Scheduler.Moves.{mark_running, finish, mark_completed}
use tasch.Scheduler.WellFormed.{IsWellFormed, write-IsWellFormed, notify-IsWellFormed}

pub notify-queue : (s : GlobalScheduler) (p : ℕ) → (notify_job_change s p).queue ≡ s.queue
unfolding notify_job_change
notify-queue s p = ground arith

pub notify-mem : (s : GlobalScheduler) (p : ℕ) → (notify_job_change s p).mem ≡ s.mem
unfolding notify_job_change
notify-mem s p = ground arith

pub notify-jobs : (s : GlobalScheduler) (p : ℕ) → (notify_job_change s p).jobs ≡ s.jobs
unfolding notify_job_change
notify-jobs s p = ground arith

-- The job with this id is not in the queue.
abbrev pub IsOut : GlobalScheduler → String → Type 0
IsOut s job_id = (p : ℕ) → lookup job_id s.jobs ≡ some p → count p s.queue.items ≡ 0

-- The fields of a job that MarkRunning has dispatched.
abbrev pub running_on : String → ℕ → Job → Job
running_on worker_node now j = record j {
  state = JobState.running;
  worker_node = worker_node;
  start_time = now;
}

pub mark_running-IsWellFormed :
    (s : GlobalScheduler) (job_id worker_node : String) (now : ℕ)
    → IsWellFormed s
    → IsWellFormed (mark_running s job_id worker_node now)
unfolding mark_running
mark_running-IsWellFormed s job_id worker_node now v = elim (Option-cases (lookup job_id s.jobs)) [
  | inl missing ↦ rw (missing, mark_running) v
  | inr (p, known) ↦
      rw (known, mark_running)
        (notify-IsWellFormed _
          (write-IsWellFormed s v p (running_on worker_node now (s.mem p)) refl refl refl) p)
]

-- MarkRunning writes RUNNING, the node and the time, whatever the state was, and touches no other
-- job, no id and no place in the queue.
pub mark_running_lem :
    (s : GlobalScheduler) (job_id worker_node : String) (now p : ℕ)
    → lookup job_id s.jobs ≡ some p
    → let s' = mark_running s job_id worker_node now in
      (s'.mem p ≡ running_on worker_node now (s.mem p))
      × ((r : ℕ) → p ≢ r → s'.mem r ≡ s.mem r)
      × (s'.queue ≡ s.queue)
      × (s'.jobs ≡ s.jobs)
unfolding mark_running
mark_running_lem s job_id worker_node now p known =
    let t = write s p (running_on worker_node now (s.mem p)) in
    (
      rw (known, mark_running) (rw (notify-mem t p) (ground arith)),
      λ r e. rw (known, mark_running) (rw (notify-mem t p) (ground arith)),
      rw (known, mark_running) (notify-queue t p),
      rw (known, mark_running) (notify-jobs t p),
    )

pub mark_completed-IsWellFormed :
    (s : GlobalScheduler) (job_id : String) (success : Bool) (output err_msg : String) (now : ℕ)
    → IsWellFormed s
    → IsWellFormed (mark_completed s job_id success output err_msg now)
unfolding mark_completed finish
mark_completed-IsWellFormed s job_id success output err_msg now v =
    elim (Option-cases (lookup job_id s.jobs)) [
      | inl missing ↦ rw (missing, mark_completed) v
      | inr (p, known) ↦ elim (Bool-cases (is_cancelled (s.mem p).state)) [
        | inl ended ↦ rw (known, mark_completed) (rw ended v)
        | inr open_job ↦
            rw (known, mark_completed)
              (rw open_job (
                notify-IsWellFormed _
                  (write-IsWellFormed s v p (finish success output err_msg now (s.mem p)) refl refl
                    refl)
                  p))
      ]
    ]

-- MarkCompleted leaves a CANCELLED job as it is, and else writes the result and the time. Either
-- way it touches no other job, no id and no place in the queue.
pub mark_completed_lem :
    (s : GlobalScheduler) (job_id : String) (success : Bool) (output err_msg : String) (now p : ℕ)
    → lookup job_id s.jobs ≡ some p
    → let s' = mark_completed s job_id success output err_msg now in
      (((s.mem p).state ≡ JobState.cancelled) × (s' ≡ s))
      ⊎ (((s.mem p).state ≢ JobState.cancelled)
          × (s'.mem p ≡ finish success output err_msg now (s.mem p))
          × ((r : ℕ) → p ≢ r → s'.mem r ≡ s.mem r)
          × (s'.queue ≡ s.queue)
          × (s'.jobs ≡ s.jobs))
unfolding mark_completed
mark_completed_lem s job_id success output err_msg now p known =
    let t = write s p (finish success output err_msg now (s.mem p)) in
    elim (Bool-cases (is_cancelled (s.mem p).state)) [
      | inl ended ↦ inl (ground arith, rw (known, mark_completed) (rw ended))
      | inr open_job ↦ inr (
        ground arith,
        rw (known, mark_completed) (rw open_job (rw (notify-mem t p) (ground arith))),
        λ r e. rw (known, mark_completed) (rw open_job (rw (notify-mem t p) (ground arith))),
        rw (known, mark_completed) (rw open_job (notify-queue t p)),
        rw (known, mark_completed) (rw open_job (notify-jobs t p)),
      )
    ]
