-- ===== src/Master/Report/Twice.antt =====
-- A job that CancelJob ends and ReportResult then reports, in internal/daemon/master.go.
use mathlib.Core.Path.{subst}
use tasch.Base.{
  ◌+◌, ◌≤◌, pos, ◌+ℤ◌, ◌<ℤ◌, [], ℕ, String, true, false, some, inl, inr, ◌≡◌, ◌≢◌, refl, ◌∙◌, arith,
  Bool-cases, lookup, str_eq, eq_iff,
}
use tasch.Jobs.{Job, JobState, copy}
use tasch.Scheduler.{GlobalScheduler, cancel}
use tasch.Scheduler.WellFormed.{IsWellFormed}
use tasch.Scheduler.Cancel.{cancelled_at, Cancelled, unknown, ended, done, cancel-CancelEnd}
use tasch.Scheduler.Moves.{mark_completed}
use tasch.Fairshare.{FloatOps}
use tasch.Tracker.{GpuTracker, release}
use tasch.Master.{Server, append_log, send, release_job}
use tasch.Master.Stop.{stop_on_node, cancel_job}
use tasch.Master.Report.{
  ReportResultRequest, may_retry, settle, schedule_retry, report_result, backoff, fire_retries,
}
use tasch.Master.Report.Retries.{get_job-mark_completed, retry_fires}
use tasch.Scheduler.Lifecycle.{mark_completed_lem}
use tasch.Scheduler.Moves.{reset_fields}
use tasch.Scheduler.Requeue.{Requeued}

-- gpuTracker.Release of what a job holds on its node.
abbrev pub release_of : Job → GpuTracker → GpuTracker
release_of job gt =
    release gt job.worker_node job.gpus_required job.cpus_required job.memory_required_mb

cancel-running :
    (s : GlobalScheduler) (job_id : String) (now p : ℕ)
    → IsWellFormed s
    → lookup job_id s.jobs ≡ some p
    → (s.mem p).state ≡ JobState.running
    → let r = cancel s job_id now in
      (r.1 ≡ some (copy (cancelled_at now (s.mem p)))) × (r.2 ≡ true) × Cancelled s p now r.0
cancel-running s job_id now p v known runs = elim (cancel-CancelEnd s job_id now v) [
  | unknown missing e ↦ absurd (ground arith)
  | ended r at other e f ↦ absurd (ground arith)
  | done r at either copied success c ↦
      let same : r ≡ p = ground arith in (rw (← same) copied, success, rw (← same) c)
]

gpu_tracker-stop_on_node :
    {F : Type 0} (srv : Server F) (job : Job)
    → job.worker_node ≢ ""
    → (stop_on_node srv job).gpu_tracker ≡ release_of job srv.gpu_tracker
unfolding stop_on_node send release_job
gpu_tracker-stop_on_node srv job placed =
    let e : str_eq job.worker_node "" ≡ false = ground (arith, eq_iff job.worker_node "") in
    rw e refl

queue-stop_on_node :
    {F : Type 0} (srv : Server F) (job : Job) → (stop_on_node srv job).queue ≡ srv.queue
unfolding stop_on_node send release_job
queue-stop_on_node srv job = elim (Bool-cases (str_eq job.worker_node "")) [
  | inl nowhere ↦ rw nowhere refl
  | inr placed ↦ rw placed refl
]

retries-stop_on_node :
    {F : Type 0} (srv : Server F) (job : Job) → (stop_on_node srv job).retries ≡ srv.retries
unfolding stop_on_node send release_job
retries-stop_on_node srv job = elim (Bool-cases (str_eq job.worker_node "")) [
  | inl nowhere ↦ rw nowhere refl
  | inr placed ↦ rw placed refl
]

-- CancelJob of a RUNNING job on a node.
cancel_job-running :
    {F : Type 0} (srv : Server F) (job_id : String) (now p : ℕ)
    → IsWellFormed srv.queue
    → lookup job_id srv.queue.jobs ≡ some p
    → (srv.queue.mem p).state ≡ JobState.running
    → (srv.queue.mem p).worker_node ≢ ""
    → let srv' = (cancel_job srv job_id now).0 in
      (srv'.gpu_tracker ≡ release_of (srv.queue.mem p) srv.gpu_tracker)
      × (srv'.retries ≡ srv.retries)
      × Cancelled srv.queue p now srv'.queue
unfolding cancel_job append_log copy
cancel_job-running srv job_id now p v known runs placed =
    let (copied, success, c) = cancel-running srv.queue job_id now p v known runs in
    let srv₁ = record srv { queue = (cancel srv.queue job_id now).0 } in
    let job = copy (cancelled_at now (srv.queue.mem p)) in
    (
      rw (cancel_job, copied, success) (gpu_tracker-stop_on_node srv₁ job placed),
      rw (cancel_job, copied, success) (retries-stop_on_node srv₁ job),
      rw (cancel_job, copied, success) (rw (queue-stop_on_node srv₁ job) c),
    )

gpu_tracker-settle :
    {F : Type 0} (ops : FloatOps F) (srv : Server F) (req : ReportResultRequest) (job : Job)
    (now : ℕ)
    → job.worker_node ≢ ""
    → (settle ops srv req job now).gpu_tracker ≡ release_of job srv.gpu_tracker
unfolding settle release_job
gpu_tracker-settle ops srv req job now placed =
    let e : str_eq job.worker_node "" ≡ false = ground (arith, eq_iff job.worker_node "") in
    rw e refl

-- A report of a CANCELLED job: it stays as it was, and with retries left it is to be retried.
reported_cancelled :
    {F : Type 0} (srv : Server F) (req : ReportResultRequest) (job : Job) (now later p : ℕ)
    → lookup req.job_id srv.queue.jobs ≡ some p
    → srv.queue.mem p ≡ cancelled_at now job
    → req.success ≡ false
    → job.group_id ≡ ""
    → job.retry_count <ℤ job.max_retries
    → let q = mark_completed srv.queue req.job_id req.success req.output req.error later in
      (q ≡ srv.queue) × (may_retry req.success (copy (q.mem p)) ≡ true)
unfolding copy
reported_cancelled srv req job now later p known written failure single left =
    let e = eq_iff job.group_id "" in
    elim (mark_completed_lem srv.queue req.job_id req.success req.output req.error later p known) [
      | inl (cancelled, same) ↦ (same, rw (same, written) (ground (arith, e)))
      | inr other ↦ absurd (other.0 (rw written refl))
    ]

-- A RUNNING job of no group with retries left is cancelled, and its worker then reports its end as a
-- failure, as it does for a cancelled process. What the job holds is released twice.
pub cancelled_job_released_twice :
    {F : Type 0} (ops : FloatOps F) (srv : Server F) (req : ReportResultRequest) (now later p : ℕ)
    → IsWellFormed srv.queue
    → lookup req.job_id srv.queue.jobs ≡ some p
    → let job = srv.queue.mem p in
      job.state ≡ JobState.running
      → job.worker_node ≢ ""
      → req.success ≡ false
      → job.group_id ≡ ""
      → job.retry_count <ℤ job.max_retries
      → (report_result ops (cancel_job srv req.job_id now).0 req later).gpu_tracker
        ≡ release_of job (release_of job srv.gpu_tracker)
unfolding report_result schedule_retry append_log copy
cancelled_job_released_twice ops srv req now later p v known runs placed failure single left =
    let srv₁ = (cancel_job srv req.job_id now).0 in
    let job = srv.queue.mem p in
    let (once, waiting, c) = cancel_job-running srv req.job_id now p v known runs placed in
    let still : lookup req.job_id srv₁.queue.jobs ≡ some p = rw c.jobs_kept known in
    let (same, again) =
      reported_cancelled srv₁ req job now later p still c.written failure single left in
    let g =
      get_job-mark_completed srv₁.queue req.job_id req.success req.output req.error later p still in
    let q = mark_completed srv₁.queue req.job_id req.success req.output req.error later in
    let written : q.mem p ≡ cancelled_at now job = rw same c.written in
    rw (report_result, g.1, again)
      (gpu_tracker-settle ops (record srv₁ { queue = q }) req (copy (q.mem p)) later
          (rw written placed)
        ∙ rw (written, once) refl)

-- In the same case, with no other retry waiting, the cancelled job runs again: once the backoff is
-- over it is QUEUED and has one entry in the queue more.
pub cancelled_job-Requeued :
    {F : Type 0} (ops : FloatOps F) (srv : Server F) (req : ReportResultRequest)
    (now later last p : ℕ)
    → IsWellFormed srv.queue
    → lookup req.job_id srv.queue.jobs ≡ some p
    → srv.retries ≡ []
    → let job = srv.queue.mem p in
      job.state ≡ JobState.running
      → job.worker_node ≢ ""
      → req.success ≡ false
      → job.group_id ≡ ""
      → job.retry_count <ℤ job.max_retries
      → later + backoff (job.retry_count +ℤ pos 1) ≤ last
      → let srv₁ = (cancel_job srv req.job_id now).0 in
        ((srv₁.queue.mem p).state ≡ JobState.cancelled)
        × Requeued srv₁.queue p
            (reset_fields true (srv₁.queue.mem p))
            (fire_retries (report_result ops srv₁ req later) last).queue
unfolding copy
cancelled_job-Requeued ops srv req now later last p v known none_waits runs placed failure single
      left due =
    let srv₁ = (cancel_job srv req.job_id now).0 in
    let job = srv.queue.mem p in
    let (once, waiting, c) = cancel_job-running srv req.job_id now p v known runs placed in
    let still : lookup req.job_id srv₁.queue.jobs ≡ some p = rw c.jobs_kept known in
    let (same, again) =
      reported_cancelled srv₁ req job now later p still c.written failure single left in
    let q = mark_completed srv₁.queue req.job_id req.success req.output req.error later in
    let retried =
      retry_fires ops srv₁ req later last p still (waiting ∙ none_waits) again
        (rw (same, c.written) due) in
    (
      rw c.written refl,
      subst
          (λ s.
            Requeued s p (reset_fields true (s.mem p))
              (fire_retries (report_result ops srv₁ req later) last).queue)
          same retried,
    )
