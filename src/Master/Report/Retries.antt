-- ===== src/Master/Report/Retries.antt =====
-- What ReportResult of internal/daemon/master.go does with a failed job: a retry, or its end.
use tasch.Base.{
  ℕ, ◌+◌, ◌≤◌, String, pos, ◌+ℤ◌, Bool, true, false, some, [], ◌∷◌, lookup, ◌≡◌, ◌≢◌, ◌⊎◌, ◌<◌, ◌*◌,
  ℤ, eq_iff, ap, inl, inr, refl, ◌∙◌, arith, ltb,
}
use Prim.Native.Nat.{◌^◌}
use tasch.Jobs.{Job, copy}
use tasch.Scheduler.{GlobalScheduler}
use tasch.Scheduler.Moves.{mark_completed, reset_fields}
use tasch.Scheduler.Views.{get_job}
use tasch.Scheduler.Lifecycle.{mark_completed_lem}
use tasch.Scheduler.Requeue.{Requeued, waiting_again, requeue-Requeued}
use tasch.Fairshare.{FloatOps}
use tasch.Master.{Server, append_log}
use tasch.Master.Report.{
  ReportResultRequest, may_retry, is_exhausted, backoff, schedule_retry, report_result,
  fire_retries, requeue_due,
}
use tasch.Master.Report.Keeps.{settle-Keeps, queue-settle}

-- The id of a reported job still names it, with what MarkCompleted wrote.
pub get_job-mark_completed :
    (s : GlobalScheduler) (job_id : String) (success : Bool) (output err_msg : String) (now p : ℕ)
    → lookup job_id s.jobs ≡ some p
    → let s' = mark_completed s job_id success output err_msg now in
      (lookup job_id s'.jobs ≡ some p) × (get_job s' job_id ≡ some (copy (s'.mem p)))
unfolding get_job
get_job-mark_completed s job_id success output err_msg now p known =
    let s' = mark_completed s job_id success output err_msg now in
    let still : lookup job_id s'.jobs ≡ some p =
      elim (mark_completed_lem s job_id success output err_msg now p known) [
        | inl (ended, same) ↦ rw same known
        | inr (open_job, written, others, queue, jobs) ↦ rw jobs known
      ] in
    (still, rw (still, get_job) refl)

backoff_lem : (r : ℤ) (n : ℕ) → r ≡ pos n → backoff (r +ℤ pos 1) ≡ (n + 1) * (n + 1) * 10 * 10 ^ 9
unfolding backoff ◌+ℤ◌
backoff_lem r n e = rw e (ground arith)

-- What becomes of a job that has been reported, by its counts.
RetryCase : Bool → Job → ℕ → ℕ → Type 0
RetryCase success j n m =
    ((may_retry success j ≡ true) × (success ≡ false) × (j.group_id ≡ "") × (n < m))
    ⊎ ((may_retry success j ≡ false)
        × (is_exhausted success j ≡ true)
        × (success ≡ false)
        × (m ≤ n)
        × (0 < m))
    ⊎ ((may_retry success j ≡ false)
        × (is_exhausted success j ≡ false)
        × ((success ≡ true) ⊎ (m ≡ 0) ⊎ ((n < m) × (j.group_id ≢ ""))))

-- The retry in the terms of the code.
pub retry_fires :
    {F : Type 0} (ops : FloatOps F) (srv : Server F) (req : ReportResultRequest) (now later p : ℕ)
    → lookup req.job_id srv.queue.jobs ≡ some p
    → srv.retries ≡ []
    → let q = mark_completed srv.queue req.job_id req.success req.output req.error now in
      may_retry req.success (copy (q.mem p)) ≡ true
      → now + backoff ((copy (q.mem p)).retry_count +ℤ pos 1) ≤ later
      → Requeued q p
          (reset_fields true (q.mem p))
          (fire_retries (report_result ops srv req now) later).queue
unfolding fire_retries requeue_due report_result schedule_retry append_log reset_fields
retry_fires ops srv req now later p known none_waits again due =
    let q = mark_completed srv.queue req.job_id req.success req.output req.error now in
    let job = copy (q.mem p) in
    let at = now + backoff (job.retry_count +ℤ pos 1) in
    let srv' = record srv { queue = q } in
    let g =
      get_job-mark_completed srv.queue req.job_id req.success req.output req.error now p known in
    let waits : (report_result ops srv req now).retries ≡ (req.job_id, at) ∷ [] =
      rw (report_result, g.1, again)
        (ap (λ rs. (req.job_id, at) ∷ rs)
          ((settle-Keeps ops srv' req job now).retries ∙ none_waits)) in
    let same : (report_result ops srv req now).queue ≡ q =
      rw (report_result, g.1, again) (queue-settle ops srv' req job now) in
    let past : ltb later at ≡ false = ground (arith, due) in
    rw (waits, same, requeue_due, past) (requeue-Requeued q req.job_id true p g.0)

may_retry_lem :
    (success : Bool) (j : Job) (n m : ℕ)
    → success ≡ false
    → j.group_id ≡ ""
    → j.retry_count ≡ pos n
    → j.max_retries ≡ pos m
    → n < m
    → may_retry success j ≡ true
may_retry_lem success j n m failed_job single e h left =
    rw (failed_job, single, e, h) (ground (arith, eq_iff "" ""))

-- A failed job of no group that has been retried `n` times, fewer than its limit, when nothing else
-- waits: once ten seconds times the square of `n + 1` are over it is QUEUED, with `n + 1` retries and
-- with no node, times, output and error, and has one entry in the queue more.
pub retry-Requeued :
    {F : Type 0} (ops : FloatOps F) (srv : Server F) (req : ReportResultRequest)
    (now later p n m : ℕ)
    → lookup req.job_id srv.queue.jobs ≡ some p
    → srv.retries ≡ []
    → req.success ≡ false
    → let q = mark_completed srv.queue req.job_id req.success req.output req.error now in
      (q.mem p).group_id ≡ ""
      → (q.mem p).retry_count ≡ pos n
      → (q.mem p).max_retries ≡ pos m
      → n < m
      → now + (n + 1) * (n + 1) * 10 * 10 ^ 9 ≤ later
      → Requeued q p
          (waiting_again (pos (n + 1)) (q.mem p))
          (fire_retries (report_result ops srv req now) later).queue
unfolding copy reset_fields ◌+ℤ◌
retry-Requeued ops srv req now later p n m known none_waits failed_job single e h left due =
    let q = mark_completed srv.queue req.job_id req.success req.output req.error now in
    let again = may_retry_lem req.success (copy (q.mem p)) n m failed_job single e h left in
    let counts : ((q.mem p).retry_count +ℤ pos 1) ≡ pos (n + 1) = rw e (ground arith) in
    rw (← counts) (
      retry_fires ops srv req now later p known none_waits again
        (ground (arith, due, backoff_lem (q.mem p).retry_count n e)))
