-- ===== src/Master/Report.antt =====
-- ReportResult of internal/daemon/master.go, and the goroutine that requeues a failed job later.
pub mod Keeps
pub mod Retries
pub mod Twice
use tasch.Base.{
  ℕ, ◌+◌, ◌-◌, ◌*◌, String, ℤ, pos, ◌+ℤ◌, Bool, true, ◌&&◌, ◌||◌, not, none, some, List, [], ◌∷◌,
  Map, insert, ltb, ltb_ℤ, leb_ℤ, str_eq, contains, if◌then◌else◌,
}
use tasch.Jobs.{Job}
use tasch.Scheduler.{GlobalScheduler}
use tasch.Scheduler.Moves.{requeue, mark_completed}
use tasch.Scheduler.Views.{get_job}
use tasch.Breaker.{CircuitBreaker, record_success, record_failure}
use tasch.Fairshare.{FloatOps, record_usage}
use tasch.Master
use tasch.Master.{
  Server, DispatchPayload, Level, LogText, append_log, send, release_job, cancel_payload, info,
  warn, error_level,
}
use Prim.Native.Nat.{min}
use text.Mathlib.Text.{starts_with}
use tasch.Base.{pos_part, neg_part}
use tasch.Master.Stop.{handle_group_completion}

pub record ReportResultRequest : Type 0 where
  pub job_id : String
  pub worker_node : String
  pub success : Bool
  pub output : String
  pub error : String

-- A failure of the job and not of the node.
unfoldable pub is_user_error : String → Bool
is_user_error err_msg =
    starts_with err_msg "exit status"
    || str_eq err_msg "cancelled"
    || contains err_msg "walltime exceeded"

-- `end.Sub(start)` in nanoseconds, where it is not negative: a Duration is at most 2 ^ 63 - 1.
unfoldable pub duration : ℕ → ℕ → ℕ
duration end start = min (end - start) 9_223_372_036_854_775_807

-- The square of a number of retries, times ten seconds.
unfoldable pub backoff : ℤ → ℕ
backoff n = let k = pos_part n + neg_part n in k * k * 10 * 1_000_000_000

abbrev pub may_retry : Bool → Job → Bool
may_retry success job =
    not success && str_eq job.group_id "" && ltb_ℤ job.retry_count job.max_retries

abbrev pub is_exhausted : Bool → Job → Bool
is_exhausted success job =
    not success && leb_ℤ job.max_retries job.retry_count && ltb_ℤ (pos 0) job.max_retries

module _ {F : Type 0} (ops : FloatOps F) where
  -- The circuit breaker's share.
  unfoldable pub track_node : CircuitBreaker → ReportResultRequest → ℕ → CircuitBreaker
  track_node cb req now =
      if req.success
      then record_success cb req.worker_node
      else if is_user_error req.error
      then cb
      else record_failure cb req.worker_node req.job_id now

  -- Fairshare's share.
  unfoldable pub charge : Map F → Job → Map F
  charge user_usage job =
      let dur = duration job.end_time job.start_time in
      if ltb 0 dur then record_usage ops user_usage job.user (ops.seconds dur) else user_usage

  -- Release, circuit breaker and fairshare, for the copy of the reported job.
  unfoldable pub settle : Server F → ReportResultRequest → Job → ℕ → Server F
  settle srv req job now =
      let srv₁ = if str_eq job.worker_node "" then srv else release_job srv job.worker_node job in
      record srv₁ { cb = track_node srv₁.cb req now; user_usage = charge srv₁.user_usage job }

  unfoldable pub schedule_retry : Server F → ReportResultRequest → Job → ℕ → Server F
  schedule_retry srv req job now =
      let next = job.retry_count +ℤ pos 1 in
      let due = now + backoff next in
      let text = Master.will_retry next job.max_retries (pos (backoff next)) in
      let srv₁ = append_log srv now req.job_id warn text in
      record srv₁ { retries = (req.job_id, due) ∷ srv₁.retries }

  -- The dead letter queue, where there is a store.
  unfoldable pub bury : Server F → ReportResultRequest → Job → ℕ → Server F
  bury srv req job now = elim srv.dead_letters [
    | none ↦ srv
    | some letters ↦
        if is_exhausted req.success job
        then append_log (record srv { dead_letters = some (job ∷ letters) }) now req.job_id
            error_level (Master.retries_exhausted job.max_retries)
        else srv
  ]

  -- The group and the log, of a job that is not retried.
  unfoldable pub conclude : Server F → ReportResultRequest → Job → ℕ → Server F
  conclude srv req job now =
      let srv₁ = bury srv req job now in
      let srv₂ =
        (if str_eq job.group_id ""
          then srv₁
          else handle_group_completion srv₁ job.group_id req.job_id req.success now) in
      let text = Master.job_result req.success req.worker_node req.output in
      let srv₃ = append_log srv₂ now req.job_id info text in
      if str_eq req.error ""
      then srv₃
      else append_log srv₃ now req.job_id error_level (Master.error_text req.error)

  -- Every report is acknowledged.
  unfoldable pub report_result : Server F → ReportResultRequest → ℕ → Server F
  report_result srv req now =
      let q = mark_completed srv.queue req.job_id req.success req.output req.error now in
      let srv' = record srv { queue = q } in
      elim (get_job q req.job_id) [
        | none ↦ srv'
        | some job ↦
            let settled = settle srv' req job now in
            if may_retry req.success job
            then schedule_retry settled req job now
            else conclude settled req job now
      ]

-- The retries whose time has come, and those that wait on.
unfoldable pub waiting : List (String × ℕ) → ℕ → List (String × ℕ)
waiting [] now = []
waiting ((job_id, due) ∷ rs) now =
    let rest = waiting rs now in if ltb now due then (job_id, due) ∷ rest else rest

unfoldable pub requeue_due : GlobalScheduler → List (String × ℕ) → ℕ → GlobalScheduler
requeue_due s [] now = s
requeue_due s ((job_id, due) ∷ rs) now =
    requeue_due (if ltb now due then s else (requeue s job_id true).0) rs now

module _ {F : Type 0} where
  -- What the waiting goroutines do by the time `now`.
  unfoldable pub fire_retries : Server F → ℕ → Server F
  fire_retries srv now = record srv {
    queue = requeue_due srv.queue srv.retries now;
    retries = waiting srv.retries now;
  }
