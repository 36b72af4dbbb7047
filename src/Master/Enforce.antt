-- ===== src/Master/Enforce.antt =====
-- walltimeEnforcer, dispatchTimeoutEnforcer, the /acknowledge_start handler and the OnLeave hook of
-- internal/daemon/master.go, a round or a call at a time.
use tasch.Base.{
  ℕ, ◌+◌, ◌-◌, ◌*◌, String, ℤ, pos, negsuc, Bool, true, false, ◌&&◌, not, Option, none, some, List,
  [], ◌∷◌, Map, lookup, delete, ltb, ltb_ℤ, str_eq, if◌then◌else◌,
}
use tasch.Jobs.{Job, GroupState, is_running}
use tasch.Scheduler.{GlobalScheduler, cancel}
use tasch.Scheduler.Moves.{requeue_running_job, mark_completed}
use tasch.Scheduler.Views.{get_job, get_group, set_group_state, running_jobs, running_jobs_on_node}
use tasch.Master
use tasch.Master.{
  Server, DispatchPayload, Level, LogText, append_log, send, release_job, cancel_payload, info,
  warn, error_level,
}

-- `time.Duration(job.WalltimeSeconds) * time.Second`
unfoldable pub walltime : ℤ → ℕ
walltime (pos n) = n * 1_000_000_000
walltime (negsuc n) = 0

abbrev pub is_over_walltime : Job → ℕ → Bool
is_over_walltime job now =
    ltb_ℤ (pos 0) job.walltime_seconds && ltb (job.start_time + walltime job.walltime_seconds) now

-- `10 * time.Second`
abbrev pub handshake_time : ℕ
handshake_time = 10_000_000_000

unfoldable pub timed_out : Map ℕ → ℕ → List String
timed_out [] now = []
timed_out ((job_id, at) ∷ m) now =
    let rest = timed_out m now in if ltb handshake_time (now - at) then job_id ∷ rest else rest

unfoldable pub delete_all : List String → Map ℕ → Map ℕ
delete_all [] m = m
delete_all (k ∷ ks) m = delete_all ks (delete k m)

abbrev pub is_running_group : GroupState → Bool
is_running_group GroupState.running = true
is_running_group _ = false

-- A group that is RUNNING fails with its rank.
unfoldable pub fail_running_group : GlobalScheduler → String → GlobalScheduler
fail_running_group s group_id = if str_eq group_id "" then s else (elim (get_group s group_id) [
  | none ↦ s
  | some g ↦ if is_running_group g.state then set_group_state s group_id GroupState.failed else s
])

module _ {F : Type 0} where
  -- The result of Cancel is not read, and the copy of the job is the one from before.
  unfoldable pub kill : Server F → Job → ℕ → Server F
  kill srv job now =
      let srv₁ = record srv { queue = (cancel srv.queue job.id now).0 } in
      let srv₂ = if str_eq job.worker_node "" then srv₁ else release_job srv₁ job.worker_node job in
      append_log (send srv₂ (cancel_payload job.worker_node job.id)) now job.id warn
        (Master.walltime_exceeded job.walltime_seconds)

  unfoldable pub enforce_jobs : Server F → List Job → ℕ → Server F
  enforce_jobs srv [] now = srv
  enforce_jobs srv (job ∷ jobs) now =
      enforce_jobs (if is_over_walltime job now then kill srv job now else srv) jobs now

  unfoldable pub enforce_walltime : Server F → ℕ → Server F
  enforce_walltime srv now = enforce_jobs srv (running_jobs srv.queue) now

  -- The copy is taken before the log entry, and its node is the one to release.
  unfoldable pub requeue_lost : Server F → String → Job → ℕ → Server F
  requeue_lost srv job_id job now =
      let srv₁ = append_log srv now job_id warn Master.handshake_timed_out in
      let (q, copied, requeued) = requeue_running_job srv₁.queue job_id in
      let srv₂ = record srv₁ { queue = q } in
      if requeued && not (str_eq job.worker_node "")
      then release_job srv₂ job.worker_node job
      else srv₂

  unfoldable pub expire_one : Server F → String → ℕ → Server F
  expire_one srv job_id now = elim (get_job srv.queue job_id) [
    | none ↦ srv
    | some job ↦ if is_running job.state then requeue_lost srv job_id job now else srv
  ]

  unfoldable pub expire_all : Server F → List String → ℕ → Server F
  expire_all srv [] now = srv
  expire_all srv (job_id ∷ ids) now = expire_all (expire_one srv job_id now) ids now

  unfoldable pub enforce_handshake : Server F → ℕ → Server F
  enforce_handshake srv now =
      let ids = timed_out srv.dispatch_pending now in
      expire_all (record srv { dispatch_pending = delete_all ids srv.dispatch_pending }) ids now

  -- The status code of the answer; `none` is a body that does not decode.
  unfoldable pub acknowledge_start : Server F → Bool → Option String → Server F × ℕ
  acknowledge_start srv is_post none = if is_post then (srv, 400) else (srv, 405)
  acknowledge_start srv is_post (some job_id) =
      if not is_post
      then (srv, 405)
      else if str_eq job_id ""
      then (srv, 400)
      else (elim (lookup job_id srv.dispatch_pending) [
        | none ↦ (srv, 404)
        | some at ↦ (record srv { dispatch_pending = delete job_id srv.dispatch_pending }, 200)
      ])

  unfoldable pub lose_jobs : Server F → String → List Job → ℕ → Server F
  lose_jobs srv node [] now = srv
  lose_jobs srv node (job ∷ jobs) now =
      let srv₁ = release_job srv node job in
      let q = mark_completed srv₁.queue job.id false "" "worker node lost" now in
      lose_jobs (record srv₁ { queue = fail_running_group q job.group_id }) node jobs now

  unfoldable pub on_leave : Server F → String → ℕ → Server F
  on_leave srv node now = lose_jobs srv node (running_jobs_on_node srv.queue node) now
