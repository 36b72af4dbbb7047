-- ===== src/Master/Stop.antt =====
-- CancelJob and handleGroupCompletion of internal/daemon/master.go.
use tasch.Base.{
  ℕ, String, Bool, true, false, ◌&&◌, ◌||◌, not, none, some, List, [], ◌∷◌, str_eq, concat,
  if◌then◌else◌,
}
use tasch.Jobs.{Job, JobGroup, GroupState, is_queued, is_running, state_text}
use tasch.Scheduler.{GlobalScheduler, cancel}
use tasch.Scheduler.Views.{get_job, get_group, set_group_state}
use tasch.Master
use tasch.Master.{
  Server, DispatchPayload, Level, LogText, append_log, send, release_job, cancel_payload, info,
  warn, error_level,
}

pub record CancelJobResponse : Type 0 where
  pub job_id : String
  pub status : String
  pub message : String

-- No rank is QUEUED or RUNNING; an unknown one is passed over.
unfoldable pub all_done : GlobalScheduler → List String → Bool
all_done s [] = true
all_done s (jid ∷ jids) =
    (elim (get_job s jid) [ none ↦ true | some j ↦ not (is_queued j.state || is_running j.state) ])
    && all_done s jids

abbrev pub is_final : GroupState → Bool
is_final GroupState.completed = true
is_final GroupState.failed = true
is_final _ = false

module _ {F : Type 0} where
  -- What follows a Cancel that succeeds, for a job that has a node: its resources are released and
  -- the node is told.
  unfoldable pub stop_on_node : Server F → Job → Server F
  stop_on_node srv job =
      if str_eq job.worker_node ""
      then srv
      else send (release_job srv job.worker_node job) (cancel_payload job.worker_node job.id)

  unfoldable pub cancel_job : Server F → String → ℕ → Server F × CancelJobResponse
  cancel_job srv job_id now =
      let (q, found, done) = cancel srv.queue job_id now in
      let srv' = record srv { queue = q } in
      elim found [
        | none ↦ (srv', record { job_id = job_id; status = "NOT_FOUND"; message = "Job not found" })
        | some job ↦
            if done
            then (
              append_log (stop_on_node srv' job) now job_id info Master.cancelled_by_user,
              record { job_id = job_id; status = "CANCELLED"; message = "Cancelled" },
            )
            else (
              srv',
              record {
                job_id = job_id;
                status = state_text job.state;
                message = concat "Already " (state_text job.state);
              },
            )
      ]

  unfoldable pub cancel_sibling : Server F → String → ℕ → Server F
  cancel_sibling srv jid now =
      let (q, found, done) = cancel srv.queue jid now in
      let srv' = record srv { queue = q } in
      elim found [ none ↦ srv' | some job ↦ if done then stop_on_node srv' job else srv' ]

  -- Cancel of each rank but the one that has failed.
  unfoldable pub cancel_siblings : Server F → String → List String → ℕ → Server F
  cancel_siblings srv completed [] now = srv
  cancel_siblings srv completed (jid ∷ jids) now =
      cancel_siblings (if str_eq jid completed then srv else cancel_sibling srv jid now) completed
        jids now

  abbrev pub set_group : Server F → String → GroupState → Server F
  set_group srv group_id state = record srv { queue = set_group_state srv.queue group_id state }

  unfoldable pub complete_group : Server F → JobGroup → String → Bool → ℕ → Server F
  complete_group srv group completed false now =
      set_group (cancel_siblings srv completed group.job_ids now) group.group_id GroupState.failed
  complete_group srv group completed true now =
      if all_done srv.queue group.job_ids
      then set_group srv group.group_id GroupState.completed
      else srv

  -- The id that the caller gives is that of the group that it finds.
  unfoldable pub handle_group_completion : Server F → String → String → Bool → ℕ → Server F
  handle_group_completion srv group_id completed success now = elim (get_group srv.queue group_id) [
    | none ↦ srv
    | some group ↦
        if is_final group.state
        then srv
        else complete_group srv (record group { group_id = group_id }) completed success now
  ]
