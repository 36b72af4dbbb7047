-- ===== src/Master/Gang.antt =====
-- tryDispatchGroup of internal/daemon/master.go, and the search for a node that it shares with
-- dispatchLoop. `none` is a panic of the goroutine: a write into a nil map of variables, or a rank
-- that no node was found for. One time serves the whole call.
pub mod Matching
pub mod Stuck
pub mod Ranks
pub mod Together
use tasch.Base.{
  ℕ, ◌+◌, String, pos, Bool, true, false, ◌&&◌, ◌||◌, not, Option, none, some, List, [], ◌∷◌, Map,
  insert, length, eqb_ℤ, str_eq, if◌then◌else◌,
}
use tasch.Jobs.{Job, JobGroup, GroupState, is_queued}
use tasch.Scheduler.{GlobalScheduler, remove_by_id}
use tasch.Scheduler.Views.{get_job, set_group_state}
use tasch.Breaker.{CircuitBreaker, is_blocked}
use tasch.Tracker.{GpuTracker}
use tasch.Master
use tasch.Master.{
  Server, DispatchPayload, Level, LogText, append_log, send, release_job, cancel_payload, info,
  warn, error_level,
}
use tasch.Master.Resources.{Cluster, Member, can_dispatch_resources, is_match}
use tasch.Master.Dispatch.{dispatch_job}

unfoldable pub is_used : String → List String → Bool
is_used name [] = false
is_used name (u ∷ us) = str_eq u name || is_used name us

-- The test that `continue`s past a member. IsBlocked is asked only of an unused member with an
-- advertisement, and forgets a block that has run out.
unfoldable pub passes_over : CircuitBreaker → List String → Member → ℕ → CircuitBreaker × Bool
passes_over cb used m now =
    if is_used m.name used || str_eq m.meta "" then (cb, true) else is_blocked cb m.name now

-- The node has room for the job and meets its requirement.
unfoldable pub fits : Cluster → GpuTracker → Job → Member → Bool
fits c gt job m = can_dispatch_resources c gt m job && is_match (c.matches job.requirement m.meta)

-- The first member that is not passed over and fits.
unfoldable pub pick :
    Cluster
    → GpuTracker
    → List String
    → Job
    → ℕ
    → CircuitBreaker
    → List Member
    → CircuitBreaker × Option Member
pick c gt used job now cb [] = (cb, none)
pick c gt used job now cb (m ∷ ms) =
    let (cb', skip) = passes_over cb used m now in
    let rest = pick c gt used job now cb' ms in
    if skip then rest else if fits c gt job m then (cb', some m) else rest

-- The copies of the jobs of a group that are QUEUED.
unfoldable pub queued_jobs : GlobalScheduler → List String → List Job
queued_jobs s [] = []
queued_jobs s (jid ∷ jids) =
    let rest = queued_jobs s jids in
    elim (get_job s jid) [ none ↦ rest | some j ↦ if is_queued j.state then j ∷ rest else rest ]

abbrev pub cons_option {ℓ} : {A : Type ℓ} → A → Option (List A) → Option (List A)
cons_option a none = none
cons_option a (some as') = some (a ∷ as')

-- A node of its own for each job, or `none`.
unfoldable pub match_nodes :
    Cluster
    → GpuTracker
    → ℕ
    → CircuitBreaker
    → List String
    → List Job
    → CircuitBreaker × Option (List Member)
match_nodes c gt now cb used [] = (cb, some [])
match_nodes c gt now cb used (job ∷ jobs) =
    let (cb', found) = pick c gt used job now cb c.members in
    elim found [
      | none ↦ (cb', none)
      | some m ↦
          let (cb'', rest) = match_nodes c gt now cb' (m.name ∷ used) jobs in
          (cb'', cons_option m rest)
    ]

module _ {F : Type 0} where
  -- RemoveByID, dispatchJob with the address of rank 0, and the log entry, of one rank.
  unfoldable pub dispatch_rank :
      Cluster → Server F → String → ℕ → Job → Map String → Member → ℕ → Server F
  dispatch_rank c srv addr rank job env m now =
      let srv₁ = record srv { queue = (remove_by_id srv.queue job.id).0 } in
      let job' = record job { env_vars = some (insert "MASTER_ADDR" addr env) } in
      append_log (dispatch_job c srv₁ job' m.name now) now job.id info
        (Master.gang_scheduled rank m.name addr)

  unfoldable pub dispatch_ranks :
      Cluster → Server F → String → ℕ → List Job → List Member → ℕ → Option (Server F)
  dispatch_ranks c srv addr rank [] ms now = some srv
  dispatch_ranks c srv addr rank (job ∷ jobs) [] now = none
  dispatch_ranks c srv addr rank (job ∷ jobs) (m ∷ ms) now = elim job.env_vars [
    | none ↦ none
    | some env ↦
        dispatch_ranks c (dispatch_rank c srv addr rank job env m now) addr (rank + 1) jobs ms now
  ]

  -- The ranks on their nodes: `matchedMembers[0].Addr` is read first.
  unfoldable pub dispatch_group :
      Cluster → Server F → JobGroup → List Job → List Member → ℕ → Option (Server F)
  dispatch_group c srv group jobs [] now = none
  dispatch_group c srv group jobs (m ∷ ms) now =
      elim (dispatch_ranks c srv m.addr 0 jobs (m ∷ ms) now) [
        | none ↦ none
        | some srv' ↦
            some
              (record srv' { queue = set_group_state srv'.queue group.group_id GroupState.running })
      ]

  unfoldable pub try_dispatch_group : Cluster → Server F → JobGroup → ℕ → Option (Server F)
  try_dispatch_group c srv group now =
      let jobs = queued_jobs srv.queue group.job_ids in
      if not (eqb_ℤ (pos (length jobs)) group.num_nodes)
      then some srv
      else let (cb', found) = match_nodes c srv.gpu_tracker now srv.cb [] jobs in
        let srv' = record srv { cb = cb' } in
        elim found [ none ↦ some srv' | some ms ↦ dispatch_group c srv' group jobs ms now ]
