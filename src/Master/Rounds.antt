-- ===== src/Master/Rounds.antt =====
-- One round of dispatchLoop of internal/daemon/master.go: gang scheduling, the job at the head of the
-- queue, and backfill. `none` is a panic. One time serves the round.
use tasch.Base.{
  ℕ, ◌-◌, String, ℤ, Bool, ◌&&◌, not, Option, none, some, List, [], ◌∷◌, ltb, ◌==◌, str_eq,
  if◌then◌else◌,
}
use tasch.Jobs.{Job, JobGroup, GroupState}
use tasch.Scheduler.{dequeue, peek, backfill, cancel}
use tasch.Scheduler.Views.{pending_groups, set_group_state}
use tasch.Master
use tasch.Master.{
  Server, DispatchPayload, Level, LogText, append_log, send, release_job, cancel_payload, info,
  warn, error_level,
}
use tasch.Master.Resources.{Cluster, Member}
use tasch.Master.Dispatch.{dispatch_job}
use tasch.Master.Gang.{try_dispatch_group, pick, passes_over, fits}

-- `5 * time.Minute`
abbrev pub gang_timeout : ℕ
gang_timeout = 300_000_000_000

-- `!group.CreatedAt.IsZero() && time.Since(group.CreatedAt) > gangTimeout`
unfoldable pub has_timed_out : JobGroup → ℕ → Bool
has_timed_out group now = not (group.created_at == 0) && ltb gang_timeout (now - group.created_at)

module _ {F : Type 0} where
  -- Cancel of each rank of a group that has timed out.
  unfoldable pub cancel_ranks : Server F → ℤ → List String → ℕ → Server F
  cancel_ranks srv num_nodes [] now = srv
  cancel_ranks srv num_nodes (jid ∷ jids) now =
      let srv₁ = record srv { queue = (cancel srv.queue jid now).0 } in
      cancel_ranks (append_log srv₁ now jid error_level (Master.gang_timed_out num_nodes)) num_nodes
        jids now

  unfoldable pub fail_group : Server F → JobGroup → ℕ → Server F
  fail_group srv group now =
      let srv' = cancel_ranks srv group.num_nodes group.job_ids now in
      record srv' { queue = set_group_state srv'.queue group.group_id GroupState.failed }

  unfoldable pub visit_group : Cluster → Server F → JobGroup → ℕ → Option (Server F)
  visit_group c srv group now =
      if has_timed_out group now
      then some (fail_group srv group now)
      else try_dispatch_group c srv group now

  unfoldable pub visit_groups : Cluster → Server F → List JobGroup → ℕ → Option (Server F)
  visit_groups c srv [] now = some srv
  visit_groups c srv (g ∷ gs) now = elim (visit_group c srv g now) [
    | none ↦ none
    | some srv' ↦ visit_groups c srv' gs now
  ]

  -- `job := srv.queue.Dequeue(); if job != nil { dispatchJob(…) }`
  unfoldable pub dispatch_head : Cluster → Server F → String → ℕ → Server F
  dispatch_head c srv node now =
      let (q, taken) = dequeue srv.queue in
      let srv' = record srv { queue = q } in
      elim taken [ none ↦ srv' | some job ↦ dispatch_job c srv' job node now ]

  -- The test that a round makes of a queued job for a member.
  abbrev pub backfill_test : Cluster → Server F → Member → Job → Bool
  backfill_test c srv m j = str_eq j.group_id "" && fits c srv.gpu_tracker j m

  unfoldable pub backfill_members : Cluster → Server F → List Member → ℕ → Server F
  backfill_members c srv [] now = srv
  backfill_members c srv (m ∷ ms) now =
      let (cb', skip) = passes_over srv.cb [] m now in
      let srv₁ = record srv { cb = cb' } in
      let (q, taken) = backfill srv₁.queue (backfill_test c srv₁ m) in
      let rest = backfill_members c srv₁ ms now in
      if skip then rest else (elim taken [
        | none ↦ rest
        | some job ↦
            let srv₂ =
              append_log (record srv₁ { queue = q }) now job.id info (Master.backfilled m.name) in
            dispatch_job c srv₂ job m.name now
      ])

  -- Phases 1 and 2: nothing is done where the head of the queue is a rank of a group.
  unfoldable pub dispatch_single : Cluster → Server F → ℕ → Server F
  dispatch_single c srv now = elim (peek srv.queue) [
    | none ↦ srv
    | some top ↦
        if not (str_eq top.group_id "")
        then srv
        else let (cb', found) = pick c srv.gpu_tracker [] top now srv.cb c.members in
          let srv' = record srv { cb = cb' } in
          elim found [
            | some m ↦
                if str_eq m.name ""
                then backfill_members c srv' c.members now
                else dispatch_head c srv' m.name now
            | none ↦ backfill_members c srv' c.members now
          ]
  ]

  unfoldable pub dispatch_round : Cluster → Server F → ℕ → Option (Server F)
  dispatch_round c srv now = elim (visit_groups c srv (pending_groups srv.queue) now) [
    | none ↦ none
    | some srv' ↦ some (dispatch_single c srv' now)
  ]
