-- ===== src/Master/Restore.antt =====
-- What StartMaster of internal/daemon/master.go loads from the store when the master starts: the
-- queued jobs go back into the queue, the jobs that ran have failed, and so have the groups that were
-- not at an end. An error of a save is not read, as in the source; one time serves the start.
pub mod Blocked
use tasch.Base.{ℕ, ◌+◌, String, ℤ, Bool, true, false, List, [], ◌∷◌, Map, if◌then◌else◌}
use tasch.Jobs.{Job, JobState, JobGroup, GroupState}
use tasch.Scheduler.{GlobalScheduler, new_global_scheduler, enqueue, write}
use tasch.Scheduler.Views.{register_group}
use tasch.Store
use tasch.Store.{
  Bolt, Json, failed, done, load_jobs, load_groups, load_fairshare, save_job, save_group,
}

-- `g.State == "PENDING" || g.State == "RUNNING"`
abbrev pub is_open : GroupState → Bool
is_open GroupState.pending = true
is_open GroupState.running = true
is_open _ = false

-- A group that was not at an end has failed.
abbrev pub end_group : JobGroup → JobGroup
end_group g = if is_open g.state then record g { state = GroupState.failed } else g

-- A new scheduler with the limit and the hooks.
unfoldable pub hooked_scheduler : (ℕ → Job) → ℤ → GlobalScheduler
hooked_scheduler mem max_queue_size = record (new_global_scheduler mem) {
  max_queue_size = max_queue_size;
  on_job_change = true;
  on_group_change = true;
}

-- How the store writes the three types.
pub record Formats (B : Type 0) (E : Type 0) (F : Type 0) : Type 0 where
  pub job_format : Json Job B E
  pub group_format : Json JobGroup B E
  pub usage_format : Json (Map F) B E

module _ {D : Type 0} {B : Type 0} {E : Type 0} {F : Type 0} (bolt : Bolt D B E)
    (f : Formats B E F) where
  -- A job that is loaded stands at the pointer `p`.
  unfoldable pub restore_job : D → GlobalScheduler → ℕ → Job → JobState → ℕ → D × GlobalScheduler
  restore_job db s p job JobState.queued now = (db, (enqueue (write s p job) p).0)
  restore_job db s p job JobState.running now = (
    (save_job bolt f.job_format db
        (record job { state = JobState.failed; error = "master restarted"; end_time = now })).0,
    s,
  )
  restore_job db s p job _ now = (db, s)

  unfoldable pub restore_jobs : D → GlobalScheduler → ℕ → List Job → ℕ → D × GlobalScheduler
  restore_jobs db s p [] now = (db, s)
  restore_jobs db s p (job ∷ jobs) now =
      let (db', s') = restore_job db s p job job.state now in restore_jobs db' s' (p + 1) jobs now

  unfoldable pub restore_groups : D → GlobalScheduler → List JobGroup → D × GlobalScheduler
  restore_groups db s [] = (db, s)
  restore_groups db s (g ∷ gs) =
      let g' = end_group g in
      let db' = if is_open g.state then (save_group bolt f.group_format db g').0 else db in
      restore_groups db' (register_group s g') gs

  unfoldable pub load_queue : D → GlobalScheduler → ℕ → ℕ → D × GlobalScheduler
  load_queue db s p now = elim (load_jobs bolt f.job_format db) [
    | failed e ↦ (db, s)
    | done js ↦ restore_jobs db s p js now
  ]

  unfoldable pub load_group_states : D → GlobalScheduler → D × GlobalScheduler
  load_group_states db s = elim (load_groups bolt f.group_format db) [
    | failed e ↦ (db, s)
    | done gs ↦ restore_groups db s gs
  ]

  unfoldable pub load_usage : D → Map F
  load_usage db = elim (load_fairshare bolt f.usage_format db) [ failed e ↦ [] | done u ↦ u ]

  -- The three loads; what does not load is left as a new master has it.
  unfoldable pub restore : D → (ℕ → Job) → ℤ → ℕ → ℕ → D × GlobalScheduler × Map F
  restore db mem max_queue_size p now =
      let (db₁, s₁) = load_queue db (hooked_scheduler mem max_queue_size) p now in
      let (db₂, s₂) = load_group_states db₁ s₁ in (db₂, s₂, load_usage db₂)
