-- ===== src/Scheduler/Views.antt =====
-- The queries and the job groups of pkg/scheduler/queue.go.
use tasch.Base.{
  ℕ, String, Bool, ◌&&◌, ◌||◌, Option, none, some, List, [], ◌∷◌, Map, lookup, insert, str_eq,
  if◌then◌else◌,
}
use tasch.Jobs.{Job, JobGroup, JobState, GroupState, copy, state_text, is_running, is_pending}
use tasch.Scheduler.{GlobalScheduler, notify_group_change}

unfoldable pub get_job : GlobalScheduler → String → Option Job
get_job s job_id = elim (lookup job_id s.jobs) [ none ↦ none | some p ↦ some (copy (s.mem p)) ]

-- The loops over `gs.jobs` that collect the copies of the jobs that pass a test.
unfoldable pub collect : (ℕ → Job) → (Job → Bool) → Map ℕ → List Job
collect mem test [] = []
collect mem test ((k, p) ∷ m) =
    let rest = collect mem test m in if test (mem p) then copy (mem p) ∷ rest else rest

unfoldable pub list_jobs : GlobalScheduler → String → List Job
list_jobs s state_filter =
    collect s.mem (λ j. str_eq state_filter "" || str_eq (state_text j.state) state_filter) s.jobs

unfoldable pub running_jobs : GlobalScheduler → List Job
running_jobs s = list_jobs s (state_text JobState.running)

unfoldable pub running_jobs_on_node : GlobalScheduler → String → List Job
running_jobs_on_node s node_name =
    collect s.mem (λ j. is_running j.state && str_eq j.worker_node node_name) s.jobs

unfoldable pub register_group : GlobalScheduler → JobGroup → GlobalScheduler
register_group s g = notify_group_change (record s { groups = insert g.group_id g s.groups }) g

unfoldable pub get_group : GlobalScheduler → String → Option JobGroup
get_group s group_id = lookup group_id s.groups

unfoldable pub pending_of : Map JobGroup → List JobGroup
pending_of [] = []
pending_of ((k, g) ∷ m) = let rest = pending_of m in if is_pending g.state then g ∷ rest else rest

unfoldable pub pending_groups : GlobalScheduler → List JobGroup
pending_groups s = pending_of s.groups

unfoldable pub set_group_state : GlobalScheduler → String → GroupState → GlobalScheduler
set_group_state s group_id state = elim (lookup group_id s.groups) [
  | none ↦ s
  | some g ↦
      let g' = record g { state = state } in
      notify_group_change (record s { groups = insert group_id g' s.groups }) g'
]
