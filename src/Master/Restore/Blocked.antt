-- ===== src/Master/Restore/Blocked.antt =====
-- Groups and their ranks in the rounds of dispatchLoop after a start of the master
-- (internal/daemon/master.go).
use tasch.Base.{
  ℕ, String, ℤ, false, some, List, [], ◌∷◌, Map, insert, ◌≡◌, ◌≢◌, refl, arith, Bool-cases, str_eq,
  eq_iff, ◌∙◌, inl, inr, ◌+◌, if◌then◌else◌,
}
use tasch.Jobs.{Job, JobState, JobGroup, GroupState, is_pending}
use tasch.Scheduler.{
  is_full, GlobalScheduler, new_global_scheduler, enqueue, set_state, heap_push, notify_job_change,
  notify_group_change, write, peek,
}
use tasch.Scheduler.Views.{pending_of, pending_groups, register_group}
use tasch.Store.{Bolt, load_jobs, load_groups, save_group}
use tasch.Store.RoundTrip.{Result-cases}
use tasch.Master.{Server}
use tasch.Master.Resources.{Cluster}
use tasch.Master.Rounds.{visit_groups, dispatch_single, dispatch_round}
use tasch.Master.Restore.{
  Formats, is_open, end_group, restore_job, restore_jobs, restore_groups, load_queue,
  load_group_states, hooked_scheduler, restore,
}

-- With no pending group, a round changes nothing while a rank of a group stands at the head of the
-- queue: no job is dispatched, nor backfilled.
pub head_rank_blocks :
    {F : Type 0} (c : Cluster) (srv : Server F) (now : ℕ) (top : Job)
    → pending_groups srv.queue ≡ []
    → peek srv.queue ≡ some top
    → top.group_id ≢ ""
    → dispatch_round c srv now ≡ some srv
unfolding dispatch_round dispatch_single visit_groups
head_rank_blocks c srv now top nothing head rank =
    let e : str_eq top.group_id "" ≡ false = ground (arith, eq_iff top.group_id "") in
    rw (dispatch_round, nothing, dispatch_single, head, e) refl

pending_of-insert :
    (k : String) (g : JobGroup) (m : Map JobGroup)
    → is_pending g.state ≡ false
    → pending_of m ≡ []
    → pending_of (insert k g m) ≡ []
unfolding pending_of insert
pending_of-insert k g [] e h = rw e refl
pending_of-insert k g ((j, w) ∷ m) e h = elim (Bool-cases (is_pending w.state)) [
  | inl waits ↦ absurd (ground (arith, waits))
  | inr over ↦
      let rest : pending_of m ≡ [] = ground (arith, over) in
      ground (arith, pending_of-insert k g m e rest)
]

end_group_over : (g : JobGroup) → is_pending (end_group g).state ≡ false
end_group_over g = over g.state refl
  where
    over : (x : GroupState) → x ≡ g.state → is_pending (end_group g).state ≡ false
    over GroupState.pending e = rw (← e) refl
    over GroupState.running e = rw (← e) refl
    over GroupState.completed e = rw (← e) refl
    over GroupState.failed e = rw (← e) refl

groups-notify : (s : GlobalScheduler) (p : ℕ) → (notify_job_change s p).groups ≡ s.groups
unfolding notify_job_change
groups-notify s p = ground arith

groups-enqueue : (s : GlobalScheduler) (p : ℕ) → (enqueue s p).0.groups ≡ s.groups
unfolding enqueue heap_push set_state
groups-enqueue s p = elim (Bool-cases (is_full s)) [
  | inl full ↦ rw full refl
  | inr room ↦ rw room (groups-notify _ p)
]

groups-register :
    (s : GlobalScheduler) (g : JobGroup)
    → (register_group s g).groups ≡ insert g.group_id g s.groups
unfolding register_group notify_group_change
groups-register s g = ground arith

module _ {D : Type 0} {B : Type 0} {E : Type 0} {F : Type 0} (bolt : Bolt D B E)
    (f : Formats B E F) where
  groups-restore_job :
      (db : D) (s : GlobalScheduler) (p : ℕ) (job : Job) (state : JobState) (now : ℕ)
      → (restore_job bolt f db s p job state now).1.groups ≡ s.groups
  unfolding restore_job
  groups-restore_job db s p job JobState.queued now = groups-enqueue (write s p job) p
  groups-restore_job db s p job JobState.running now = refl
  groups-restore_job db s p job _ now = refl

  groups-restore_jobs :
      (db : D) (s : GlobalScheduler) (p : ℕ) (jobs : List Job) (now : ℕ)
      → (restore_jobs bolt f db s p jobs now).1.groups ≡ s.groups
  unfolding restore_jobs
  groups-restore_jobs db s p [] now = refl
  groups-restore_jobs db s p (job ∷ jobs) now =
      let r = restore_job bolt f db s p job job.state now in
      groups-restore_jobs r.0 r.1 (p + 1) jobs now ∙ groups-restore_job db s p job job.state now

  groups-load_queue :
      (db : D) (s : GlobalScheduler) (p now : ℕ)
      → (load_queue bolt f db s p now).1.groups ≡ s.groups
  unfolding load_queue
  groups-load_queue db s p now = elim (Result-cases (load_jobs bolt f.job_format db)) [
    | inl (e, bad) ↦ rw (bad, load_queue) refl
    | inr (js, fine) ↦ rw (fine, load_queue) (groups-restore_jobs db s p js now)
  ]

  pending_of-restore_groups :
      (db : D) (s : GlobalScheduler) (gs : List JobGroup)
      → pending_of s.groups ≡ []
      → pending_of (restore_groups bolt f db s gs).1.groups ≡ []
  unfolding restore_groups register_group notify_group_change
  pending_of-restore_groups db s [] h = h
  pending_of-restore_groups db s (g ∷ gs) h =
      let g' = end_group g in
      pending_of-restore_groups
        (if is_open g.state then (save_group bolt f.group_format db g').0 else db)
        (register_group s (end_group g)) gs
        (rw (groups-register s (end_group g))
          (pending_of-insert (end_group g).group_id (end_group g) s.groups (end_group_over g) h))

  -- After the master's start no group is pending, whatever the store held.
  pub pending_groups-restore :
      (db : D) (mem : ℕ → Job) (max_queue_size : ℤ) (p now : ℕ)
      → pending_groups (restore bolt f db mem max_queue_size p now).1 ≡ []
  unfolding restore load_group_states hooked_scheduler new_global_scheduler pending_groups
      pending_of
  pending_groups-restore db mem max_queue_size p now =
      let q = load_queue bolt f db (hooked_scheduler mem max_queue_size) p now in
      let h : pending_of q.1.groups ≡ [] = rw (groups-load_queue db _ p now) refl in
      elim (Result-cases (load_groups bolt f.group_format q.0)) [
        | inl (e, bad) ↦ rw (bad, restore, load_group_states) h
        | inr (gs, fine) ↦
            rw (fine, restore, load_group_states) (pending_of-restore_groups q.0 q.1 gs h)
      ]

  -- After the master's start, a restored rank of a group that comes to the head of the queue stops
  -- every round of dispatchLoop: nothing is dispatched, nor backfilled.
  pub restored_rank_blocks :
      (db : D) (mem : ℕ → Job) (max_queue_size : ℤ) (p now : ℕ) (c : Cluster) (srv : Server F)
      (later : ℕ) (top : Job)
      → srv.queue ≡ (restore bolt f db mem max_queue_size p now).1
      → peek srv.queue ≡ some top
      → top.group_id ≢ ""
      → dispatch_round c srv later ≡ some srv
  restored_rank_blocks db mem max_queue_size p now c srv later top started head rank =
      head_rank_blocks c srv later top
        (rw started (pending_groups-restore db mem max_queue_size p now)) head rank
