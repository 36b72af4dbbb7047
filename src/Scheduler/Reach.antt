-- ===== src/Scheduler/Reach.antt =====
-- The calls on a GlobalScheduler as steps, and the states that they reach.
use tasch.Base.{
  ℕ, ◌-◌, ◌/◌, ◌≡◌, ◌≢◌, String, Bool, true, false, inl, inr, some, lookup, count, arith, ◌==◌,
  if◌then◌else◌, count-get, ◌∷◌, Option-cases, Bool-cases,
}
use tasch.Jobs.{Job, JobGroup, GroupState}
use tasch.Scheduler.{
  GlobalScheduler, new_global_scheduler, write, enqueue, dequeue, backfill, remove_by_id, cancel,
  notify_group_change, group_change,
}
use tasch.Scheduler.Moves.{requeue, mark_running, requeue_running_job, mark_completed}
use tasch.Scheduler.Views.{register_group, set_group_state}
use tasch.Scheduler.WellFormed.{IsWellFormed}
use tasch.Scheduler.Enqueue.{IsNew, enqueue-IsWellFormed}
use tasch.Scheduler.Dequeue.{dequeue_takes_first, backfill_takes_match}
use tasch.Scheduler.Cancel.{unknown, ended, done, cancel-CancelEnd, remove_by_id_cases}
use tasch.Scheduler.Lifecycle.{IsOut, mark_running-IsWellFormed, mark_completed-IsWellFormed}
use tasch.Scheduler.Requeue.{requeue-IsWellFormed, requeue_running_job-IsWellFormed}

-- No id leads to the pointer.
abbrev pub IsFree : GlobalScheduler → ℕ → Type 0
IsFree s p = (id : String) → lookup id s.jobs ≢ some p

-- One call. A job is made at a free pointer before it is enqueued; Enqueue is called on a job with
-- a new id, and the two ways to requeue on a job that is not in the queue.
pub data Step (s : GlobalScheduler) : GlobalScheduler → Type 0 where
  makes : (p : ℕ) (j : Job) → IsFree s p → Step s (write s p j)
  enqueues : (p : ℕ) → IsNew s p → Step s (enqueue s p).0
  dequeues : Step s (dequeue s).0
  backfills : (match_func : Job → Bool) → Step s (backfill s match_func).0
  removes : (job_id : String) → Step s (remove_by_id s job_id).0
  cancels : (job_id : String) (now : ℕ) → Step s (cancel s job_id now).0
  requeues : (job_id : String) (inc : Bool) → IsOut s job_id → Step s (requeue s job_id inc).0
  runs : (job_id node : String) (now : ℕ) → Step s (mark_running s job_id node now)
  requeues_running : (job_id : String) → IsOut s job_id → Step s (requeue_running_job s job_id).0
  completes :
      (job_id : String) (success : Bool) (output err_msg : String) (now : ℕ)
      → Step s (mark_completed s job_id success output err_msg now)
  registers : (g : JobGroup) → Step s (register_group s g)
  sets_group : (group_id : String) (state : GroupState) → Step s (set_group_state s group_id state)

pub data Reach (s : GlobalScheduler) : GlobalScheduler → Type 0 where
  here : Reach s s
  next : {t u : GlobalScheduler} → Reach s t → Step t u → Reach s u

pub make-IsWellFormed :
    (s : GlobalScheduler) (p : ℕ) (j : Job)
    → IsWellFormed s
    → IsFree s p
    → IsWellFormed (write s p j)
make-IsWellFormed s p j v free =
    let out : count p s.queue.items ≡ 0 = outside in
    record {
      valid = record {
        heap = λ c a b. ground (
          arith,
          out,
          v.valid.heap c a b,
          count-get s.queue.items c,
          count-get s.queue.items ((c - 1) / 2),
        );
        indexed = v.valid.indexed;
      };
      named = λ id r h. ground (arith, free id, v.named id r);
      tracked = λ r h. ground (arith, out, v.tracked r);
      placed = v.placed;
    }
  where
    outside : count p s.queue.items ≡ 0
    outside = elim (Bool-cases (count p s.queue.items == 0)) [
      | inl e ↦ ground arith
      | inr e ↦ absurd (free (s.mem p).id (v.tracked p (ground arith)))
    ]

notify_group-IsWellFormed :
    (s : GlobalScheduler) (g : JobGroup) → IsWellFormed s → IsWellFormed (notify_group_change s g)
unfolding notify_group_change
notify_group-IsWellFormed s g v =
    elim s.on_group_change as (λ b. IsWellFormed (if b then logged else s)) [
      | true ↦ record { valid = v.valid; named = v.named; tracked = v.tracked; placed = v.placed }
      | false ↦ v
    ]
  where
    logged : GlobalScheduler
    logged = record s { changes = group_change g ∷ s.changes }

set_group-IsWellFormed :
    (s : GlobalScheduler) (group_id : String) (state : GroupState)
    → IsWellFormed s
    → IsWellFormed (set_group_state s group_id state)
unfolding set_group_state
set_group-IsWellFormed s group_id state v = elim (Option-cases (lookup group_id s.groups)) [
  | inl missing ↦ rw (missing, set_group_state) v
  | inr (g, known) ↦
      rw (known, set_group_state)
        (notify_group-IsWellFormed _ _
          (record { valid = v.valid; named = v.named; tracked = v.tracked; placed = v.placed }))
]

pub Step-IsWellFormed : {s t : GlobalScheduler} → Step s t → IsWellFormed s → IsWellFormed t
unfolding register_group
Step-IsWellFormed {s} (makes p j free) v = make-IsWellFormed s p j v free
Step-IsWellFormed {s} (enqueues p new) v = enqueue-IsWellFormed s p v new
Step-IsWellFormed {s} dequeues v = elim (dequeue_takes_first s v) [
  | inl (empty, same, e) ↦ rw same v
  | inr (p, given, seen, first, r) ↦ r.well_formed
]
Step-IsWellFormed {s} (backfills match_func) v = elim (backfill_takes_match s match_func v) [
  | inl (same, misses) ↦ rw same v
  | inr (c, inside, misses, hit, given, r) ↦ r.well_formed
]
Step-IsWellFormed {s} (removes job_id) v = elim (remove_by_id_cases s job_id v) [
  | inl (same, other) ↦ rw same v
  | inr (p, known, waits, given, r) ↦ r.well_formed
]
Step-IsWellFormed {s} (cancels job_id now) v = elim (cancel-CancelEnd s job_id now v) [
  | unknown missing same ↦ rw same v
  | ended p known a b same ↦ rw same v
  | done p known either given success c ↦ c.well_formed
]
Step-IsWellFormed {s} (requeues job_id inc out) v = requeue-IsWellFormed s job_id inc v out
Step-IsWellFormed {s} (runs job_id node now) v = mark_running-IsWellFormed s job_id node now v
Step-IsWellFormed {s} (requeues_running job_id out) v =
    requeue_running_job-IsWellFormed s job_id v out
Step-IsWellFormed {s} (completes job_id success output err_msg now) v =
    mark_completed-IsWellFormed s job_id success output err_msg now v
Step-IsWellFormed {s} (registers g) v =
    notify_group-IsWellFormed _ g
      (record { valid = v.valid; named = v.named; tracked = v.tracked; placed = v.placed })
Step-IsWellFormed {s} (sets_group group_id state) v = set_group-IsWellFormed s group_id state v

pub new-IsWellFormed : (mem : ℕ → Job) → IsWellFormed (new_global_scheduler mem)
unfolding new_global_scheduler lookup count
new-IsWellFormed mem = record {
  valid = record { heap = λ c a b. absurd (omega arith); indexed = λ i h. absurd (omega arith) };
  named = λ id p h. ground arith;
  tracked = λ p h. absurd (omega arith);
  placed = λ id p h. ground arith;
}

-- Every state that calls reach from a new scheduler is well formed, where Enqueue gets a new job and
-- Requeue and RequeueRunningJob a job that is out of the queue.
pub Reach-IsWellFormed :
    (mem : ℕ → Job) (s : GlobalScheduler) → Reach (new_global_scheduler mem) s → IsWellFormed s
Reach-IsWellFormed mem s r = along (new-IsWellFormed mem) r
  where
    along :
        {t : GlobalScheduler}
        → IsWellFormed (new_global_scheduler mem)
        → Reach (new_global_scheduler mem) t
        → IsWellFormed t
    along v here = v
    along v (next r st) = Step-IsWellFormed st (along v r)
