-- ===== src/Scheduler/Spec/Refines.antt =====
-- GlobalScheduler keeps what it promises.
use tasch.Base.{
  ℕ, ◌≡◌, ◌≢◌, refl, sym, ap, ◌∙◌, String, none, some, inl, inr, lookup, count, arith, Option-cases,
}
use tasch.Jobs.{Job, JobState, copy}
use tasch.Scheduler.{GlobalScheduler, write, enqueue}
use tasch.Scheduler.Views.{get_job}
use tasch.Scheduler.WellFormed.{IsWellFormed}
use tasch.Scheduler.Enqueue.{Admitted, enqueue_cases, new-count, enqueue-IsWellFormed}
use tasch.Scheduler.Reach.{IsFree, make-IsWellFormed, Step-IsWellFormed}
use tasch.Scheduler.Reach
use tasch.Scheduler.Spec.{Call, enqueues, dequeues, removes, cancels, runs, completes, Sets, Allows}
use tasch.Scheduler.Spec.View.{board, entries_of, known_at, waits_at}
use tasch.Scheduler.Spec.Calls.{
  perform, IsFresh, IsAllowed, write-Same, unknown_job, dequeue-IsAllowed, remove-IsAllowed,
  cancel-IsAllowed, run-IsAllowed, complete-IsAllowed,
}

module _ (s : GlobalScheduler) (v : IsWellFormed s) (p : ℕ) (j : Job)
    (new : lookup j.id s.jobs ≡ none) (free : IsFree s p) where
  abbrev made : GlobalScheduler
  made = write s p j

  made_at : made.mem p ≡ j
  made_at = ground arith

  -- Ids that are not the job's see no change.
  other_kept :
      (s' : GlobalScheduler) (other : String)
      → Admitted made p s'
      → j.id ≢ other
      → (get_job s' other ≡ get_job s other) × (entries_of s' other ≡ entries_of s other)
  unfolding get_job entries_of
  other_kept s' other a apart =
      let kept : lookup other s'.jobs ≡ lookup other s.jobs =
        a.kept other (λ e. apart (ap (λ (k : Job). k.id) (sym made_at) ∙ e)) in
      elim (Option-cases (lookup other s.jobs)) [
        | inl missing ↦ (rw (get_job, kept, missing) refl, rw (entries_of, kept, missing) refl)
        | inr (r, found) ↦
            let differs : p ≢ r = λ e. free other (found ∙ ap (λ k. some k) (sym e)) in
            let same : s'.mem r ≡ s.mem r = a.others r differs ∙ ground arith in
            (
              rw (get_job, kept, found) (ap (λ k. some (copy k)) same),
              rw (entries_of, kept, found) (ground (arith, a.counted r)),
            )
      ]

  Admitted-Sets :
      (s' : GlobalScheduler)
      → Admitted made p s'
      → Sets (board s) j.id (copy (record j { state = JobState.queued })) 1 (board s')
  unfolding get_job entries_of copy
  Admitted-Sets s' a =
      let out : count p s.queue.items ≡ 0 =
        new-count made p (make-IsWellFormed s p j v free) (rw made_at new) in
      let found : lookup j.id s'.jobs ≡ some p = rw made_at at a.found in
      let written : s'.mem p ≡ record j { state = JobState.queued } =
        a.written ∙ ap (λ (k : Job). record k { state = JobState.queued }) made_at in
      record {
        now_known = known_at s' j.id p found ∙ ap (λ k. some (copy k)) written;
        now_waits = waits_at s' j.id p found ∙ ground (arith, a.counted p, out);
        known = λ other apart. (other_kept s' other a apart).0;
        waits = λ other apart. (other_kept s' other a apart).1;
      }

  enqueue-IsAllowed : IsAllowed s p (enqueues j)
  unfolding perform
  enqueue-IsAllowed =
      let v' = make-IsWellFormed s p j v free in
      let new' : lookup (made.mem p).id made.jobs ≡ none = rw made_at new in
      elim (enqueue_cases made p v' new') [
        | inl (set, reached, same) ↦ rw (same, perform) (Allows.refused (write-Same s p j free))
        | inr (room, taken, a) ↦
            rw (taken, perform)
              (Allows.admitted {j = j} (unknown_job s j.id new)
                (Admitted-Sets (enqueue made p).0 a))
      ]

-- Every call is allowed: in a well-formed state, with a new id and a pointer of its own for a job that
-- is enqueued, what the call answers and what it changes of the jobs and of those that wait is one of
-- the ways that the board allows, and the state is well formed again.
pub perform-IsAllowed :
    (s : GlobalScheduler) (p : ℕ) (call : Call)
    → IsWellFormed s
    → IsFresh s p call
    → IsAllowed s p call × IsWellFormed (perform s p call).0
unfolding perform
perform-IsAllowed s p (enqueues j) v fresh = (
  enqueue-IsAllowed s v p j fresh.0 fresh.1,
  enqueue-IsWellFormed (write s p j) p (make-IsWellFormed s p j v fresh.1)
      (rw (made_at s v p j fresh.0 fresh.1) fresh.0),
)
perform-IsAllowed s p dequeues v fresh =
    (dequeue-IsAllowed s v p, Step-IsWellFormed Reach.dequeues v)
perform-IsAllowed s p (removes id) v fresh =
    (remove-IsAllowed s v p id, Step-IsWellFormed (Reach.removes id) v)
perform-IsAllowed s p (cancels id now) v fresh =
    (cancel-IsAllowed s v p id now, Step-IsWellFormed (Reach.cancels id now) v)
perform-IsAllowed s p (runs id node now) v fresh =
    (run-IsAllowed s v p id node now, Step-IsWellFormed (Reach.runs id node now) v)
perform-IsAllowed s p (completes id success output err_msg now) v fresh = (
  complete-IsAllowed s v p id success output err_msg now,
  Step-IsWellFormed (Reach.completes id success output err_msg now) v,
)
