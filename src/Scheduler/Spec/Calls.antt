-- ===== src/Scheduler/Spec/Calls.antt =====
-- The calls on GlobalScheduler, one by one, against what they promise.
use tasch.Base.{
  ℕ, ◌<◌, ◌≡◌, ◌≢◌, refl, sym, ap, ◌∙◌, String, Bool, true, false, Option, none, some, inl, inr,
  lookup, count, arith, ◌==◌, Bool-cases, Option-cases, index_of_count,
}
use tasch.Jobs.{Job, copy, before}
use tasch.Scheduler.{GlobalScheduler, write, enqueue, dequeue, queue_len, remove_by_id, cancel}
use tasch.Scheduler.Moves.{mark_running, mark_completed, finish}
use tasch.Scheduler.Views.{get_job}
use tasch.Scheduler.WellFormed.{IsWellFormed}
use tasch.Scheduler.Dequeue.{dequeue_takes_first}
use tasch.Scheduler.Cancel.{cancelled_at, remove_by_id_cases, cancel-CancelEnd}
use tasch.Scheduler.Cancel
use tasch.Scheduler.Lifecycle.{running_on, mark_running_lem, mark_completed_lem}
use tasch.Scheduler.Reach.{IsFree}
use tasch.Scheduler.Spec.{Call, enqueues, dequeues, removes, cancels, runs, completes, Same, Allows}
use tasch.Scheduler.Spec.View.{
  board, entries_of, Touches, Touches-Sets, Same-board, known_at, waits_at,
}

-- A call on GlobalScheduler. A job that is enqueued is made at the pointer `p`.
unfoldable pub perform : GlobalScheduler → ℕ → Call → GlobalScheduler × Option Job × Bool
perform s p (enqueues j) =
    let (s', failure) = enqueue (write s p j) p in
    (s', none, elim failure [ none ↦ true | some e ↦ false ])
perform s p dequeues = let (s', j) = dequeue s in (s', j, true)
perform s p (removes id) = let (s', j) = remove_by_id s id in (s', j, true)
perform s p (cancels id now) = cancel s id now
perform s p (runs id node now) = (mark_running s id node now, none, true)
perform s p (completes id success output err_msg now) =
    (mark_completed s id success output err_msg now, none, true)

-- A job that is enqueued has a new id and a pointer of its own.
abbrev pub IsFresh : GlobalScheduler → ℕ → Call → Type 0
IsFresh s p (enqueues j) = (lookup j.id s.jobs ≡ none) × IsFree s p
IsFresh s p _ = Unit {0}

-- The board shows nothing of a job at a pointer that no id leads to.
pub write-Same :
    (s : GlobalScheduler) (p : ℕ) (j : Job) → IsFree s p → Same (board s) (board (write s p j))
unfolding get_job entries_of
write-Same s p j free = record {
  known = λ id. elim (Option-cases (lookup id s.jobs)) [
    | inl missing ↦ rw (missing, get_job) refl
    | inr (r, found) ↦
        let apart : p ≢ r = λ e. free id (found ∙ ap (λ k. some k) (sym e)) in
        rw (found, get_job) (ground arith)
  ];
  waits = λ id. refl;
}

mark_running_unknown :
    (s : GlobalScheduler) (id node : String) (now : ℕ)
    → lookup id s.jobs ≡ none
    → mark_running s id node now ≡ s
unfolding mark_running
mark_running_unknown s id node now missing = rw (missing, mark_running) refl

mark_completed_unknown :
    (s : GlobalScheduler) (id : String) (success : Bool) (output err_msg : String) (now : ℕ)
    → lookup id s.jobs ≡ none
    → mark_completed s id success output err_msg now ≡ s
unfolding mark_completed
mark_completed_unknown s id success output err_msg now missing = rw (missing, mark_completed) refl

-- What the call has done is allowed.
abbrev pub IsAllowed : GlobalScheduler → ℕ → Call → Type 0
IsAllowed s p call =
    Allows (board s) call ((perform s p call).1, (perform s p call).2) (board (perform s p call).0)

-- What GetJob shows of an id that is known.
pub shown_job :
    (s : GlobalScheduler) (id : String) (j : Job)
    → get_job s id ≡ some j
    → (r : ℕ) × (copy (s.mem r) ≡ j) × (lookup id s.jobs ≡ some r)
unfolding get_job
shown_job s id j shown = elim (Option-cases (lookup id s.jobs)) [
  | inl missing ↦ absurd (ground (arith, missing))
  | inr (r, found) ↦
      let e : some (copy (s.mem r)) ≡ some j = rw (← shown, get_job, found) refl in
      (r, ground (arith, e), found)
]

-- What GetJob and the queue say of an id that waits.
waiting_job :
    (s : GlobalScheduler) (id : String) (j : Job)
    → get_job s id ≡ some j
    → 0 < entries_of s id
    → (r : ℕ) × (copy (s.mem r) ≡ j) × (0 < count r s.queue.items)
waiting_job s id j shown waits =
    let (r, same, found) = shown_job s id j shown in (r, same, rw (waits_at s id r found) at waits)

pub unknown_job :
    (s : GlobalScheduler) (id : String) → lookup id s.jobs ≡ none → get_job s id ≡ none
unfolding get_job
unknown_job s id missing = rw (missing, get_job) refl

none_counted : (s : GlobalScheduler) (r : ℕ) → queue_len s ≡ 0 → count r s.queue.items ≡ 0
none_counted s r empty = elim (Bool-cases (count r s.queue.items == 0)) [
  | inl out ↦ ground arith
  | inr inside ↦
      let (i, at, found) = index_of_count r s.queue.items (ground arith) in absurd (omega arith)
]

before-copy : (a b : Job) → before (copy a) (copy b) ≡ before a b
unfolding before copy
before-copy a b = refl

module _ (s : GlobalScheduler) (v : IsWellFormed s) (p : ℕ) where
  pub dequeue-IsAllowed : IsAllowed s p dequeues
  unfolding perform entries_of
  dequeue-IsAllowed = elim (dequeue_takes_first s v) [
    | inl (empty, same, e) ↦ rw same (Allows.idle (λ id. none_wait id empty) (Same-board s))
    | inr (r, given, seen, first, t) ↦
        let known = v.tracked r t.was_in in
        let touched : Touches s r (dequeue s).0 = record {
          jobs_kept = t.jobs_kept;
          others = λ k e. rw t.mem_kept refl;
          rest = t.rest;
        } in
        rw given (
          Allows.takes_first (s.mem r).id (copy (s.mem r)) (known_at s (s.mem r).id r known)
            (rw (waits_at s (s.mem r).id r known) t.was_in)
            (λ other i shown waits.
              let (k, same, inside) = waiting_job s other i shown waits in
              rw (← same, before-copy) (first k inside))
            (Touches-Sets s r (dequeue s).0 (s.mem r).id (copy (s.mem r)) 0 v known touched
              (rw t.mem_kept refl) t.gone))
  ]
    where
      none_wait : (id : String) → queue_len s ≡ 0 → entries_of s id ≡ 0
      none_wait id empty = elim (Option-cases (lookup id s.jobs)) [
        | inl missing ↦ rw (missing, entries_of) refl
        | inr (r, found) ↦ waits_at s id r found ∙ none_counted s r empty
      ]

  pub remove-IsAllowed : (id : String) → IsAllowed s p (removes id)
  unfolding perform copy
  remove-IsAllowed id = elim (remove_by_id_cases s id v) [
    | inl (same, other) ↦ rw same (
        Allows.not_queued
          (λ j shown e.
            let (q, same_job, found) = shown_job s id j shown in
            other q found (ap (λ (k : Job). k.state) same_job ∙ e))
          (Same-board s))
    | inr (r, known, waits, given, c) ↦
        let touched : Touches s r (remove_by_id s id).0 = record {
          jobs_kept = c.jobs_kept;
          others = λ k e. rw c.mem_kept refl;
          rest = c.rest;
        } in
        rw given (
          Allows.removed (copy (s.mem r)) (known_at s id r known) waits (
            Touches-Sets s r (remove_by_id s id).0 id (copy (s.mem r)) 0 v known touched
              (rw c.mem_kept refl) c.gone))
  ]

  pub cancel-IsAllowed : (id : String) (now : ℕ) → IsAllowed s p (cancels id now)
  unfolding perform copy
  cancel-IsAllowed id now = elim (cancel-CancelEnd s id now v) [
    | Cancel.unknown missing same ↦
        rw same (Allows.unknown (unknown_job s id missing) (Same-board s))
    | Cancel.ended r known a b same ↦
        rw same (Allows.ended (copy (s.mem r)) (known_at s id r known) a b (Same-board s))
    | Cancel.done r known either given success c ↦
        let touched : Touches s r (cancel s id now).0 = record {
          jobs_kept = c.jobs_kept;
          others = c.others;
          rest = c.rest;
        } in
        let sets = λ (n : ℕ) (e : count r (cancel s id now).0.queue.items ≡ n).
          Touches-Sets s r (cancel s id now).0 id (copy (cancelled_at now (s.mem r))) n v known
            touched (ap copy c.written) e in
        rw (given, success)
          (elim either [
            | inl waits ↦
                Allows.ends_queued (copy (s.mem r)) (known_at s id r known) waits
                  (sets 0 (c.gone waits))
            | inr works ↦
                Allows.ends_running (copy (s.mem r)) (known_at s id r known) works
                  (sets (entries_of s id) (rw (c.stays works, waits_at s id r known) refl))
          ])
  ]

  pub run-IsAllowed : (id node : String) (now : ℕ) → IsAllowed s p (runs id node now)
  unfolding perform copy
  run-IsAllowed id node now = elim (Option-cases (lookup id s.jobs)) [
    | inl missing ↦
        rw (mark_running_unknown s id node now missing)
          (Allows.nobody_runs (unknown_job s id missing) (Same-board s))
    | inr (r, known) ↦
        let (written, others, queue, jobs) = mark_running_lem s id node now r known in
        let touched : Touches s r (mark_running s id node now) = record {
          jobs_kept = jobs;
          others = others;
          rest = λ k e. rw queue refl;
        } in
        Allows.runs_on (copy (s.mem r)) (known_at s id r known) (
          Touches-Sets s r (mark_running s id node now) id (copy (running_on node now (s.mem r)))
            (entries_of s id) v known touched (ap copy written)
            (rw (queue, waits_at s id r known) refl))
  ]

  pub complete-IsAllowed :
      (id : String) (success : Bool) (output err_msg : String) (now : ℕ)
      → IsAllowed s p (completes id success output err_msg now)
  unfolding perform copy finish
  complete-IsAllowed id success output err_msg now = elim (Option-cases (lookup id s.jobs)) [
    | inl missing ↦ rw (mark_completed_unknown s id success output err_msg now missing) (
        Allows.nobody_ends (λ j shown. absurd (ground (arith, unknown_job s id missing)))
          (Same-board s))
    | inr (r, known) ↦ elim (mark_completed_lem s id success output err_msg now r known) [
      | inl (over, same) ↦ rw same (
          Allows.nobody_ends
            (λ j shown.
              let (q, same_job, found) = shown_job s id j shown in
              let one : r ≡ q = ground (arith, known, found) in
              ap (λ (k : Job). k.state) (sym same_job) ∙ rw (← one) over)
            (Same-board s))
      | inr (going, written, others, queue, jobs) ↦
          let s' = mark_completed s id success output err_msg now in
          let touched : Touches s r s' = record {
            jobs_kept = jobs;
            others = others;
            rest = λ k e. rw queue refl;
          } in
          Allows.finishes (copy (s.mem r)) (known_at s id r known) going (
            Touches-Sets s r s' id (copy (finish success output err_msg now (s.mem r)))
              (entries_of s id) v known touched (ap copy written)
              (rw (queue, waits_at s id r known) refl))
    ]
  ]
