-- ===== src/Scheduler/Spec/View.antt =====
-- The board of a state of GlobalScheduler, and how a change of one job shows on it.
use tasch.Base.{
  ℕ, ◌≡◌, ◌≢◌, refl, String, none, some, count, lookup, inl, inr, Option-cases, ap, ◌∙◌, sym,
}
use tasch.Jobs.{Job, copy}
use tasch.Scheduler.{GlobalScheduler}
use tasch.Scheduler.Views.{get_job}
use tasch.Scheduler.WellFormed.{IsWellFormed}
use tasch.Scheduler.Spec.{Same, Sets}
use tasch.Scheduler.Spec

unfoldable pub entries_of : GlobalScheduler → String → ℕ
entries_of s id = elim (lookup id s.jobs) [ none ↦ 0 | some p ↦ count p s.queue.items ]

abbrev pub board : GlobalScheduler → Spec.Board
board s = record { known = get_job s; waits = entries_of s }

-- One pointer has changed, in its job and in its entries.
pub record Touches (s : GlobalScheduler) (p : ℕ) (s' : GlobalScheduler) : Type 0 where
  pub jobs_kept : s'.jobs ≡ s.jobs
  pub others : (r : ℕ) → p ≢ r → s'.mem r ≡ s.mem r
  pub rest : (r : ℕ) → p ≢ r → count r s'.queue.items ≡ count r s.queue.items

module _ (s : GlobalScheduler) (id : String) (p : ℕ) (known : lookup id s.jobs ≡ some p) where
  pub known_at : get_job s id ≡ some (copy (s.mem p))
  unfolding get_job
  known_at = rw (known, get_job) refl

  pub waits_at : entries_of s id ≡ count p s.queue.items
  unfolding entries_of
  waits_at = rw (known, entries_of) refl

-- Ids that are not the one of `p` see no change.
pub Touches-other :
    (s : GlobalScheduler) (p : ℕ) (s' : GlobalScheduler) (id other : String)
    → IsWellFormed s
    → lookup id s.jobs ≡ some p
    → Touches s p s'
    → id ≢ other
    → (get_job s' other ≡ get_job s other) × (entries_of s' other ≡ entries_of s other)
unfolding get_job entries_of
Touches-other s p s' id other v known t apart = elim (Option-cases (lookup other s.jobs)) [
  | inl missing ↦
      (rw (t.jobs_kept, missing, get_job) refl, rw (t.jobs_kept, missing, entries_of) refl)
  | inr (r, found) ↦
      let differs : p ≢ r =
        λ e. apart (sym (v.named id p known) ∙ ap (λ k. (s.mem k).id) e ∙ v.named other r found) in
      (
        rw (t.jobs_kept, found, get_job) (ap (λ j. some (copy j)) (t.others r differs)),
        rw (t.jobs_kept, found, entries_of) (t.rest r differs),
      )
]

pub Touches-Sets :
    (s : GlobalScheduler) (p : ℕ) (s' : GlobalScheduler) (id : String) (j : Job) (n : ℕ)
    → IsWellFormed s
    → lookup id s.jobs ≡ some p
    → Touches s p s'
    → copy (s'.mem p) ≡ j
    → count p s'.queue.items ≡ n
    → Sets (board s) id j n (board s')
Touches-Sets s p s' id j n v known t written counted =
    let still : lookup id s'.jobs ≡ some p = rw t.jobs_kept known in
    record {
      now_known = known_at s' id p still ∙ ap (λ x. some x) written;
      now_waits = waits_at s' id p still ∙ counted;
      known = λ other apart. (Touches-other s p s' id other v known t apart).0;
      waits = λ other apart. (Touches-other s p s' id other v known t apart).1;
    }

pub Same-board : (s : GlobalScheduler) → Same (board s) (board s)
Same-board s = record { known = λ id. refl; waits = λ id. refl }
