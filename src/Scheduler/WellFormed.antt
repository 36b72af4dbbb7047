-- ===== src/Scheduler/WellFormed.antt =====
-- The invariant of GlobalScheduler, and what writes, pushes and removals do to it.
use mathlib.Core.Path.{fun_ext}
use tasch.Base.{
  ℕ, ◌<◌, ◌≡◌, ◌≢◌, sym, ◌∙◌, ◌∷◌, String, pos, Bool, true, false, some, Map, lookup, get, count,
  arith, ◌==◌, if◌then◌else◌, inl, inr, Bool-cases, count-get, index_of_count,
}
use tasch.JobQueue.{JobQueue, len, update}
use tasch.Heap.Ops.{IsValid, Inserted, Taken, push-Inserted}
use tasch.Jobs.{Job, before}
use tasch.Jobs.Less.{less_in, less_in-IsOrder}
use tasch.Scheduler.{GlobalScheduler, less, write, heap_push, notify_job_change, job_change}

-- Where the index field of `p` is no -1, it says where `p` stands.
abbrev pub IsPlaced : JobQueue → ℕ → Type 0
IsPlaced q p = (i : ℕ) → q.index p ≡ pos i → (i < len q) × (get q.items i ≡ p)

-- The queue is a heap whose jobs know their index; a job is registered under its own id; a job in
-- the queue is registered; and the index of a registered job is right.
pub record IsWellFormed (s : GlobalScheduler) : Type 0 where
  pub valid : IsValid (less s) s.queue
  pub named : (id : String) (p : ℕ) → lookup id s.jobs ≡ some p → (s.mem p).id ≡ id
  pub tracked : (p : ℕ) → 0 < count p s.queue.items → lookup (s.mem p).id s.jobs ≡ some p
  pub placed : (id : String) (p : ℕ) → lookup id s.jobs ≡ some p → IsPlaced s.queue p

-- A job in an indexed queue is placed.
counted-IsPlaced :
    (less : ℕ → ℕ → Bool) (q : JobQueue) (p : ℕ)
    → IsValid less q
    → 0 < count p q.items
    → IsPlaced q p
counted-IsPlaced less q p v h i e =
    let (k, inside, found) = index_of_count p q.items h in
    let at_k : q.index p ≡ pos k = rw found at (v.indexed k inside) in
    let same : k ≡ i = ground arith in (omega arith, rw (← same) found)

Inserted-IsPlaced :
    (less : ℕ → ℕ → Bool) (q r : JobQueue) (p s : ℕ)
    → Inserted less q p r
    → p ≢ s
    → IsPlaced q s
    → IsPlaced r s
Inserted-IsPlaced less q r p s v e h i at = elim (Bool-cases (count s r.items == 0)) [
  | inr inside ↦ counted-IsPlaced less r s v.valid (ground arith) i at
  | inl outside ↦
      let out : count s q.items ≡ 0 = ground (arith, v.same s) in
      let (k, found) = h i (sym (v.others s e out) ∙ at) in
      absurd (ground (arith, count-get q.items i))
]

Taken-IsPlaced :
    (less : ℕ → ℕ → Bool) (q r : JobQueue) (p s : ℕ)
    → Taken less q p r
    → IsPlaced q s
    → IsPlaced r s
Taken-IsPlaced less q r p s v h i at = elim (Bool-cases (count s r.items == 0)) [
  | inr inside ↦ counted-IsPlaced less r s v.valid (ground arith) i at
  | inl outside ↦ elim (Bool-cases (p == s)) [
    | inl same ↦ absurd (ground (arith, v.unset))
    | inr other ↦
        let out : count s q.items ≡ 0 = ground (arith, v.same s) in
        let (k, found) = h i (sym (v.others s (ground arith) out) ∙ at) in
        absurd (ground (arith, count-get q.items i))
  ]
]

-- A write that keeps what Less reads keeps the order.
pub less_in-update :
    (mem : ℕ → Job) (p : ℕ) (j : Job)
    → j.priority ≡ (mem p).priority
    → j.submit_time ≡ (mem p).submit_time
    → less_in (update mem p j) ≡ less_in mem
unfolding before
less_in-update mem p j e f = fun_ext (λ x. fun_ext (λ y. ground arith))

module _ (s : GlobalScheduler) (v : IsWellFormed s) where
  pub write-IsWellFormed :
      (p : ℕ) (j : Job)
      → j.id ≡ (s.mem p).id
      → j.priority ≡ (s.mem p).priority
      → j.submit_time ≡ (s.mem p).submit_time
      → IsWellFormed (write s p j)
  write-IsWellFormed p j e f g = record {
    valid = rw (less_in-update s.mem p j f g) v.valid;
    named = λ id r h. ground (arith, v.named id r);
    tracked = λ r h. ground (arith, v.tracked r);
    placed = v.placed;
  }

  pub notify-IsWellFormed : (p : ℕ) → IsWellFormed (notify_job_change s p)
  unfolding notify_job_change
  notify-IsWellFormed p = elim s.on_job_change as (λ b. IsWellFormed (if b then logged else s)) [
    | true ↦ record { valid = v.valid; named = v.named; tracked = v.tracked; placed = v.placed }
    | false ↦ v
  ]
    where
      logged : GlobalScheduler
      logged = record s { changes = job_change p ∷ s.changes }

  -- A job outside the queue is registered, if it is not, and pushed.
  pub register_push-IsWellFormed :
      (p : ℕ) (jobs : Map ℕ)
      → count p s.queue.items ≡ 0
      → lookup (s.mem p).id jobs ≡ some p
      → ((id : String) (r : ℕ) → lookup id s.jobs ≡ some r → lookup id jobs ≡ some r)
      → ((id : String) (r : ℕ) → lookup id jobs ≡ some r → p ≢ r → lookup id s.jobs ≡ some r)
      → ((id : String) → lookup id jobs ≡ some p → (s.mem p).id ≡ id)
      → IsWellFormed (heap_push (record s { jobs = jobs }) p)
  unfolding heap_push
  register_push-IsWellFormed p jobs out own keep only name =
      let one = push-Inserted (less s) (less_in-IsOrder s.mem) s.queue p v.valid out in
      record {
        valid = one.valid;
        named = λ id r h. elim (Bool-cases (p == r)) [
          | inl same ↦
              let e : p ≡ r = ground arith in
              let at_p : lookup id jobs ≡ some p = rw (← e) at h in rw (← e) (name id at_p)
          | inr other ↦ v.named id r (only id r h (ground arith))
        ];
        tracked = λ r h. elim (Bool-cases (p == r)) [
          | inl same ↦ let e : p ≡ r = ground arith in rw e at own
          | inr other ↦ keep (s.mem r).id r (v.tracked r (ground (arith, one.same r)))
        ];
        placed = λ id r h. elim (Bool-cases (p == r)) [
          | inl same ↦ counted-IsPlaced (less s) _ r one.valid (ground (arith, one.same r))
          | inr other ↦
              Inserted-IsPlaced (less s) s.queue _ p r one (ground arith)
                (v.placed id r (only id r h (ground arith)))
        ];
      }

  pub Taken-IsWellFormed :
      (p : ℕ) (q : JobQueue) → Taken (less s) s.queue p q → IsWellFormed (record s { queue = q })
  Taken-IsWellFormed p q t = record {
    valid = t.valid;
    named = v.named;
    tracked = λ r h. v.tracked r (ground (arith, t.same r));
    placed = λ id r h. Taken-IsPlaced (less s) s.queue q p r t (v.placed id r h);
  }
