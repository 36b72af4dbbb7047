-- ===== src/Scheduler/Dequeue.antt =====
-- Dequeue, Peek and Backfill: which job leaves the queue.
use tasch.Base.{
  ℕ, zero, suc, ◌+◌, ◌<◌, ◌≡◌, ◌≢◌, refl, Bool, true, false, none, some, ◌⊎◌, List, [], ◌∷◌, count,
  get, arith, ◌==◌, inl, inr, Bool-cases, count-get, index_of_count, length,
}
use tasch.JobQueue.{JobQueue}
use tasch.JobQueue.Swap.{count-IsIndexed-le_one}
use tasch.Heap.Order.{root-Le}
use tasch.Heap.Ops.{Taken, pop-Taken, remove-Taken}
use tasch.Jobs.{Job, copy, before}
use tasch.Jobs.Less.{less_in-IsOrder}
use tasch.Scheduler.{GlobalScheduler, less, queue_len, dequeue, peek, find_match, take_at, backfill}
use tasch.Scheduler.WellFormed.{IsWellFormed, Taken-IsWellFormed}

-- The job `p` is in the queue.
abbrev pub IsQueued : GlobalScheduler → ℕ → Type 0
IsQueued s p = 0 < count p s.queue.items

-- `s'` is `s` with the one entry of `p` gone from the queue.
pub record Removed (s : GlobalScheduler) (p : ℕ) (s' : GlobalScheduler) : Type 0 where
  pub well_formed : IsWellFormed s'
  pub was_in : IsQueued s p
  pub gone : count p s'.queue.items ≡ 0
  pub rest : (r : ℕ) → p ≢ r → count r s'.queue.items ≡ count r s.queue.items
  pub mem_kept : s'.mem ≡ s.mem
  pub jobs_kept : s'.jobs ≡ s.jobs

module _ (s : GlobalScheduler) (v : IsWellFormed s) where
  pub Taken-Removed :
      (p : ℕ) (q : JobQueue)
      → IsQueued s p
      → Taken (less s) s.queue p q
      → Removed s p (record s { queue = q })
  Taken-Removed p q h t = record {
    well_formed = Taken-IsWellFormed s v p q t;
    was_in = h;
    gone = ground (arith, t.same p, count-IsIndexed-le_one s.queue v.valid.indexed p);
    rest = λ r e. ground (arith, t.same r);
    mem_kept = refl;
    jobs_kept = refl;
  }

  -- No job in the queue comes before the one at the root.
  root_first : (r : ℕ) → IsQueued s r → before (s.mem r) (s.mem (get s.queue.items 0)) ≡ false
  root_first r h =
      let (i, inside, found) = index_of_count r s.queue.items h in
      let least =
        root-Le (less s) (less_in-IsOrder s.mem) (queue_len s) s.queue v.valid.heap i inside in
      rw found at least

  -- Dequeue of an empty queue gives nothing and changes nothing. Else it takes out one job, before
  -- which no queued job comes, and gives its copy; Peek would have shown the same one.
  pub dequeue_takes_first :
      ((queue_len s ≡ 0) × (dequeue s ≡ (s, none)) × (peek s ≡ none))
      ⊎ ((p : ℕ) × ((dequeue s).1 ≡ some (copy (s.mem p)))
          × (peek s ≡ some (copy (s.mem p)))
          × ((r : ℕ) → IsQueued s r → before (s.mem r) (s.mem p) ≡ false)
          × Removed s p (dequeue s).0)
  unfolding dequeue peek
  dequeue_takes_first = elim (Bool-cases (queue_len s == 0)) [
    | inl empty ↦ inl (ground arith, rw empty, rw empty)
    | inr some_left ↦
        let h : 0 < queue_len s = ground arith in
        let (taken, t) = pop-Taken (less s) (less_in-IsOrder s.mem) s.queue v.valid h in
        inr (
          get s.queue.items 0,
          rw (some_left, taken) refl,
          rw some_left,
          root_first,
          rw some_left (Taken-Removed (get s.queue.items 0) _ (count-get s.queue.items 0 h) t),
        )
  ]

module _ (match_func : Job → Bool) (mem : ℕ → Job) where
  -- The test that Backfill makes of the job at an index.
  abbrev matches_at : List ℕ → ℕ → Bool
  matches_at ps c = match_func (copy (mem (get ps c)))

  find_match_cases :
      (ps : List ℕ) (i : ℕ)
      → ((find_match match_func mem ps i ≡ none)
          × ((c : ℕ) → c < length ps → matches_at ps c ≡ false))
        ⊎ ((c : ℕ) × (find_match match_func mem ps i ≡ some (i + c))
            × (c < length ps)
            × (matches_at ps c ≡ true)
            × ((d : ℕ) → d < c → matches_at ps d ≡ false))
  unfolding find_match get
  find_match_cases [] i = inl (refl, λ c h. absurd (omega arith))
  find_match_cases (p ∷ ps) i = elim (Bool-cases (match_func (copy (mem p)))) [
    | inl hit ↦ inr (0, rw hit (ground arith), omega arith, hit, λ d h. absurd (omega arith))
    | inr miss ↦ elim (find_match_cases ps (i + 1)) [
      | inl (nothing, misses) ↦
          inl (rw miss nothing, elim [ zero ↦ λ h. miss | suc c ↦ λ h. misses c (omega arith) ])
      | inr (c, found, inside, hit, misses) ↦ inr (
        suc c,
        rw miss (ground (arith, found)),
        omega arith,
        hit,
        elim [ zero ↦ λ h. miss | suc d ↦ λ h. misses d (omega arith) ],
      )
    ]
  ]

-- Backfill takes out the job that the test accepts first in the order of the heap's slice, and
-- gives its copy. Where the test accepts no queued job it gives nothing and changes nothing.
pub backfill_takes_match :
    (s : GlobalScheduler) (match_func : Job → Bool)
    → IsWellFormed s
    → ((backfill s match_func ≡ (s, none))
        × ((r : ℕ) → IsQueued s r → match_func (copy (s.mem r)) ≡ false))
      ⊎ ((c : ℕ) × (c < queue_len s)
          × ((d : ℕ) → d < c → match_func (copy (s.mem (get s.queue.items d))) ≡ false)
          × (match_func (copy (s.mem (get s.queue.items c))) ≡ true)
          × ((backfill s match_func).1 ≡ some (copy (s.mem (get s.queue.items c))))
          × Removed s (get s.queue.items c) (backfill s match_func).0)
unfolding backfill take_at
backfill_takes_match s match_func v = elim (find_match_cases match_func s.mem s.queue.items 0) [
  | inl (nothing, misses) ↦ inl (
    rw (nothing, backfill),
    λ r h.
        let (i, inside, found) = index_of_count r s.queue.items h in rw found at (misses i inside),
  )
  | inr (c, found, inside, hit, misses) ↦
      let here : find_match match_func s.mem s.queue.items 0 ≡ some c = ground (arith, found) in
      let (taken, t) = remove-Taken (less s) (less_in-IsOrder s.mem) s.queue c v.valid inside in
      inr (
        c,
        inside,
        misses,
        hit,
        rw (here, backfill),
        rw (here, backfill)
            (Taken-Removed s v (get s.queue.items c) _ (count-get s.queue.items c inside) t),
      )
]
