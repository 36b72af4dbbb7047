-- ===== src/Jobs/Less.antt =====
-- JobQueue.Less is a strict weak order: by priority, and by submit time within one priority.
use tasch.Base.{ℕ, ◌≡◌, Bool, true, false, arith}
use tasch.Jobs.{Job, before}
use tasch.Heap.Order.{IsOrder}

pub not-before_trans : (a b c : Job) → before b a ≡ false → before c b ≡ false → before c a ≡ false
unfolding before
not-before_trans a b c h k = ground arith

pub before-asym : (a b : Job) → before a b ≡ true → before b a ≡ false
unfolding before
before-asym a b h = ground arith

-- Less on pointers, in a store of jobs.
abbrev pub less_in : (ℕ → Job) → ℕ → ℕ → Bool
less_in mem p r = before (mem p) (mem r)

pub less_in-IsOrder : (mem : ℕ → Job) → IsOrder (less_in mem)
less_in-IsOrder mem = record {
  asym = λ x y. before-asym (mem x) (mem y);
  trans = λ x y z. not-before_trans (mem x) (mem y) (mem z);
}
