-- ===== src/Heap/Up.antt =====
-- `up` of container/heap: a job that is too low in the tree rises to its place.
use tasch.Base.{ℕ, zero, suc, ◌≤◌, ◌<◌, Bool, arith, ◌==◌, ◌||◌, not, inl, inr, Bool-cases}
use tasch.JobQueue.{JobQueue, len}
use tasch.JobQueue.Swap.{Moved, Moved-refl, Moved-trans, swap-Moved}
use tasch.Heap.{parent, less_at, up_loop, up}
use tasch.Heap.Order.{IsOrder, IsHeap, UpInv, swap-UpInv}

module _ (less : ℕ → ℕ → Bool) where
  -- The loop moves jobs about below `n`, whatever the order is.
  up_loop-Moved :
      (f n : ℕ) (q : JobQueue) (j : ℕ) → n ≤ len q → j < n → Moved n q (up_loop less f q j)
  unfolding up_loop
  up_loop-Moved zero n q j hn hj = Moved-refl n q
  up_loop-Moved (suc f) n q j hn hj =
      elim (Bool-cases (parent j == j || not (less_at less q j (parent j)))) [
        | inl stop ↦ rw stop (Moved-refl n q)
        | inr go ↦
            let one = swap-Moved n q (parent j) j hn (omega arith) hj in
            rw go (
              Moved-trans one
                (up_loop-Moved f n _ (parent j) (omega (arith, one.size)) (omega arith)))
      ]

  pub up-Moved : (n : ℕ) (q : JobQueue) (j : ℕ) → n ≤ len q → j < n → Moved n q (up less q j)
  unfolding up
  up-Moved n q j hn hj = up_loop-Moved (suc j) n q j hn hj

  module _ (order : IsOrder less) where
    up_loop-IsHeap :
        (f n : ℕ) (q : JobQueue) (j : ℕ)
        → j < f
        → n ≤ len q
        → j < n
        → UpInv less n q j
        → IsHeap less n (up_loop less f q j)
    unfolding up_loop
    up_loop-IsHeap zero n q j hf hn hj v = absurd (omega arith)
    up_loop-IsHeap (suc f) n q j hf hn hj v =
        elim (Bool-cases (parent j == j || not (less_at less q j (parent j)))) [
          | inl stop ↦ rw stop (λ c p r. ground (arith, v.edges c))
          | inr go ↦
              let one = swap-Moved n q (parent j) j hn (omega arith) hj in
              rw go (
                up_loop-IsHeap f n _ (parent j) (ground arith) (omega (arith, one.size))
                  (omega arith) (swap-UpInv less order n q j hn hj (ground arith) v (ground arith)))
        ]

    -- From any order with one job too low, `up` makes a heap.
    pub up-IsHeap :
        (n : ℕ) (q : JobQueue) (j : ℕ)
        → n ≤ len q
        → j < n
        → UpInv less n q j
        → IsHeap less n (up less q j)
    unfolding up
    up-IsHeap n q j hn hj v = up_loop-IsHeap (suc j) n q j (omega arith) hn hj v
