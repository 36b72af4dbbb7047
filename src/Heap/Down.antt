-- ===== src/Heap/Down.antt =====
-- `down` of container/heap: a job that is too high in the tree sinks to its place.
use tasch.Base.{
  ℕ, zero, suc, ◌+◌, ◌*◌, ◌≤◌, ◌<◌, ◌≡◌, Bool, true, false, get, arith, ◌||◌, not, inl, inr,
  Bool-cases, leb,
}
use tasch.JobQueue
use tasch.JobQueue.{JobQueue, len}
use tasch.JobQueue.Swap.{Moved, Moved-refl, Moved-trans, swap-Moved}
use tasch.Heap.{parent, less_at, first_child, down_loop, down}
use tasch.Heap.Order.{IsOrder, IsHeap, UpInv, HoleInv, DownInv, first_child-IsFirst, swap-DownInv}

module _ (less : ℕ → ℕ → Bool) where
  abbrev stops : ℕ → JobQueue → ℕ → Bool
  stops n q i = leb n (2 * i + 1) || not (less_at less q (first_child less n q i) i)

  first_child_bounds :
      (n : ℕ) (q : JobQueue) (i : ℕ)
      → 2 * i + 1 < n
      → (first_child less n q i < n) × (i < first_child less n q i)
  unfolding first_child
  first_child_bounds n q i h = ground arith

  -- The loop moves jobs about below `n`, and never goes up.
  down_loop-Moved :
      (f n : ℕ) (q : JobQueue) (i : ℕ)
      → n ≤ len q
      → Moved n q (down_loop less f n q i).0 × (i ≤ (down_loop less f n q i).1)
  unfolding down_loop
  down_loop-Moved zero n q i hn = (Moved-refl n q, omega arith)
  down_loop-Moved (suc f) n q i hn = elim (Bool-cases (stops n q i)) [
    | inl stop ↦ rw stop (Moved-refl n q, omega arith)
    | inr go ↦
        let h = first_child_bounds n q i (ground arith) in
        let one = swap-Moved n q i (first_child less n q i) hn (omega arith) h.0 in
        let rest =
          down_loop-Moved f n (JobQueue.swap q i (first_child less n q i)) (first_child less n q i)
            (omega (arith, one.size)) in
        rw go (Moved-trans one rest.0, omega arith)
  ]

  pub down-Moved : (n : ℕ) (q : JobQueue) (i : ℕ) → n ≤ len q → Moved n q (down less q i n).0
  unfolding down
  down-Moved n q i hn = (down_loop-Moved (suc n) n q i hn).0

  module _ (order : IsOrder less) where
    -- Where the loop stops no child comes before the job at `i`.
    stops-first :
        (n : ℕ) (q : JobQueue) (i c : ℕ)
        → stops n q i ≡ true
        → 0 < c
        → c < n
        → parent c ≡ i
        → less_at less q c i ≡ false
    stops-first n q i c stop p r s =
        let f = first_child-IsFirst less order n q i (omega arith) in
        ground (
          arith,
          f.first c,
          order.trans (get q.items i) (get q.items (first_child less n q i)) (get q.items c),
        )

    down_loop-IsHeap :
        (f n : ℕ) (q : JobQueue) (i : ℕ)
        → n < f + i
        → n ≤ len q
        → DownInv less n q i
        → IsHeap less n (down_loop less f n q i).0
    unfolding down_loop
    down_loop-IsHeap zero n q i hf hn v = λ c p r. v.edges c p r (omega arith)
    down_loop-IsHeap (suc f) n q i hf hn v = elim (Bool-cases (stops n q i)) [
      | inl stop ↦ rw stop (λ c p r. ground (arith, v.edges c, stops-first n q i c stop))
      | inr go ↦
          let room : 2 * i + 1 < n = ground arith in
          let h = first_child_bounds n q i room in
          let one = swap-Moved n q i (first_child less n q i) hn (omega arith) h.0 in
          rw go (
            down_loop-IsHeap f n _ (first_child less n q i) (omega arith) (omega (arith, one.size))
              (swap-DownInv less order n q i (first_child less n q i) hn
                (record { edges = λ c p r s t. v.edges c p r t; bridged = v.bridged })
                (first_child-IsFirst less order n q i room) (ground arith)))
    ]

    -- Where the job moved the result is a heap; where it stayed it can only be too low.
    pub record Settled (n : ℕ) (q : JobQueue) (i : ℕ) (r : JobQueue) (moved : Bool) : Type 0 where
      pub sunk : moved ≡ true → IsHeap less n r
      pub stayed : moved ≡ false → UpInv less n r i

    pub down-Settled :
        (n : ℕ) (q : JobQueue) (i : ℕ)
        → n ≤ len q
        → HoleInv less n q i
        → Settled n q i (down less q i n).0 (down less q i n).1
    unfolding down down_loop
    down-Settled n q i hn v = elim (Bool-cases (stops n q i)) [
      | inl stop ↦ rw stop (record {
        sunk = λ e. ground arith;
        stayed = λ e. record {
          edges = λ c p r s. ground (arith, v.edges c, stops-first n q i c stop);
          bridged = v.bridged;
        };
      })
      | inr go ↦
          let room : 2 * i + 1 < n = ground arith in
          let m = first_child less n q i in
          let h = first_child_bounds n q i room in
          let one = swap-Moved n q i m hn (omega arith) h.0 in
          let rest = down_loop-Moved n n (JobQueue.swap q i m) m (omega (arith, one.size)) in
          let d =
            swap-DownInv less order n q i m hn v (first_child-IsFirst less order n q i room)
              (ground arith) in
          rw go (record {
            sunk = λ e. down_loop-IsHeap n n _ m (omega arith) (omega (arith, one.size)) d;
            stayed = λ e. ground (arith, rest.1);
          })
    ]
