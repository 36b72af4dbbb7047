-- ===== src/Heap/Fuel.antt =====
-- The loops of container/heap end: the fuel that they get is not what stops them.
use tasch.Base.{
  ℕ, zero, suc, ◌+◌, ◌*◌, ◌≤◌, ◌<◌, ◌≡◌, refl, sym, ap, Bool, true, arith, ◌==◌, ◌||◌, not, inl,
  inr, Bool-cases, leb,
}
use tasch.JobQueue
use tasch.JobQueue.{JobQueue, len}
use tasch.Heap.{parent, less_at, up_loop, up, first_child, down_loop, down}

module _ (less : ℕ → ℕ → Bool) where
  -- With two amounts of fuel above the index `up` gives the same queue.
  up_loop_same :
      (f g : ℕ) (q : JobQueue) (j : ℕ) → j < f → j < g → up_loop less f q j ≡ up_loop less g q j
  unfolding up_loop
  up_loop_same zero g q j hf hg = absurd (omega arith)
  up_loop_same (suc f) zero q j hf hg = absurd (omega arith)
  up_loop_same (suc f) (suc g) q j hf hg =
      elim (Bool-cases (parent j == j || not (less_at less q j (parent j)))) [
        | inl stop ↦ rw stop refl
        | inr go ↦ rw go (
            up_loop_same f g (JobQueue.swap q (parent j) j) (parent j) (ground arith)
              (ground arith))
      ]

  first_child_grows : (n : ℕ) (q : JobQueue) (i : ℕ) → i < first_child less n q i
  unfolding first_child
  first_child_grows n q i = ground arith

  -- Past the end the loop stops at once.
  down_loop_past : (f n : ℕ) (q : JobQueue) (i : ℕ) → n ≤ i → down_loop less f n q i ≡ (q, i)
  unfolding down_loop
  down_loop_past zero n q i h = refl
  down_loop_past (suc f) n q i h =
      let stop : leb n (2 * i + 1) ≡ true = ground arith in rw stop refl

  down_loop_same :
      (f g n : ℕ) (q : JobQueue) (i : ℕ)
      → n < f + i
      → n < g + i
      → down_loop less f n q i ≡ down_loop less g n q i
  unfolding down_loop
  down_loop_same zero g n q i hf hg = sym (down_loop_past g n q i (omega arith))
  down_loop_same (suc f) zero n q i hf hg = down_loop_past (suc f) n q i (omega arith)
  down_loop_same (suc f) (suc g) n q i hf hg =
      elim (Bool-cases (leb n (2 * i + 1) || not (less_at less q (first_child less n q i) i))) [
        | inl stop ↦ rw stop refl
        | inr go ↦
            let m = first_child less n q i in
            let grows = first_child_grows n q i in
            rw go (down_loop_same f g n (JobQueue.swap q i m) m (omega arith) (omega arith))
      ]

  -- The loops of `up` and `down` end by their own tests: with any fuel that is enough by their
  -- index they give what the heap's functions give.
  pub loops_end :
      (q : JobQueue) (n i f g : ℕ)
      → i < f
      → n < g
      → (up_loop less f q i ≡ up less q i) × ((down_loop less g n q i).0 ≡ (down less q i n).0)
  unfolding up down
  loops_end q n i f g hf hg = (
    up_loop_same f (suc i) q i hf (omega arith),
    ap (λ r. r.0) (down_loop_same g (suc n) n q i (omega arith) (omega arith)),
  )
