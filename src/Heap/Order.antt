-- ===== src/Heap/Order.antt =====
-- The order that Less must be, and the heap order with one job out of place.
use tasch.Base.{ℕ, zero, suc, ◌+◌, ◌*◌, ◌≤◌, ◌<◌, ◌≡◌, ◌≢◌, ◌⊎◌, Bool, true, false, get, arith}
use tasch.JobQueue
use tasch.JobQueue.{JobQueue, len}
use tasch.JobQueue.Swap.{get-swap}
use tasch.Heap.{parent, first_child, less_at}

-- A strict weak order: what is not before is a total preorder.
pub record IsOrder (less : ℕ → ℕ → Bool) : Type 0 where
  pub asym : (x y : ℕ) → less x y ≡ true → less y x ≡ false
  pub trans : (x y z : ℕ) → less y x ≡ false → less z y ≡ false → less z x ≡ false

module _ (less : ℕ → ℕ → Bool) where
  -- The job at `i` may stand above the job at `j`.
  abbrev pub Le : JobQueue → ℕ → ℕ → Type 0
  Le q i j = less_at less q j i ≡ false

  abbrev pub IsHeap : ℕ → JobQueue → Type 0
  IsHeap n q = (c : ℕ) → 0 < c → c < n → Le q (parent c) c

  -- The children of `i` may stand under the parent of `i`.
  abbrev pub IsBridged : ℕ → JobQueue → ℕ → Type 0
  IsBridged n q i = (c : ℕ) → 0 < i → c < n → parent c ≡ i → Le q (parent i) c

  -- The job at `i` may be too low in the tree.
  pub record UpInv (n : ℕ) (q : JobQueue) (i : ℕ) : Type 0 where
    pub edges : (c : ℕ) → 0 < c → c < n → c ≢ i → Le q (parent c) c
    pub bridged : IsBridged n q i

  -- The job at `i` may be out of place either way.
  pub record HoleInv (n : ℕ) (q : JobQueue) (i : ℕ) : Type 0 where
    pub edges : (c : ℕ) → 0 < c → c < n → c ≢ i → parent c ≢ i → Le q (parent c) c
    pub bridged : IsBridged n q i

  -- The job at `i` may be too high in the tree.
  pub record DownInv (n : ℕ) (q : JobQueue) (i : ℕ) : Type 0 where
    pub edges : (c : ℕ) → 0 < c → c < n → parent c ≢ i → Le q (parent c) c
    pub bridged : IsBridged n q i

  module _ (order : IsOrder less) where
    -- One round of `up`.
    pub swap-UpInv :
        (n : ℕ) (q : JobQueue) (j : ℕ)
        → n ≤ len q
        → j < n
        → 0 < j
        → UpInv n q j
        → less_at less q j (parent j) ≡ true
        → UpInv n (JobQueue.swap q (parent j) j) (parent j)
    swap-UpInv n q j hn hj h0 v before =
        let g = get q.items in
        let at = get-swap q (parent j) j (omega arith) (omega arith) in
        record {
          edges = λ c p r s. ground (
            arith,
            at c,
            at (parent c),
            v.edges c,
            v.bridged c,
            order.asym (g j) (g (parent j)),
            order.trans (g j) (g (parent j)) (g c),
          );
          bridged = λ c p r s. ground (
            arith,
            at c,
            at (parent (parent j)),
            v.edges c,
            v.edges (parent j),
            order.trans (g (parent (parent j))) (g (parent j)) (g c),
          );
        }

    -- A child of `i` that no other child of `i` comes before.
    pub record IsFirst (n : ℕ) (q : JobQueue) (i m : ℕ) : Type 0 where
      pub inside : m < n
      pub child : (m ≡ 2 * i + 1) ⊎ (m ≡ 2 * i + 2)
      pub first : (c : ℕ) → 0 < c → c < n → parent c ≡ i → Le q m c

    pub first_child-IsFirst :
        (n : ℕ) (q : JobQueue) (i : ℕ) → 2 * i + 1 < n → IsFirst n q i (first_child less n q i)
    unfolding first_child
    first_child-IsFirst n q i h = record {
      inside = ground arith;
      child = ground arith;
      first = λ c p r s. ground (
        arith,
        order.asym (get q.items c) (get q.items c),
        order.asym (get q.items (2 * i + 1 + 1)) (get q.items (2 * i + 1)),
      );
    }

    -- One round of `down`. After it the job is out of place only towards the leaves.
    pub swap-DownInv :
        (n : ℕ) (q : JobQueue) (i m : ℕ)
        → n ≤ len q
        → HoleInv n q i
        → IsFirst n q i m
        → less_at less q m i ≡ true
        → DownInv n (JobQueue.swap q i m) m
    swap-DownInv n q i m hn v f before =
        let at = get-swap q i m (omega (arith, f.inside, f.child)) (omega (arith, f.inside)) in
        record {
          edges = λ c p r s. ground (
            arith,
            f.inside,
            f.child,
            at c,
            at (parent c),
            v.edges c,
            v.bridged m,
            f.first c,
            order.asym (get q.items m) (get q.items i),
          );
          bridged = λ c p r s. ground (arith, f.inside, f.child, at c, at (parent m), v.edges c);
        }

    -- No job of a heap comes before the one at the root.
    pub root-Le : (n : ℕ) (q : JobQueue) → IsHeap n q → (i : ℕ) → i < n → Le q 0 i
    root-Le n q h i hi = climb (suc i) i (omega arith) hi
      where
        climb : (f i : ℕ) → i < f → i < n → Le q 0 i
        climb zero i hf hi = absurd (omega arith)
        climb (suc f) zero hf hi = ground (arith, order.asym (get q.items 0) (get q.items 0))
        climb (suc f) (suc i) hf hi =
            order.trans (get q.items 0) (get q.items (parent (suc i))) (get q.items (suc i))
              (climb f (parent (suc i)) (omega arith) (omega arith)) (h (suc i) (omega arith) hi)
