-- ===== src/Heap/Ops.antt =====
-- heap.Push, heap.Pop and heap.Remove on the JobQueue: what they keep, add and take away.
use tasch.Base.{
  ℕ, ◌+◌, ◌-◌, ◌≤◌, ◌<◌, ◌≡◌, ◌≢◌, Bool, true, false, get, arith, ◌==◌, if◌then◌else◌, inl, inr,
  Bool-cases, negsuc, count, refl, ◌∙◌,
}
use tasch.JobQueue
use tasch.JobQueue.{JobQueue, len}
use tasch.JobQueue.Swap.{
  IsIndexed, get-swap, Moved, Moved-refl, Moved-trans, swap-Moved, push-Pushed, pop-Popped, Popped,
}
use tasch.Heap.{parent, less_at, down, push, pop, fix_at, remove}
use tasch.Heap.Order.{IsOrder, IsHeap, UpInv, HoleInv}
use tasch.Heap.Up.{up-Moved, up-IsHeap}
use tasch.Heap.Down.{down-Moved, down-Settled}

module _ (less : ℕ → ℕ → Bool) where
  -- A queue in heap order whose jobs know where they stand.
  pub record IsValid (q : JobQueue) : Type 0 where
    pub heap : IsHeap less (len q) q
    pub indexed : IsIndexed q

  -- `r` is `q` with one job `p` more.
  pub record Inserted (q : JobQueue) (p : ℕ) (r : JobQueue) : Type 0 where
    pub valid : IsValid r
    pub size : len r ≡ len q + 1
    pub same : (s : ℕ) → count s r.items ≡ count s q.items + (if p == s then 1 else 0)
    pub others : (s : ℕ) → p ≢ s → count s q.items ≡ 0 → r.index s ≡ q.index s

  -- `r` is `q` with one job `p` less, whose index is unset.
  pub record Taken (q : JobQueue) (p : ℕ) (r : JobQueue) : Type 0 where
    pub valid : IsValid r
    pub size : len r + 1 ≡ len q
    pub same : (s : ℕ) → count s r.items + (if p == s then 1 else 0) ≡ count s q.items
    pub unset : r.index p ≡ negsuc 0
    pub others : (s : ℕ) → p ≢ s → count s q.items ≡ 0 → r.index s ≡ q.index s

  module _ (order : IsOrder less) where
    pub push-Inserted :
        (q : JobQueue) (p : ℕ) → IsValid q → count p q.items ≡ 0 → Inserted q p (push less q p)
    unfolding push
    push-Inserted q p v fresh =
        let r = JobQueue.push q p in
        let one = push-Pushed q p in
        let end : len r - 1 < len r = omega (arith, one.size) in
        let rest = up-Moved less (len r) r (len r - 1) (omega arith) end in
        let start : UpInv less (len r) r (len r - 1) = record {
          edges =
              λ c h k e. ground (arith, one.size, one.before c, one.before (parent c), v.heap c);
          bridged = λ c h k e. absurd (omega (arith, one.size));
        } in
        record {
          valid = record {
            heap =
                rw rest.size (up-IsHeap less order (len r) r (len r - 1) (omega arith) end start);
            indexed = rest.indexed (one.indexed v.indexed fresh);
          };
          size = omega (arith, rest.size, one.size);
          same = λ s. omega (arith, rest.same s, one.same s);
          others = λ s e z. rest.others s (ground (arith, one.same s)) ∙ one.others s e;
        }

    -- The jobs of `q` moved about, the first ones in heap order, and the last one popped.
    cut :
        (n : ℕ) (q q' r : JobQueue) (p : ℕ)
        → n ≡ len q - 1
        → IsValid q
        → Moved (len q) q q'
        → Moved n q' r
        → IsHeap less n r
        → Popped r p (JobQueue.pop r).1
        → Taken q p (JobQueue.pop r).1
    cut n q q' r p e v one m h out = record {
      valid = record {
        heap = λ c a b.
            ground (arith, out.size, m.size, one.size, out.before c, out.before (parent c), h c);
        indexed = out.indexed (m.indexed (one.indexed v.indexed));
      };
      size = omega (arith, out.size, m.size, one.size);
      same = λ s. omega (arith, out.same s, m.same s, one.same s);
      unset = out.unset;
      others = λ s e z. out.others s e ∙ m.others s (one.same s ∙ z) ∙ one.others s z;
    }

    -- Both removals: the job goes to the end, the others are put in order, and the end is cut off.
    cut-Taken :
        (q r : JobQueue) (i : ℕ)
        → IsValid q
        → i < len q
        → Moved (len q - 1) (JobQueue.swap q i (len q - 1)) r
        → IsHeap less (len q - 1) r
        → ((JobQueue.pop r).0 ≡ get q.items i) × Taken q (get q.items i) (JobQueue.pop r).1
    cut-Taken q r i v hi m h =
        let n = len q - 1 in
        let one = swap-Moved (len q) q i n (omega arith) hi (omega arith) in
        let out = pop-Popped r (omega (arith, m.size, one.size)) in
        let taken : (JobQueue.pop r).0 ≡ get q.items i =
          ground
            (arith, out.last, m.size, one.size, m.above n, get-swap q i n hi (omega arith) n) in
        (taken, rw taken at (cut n q _ r (JobQueue.pop r).0 refl v one m h out))

    -- With the job at `i` sent to the end, the job that took its place may be out of order.
    swap-HoleInv :
        (q : JobQueue) (i : ℕ)
        → IsValid q
        → i < len q
        → HoleInv less (len q - 1) (JobQueue.swap q i (len q - 1)) i
    swap-HoleInv q i v hi =
        let at = get-swap q i (len q - 1) hi (omega arith) in
        record {
          edges = λ c a b d e. ground (arith, at c, at (parent c), v.heap c);
          bridged = λ c a b d. ground (
            arith,
            at c,
            at (parent i),
            v.heap c,
            v.heap i,
            order.trans (get q.items (parent i)) (get q.items i) (get q.items c),
          );
        }

    -- heap.Pop takes the job at the root.
    pub pop-Taken :
        (q : JobQueue)
        → IsValid q
        → 0 < len q
        → ((pop less q).0 ≡ get q.items 0) × Taken q (get q.items 0) (pop less q).1
    unfolding pop
    pop-Taken q v h =
        let n = len q - 1 in
        let q' = JobQueue.swap q 0 n in
        let size = (swap-Moved (len q) q 0 n (omega arith) h (omega arith)).size in
        let s = down-Settled less order n q' 0 (omega (arith, size)) (swap-HoleInv q 0 v h) in
        cut-Taken q _ 0 v h (down-Moved less n q' 0 (omega (arith, size))) (λ c a b.
          root_in_order n (down less q' 0 n).0 (down less q' 0 n).1 s.sunk (λ e. (s.stayed e).edges)
            c a b)
      where
        root_in_order :
            (n : ℕ) (r : JobQueue) (moved : Bool)
            → (moved ≡ true → IsHeap less n r)
            → (moved ≡ false
                → (c : ℕ) → 0 < c
                → c < n
                → c ≢ 0
                → less_at less r c (parent c) ≡ false)
            → IsHeap less n r
        root_in_order n r true sunk stayed c a b = sunk refl c a b
        root_in_order n r false sunk stayed c a b = stayed refl c a b (omega arith)

    fix_at-Moved : (q : JobQueue) (i n : ℕ) → n ≤ len q → i < n → Moved n q (fix_at less q i n)
    unfolding fix_at
    fix_at-Moved q i n hn hi =
        let m = down-Moved less n q i hn in
        elim (Bool-cases (down less q i n).1) [
          | inl moved ↦ rw moved m
          | inr stayed ↦ rw stayed (Moved-trans m (up-Moved less n _ i (omega (arith, m.size)) hi))
        ]

    fix_at-IsHeap :
        (q : JobQueue) (i n : ℕ)
        → n ≤ len q
        → i < n
        → HoleInv less n q i
        → IsHeap less n (fix_at less q i n)
    unfolding fix_at
    fix_at-IsHeap q i n hn hi v =
        let m = down-Moved less n q i hn in
        let s = down-Settled less order n q i hn v in
        elim (Bool-cases (down less q i n).1) [
          | inl moved ↦ rw moved (s.sunk moved)
          | inr stayed ↦
              rw stayed (up-IsHeap less order n _ i (omega (arith, m.size)) hi (s.stayed stayed))
        ]

    -- heap.Remove takes the job at `i`.
    pub remove-Taken :
        (q : JobQueue) (i : ℕ)
        → IsValid q
        → i < len q
        → ((remove less q i).0 ≡ get q.items i) × Taken q (get q.items i) (remove less q i).1
    unfolding remove
    remove-Taken q i v hi = elim (Bool-cases ((len q - 1) == i)) [
      | inl last ↦ rw last (last_job (ground arith) (pop-Popped q (omega arith)))
      | inr inner ↦
          let n = len q - 1 in
          let q' = JobQueue.swap q i n in
          let size = (swap-Moved (len q) q i n (omega arith) hi (omega arith)).size in
          let below : i < n = ground arith in
          rw inner (
            cut-Taken q _ i v hi (fix_at-Moved q' i n (omega (arith, size)) below)
              (fix_at-IsHeap q' i n (omega (arith, size)) below (swap-HoleInv q i v hi)))
    ]
      where
        last_job :
            len q - 1 ≡ i
            → Popped q (JobQueue.pop q).0 (JobQueue.pop q).1
            → ((JobQueue.pop q).0 ≡ get q.items i) × Taken q (get q.items i) (JobQueue.pop q).1
        last_job e out =
            let taken : (JobQueue.pop q).0 ≡ get q.items i = rw (← e) out.last in
            (
              taken,
              rw taken at (
                  cut (len q - 1) q q q (JobQueue.pop q).0 refl v (Moved-refl (len q) q)
                    (Moved-refl (len q - 1) q) (λ c a b. v.heap c a (omega arith)) out),
            )

-- Whatever the order and the index fields are, Push adds one entry.
pub count-push :
    (less : ℕ → ℕ → Bool) (q : JobQueue) (p s : ℕ)
    → count s (push less q p).items ≡ count s q.items + (if p == s then 1 else 0)
unfolding push
count-push less q p s =
    let one = push-Pushed q p in
    let rest =
      up-Moved less (len (JobQueue.push q p)) (JobQueue.push q p) (len (JobQueue.push q p) - 1)
        (omega arith) (omega (arith, one.size)) in
    omega (arith, rest.same s, one.same s)
