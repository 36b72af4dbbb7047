-- ===== src/JobQueue.antt =====
-- The heap.Interface methods of pkg/scheduler/queue.go (JobQueue). A job is named by its pointer, a
-- number. The `index` field of the jobs is kept apart from their other fields, as one function on
-- pointers, since the heap is all that writes it; `Less` is in Jobs.antt, with the fields it reads.
pub mod Swap
use tasch.Base.{
  ℕ, ◌-◌, List, [], ◌∷◌, ◌++◌, ℤ, pos, negsuc, length, get, set, take, ◌==◌, if◌then◌else◌,
}

pub record JobQueue : Type 0 where
  pub items : List ℕ
  pub index : ℕ → ℤ

-- A write through a pointer.
abbrev pub update {ℓ} : {A : Type ℓ} → (ℕ → A) → ℕ → A → ℕ → A
update f p v r = if p == r then v else f r

abbrev pub len : JobQueue → ℕ
len q = length q.items

unfoldable pub swap : JobQueue → ℕ → ℕ → JobQueue
swap q i j =
    let a = get q.items i in
    let b = get q.items j in
    record {
      items = set (set q.items i b) j a;
      index = update (update q.index b (pos i)) a (pos j);
    }

unfoldable pub push : JobQueue → ℕ → JobQueue
push q p = record { items = q.items ++ p ∷ []; index = update q.index p (pos (len q)) }

unfoldable pub pop : JobQueue → ℕ × JobQueue
pop q =
    let n = len q in
    let item = get q.items (n - 1) in
    (item, record { items = take (n - 1) q.items; index = update q.index item (negsuc 0) })
