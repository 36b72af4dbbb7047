-- ===== src/Heap.antt =====
-- container/heap of Go's standard library (up, down, Push, Pop, Remove), run on the JobQueue of
-- pkg/scheduler/queue.go. `less` is JobQueue.Less as a test on pointers; it reads no index field,
-- so it stays one function while the heap moves jobs about. The loops take fuel, and the modules
-- below show that what `up` and `down` give is enough.
pub mod Order
pub mod Up
pub mod Down
pub mod Ops
pub mod Fuel
use tasch.Base.{
  ℕ, zero, suc, ◌+◌, ◌-◌, ◌*◌, ◌/◌, Bool, ◌&&◌, ◌||◌, not, get, ltb, leb, ◌==◌, if◌then◌else◌,
}
use tasch.JobQueue
use tasch.JobQueue.{JobQueue, len}

abbrev pub parent : ℕ → ℕ
parent c = (c - 1) / 2

module _ (less : ℕ → ℕ → Bool) where
  -- `h.Less(i, j)`
  abbrev pub less_at : JobQueue → ℕ → ℕ → Bool
  less_at q i j = less (get q.items i) (get q.items j)

  unfoldable pub up_loop : ℕ → JobQueue → ℕ → JobQueue
  up_loop zero q j = q
  up_loop (suc f) q j =
      let rest = up_loop f (JobQueue.swap q (parent j) j) (parent j) in
      if parent j == j || not (less_at q j (parent j)) then q else rest

  unfoldable pub up : JobQueue → ℕ → JobQueue
  up q j = up_loop (suc j) q j

  -- `j` of the loop: the right child where it exists and comes before the left one.
  unfoldable pub first_child : ℕ → JobQueue → ℕ → ℕ
  first_child n q i =
      let left = 2 * i + 1 in
      if ltb (left + 1) n && less_at q (left + 1) left then left + 1 else left

  -- The queue and the index where the loop ends.
  unfoldable pub down_loop : ℕ → ℕ → JobQueue → ℕ → JobQueue × ℕ
  down_loop zero n q i = (q, i)
  down_loop (suc f) n q i =
      let child = first_child n q i in
      let rest = down_loop f n (JobQueue.swap q i child) child in
      if leb n (2 * i + 1) || not (less_at q child i) then (q, i) else rest

  -- Whether the job moved is the result of `down` in the source.
  unfoldable pub down : JobQueue → ℕ → ℕ → JobQueue × Bool
  down q start n = let (r, i) = down_loop (suc n) n q start in (r, ltb start i)

  unfoldable pub push : JobQueue → ℕ → JobQueue
  push q p = let r = JobQueue.push q p in up r (len r - 1)

  unfoldable pub pop : JobQueue → ℕ × JobQueue
  pop q = let n = len q - 1 in JobQueue.pop (down (JobQueue.swap q 0 n) 0 n).0

  -- `if !down(h, i, n) { up(h, i) }`
  unfoldable pub fix_at : JobQueue → ℕ → ℕ → JobQueue
  fix_at q i n = let (r, moved) = down q i n in if moved then r else up r i

  unfoldable pub remove : JobQueue → ℕ → ℕ × JobQueue
  remove q i =
      let n = len q - 1 in JobQueue.pop (if n == i then q else fix_at (JobQueue.swap q i n) i n)
