-- ===== src/Scheduler.antt =====
-- GlobalScheduler of pkg/scheduler/queue.go. Jobs are shared by pointer between the queue and the
-- map by id, so the state has a store: `mem` gives the fields of the job at a pointer, and the queue
-- its `index` field. Each method is one step under the mutex; `now` is what time.Now() gives it.
-- `changes` lists the calls of the persistence hooks, latest first. A hook that is not set is not
-- called. Maps are iterated in the order of their entries, of which the source promises nothing.
pub mod Moves
pub mod Views
pub mod WellFormed
pub mod Enqueue
pub mod Dequeue
pub mod Cancel
pub mod Lifecycle
pub mod Requeue
pub mod Reach
pub mod Spec
use tasch.Base.{
  ℕ, ◌+◌, ◌-◌, String, ℤ, pos, negsuc, ◌+ℤ◌, Bool, true, false, ◌&&◌, ◌||◌, Option, none, some,
  List, [], ◌∷◌, ◌++◌, Map, lookup, insert, get, ltb, ltb_ℤ, leb_ℤ, ◌==◌, str_eq, if◌then◌else◌,
}
use tasch.JobQueue.{JobQueue, len, update}
use tasch.Heap
use tasch.Jobs.{
  Job, JobGroup, JobState, GroupState, copy, state_text, is_queued, is_running, is_cancelled,
  is_pending,
}
use tasch.Jobs.Less.{less_in}

pub data Change : Type 0 where
  job_change : ℕ → Change
  group_change : JobGroup → Change

pub record GlobalScheduler : Type 0 where
  pub mem : ℕ → Job
  pub queue : JobQueue
  pub jobs : Map ℕ
  pub groups : Map JobGroup
  pub max_queue_size : ℤ
  pub on_job_change : Bool
  pub on_group_change : Bool
  pub changes : List Change

pub data QueueError : Type 0 where
  queue_full : ℤ → QueueError
  job_not_found : QueueError

abbrev pub queue_len : GlobalScheduler → ℕ
queue_len s = len s.queue

-- JobQueue.Less on the pointers of the store.
abbrev pub less : GlobalScheduler → ℕ → ℕ → Bool
less s = less_in s.mem

-- heap.Init of an empty queue does nothing. The store holds what the program has allocated.
unfoldable pub new_global_scheduler : (ℕ → Job) → GlobalScheduler
new_global_scheduler mem = record {
  mem = mem;
  queue = record { items = []; index = λ p. pos 0 };
  jobs = [];
  groups = [];
  max_queue_size = pos 0;
  on_job_change = false;
  on_group_change = false;
  changes = [];
}

unfoldable pub notify_job_change : GlobalScheduler → ℕ → GlobalScheduler
notify_job_change s p =
    if s.on_job_change then record s { changes = job_change p ∷ s.changes } else s

unfoldable pub notify_group_change : GlobalScheduler → JobGroup → GlobalScheduler
notify_group_change s g =
    if s.on_group_change then record s { changes = group_change g ∷ s.changes } else s

-- A write of a job's fields through its pointer.
abbrev pub write : GlobalScheduler → ℕ → Job → GlobalScheduler
write s p j = record s { mem = update s.mem p j }

abbrev pub is_full : GlobalScheduler → Bool
is_full s = ltb_ℤ (pos 0) s.max_queue_size && leb_ℤ s.max_queue_size (pos (queue_len s))

unfoldable pub set_state : GlobalScheduler → ℕ → JobState → GlobalScheduler
set_state s p state = write s p (record (s.mem p) { state = state })

unfoldable pub heap_push : GlobalScheduler → ℕ → GlobalScheduler
heap_push s p = record s { queue = Heap.push (less s) s.queue p }

unfoldable pub enqueue : GlobalScheduler → ℕ → GlobalScheduler × Option QueueError
enqueue s p =
    if is_full s
    then (s, some (queue_full s.max_queue_size))
    else let s₁ = set_state s p JobState.queued in
      let s₂ = record s₁ { jobs = insert (s₁.mem p).id p s₁.jobs } in
      (notify_job_change (heap_push s₂ p) p, none)

unfoldable pub dequeue : GlobalScheduler → GlobalScheduler × Option Job
dequeue s =
    if queue_len s == 0
    then (s, none)
    else let (p, q) = Heap.pop (less s) s.queue in (record s { queue = q }, some (copy (s.mem p)))

unfoldable pub peek : GlobalScheduler → Option Job
peek s = if queue_len s == 0 then none else some (copy (s.mem (get s.queue.items 0)))

-- `for i, job := range gs.queue { if matchFunc(job.Copy()) … }`, from index `i` on.
unfoldable pub find_match : (Job → Bool) → (ℕ → Job) → List ℕ → ℕ → Option ℕ
find_match match_func mem [] i = none
find_match match_func mem (p ∷ ps) i =
    if match_func (copy (mem p)) then some i else find_match match_func mem ps (i + 1)

-- heap.Remove and the copy of the job that stood there.
unfoldable pub take_at : GlobalScheduler → ℕ → GlobalScheduler × Option Job
take_at s i = (
  record s { queue = (Heap.remove (less s) s.queue i).1 },
  some (copy (s.mem (get s.queue.items i))),
)

unfoldable pub backfill : GlobalScheduler → (Job → Bool) → GlobalScheduler × Option Job
backfill s match_func = elim (find_match match_func s.mem s.queue.items 0) [
  | none ↦ (s, none)
  | some i ↦ take_at s i
]

-- `if job.index >= 0 && job.index < gs.queue.Len() { heap.Remove(&gs.queue, job.index) }`
unfoldable pub remove_index : GlobalScheduler → ℤ → GlobalScheduler
remove_index s (pos i) =
    if ltb i (queue_len s) then record s { queue = (Heap.remove (less s) s.queue i).1 } else s
remove_index s (negsuc i) = s

unfoldable pub remove_by_id : GlobalScheduler → String → GlobalScheduler × Option Job
remove_by_id s job_id = elim (lookup job_id s.jobs) [
  | none ↦ (s, none)
  | some p ↦
      if is_queued (s.mem p).state
      then (remove_index s (s.queue.index p), some (copy (s.mem p)))
      else (s, none)
]

-- `job.State = StateCancelled; job.EndTime = time.Now()`, and the hook.
unfoldable pub end_cancelled : GlobalScheduler → ℕ → ℕ → GlobalScheduler
end_cancelled s p now =
    notify_job_change (write s p (record (s.mem p) { state = JobState.cancelled; end_time = now }))
      p

unfoldable pub cancel_found : GlobalScheduler → ℕ → ℕ → JobState → GlobalScheduler × Bool
cancel_found s p now JobState.queued =
    (end_cancelled (remove_index s (s.queue.index p)) p now, true)
cancel_found s p now JobState.running = (end_cancelled s p now, true)
cancel_found s p now _ = (s, false)

unfoldable pub cancel : GlobalScheduler → String → ℕ → GlobalScheduler × Option Job × Bool
cancel s job_id now = elim (lookup job_id s.jobs) [
  | none ↦ (s, none, false)
  | some p ↦
      let (s', done) = cancel_found s p now (s.mem p).state in (s', some (copy (s'.mem p)), done)
]
