-- ===== src/Scheduler/Spec.antt =====
-- What GlobalScheduler of pkg/scheduler/queue.go promises its callers, with no word of pointers, of
-- the heap and of index fields: which jobs are known under their ids, and which of them wait.
pub mod View
pub mod Calls
pub mod Refines
use tasch.Base.{ℕ, ◌<◌, ◌≡◌, ◌≢◌, ◌⊎◌, String, Bool, true, false, Option, none, some}
use tasch.Jobs.{Job, JobState, before, copy}
use tasch.Scheduler.Moves.{finish}
use tasch.Scheduler.Cancel.{cancelled_at}
use tasch.Scheduler.Lifecycle.{running_on}
use tasch.Scheduler.Requeue.{undispatched}

-- `known` is what GetJob shows; `waits` counts the entries of an id in the queue.
pub record Board : Type 0 where
  pub known : String → Option Job
  pub waits : String → ℕ

pub data Call : Type 0 where
  enqueues : Job → Call
  dequeues : Call
  removes : String → Call
  cancels : String → ℕ → Call
  runs : String → String → ℕ → Call
  completes : String → Bool → String → String → ℕ → Call

-- Nothing has changed.
pub record Same (b b' : Board) : Type 0 where
  pub known : (id : String) → b'.known id ≡ b.known id
  pub waits : (id : String) → b'.waits id ≡ b.waits id

-- The job `id` is now `j` and waits `n` times; nothing else has changed.
pub record Sets (b : Board) (id : String) (j : Job) (n : ℕ) (b' : Board) : Type 0 where
  pub now_known : b'.known id ≡ some j
  pub now_waits : b'.waits id ≡ n
  pub known : (other : String) → id ≢ other → b'.known other ≡ b.known other
  pub waits : (other : String) → id ≢ other → b'.waits other ≡ b.waits other

-- The answers and the changes that are allowed to a call. An answer is a job or none, and whether the
-- call has succeeded.
pub data Allows (b : Board) : Call → Option Job × Bool → Board → Type 0 where
  refused : {j : Job} {b' : Board} → Same b b' → Allows b (enqueues j) (none, false) b'
  admitted :
      {j : Job} {b' : Board}
      → b.known j.id ≡ none
      → Sets b j.id (copy (record j { state = JobState.queued })) 1 b'
      → Allows b (enqueues j) (none, true) b'
  idle :
      {b' : Board}
      → ((id : String) → b.waits id ≡ 0)
      → Same b b'
      → Allows b dequeues (none, true) b'
  -- A job leaves that waits and before which none that waits comes.
  takes_first :
      {b' : Board} (id : String) (j : Job)
      → b.known id ≡ some j
      → 0 < b.waits id
      → ((other : String) (i : Job)
          → b.known other ≡ some i
          → 0 < b.waits other
          → before i j ≡ false)
      → Sets b id j 0 b'
      → Allows b dequeues (some j, true) b'
  not_queued :
      {id : String} {b' : Board}
      → ((j : Job) → b.known id ≡ some j → j.state ≢ JobState.queued)
      → Same b b'
      → Allows b (removes id) (none, true) b'
  removed :
      {id : String} {b' : Board} (j : Job)
      → b.known id ≡ some j
      → j.state ≡ JobState.queued
      → Sets b id j 0 b'
      → Allows b (removes id) (some j, true) b'
  unknown :
      {id : String} {now : ℕ} {b' : Board}
      → b.known id ≡ none
      → Same b b'
      → Allows b (cancels id now) (none, false) b'
  ended :
      {id : String} {now : ℕ} {b' : Board} (j : Job)
      → b.known id ≡ some j
      → j.state ≢ JobState.queued
      → j.state ≢ JobState.running
      → Same b b'
      → Allows b (cancels id now) (some j, false) b'
  ends_queued :
      {id : String} {now : ℕ} {b' : Board} (j : Job)
      → b.known id ≡ some j
      → j.state ≡ JobState.queued
      → Sets b id (cancelled_at now j) 0 b'
      → Allows b (cancels id now) (some (cancelled_at now j), true) b'
  ends_running :
      {id : String} {now : ℕ} {b' : Board} (j : Job)
      → b.known id ≡ some j
      → j.state ≡ JobState.running
      → Sets b id (cancelled_at now j) (b.waits id) b'
      → Allows b (cancels id now) (some (cancelled_at now j), true) b'
  nobody_runs :
      {id node : String} {now : ℕ} {b' : Board}
      → b.known id ≡ none
      → Same b b'
      → Allows b (runs id node now) (none, true) b'
  runs_on :
      {id node : String} {now : ℕ} {b' : Board} (j : Job)
      → b.known id ≡ some j
      → Sets b id (running_on node now j) (b.waits id) b'
      → Allows b (runs id node now) (none, true) b'
  nobody_ends :
      {id output err_msg : String} {success : Bool} {now : ℕ} {b' : Board}
      → ((j : Job) → b.known id ≡ some j → j.state ≡ JobState.cancelled)
      → Same b b'
      → Allows b (completes id success output err_msg now) (none, true) b'
  finishes :
      {id output err_msg : String} {success : Bool} {now : ℕ} {b' : Board} (j : Job)
      → b.known id ≡ some j
      → j.state ≢ JobState.cancelled
      → Sets b id (finish success output err_msg now j) (b.waits id) b'
      → Allows b (completes id success output err_msg now) (none, true) b'
