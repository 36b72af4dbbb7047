-- ===== src/Tests/SchedulerTests.antt =====
-- The scheduler's theorems at small queues, and the order in which jobs leave.
use tasch.Base.{
  ◌+ℤ◌, pos, ℕ, zero, suc, List, [], ◌∷◌, ◌+◌, ◌<◌, ◌≡◌, refl, ◌≢◌, ◌⊎◌, String, pos, ◌≤ℤ◌, ◌<ℤ◌,
  Bool, true, false, Option, none, some, lookup, insert, get, set, take, count, str_eq,
}
use tasch.JobQueue
use tasch.JobQueue.{len}
use tasch.Heap
use tasch.Jobs.{Job, JobState, before, copy, copy_map}
use tasch.Scheduler.{
  GlobalScheduler, queue_len, new_global_scheduler, enqueue, set_state, heap_push,
  notify_job_change, dequeue, peek, backfill, remove_index, remove_by_id, cancel, queue_full,
}
use tasch.Scheduler.Moves.{mark_running, requeue_running_job, requeue}
use tasch.Scheduler.WellFormed.{IsWellFormed}
use tasch.Scheduler.Enqueue.{IsNew, Admitted, enqueue_cases}
use tasch.Scheduler.Dequeue.{IsQueued, Removed, dequeue_takes_first, backfill_takes_match}
use tasch.Scheduler.Cancel.{CancelEnd, cancel-CancelEnd}
use tasch.Scheduler.Requeue.{
  Requeued, waiting_again, undispatched, requeue-Requeued, requeue_twice, requeue_running_job_cases,
}
use tasch.Scheduler.Reach.{Reach, here, next, enqueues, Reach-IsWellFormed}
use tasch.Tests.{store, empty, one, two, three}

abbrev id_of : Option Job → String
id_of none = ""
id_of (some j) = j.id

abbrev leave : GlobalScheduler → ℕ → List String
leave s zero = []
leave s (suc n) = let (s', j) = dequeue s in id_of j ∷ leave s' n

-- As TestEnqueueDequeue of pkg/scheduler/queue_test.go.
leave-three : leave three 4 ≡ "high" ∷ "mid" ∷ "low" ∷ "" ∷ []
unfolding new_global_scheduler enqueue set_state heap_push notify_job_change dequeue Heap.push
    Heap.up Heap.up_loop Heap.pop Heap.down Heap.down_loop Heap.first_child JobQueue.swap
    JobQueue.push JobQueue.pop get set take insert before copy copy_map
leave-three = refl

one-IsNew : IsNew empty 0
unfolding new_global_scheduler lookup
one-IsNew = refl

two-IsNew : IsNew one 1
unfolding new_global_scheduler enqueue set_state heap_push notify_job_change lookup insert
two-IsNew = refl

three-IsNew : IsNew two 2
unfolding new_global_scheduler enqueue set_state heap_push notify_job_change lookup insert
three-IsNew = refl

Reach-three : Reach empty three
Reach-three =
    next (next (next here (enqueues 0 one-IsNew)) (enqueues 1 two-IsNew)) (enqueues 2 three-IsNew)

Reach-IsWellFormed_example : IsWellFormed three
Reach-IsWellFormed_example = Reach-IsWellFormed store three Reach-three

pub three-IsWellFormed : IsWellFormed three
three-IsWellFormed = Reach-IsWellFormed store three Reach-three

dequeue_takes_first_example :
    ((queue_len three ≡ 0) × (dequeue three ≡ (three, none)) × (peek three ≡ none))
    ⊎ ((p : ℕ) × ((dequeue three).1 ≡ some (copy (three.mem p)))
        × (peek three ≡ some (copy (three.mem p)))
        × ((r : ℕ) → IsQueued three r → before (three.mem r) (three.mem p) ≡ false)
        × Removed three p (dequeue three).0)
dequeue_takes_first_example = dequeue_takes_first three three-IsWellFormed

-- The queue at its limit.
abbrev limited : GlobalScheduler
limited = record two { max_queue_size = pos 2 }

limited-IsWellFormed : IsWellFormed limited
limited-IsWellFormed =
    let v =
      Reach-IsWellFormed store two
        (next (next here (enqueues 0 one-IsNew)) (enqueues 1 two-IsNew)) in
    record { valid = v.valid; named = v.named; tracked = v.tracked; placed = v.placed }

limited-IsNew : IsNew limited 2
unfolding new_global_scheduler enqueue set_state heap_push notify_job_change lookup insert
limited-IsNew = refl

enqueue_cases_example :
    ((pos 0 <ℤ limited.max_queue_size)
      × (limited.max_queue_size ≤ℤ pos (queue_len limited))
      × (enqueue limited 2 ≡ (limited, some (queue_full (pos 2)))))
    ⊎ (((limited.max_queue_size ≤ℤ pos 0) ⊎ (pos (queue_len limited) <ℤ limited.max_queue_size))
        × ((enqueue limited 2).1 ≡ none)
        × Admitted limited 2 (enqueue limited 2).0)
enqueue_cases_example = enqueue_cases limited 2 limited-IsWellFormed limited-IsNew

limited_len : queue_len limited ≡ 2
unfolding new_global_scheduler enqueue set_state heap_push notify_job_change Heap.push Heap.up
    Heap.up_loop JobQueue.swap JobQueue.push get set insert before
limited_len = refl

abbrev is_mid : Job → Bool
is_mid j = str_eq j.id "mid"

backfill_takes_match_example :
    ((backfill three is_mid ≡ (three, none))
      × ((r : ℕ) → IsQueued three r → is_mid (copy (three.mem r)) ≡ false))
    ⊎ ((c : ℕ) × (c < queue_len three)
        × ((d : ℕ) → d < c → is_mid (copy (three.mem (get three.queue.items d))) ≡ false)
        × (is_mid (copy (three.mem (get three.queue.items c))) ≡ true)
        × ((backfill three is_mid).1 ≡ some (copy (three.mem (get three.queue.items c))))
        × Removed three (get three.queue.items c) (backfill three is_mid).0)
backfill_takes_match_example = backfill_takes_match three is_mid three-IsWellFormed

cancel-CancelEnd_example : CancelEnd three "mid" 50 (cancel three "mid" 50)
cancel-CancelEnd_example = cancel-CancelEnd three "mid" 50 three-IsWellFormed

mid_known : lookup "mid" three.jobs ≡ some 2
unfolding new_global_scheduler enqueue set_state heap_push notify_job_change lookup insert
mid_known = refl

-- The job mid as dispatchJob leaves it.
abbrev busy : GlobalScheduler
busy = mark_running (remove_by_id three "mid").0 "mid" "node-a" 60

busy_known : lookup "mid" busy.jobs ≡ some 2
unfolding new_global_scheduler enqueue set_state heap_push notify_job_change lookup insert
    mark_running remove_by_id remove_index Heap.push Heap.up Heap.up_loop JobQueue.swap
    JobQueue.push get set before
busy_known = refl

busy_runs : (busy.mem 2).state ≡ JobState.running
unfolding new_global_scheduler enqueue set_state heap_push notify_job_change lookup insert
    mark_running remove_by_id remove_index Heap.push Heap.up Heap.up_loop JobQueue.swap
    JobQueue.push get set before
busy_runs = refl

requeue-Requeued_example :
    Requeued busy 2
      (waiting_again ((busy.mem 2).retry_count +ℤ pos 1) (busy.mem 2))
      (requeue busy "mid" true).0
requeue-Requeued_example = requeue-Requeued busy "mid" true 2 busy_known

requeue_twice_example :
    (count 2 (requeue (requeue busy "mid" true).0 "mid" true).0.queue.items
      ≡ count 2 busy.queue.items + 2)
    × ¬ IsWellFormed (requeue (requeue busy "mid" true).0 "mid" true).0
requeue_twice_example = requeue_twice busy "mid" true true 2 busy_known

requeue_running_job_cases_example :
    (((busy.mem 2).state ≢ JobState.running)
      × (requeue_running_job busy "mid" ≡ (busy, none, false)))
    ⊎ (((busy.mem 2).state ≡ JobState.running)
        × ((requeue_running_job busy "mid").1 ≡ some (copy (undispatched (busy.mem 2))))
        × ((requeue_running_job busy "mid").2 ≡ true)
        × Requeued busy 2 (undispatched (busy.mem 2)) (requeue_running_job busy "mid").0)
requeue_running_job_cases_example = requeue_running_job_cases busy "mid" 2 busy_known

mid_waits : (three.mem 2).state ≡ JobState.queued
unfolding new_global_scheduler enqueue set_state heap_push notify_job_change insert
mid_waits = refl
