-- ===== src/Scheduler/Moves.antt =====
-- Requeue, MarkRunning, RequeueRunningJob and MarkCompleted of pkg/scheduler/queue.go.
use tasch.Base.{
  ℕ, String, pos, negsuc, ◌+ℤ◌, Bool, true, false, Option, none, some, lookup, if◌then◌else◌,
}
use tasch.JobQueue.{update}
use tasch.Jobs.{Job, JobState, copy, is_running, is_cancelled}
use tasch.Scheduler.{
  GlobalScheduler, QueueError, job_not_found, write, heap_push, notify_job_change,
}

-- The fields that Requeue resets.
unfoldable pub reset_fields : Bool → Job → Job
reset_fields increment_retry j = record j {
  retry_count = if increment_retry then j.retry_count +ℤ pos 1 else j.retry_count;
  state = JobState.queued;
  worker_node = "";
  start_time = 0;
  end_time = 0;
  output = "";
  error = "";
}

-- `job.index = -1`
unfoldable pub unset_index : GlobalScheduler → ℕ → GlobalScheduler
unset_index s p = record s {
  queue = record (s.queue) { index = update s.queue.index p (negsuc 0) };
}

unfoldable pub requeue_found : GlobalScheduler → ℕ → Bool → GlobalScheduler
requeue_found s p increment_retry =
    let s₁ = write s p (reset_fields increment_retry (s.mem p)) in
    notify_job_change (heap_push (unset_index s₁ p) p) p

unfoldable pub requeue :
    GlobalScheduler → String → Bool → GlobalScheduler × Option Job × Option QueueError
requeue s job_id increment_retry = elim (lookup job_id s.jobs) [
  | none ↦ (s, none, some job_not_found)
  | some p ↦ let s' = requeue_found s p increment_retry in (s', some (copy (s'.mem p)), none)
]

unfoldable pub mark_running : GlobalScheduler → String → String → ℕ → GlobalScheduler
mark_running s job_id worker_node now = elim (lookup job_id s.jobs) [
  | none ↦ s
  | some p ↦
      let j = record (s.mem p) {
        state = JobState.running;
        worker_node = worker_node;
        start_time = now;
      } in
      notify_job_change (write s p j) p
]

unfoldable pub requeue_running_found : GlobalScheduler → ℕ → GlobalScheduler
requeue_running_found s p =
    let j = record (s.mem p) { state = JobState.queued; worker_node = ""; start_time = 0 } in
    notify_job_change (heap_push (write s p j) p) p

unfoldable pub requeue_running_job : GlobalScheduler → String → GlobalScheduler × Option Job × Bool
requeue_running_job s job_id = elim (lookup job_id s.jobs) [
  | none ↦ (s, none, false)
  | some p ↦
      if is_running (s.mem p).state
      then (let s' = requeue_running_found s p in (s', some (copy (s'.mem p)), true))
      else (s, none, false)
]

-- The fields that MarkCompleted writes.
unfoldable pub finish : Bool → String → String → ℕ → Job → Job
finish success output err_msg now j = record j {
  state = if success then JobState.completed else JobState.failed;
  output = output;
  error = err_msg;
  end_time = now;
}

unfoldable pub mark_completed :
    GlobalScheduler → String → Bool → String → String → ℕ → GlobalScheduler
mark_completed s job_id success output err_msg now = elim (lookup job_id s.jobs) [
  | none ↦ s
  | some p ↦
      if is_cancelled (s.mem p).state
      then s
      else notify_job_change (write s p (finish success output err_msg now (s.mem p))) p
]
