-- ===== src/Tests/MasterTests.antt =====
-- The master's theorems at small states.
use tasch.Base.{
  ℕ, ◌+◌, ◌≤◌, String, pos, ◌+ℤ◌, ◌<ℤ◌, ◌⊎◌, true, false, none, some, [], ◌∷◌, Map, lookup, insert,
  get, set, take, ◌≡◌, ◌≢◌, refl, arith, eq_iff, length, ◌-ℤ◌,
}
use tasch.Heap
use tasch.JobQueue
use tasch.Jobs.{Job, JobGroup, JobState, GroupState, before, copy, copy_map}
use tasch.Breaker.{CircuitBreaker, new_circuit_breaker}
use tasch.Tracker.{new_gpu_tracker, available_gpus, available_cpus, available_memory, amount}
use tasch.Fairshare.{FloatOps}
use tasch.Scheduler.{
  GlobalScheduler, new_global_scheduler, enqueue, set_state, heap_push, notify_job_change, dequeue,
}
use tasch.Scheduler.Moves.{mark_running, mark_completed, reset_fields, finish}
use tasch.Scheduler.WellFormed.{IsWellFormed}
use tasch.Scheduler.Enqueue.{IsNew}
use tasch.Scheduler.Requeue.{Requeued, waiting_again}
use tasch.Scheduler.Reach.{here, next, enqueues, dequeues, runs, Reach-IsWellFormed}
use tasch.Master.{Server}
use tasch.Master.Resources.{Cluster, Member, can_dispatch_resources, has_room, total_of}
use tasch.Master.Dispatch.{dispatch_job}
use tasch.Master.Dispatch.Room.{IsWithin, dispatch_job-IsWithin}
use tasch.Master.Gang.{queued_jobs, try_dispatch_group}
use mathlib.Core.List.{Memᴰ}
use tasch.Master.Gang.Stuck.{Stuck}
use tasch.Master.Gang.Together.{Together, try_dispatch_group_cases}
use tasch.Master.Stop.{cancel_job}
use tasch.Master.Report.{ReportResultRequest, backoff, report_result, fire_retries}
use tasch.Master.Report.Retries.{retry-Requeued}
use tasch.Master.Report.Twice.{release_of, cancelled_job_released_twice, cancelled_job-Requeued}
use tasch.Master.Submit.{SubmitJobRequest, Distributed, submit_distributed_job}
use tasch.Master.Submit.Together.{IsRankCount, IsDistributed, submit_distributed_job_cases}
use tasch.Tests.{three, job, store, empty, one}

abbrev server : GlobalScheduler → Server ℕ
server q = record {
  queue = q;
  cb = new_circuit_breaker;
  gpu_tracker = new_gpu_tracker;
  user_usage = [];
  dispatch_pending = [];
  log_store = [];
  log_channels = [];
  sent = [];
  retries = [];
  dead_letters = some [];
  max_retries = pos 3;
  draining = false;
}

abbrev member : String → String → Member
member name meta = record { name = name; addr = "10.0.0.1"; meta = meta }

abbrev cluster : Cluster
cluster = record {
  members = member "node-a" "a" ∷ member "node-b" "b" ∷ [];
  valid = λ meta. true;
  number = λ meta key. some (pos 4);
  text = λ meta key. some "nvidia";
  matches = λ requirement meta. some true;
}

-- The job low RUNNING on a node.
abbrev running : GlobalScheduler
running = mark_running (dequeue one).0 "low" "node-a" 60

low-IsNew : IsNew empty 0
unfolding new_global_scheduler lookup
low-IsNew = refl

running-IsWellFormed : IsWellFormed running
running-IsWellFormed =
    Reach-IsWellFormed store running
      (next (next (next here (enqueues 0 low-IsNew)) dequeues) (runs "low" "node-a" 60))

running-known : lookup "low" running.jobs ≡ some 0
unfolding new_global_scheduler enqueue set_state heap_push notify_job_change dequeue mark_running
    lookup insert Heap.push Heap.up Heap.up_loop Heap.pop Heap.down Heap.down_loop Heap.first_child
    JobQueue.swap JobQueue.push JobQueue.pop get set take before copy copy_map
running-known = refl

running-job : running.mem 0 ≡ record (job "low" (pos 20) 5) {
  state = JobState.running;
  worker_node = "node-a";
  start_time = 60;
}
unfolding new_global_scheduler enqueue set_state heap_push notify_job_change dequeue mark_running
    lookup insert Heap.push Heap.up Heap.up_loop Heap.pop Heap.down Heap.down_loop Heap.first_child
    JobQueue.swap JobQueue.push JobQueue.pop get set take before copy copy_map
running-job = refl

abbrev whole_seconds : FloatOps ℕ
whole_seconds = record {
  zero = 0;
  hundred = 100;
  add = λ a b. a + b;
  mul = λ a b. a;
  div = λ a b. a;
  seconds = λ n. n;
  to_int = pos;
}

abbrev report : String → ReportResultRequest
report error = record {
  job_id = "low";
  worker_node = "node-a";
  success = false;
  output = "";
  error = error;
}

failed-job :
    (mark_completed running "low" false "" "exit status 1" 90).mem 0
    ≡ finish false "" "exit status 1" 90 (running.mem 0)
unfolding new_global_scheduler enqueue set_state heap_push notify_job_change dequeue mark_running
    mark_completed lookup insert Heap.push Heap.up Heap.up_loop Heap.pop Heap.down Heap.down_loop
    Heap.first_child JobQueue.swap JobQueue.push JobQueue.pop get set take before copy copy_map
failed-job = refl

failed-count :
    ((mark_completed running "low" false "" "exit status 1" 90).mem 0).retry_count ≡ pos 0
unfolding finish
failed-count = rw (failed-job, running-job) refl

failed-limit :
    ((mark_completed running "low" false "" "exit status 1" 90).mem 0).max_retries ≡ pos 3
unfolding finish
failed-limit = rw (failed-job, running-job) refl

failed-single : ((mark_completed running "low" false "" "exit status 1" 90).mem 0).group_id ≡ ""
unfolding finish
failed-single = rw (failed-job, running-job) refl

retry-Requeued_example :
    let q = mark_completed running "low" false "" "exit status 1" 90 in
    Requeued q 0
      (waiting_again (pos (0 + 1)) (q.mem 0))
      (fire_retries
        (report_result whole_seconds (server running) (report "exit status 1") 90)
        20_000_000_000).queue
retry-Requeued_example =
    retry-Requeued whole_seconds (server running) (report "exit status 1") 90 20_000_000_000 0 0 3
      running-known refl refl failed-single failed-count failed-limit (omega arith) (omega arith)

running-placed : (running.mem 0).worker_node ≢ ""
running-placed = rw running-job (λ e. ground (arith, eq_iff "node-a" ""))

running-runs : (running.mem 0).state ≡ JobState.running
running-runs = rw running-job refl

running-single : (running.mem 0).group_id ≡ ""
running-single = rw running-job refl

running-left : (running.mem 0).retry_count <ℤ (running.mem 0).max_retries
running-left = rw running-job (omega arith)

running-due : 95 + backoff ((running.mem 0).retry_count +ℤ pos 1) ≤ 20_000_000_000
unfolding backoff ◌+ℤ◌
running-due = rw running-job (omega arith)

cancelled_job_released_twice_example :
    (report_result whole_seconds
      (cancel_job (server running) "low" 90).0
      (report "cancelled")
      95).gpu_tracker
    ≡ release_of (running.mem 0) (release_of (running.mem 0) new_gpu_tracker)
cancelled_job_released_twice_example =
    cancelled_job_released_twice whole_seconds (server running) (report "cancelled") 90 95 0
      running-IsWellFormed running-known running-runs running-placed refl running-single
      running-left

cancelled_job-Requeued_example :
    let srv₁ = (cancel_job (server running) "low" 90).0 in
    ((srv₁.queue.mem 0).state ≡ JobState.cancelled)
    × Requeued srv₁.queue 0
        (reset_fields true (srv₁.queue.mem 0))
        (fire_retries
          (report_result whole_seconds srv₁ (report "cancelled") 95)
          20_000_000_000).queue
cancelled_job-Requeued_example =
    cancelled_job-Requeued whole_seconds (server running) (report "cancelled") 90 95 20_000_000_000
      0 running-IsWellFormed running-known refl running-runs running-placed refl running-single
      running-left running-due

node-a_room :
    can_dispatch_resources cluster new_gpu_tracker (member "node-a" "a") (job "low" (pos 20) 5)
    ≡ true
unfolding can_dispatch_resources has_room total_of new_gpu_tracker available_gpus available_cpus
    available_memory amount lookup ◌-ℤ◌
node-a_room = refl

node-a_IsWithin : IsWithin cluster new_gpu_tracker (member "node-a" "a")
unfolding total_of new_gpu_tracker amount lookup
node-a_IsWithin = record { gpus = omega arith; cpus = omega arith; mem = omega arith }

dispatch_job-IsWithin_example :
    IsWithin cluster
      (dispatch_job cluster (server running) (job "low" (pos 20) 5) "node-a" 70).gpu_tracker
      (member "node-a" "a")
dispatch_job-IsWithin_example =
    dispatch_job-IsWithin cluster (server running) (job "low" (pos 20) 5) (member "node-a" "a")
      (member "node-a" "a") 70 node-a_room (λ e. refl) node-a_IsWithin

-- A group of one rank, which is in the queue.
abbrev group : JobGroup
group = record {
  group_id = "dj-1";
  job_ids = "low" ∷ [];
  num_nodes = pos 1;
  gpus_per_node = pos 1;
  master_port = pos 29500;
  state = GroupState.pending;
  created_at = 40;
}

-- The job low with a map of variables.
abbrev with_env : GlobalScheduler
with_env = record one { mem = λ p. record (one.mem p) { env_vars = some [] } }

try_dispatch_group_cases_example :
    let srv = server with_env in
    let jobs = queued_jobs with_env group.job_ids in
    ((pos (length jobs) ≢ pos 1) × (try_dispatch_group cluster srv group 70 ≡ some srv))
    ⊎ ((cb : CircuitBreaker) × (pos (length jobs) ≡ pos 1)
        × Stuck cluster new_gpu_tracker 70 new_circuit_breaker [] jobs
        × (try_dispatch_group cluster srv group 70 ≡ some (record srv { cb = cb })))
    ⊎ ((pos (length jobs) ≡ pos 1)
        × ((jobs ≡ []) ⊎ ((j : Job) × Memᴰ j jobs × (j.env_vars ≡ none)))
        × (try_dispatch_group cluster srv group 70 ≡ none))
    ⊎ ((srv' : Server ℕ) × (pos (length jobs) ≡ pos 1)
        × (try_dispatch_group cluster srv group 70 ≡ some srv')
        × Together cluster srv group 70 srv')
try_dispatch_group_cases_example = try_dispatch_group_cases cluster (server with_env) group 70

abbrev pinned_env : Map String
pinned_env = ("CUDA_VISIBLE_DEVICES", "3") ∷ []

abbrev pinned : Job
pinned = record (job "low" (pos 20) 5) { env_vars = some pinned_env }

pinned_device : lookup "CUDA_VISIBLE_DEVICES" pinned_env ≡ some "3"
unfolding lookup
pinned_device = refl

abbrev train : SubmitJobRequest
train = record {
  cel_requirement = "ad.gpu_count >= 1";
  command = "torchrun";
  priority = pos 0;
  user = "ada";
  walltime_seconds = pos 0;
  gpus_required = pos 1;
  env_vars = none;
}

abbrev on_two_nodes : Distributed
on_two_nodes = record { num_nodes = pos 2; master_port = pos 0 }

submit_distributed_job_cases_example :
    (n : ℕ) × IsRankCount (pos 2) n
    × IsDistributed train "dj-7" 5 n
        (server three)
        (submit_distributed_job (server three) train on_two_nodes "7" 5 40)
submit_distributed_job_cases_example =
    submit_distributed_job_cases (server three) train on_two_nodes "7" 5 40 refl
