-- ===== src/Tests.antt =====
-- Small states on which the theorems and the code are tried.
pub mod SchedulerTests
pub mod SpecTests
pub mod WorkerTests
pub mod ConfigTests
pub mod MachineTests
pub mod NodeTests
pub mod StoreTests
pub mod MasterTests
use tasch.Base.{ℕ, String, ℤ, pos, none, ◌==◌, if◌then◌else◌}
use tasch.Jobs.{Job, JobState}
use tasch.Scheduler.{GlobalScheduler, new_global_scheduler, enqueue}

abbrev pub job : String → ℤ → ℕ → Job
job id priority submit_time = record {
  id = id;
  requirement = "";
  command = "train";
  submit_time = submit_time;
  priority = priority;
  user = "ada";
  walltime_seconds = pos 0;
  gpus_required = pos 1;
  cpus_required = pos 0;
  memory_required_mb = pos 0;
  env_vars = none;
  max_retries = pos 3;
  retry_count = pos 0;
  group_id = "";
  state = JobState.unset;
  worker_node = "";
  start_time = 0;
  end_time = 0;
  output = "";
  error = "";
}

-- The jobs low, high and mid.
abbrev pub store : ℕ → Job
store p =
    if p == 0
    then job "low" (pos 20) 5
    else if p == 1
    then job "high" (pos 1) 7
    else job "mid" (pos 10) 9

abbrev pub empty : GlobalScheduler
empty = new_global_scheduler store

abbrev pub one : GlobalScheduler
one = (enqueue empty 0).0

abbrev pub two : GlobalScheduler
two = (enqueue one 1).0

abbrev pub three : GlobalScheduler
three = (enqueue two 2).0
