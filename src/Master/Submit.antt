-- ===== src/Master/Submit.antt =====
-- SubmitJob and SubmitDistributedJob of internal/daemon/master.go. The id from uuid, the time and the
-- pointers of the new jobs are arguments; a job is made at its pointer and then enqueued.
pub mod Ranks
pub mod Together
use tasch.Base.{
  ℕ, zero, suc, ◌+◌, String, ℤ, pos, negsuc, ◌+ℤ◌, Option, none, some, List, [], ◌∷◌, Map, insert,
  eqb_ℤ, str_eq, concat, itoa, if◌then◌else◌,
}
use tasch.Jobs.{Job, JobState, JobGroup, GroupState, copy_entries}
use tasch.Scheduler.{QueueError, enqueue, write}
use tasch.Scheduler.Views.{register_group}
use tasch.Fairshare.{FloatOps, calculate_penalty}
use tasch.Requirement.{parse_cel_requirement}
use tasch.Master
use tasch.Master.{
  Server, DispatchPayload, Level, LogText, append_log, send, release_job, cancel_payload, info,
  warn, error_level,
}

pub record SubmitJobRequest : Type 0 where
  pub cel_requirement : String
  pub command : String
  pub priority : ℤ
  pub user : String
  pub walltime_seconds : ℤ
  pub gpus_required : ℤ
  pub env_vars : Option (Map String)

-- The status codes Unavailable and ResourceExhausted, or the answer.
pub data Submitted {ℓ} (A : Type ℓ) : Type ℓ where
  unavailable : Submitted A
  exhausted : QueueError → Submitted A
  accepted : A → Submitted A

abbrev pub default_priority : ℤ → ℤ
default_priority priority = if eqb_ℤ priority (pos 0) then pos 10 else priority

abbrev pub default_user : String → String
default_user user = if str_eq user "" then "anonymous" else user

unfoldable pub new_job : SubmitJobRequest → String → String → ℤ → ℤ → Option (Map String) → ℕ → Job
new_job req job_id group_id priority max_retries env_vars now =
    let (cpus, mem) = parse_cel_requirement req.cel_requirement in
    record {
      id = job_id;
      requirement = req.cel_requirement;
      command = req.command;
      submit_time = now;
      priority = priority;
      user = default_user req.user;
      walltime_seconds = req.walltime_seconds;
      gpus_required = req.gpus_required;
      cpus_required = cpus;
      memory_required_mb = mem;
      env_vars = env_vars;
      max_retries = max_retries;
      retry_count = pos 0;
      group_id = group_id;
      state = JobState.unset;
      worker_node = "";
      start_time = 0;
      end_time = 0;
      output = "";
      error = "";
    }

module _ {F : Type 0} where
  -- A new job at `p`, enqueued.
  unfoldable pub enqueue_new : Server F → ℕ → Job → Server F × Option QueueError
  enqueue_new srv p job =
      let (q, failure) = enqueue (write srv.queue p job) p in (record srv { queue = q }, failure)

  unfoldable pub submit_accepting :
      FloatOps F → Server F → SubmitJobRequest → String → ℕ → ℕ → Server F × Submitted String
  submit_accepting ops srv req job_id p now =
      let penalty = calculate_penalty ops srv.user_usage (default_user req.user) in
      let priority = default_priority req.priority +ℤ penalty in
      let job = new_job req job_id "" priority srv.max_retries req.env_vars now in
      let (srv', failure) = enqueue_new srv p job in
      elim failure [
        | some e ↦ (srv', exhausted e)
        | none ↦ (
          append_log srv' now job_id info
              (Master.job_queued priority req.gpus_required srv.max_retries req.cel_requirement),
          accepted job_id,
        )
      ]

  unfoldable pub submit_job :
      FloatOps F → Server F → SubmitJobRequest → String → ℕ → ℕ → Server F × Submitted String
  submit_job ops srv req job_id p now =
      if srv.draining then (srv, unavailable) else submit_accepting ops srv req job_id p now

-- The fields that SubmitDistributedJobRequest has besides those of the other request; there
-- `gpus_required` is its `gpus_per_node`.
pub record Distributed : Type 0 where
  pub num_nodes : ℤ
  pub master_port : ℤ

-- `if numNodes < 1 { numNodes = 1 }`
unfoldable pub rank_count : ℤ → ℕ
rank_count (pos zero) = 1
rank_count (pos (suc n)) = suc n
rank_count (negsuc n) = 1

-- strconv.Itoa
unfoldable pub itoa_int : ℤ → String
itoa_int (pos n) = itoa n
itoa_int (negsuc n) = concat "-" (itoa (suc n))

abbrev pub default_port : ℤ → ℤ
default_port port = if eqb_ℤ port (pos 0) then pos 29500 else port

unfoldable pub env_entries : Option (Map String) → Map String
env_entries none = []
env_entries (some m) = copy_entries m

-- The variables of one rank.
unfoldable pub rank_env : SubmitJobRequest → Distributed → ℕ → Map String
rank_env req d rank = insert "NPROC_PER_NODE" (itoa_int req.gpus_required) (
    insert "LOCAL_RANK" "0" (
      insert "MASTER_PORT" (itoa_int (default_port d.master_port)) (
        insert "WORLD_SIZE" (itoa (rank_count d.num_nodes))
          (insert "RANK" (itoa rank) (env_entries req.env_vars)))))

-- `fmt.Sprintf("%s-r%d", groupID, rank)`
unfoldable pub rank_id : String → ℕ → String
rank_id group_id rank = concat group_id (concat "-r" (itoa rank))

-- The ids of the ranks from `rank` on.
unfoldable pub rank_ids : String → ℕ → ℕ → List String
rank_ids group_id rank zero = []
rank_ids group_id rank (suc left) = rank_id group_id rank ∷ rank_ids group_id (rank + 1) left

unfoldable pub new_group : SubmitJobRequest → Distributed → String → ℕ → JobGroup
new_group req d group_id now = record {
  group_id = group_id;
  job_ids = rank_ids group_id 0 (rank_count d.num_nodes);
  num_nodes = pos (rank_count d.num_nodes);
  gpus_per_node = req.gpus_required;
  master_port = default_port d.master_port;
  state = GroupState.pending;
  created_at = now;
}

module _ {F : Type 0} where
  -- The loop from `rank` on, `left` rounds of it; it ends early where the queue is full.
  unfoldable pub submit_ranks :
      Server F
      → SubmitJobRequest
      → Distributed
      → String
      → ℕ
      → ℕ
      → ℕ
      → ℕ
      → Server F × Option QueueError
  submit_ranks srv req d group_id p rank zero now = (srv, none)
  submit_ranks srv req d group_id p rank (suc left) now =
      let job_id = rank_id group_id rank in
      let env = some (rank_env req d rank) in
      let job = new_job req job_id group_id (default_priority req.priority) (pos 0) env now in
      let (srv₁, failure) = enqueue_new srv (p + rank) job in
      let text = Master.rank_queued rank (pos (rank_count d.num_nodes)) group_id in
      let srv₂ = append_log srv₁ now job_id info text in
      elim failure [
        | some e ↦ (srv₁, some e)
        | none ↦ submit_ranks srv₂ req d group_id p (rank + 1) left now
      ]

  unfoldable pub distribute_accepting :
      Server F → SubmitJobRequest → Distributed → String → ℕ → ℕ → Server F × Submitted String
  distribute_accepting srv req d group_id p now =
      let (srv', failure) = submit_ranks srv req d group_id p 0 (rank_count d.num_nodes) now in
      elim failure [
        | some e ↦ (srv', exhausted e)
        | none ↦ (
          record srv' { queue = register_group srv'.queue (new_group req d group_id now) },
          accepted group_id,
        )
      ]

  -- `uid` is the id from uuid, `p` the pointer of rank 0, which the other ranks follow.
  unfoldable pub submit_distributed_job :
      Server F → SubmitJobRequest → Distributed → String → ℕ → ℕ → Server F × Submitted String
  submit_distributed_job srv req d uid p now =
      if srv.draining
      then (srv, unavailable)
      else distribute_accepting srv req d (concat "dj-" uid) p now
