-- ===== src/Master.antt =====
-- schedulerServer of internal/daemon/master.go: the master's state and its job logs. A message sent
-- to the workers is kept as the payload before it is encoded. A log text is kept as the values that
-- the source formats. Metrics and the lines printed on the terminal are left out.
pub mod Resources
pub mod Dispatch
pub mod Gang
pub mod Rounds
pub mod Submit
pub mod Stop
pub mod Report
pub mod Enforce
pub mod Restore
pub mod Start
pub mod Decay
pub mod Writer
pub mod Queries
use tasch.Base.{
  ℕ, ◌+◌, String, ℤ, pos, Bool, true, false, Option, none, some, List, [], ◌∷◌, ◌++◌, Map, lookup,
  insert, length, ltb, if◌then◌else◌,
}
use tasch.Jobs.{Job}
use tasch.Scheduler.{GlobalScheduler}
use tasch.Breaker.{CircuitBreaker}
use tasch.Tracker.{GpuTracker, release, allocate}

pub data Level : Type 0 where
  info warn error_level : Level

pub data LogText : Type 0 where
  job_queued : ℤ → ℤ → ℤ → String → LogText
  rank_queued : ℕ → ℤ → String → LogText
  cancelled_by_user : LogText
  will_retry : ℤ → ℤ → ℤ → LogText
  retries_exhausted : ℤ → LogText
  job_result : Bool → String → String → LogText
  error_text : String → LogText
  gang_timed_out : ℤ → LogText
  backfilled : String → LogText
  gang_scheduled : ℕ → String → String → LogText
  dispatched : String → LogText
  walltime_exceeded : ℤ → LogText
  handshake_timed_out : LogText

pub record LogMessage : Type 0 where
  pub timestamp : ℕ
  pub level : Level
  pub message : LogText
  pub job_id : String

-- messaging.DispatchPayload of pkg/messaging/payload.go.
pub record DispatchPayload : Type 0 where
  pub target_node : String
  pub job_id : String
  pub command : String
  pub walltime_seconds : ℤ
  pub action : String
  pub env_vars : Map String

-- `retries` are the goroutines of ReportResult that wait to requeue a job, with the time at which
-- they do; `sent` the payloads sent, latest first; `dead_letters` the jobs
-- that SaveDeadLetter was called with, latest first, if there is a store: its error is not read. A log channel is the list of what is buffered in it.
pub record Server (F : Type 0) : Type 0 where
  pub queue : GlobalScheduler
  pub cb : CircuitBreaker
  pub gpu_tracker : GpuTracker
  pub user_usage : Map F
  pub dispatch_pending : Map ℕ
  pub log_store : Map (List LogMessage)
  pub log_channels : Map (List (List LogMessage))
  pub sent : List DispatchPayload
  pub retries : List (String × ℕ)
  pub dead_letters : Option (List Job)
  pub max_retries : ℤ
  pub draining : Bool

-- `make(chan *pb.LogMessage, 64)`
abbrev pub channel_size : ℕ
channel_size = 64

-- `select { case ch <- entry: default: }`
unfoldable pub offer : LogMessage → List LogMessage → List LogMessage
offer entry ch = if ltb (length ch) channel_size then ch ++ entry ∷ [] else ch

unfoldable pub offer_all : LogMessage → List (List LogMessage) → List (List LogMessage)
offer_all entry [] = []
offer_all entry (ch ∷ chs) = offer entry ch ∷ offer_all entry chs

-- The entries under a key, where a missing key reads as none.
abbrev pub entries {ℓ} : {A : Type ℓ} → String → Map (List A) → List A
entries k m = elim (lookup k m) [ none ↦ [] | some xs ↦ xs ]

-- The channels of a job that has none stay as they are.
unfoldable pub offer_job :
    String → LogMessage → Map (List (List LogMessage)) → Map (List (List LogMessage))
offer_job job_id entry m = elim (lookup job_id m) [
  | none ↦ m
  | some chs ↦ insert job_id (offer_all entry chs) m
]

module _ {F : Type 0} where
  unfoldable pub append_log : Server F → ℕ → String → Level → LogText → Server F
  append_log srv now job_id level msg =
      let entry : LogMessage = record {
        timestamp = now;
        level = level;
        message = msg;
        job_id = job_id;
      } in
      record srv {
        log_store = insert job_id (entries job_id srv.log_store ++ entry ∷ []) srv.log_store;
        log_channels = offer_job job_id entry srv.log_channels;
      }

  -- `s.pub.Send`
  unfoldable pub send : Server F → DispatchPayload → Server F
  send srv payload = record srv { sent = payload ∷ srv.sent }

  -- gpuTracker.Release of what a job holds on a node.
  unfoldable pub release_job : Server F → String → Job → Server F
  release_job srv node job = record srv {
    gpu_tracker =
        release srv.gpu_tracker node job.gpus_required job.cpus_required job.memory_required_mb;
  }

  unfoldable pub allocate_job : Server F → String → Job → Server F
  allocate_job srv node job = record srv {
    gpu_tracker =
        allocate srv.gpu_tracker node job.gpus_required job.cpus_required job.memory_required_mb;
  }

-- The order to a worker to cancel a job.
abbrev pub cancel_payload : String → String → DispatchPayload
cancel_payload node job_id = record {
  target_node = node;
  job_id = job_id;
  command = "";
  walltime_seconds = pos 0;
  action = "cancel";
  env_vars = [];
}
