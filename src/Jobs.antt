-- ===== src/Jobs.antt =====
-- The jobs and job groups of pkg/scheduler/queue.go: states, fields, Copy and JobQueue.Less.
-- A time is a number of nanoseconds after Go's zero time, which is 0. The `index` field of a job is
-- in JobQueue.antt. A nil map is `none`.
pub mod Copy
pub mod Less
use tasch.Base.{
  ℕ, String, ℤ, Bool, Option, none, some, List, [], ◌∷◌, Map, insert, ltb, ltb_ℤ, eqb_ℤ,
  if◌then◌else◌,
}

-- `unset` is the empty text, the state of a job before Enqueue.
pub data JobState : Type 0 where
  unset queued running completed failed cancelled : JobState

abbrev pub state_text : JobState → String
state_text unset = ""
state_text queued = "QUEUED"
state_text running = "RUNNING"
state_text completed = "COMPLETED"
state_text failed = "FAILED"
state_text cancelled = "CANCELLED"

abbrev pub is_queued : JobState → Bool
is_queued queued = Bool.true
is_queued _ = Bool.false

abbrev pub is_running : JobState → Bool
is_running running = Bool.true
is_running _ = Bool.false

abbrev pub is_cancelled : JobState → Bool
is_cancelled cancelled = Bool.true
is_cancelled _ = Bool.false

pub record Job : Type 0 where
  pub id : String
  pub requirement : String
  pub command : String
  pub submit_time : ℕ
  pub priority : ℤ
  pub user : String
  pub walltime_seconds : ℤ
  pub gpus_required : ℤ
  pub cpus_required : ℤ
  pub memory_required_mb : ℤ
  pub env_vars : Option (Map String)
  pub max_retries : ℤ
  pub retry_count : ℤ
  pub group_id : String
  pub state : JobState
  pub worker_node : String
  pub start_time : ℕ
  pub end_time : ℕ
  pub output : String
  pub error : String

pub data GroupState : Type 0 where
  pending running completed failed : GroupState

abbrev pub is_pending : GroupState → Bool
is_pending pending = Bool.true
is_pending _ = Bool.false

pub record JobGroup : Type 0 where
  pub group_id : String
  pub job_ids : List String
  pub num_nodes : ℤ
  pub gpus_per_node : ℤ
  pub master_port : ℤ
  pub state : GroupState
  pub created_at : ℕ

-- `for k, v := range j.EnvVars { copied.EnvVars[k] = v }`
unfoldable pub copy_entries : Map String → Map String
copy_entries [] = []
copy_entries ((k, v) ∷ m) = insert k v (copy_entries m)

unfoldable pub copy_map : Option (Map String) → Option (Map String)
copy_map none = none
copy_map (some m) = some (copy_entries m)

-- Copy of a job. A value has no pointers into the scheduler but the map's, which is made anew.
unfoldable pub copy : Job → Job
copy j = record j { env_vars = copy_map j.env_vars }

-- JobQueue.Less, of the two jobs that it reads.
unfoldable pub before : Job → Job → Bool
before a b =
    if eqb_ℤ a.priority b.priority
    then ltb a.submit_time b.submit_time
    else ltb_ℤ a.priority b.priority
