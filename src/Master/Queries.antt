-- ===== src/Master/Queries.antt =====
-- GetJobStatus, ListJobs and the start of StreamLogs of internal/daemon/master.go. Times in answers are seconds since 1970. strings.ToUpper is an argument.
use tasch.Base.{
  ℕ, ◌-◌, ◌/◌, String, ℤ, pos, negsuc, ◌-ℤ◌, Option, none, some, List, [], ◌∷◌, ◌++◌, insert, ltb,
  ◌==◌, str_eq, if◌then◌else◌,
}
use Prim.Native.Nat.{◌%◌}
use tasch.Jobs.{Job, state_text}
use tasch.Scheduler.{GlobalScheduler}
use tasch.Scheduler.Views.{get_job, list_jobs}
use tasch.Store
use tasch.Store.{Bolt, Json, Result, failed, done, get_dead_letter, load_dead_letters}
use tasch.Master.{Server, LogMessage, entries}

-- `t.Unix()`: a time counts the nanoseconds from the zero time, in the year 1.
abbrev pub unix : ℕ → ℤ
unix t = pos (t / 1_000_000_000) -ℤ pos 62_135_596_800

pub record GetJobStatusResponse : Type 0 where
  pub job_id : String
  pub state : String
  pub worker_node : String
  pub command : String
  pub output : String
  pub error : String
  pub submit_time : ℤ
  pub start_time : ℤ
  pub end_time : ℤ
  pub group_id : String

-- A time that is zero is left 0 in the answer.
abbrev pub unix_or_zero : ℕ → ℤ
unix_or_zero t = if t == 0 then pos 0 else unix t

unfoldable pub status_response : Job → GetJobStatusResponse
status_response j = record {
  job_id = j.id;
  state = state_text j.state;
  worker_node = j.worker_node;
  command = j.command;
  output = j.output;
  error = j.error;
  submit_time = unix j.submit_time;
  start_time = unix_or_zero j.start_time;
  end_time = unix_or_zero j.end_time;
  group_id = j.group_id;
}

abbrev pub not_found_response : String → GetJobStatusResponse
not_found_response job_id = record {
  job_id = job_id;
  state = "NOT_FOUND";
  worker_node = "";
  command = "";
  output = "";
  error = "";
  submit_time = pos 0;
  start_time = pos 0;
  end_time = pos 0;
  group_id = "";
}

-- `int32(k)`, which wraps.
unfoldable pub to_int32 : ℤ → ℤ
to_int32 (pos n) =
    let m = n % 4_294_967_296 in if ltb m 2_147_483_648 then pos m else pos m -ℤ pos 4_294_967_296
to_int32 (negsuc n) =
    let m = n % 4_294_967_296 in if ltb m 2_147_483_648 then negsuc m else pos (4_294_967_295 - m)

pub record JobInfo : Type 0 where
  pub job_id : String
  pub state : String
  pub command : String
  pub requirement : String
  pub worker_node : String
  pub priority : ℤ
  pub user : String
  pub submit_time : ℤ
  pub group_id : String

unfoldable pub job_info : Job → JobInfo
job_info j = record {
  job_id = j.id;
  state = state_text j.state;
  command = j.command;
  requirement = j.requirement;
  worker_node = j.worker_node;
  priority = to_int32 j.priority;
  user = j.user;
  submit_time = unix j.submit_time;
  group_id = j.group_id;
}

unfoldable pub job_infos : List Job → List JobInfo
job_infos [] = []
job_infos (j ∷ js) = job_info j ∷ job_infos js

module _ {D : Type 0} {B : Type 0} {E : Type 0} (bolt : Bolt D B E) (json : Json Job B E) where
  -- The store's jobs, then its dead letters.
  unfoldable pub stored_status : D → String → GetJobStatusResponse
  stored_status db job_id = elim (Store.get_job bolt json db job_id) [
    | done j ↦ status_response j
    | failed e ↦ elim (get_dead_letter bolt json db job_id) [
      | done j ↦ status_response j
      | failed e' ↦ not_found_response job_id
    ]
  ]

  -- The store is `none` where the master has none.
  unfoldable pub get_job_status : GlobalScheduler → Option D → String → GetJobStatusResponse
  get_job_status s store job_id = elim (get_job s job_id) [
    | some job ↦ status_response job
    | none ↦ elim store [ none ↦ not_found_response job_id | some db ↦ stored_status db job_id ]
  ]

  unfoldable pub dead_letter_infos : Option D → Result E (List JobInfo)
  dead_letter_infos none = done []
  dead_letter_infos (some db) = elim (load_dead_letters bolt json db) [
    | failed e ↦ failed e
    | done js ↦ done (job_infos js)
  ]

  -- The handler ListJobs.
  unfoldable pub list_job_infos :
      (String → String) → GlobalScheduler → Option D → String → Result E (List JobInfo)
  list_job_infos to_upper s store filter =
      if str_eq (to_upper filter) "DEAD_LETTER"
      then dead_letter_infos store
      else done (job_infos (list_jobs s (to_upper filter)))

module _ {F : Type 0} where
  -- StreamLogs up to its loop, where every Send succeeds: what is sent first, and the new channel,
  -- which stands last among those of the job.
  unfoldable pub subscribe : Server F → String → Server F × List LogMessage
  subscribe srv job_id = (
    record srv {
      log_channels = insert job_id (entries job_id srv.log_channels ++ [] ∷ []) srv.log_channels;
    },
    entries job_id srv.log_store,
  )
