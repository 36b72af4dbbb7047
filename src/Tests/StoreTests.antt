-- ===== src/Tests/StoreTests.antt =====
-- A database in memory, for the theorems on the store and on the master's start.
use tasch.Base.{
  ◌⊎◌, some, ℕ, pos, true, false, none, some, [], ◌∷◌, Map, lookup, insert, delete, ◌≡◌, ◌≢◌, inl,
  inr, refl, ap, sym, ◌∙◌, arith, ◌==◌, eq_iff, lookup-insert, if◌then◌else◌,
}
use tasch.Jobs.{Job, JobGroup, JobState, GroupState, copy, copy_map}
use tasch.Scheduler.{peek}
use tasch.Store.{
  Bucket, jobs, groups, fairshare, dead_letters, Result, failed, done, Bolt, get_job, save_job,
}
use tasch.Store.RoundTrip.{BoltLaws, Decodes}
use tasch.Master.Restore.{Formats, restore}
use tasch.Master.Restore.Blocked.{restored_rank_blocks}
use tasch.Master.Restore.{
  load_queue, restore_jobs, restore_job, load_group_states, restore_groups, hooked_scheduler,
}
use tasch.Store.{load, decode_all, save}
use tasch.Scheduler.{
  new_global_scheduler, enqueue, set_state, heap_push, notify_job_change, notify_group_change,
}
use tasch.Scheduler.Views.{register_group}
use tasch.Base.{get, set}
use tasch.Jobs.{before}
use tasch.Heap
use tasch.JobQueue
use tasch.Breaker.{new_circuit_breaker}
use tasch.Tracker.{new_gpu_tracker}
use tasch.Master.{Server}
use tasch.Master.Resources.{Cluster}
use tasch.Master.Rounds.{dispatch_round}
use tasch.Store.{save}
use tasch.Scheduler.{job_change, group_change}
use tasch.Master.Writer.{quiet_end, quiet_job, quiet_group, write_ops, get_job-write_ops}
use tasch.Tests.{job, store}

-- What the database holds under a key.
data Bytes : Type 0 where
  job_bytes : Job → Bytes
  group_bytes : JobGroup → Bytes
  usage_bytes : Map ℕ → Bytes

abbrev code : Bucket → ℕ
code jobs = 0
code groups = 1
code fairshare = 2
code dead_letters = 3

abbrev bucket_of : ℕ → Bucket
bucket_of n =
    if n == 0 then jobs else if n == 1 then groups else if n == 2 then fairshare else dead_letters

bucket_of-code : (b : Bucket) → bucket_of (code b) ≡ b
bucket_of-code jobs = refl
bucket_of-code groups = refl
bucket_of-code fairshare = refl
bucket_of-code dead_letters = refl

abbrev Database : Type 0
Database = Bucket → Map Bytes

-- Every call succeeds.
abbrev memory : Bolt Database Bytes ℕ
memory = record {
  put = λ db b k v. ((λ c. if code b == code c then insert k v (db c) else db c), none);
  delete = λ db b k. ((λ c. if code b == code c then delete k (db c) else db c), none);
  get = λ db b k. lookup k (db b);
  entries = λ db b. done (db b);
  not_found = code;
}

memory-BoltLaws : BoltLaws memory
memory-BoltLaws = record {
  put_get = λ db b k v e. ground (arith, lookup-insert k k v (db b), eq_iff k k);
  put_other = λ db b c k j v. elim [
    | inl apart ↦ ground (arith, codes_differ b c apart)
    | inr other ↦ ground (arith, lookup-insert j k v (db c), eq_iff k j)
  ];
  put_failed = λ db b k v e h. absurd (ground arith);
}
  where
    codes_differ : (b c : Bucket) → b ≢ c → code b ≢ code c
    codes_differ b c apart e = apart (sym (bucket_of-code b) ∙ ap bucket_of e ∙ bucket_of-code c)

abbrev read_job : Bytes → Result ℕ Job
read_job (job_bytes j) = done j
read_job _ = failed 9

abbrev read_group : Bytes → Result ℕ JobGroup
read_group (group_bytes g) = done g
read_group _ = failed 9

abbrev read_usage : Bytes → Result ℕ (Map ℕ)
read_usage (usage_bytes u) = done u
read_usage _ = failed 9

abbrev formats : Formats Bytes ℕ ℕ
formats = record {
  job_format = record { marshal = λ j. done (job_bytes j); unmarshal = read_job };
  group_format = record { marshal = λ g. done (group_bytes g); unmarshal = read_group };
  usage_format = record { marshal = λ u. done (usage_bytes u); unmarshal = read_usage };
}

job_format-Decodes : Decodes formats.job_format
job_format-Decodes j b e =
    let s : done (job_bytes j) ≡ done b = e in
    let h : job_bytes j ≡ b = ground (arith, s) in rw (← h) refl

-- One rank of a group of two, which is QUEUED while the other has been dispatched.
abbrev rank : Job
rank = record (job "dj-7-r1" (pos 10) 40) { state = JobState.queued; group_id = "dj-7" }

abbrev group : JobGroup
group = record {
  group_id = "dj-7";
  job_ids = "dj-7-r0" ∷ "dj-7-r1" ∷ [];
  num_nodes = pos 2;
  gpus_per_node = pos 1;
  master_port = pos 29500;
  state = GroupState.pending;
  created_at = 40;
}

abbrev stored : Bucket → Map Bytes
stored jobs =
    ("dj-7-r1", job_bytes rank)
    ∷ ("old", job_bytes (record (job "old" (pos 10) 3) { state = JobState.running }))
    ∷ []
stored groups = ("dj-7", group_bytes group) ∷ []
stored _ = []

-- A master of no members, with the queue that was restored.
abbrev restarted : Server ℕ
restarted = record {
  queue = (restore memory formats stored store (pos 0) 10 100).1;
  cb = new_circuit_breaker;
  gpu_tracker = new_gpu_tracker;
  user_usage = [];
  dispatch_pending = [];
  log_store = [];
  log_channels = [];
  sent = [];
  retries = [];
  dead_letters = none;
  max_retries = pos 3;
  draining = false;
}

abbrev one_node : Cluster
one_node = record {
  members = record { name = "node-a"; addr = "10.0.0.1"; meta = "{}" } ∷ [];
  valid = λ meta. true;
  number = λ meta key. some (pos 4);
  text = λ meta key. some "nvidia";
  matches = λ requirement meta. some true;
}

rank_first : peek restarted.queue ≡ some rank
unfolding restore load_queue restore_jobs restore_job load_group_states restore_groups
    register_group notify_group_change hooked_scheduler new_global_scheduler load decode_all save
    enqueue set_state heap_push notify_job_change peek insert lookup Heap.push Heap.up Heap.up_loop
    JobQueue.swap JobQueue.push get set before copy copy_map
rank_first = refl

restored_rank_blocks_example : dispatch_round one_node restarted 200 ≡ some restarted
restored_rank_blocks_example =
    restored_rank_blocks memory formats stored store (pos 0) 10 100 one_node restarted 200 rank refl
      rank_first (λ e. ground (arith, eq_iff "dj-7" ""))

-- The job `low` is COMPLETED when the goroutine takes its second change; a group and another job follow.
abbrev later_store : ℕ → Job
later_store p = record (store p) { state = JobState.completed }

get_job-write_ops_example :
    let after = write_ops memory formats stored (
      (store, group_change group)
      ∷ (store, job_change 1)
      ∷ (later_store, job_change 0)
      ∷ (store, job_change 0)
      ∷ []) in
    let before = write_ops memory formats stored ((store, job_change 0) ∷ []) in
    ((e : ℕ) × ((save_job memory formats.job_format before (later_store 0)).1 ≡ some e)
      × (get_job memory formats.job_format after "low"
          ≡ get_job memory formats.job_format before "low"))
    ⊎ ((v : Bytes) × (formats.job_format.marshal (later_store 0) ≡ done v)
        × (get_job memory formats.job_format after "low" ≡ formats.job_format.unmarshal v))
get_job-write_ops_example =
    get_job-write_ops memory formats memory-BoltLaws stored
      ((store, group_change group) ∷ (store, job_change 1) ∷ []) ((store, job_change 0) ∷ [])
      later_store 0
      (quiet_group (quiet_job (λ e. ground (arith, eq_iff (store 1).id "low")) quiet_end))
