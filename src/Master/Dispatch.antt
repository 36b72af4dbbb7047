-- ===== src/Master/Dispatch.antt =====
-- dispatchJob of internal/daemon/master.go: the job's record, its resources, the environment that
-- binds its GPUs, and the order to the worker.
pub mod Room
pub mod Env
use tasch.Base.{
  ℕ, zero, suc, ◌+◌, String, ℤ, pos, negsuc, ◌&&◌, not, none, some, List, [], ◌∷◌, Map, lookup,
  insert, ltb_ℤ, str_eq, concat, itoa, join, if◌then◌else◌,
}
use tasch.Jobs.{Job, copy_entries}
use tasch.Scheduler.Moves.{mark_running}
use tasch.Master.{Server, DispatchPayload, append_log, send, allocate_job, info, dispatched}
use tasch.Master.Resources.{Cluster, Member}

-- The texts of `start`, `start + 1`, …, `n` of them.
unfoldable pub device_list : ℕ → ℕ → List String
device_list start zero = []
device_list start (suc n) = itoa start ∷ device_list (start + 1) n

-- `strings.Join(devices, ",")` for the first `n` devices.
unfoldable pub devices : ℤ → String
devices (pos n) = join "," (device_list 0 n)
devices (negsuc n) = ""

-- `if _, exists := envVars[k]; !exists { envVars[k] = v }`
unfoldable pub insert_new : String → String → Map String → Map String
insert_new k v m = elim (lookup k m) [ none ↦ insert k v m | some w ↦ m ]

-- The vendor that the node's advertisement names: the loop stops at the first member of that name
-- with an advertisement.
unfoldable pub vendor_of : Cluster → List Member → String → String
vendor_of c [] node = ""
vendor_of c (m ∷ ms) node =
    if str_eq m.name node && not (str_eq m.meta "")
    then if c.valid m.meta
      then (elim (c.text m.meta "gpu_vendor") [ none ↦ "" | some v ↦ v ])
      else ""
    else vendor_of c ms node

unfoldable pub bind_gpus : String → ℤ → Map String → Map String
bind_gpus vendor gpus env =
    if str_eq vendor "intel"
    then (let val = concat "level_zero:" (devices gpus) in
        insert_new "SYCL_DEVICE_FILTER" val (insert_new "ONEAPI_DEVICE_SELECTOR" val env))
    else if str_eq vendor "apple"
    then insert_new "METAL_DEVICE_INDEX" (devices gpus) env
    else if str_eq vendor "amd"
    then insert_new "HIP_VISIBLE_DEVICES" (devices gpus) env
    else insert_new "CUDA_VISIBLE_DEVICES" (devices gpus) env

-- `for k, v := range job.EnvVars { envVars[k] = v }` on a new map.
unfoldable pub env_copy : Job → Map String
env_copy job = elim job.env_vars [ none ↦ [] | some m ↦ copy_entries m ]

unfoldable pub dispatch_env : Cluster → Job → String → Map String
dispatch_env c job node =
    if ltb_ℤ (pos 0) job.gpus_required
    then bind_gpus (vendor_of c c.members node) job.gpus_required (env_copy job)
    else env_copy job

unfoldable pub execute_payload : Cluster → Job → String → DispatchPayload
execute_payload c job node = record {
  target_node = node;
  job_id = job.id;
  command = job.command;
  walltime_seconds = job.walltime_seconds;
  action = "execute";
  env_vars = dispatch_env c job node;
}

module _ {F : Type 0} where
  unfoldable pub dispatch_job : Cluster → Server F → Job → String → ℕ → Server F
  dispatch_job c srv job node now =
      let srv₁ = record srv {
        queue = mark_running srv.queue job.id node now;
        dispatch_pending = insert job.id now srv.dispatch_pending;
      } in
      let srv₂ = send (allocate_job srv₁ node job) (execute_payload c job node) in
      append_log srv₂ now job.id info (dispatched node)
