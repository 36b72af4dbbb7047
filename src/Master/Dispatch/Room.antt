-- ===== src/Master/Dispatch/Room.antt =====
-- What dispatchJob of internal/daemon/master.go takes of a node that canDispatchResources has tested.
use tasch.Base.{
  ℕ, String, ℤ, ◌-ℤ◌, ◌≤ℤ◌, ◌≡◌, refl, Bool, true, false, ◌&&◌, arith, str_eq, eq_iff, Map,
  Bool-cases, inl, inr, ap, +ℤ_parts, -ℤ_parts,
}
use tasch.Jobs.{Job}
use tasch.Tracker.{
  GpuTracker, amount, add_amount, allocate, available_gpus, available_cpus, available_memory,
}
use tasch.Tracker.Reads.{amount-add_amount}
use tasch.Master.{Server, allocate_job, send, append_log}
use tasch.Master.Resources.{Cluster, Member, has_room, total_of, can_dispatch_resources}
use tasch.Master.Dispatch.{dispatch_job}

-- What is in use on a member's node is no more than the member advertises.
pub record IsWithin (c : Cluster) (gt : GpuTracker) (m : Member) : Type 0 where
  pub gpus : amount m.name gt.gpus_allocated ≤ℤ total_of c m "gpu_count"
  pub cpus : amount m.name gt.cpus_allocated ≤ℤ total_of c m "cpu_cores"
  pub mem : amount m.name gt.mem_allocated ≤ℤ total_of c m "total_memory_mb"

-- One resource of one member, when `k` is added on the node `node`.
add-le :
    (node other : String) (k total total' : ℤ) (m : Map ℤ)
    → has_room k total (total -ℤ amount node m) ≡ true
    → (node ≡ other → total ≡ total')
    → amount other m ≤ℤ total'
    → amount other (add_amount node k m) ≤ℤ total'
unfolding has_room
add-le node other k total total' m room same within = elim (Bool-cases (str_eq node other)) [
  | inr apart ↦ ground (arith, apart, amount-add_amount node other k m)
  | inl one ↦
      let e : node ≡ other = (eq_iff node other).0 one in
      let t : total ≡ total' = same e in
      let within' : amount node m ≤ℤ total = rw (e, t) within in
      rw (amount-add_amount node other k m, one, ← t)
        (ground (arith, +ℤ_parts (amount node m) k, -ℤ_parts total (amount node m)))
]

all_three : (a b d : Bool) → (a && b && d) ≡ true → (a ≡ true) × (b ≡ true) × (d ≡ true)
all_three true true true h = (refl, refl, refl)
all_three true true false h = absurd (ground (arith, h))
all_three true false d h = absurd (ground (arith, h))
all_three false b d h = absurd (ground (arith, h))

-- canDispatchResources, then dispatchJob, of one job on one member: what is in use on every member
-- stays within what it advertises, if it was before and no two members share a name.
pub dispatch_job-IsWithin :
    {F : Type 0} (c : Cluster) (srv : Server F) (job : Job) (m other : Member) (now : ℕ)
    → can_dispatch_resources c srv.gpu_tracker m job ≡ true
    → (m.name ≡ other.name → m ≡ other)
    → IsWithin c srv.gpu_tracker other
    → IsWithin c (dispatch_job c srv job m.name now).gpu_tracker other
unfolding dispatch_job allocate_job allocate send append_log can_dispatch_resources available_gpus
    available_cpus available_memory
dispatch_job-IsWithin c srv job m other now room same v =
    let gt = srv.gpu_tracker in
    let total : String → ℤ = total_of c m in
    let rooms = all_three _ _ _ room in
    record {
      gpus =
          add-le m.name other.name job.gpus_required (total "gpu_count")
            (total_of c other "gpu_count") gt.gpus_allocated rooms.0
            (λ e. ap (λ x. total_of c x "gpu_count") (same e)) v.gpus;
      cpus =
          add-le m.name other.name job.cpus_required (total "cpu_cores")
            (total_of c other "cpu_cores") gt.cpus_allocated rooms.1
            (λ e. ap (λ x. total_of c x "cpu_cores") (same e)) v.cpus;
      mem =
          add-le m.name other.name job.memory_required_mb (total "total_memory_mb")
            (total_of c other "total_memory_mb") gt.mem_allocated rooms.2
            (λ e. ap (λ x. total_of c x "total_memory_mb") (same e)) v.mem;
    }
