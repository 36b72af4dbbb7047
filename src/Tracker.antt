-- ===== src/Tracker.antt =====
-- gpuTracker of internal/daemon/master.go: GPUs, CPUs and megabytes in use on each node. The
-- amounts are Go's `int`, which may be negative.
pub mod Reads
pub mod Balance
use tasch.Base.{
  ℕ, String, ℤ, pos, ◌+ℤ◌, ◌-ℤ◌, Option, none, some, [], Map, lookup, insert, delete, leb_ℤ,
  if◌then◌else◌,
}

pub record GpuTracker : Type 0 where
  pub gpus_allocated : Map ℤ
  pub cpus_allocated : Map ℤ
  pub mem_allocated : Map ℤ

unfoldable pub new_gpu_tracker : GpuTracker
new_gpu_tracker = record { gpus_allocated = []; cpus_allocated = []; mem_allocated = [] }

-- `m[node]`, which is 0 where there is no entry.
unfoldable pub amount : String → Map ℤ → ℤ
amount node m = elim (lookup node m) [ none ↦ pos 0 | some k ↦ k ]

-- `m[node] += k`
unfoldable pub add_amount : String → ℤ → Map ℤ → Map ℤ
add_amount node k m = insert node (amount node m +ℤ k) m

-- `m[node] -= k; if m[node] <= 0 { delete(m, node) }`
unfoldable pub sub_amount : String → ℤ → Map ℤ → Map ℤ
sub_amount node k m =
    let left = amount node m -ℤ k in
    if leb_ℤ left (pos 0) then delete node m else insert node left m

unfoldable pub allocate : GpuTracker → String → ℤ → ℤ → ℤ → GpuTracker
allocate gt node gpus cpus mem_mb = record {
  gpus_allocated = add_amount node gpus gt.gpus_allocated;
  cpus_allocated = add_amount node cpus gt.cpus_allocated;
  mem_allocated = add_amount node mem_mb gt.mem_allocated;
}

unfoldable pub release : GpuTracker → String → ℤ → ℤ → ℤ → GpuTracker
release gt node gpus cpus mem_mb = record {
  gpus_allocated = sub_amount node gpus gt.gpus_allocated;
  cpus_allocated = sub_amount node cpus gt.cpus_allocated;
  mem_allocated = sub_amount node mem_mb gt.mem_allocated;
}

unfoldable pub available_gpus : GpuTracker → String → ℤ → ℤ
available_gpus gt node total = total -ℤ amount node gt.gpus_allocated

unfoldable pub available_cpus : GpuTracker → String → ℤ → ℤ
available_cpus gt node total = total -ℤ amount node gt.cpus_allocated

unfoldable pub available_memory : GpuTracker → String → ℤ → ℤ
available_memory gt node total = total -ℤ amount node gt.mem_allocated
