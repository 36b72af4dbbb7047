-- ===== src/Master/Resources.antt =====
-- canDispatchResources and nodeMatchesGPU of internal/daemon/master.go: does a node have what a job
-- asks for, with what the tracker says is in use?
use tasch.Base.{
  String, ℤ, pos, Bool, true, false, ◌&&◌, ◌||◌, Option, none, some, List, leb_ℤ, str_eq,
  if◌then◌else◌,
}
use tasch.Jobs.{Job}
use tasch.Tracker.{GpuTracker, available_gpus, available_cpus, available_memory}

-- memberlist.Node
pub record Member : Type 0 where
  pub name : String
  pub addr : String
  pub meta : String

-- What a round sees of the rest: disc.Members(), json.Unmarshal of a node's advertisement and
-- Evaluator.Match. `valid` says whether the text decodes into an object; `number` gives `int` of the
-- number under a key and `text` the text under a key, where the decoded object has one;
-- `matches` gives `none` for an error.
pub record Cluster : Type 0 where
  pub members : List Member
  pub valid : String → Bool
  pub number : String → String → Option ℤ
  pub text : String → String → Option String
  pub matches : String → String → Option Bool

abbrev pub or_zero : Option ℤ → ℤ
or_zero none = pos 0
or_zero (some k) = k

unfoldable pub node_gpu_count : Cluster → String → ℤ
node_gpu_count c meta = if c.valid meta then or_zero (c.number meta "gpu_count") else pos 0

unfoldable pub node_matches_gpu : Cluster → String → ℤ → Bool
node_matches_gpu c meta gpus_required =
    leb_ℤ gpus_required (pos 0) || leb_ℤ gpus_required (node_gpu_count c meta)

-- One of the three checks: what is asked for is not above the node's total, nor above what is
-- available of it. Nothing is checked where nothing is asked for.
unfoldable pub has_room : ℤ → ℤ → ℤ → Bool
has_room required total available =
    leb_ℤ required (pos 0) || (leb_ℤ required total && leb_ℤ required available)

-- `ad[key].(float64)` as an `int`, 0 where it fails; an empty advertisement is not decoded.
unfoldable pub total_of : Cluster → Member → String → ℤ
total_of c m key = if str_eq m.meta "" then pos 0 else or_zero (c.number m.meta key)

unfoldable pub can_dispatch_resources : Cluster → GpuTracker → Member → Job → Bool
can_dispatch_resources c gt m job =
    let gpus = total_of c m "gpu_count" in
    let cpus = total_of c m "cpu_cores" in
    let mem = total_of c m "total_memory_mb" in
    has_room job.gpus_required gpus (available_gpus gt m.name gpus)
    && has_room job.cpus_required cpus (available_cpus gt m.name cpus)
    && has_room job.memory_required_mb mem (available_memory gt m.name mem)

-- `evalErr == nil && match`
abbrev pub is_match : Option Bool → Bool
is_match (some true) = true
is_match _ = false
