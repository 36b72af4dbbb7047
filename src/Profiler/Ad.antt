-- ===== src/Profiler/Ad.antt =====
-- GenerateClassAd of profiler.go.
use tasch.Base.{
  ℕ, ◌/◌, String, ℤ, Bool, List, [], ◌∷◌, Outcome, fails, gives, str_eq, if◌then◌else◌,
}
use tasch.Profiler.Gpus.{Gpus, Probes, detect_gpus}

pub record ClassAd : Type 0 where
  pub timestamp : ℕ
  pub os : String
  pub architecture : String
  pub cpu_cores : ℤ
  pub cpu_model : String
  pub total_memory_mb : ℕ
  pub available_mem_mb : ℕ
  pub host_type : String
  pub gpu_count : ℕ
  pub gpu_vendor : String
  pub gpu_models : List String
  pub gpu_memory_mb : List ℤ
  pub cuda_version : String
  pub rocm_version : String

-- What gopsutil, the runtime and the clock answer; the memory in bytes.
pub record Facts : Type 0 where
  pub now : ℕ
  pub os : String
  pub architecture : String
  pub cores : ℤ
  pub memory : Outcome String (ℕ × ℕ)
  pub cpu_models : Outcome String (List String)
  pub dockerenv : Bool

abbrev pub first_model : List String → String
first_model [] = "Unknown"
first_model (m ∷ ms) = m

unfoldable pub host_type_of : Bool → String
host_type_of dockerenv = if dockerenv then "container" else "vm_or_baremetal"

unfoldable pub class_ad : Facts → ℕ × ℕ → List String → Gpus × String → ClassAd
class_ad f (total, available) cpus (gpus, vendor) = record {
  timestamp = f.now;
  os = f.os;
  architecture = f.architecture;
  cpu_cores = f.cores;
  cpu_model = first_model cpus;
  total_memory_mb = total / 1024 / 1024;
  available_mem_mb = available / 1024 / 1024;
  host_type = host_type_of f.dockerenv;
  gpu_count = gpus.count;
  gpu_vendor = vendor;
  gpu_models = gpus.models;
  gpu_memory_mb = gpus.memory_mb;
  cuda_version = if str_eq vendor "nvidia" then gpus.version else "";
  rocm_version = if str_eq vendor "amd" then gpus.version else "";
}

-- `marshal` is json.Marshal.
unfoldable pub generate_class_ad :
    (ClassAd → Outcome String String) → Facts → Probes → Outcome String String
generate_class_ad marshal f p = elim f.memory [
  | fails e ↦ fails e
  | gives amounts ↦ elim f.cpu_models [
    | fails e ↦ fails e
    | gives cpus ↦ marshal (class_ad f amounts cpus (detect_gpus p))
  ]
]
