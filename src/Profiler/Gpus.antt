-- ===== src/Profiler/Gpus.antt =====
-- DetectGPUs of profiler_linux.go.
use tasch.Base.{
  ℕ, zero, suc, ◌*◌, ◌/◌, String, ℤ, pos, int64, pos_part, Bool, true, false, ◌||◌, ◌&&◌, Option,
  none, some, List, [], ◌∷◌, length, contains, ltb, str_eq, if◌then◌else◌,
}
use tasch.Numbers.{trim_space}
use tasch.Profiler.Text.{
  split_lines, split_commas, cut, atoi_value, megabytes, find_group, version_head, digits_head,
  exactly, either_case, has_lower, drop_nul,
}

pub record Gpus : Type 0 where
  pub count : ℕ
  pub models : List String
  pub memory_mb : List ℤ
  pub version : String

abbrev pub no_gpus : Gpus
no_gpus = record { count = 0; models = []; memory_mb = []; version = "" }

-- A card of nvidia-smi: its name and memory, from a line.
unfoldable pub nvidia_card : String → Option (String × ℤ)
nvidia_card line =
    let text = trim_space line in
    if str_eq text "" then none else (elim (cut text) [
      | none ↦ none
      | some (name, mem) ↦ some (trim_space name, atoi_value (trim_space mem))
    ])

-- The names and the memory of the cards.
unfoldable pub nvidia_cards : List String → List String × List ℤ
nvidia_cards [] = ([], [])
nvidia_cards (line ∷ lines) =
    let (names, memory) = nvidia_cards lines in
    elim (nvidia_card line) [
      | none ↦ (names, memory)
      | some (name, mem) ↦ (name ∷ names, mem ∷ memory)
    ]

abbrev pub version_or_none : Option String → String
version_or_none none = ""
version_or_none (some v) = v

unfoldable pub version_in : (ℕ → ℕ → Bool) → String → Option String → String
version_in same word none = ""
version_in same word (some out) = version_or_none (find_group same version_head word out)

-- With the outputs of the query and of nvidia-smi alone.
unfoldable pub detect_nvidia : Option String → Option String → Gpus
detect_nvidia none plain = no_gpus
detect_nvidia (some out) plain =
    let (models, memory) = nvidia_cards (split_lines (trim_space out)) in
    record {
      count = length models;
      models = models;
      memory_mb = memory;
      version = version_in exactly "CUDA Version:" plain;
    }

-- The lines of a table after its header.
abbrev pub body : List String → List String
body [] = []
body (header ∷ lines) = lines

abbrev pub name_of_fields : List String → String
name_of_fields [] = ""
name_of_fields (card ∷ []) = ""
name_of_fields (card ∷ name ∷ []) = trim_space name
name_of_fields (card ∷ name ∷ other ∷ fields) =
    if str_eq (trim_space name) "" then trim_space other else trim_space name

unfoldable pub amd_models : List String → List String
amd_models [] = []
amd_models (line ∷ lines) =
    let rest = amd_models lines in
    let name = name_of_fields (split_commas line) in if str_eq name "" then rest else name ∷ rest

abbrev pub memory_of_fields : List String → List ℤ → List ℤ
memory_of_fields [] rest = rest
memory_of_fields (card ∷ []) rest = rest
memory_of_fields (card ∷ total ∷ fields) rest = megabytes (atoi_value (trim_space total)) ∷ rest

unfoldable pub amd_memory : List String → List ℤ
amd_memory [] = []
amd_memory (line ∷ lines) = memory_of_fields (split_commas line) (amd_memory lines)

-- `for len(memoryMB) < count`
unfoldable pub pad : ℕ → List ℤ → List ℤ
pad zero memory = memory
pad (suc n) [] = pos 0 ∷ pad n []
pad (suc n) (mb ∷ memory) = mb ∷ pad n memory

-- A line of rocm-smi that counts as a GPU. `&&` binds before `||`.
unfoldable pub is_amd_line : String → Bool
is_amd_line line = contains line "GPU[" || (has_lower "gpu" line && contains line ":")

unfoldable pub count_amd_lines : List String → ℕ
count_amd_lines [] = 0
count_amd_lines (line ∷ lines) =
    let rest = count_amd_lines lines in if is_amd_line line then suc rest else rest

abbrev pub repeat {ℓ} : {A : Type ℓ} → ℕ → A → List A
repeat zero a = []
repeat (suc n) a = a ∷ repeat n a

unfoldable pub detect_amd_fallback : Option String → Gpus
detect_amd_fallback none = no_gpus
detect_amd_fallback (some out) =
    let n = count_amd_lines (split_lines out) in
    record { count = n; models = repeat n "AMD GPU"; memory_mb = repeat n (pos 0); version = "" }

-- The outputs of rocm-smi with its four choices of flags.
pub record RocmSmi : Type 0 where
  pub product_names : Option String
  pub vram : Option String
  pub driver : Option String
  pub plain : Option String

abbrev pub table : Option String → List String
table none = []
table (some out) = body (split_lines (trim_space out))

unfoldable pub detect_amd : Option RocmSmi → Gpus
detect_amd none = no_gpus
detect_amd (some smi) = elim smi.product_names [
  | none ↦ detect_amd_fallback smi.plain
  | some out ↦
      let models = amd_models (table (some out)) in
      record {
        count = length models;
        models = models;
        memory_mb = pad (length models) (amd_memory (table smi.vram));
        version = version_in either_case "driver version:" smi.driver;
      }
]

-- The kilobytes that /proc/meminfo gives, where it has the line.
unfoldable pub total_kb : Option String → Option ℤ
total_kb none = none
total_kb (some text) = elim (find_group exactly digits_head "MemTotal:" text) [
  | none ↦ none
  | some digits ↦ some (atoi_value digits)
]

-- Half of the memory of a Jetson, whose GPU shares it.
unfoldable pub jetson_vram : Option ℤ → ℤ
jetson_vram none = pos 4096
jetson_vram (some kb) =
    let bytes = int64 (pos_part kb * 1024) in
    if ltb 0 (pos_part bytes) then pos (pos_part bytes / 1024 / 1024 / 2) else pos 4096

abbrev pub jetson_name : Option String → String
jetson_name none = "NVIDIA Tegra Embedded GPU"
jetson_name (some text) = trim_space (drop_nul text)

-- With /proc/meminfo and the model's file, where the GPU is there.
unfoldable pub detect_jetson : Bool → Option String → Option String → Gpus
detect_jetson false meminfo model = no_gpus
detect_jetson true meminfo model = record {
  count = 1;
  models = jetson_name model ∷ [];
  memory_mb = jetson_vram (total_kb meminfo) ∷ [];
  version = "Jetson Unified";
}

-- What the machine has: nvidia-smi with its two outputs, rocm-smi, and a Jetson's files.
pub record Probes : Type 0 where
  pub nvidia_query : Option String
  pub nvidia_plain : Option String
  pub rocm : Option RocmSmi
  pub jetson : Bool
  pub meminfo : Option String
  pub jetson_model : Option String

unfoldable pub detect_gpus : Probes → Gpus × String
detect_gpus p =
    let nvidia = detect_nvidia p.nvidia_query p.nvidia_plain in
    let amd = detect_amd p.rocm in
    let jetson = detect_jetson p.jetson p.meminfo p.jetson_model in
    if ltb 0 nvidia.count
    then (nvidia, "nvidia")
    else if ltb 0 amd.count
    then (amd, "amd")
    else if ltb 0 jetson.count
    then (jetson, "nvidia")
    else (no_gpus, "")
