-- ===== src/Tests/MachineTests.antt =====
-- The theorems on the start of the master, the advertisement of a node and the client's flags at small
-- inputs, and the profiler on outputs of the commands that it reads.
use tasch.Base.{
  ◌≤◌, ◌<◌, ◌≡◌, ◌≢◌, ◌⊎◌, refl, String, pos, false, none, some, [], ◌∷◌, ◌++◌, length, gives,
  lookup, str_eq, if◌then◌else◌,
}
use tasch.Numbers.{all_digits, trim_space, trim_left, trim_right}
use tasch.Requirement.{codes, read_digits}
use tasch.Config.{default_config}
use tasch.Master.Start.{MasterMachine, start_master, Ends, start_master-Ends}
use tasch.Profiler.Text.{
  split_at_char, strip_word, cut, atoi_value, find_group, version_head, drop_spaces,
}
use tasch.Profiler.Gpus.{nvidia_card, nvidia_cards, detect_nvidia, version_in, Probes, detect_gpus}
use tasch.Profiler.Ad.{Facts, ClassAd, class_ad}
use tasch.Profiler.Lists.{class_ad-consistent}
use tasch.Worker.{variable}
use tasch.Client.{has_equals, parse_env_flags, parse_env_flags-variable}

-- The port of the master's gRPC server is taken.
abbrev busy_port : MasterMachine
busy_port = record {
  make_dir = λ dir. none;
  open_bolt = λ path. none;
  create_buckets = none;
  discover = λ port. none;
  evaluator = none;
  publish = λ endpoint. none;
  load_pair = λ cert key. none;
  listen = λ addr. some "address already in use";
  listen_health = λ addr. none;
}

start_master-Ends_example :
    Ends busy_port default_config
      (start_master busy_port "/root/.tasch" "/root/.tasch/tasch.db" default_config)
start_master-Ends_example =
    start_master-Ends busy_port "/root/.tasch" "/root/.tasch/tasch.db" default_config

abbrev smi_output : String
smi_output = "A100, 40960\n\nA100, 40536\n"

-- Two cards in the output of nvidia-smi, with a blank line between.
two_cards : detect_nvidia (some smi_output) (some "| CUDA Version: 12.4 |") ≡ record {
  count = 2;
  models = "A100" ∷ "A100" ∷ [];
  memory_mb = pos 40960 ∷ pos 40536 ∷ [];
  version = "12.4";
}
unfolding detect_nvidia nvidia_cards nvidia_card version_in split_at_char strip_word cut atoi_value
    find_group version_head drop_spaces trim_space trim_left trim_right codes read_digits all_digits
two_cards = refl

abbrev probes : Probes
probes = record {
  nvidia_query = some smi_output;
  nvidia_plain = some "| CUDA Version: 12.4 |";
  rocm = none;
  jetson = false;
  meminfo = none;
  jetson_model = none;
}

abbrev facts : Facts
facts = record {
  now = 5;
  os = "linux";
  architecture = "amd64";
  cores = pos 8;
  memory = gives (17179869184, 8589934592);
  cpu_models = gives ("EPYC" ∷ []);
  dockerenv = false;
}

abbrev ad : ClassAd
ad = class_ad facts (17179869184, 8589934592) ("EPYC" ∷ []) (detect_gpus probes)

class_ad-consistent_example :
    (length ad.gpu_models ≡ ad.gpu_count)
    × (ad.gpu_count ≤ length ad.gpu_memory_mb)
    × (((ad.gpu_count ≡ 0) × (ad.gpu_vendor ≡ ""))
        ⊎ ((0 < ad.gpu_count) × ((ad.gpu_vendor ≡ "nvidia") ⊎ (ad.gpu_vendor ≡ "amd"))))
    × (ad.gpu_vendor ≢ "nvidia" → ad.cuda_version ≡ "")
    × (ad.gpu_vendor ≢ "amd" → ad.rocm_version ≡ "")
class_ad-consistent_example =
    class_ad-consistent facts (17179869184, 8589934592) ("EPYC" ∷ []) probes

seed-plain : has_equals "SEED" ≡ false
unfolding has_equals
seed-plain = refl

parse_env_flags-variable_example :
    lookup "SEED" (parse_env_flags (("SEED=1" ∷ "DEBUG" ∷ []) ++ variable "SEED" "a=b" ∷ [])) ≡ (
      if str_eq "SEED" "SEED"
      then some "a=b"
      else lookup "SEED" (parse_env_flags ("SEED=1" ∷ "DEBUG" ∷ [])))
parse_env_flags-variable_example =
    parse_env_flags-variable ("SEED=1" ∷ "DEBUG" ∷ []) "SEED" "a=b" "SEED" seed-plain
