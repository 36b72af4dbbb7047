-- ===== src/Tests/ConfigTests.antt =====
-- The theorems on the settings, the wizard and the commands at small inputs.
use tasch.Base.{
  Option, ℕ, ◌+◌, ◌*◌, ◌≤◌, ◌<◌, ◌≡◌, ◌≢◌, ◌⊎◌, refl, String, pos, true, false, none, some, List,
  [], ◌∷◌, gives, Map, lookup, arith, str_eq, ◌==◌, if◌then◌else◌,
}
use Prim.Native.Nat.{◌^◌}
use tasch.Config.{
  Host, in_home, closed, back_slashes, pid_path, Config, Write, written, torn, default_config,
  apply_env_overrides,
}
use tasch.Config.Overrides.{Overrides, Kept, apply_env_overrides_lem}
use tasch.Setup.{Flags, run_non_interactive, run_interactive}
use tasch.Setup.NonInteractive.{IsAsked, run_non_interactive_never_fails}
use tasch.Setup.Interactive.{chosen, run_interactive_ends}
use tasch.Daemon.Pid.{HasDir, HasNoDir, panics, ends, write_pid, remove_pid, write_pid_cases}
use tasch.Daemon.Stop.{Process}
use tasch.Daemon.Drain.{drain, drain_ends}
use tasch.Daemon.Command.{Launch}

abbrev worker_config : Config
worker_config = record default_config { role = "worker"; node_name = "n" }

-- ZMQ on another port, by the environment.
abbrev env : String → String
env name = if str_eq name "TASCH_ZMQ_PORT" then "6000" else ""

abbrev moved : Config
moved = apply_env_overrides env worker_config

apply_env_overrides_lem_example :
    Overrides (env "TASCH_GOSSIP_PORT") worker_config.ports.gossip moved.ports.gossip
    × Overrides (env "TASCH_GRPC_PORT") worker_config.ports.grpc moved.ports.grpc
    × Overrides (env "TASCH_ZMQ_PORT") worker_config.ports.zmq moved.ports.zmq
    × Overrides (env "TASCH_METRICS_PORT") worker_config.ports.metrics moved.ports.metrics
    × (moved.master_addr ≡ (
        if str_eq (env "TASCH_MASTER_ADDR") ""
        then worker_config.master_addr
        else env "TASCH_MASTER_ADDR"))
    × Kept worker_config moved
    × (apply_env_overrides env moved ≡ moved)
apply_env_overrides_lem_example = apply_env_overrides_lem env worker_config

abbrev worker_flags : Flags
worker_flags = record {
  role = "worker";
  node_name = "n";
  master_addr = "";
  gossip_port = pos 0;
  grpc_port = pos 0;
  zmq_port = pos 0;
}

run_non_interactive_never_fails_example :
    (cfg : Config) × (run_non_interactive "h" "10.0.0.2" worker_flags ≡ gives cfg)
    × IsAsked "h" "10.0.0.2" worker_flags cfg
run_non_interactive_never_fails_example =
    run_non_interactive_never_fails "h" "10.0.0.2" worker_flags

-- A worker, with a blank line for its name and its master's address.
abbrev lines : List String
lines = "2\n" ∷ "\n" ∷ "\n" ∷ "10.0.0.1\n" ∷ []

run_interactive_ends_example :
    (((cfg : Config) × (run_interactive 9 "h" "" lines ≡ some cfg)
        × (cfg.role ≡ chosen lines)
        × (cfg.role ≡ "worker" → cfg.master_addr ≢ ""))
      ⊎ ((chosen lines ≡ "worker") × ((g : ℕ) → run_interactive g "h" "" lines ≡ none)))
    × ((chosen lines ≡ "master") ⊎ (chosen lines ≡ "worker") ⊎ (chosen lines ≡ "both"))
run_interactive_ends_example = run_interactive_ends 9 "h" "" lines (omega arith)

abbrev stubborn : Process
stubborn = record { find = λ pid. none; terminate = none; alive = λ k. true }

abbrev pid_files : Map String
pid_files = ("/run/tasch.pid", "42") ∷ []

abbrev host : Host
host = record { windows = false; etc_config = false; var_lib_dir = false; home = some "/root" }

abbrev half : Write
half = torn "no space left on device" (some "4")

write_pid_cases_example :
    (HasNoDir host × (write_pid host [] "42" half ≡ panics))
    ⊎ (HasDir host
        × (files' : Map String) × (err : Option String) × (write_pid host [] "42" half
            ≡ ends files' err)
        × (((e : String) × (left : Option String) × (half ≡ torn e left) × (err ≡ some e))
            ⊎ ((half ≡ written) × (err ≡ none) × (lookup (pid_path host) files' ≡ some "42")))
        × (lookup (pid_path host) (remove_pid host files' true) ≡ none)
        × (remove_pid host files' false ≡ files'))
write_pid_cases_example = write_pid_cases host [] "42" half

-- The pid file of a user of Windows, and of one whose home is the root of a drive.
windows_path :
    (in_home true "C:\\Users\\ada" "tasch.pid" ≡ "C:\\Users\\ada\\.tasch\\tasch.pid")
    × (in_home true "D:\\" "tasch.pid" ≡ "D:\\.tasch\\tasch.pid")
    × (in_home false "/" "tasch.pid" ≡ "/.tasch/tasch.pid")
unfolding in_home closed back_slashes
windows_path = (refl, refl, refl)

-- A test each three seconds; the last job ends before the third.
abbrev clock : ℕ → ℕ
clock i = 7 + i * (3 * 10 ^ 9)

abbrev jobs_left : ℕ → ℕ
jobs_left i = if i == 0 then 2 else if i == 1 then 1 else 0

drain_ends_example :
    (k : ℕ) × (drain 31 5 (pos 60) clock jobs_left ≡ some k)
    × ((jobs_left k ≡ 0) ⊎ (5 + 60 * 10 ^ 9 ≤ clock k))
    × ((j : ℕ) → j < k → (0 < jobs_left j) × (clock j < 5 + 60 * 10 ^ 9))
drain_ends_example =
    drain_ends 31 5 (pos 60) clock jobs_left (λ i. omega arith) (omega arith) (omega arith)
      (omega arith)

abbrev ready : Launch
ready = record {
  config_exists = true;
  pid = none;
  master_starts = true;
  worker_starts = true;
  host = host;
  files = [];
  own_pid = "42";
  write = written;
}
