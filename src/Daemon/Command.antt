-- ===== src/Daemon/Command.antt =====
-- The commands of cmd/tasch/main.go: loadConfig, and `tasch start` as the list of what it does, in
-- order. Printing is left out; Daemon/Drain.antt has the loop of the drain.
use tasch.Base.{
  ◌≡◌, ◌⊎◌, String, Bool, true, false, ◌||◌, Option, none, some, Outcome, fails, gives, List, [],
  ◌∷◌, ◌++◌, Map, str_eq, if◌then◌else◌,
}
use tasch.Daemon.Pid.{Wrote, panics, ends, write_pid}
use tasch.Config.{Host, Write, Config, default_config, load_config, apply_env_overrides}

-- A file that cannot be read or decoded gives the defaults; the environment goes over both.
unfoldable pub load_node_config :
    (Config → Outcome String String)
    → (String → Config → Outcome String Config)
    → (String → String)
    → Map String
    → String
    → Config
load_node_config marshal unmarshal getenv files path =
    apply_env_overrides getenv (elim (load_config marshal unmarshal files path) [
      | fails e ↦ default_config
      | gives cfg ↦ cfg
    ])

pub data Action : Type 0 where
  exits : Action
  starts_master : Action
  starts_worker : Action
  writes_pid : Action
  panics_at_pid : Action
  waits_for_signal : Action
  sets_draining : Action
  drains : Action
  stops_worker : Action
  stops_master : Action
  removes_pid : Action

-- Whether the settings and a pid file exist, whether the two parts start, and what WritePID needs: the
-- machine, the files, the process' number and the answer of the write.
pub record Launch : Type 0 where
  pub config_exists : Bool
  pub pid : Option String
  pub master_starts : Bool
  pub worker_starts : Bool
  pub host : Host
  pub files : Map String
  pub own_pid : String
  pub write : Write

abbrev pub has_master : String → Bool
has_master role = str_eq role "master" || str_eq role "both"

abbrev pub has_worker : String → Bool
has_worker role = str_eq role "worker" || str_eq role "both"

-- After the signal.
unfoldable pub shut_down : Bool → Bool → List Action
shut_down master worker =
    (if master then sets_draining ∷ drains ∷ [] else [])
    ++ (if worker then stops_worker ∷ [] else [])
    ++ (if master then stops_master ∷ [] else [])
    ++ removes_pid ∷ []

-- From WritePID on: its error is not read, and its panic ends the process with all its parts.
unfoldable pub serve : Wrote → Bool → Bool → List Action
serve panics master worker = panics_at_pid ∷ []
serve (ends files err) master worker = writes_pid ∷ waits_for_signal ∷ shut_down master worker

-- A part that fails to start ends the process at once. The first Boolean of each is the answer of
-- StartWorker, and of StartMaster.
unfoldable pub launch_worker : Wrote → Bool → Bool → Bool → List Action
launch_worker wrote true master true = starts_worker ∷ serve wrote master true
launch_worker wrote false master true = exits ∷ []
launch_worker wrote ok master false = serve wrote master false

unfoldable pub launch_master : Wrote → Bool → Bool → Bool → Bool → List Action
launch_master wrote true worker_ok true worker =
    starts_master ∷ launch_worker wrote worker_ok true worker
launch_master wrote false worker_ok true worker = exits ∷ []
launch_master wrote ok worker_ok false worker = launch_worker wrote worker_ok false worker

unfoldable pub start_cmd : Launch → Config → List Action
start_cmd l cfg =
    if l.config_exists
    then elim l.pid [
      | some text ↦ exits ∷ []
      | none ↦
          launch_master (write_pid l.host l.files l.own_pid l.write) l.master_starts l.worker_starts
            (has_master cfg.role) (has_worker cfg.role)
    ]
    else exits ∷ []

-- What a process that comes up with these parts does, in order.
abbrev pub whole : Bool → Bool → List Action
whole true true =
    starts_master ∷ starts_worker ∷ writes_pid ∷ waits_for_signal ∷ sets_draining ∷ drains
    ∷ stops_worker ∷ stops_master ∷ removes_pid ∷ []
whole true false =
    starts_master ∷ writes_pid ∷ waits_for_signal ∷ sets_draining ∷ drains ∷ stops_master
    ∷ removes_pid ∷ []
whole false true = starts_worker ∷ writes_pid ∷ waits_for_signal ∷ stops_worker ∷ removes_pid ∷ []
whole false false = writes_pid ∷ waits_for_signal ∷ removes_pid ∷ []

-- What it does up to WritePID, where that panics.
abbrev pub cut_off : Bool → Bool → List Action
cut_off true true = starts_master ∷ starts_worker ∷ panics_at_pid ∷ []
cut_off true false = starts_master ∷ panics_at_pid ∷ []
cut_off false true = starts_worker ∷ panics_at_pid ∷ []
cut_off false false = panics_at_pid ∷ []

-- A process that does not come up has written no pid file, and what it has started goes with it.
abbrev pub IsEarlyEnd : List Action → Type 0
IsEarlyEnd t = (t ≡ exits ∷ []) ⊎ (t ≡ starts_master ∷ exits ∷ [])
