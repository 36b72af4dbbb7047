-- ===== src/Daemon/Stop.antt =====
-- StopDaemon of internal/daemon/stop.go. What the process answers is an argument: it is looked up, it
-- gets SIGTERM, and signal 0 asks once a second whether it is still there.
use tasch.Base.{
  ℕ, zero, suc, String, ℤ, Bool, true, false, Option, none, some, Map, lookup, delete,
  if◌then◌else◌,
}
use tasch.Numbers.{trim_space, atoi}

pub data StopEnd : Type 0 where
  not_running : StopEnd
  invalid_pid : StopEnd
  not_found : String → StopEnd
  not_stopped : String → StopEnd
  stopped : StopEnd
  killed : StopEnd

pub record Process : Type 0 where
  pub find : ℤ → Option String
  pub terminate : Option String
  pub alive : ℕ → Bool

-- The checks number `i` and later, `f` of them: whether one finds the process gone.
unfoldable pub wait_gone : ℕ → Process → ℕ → Bool
wait_gone zero p i = false
wait_gone (suc f) p i = let rest = wait_gone f p (suc i) in if p.alive i then rest else true

-- How many checks there are.
abbrev pub stop_checks : ℕ
stop_checks = 15

unfoldable pub stop_process : Process → ℤ → StopEnd
stop_process p pid = elim (p.find pid) [
  | some e ↦ not_found e
  | none ↦ elim p.terminate [
    | some e ↦ not_stopped e
    | none ↦ if wait_gone stop_checks p 0 then stopped else killed
  ]
]

-- The files afterwards and the end; each end after the read of the file removes it.
unfoldable pub stop_daemon : Map String → String → Process → Map String × StopEnd
stop_daemon files path p = elim (lookup path files) [
  | none ↦ (files, not_running)
  | some text ↦ elim (atoi (trim_space text)) [
    | none ↦ (delete path files, invalid_pid)
    | some pid ↦ (delete path files, stop_process p pid)
  ]
]
