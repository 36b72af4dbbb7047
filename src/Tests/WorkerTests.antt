-- ===== src/Tests/WorkerTests.antt =====
-- The theorems on the worker at one job that is executed and cancelled.
use tasch.Worker.{executing}
use tasch.Base.{ℕ, String, ◌+◌, ◌<◌, ◌≡◌, inl, refl, pos, false, none, some, [], gives, arith, ◌==◌}
use tasch.Master.{DispatchPayload, cancel_payload}
use tasch.Master.Report.{ReportResultRequest, track_node}
use tasch.Config.{default_config}
use tasch.Worker.{
  Worker, Run, ContextError, deadline_exceeded, request_of, acknowledging, put_run, spawn, handle,
  receive, job_context, make_context, register, Exit, finish_run,
}
use tasch.Worker.Reach.{
  Reach, here, next, receives, prepares, registers, new_worker, job_of, IsLive, IsOnce, IsSound,
}
use tasch.Worker.Sound.{Reach-new-IsSound}
use tasch.Worker.Cancels.{Cancels, early_cancel_lost, cancelled_run_reports}
use tasch.Worker.Retry.{Answers, delivered, report_with_retry, waits_from, report_with_retry_ends}
use tasch.Fairshare.{FloatOps}
use tasch.Breaker.{new_circuit_breaker, record_success}
use tasch.Worker.Verdict.{track_node-request_of}
use tasch.Worker.Start.{Machine, start_worker, Started, start_worker-Started}

abbrev order : DispatchPayload
order = record {
  target_node = "n";
  job_id = "j";
  command = "train";
  walltime_seconds = pos 60;
  action = "execute";
  env_vars = [];
}

abbrev taken : Worker
taken = receive (new_worker "n") (some order)

abbrev running : Worker
running = register (make_context taken 0) 0

Reach-running : Reach (new_worker "n") running
unfolding new_worker receive handle spawn put_run make_context
Reach-running =
    next (next (next here (receives (some order))) (prepares 0 (omega arith) refl))
      (registers 0 (omega arith) refl)

Reach-new-IsSound_example : IsSound running
Reach-new-IsSound_example = Reach-new-IsSound "n" running Reach-running

running-IsSound : IsSound running
running-IsSound = Reach-new-IsSound "n" running Reach-running

taken-IsSound : IsSound taken
taken-IsSound = Reach-new-IsSound "n" taken (next here (receives (some order)))

running-IsOnce : IsOnce running
unfolding new_worker receive handle spawn put_run make_context register
running-IsOnce r k hr hk e = omega arith

taken-IsOnce : IsOnce taken
unfolding new_worker receive handle spawn put_run
taken-IsOnce r k hr hk e = omega arith

running-Cancels : Cancels running (cancel_payload "n" "j")
unfolding new_worker receive handle spawn put_run make_context register
running-Cancels = record { here = refl; cancels = refl }

taken-Cancels : Cancels taken (cancel_payload "n" "j")
unfolding new_worker receive handle spawn put_run
taken-Cancels = record { here = refl; cancels = refl }

abbrev stopped_exit : Exit
stopped_exit = record { exec_err = some "signal: killed"; stdout = "half" }

abbrev told : Worker
told = receive running (some (cancel_payload "n" "j"))

running_facts :
    (0 < running.started)
    × (job_of running 0 ≡ "j")
    × IsLive running 0
    × ((running.runs 0).context.err ≡ none)
unfolding new_worker receive handle spawn put_run make_context register job_context
running_facts = (omega arith, refl, refl, refl)

cancelled_run_reports_example :
    (req : ReportResultRequest) × (((finish_run told 0 stopped_exit).runs 0).request ≡ some req)
    × (req.job_id ≡ "j")
    × (req.success ≡ false)
    × (req.error ≡ "cancelled")
cancelled_run_reports_example =
    cancelled_run_reports running told (cancel_payload "n" "j") 0 stopped_exit "signal: killed"
      running-IsSound running-IsOnce running-Cancels running_facts.0 running_facts.1 running_facts.2
      running_facts.3 here refl

taken_facts : (0 < taken.started) × (job_of taken 0 ≡ "j") × ((taken.runs 0).phase ≡ acknowledging)
unfolding new_worker receive handle spawn put_run
taken_facts = (omega arith, refl, refl)

early_cancel_lost_example : receive taken (some (cancel_payload "n" "j")) ≡ taken
early_cancel_lost_example =
    early_cancel_lost taken (cancel_payload "n" "j") 0 taken-IsSound taken-IsOnce taken-Cancels
      taken_facts.0 taken_facts.1 (inl taken_facts.2)

-- The third call is accepted.
abbrev third : Answers
third = record { accepted = λ i. i == 2; shut_down = λ _. false; shut_down_waiting = λ _. false }

report_with_retry_ends_example : report_with_retry 5 third ≡ some (delivered, waits_from third 0 2)
report_with_retry_ends_example =
    report_with_retry_ends 5 2 third delivered (omega arith) (λ j h. ground arith) refl

abbrev lonely : Machine
lonely = record {
  getenv = λ _. "";
  local_ip = "10.0.0.2";
  discover = λ name ad addr. none;
  join = λ addr. none;
  load_ca = λ file. some "no such file";
  dial = λ addr tls. none;
}

start_worker-Started_example :
    Started lonely default_config (start_worker lonely default_config (gives "{}"))
start_worker-Started_example = start_worker-Started lonely default_config (gives "{}")

abbrev whole_ops : FloatOps ℕ
whole_ops = record {
  zero = 0;
  hundred = 100;
  add = λ a b. a + b;
  mul = λ a b. a;
  div = λ a b. a;
  seconds = λ n. n;
  to_int = pos;
}

-- A process that its walltime has ended.
abbrev overdue : Run
overdue = record {
  payload = order;
  phase = executing;
  context = record { timeout = some (pos 60_000_000_000); err = some deadline_exceeded };
  request = none;
}

track_node-request_of_example :
    ((stopped_exit.exec_err ≡ none)
      → track_node whole_ops new_circuit_breaker (request_of running overdue stopped_exit) 9
        ≡ record_success new_circuit_breaker running.node_name)
    × ((e : ContextError) (x : String)
        → overdue.context.err ≡ some e
        → stopped_exit.exec_err ≡ some x
        → track_node whole_ops new_circuit_breaker (request_of running overdue stopped_exit) 9
          ≡ new_circuit_breaker)
track_node-request_of_example =
    track_node-request_of whole_ops new_circuit_breaker running overdue stopped_exit 9
