-- ===== src/Worker.antt =====
-- The worker of internal/daemon/worker.go: what it does with a message, and the goroutine that each
-- order to execute starts, cut where other goroutines can come between. The decoding of a message and
-- the process with its end are arguments. Printing is left out.
pub mod Reach
pub mod Sound
pub mod Ended
pub mod Cancels
pub mod Retry
pub mod Subscribe
pub mod Start
pub mod Verdict
use Prim.Native.Nat.{◌^◌, ◌%◌}
use tasch.Base.{
  ℕ, suc, ◌-◌, ◌*◌, String, ℤ, pos, negsuc, Bool, true, false, ◌||◌, Option, none, some, List, [],
  ◌∷◌, ◌++◌, int64, Map, lookup, insert, delete, concat, ltb, ltb_ℤ, pos_part, ◌==◌, str_eq,
  if◌then◌else◌,
}
use tasch.Numbers.{int_text}
use tasch.Master.{DispatchPayload}
use tasch.Master.Report.{ReportResultRequest}

pub data ContextError : Type 0 where
  deadline_exceeded : ContextError
  canceled : ContextError

-- A context: the time that it was given, in nanoseconds, and why it is done, once it is.
pub record Context : Type 0 where
  pub timeout : Option ℤ
  pub err : Option ContextError

-- Where the goroutine of a job stands: before the acknowledgement, with a context that is not yet
-- known to cancelFuncs, with the process, with the report, or at its end.
pub data Phase : Type 0 where
  acknowledging : Phase
  prepared : Phase
  executing : Phase
  reporting : Phase
  ended : Phase

pub record Run : Type 0 where
  pub payload : DispatchPayload
  pub phase : Phase
  pub context : Context
  pub request : Option ReportResultRequest

-- `cancel_funcs` leads to the run whose cancel function is registered; runs are numbered as they start.
pub record Worker : Type 0 where
  pub node_name : String
  pub cancel_funcs : Map ℕ
  pub runs : ℕ → Run
  pub started : ℕ

abbrev pub background : Context
background = record { timeout = none; err = none }

unfoldable pub put_run : Worker → ℕ → Run → Worker
put_run w r run = record w { runs = λ k. if k == r then run else w.runs k }

-- A context that is done stays as it is.
unfoldable pub end_context : ContextError → Context → Context
end_context e c = elim c.err [ none ↦ record c { err = some e } | some old ↦ c ]

unfoldable pub end_run_context : Worker → ContextError → ℕ → Worker
end_run_context w e r =
    let run = w.runs r in put_run w r (record run { context = end_context e run.context })

-- `case "cancel"`
unfoldable pub cancel_run : Worker → String → Worker
cancel_run w job_id = elim (lookup job_id w.cancel_funcs) [
  | none ↦ w
  | some r ↦ end_run_context w ContextError.canceled r
]

-- `go func(p)`
unfoldable pub spawn : Worker → DispatchPayload → Worker
spawn w p =
    let run : Run = record {
      payload = p;
      phase = acknowledging;
      context = background;
      request = none;
    } in
    record (put_run w w.started run) { started = suc w.started }

unfoldable pub handle : Worker → DispatchPayload → Worker
handle w p =
    if str_eq p.action "cancel"
    then cancel_run w p.job_id
    else if str_eq p.action "execute" || str_eq p.action ""
    then spawn w p
    else w

-- The loop's body. `decoded` is what json.Unmarshal gives of the message.
unfoldable pub receive : Worker → Option DispatchPayload → Worker
receive w none = w
receive w (some p) = if str_eq p.target_node w.node_name then handle w p else w

-- `time.Duration(p.WalltimeSeconds) * time.Second`, for a walltime that is positive.
unfoldable pub job_context : DispatchPayload → Context
job_context p =
    if ltb_ℤ (pos 0) p.walltime_seconds
    then record { timeout = some (int64 (pos_part p.walltime_seconds * 10 ^ 9)); err = none }
    else background

-- After acknowledgeStart the context is made.
unfoldable pub make_context : Worker → ℕ → Worker
make_context w r =
    let run = w.runs r in
    put_run w r (record run { phase = prepared; context = job_context run.payload })

-- `cancelFuncs[p.JobID] = cf`
unfoldable pub register : Worker → ℕ → Worker
register w r =
    let run = w.runs r in
    record (put_run w r (record run { phase = executing })) {
      cancel_funcs = insert run.payload.job_id r w.cancel_funcs;
    }

-- The environment of the process: that of the worker, and the job's variables after it.
abbrev pub variable : String → String → String
variable k v = concat k (concat "=" v)

unfoldable pub append_vars : List String → Map String → List String
append_vars env [] = env
append_vars env ((k, v) ∷ vars) = append_vars (env ++ variable k v ∷ []) vars

-- `none` where cmd.Env is left unset, so that the process gets the worker's environment.
unfoldable pub command_env : List String → DispatchPayload → Option (List String)
command_env environ p = elim p.env_vars [
  | [] ↦ none
  | v ∷ vars ↦ some (append_vars environ (v ∷ vars))
]

-- What cmd.Run and the buffers give. The times of the run are left out: the master does not read them.
pub record Exit : Type 0 where
  pub exec_err : Option String
  pub stdout : String

unfoldable pub error_message : DispatchPayload → Option ContextError → Option String → String
error_message p err none = ""
error_message p (some deadline_exceeded) (some e) =
    concat "walltime exceeded (" (concat (int_text p.walltime_seconds) "s)")
error_message p (some canceled) (some e) = "cancelled"
error_message p none (some e) = e

unfoldable pub request_of : Worker → Run → Exit → ReportResultRequest
request_of w run exit = record {
  job_id = run.payload.job_id;
  worker_node = w.node_name;
  success = elim exit.exec_err [ none ↦ true | some e ↦ false ];
  output = exit.stdout;
  error = error_message run.payload run.context.err exit.exec_err;
}

-- cmd.Run has returned.
unfoldable pub finish_run : Worker → ℕ → Exit → Worker
finish_run w r exit =
    let run = w.runs r in
    put_run w r (record run { phase = reporting; request = some (request_of w run exit) })

-- reportWithRetry has returned: the deferred function.
unfoldable pub clean_up : Worker → ℕ → Worker
clean_up w r =
    let w₁ = end_run_context w ContextError.canceled r in
    let run = w₁.runs r in
    record (put_run w₁ r (record run { phase = ended })) {
      cancel_funcs = delete run.payload.job_id w₁.cancel_funcs;
    }
