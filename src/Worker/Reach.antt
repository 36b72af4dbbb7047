-- ===== src/Worker/Reach.antt =====
-- The worker's goroutines in every order of their steps, and what is sound of a state.
use tasch.Base.{ℕ, ◌<◌, ◌≡◌, String, ℤ, Option, none, some, [], Bool, true, false, lookup}
use tasch.Master.{DispatchPayload}
use tasch.Worker.{
  Worker, Run, Phase, acknowledging, prepared, executing, reporting, ended, deadline_exceeded,
  background, end_run_context, receive, make_context, register, Exit, finish_run, clean_up,
}

-- One step: the loop takes a message, a goroutine comes to its next step, or a walltime runs out.
pub data Step (w : Worker) : Worker → Type 0 where
  receives : (decoded : Option DispatchPayload) → Step w (receive w decoded)
  prepares : (r : ℕ) → r < w.started → (w.runs r).phase ≡ acknowledging → Step w (make_context w r)
  registers : (r : ℕ) → r < w.started → (w.runs r).phase ≡ prepared → Step w (register w r)
  expires :
      (r : ℕ) (t : ℤ)
      → r < w.started
      → (w.runs r).context.timeout ≡ some t
      → Step w (end_run_context w deadline_exceeded r)
  exits :
      (r : ℕ) (exit : Exit)
      → r < w.started
      → (w.runs r).phase ≡ executing
      → Step w (finish_run w r exit)
  cleans : (r : ℕ) → r < w.started → (w.runs r).phase ≡ reporting → Step w (clean_up w r)

pub data Reach (w : Worker) : Worker → Type 0 where
  here : Reach w w
  next : {v u : Worker} → Reach w v → Step v u → Reach w u

abbrev idle_run : Run
idle_run = record {
  payload = record {
    target_node = "";
    job_id = "";
    command = "";
    walltime_seconds = ℤ.pos 0;
    action = "";
    env_vars = [];
  };
  phase = acknowledging;
  context = background;
  request = none;
}

-- A worker that has just started.
unfoldable pub new_worker : String → Worker
new_worker node = record { node_name = node; cancel_funcs = []; runs = λ _. idle_run; started = 0 }

abbrev pub job_of : Worker → ℕ → String
job_of w r = (w.runs r).payload.job_id

abbrev pub is_live : Phase → Bool
is_live executing = true
is_live reporting = true
is_live acknowledging = false
is_live prepared = false
is_live ended = false

-- The process runs or its report is under way.
abbrev pub IsLive : Worker → ℕ → Type 0
IsLive w r = is_live (w.runs r).phase ≡ true

-- No two runs are of one job.
abbrev pub IsOnce : Worker → Type 0
IsOnce w = (r k : ℕ) → r < w.started → k < w.started → job_of w r ≡ job_of w k → r ≡ k

pub record IsSound (w : Worker) : Type 0 where
  -- Who is registered runs, under the id of its own job.
  pub leads_to :
      (id : String) (r : ℕ)
      → lookup id w.cancel_funcs ≡ some r
      → (r < w.started) × (job_of w r ≡ id) × IsLive w r
  -- Without two runs of one job, who runs is registered.
  pub registered :
      IsOnce w → (r : ℕ) → r < w.started → IsLive w r → lookup (job_of w r) w.cancel_funcs ≡ some r
