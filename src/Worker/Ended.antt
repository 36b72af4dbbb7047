-- ===== src/Worker/Ended.antt =====
-- A run whose context has ended keeps the reason in every step of the worker.
use tasch.Base.{
  ℕ, ◌<◌, ◌≡◌, inl, inr, String, Option, none, some, Bool, true, false, Bool-cases, Option-cases,
  lookup, arith, ◌||◌, str_eq,
}
use tasch.Master.{DispatchPayload}
use tasch.Worker.{
  Worker, Phase, acknowledging, prepared, executing, reporting, ended, ContextError, canceled,
  put_run, end_context, end_run_context, cancel_run, spawn, handle, receive, make_context, register,
  Exit, finish_run, clean_up,
}
use tasch.Worker.Reach.{
  Step, receives, prepares, registers, expires, exits, cleans, Reach, here, next, job_of,
}

abbrev pub waits : Phase → Bool
waits acknowledging = true
waits prepared = false
waits executing = false
waits reporting = false
waits ended = false

-- The run is of the job `id`, and has its context, which has ended for the reason `e`.
pub record IsEnded (w : Worker) (r : ℕ) (id : String) (e : ContextError) : Type 0 where
  pub inside : r < w.started
  pub made : waits (w.runs r).phase ≡ false
  pub job : job_of w r ≡ id
  pub reason : (w.runs r).context.err ≡ some e

-- A context that has ended keeps its reason, whatever step comes.
module _ (w : Worker) (r : ℕ) (id : String) (e : ContextError) (d : IsEnded w r id e) where
  spawn-IsEnded : (p : DispatchPayload) → IsEnded (spawn w p) r id e
  unfolding spawn put_run
  spawn-IsEnded p = record {
    inside = omega (arith, d.inside);
    made = ground (arith, d.inside, d.made);
    job = ground (arith, d.inside, d.job);
    reason = ground (arith, d.inside, d.reason);
  }

  end_run_context-IsEnded : (x : ContextError) (k : ℕ) → IsEnded (end_run_context w x k) r id e
  unfolding end_run_context put_run end_context
  end_run_context-IsEnded x k = record {
    inside = d.inside;
    made = ground (arith, d.made);
    job = ground (arith, d.job);
    reason = ground (arith, d.reason);
  }

  make_context-IsEnded :
      (k : ℕ) → (w.runs k).phase ≡ acknowledging → IsEnded (make_context w k) r id e
  unfolding make_context put_run
  make_context-IsEnded k h = record {
    inside = d.inside;
    made = ground (arith, d.made);
    job = ground (arith, d.made, d.job);
    reason = ground (arith, d.made, d.reason);
  }

  register-IsEnded : (k : ℕ) → IsEnded (register w k) r id e
  unfolding register put_run
  register-IsEnded k = record {
    inside = d.inside;
    made = ground (arith, d.made);
    job = ground (arith, d.job);
    reason = ground (arith, d.reason);
  }

  finish_run-IsEnded : (k : ℕ) (exit : Exit) → IsEnded (finish_run w k exit) r id e
  unfolding finish_run put_run
  finish_run-IsEnded k exit = record {
    inside = d.inside;
    made = ground (arith, d.made);
    job = ground (arith, d.job);
    reason = ground (arith, d.reason);
  }

  clean_up-IsEnded : (k : ℕ) → IsEnded (clean_up w k) r id e
  unfolding clean_up end_run_context put_run end_context
  clean_up-IsEnded k = record {
    inside = d.inside;
    made = ground (arith, d.made);
    job = ground (arith, d.job);
    reason = ground (arith, d.reason);
  }

  receive-IsEnded : (decoded : Option DispatchPayload) → IsEnded (receive w decoded) r id e
  unfolding receive handle cancel_run
  receive-IsEnded none = d
  receive-IsEnded (some p) = elim (Bool-cases (str_eq p.target_node w.node_name)) [
    | inr other ↦ rw other d
    | inl own ↦ elim (Bool-cases (str_eq p.action "cancel")) [
      | inl cancels ↦ elim (Option-cases (lookup p.job_id w.cancel_funcs)) [
        | inl missing ↦ rw (own, cancels, cancel_run, missing) d
        | inr (k, found) ↦ rw (own, cancels, cancel_run, found) (end_run_context-IsEnded canceled k)
      ]
      | inr more ↦ elim (Bool-cases (str_eq p.action "execute" || str_eq p.action "")) [
        | inl executes ↦ rw (own, more, executes) (spawn-IsEnded p)
        | inr unread ↦ rw (own, more, unread) d
      ]
    ]
  ]

Step-IsEnded :
    {w u : Worker} (r : ℕ) (id : String) (e : ContextError)
    → Step w u
    → IsEnded w r id e
    → IsEnded u r id e
Step-IsEnded {w} r id e (receives decoded) d = receive-IsEnded w r id e d decoded
Step-IsEnded {w} r id e (prepares k h a) d = make_context-IsEnded w r id e d k a
Step-IsEnded {w} r id e (registers k h a) d = register-IsEnded w r id e d k
Step-IsEnded {w} r id e (expires k t h a) d =
    end_run_context-IsEnded w r id e d ContextError.deadline_exceeded k
Step-IsEnded {w} r id e (exits k exit h a) d = finish_run-IsEnded w r id e d k exit
Step-IsEnded {w} r id e (cleans k h a) d = clean_up-IsEnded w r id e d k

pub Reach-IsEnded :
    {w u : Worker} (r : ℕ) (id : String) (e : ContextError)
    → Reach w u
    → IsEnded w r id e
    → IsEnded u r id e
Reach-IsEnded r id e here d = d
Reach-IsEnded r id e (next s st) d = Step-IsEnded r id e st (Reach-IsEnded r id e s d)
