-- ===== src/Worker/Cancels.antt =====
-- What an order to cancel does to the runs of a worker.
use tasch.Base.{
  ℕ, ◌<◌, ◌≡◌, ◌≢◌, ◌⊎◌, inl, inr, refl, sym, ap, ◌∙◌, String, none, some, true, false,
  Option-cases, lookup, lookup-delete, arith, eq_iff, str_eq,
}
use tasch.Master.{DispatchPayload}
use tasch.Master.Report.{ReportResultRequest}
use tasch.Worker.{
  Worker, acknowledging, prepared, ContextError, canceled, put_run, end_context, end_run_context,
  cancel_run, handle, receive, Exit, finish_run, clean_up, request_of, error_message,
}
use tasch.Worker.Ended.{IsEnded, Reach-IsEnded}
use tasch.Worker.Reach.{Reach, IsSound, IsOnce, IsLive, job_of}

-- A message to this worker to cancel a job.
pub record Cancels (w : Worker) (p : DispatchPayload) : Type 0 where
  pub here : p.target_node ≡ w.node_name
  pub cancels : p.action ≡ "cancel"

receive_cancel :
    (w : Worker) (p : DispatchPayload) → Cancels w p → receive w (some p) ≡ cancel_run w p.job_id
unfolding receive handle
receive_cancel w p c =
    let own : str_eq p.target_node w.node_name ≡ true =
      (eq_iff p.target_node w.node_name).1 c.here in
    let cancels : str_eq p.action "cancel" ≡ true = (eq_iff p.action "cancel").1 c.cancels in
    rw (receive, own, handle, cancels) refl

-- The context of one run is done, for an order to cancel if nothing ended it before; nothing else
-- has changed.
pub record Ended (w : Worker) (r : ℕ) (u : Worker) : Type 0 where
  pub done : ((w.runs r).context.err ≡ none) → (u.runs r).context.err ≡ some canceled
  pub kept : (e : ContextError) → (w.runs r).context.err ≡ some e → (u.runs r).context.err ≡ some e
  pub phase : (u.runs r).phase ≡ (w.runs r).phase
  pub others : (k : ℕ) → r ≢ k → u.runs k ≡ w.runs k
  pub funcs : u.cancel_funcs ≡ w.cancel_funcs
  pub count : u.started ≡ w.started

end_run_context-Ended : (w : Worker) (r : ℕ) → Ended w r (end_run_context w canceled r)
unfolding end_run_context put_run end_context
end_run_context-Ended w r = record {
  done = λ e. ground arith;
  kept = λ x e. ground arith;
  phase = ground arith;
  others = λ k apart. ground arith;
  funcs = refl;
  count = refl;
}

-- In a sound state an order to cancel a job that no registered run is of changes nothing. Else it
-- ends the context of one run, which is of that job and runs or reports, and of no other.
pub receive_cancel_cases :
    (w : Worker) (p : DispatchPayload)
    → IsSound w
    → Cancels w p
    → ((lookup p.job_id w.cancel_funcs ≡ none) × (receive w (some p) ≡ w))
      ⊎ ((r : ℕ) × (r < w.started)
          × (job_of w r ≡ p.job_id)
          × IsLive w r
          × Ended w r (receive w (some p)))
unfolding cancel_run
receive_cancel_cases w p v c = elim (Option-cases (lookup p.job_id w.cancel_funcs)) [
  | inl missing ↦ inl (missing, receive_cancel w p c ∙ rw (cancel_run, missing) refl)
  | inr (r, found) ↦
      let (a, b, l) = v.leads_to p.job_id r found in
      inr (r, a, b, l, rw (receive_cancel w p c, cancel_run, found) (end_run_context-Ended w r))
]

-- An order to cancel a job whose only run has no cancel function registered yet is lost: the state
-- does not change.
pub early_cancel_lost :
    (w : Worker) (p : DispatchPayload) (r : ℕ)
    → IsSound w
    → IsOnce w
    → Cancels w p
    → r < w.started
    → job_of w r ≡ p.job_id
    → ((w.runs r).phase ≡ acknowledging) ⊎ ((w.runs r).phase ≡ prepared)
    → receive w (some p) ≡ w
early_cancel_lost w p r v once c h own early = elim (receive_cancel_cases w p v c) [
  | inl (missing, same) ↦ same
  | inr (k, a, b, l, e) ↦
      let same : k ≡ r = once k r a h (b ∙ sym own) in
      elim early [ inl waits ↦ ground arith | inr waits ↦ ground arith ]
]

-- When the first of two runs of a job ends, the cancel function of the other goes with it: the
-- other still runs, and an order to cancel the job changes nothing.
pub clean_up_forgets :
    (w : Worker) (p : DispatchPayload) (r k : ℕ)
    → r ≢ k
    → IsLive w k
    → job_of w r ≡ p.job_id
    → job_of w k ≡ p.job_id
    → Cancels (clean_up w r) p
    → IsLive (clean_up w r) k × (receive (clean_up w r) (some p) ≡ clean_up w r)
unfolding clean_up end_run_context put_run cancel_run
clean_up_forgets w p r k apart l own other c = (
  ground arith,
  let missing : lookup p.job_id (clean_up w r).cancel_funcs ≡ none =
        ground (
          arith,
          lookup-delete p.job_id (job_of w r) w.cancel_funcs,
          eq_iff (job_of w r) p.job_id,
        ) in
      receive_cancel (clean_up w r) p c ∙ rw (cancel_run, missing) refl,
)

-- The order to cancel reaches the only run of its job, which runs or reports.
cancel-IsEnded :
    (w : Worker) (p : DispatchPayload) (r : ℕ)
    → IsSound w
    → IsOnce w
    → Cancels w p
    → r < w.started
    → job_of w r ≡ p.job_id
    → IsLive w r
    → (w.runs r).context.err ≡ none
    → IsEnded (receive w (some p)) r p.job_id canceled
unfolding end_run_context put_run cancel_run
cancel-IsEnded w p r v once c h own l open_context =
    let found : lookup p.job_id w.cancel_funcs ≡ some r =
      ap (λ id. lookup id w.cancel_funcs) (sym own) ∙ v.registered once r h l in
    let same : receive w (some p) ≡ end_run_context w canceled r =
      receive_cancel w p c ∙ rw (cancel_run, found) refl in
    let e = end_run_context-Ended w r in
    rw same (record {
      inside = h;
      made = ground (arith, e.phase);
      job = ground (arith, own);
      reason = e.done open_context;
    })

-- In a sound state without two runs of one job, an order to cancel a job whose run runs or reports and
-- whose context has not ended: whatever steps follow, when the run's process then ends with an
-- error, what is reported of the job is a failure with the error "cancelled".
pub cancelled_run_reports :
    (w u : Worker) (p : DispatchPayload) (r : ℕ) (exit : Exit) (x : String)
    → IsSound w
    → IsOnce w
    → Cancels w p
    → r < w.started
    → job_of w r ≡ p.job_id
    → IsLive w r
    → (w.runs r).context.err ≡ none
    → Reach (receive w (some p)) u
    → exit.exec_err ≡ some x
    → (req : ReportResultRequest) × (((finish_run u r exit).runs r).request ≡ some req)
      × (req.job_id ≡ p.job_id)
      × (req.success ≡ false)
      × (req.error ≡ "cancelled")
unfolding finish_run put_run request_of error_message
cancelled_run_reports w u p r exit x v once c h own l open_context reach failed =
    let d =
      Reach-IsEnded r p.job_id canceled reach
        (cancel-IsEnded w p r v once c h own l open_context) in
    (
      request_of u (u.runs r) exit,
      ground arith,
      d.job,
      rw (failed, request_of) refl,
      rw (failed, d.reason, request_of) refl,
    )
