-- ===== src/Worker/Sound.antt =====
-- What holds of the worker's goroutines in every order of their steps.
use tasch.Base.{
  ℕ, ◌<◌, ◌≡◌, inl, inr, refl, sym, ◌∙◌, String, Option, none, some, false, Bool-cases, ◌||◌,
  Option-cases, lookup, lookup-insert, lookup-delete, arith, eq_iff, ◌==◌, str_eq,
}
use tasch.Master.{DispatchPayload}
use tasch.Worker.{
  Worker, acknowledging, prepared, executing, reporting, ContextError, deadline_exceeded, canceled,
  put_run, end_run_context, cancel_run, spawn, handle, receive, make_context, register, Exit,
  finish_run, clean_up,
}
use tasch.Worker.Reach.{
  Step, receives, prepares, registers, expires, exits, cleans, Reach, here, next, new_worker,
  job_of, is_live, IsOnce, IsSound,
}

new-IsSound : (node : String) → IsSound (new_worker node)
unfolding new_worker lookup
new-IsSound node = record {
  leads_to = λ id r e. ground arith;
  registered = λ o r h. absurd (omega arith);
}

-- A step that moves no run of another job, and starts, ends and registers none.
record Keeps (w u : Worker) : Type 0 where
  funcs : u.cancel_funcs ≡ w.cancel_funcs
  count : u.started ≡ w.started
  job : (r : ℕ) → job_of u r ≡ job_of w r
  live : (r : ℕ) → is_live (u.runs r).phase ≡ is_live (w.runs r).phase

Keeps-IsSound : (w u : Worker) → Keeps w u → IsSound w → IsSound u
Keeps-IsSound w u k v = record {
  leads_to = λ id r e.
      let (a, b, c) = v.leads_to id r (rw k.funcs at e) in
      (rw k.count a, k.job r ∙ b, k.live r ∙ c);
  registered = λ o r h l.
      let once : IsOnce w =
        λ i j hi hj e. o i j (rw k.count hi) (rw k.count hj) (k.job i ∙ e ∙ sym (k.job j)) in
      rw (k.funcs, k.job r) (v.registered once r (rw k.count at h) (sym (k.live r) ∙ l));
}

end_run_context-Keeps : (w : Worker) (e : ContextError) (r : ℕ) → Keeps w (end_run_context w e r)
unfolding end_run_context put_run
end_run_context-Keeps w e r = record {
  funcs = refl;
  count = refl;
  job = λ k. ground arith;
  live = λ k. ground arith;
}

make_context-Keeps :
    (w : Worker) (r : ℕ) → (w.runs r).phase ≡ acknowledging → Keeps w (make_context w r)
unfolding make_context put_run
make_context-Keeps w r h = record {
  funcs = refl;
  count = refl;
  job = λ k. ground arith;
  live = λ k. ground arith;
}

finish_run-Keeps :
    (w : Worker) (r : ℕ) (exit : Exit)
    → (w.runs r).phase ≡ executing
    → Keeps w (finish_run w r exit)
unfolding finish_run put_run
finish_run-Keeps w r exit h = record {
  funcs = refl;
  count = refl;
  job = λ k. ground arith;
  live = λ k. ground arith;
}

spawn-IsSound : (w : Worker) (p : DispatchPayload) → IsSound w → IsSound (spawn w p)
unfolding spawn put_run
spawn-IsSound w p v = record {
  leads_to =
      λ id r e. let (a, b, c) = v.leads_to id r e in (omega arith, ground arith, ground arith);
  registered = λ o r h l.
      let fresh : (w.started == r) ≡ false = ground arith in
      let once : IsOnce w = λ i j hi hj e. o i j (omega arith) (omega arith) (ground arith) in
      ground (arith, v.registered once r (ground arith) (ground arith));
}

register-IsSound :
    (w : Worker) (r : ℕ)
    → r < w.started
    → (w.runs r).phase ≡ prepared
    → IsSound w
    → IsSound (register w r)
unfolding register put_run
register-IsSound w r h at_phase v = record {
  leads_to = λ id k e.
      let at = lookup-insert id (job_of w r) r w.cancel_funcs in
      elim (Bool-cases (str_eq (job_of w r) id)) [
        | inl own ↦ (ground arith, ground (arith, eq_iff (job_of w r) id), ground arith)
        | inr other ↦
            let (a, b, c) = v.leads_to id k (ground arith) in (a, ground arith, ground arith)
      ];
  registered = λ o k hk l.
      let at = lookup-insert (job_of w k) (job_of w r) r w.cancel_funcs in
      elim (Bool-cases (r == k)) [
        | inl own ↦ ground (arith, at, eq_iff (job_of w r) (job_of w k))
        | inr other ↦
            let once : IsOnce w =
              λ i j hi hj e. o i j (ground arith) (ground arith) (ground arith) in
            ground (
              arith,
              at,
              eq_iff (job_of w r) (job_of w k),
              once r k h hk,
              v.registered once k hk (ground arith),
            )
      ];
}

clean_up-IsSound :
    (w : Worker) (r : ℕ)
    → r < w.started
    → (w.runs r).phase ≡ reporting
    → IsSound w
    → IsSound (clean_up w r)
unfolding clean_up end_run_context put_run
clean_up-IsSound w r h at_phase v = record {
  leads_to = λ id k e.
      let at = lookup-delete id (job_of w r) w.cancel_funcs in
      let (a, b, c) = v.leads_to id k (ground arith) in
      (a, ground arith, ground (arith, eq_iff (job_of w r) id));
  registered = λ o k hk l.
      let at = lookup-delete (job_of w k) (job_of w r) w.cancel_funcs in
      let once : IsOnce w = λ i j hi hj e. o i j (ground arith) (ground arith) (ground arith) in
      ground (
        arith,
        at,
        eq_iff (job_of w r) (job_of w k),
        once r k h hk,
        v.registered once k hk (ground arith),
      );
}

handle-IsSound : (w : Worker) (p : DispatchPayload) → IsSound w → IsSound (handle w p)
unfolding handle cancel_run
handle-IsSound w p v = elim (Bool-cases (str_eq p.action "cancel")) [
  | inl cancels ↦ elim (Option-cases (lookup p.job_id w.cancel_funcs)) [
    | inl missing ↦ rw (cancels, cancel_run, missing) v
    | inr (r, found) ↦
        rw (cancels, cancel_run, found) (Keeps-IsSound w _ (end_run_context-Keeps w canceled r) v)
  ]
  | inr other ↦ elim (Bool-cases (str_eq p.action "execute" || str_eq p.action "")) [
    | inl executes ↦ rw (other, executes) (spawn-IsSound w p v)
    | inr unread ↦ rw (other, unread) v
  ]
]

pub receive-IsSound :
    (w : Worker) (decoded : Option DispatchPayload) → IsSound w → IsSound (receive w decoded)
unfolding receive
receive-IsSound w none v = v
receive-IsSound w (some p) v = elim (Bool-cases (str_eq p.target_node w.node_name)) [
  | inl own ↦ rw own (handle-IsSound w p v)
  | inr other ↦ rw other v
]

Step-IsSound : {w u : Worker} → Step w u → IsSound w → IsSound u
Step-IsSound {w} (receives decoded) v = receive-IsSound w decoded v
Step-IsSound {w} (prepares r h e) v = Keeps-IsSound w _ (make_context-Keeps w r e) v
Step-IsSound {w} (registers r h e) v = register-IsSound w r h e v
Step-IsSound {w} (expires r t h e) v =
    Keeps-IsSound w _ (end_run_context-Keeps w deadline_exceeded r) v
Step-IsSound {w} (exits r exit h e) v = Keeps-IsSound w _ (finish_run-Keeps w r exit e) v
Step-IsSound {w} (cleans r h e) v = clean_up-IsSound w r h e v

-- In every order of the goroutines' steps and of messages, from a worker that has just started: a
-- registered cancel function is that of a run of the job it stands under, which runs or reports; and
-- while no two runs are of one job, every run that runs or reports is registered.
pub Reach-new-IsSound : (node : String) (w : Worker) → Reach (new_worker node) w → IsSound w
Reach-new-IsSound node w here = new-IsSound node
Reach-new-IsSound node w (next r st) = Step-IsSound st (Reach-new-IsSound node _ r)
