-- ===== src/Master/Gang/Ranks.antt =====
-- What tryDispatchGroup of internal/daemon/master.go does with the ranks of a group.
use tasch.Base.{
  ℤ, negsuc, ℕ, ◌+◌, String, Map, pos, none, some, List, [], ◌∷◌, ◌≡◌, ◌⊎◌, inl, inr, refl, ap,
  arith, Bool-cases, Option-cases, ◌==◌, lookup, insert, lookup-insert, eq_iff,
}
use mathlib.Core.List.{Memᴰ}
use tasch.Jobs.{Job, JobState, is_queued}
use tasch.Scheduler.{GlobalScheduler, remove_by_id, remove_index}
use tasch.Scheduler.Moves.{mark_running}
use tasch.Scheduler.Lifecycle.{mark_running_lem}
use tasch.Tracker.{GpuTracker}
use tasch.Master.{Server, DispatchPayload, append_log, send, allocate_job}
use tasch.Master.Resources.{Cluster, Member}
use tasch.Master.Dispatch.{dispatch_job, execute_payload}
use tasch.Master.Dispatch.Env.{dispatch_env_keeps}
use tasch.Master.Gang.{dispatch_rank, dispatch_ranks}
use tasch.Master.Gang.Matching.{Assigned, all_placed, place}

-- An order to run a job on a node, with the address of rank 0.
pub record IsOrder (addr : String) (job : Job) (m : Member) (payload : DispatchPayload)
    : Type 0 where
  pub target : payload.target_node ≡ m.name
  pub id : payload.job_id ≡ job.id
  pub command : payload.command ≡ job.command
  pub walltime : payload.walltime_seconds ≡ job.walltime_seconds
  pub action : payload.action ≡ "execute"
  pub address : lookup "MASTER_ADDR" payload.env_vars ≡ some addr

-- One order is sent for each job and its node, and no other; the latest stands first.
pub data Ordered (addr : String)
    : List Job → List Member → List DispatchPayload → List DispatchPayload → Type 0 where
  all_sent : {old : List DispatchPayload} → Ordered addr [] [] old old
  order :
      {job : Job} {jobs : List Job} {m : Member} {ms : List Member} {payload : DispatchPayload}
      {old new : List DispatchPayload}
      → IsOrder addr job m payload
      → Ordered addr jobs ms (payload ∷ old) new
      → Ordered addr (job ∷ jobs) (m ∷ ms) old new

-- A job with this id, if one is registered, is RUNNING.
abbrev pub IsRunning : GlobalScheduler → String → Type 0
IsRunning s id =
    (lookup id s.jobs ≡ none)
    ⊎ ((p : ℕ) × (lookup id s.jobs ≡ some p) × ((s.mem p).state ≡ JobState.running))

-- Each job is RUNNING and waits for the acknowledgement of its start.
pub data AllStarted {F : Type 0} (now : ℕ) (srv : Server F) : List Job → Type 0 where
  no_job : AllStarted now srv []
  started :
      {job : Job} {jobs : List Job}
      → lookup job.id srv.dispatch_pending ≡ some now
      → IsRunning srv.queue job.id
      → AllStarted now srv jobs
      → AllStarted now srv (job ∷ jobs)

remove_index_lem :
    (s : GlobalScheduler) (i : ℤ)
    → ((remove_index s i).mem ≡ s.mem) × ((remove_index s i).jobs ≡ s.jobs)
unfolding remove_index
remove_index_lem s (pos i) = ground arith
remove_index_lem s (negsuc i) = (refl, refl)

remove_by_id_lem :
    (s : GlobalScheduler) (id : String)
    → ((remove_by_id s id).0.mem ≡ s.mem) × ((remove_by_id s id).0.jobs ≡ s.jobs)
unfolding remove_by_id
remove_by_id_lem s id = elim (Option-cases (lookup id s.jobs)) [
  | inl missing ↦ rw (missing, remove_by_id) (refl, refl)
  | inr (p, known) ↦ elim (Bool-cases (is_queued (s.mem p).state)) [
    | inl waits ↦ rw (known, waits, remove_by_id) (remove_index_lem s (s.queue.index p))
    | inr other ↦ rw (known, other, remove_by_id) (refl, refl)
  ]
]

mark_running-IsRunning :
    (s : GlobalScheduler) (id node : String) (now : ℕ) → IsRunning (mark_running s id node now) id
unfolding mark_running
mark_running-IsRunning s id node now = elim (Option-cases (lookup id s.jobs)) [
  | inl missing ↦ inl (rw (missing, mark_running) missing)
  | inr (p, known) ↦
      let (written, others, queue, jobs) = mark_running_lem s id node now p known in
      inr (p, rw jobs known, ap (λ (j : Job). j.state) written)
]

mark_running_keeps :
    (s : GlobalScheduler) (id node other : String) (now : ℕ)
    → IsRunning s other
    → IsRunning (mark_running s id node now) other
unfolding mark_running
mark_running_keeps s id node other now runs = elim (Option-cases (lookup id s.jobs)) [
  | inl missing ↦ rw (missing, mark_running) runs
  | inr (p, known) ↦
      let (written, others, queue, jobs) = mark_running_lem s id node now p known in
      elim runs [
        | inl none_there ↦ inl (rw jobs none_there)
        | inr (r, there, is_on) ↦ inr (
          r,
          rw jobs there,
          elim (Bool-cases (p == r)) [
            | inl same ↦
                let e : p ≡ r = ground arith in rw (← e) (ap (λ (j : Job). j.state) written)
            | inr apart ↦ rw (others r (ground arith)) is_on
          ],
        )
      ]
]

remove_by_id_keeps :
    (s : GlobalScheduler) (id other : String)
    → IsRunning s other
    → IsRunning (remove_by_id s id).0 other
remove_by_id_keeps s id other runs =
    let (mem, jobs) = remove_by_id_lem s id in
    elim runs [
      | inl none_there ↦ inl (rw jobs none_there)
      | inr (r, there, is_on) ↦ inr (r, rw jobs there, rw mem is_on)
    ]

rank-IsOrder :
    (c : Cluster) (addr : String) (job : Job) (env : Map String) (m : Member)
    → IsOrder addr job m
        (execute_payload c (record job { env_vars = some (insert "MASTER_ADDR" addr env) }) m.name)
unfolding execute_payload
rank-IsOrder c addr job env m = record {
  target = refl;
  id = refl;
  command = refl;
  walltime = refl;
  action = refl;
  address =
      dispatch_env_keeps c (record job { env_vars = some (insert "MASTER_ADDR" addr env) }) m.name
        "MASTER_ADDR" addr (insert "MASTER_ADDR" addr env) refl
        (ground (
          arith,
          lookup-insert "MASTER_ADDR" "MASTER_ADDR" addr env,
          eq_iff "MASTER_ADDR" "MASTER_ADDR",
        ));
}

module _ {F : Type 0} (c : Cluster) (addr : String) (now : ℕ) where
  AllStarted-rank :
      (srv : Server F) (rank : ℕ) (job : Job) (env : Map String) (m : Member) (jobs : List Job)
      → AllStarted now srv jobs
      → AllStarted now (dispatch_rank c srv addr rank job env m now) jobs
  unfolding dispatch_rank dispatch_job append_log send allocate_job
  AllStarted-rank srv rank job env m [] no_job = no_job
  AllStarted-rank srv rank job env m (j ∷ jobs) (started waits runs rest) =
      started
        (ground
          (arith, lookup-insert j.id job.id now srv.dispatch_pending, eq_iff job.id j.id, waits))
        (mark_running_keeps (remove_by_id srv.queue job.id).0 job.id m.name j.id now
          (remove_by_id_keeps srv.queue job.id j.id runs))
        (AllStarted-rank srv rank job env m jobs rest)

  -- What the ranks from one on come to: a panic at a job without variables, or all their orders.
  unfoldable pub RanksEnd : Server F → ℕ → List Job → List Member → Type 0
  RanksEnd srv rank jobs ms =
      ((job : Job) × Memᴰ job jobs
        × (job.env_vars ≡ none)
        × (dispatch_ranks c srv addr rank jobs ms now ≡ none))
      ⊎ ((srv' : Server F) × (dispatch_ranks c srv addr rank jobs ms now ≡ some srv')
          × Ordered addr jobs ms srv.sent srv'.sent
          × AllStarted now srv' jobs
          × ((js : List Job) → AllStarted now srv js → AllStarted now srv' js))

  pub ranks_end :
      {gt : GpuTracker} {used : List String} (srv : Server F) (rank : ℕ) (jobs : List Job)
      (ms : List Member)
      → Assigned c gt used jobs ms
      → RanksEnd srv rank jobs ms
  unfolding RanksEnd dispatch_ranks dispatch_rank dispatch_job append_log send allocate_job
  ranks_end srv rank [] [] all_placed = inr (srv, refl, all_sent, no_job, λ js kept. kept)
  ranks_end srv rank [] (m ∷ ms) misfit = elim misfit [ ]
  ranks_end srv rank (job ∷ jobs) [] misfit = elim misfit [ ]
  ranks_end srv rank (job ∷ jobs) (m ∷ ms) (place choice rest) = elim (Option-cases job.env_vars) [
    | inl bare ↦ inl (job, Memᴰ.head refl, bare, rw (bare, dispatch_ranks) refl)
    | inr (env, has) ↦
        let next = dispatch_rank c srv addr rank job env m now in
        elim (ranks_end next (rank + 1) jobs ms rest) [
          | inl (j, known, bare, panicked) ↦
              inl (j, Memᴰ.tail known, bare, rw (has, dispatch_ranks) panicked)
          | inr (srv', ends, sent, all_started, keeps) ↦
              let own : AllStarted now next (job ∷ []) =
                started
                  (ground (
                    arith,
                    lookup-insert job.id job.id now srv.dispatch_pending,
                    eq_iff job.id job.id,
                  ))
                  (mark_running-IsRunning (remove_by_id srv.queue job.id).0 job.id m.name now)
                  no_job in
              inr (
                srv',
                rw (has, dispatch_ranks) ends,
                order (rank-IsOrder c addr job env m) sent,
                join (keeps (job ∷ []) own) all_started,
                λ js kept. keeps js (AllStarted-rank srv rank job env m js kept),
              )
        ]
  ]
    where
      join :
          {srv' : Server F} {job : Job} {jobs : List Job}
          → AllStarted now srv' (job ∷ [])
          → AllStarted now srv' jobs
          → AllStarted now srv' (job ∷ jobs)
      join (started waits runs none_more) rest = started waits runs rest
