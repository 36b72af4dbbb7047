-- ===== src/Master/Gang/Together.antt =====
-- The ways in which tryDispatchGroup of internal/daemon/master.go ends.
use tasch.Base.{
  ℕ, pos, none, some, List, [], ◌∷◌, ◌≡◌, ◌≢◌, ◌⊎◌, inl, inr, refl, arith, Bool-cases, Option-cases,
  length, lookup, insert, eqb_ℤ, lookup-insert, eq_iff, String,
}
use mathlib.Core.List.{Memᴰ}
use tasch.Jobs.{Job, JobGroup, GroupState}
use tasch.Scheduler.{GlobalScheduler, notify_group_change}
use tasch.Scheduler.Views.{set_group_state}
use tasch.Breaker.{CircuitBreaker}
use tasch.Master.{Server}
use tasch.Master.Resources.{Cluster, Member}
use tasch.Master.Gang.{queued_jobs, match_nodes, dispatch_group, try_dispatch_group}
use tasch.Master.Gang.Matching.{Assigned, all_placed, match_nodes-Assigned}
use tasch.Master.Gang.Stuck.{Stuck, unasked, match_nodes-Stuck}
use tasch.Master.Gang.Ranks.{Ordered, AllStarted, no_job, started, RanksEnd, ranks_end}

-- A group with this id, if one is registered, is RUNNING.
abbrev pub IsGroupRunning : GlobalScheduler → String → Type 0
IsGroupRunning s group_id =
    (lookup group_id s.groups ≡ none)
    ⊎ ((g : JobGroup) × (lookup group_id s.groups ≡ some g) × (g.state ≡ GroupState.running))

set_group_state_lem :
    (s : GlobalScheduler) (group_id : String)
    → let s' = set_group_state s group_id GroupState.running in
      (s'.mem ≡ s.mem) × (s'.jobs ≡ s.jobs) × IsGroupRunning s' group_id
unfolding set_group_state notify_group_change
set_group_state_lem s group_id = elim (Option-cases (lookup group_id s.groups)) [
  | inl missing ↦ rw (missing, set_group_state) (refl, refl, inl missing)
  | inr (g, known) ↦
      let g' : JobGroup = record g { state = GroupState.running } in
      let own : lookup group_id (insert group_id g' s.groups) ≡ some g' =
        ground (arith, lookup-insert group_id group_id g' s.groups, eq_iff group_id group_id) in
      elim (Bool-cases s.on_group_change) [
        | inl on ↦ rw (known, on, set_group_state) (refl, refl, inr (g', own, refl))
        | inr off ↦ rw (known, off, set_group_state) (refl, refl, inr (g', own, refl))
      ]
]

module _ {F : Type 0} where
  AllStarted-group :
      (now : ℕ) (srv : Server F) (group_id : String) (jobs : List Job)
      → AllStarted now srv jobs
      → AllStarted now
          (record srv { queue = set_group_state srv.queue group_id GroupState.running })
          jobs
  AllStarted-group now srv group_id [] no_job = no_job
  AllStarted-group now srv group_id (job ∷ jobs) (started waits runs rest) =
      let (mem, jobs_kept, group) = set_group_state_lem srv.queue group_id in
      started waits
        (elim runs [
          | inl missing ↦ inl (rw jobs_kept missing)
          | inr (p, known, on) ↦ inr (p, rw jobs_kept known, rw mem on)
        ])
        (AllStarted-group now srv group_id jobs rest)

  -- All ranks have their orders, and the group is RUNNING.
  pub record Together (c : Cluster) (srv : Server F) (group : JobGroup) (now : ℕ) (srv' : Server F)
      : Type 0 where
    pub first : Member
    pub others : List Member
    pub assigned :
        Assigned c srv.gpu_tracker [] (queued_jobs srv.queue group.job_ids) (first ∷ others)
    pub orders :
        Ordered first.addr (queued_jobs srv.queue group.job_ids) (first ∷ others) srv.sent srv'.sent
    pub all_started : AllStarted now srv' (queued_jobs srv.queue group.job_ids)
    pub running : IsGroupRunning srv'.queue group.group_id

  GroupEnd : Cluster → Server F → JobGroup → ℕ → Type 0
  GroupEnd c srv group now =
      let jobs = queued_jobs srv.queue group.job_ids in
      (((jobs ≡ []) ⊎ ((job : Job) × Memᴰ job jobs × (job.env_vars ≡ none)))
        × (try_dispatch_group c srv group now ≡ none))
      ⊎ ((srv' : Server F) × (try_dispatch_group c srv group now ≡ some srv')
          × Together c srv group now srv')

  matched_end :
      (c : Cluster) (srv : Server F) (group : JobGroup) (now : ℕ) (cb : CircuitBreaker)
      (jobs : List Job) (ms : List Member)
      → queued_jobs srv.queue group.job_ids ≡ jobs
      → try_dispatch_group c srv group now
        ≡ dispatch_group c (record srv { cb = cb }) group jobs ms now
      → Assigned c srv.gpu_tracker [] jobs ms
      → GroupEnd c srv group now
  unfolding GroupEnd dispatch_group RanksEnd
  matched_end c srv group now cb [] [] e up all_placed = inl (inl e, up)
  matched_end c srv group now cb [] (m ∷ ms) e up misfit = elim misfit [ ]
  matched_end c srv group now cb (job ∷ jobs) [] e up misfit = elim misfit [ ]
  matched_end c srv group now cb (job ∷ jobs) (m ∷ ms) e up assigned =
      elim (ranks_end c m.addr now (record srv { cb = cb }) 0 (job ∷ jobs) (m ∷ ms) assigned) [
        | inl (j, known, bare, panicked) ↦
            inl (inr (j, rw e known, bare), rw (up, dispatch_group, panicked) refl)
        | inr (srv', ends, orders, all_started, keeps) ↦
            let done = record srv' {
              queue = set_group_state srv'.queue group.group_id GroupState.running;
            } in
            inr (
              done,
              rw (up, dispatch_group, ends) refl,
              record {
                first = m;
                others = ms;
                assigned = rw e assigned;
                orders = rw e orders;
                all_started =
                    rw e (AllStarted-group now srv' group.group_id (job ∷ jobs) all_started);
                running = (set_group_state_lem srv'.queue group.group_id).2;
              },
            )
      ]

  -- tryDispatchGroup of a group. Where not every rank is QUEUED it changes nothing. Where the first ranks
  -- have nodes of their own and for the next of them every member is taken, without advertisement,
  -- blocked or too small, it changes the circuit breaker alone. Else it panics, and does so only with no
  -- rank at all or with a rank that has no map of variables; or each rank has a node of its own that
  -- fits, one order is sent for each rank to its node with the address of rank 0, and no other; each rank
  -- waits for the acknowledgement of its start and is RUNNING if it is registered, and so is the group.
  pub try_dispatch_group_cases :
      (c : Cluster) (srv : Server F) (group : JobGroup) (now : ℕ)
      → let jobs = queued_jobs srv.queue group.job_ids in
        ((pos (length jobs) ≢ group.num_nodes) × (try_dispatch_group c srv group now ≡ some srv))
        ⊎ ((cb : CircuitBreaker) × (pos (length jobs) ≡ group.num_nodes)
            × Stuck c srv.gpu_tracker now srv.cb [] jobs
            × (try_dispatch_group c srv group now ≡ some (record srv { cb = cb })))
        ⊎ ((pos (length jobs) ≡ group.num_nodes)
            × ((jobs ≡ []) ⊎ ((job : Job) × Memᴰ job jobs × (job.env_vars ≡ none)))
            × (try_dispatch_group c srv group now ≡ none))
        ⊎ ((srv' : Server F) × (pos (length jobs) ≡ group.num_nodes)
            × (try_dispatch_group c srv group now ≡ some srv')
            × Together c srv group now srv')
  unfolding try_dispatch_group GroupEnd
  try_dispatch_group_cases c srv group now =
      let jobs = queued_jobs srv.queue group.job_ids in
      let found = match_nodes c srv.gpu_tracker now srv.cb [] jobs in
      elim (Bool-cases (eqb_ℤ (pos (length jobs)) group.num_nodes)) [
        | inr short ↦ inl (λ e. ground arith, rw (try_dispatch_group, short) refl)
        | inl all_queued ↦ elim (Option-cases found.1) [
          | inl stuck ↦ inr (
              inl (
                found.0,
                ground arith,
                match_nodes-Stuck c srv.gpu_tracker now srv.cb srv.cb [] jobs unasked stuck,
                rw (try_dispatch_group, all_queued, stuck) refl,
              ))
          | inr (ms, matched) ↦
              let up : try_dispatch_group c srv group now
                  ≡ dispatch_group c (record srv { cb = found.0 }) group jobs ms now =
                rw (try_dispatch_group, all_queued, matched) refl in
              elim (matched_end c srv group now found.0 jobs ms refl up
                (match_nodes-Assigned c srv.gpu_tracker now srv.cb [] jobs ms matched)) [
                  | inl (why, panicked) ↦ inr (inr (inl (ground arith, why, panicked)))
                  | inr (srv', ends, together) ↦
                      inr (inr (inr (srv', ground arith, ends, together)))
                ]
        ]
      ]
