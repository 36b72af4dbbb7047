-- ===== src/Master/Submit/Together.antt =====
-- SubmitDistributedJob of internal/daemon/master.go, where the queue has room for all ranks, and where it
-- has not.
use mathlib.Core.Path.{subst}
use tasch.Base.{
  ℕ, zero, suc, ◌+◌, ◌≤◌, ◌<◌, ◌≡◌, refl, sym, ◌∙◌, ◌⊎◌, inl, inr, String, true, false, ℤ, pos,
  negsuc, ◌≤ℤ◌, Option, none, some, List, [], ◌∷◌, Map, Bool-cases, count, lookup, insert,
  lookup-insert, ltb, leb, ◌&&◌, ◌==◌, arith, concat, itoa, if◌then◌else◌,
}
use tasch.Jobs.{Job, JobState, JobGroup, GroupState}
use tasch.Master
use tasch.Master.{Server, append_log, info}
use tasch.Master.Submit.{
  SubmitJobRequest, Distributed, submit_ranks, rank_count, rank_id, rank_ids, rank_env, env_entries,
  default_port, itoa_int, new_job, default_priority, submit_distributed_job, distribute_accepting,
  new_group, Submitted, accepted, exhausted,
}
use tasch.Master.Submit.Ranks.{
  Entered, enqueue_new_enters, register_group_lem, get_group-register_group,
}
use tasch.Scheduler.Views.{get_group, register_group}
use tasch.Scheduler.{QueueError, GlobalScheduler, is_full, queue_len, write}

-- The job of one rank: its id, its group, and the variables that tell the process which rank it is.
pub record IsRank (req : SubmitJobRequest) (gid : String) (n rank : ℕ) (j : Job) : Type 0 where
  pub id : j.id ≡ concat gid (concat "-r" (itoa rank))
  pub group_id : j.group_id ≡ gid
  pub state : j.state ≡ JobState.queued
  pub command : j.command ≡ req.command
  pub gpus : j.gpus_required ≡ req.gpus_required
  pub no_retry : j.max_retries ≡ pos 0
  pub env :
      (m : Map String) × (j.env_vars ≡ some m)
      × (lookup "RANK" m ≡ some (itoa rank))
      × (lookup "WORLD_SIZE" m ≡ some (itoa n))

-- The first ranks, `entered` of them from `rank` on, at their pointers and with one entry each in the
-- queue; nothing before them is touched.
pub record Ranks (req : SubmitJobRequest) (gid : String) (n p rank entered : ℕ)
    (s s' : GlobalScheduler) : Type 0 where
  pub size : queue_len s' ≡ queue_len s + entered
  pub groups : s'.groups ≡ s.groups
  pub made : (k : ℕ) → rank ≤ k → k < rank + entered → IsRank req gid n k (s'.mem (p + k))
  pub kept : (q : ℕ) → q < p + rank → s'.mem q ≡ s.mem q
  pub entries :
      (q : ℕ)
      → count q s'.queue.items
        ≡ count q s.queue.items + (if leb (p + rank) q && ltb q (p + rank + entered) then 1 else 0)

rank_env_lem :
    (req : SubmitJobRequest) (d : Distributed) (rank : ℕ)
    → (lookup "RANK" (rank_env req d rank) ≡ some (itoa rank))
      × (lookup "WORLD_SIZE" (rank_env req d rank) ≡ some (itoa (rank_count d.num_nodes)))
unfolding rank_env
rank_env_lem req d rank =
    let m₀ = env_entries req.env_vars in
    let m₁ = insert "RANK" (itoa rank) m₀ in
    let m₂ = insert "WORLD_SIZE" (itoa (rank_count d.num_nodes)) m₁ in
    let m₃ = insert "MASTER_PORT" (itoa_int (default_port d.master_port)) m₂ in
    let m₄ = insert "LOCAL_RANK" "0" m₃ in
    let port = itoa_int (default_port d.master_port) in
    let gpus = itoa_int req.gpus_required in
    (
      lookup-insert "RANK" "NPROC_PER_NODE" gpus m₄
          ∙ lookup-insert "RANK" "LOCAL_RANK" "0" m₃
          ∙ lookup-insert "RANK" "MASTER_PORT" port m₂
          ∙ lookup-insert "RANK" "WORLD_SIZE" (itoa (rank_count d.num_nodes)) m₁
          ∙ lookup-insert "RANK" "RANK" (itoa rank) m₀,
      lookup-insert "WORLD_SIZE" "NPROC_PER_NODE" gpus m₄
          ∙ lookup-insert "WORLD_SIZE" "LOCAL_RANK" "0" m₃
          ∙ lookup-insert "WORLD_SIZE" "MASTER_PORT" port m₂
          ∙ lookup-insert "WORLD_SIZE" "WORLD_SIZE" (itoa (rank_count d.num_nodes)) m₁,
    )

module _ (req : SubmitJobRequest) (d : Distributed) (gid : String) (p now : ℕ) where
  abbrev n : ℕ
  n = rank_count d.num_nodes

  abbrev rank_job : ℕ → Job
  rank_job rank =
      new_job req (rank_id gid rank) gid (default_priority req.priority) (pos 0)
        (some (rank_env req d rank)) now

  rank_job-IsRank :
      (rank : ℕ) (j : Job)
      → j ≡ record (rank_job rank) { state = JobState.queued }
      → IsRank req gid n rank j
  unfolding new_job rank_id
  rank_job-IsRank rank j e = rw e (record {
    id = refl;
    group_id = refl;
    state = refl;
    command = refl;
    gpus = refl;
    no_retry = refl;
    env = (rank_env req d rank, refl, (rank_env_lem req d rank).0, (rank_env_lem req d rank).1);
  })

  -- One rank, and those that follow it.
  one_more :
      (s₁ s₂ s₃ : GlobalScheduler) (rank entered : ℕ)
      → Entered s₁ (p + rank) (rank_job rank) s₂
      → Ranks req gid n p (rank + 1) entered s₂ s₃
      → Ranks req gid n p rank (entered + 1) s₁ s₃
  one_more s₁ s₂ s₃ rank entered first rest = record {
    size = omega (arith, rest.size, first.size);
    groups = rest.groups ∙ first.groups;
    made = λ k from to. elim (Bool-cases (rank == k)) [
      | inl same ↦
          let e : rank ≡ k = ground arith in
          subst (λ k. IsRank req gid n k (s₃.mem (p + k))) e
            (rank_job-IsRank rank (s₃.mem (p + rank))
              (rest.kept (p + rank) (omega arith) ∙ first.written))
      | inr later ↦ rest.made k (ground arith) (omega arith)
    ];
    kept = λ q before. rest.kept q (omega arith) ∙ first.others q (λ e. ground arith);
    entries = λ q. ground (arith, rest.entries q, first.entries q);
  }

  -- The loop ends with all ranks let in, or at the first that finds the queue full.
  RanksEnd : {F : Type 0} → Server F → ℕ → ℕ → Server F × Option QueueError → Type 0
  RanksEnd srv rank left r =
      (entered : ℕ) × Ranks req gid n p rank entered srv.queue r.0.queue
      × (((entered ≡ left) × (r.1 ≡ none))
          ⊎ ((entered < left) × ((e : QueueError) × (r.1 ≡ some e)) × (is_full r.0.queue ≡ true)))

  no_rank :
      (s : GlobalScheduler) (rank : ℕ) (j : Job) → Ranks req gid n p rank 0 s (write s (p + rank) j)
  no_rank s rank j = record {
    size = omega arith;
    groups = refl;
    made = λ k from to. absurd (omega arith);
    kept = λ q before. ground arith;
    entries = λ q. ground arith;
  }

  stays : (s : GlobalScheduler) (rank : ℕ) → Ranks req gid n p rank 0 s s
  stays s rank = record {
    size = omega arith;
    groups = refl;
    made = λ k from to. absurd (omega arith);
    kept = λ q before. refl;
    entries = λ q. ground arith;
  }

  submit_ranks_end :
      {F : Type 0} (srv : Server F) (rank left : ℕ)
      → RanksEnd srv rank left (submit_ranks srv req d gid p rank left now)
  unfolding RanksEnd submit_ranks append_log
  submit_ranks_end srv rank zero = (0, stays srv.queue rank, inl (refl, refl))
  submit_ranks_end srv rank (suc left) = elim (enqueue_new_enters srv (p + rank) (rank_job rank)) [
    | inl (e, full, made) ↦
        rw (submit_ranks, made, made)
          (0, no_rank srv.queue rank (rank_job rank), inr (omega arith, (e, refl), full))
    | inr (s', made, first) ↦
        let text = Master.rank_queued rank (pos n) gid in
        let srv₂ = append_log (record srv { queue = s' }) now (rank_id gid rank) info text in
        let (entered, rest, ends) = submit_ranks_end srv₂ (rank + 1) left in
        rw (submit_ranks, made, made)
          (
            entered + 1,
            one_more srv.queue s' _ rank entered first rest,
            elim ends [
              | inl (all, fine) ↦ inl (omega arith, fine)
              | inr (few, failed, full) ↦ inr (omega arith, failed, full)
            ],
          )
  ]

-- The ids of the ranks from one on.
pub data Named (gid : String) : ℕ → ℕ → List String → Type 0 where
  no_name : {rank : ℕ} → Named gid rank 0 []
  name :
      {rank left : ℕ} {ids : List String}
      → Named gid (rank + 1) left ids
      → Named gid rank (suc left) (concat gid (concat "-r" (itoa rank)) ∷ ids)

rank_ids-Named : (gid : String) (rank left : ℕ) → Named gid rank left (rank_ids gid rank left)
unfolding rank_ids rank_id
rank_ids-Named gid rank zero = no_name
rank_ids-Named gid rank (suc left) = name (rank_ids-Named gid (rank + 1) left)

-- A group of `n` ranks that waits.
pub record IsNewGroup (req : SubmitJobRequest) (gid : String) (n : ℕ) (g : JobGroup) : Type 0 where
  pub group_id : g.group_id ≡ gid
  pub state : g.state ≡ GroupState.pending
  pub num_nodes : g.num_nodes ≡ pos n
  pub gpus : g.gpus_per_node ≡ req.gpus_required
  pub job_ids : Named gid 0 n g.job_ids

-- One rank is asked for at least.
abbrev pub IsRankCount : ℤ → ℕ → Type 0
IsRankCount asked n = ((asked ≡ pos n) × (0 < n)) ⊎ ((asked ≤ℤ pos 0) × (n ≡ 1))

rank_count_lem : (asked : ℤ) → IsRankCount asked (rank_count asked)
unfolding rank_count
rank_count_lem (pos zero) = inr (omega arith, refl)
rank_count_lem (pos (suc n)) = inl (refl, omega arith)
rank_count_lem (negsuc n) = inr (omega arith, refl)

-- All ranks are in the queue and the group is registered; or the first ranks are, and no group.
abbrev pub IsDistributed :
    {F : Type 0}
    → SubmitJobRequest
    → String
    → ℕ
    → ℕ
    → Server F
    → Server F × Submitted String
    → Type 0
IsDistributed req gid p n srv r =
    ((r.1 ≡ accepted gid)
      × ((s : GlobalScheduler) × Ranks req gid n p 0 n srv.queue s
          × (r.0.queue.mem ≡ s.mem)
          × (r.0.queue.queue ≡ s.queue))
      × ((g : JobGroup) × (get_group r.0.queue gid ≡ some g) × IsNewGroup req gid n g))
    ⊎ ((k : ℕ) × (k < n)
        × ((e : QueueError) × (r.1 ≡ exhausted e))
        × Ranks req gid n p 0 k srv.queue r.0.queue
        × (is_full r.0.queue ≡ true))

-- SubmitDistributedJob of a master that takes jobs, for as many ranks as it is asked for, or one. Either
-- every rank is let in, QUEUED under its own id and in the group, with its number and the number of all
-- in its variables and one entry in the queue more, and the group of these ids is registered as PENDING
-- under the id that is answered. Or the answer is the error of a full queue: the ranks before the first
-- that finds it full stay like that in the queue, and no group is registered.
pub submit_distributed_job_cases :
    {F : Type 0} (srv : Server F) (req : SubmitJobRequest) (d : Distributed) (uid : String)
    (p now : ℕ)
    → srv.draining ≡ false
    → let r = submit_distributed_job srv req d uid p now in
      let gid = concat "dj-" uid in
      (n : ℕ) × IsRankCount d.num_nodes n × IsDistributed req gid p n srv r
unfolding submit_distributed_job distribute_accepting new_group RanksEnd
submit_distributed_job_cases srv req d uid p now takes =
    let gid = concat "dj-" uid in
    let n = rank_count d.num_nodes in
    let r = submit_distributed_job srv req d uid p now in
    let s = (submit_ranks srv req d gid p 0 n now).0 in
    let g = new_group req d gid now in
    let (entered, ranks, ends) = submit_ranks_end req d gid p now srv 0 n in
    (
      n,
      rank_count_lem d.num_nodes,
      elim ends [
        | inl (all, fine) ↦
            let done : r ≡ (record s { queue = register_group s.queue g }, accepted gid) =
              simp (submit_distributed_job, takes, distribute_accepting, fine) refl in
            subst (λ x. IsDistributed req gid p n srv x) (sym done)
              (inl (
                refl,
                (
                  s.queue,
                  subst (λ k. Ranks req gid n p 0 k srv.queue s.queue) all ranks,
                  (register_group_lem s.queue g).1,
                  (register_group_lem s.queue g).0,
                ),
                (
                  g,
                  get_group-register_group s.queue g,
                  record {
                    group_id = refl;
                    state = refl;
                    num_nodes = refl;
                    gpus = refl;
                    job_ids = rank_ids-Named gid 0 n;
                  },
                ),
              ))
        | inr (few, (e, failed), full) ↦
            let done : r ≡ (s, exhausted e) =
              simp (submit_distributed_job, takes, distribute_accepting, failed) refl in
            subst (λ x. IsDistributed req gid p n srv x) (sym done)
              (inr (entered, few, (e, refl), ranks, full))
      ],
    )
