-- ===== src/Breaker/Blocking.antt =====
-- When the circuit breaker blocks a node, and what it forgets.
use tasch.Base.{
  ℕ, ◌+◌, ◌≤◌, ◌<◌, ◌≡◌, ◌≢◌, ◌⊎◌, sym, ◌∙◌, inl, inr, String, true, false, some, List, [], ◌∷◌,
  lookup, lookup-insert, lookup-delete, eq_iff, str_eq, arith, if◌then◌else◌, Bool-cases,
  Option-cases, leb, ltb,
}
use tasch.Breaker.{
  CircuitBreaker, new_circuit_breaker, failure_count, last_job, block_time, record_failure, forget,
  record_success, is_blocked,
}

-- A blocked node has three failures at least.
pub record IsValid (cb : CircuitBreaker) : Type 0 where
  pub failed :
      (node : String) (until : ℕ) → lookup node cb.blocked ≡ some until → 3 ≤ failure_count cb node

record_failure-IsValid :
    (cb : CircuitBreaker) (node job_id : String) (now : ℕ)
    → IsValid cb
    → IsValid (record_failure cb node job_id now)
unfolding record_failure failure_count
record_failure-IsValid cb node job_id now v = record {
  failed = λ n until h. ground (
    arith,
    eq_iff node n,
    v.failed n until,
    lookup-insert n node (failure_count cb node + 1) cb.failures,
    lookup-insert n node (now + block_time) cb.blocked,
  );
}

forget-IsValid : (cb : CircuitBreaker) (node : String) → IsValid cb → IsValid (forget cb node)
unfolding forget failure_count
forget-IsValid cb node v = record {
  failed = λ n until h. ground (
    arith,
    eq_iff node n,
    v.failed n until,
    lookup-delete n node cb.failures,
    lookup-delete n node cb.blocked,
  );
}

pub data Call : Type 0 where
  fails : String → String → ℕ → Call
  succeeds : String → Call
  asks : String → ℕ → Call

unfoldable pub run : CircuitBreaker → List Call → CircuitBreaker
run cb [] = cb
run cb (fails node job_id now ∷ cs) = run (record_failure cb node job_id now) cs
run cb (succeeds node ∷ cs) = run (record_success cb node) cs
run cb (asks node now ∷ cs) = run (is_blocked cb node now).0 cs

is_blocked-IsValid :
    (cb : CircuitBreaker) (node : String) (now : ℕ)
    → IsValid cb
    → IsValid (is_blocked cb node now).0
unfolding is_blocked
is_blocked-IsValid cb node now v = elim (Option-cases (lookup node cb.blocked)) [
  | inl free ↦ rw (free, is_blocked) v
  | inr (until, held) ↦ elim (Bool-cases (ltb until now)) [
    | inl over ↦ rw (held, is_blocked) (rw over (forget-IsValid cb node v))
    | inr not_yet ↦ rw (held, is_blocked) (rw not_yet v)
  ]
]

run-IsValid : (cb : CircuitBreaker) (cs : List Call) → IsValid cb → IsValid (run cb cs)
unfolding run record_success
run-IsValid cb [] v = v
run-IsValid cb (fails node job_id now ∷ cs) v =
    run-IsValid (record_failure cb node job_id now) cs (record_failure-IsValid cb node job_id now v)
run-IsValid cb (succeeds node ∷ cs) v = run-IsValid (forget cb node) cs (forget-IsValid cb node v)
run-IsValid cb (asks node now ∷ cs) v =
    run-IsValid (is_blocked cb node now).0 cs (is_blocked-IsValid cb node now v)

-- After any calls on a new circuit breaker, a node that has a block has three counted failures at
-- least.
pub run-new-IsValid : (cs : List Call) → IsValid (run new_circuit_breaker cs)
unfolding new_circuit_breaker lookup
run-new-IsValid cs =
    run-IsValid new_circuit_breaker cs (record { failed = λ node until h. ground arith })

-- A failure that is another job than the last one that failed on the node.
record_failure_counts :
    (cb : CircuitBreaker) (node job_id : String) (now : ℕ)
    → last_job cb node ≢ job_id
    → let cb' = record_failure cb node job_id now in
      (failure_count cb' node ≡ failure_count cb node + 1)
      × (last_job cb' node ≡ job_id)
      × (lookup node cb'.blocked ≡ (
          if leb 3 (failure_count cb node + 1)
          then some (now + block_time)
          else lookup node cb.blocked))
unfolding record_failure failure_count last_job
record_failure_counts cb node job_id now other =
    let fresh = eq_iff (last_job cb node) job_id in
    let same = eq_iff node node in
    (
      ground (arith, fresh, same, lookup-insert node node (failure_count cb node + 1) cb.failures),
      ground (arith, fresh, same, lookup-insert node node job_id cb.last_failed_job),
      ground (arith, fresh, same, lookup-insert node node (now + block_time) cb.blocked),
    )

-- A failure of the job that failed last on the node changes nothing.
pub record_failure_same :
    (cb : CircuitBreaker) (node job_id : String) (now : ℕ)
    → last_job cb node ≡ job_id
    → record_failure cb node job_id now ≡ cb
unfolding record_failure
record_failure_same cb node job_id now same = ground (arith, eq_iff (last_job cb node) job_id)

failure_count-forget :
    (cb : CircuitBreaker) (node : String) → failure_count (forget cb node) node ≡ 0
unfolding forget failure_count
failure_count-forget cb node = ground (arith, lookup-delete node node cb.failures, eq_iff node node)

-- Three failures on a node, each of another job than the one before it, block the node: until five
-- minutes after the third, whatever the node's count was, and no longer. The test that finds the
-- block over sets the count back to 0.
pub three_failures_block :
    (cb : CircuitBreaker) (node j₁ j₂ j₃ : String) (t₁ t₂ t₃ now : ℕ)
    → last_job cb node ≢ j₁
    → j₁ ≢ j₂
    → j₂ ≢ j₃
    → let cb₃ =
        record_failure (record_failure (record_failure cb node j₁ t₁) node j₂ t₂) node j₃ t₃ in
      ((now ≤ t₃ + block_time) × (is_blocked cb₃ node now ≡ (cb₃, true)))
      ⊎ ((t₃ + block_time < now)
          × ((is_blocked cb₃ node now).1 ≡ false)
          × (failure_count (is_blocked cb₃ node now).0 node ≡ 0))
unfolding is_blocked
three_failures_block cb node j₁ j₂ j₃ t₁ t₂ t₃ now d₁ d₂ d₃ =
    let one = record_failure_counts cb node j₁ t₁ d₁ in
    let cb₁ = record_failure cb node j₁ t₁ in
    let two = record_failure_counts cb₁ node j₂ t₂ (λ e. d₂ (sym one.1 ∙ e)) in
    let cb₂ = record_failure cb₁ node j₂ t₂ in
    let three = record_failure_counts cb₂ node j₃ t₃ (λ e. d₃ (sym two.1 ∙ e)) in
    let held : lookup node (record_failure cb₂ node j₃ t₃).blocked ≡ some (t₃ + block_time) =
      ground (arith, one.0, two.0, three.2) in
    elim (Bool-cases (ltb (t₃ + block_time) now)) [
      | inl over ↦ inr (
        ground arith,
        rw (held, is_blocked) (rw over),
        rw (held, is_blocked) (rw over (failure_count-forget (record_failure cb₂ node j₃ t₃) node)),
      )
      | inr not_yet ↦ inl (ground arith, rw (held, is_blocked) (rw not_yet))
    ]

-- A failure recorded on one node leaves the count, the block and the last failed job of every other
-- node as they were.
pub record_failure_elsewhere :
    (cb : CircuitBreaker) (node other job_id : String) (now : ℕ)
    → node ≢ other
    → let cb' = record_failure cb node job_id now in
      (failure_count cb' other ≡ failure_count cb other)
      × (lookup other cb'.blocked ≡ lookup other cb.blocked)
      × (last_job cb' other ≡ last_job cb other)
unfolding record_failure failure_count last_job
record_failure_elsewhere cb node other job_id now apart =
    let differs = eq_iff node other in
    (
      ground (arith, differs, lookup-insert other node (failure_count cb node + 1) cb.failures),
      ground (arith, differs, lookup-insert other node (now + block_time) cb.blocked),
      ground (arith, differs, lookup-insert other node job_id cb.last_failed_job),
    )

-- The jobs of a run of failures on one node that differ from the one before them.
unfoldable pub alternations : String → List (String × ℕ) → ℕ
alternations last [] = 0
alternations last ((job_id, now) ∷ js) =
    (if str_eq last job_id then 0 else 1) + alternations job_id js

unfoldable pub fail_all : CircuitBreaker → String → List (String × ℕ) → CircuitBreaker
fail_all cb node [] = cb
fail_all cb node ((job_id, now) ∷ js) = fail_all (record_failure cb node job_id now) node js

-- With no success in between, the count grows by the failures that are of another job than the
-- failure before them: repeated failures of one job count once.
pub failure_count-fail_all :
    (cb : CircuitBreaker) (node : String) (js : List (String × ℕ))
    → failure_count (fail_all cb node js) node
      ≡ failure_count cb node + alternations (last_job cb node) js
unfolding fail_all alternations
failure_count-fail_all cb node [] = omega arith
failure_count-fail_all cb node ((job_id, now) ∷ js) =
    let rest = failure_count-fail_all (record_failure cb node job_id now) node js in
    elim (Bool-cases (str_eq (last_job cb node) job_id)) [
      | inl same ↦
          let e = (eq_iff (last_job cb node) job_id).0 same in
          let kept = record_failure_same cb node job_id now e in
          rest ∙ rw (kept, same, e) (omega arith)
      | inr differs ↦
          let one =
            record_failure_counts cb node job_id now
              (λ e. ground (arith, (eq_iff (last_job cb node) job_id).1 e)) in
          rest ∙ rw (one.0, one.1, differs) (omega arith)
    ]
