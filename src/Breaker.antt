-- ===== src/Breaker.antt =====
-- circuitBreaker of internal/daemon/master.go. Each method is one step under the mutex; `now` is
-- what time.Now() gives it, in nanoseconds.
pub mod Blocking
use tasch.Base.{
  ℕ, ◌+◌, ◌*◌, String, Bool, true, false, Option, none, some, [], Map, lookup, insert, delete, leb,
  ltb, str_eq, if◌then◌else◌,
}

pub record CircuitBreaker : Type 0 where
  pub failures : Map ℕ
  pub blocked : Map ℕ
  pub last_failed_job : Map String

unfoldable pub new_circuit_breaker : CircuitBreaker
new_circuit_breaker = record { failures = []; blocked = []; last_failed_job = [] }

-- `cb.failures[node]` and `cb.lastFailedJob[node]`, which are 0 and "" where there is no entry.
unfoldable pub failure_count : CircuitBreaker → String → ℕ
failure_count cb node = elim (lookup node cb.failures) [ none ↦ 0 | some n ↦ n ]

unfoldable pub last_job : CircuitBreaker → String → String
last_job cb node = elim (lookup node cb.last_failed_job) [ none ↦ "" | some j ↦ j ]

-- `5 * time.Minute`
abbrev pub block_time : ℕ
block_time = 300_000_000_000

unfoldable pub record_failure : CircuitBreaker → String → String → ℕ → CircuitBreaker
record_failure cb node job_id now =
    if str_eq (last_job cb node) job_id
    then cb
    else let n = failure_count cb node + 1 in
      record {
        failures = insert node n cb.failures;
        blocked = if leb 3 n then insert node (now + block_time) cb.blocked else cb.blocked;
        last_failed_job = insert node job_id cb.last_failed_job;
      }

-- The three deletions that forget a node.
unfoldable pub forget : CircuitBreaker → String → CircuitBreaker
forget cb node = record {
  failures = delete node cb.failures;
  blocked = delete node cb.blocked;
  last_failed_job = delete node cb.last_failed_job;
}

unfoldable pub record_success : CircuitBreaker → String → CircuitBreaker
record_success cb node = forget cb node

-- A block that has run out is forgotten by the test that finds it.
unfoldable pub is_blocked : CircuitBreaker → String → ℕ → CircuitBreaker × Bool
is_blocked cb node now = elim (lookup node cb.blocked) [
  | none ↦ (cb, false)
  | some until ↦ if ltb until now then (forget cb node, false) else (cb, true)
]
