-- ===== src/Tests/NodeTests.antt =====
-- The theorems on the circuit breaker, the tracker, fairshare and Less at small inputs.
use tasch.Base.{
  Outcome, gives, ℕ, ◌+◌, ◌≤◌, ◌<◌, ◌≡◌, refl, ◌⊎◌, String, ℤ, pos, true, false, lookup, arith,
  str_eq, eq_iff, List, [], ◌∷◌, if◌then◌else◌,
}
use tasch.Breaker.{
  CircuitBreaker, new_circuit_breaker, failure_count, last_job, block_time, record_failure,
  is_blocked,
}
use tasch.Breaker.Blocking.{three_failures_block}
use tasch.Tracker.{GpuTracker, new_gpu_tracker}
use tasch.Tracker.Balance.{
  Held, Tracks, allocate_held, release_held, new-Tracks, allocate-Tracks, release-Tracks,
}
use tasch.Matchmaker.{Cel, boolean}
use tasch.Matchmaker.Cache.{match_all, fresh_all, match_all-fresh}

fresh_node : last_job new_circuit_breaker "n" ≡ ""
unfolding new_circuit_breaker last_job lookup
fresh_node = refl

abbrev broken : CircuitBreaker
broken =
    record_failure (record_failure (record_failure new_circuit_breaker "n" "a" 10) "n" "b" 20) "n"
      "c" 30

three_failures_block_example :
    ((40 ≤ 30 + block_time) × (is_blocked broken "n" 40 ≡ (broken, true)))
    ⊎ ((30 + block_time < 40)
        × ((is_blocked broken "n" 40).1 ≡ false)
        × (failure_count (is_blocked broken "n" 40).0 "n" ≡ 0))
three_failures_block_example =
    three_failures_block new_circuit_breaker "n" "a" "b" "c" 10 20 30 40
      (λ e. ground (arith, fresh_node, eq_iff "" "a")) (λ e. ground (arith, eq_iff "a" "b"))
      (λ e. ground (arith, eq_iff "b" "c"))

abbrev held : ℤ → Held
held gpus = record { node = "n"; gpus = gpus; cpus = pos 4; mem_mb = pos 1024 }

abbrev shared : GpuTracker
shared = allocate_held (allocate_held new_gpu_tracker (held (pos 2))) (held (pos 1))

shared-Tracks : Tracks shared (held (pos 1) ∷ held (pos 2) ∷ [])
shared-Tracks = allocate-Tracks _ _ _ (allocate-Tracks _ _ _ new-Tracks)

release-Tracks_example : Tracks (release_held shared (held (pos 2))) (held (pos 1) ∷ [])
release-Tracks_example =
    release-Tracks shared (held (pos 1) ∷ []) (held (pos 2)) [] (omega arith) shared-Tracks

-- A CEL in which a text is its own program, which tells whether the advertisement is the same text.
abbrev text_cel : Cel String String String ℕ
text_cel = record {
  compile = λ s. if str_eq s "" then Outcome.fails 1 else gives s;
  program = λ s. gives s;
  decode = λ s. gives s;
  eval = λ prg ad. gives (boolean (str_eq prg ad));
}

abbrev questions : List (String × String)
questions = ("gpu", "gpu") ∷ ("", "gpu") ∷ ("gpu", "cpu") ∷ []

match_all-fresh_example : match_all text_cel [] questions ≡ fresh_all text_cel questions
match_all-fresh_example = match_all-fresh text_cel questions
