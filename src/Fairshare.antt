-- ===== src/Fairshare.antt =====
-- FairshareCalculator of pkg/scheduler/queue.go. Floating-point numbers are a parameter: a type with
-- the operations that the source uses. Each method is one step under the mutex.
use tasch.Base.{ℕ, String, ℤ, pos, none, some, [], ◌∷◌, Map, lookup, insert}

-- `seconds` is Duration.Seconds of a number of nanoseconds, `to_int` the conversion to `int`.
pub record FloatOps (F : Type 0) : Type 0 where
  pub zero : F
  pub hundred : F
  pub add : F → F → F
  pub mul : F → F → F
  pub div : F → F → F
  pub seconds : ℕ → F
  pub to_int : F → ℤ

module _ {F : Type 0} (ops : FloatOps F) where
  -- `fc.UserUsage[user]`, which is 0 where there is no entry.
  unfoldable pub usage : Map F → String → F
  usage user_usage user = elim (lookup user user_usage) [ none ↦ ops.zero | some u ↦ u ]

  unfoldable pub record_usage : Map F → String → F → Map F
  record_usage user_usage user units =
      insert user (ops.add (usage user_usage user) units) user_usage

  unfoldable pub calculate_penalty : Map F → String → ℤ
  calculate_penalty user_usage user = elim (lookup user user_usage) [
    | none ↦ pos 0
    | some u ↦ ops.to_int (ops.div u ops.hundred)
  ]

  unfoldable pub decay_usage : Map F → F → Map F
  decay_usage [] factor = []
  decay_usage ((user, u) ∷ m) factor = (user, ops.mul u factor) ∷ decay_usage m factor
