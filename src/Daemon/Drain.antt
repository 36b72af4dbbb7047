-- ===== src/Daemon/Drain.antt =====
-- The drain loop of `tasch start` in cmd/tasch/main.go. `clock i` is the time in nanoseconds at the
-- test number `i` of the loop, `running i` how many jobs run then.
use Prim.Native.Nat.{◌^◌}
use tasch.Base.{
  ℕ, zero, suc, ◌+◌, ◌*◌, ◌≤◌, ◌<◌, ◌≡◌, refl, ◌⊎◌, inl, inr, ℤ, pos_part, int64, Bool-cases,
  Option, none, some, arith, ltb, ◌==◌, if◌then◌else◌,
}

-- The number of the test that ends the loop; none if the fuel is used up.
unfoldable pub drain_loop : ℕ → ℕ → (ℕ → ℕ) → (ℕ → ℕ) → ℕ → Option ℕ
drain_loop zero deadline clock running i = none
drain_loop (suc f) deadline clock running i =
    let rest = drain_loop f deadline clock running (suc i) in
    if ltb (clock i) deadline then if running i == 0 then some i else rest else some i

-- A deadline that is not ahead is the time of the start.
unfoldable pub drain_deadline : ℕ → ℤ → ℕ
drain_deadline now timeout = now + pos_part (int64 (pos_part timeout * 10 ^ 9))

unfoldable pub drain : ℕ → ℕ → ℤ → (ℕ → ℕ) → (ℕ → ℕ) → Option ℕ
drain f now timeout clock running = drain_loop f (drain_deadline now timeout) clock running 0

-- A sleep of two seconds stands between two tests.
abbrev pub Sleeps : (ℕ → ℕ) → Type 0
Sleeps clock = (i : ℕ) → clock i + 2 * 10 ^ 9 ≤ clock (suc i)

module _ (deadline : ℕ) (clock running : ℕ → ℕ) (sleeps : Sleeps clock) where
  drain_loop_ends :
      (f i : ℕ)
      → 0 < f
      → deadline + 2 * 10 ^ 9 ≤ clock i + 2 * 10 ^ 9 * f
      → (k : ℕ) × (drain_loop f deadline clock running i ≡ some k)
        × ((running k ≡ 0) ⊎ (deadline ≤ clock k))
        × ((j : ℕ) → i ≤ j → j < k → (0 < running j) × (clock j < deadline))
  unfolding drain_loop
  drain_loop_ends zero i some_fuel h = absurd (omega arith)
  drain_loop_ends (suc f) i some_fuel h = elim (Bool-cases (ltb (clock i) deadline)) [
    | inr late ↦ (i, rw (late, drain_loop) refl, inr (ground arith), λ j a b. absurd (omega arith))
    | inl early ↦ elim (Bool-cases (running i == 0)) [
      | inl quiet ↦
          (i, rw (early, quiet, drain_loop) refl, inl (ground arith), λ j a b. absurd (omega arith))
      | inr busy ↦
          let (k, e, ends, before) =
            drain_loop_ends f (suc i) (ground arith) (ground (arith, sleeps i)) in
          (
            k,
            rw (early, busy, drain_loop) e,
            ends,
            λ j a b. elim (Bool-cases (i == j)) [
              | inl same ↦ ground arith
              | inr later ↦ before j (ground arith) b
            ],
          )
    ]
  ]

deadline_lem :
    (now : ℕ) (timeout : ℤ)
    → pos_part timeout * 10 ^ 9 < 2 ^ 63
    → drain_deadline now timeout ≡ now + pos_part timeout * 10 ^ 9
unfolding drain_deadline int64
deadline_lem now timeout small = ground arith

-- The drain ends, for a timeout in seconds whose nanoseconds fit into a time.Duration: with sleeps of
-- two seconds between the tests of the loop and with fuel for half of the timeout's seconds and one
-- more, some test ends it. At that test no job runs or that many seconds are over since the start, none
-- for a timeout below 0; at every test before it jobs run and the seconds are not over.
pub drain_ends :
    (f now : ℕ) (timeout : ℤ) (clock running : ℕ → ℕ)
    → Sleeps clock
    → now ≤ clock 0
    → pos_part timeout * 10 ^ 9 < 2 ^ 63
    → pos_part timeout + 2 ≤ 2 * f
    → (k : ℕ) × (drain f now timeout clock running ≡ some k)
      × ((running k ≡ 0) ⊎ (now + pos_part timeout * 10 ^ 9 ≤ clock k))
      × ((j : ℕ) → j < k → (0 < running j) × (clock j < now + pos_part timeout * 10 ^ 9))
unfolding drain
drain_ends f now timeout clock running sleeps started small enough =
    let e = deadline_lem now timeout small in
    let (k, found, ends, before) =
      drain_loop_ends (drain_deadline now timeout) clock running sleeps f 0 (omega arith)
        (rw e (omega arith)) in
    (k, found, rw (← e) ends, λ j h. rw (← e) (before j (omega arith) h))
