-- ===== src/Worker/Retry.antt =====
-- reportWithRetry and acknowledgeStart of internal/daemon/worker.go. What the other side answers and
-- when the worker shuts down are arguments, by the number of the attempt.
use Prim.Native.Nat.{◌^◌}
use tasch.Base.{
  ℕ, zero, suc, ◌+◌, ◌*◌, ◌≤◌, ◌<◌, ◌≡◌, ◌≢◌, refl, sym, ap, ◌∙◌, Option-cases, ◌⊎◌, inl, inr, Bool,
  false, Bool-cases, Option, none, some, List, [], ◌∷◌, arith, ltb, ◌==◌, if◌then◌else◌,
}

-- `if backoff < limit { backoff *= 2 }`, in seconds.
unfoldable pub next_backoff : ℕ → ℕ → ℕ
next_backoff limit backoff = if ltb backoff limit then backoff * 2 else backoff

pub data ReportEnd : Type 0 where
  delivered : ReportEnd
  discarded : ReportEnd

-- Whether a call of ReportResult succeeds, whether the worker is shut down after it has failed, and
-- whether it is in the wait that follows.
pub record Answers : Type 0 where
  pub accepted : ℕ → Bool
  pub shut_down : ℕ → Bool
  pub shut_down_waiting : ℕ → Bool

-- The end with the waits before it; none if the fuel is used up.
unfoldable pub report_loop : ℕ → Answers → ℕ → ℕ → Option (ReportEnd × List ℕ)
report_loop zero a i backoff = none
report_loop (suc f) a i backoff =
    let rest = report_loop f a (suc i) (next_backoff 60 backoff) in
    if a.accepted i
    then some (delivered, [])
    else if a.shut_down i
    then some (discarded, [])
    else if a.shut_down_waiting i
    then some (discarded, backoff ∷ [])
    else elim rest [ none ↦ none | some (end, waits) ↦ some (end, backoff ∷ waits) ]

unfoldable pub report_with_retry : ℕ → Answers → Option (ReportEnd × List ℕ)
report_with_retry f a = report_loop f a 0 1

-- The first three attempts of acknowledgeStart: how many were made and how many waits of 500 ms there
-- were. An answer is a status, or none for an error.
unfoldable pub acknowledge_loop : ℕ → (ℕ → Option ℕ) → ℕ → ℕ × ℕ
acknowledge_loop zero answer i = (i, i)
acknowledge_loop (suc f) answer i =
    let rest = acknowledge_loop f answer (suc i) in
    elim (answer i) [ none ↦ rest | some status ↦ if status == 200 then (suc i, i) else rest ]

unfoldable pub acknowledge_start : (ℕ → Option ℕ) → ℕ × ℕ
acknowledge_start answer = acknowledge_loop 3 answer 0

-- How the attempt number `i` ends the loop, if it does.
abbrev pub stops : Answers → ℕ → Option ReportEnd
stops a i =
    if a.accepted i
    then some delivered
    else if a.shut_down i
    then some discarded
    else if a.shut_down_waiting i
    then some discarded
    else none

-- The wait after the attempt number `i`: doubled each time, and 64 seconds from the seventh on.
abbrev pub wait_after : ℕ → ℕ
wait_after i = if ltb i 6 then 2 ^ i else 64

-- The waits of `n` attempts, and the one in which the shutdown comes.
abbrev pub waits_from : Answers → ℕ → ℕ → List ℕ
waits_from a i zero = if a.accepted i then [] else if a.shut_down i then [] else wait_after i ∷ []
waits_from a i (suc n) = wait_after i ∷ waits_from a (suc i) n

next_backoff-wait : (i : ℕ) → next_backoff 60 (wait_after i) ≡ wait_after (suc i)
unfolding next_backoff
next_backoff-wait zero = refl
next_backoff-wait (suc zero) = refl
next_backoff-wait (suc (suc zero)) = refl
next_backoff-wait (suc (suc (suc zero))) = refl
next_backoff-wait (suc (suc (suc (suc zero)))) = refl
next_backoff-wait (suc (suc (suc (suc (suc zero))))) = refl
next_backoff-wait (suc (suc (suc (suc (suc (suc i)))))) = ground arith

report_loop_ends :
    (f n m : ℕ) (a : Answers) (i : ℕ) (end : ReportEnd)
    → n < f
    → m ≡ i + n
    → ((j : ℕ) → i ≤ j → j < m → stops a j ≡ none)
    → stops a m ≡ some end
    → report_loop f a i (wait_after i) ≡ some (end, waits_from a i n)
unfolding report_loop
report_loop_ends zero n m a i end h e goes stop = absurd (omega arith)
report_loop_ends (suc f) zero m a i end h e goes stop =
    let here : m ≡ i = omega arith in
    let stop_here : stops a i ≡ some end = ap (stops a) (sym here) ∙ stop in ground arith
report_loop_ends (suc f) (suc n) m a i end h e goes stop =
    let rest : report_loop f a (suc i) (wait_after (suc i)) ≡ some (end, waits_from a (suc i) n) =
      report_loop_ends f n m a (suc i) end (omega arith) (omega arith) (λ j k. goes j (omega arith))
        stop in
    let on : stops a i ≡ none = goes i (omega arith) (omega arith) in
    ground (arith, next_backoff-wait i)

-- reportWithRetry ends: when the attempt number `n` is the first that succeeds or that a shutdown
-- ends, then with any fuel above `n` the loop ends with it, delivered or discarded as that attempt
-- says, after waits of 1, 2, 4, ... seconds that stay at 64 from the seventh on.
pub report_with_retry_ends :
    (f n : ℕ) (a : Answers) (end : ReportEnd)
    → n < f
    → ((j : ℕ) → j < n → stops a j ≡ none)
    → stops a n ≡ some end
    → report_with_retry f a ≡ some (end, waits_from a 0 n)
unfolding report_with_retry
report_with_retry_ends f n a end h goes stop =
    report_loop_ends f n n a 0 end h (omega arith) (λ j k. goes j) stop

accepted-cases : (o : Option ℕ) → (o ≡ some 200) ⊎ (o ≢ some 200)
accepted-cases none = inr (λ e. ground arith)
accepted-cases (some status) = elim (Bool-cases (status == 200)) [
  | inl ok ↦ inl (ground arith)
  | inr other ↦ inr (λ e. ground arith)
]

acknowledge_loop-refused :
    (f : ℕ) (answer : ℕ → Option ℕ) (i : ℕ)
    → answer i ≢ some 200
    → acknowledge_loop (suc f) answer i ≡ acknowledge_loop f answer (suc i)
unfolding acknowledge_loop
acknowledge_loop-refused f answer i refused = elim (Option-cases (answer i)) [
  | inl failed ↦ rw (failed, acknowledge_loop) refl
  | inr (status, got) ↦
      let other : (status == 200) ≡ false = ground (arith, refused) in
      rw (got, acknowledge_loop, other) refl
]

-- The attempts from `i` on, `f` of them at most.
abbrev pub Acknowledged : ℕ → (ℕ → Option ℕ) → ℕ → ℕ × ℕ → Type 0
Acknowledged f answer i made =
    ((k : ℕ) × (i ≤ k)
      × (k < i + f)
      × (answer k ≡ some 200)
      × ((j : ℕ) → i ≤ j → j < k → answer j ≢ some 200)
      × (made ≡ (suc k, k)))
    ⊎ (((j : ℕ) → i ≤ j → j < i + f → answer j ≢ some 200) × (made ≡ (i + f, i + f)))

acknowledge_loop_cases :
    (f : ℕ) (answer : ℕ → Option ℕ) (i : ℕ) → Acknowledged f answer i (acknowledge_loop f answer i)
unfolding acknowledge_loop
acknowledge_loop_cases zero answer i = inr (λ j a b. absurd (omega arith), ground arith)
acknowledge_loop_cases (suc f) answer i = elim (accepted-cases (answer i)) [
  | inl ok ↦ inl (
    i,
    omega arith,
    omega arith,
    ok,
    λ j a b. absurd (omega arith),
    rw (ok, acknowledge_loop) refl,
  )
  | inr refused ↦
      let on = acknowledge_loop-refused f answer i refused in
      let earlier : (j : ℕ) → i ≤ j → j < suc i → answer j ≢ some 200 =
        λ j a b e. refused (ap answer (omega arith) ∙ e) in
      elim (acknowledge_loop_cases f answer (suc i)) [
        | inl (k, above, below, ok, before, made) ↦ inl (
          k,
          omega arith,
          omega arith,
          ok,
          λ j a b e. elim (Bool-cases (i == j)) [
            | inl same ↦ earlier j a (ground arith) e
            | inr later ↦ before j (ground arith) b e
          ],
          on ∙ made,
        )
        | inr (before, made) ↦ inr (
          λ j a b e. elim (Bool-cases (i == j)) [
            | inl same ↦ earlier j a (ground arith) e
            | inr later ↦ before j (ground arith) (omega arith) e
          ],
          on ∙ made ∙ ground arith,
        )
      ]
]

-- acknowledgeStart makes three attempts at most: it stops after the first that is answered by 200,
-- with a wait after each earlier one, or it makes three with three waits.
pub acknowledge_start_cases :
    (answer : ℕ → Option ℕ) → Acknowledged 3 answer 0 (acknowledge_start answer)
unfolding acknowledge_start
acknowledge_start_cases answer = acknowledge_loop_cases 3 answer 0
