-- ===== src/Master/Gang/Stuck.antt =====
-- The ranks that tryDispatchGroup of internal/daemon/master.go finds no node for.
use tasch.Base.{
  ℕ, String, true, false, none, some, List, [], ◌∷◌, ◌≡◌, ◌≢◌, ◌⊎◌, inl, inr, refl, arith,
  Bool-cases, Option-cases, str_eq,
}
use mathlib.Core.List.{Memᴰ}
use tasch.Jobs.{Job}
use tasch.Breaker.{CircuitBreaker, is_blocked}
use tasch.Tracker.{GpuTracker}
use tasch.Master.Resources.{Cluster, Member}
use tasch.Master.Gang.{is_used, passes_over, fits, pick, match_nodes}
use tasch.Master.Gang.Matching.{IsChoice, pick-IsChoice}

-- What calls of IsBlocked at one time make of a circuit breaker.
pub data Asked (now : ℕ) (cb : CircuitBreaker) : CircuitBreaker → Type 0 where
  unasked : Asked now cb cb
  ask :
      {cb' : CircuitBreaker}
      → Asked now cb cb'
      → (name : String) → Asked now cb (is_blocked cb' name now).0

-- Why a member is no choice for a job: its name is taken, it does not advertise itself, it is blocked,
-- or the job does not fit.
abbrev pub IsRuledOut :
    Cluster → GpuTracker → ℕ → CircuitBreaker → List String → Job → Member → Type 0
IsRuledOut c gt now cb used job m =
    (is_used m.name used ≡ true)
    ⊎ (str_eq m.meta "" ≡ true)
    ⊎ ((cb' : CircuitBreaker) × Asked now cb cb' × ((is_blocked cb' m.name now).1 ≡ true))
    ⊎ (fits c gt job m ≡ false)

-- The first jobs have choices of their own, and for the next of them every member is ruled out.
pub data Stuck (c : Cluster) (gt : GpuTracker) (now : ℕ) (cb : CircuitBreaker)
    : List String → List Job → Type 0 where
  stuck_here :
      {used : List String} {job : Job} {jobs : List Job}
      → ((m : Member) → Memᴰ m c.members → IsRuledOut c gt now cb used job m)
      → Stuck c gt now cb used (job ∷ jobs)
  stuck_later :
      {used : List String} {job : Job} {jobs : List Job} {m : Member}
      → IsChoice c gt used job c.members m
      → Stuck c gt now cb (m.name ∷ used) jobs
      → Stuck c gt now cb used (job ∷ jobs)

some-none : {A : Type 0} (a : A) → some a ≢ none
some-none a h = ground (arith, h)

passes_over-Asked :
    (now : ℕ) (cb cb' : CircuitBreaker) (used : List String) (m : Member)
    → Asked now cb cb'
    → Asked now cb (passes_over cb' used m now).0
unfolding passes_over
passes_over-Asked now cb cb' used m asked = elim (Bool-cases (is_used m.name used)) [
  | inl taken ↦ rw taken asked
  | inr free ↦ elim (Bool-cases (str_eq m.meta "")) [
    | inl blank ↦ rw (free, blank) asked
    | inr told ↦ rw (free, told) (ask asked m.name)
  ]
]

pick-Asked :
    (c : Cluster) (gt : GpuTracker) (used : List String) (job : Job) (now : ℕ)
    (cb cb' : CircuitBreaker) (ms : List Member)
    → Asked now cb cb'
    → Asked now cb (pick c gt used job now cb' ms).0
unfolding pick
pick-Asked c gt used job now cb cb' [] asked = asked
pick-Asked c gt used job now cb cb' (m ∷ ms) asked =
    let next = passes_over-Asked now cb cb' used m asked in
    let rest = pick-Asked c gt used job now cb (passes_over cb' used m now).0 ms next in
    elim (Bool-cases (passes_over cb' used m now).1) [
      | inl over ↦ rw over rest
      | inr stay ↦ elim (Bool-cases (fits c gt job m)) [
        | inl fit ↦ rw (stay, fit) next
        | inr unfit ↦ rw (stay, unfit) rest
      ]
    ]

over-IsRuledOut :
    (c : Cluster) (gt : GpuTracker) (used : List String) (job : Job) (now : ℕ)
    (cb cb' : CircuitBreaker) (m : Member)
    → Asked now cb cb'
    → (passes_over cb' used m now).1 ≡ true
    → IsRuledOut c gt now cb used job m
unfolding passes_over
over-IsRuledOut c gt used job now cb cb' m asked over = elim (Bool-cases (is_used m.name used)) [
  | inl taken ↦ inl taken
  | inr free ↦ elim (Bool-cases (str_eq m.meta "")) [
    | inl blank ↦ inr (inl blank)
    | inr told ↦ inr (inr (inl (cb', asked, rw (free, told) at over)))
  ]
]

pick-none :
    (c : Cluster) (gt : GpuTracker) (used : List String) (job : Job) (now : ℕ)
    (cb cb' : CircuitBreaker) (ms : List Member) (m : Member)
    → Asked now cb cb'
    → (pick c gt used job now cb' ms).1 ≡ none
    → Memᴰ m ms
    → IsRuledOut c gt now cb used job m
unfolding pick
pick-none c gt used job now cb cb' [] m asked stuck known = elim known [ ]
pick-none c gt used job now cb cb' (m' ∷ ms) m asked stuck (Memᴰ.head e) =
    elim (Bool-cases (passes_over cb' used m' now).1) [
      | inl over ↦ rw e (over-IsRuledOut c gt used job now cb cb' m' asked over)
      | inr stay ↦ elim (Bool-cases (fits c gt job m')) [
        | inl fit ↦ absurd (some-none m' (rw (← stuck, pick, stay, fit) refl))
        | inr unfit ↦ rw e (inr (inr (inr unfit)))
      ]
    ]
pick-none c gt used job now cb cb' (m' ∷ ms) m asked stuck (Memᴰ.tail later) =
    let next = passes_over-Asked now cb cb' used m' asked in
    let passed = (passes_over cb' used m' now).0 in
    let on : (pick c gt used job now passed ms).1 ≡ none → IsRuledOut c gt now cb used job m =
      λ h. pick-none c gt used job now cb passed ms m next h later in
    elim (Bool-cases (passes_over cb' used m' now).1) [
      | inl over ↦ on (rw (← stuck, pick, over) refl)
      | inr stay ↦ elim (Bool-cases (fits c gt job m')) [
        | inl fit ↦ absurd (some-none m' (rw (← stuck, pick, stay, fit) refl))
        | inr unfit ↦ on (rw (← stuck, pick, stay, unfit) refl)
      ]
    ]

pub match_nodes-Stuck :
    (c : Cluster) (gt : GpuTracker) (now : ℕ) (cb cb' : CircuitBreaker) (used : List String)
    (jobs : List Job)
    → Asked now cb cb'
    → (match_nodes c gt now cb' used jobs).1 ≡ none
    → Stuck c gt now cb used jobs
unfolding match_nodes
match_nodes-Stuck c gt now cb cb' used [] asked stuck = absurd (ground (arith, stuck))
match_nodes-Stuck c gt now cb cb' used (job ∷ jobs) asked stuck =
    let found = pick c gt used job now cb' c.members in
    elim (Option-cases found.1) [
      | inl missing ↦
          stuck_here (λ m known. pick-none c gt used job now cb cb' c.members m asked missing known)
      | inr (m, one) ↦
          let more = match_nodes c gt now found.0 (m.name ∷ used) jobs in
          elim (Option-cases more.1) [
            | inl later ↦ stuck_later (pick-IsChoice c gt used job now cb' c.members m one) (
                match_nodes-Stuck c gt now cb found.0 (m.name ∷ used) jobs
                  (pick-Asked c gt used job now cb cb' c.members asked) later)
            | inr (ms, rest) ↦
                absurd (some-none (m ∷ ms) (rw (← stuck, match_nodes, one, rest) refl))
          ]
    ]
