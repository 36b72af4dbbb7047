-- ===== src/Master/Gang/Matching.antt =====
-- The nodes that tryDispatchGroup of internal/daemon/master.go finds for the ranks of a group.
use tasch.Base.{
  ℕ, String, true, false, none, some, List, [], ◌∷◌, ◌≡◌, ◌≢◌, inl, inr, refl, arith, Bool-cases,
  Option-cases, str_eq,
}
use mathlib.Core.List.{Memᴰ}
use tasch.Jobs.{Job}
use tasch.Breaker.{CircuitBreaker}
use tasch.Tracker.{GpuTracker}
use tasch.Master.Resources.{Cluster, Member}
use tasch.Master.Gang.{is_used, passes_over, fits, pick, match_nodes}

-- A member of the cluster that no name in `used` takes, that advertises itself, and that has room for
-- the job and meets its requirement.
pub record IsChoice (c : Cluster) (gt : GpuTracker) (used : List String) (job : Job)
    (ms : List Member) (m : Member) : Type 0 where
  pub known : Memᴰ m ms
  pub unused : is_used m.name used ≡ false
  pub advertised : str_eq m.meta "" ≡ false
  pub fitting : fits c gt job m ≡ true

-- Each job has a choice of its own: no two have a node of one name.
pub data Assigned (c : Cluster) (gt : GpuTracker)
    : List String → List Job → List Member → Type 0 where
  all_placed : {used : List String} → Assigned c gt used [] []
  place :
      {used : List String} {job : Job} {jobs : List Job} {m : Member} {ms : List Member}
      → IsChoice c gt used job c.members m
      → Assigned c gt (m.name ∷ used) jobs ms
      → Assigned c gt used (job ∷ jobs) (m ∷ ms)

passes_over-false :
    (cb : CircuitBreaker) (used : List String) (m : Member) (now : ℕ)
    → (passes_over cb used m now).1 ≡ false
    → (is_used m.name used ≡ false) × (str_eq m.meta "" ≡ false)
unfolding passes_over
passes_over-false cb used m now h = elim (Bool-cases (is_used m.name used)) [
  | inl taken ↦ absurd (ground (arith, taken))
  | inr free ↦ elim (Bool-cases (str_eq m.meta "")) [
    | inl blank ↦ absurd (ground (arith, free, blank))
    | inr told ↦ (free, told)
  ]
]

pub pick-IsChoice :
    (c : Cluster) (gt : GpuTracker) (used : List String) (job : Job) (now : ℕ) (cb : CircuitBreaker)
    (ms : List Member) (m : Member)
    → (pick c gt used job now cb ms).1 ≡ some m
    → IsChoice c gt used job ms m
unfolding pick
pick-IsChoice c gt used job now cb [] m h = absurd (ground arith)
pick-IsChoice c gt used job now cb (m' ∷ ms) m h =
    let cb' = (passes_over cb used m' now).0 in
    let rest = pick-IsChoice c gt used job now cb' ms m in
    let keep : (pick c gt used job now cb' ms).1 ≡ some m → IsChoice c gt used job (m' ∷ ms) m =
      λ e.
        let r = rest e in
        record {
          known = Memᴰ.tail r.known;
          unused = r.unused;
          advertised = r.advertised;
          fitting = r.fitting;
        } in
    elim (Bool-cases (passes_over cb used m' now).1) [
      | inl over ↦ keep (rw (← h, pick, over) refl)
      | inr stay ↦ elim (Bool-cases (fits c gt job m')) [
        | inr unfit ↦ keep (rw (← h, pick, stay, unfit) refl)
        | inl fit ↦
            let s : some m' ≡ some m = rw (← h, pick, stay, fit) refl in
            let free = passes_over-false cb used m' now stay in
            let e : m' ≡ m = ground (arith, s) in
            rw (← e) (record {
              known = Memᴰ.head refl;
              unused = free.0;
              advertised = free.1;
              fitting = fit;
            })
      ]
    ]

none-some : {A : Type 0} (a : A) → none ≢ some a
none-some a h = ground (arith, h)

pub match_nodes-Assigned :
    (c : Cluster) (gt : GpuTracker) (now : ℕ) (cb : CircuitBreaker) (used : List String)
    (jobs : List Job) (ms : List Member)
    → (match_nodes c gt now cb used jobs).1 ≡ some ms
    → Assigned c gt used jobs ms
unfolding match_nodes
match_nodes-Assigned c gt now cb used [] ms h =
    let s : some [] ≡ some ms = h in let e : [] ≡ ms = ground (arith, s) in rw (← e) all_placed
match_nodes-Assigned c gt now cb used (job ∷ jobs) ms h =
    let found = pick c gt used job now cb c.members in
    elim (Option-cases found.1) [
      | inl missing ↦ absurd (none-some ms (rw (← h, match_nodes, missing) refl))
      | inr (m, one) ↦
          let more = match_nodes c gt now found.0 (m.name ∷ used) jobs in
          let choice = pick-IsChoice c gt used job now cb c.members m one in
          elim (Option-cases more.1) [
            | inl stuck ↦ absurd (none-some ms (rw (← h, match_nodes, one, stuck) refl))
            | inr (ms', rest) ↦
                let tail = match_nodes-Assigned c gt now found.0 (m.name ∷ used) jobs ms' rest in
                let s : some (m ∷ ms') ≡ some ms = rw (← h, match_nodes, one, rest) refl in
                let e : m ∷ ms' ≡ ms = ground (arith, s) in rw (← e) (place choice tail)
          ]
    ]
