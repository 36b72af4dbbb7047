-- ===== src/Tracker/Balance.antt =====
-- The tracker against the list of allocations that are out.
use tasch.Base.{
  ◌≡◌, refl, String, ℤ, pos, ◌+ℤ◌, ◌-ℤ◌, ◌≤ℤ◌, ◌<ℤ◌, Map, if◌then◌else◌, List, [], ◌∷◌, ◌++◌,
  eq_iff, str_eq, arith, +ℤ_parts, -ℤ_parts, eq_of_parts, int_laws, lookup,
}
use tasch.Tracker.{GpuTracker, new_gpu_tracker, amount, add_amount, sub_amount, allocate, release}
use tasch.Tracker.Reads.{amount-add_amount, amount-sub_amount}

-- One call of Allocate that no call of Release has taken back.
pub record Held : Type 0 where
  pub node : String
  pub gpus : ℤ
  pub cpus : ℤ
  pub mem_mb : ℤ

-- The sum of one of the amounts over the allocations on a node.
unfoldable pub total : (Held → ℤ) → String → List Held → ℤ
total f node [] = pos 0
total f node (h ∷ hs) = (if str_eq h.node node then f h else pos 0) +ℤ total f node hs

-- No amount is negative.
abbrev pub IsNonneg : List Held → Type 0
IsNonneg [] = Unit {0}
IsNonneg (h ∷ hs) = (pos 0 ≤ℤ h.gpus) × (pos 0 ≤ℤ h.cpus) × (pos 0 ≤ℤ h.mem_mb) × IsNonneg hs

-- The tracker reads the three sums on every node.
pub record Tracks (gt : GpuTracker) (hs : List Held) : Type 0 where
  pub gpus : (node : String) → amount node gt.gpus_allocated ≡ total (λ h. h.gpus) node hs
  pub cpus : (node : String) → amount node gt.cpus_allocated ≡ total (λ h. h.cpus) node hs
  pub mem : (node : String) → amount node gt.mem_allocated ≡ total (λ h. h.mem_mb) node hs

abbrev pub allocate_held : GpuTracker → Held → GpuTracker
allocate_held gt h = allocate gt h.node h.gpus h.cpus h.mem_mb

abbrev pub release_held : GpuTracker → Held → GpuTracker
release_held gt h = release gt h.node h.gpus h.cpus h.mem_mb

add-total :
    (f : Held → ℤ) (h : Held) (hs : List Held) (m : Map ℤ)
    → ((node : String) → amount node m ≡ total f node hs)
    → (node : String) → amount node (add_amount h.node (f h) m) ≡ total f node (h ∷ hs)
unfolding total
add-total f h hs m e node = ground (
  arith,
  amount-add_amount h.node node (f h) m,
  e h.node,
  e node,
  eq_iff h.node node,
  +ℤ_parts (total f node hs) (f h),
  +ℤ_parts (f h) (total f node hs),
  +ℤ_parts (pos 0) (total f node hs),
  eq_of_parts (total f node hs +ℤ f h) (f h +ℤ total f node hs),
  eq_of_parts (pos 0 +ℤ total f node hs) (total f node hs),
)

-- Allocate adds to what is out.
pub allocate-Tracks :
    (gt : GpuTracker) (h : Held) (hs : List Held)
    → Tracks gt hs
    → Tracks (allocate_held gt h) (h ∷ hs)
unfolding allocate
allocate-Tracks gt h hs t = record {
  gpus = add-total (λ a. a.gpus) h hs gt.gpus_allocated t.gpus;
  cpus = add-total (λ a. a.cpus) h hs gt.cpus_allocated t.cpus;
  mem = add-total (λ a. a.mem_mb) h hs gt.mem_allocated t.mem;
}

-- The sum does not depend on where an allocation stands in the list.
total_middle :
    (f : Held → ℤ) (node : String) (xs : List Held) (h : Held) (ys : List Held)
    → total f node (xs ++ h ∷ ys) ≡ total f node (h ∷ (xs ++ ys))
unfolding total
total_middle f node [] h ys = refl
total_middle f node (x ∷ xs) h ys = rw (total_middle f node xs h ys) (
    swap_first (if str_eq x.node node then f x else pos 0)
      (if str_eq h.node node then f h else pos 0) (total f node (xs ++ ys)))
  where
    swap_first : (a b c : ℤ) → a +ℤ (b +ℤ c) ≡ b +ℤ (a +ℤ c)
    swap_first a b c = omega int_laws

sub-total :
    (f : Held → ℤ) (h : Held) (xs ys : List Held) (m : Map ℤ)
    → ((node : String) → pos 0 ≤ℤ total f node (xs ++ ys))
    → ((node : String) → amount node m ≡ total f node (xs ++ h ∷ ys))
    → (node : String) → amount node (sub_amount h.node (f h) m) ≡ total f node (xs ++ ys)
unfolding total
sub-total f h xs ys m low e node =
    let rest = total f node (xs ++ ys) in
    ground (
      arith,
      amount-sub_amount h.node node (f h) m,
      low node,
      e h.node,
      e node,
      total_middle f node xs h ys,
      eq_iff h.node node,
      +ℤ_parts (f h) rest,
      +ℤ_parts (pos 0) rest,
      -ℤ_parts (f h +ℤ rest) (f h),
      eq_of_parts (f h +ℤ rest -ℤ f h) rest,
      eq_of_parts (pos 0) rest,
      eq_of_parts (pos 0 +ℤ rest) rest,
    )

abbrev AllNonneg : (Held → ℤ) → List Held → Type 0
AllNonneg f [] = Unit {0}
AllNonneg f (h ∷ hs) = (pos 0 ≤ℤ f h) × AllNonneg f hs

total-nonneg :
    (f : Held → ℤ) (node : String) (hs : List Held) → AllNonneg f hs → pos 0 ≤ℤ total f node hs
unfolding total
total-nonneg f node [] n = omega arith
total-nonneg f node (h ∷ hs) n = ground (
  arith,
  total-nonneg f node hs n.1,
  +ℤ_parts (f h) (total f node hs),
  +ℤ_parts (pos 0) (total f node hs),
)

gpus-AllNonneg : (hs : List Held) → IsNonneg hs → AllNonneg (λ h. h.gpus) hs
gpus-AllNonneg [] n = tt
gpus-AllNonneg (h ∷ hs) n = (n.0, gpus-AllNonneg hs n.3)

cpus-AllNonneg : (hs : List Held) → IsNonneg hs → AllNonneg (λ h. h.cpus) hs
cpus-AllNonneg [] n = tt
cpus-AllNonneg (h ∷ hs) n = (n.1, cpus-AllNonneg hs n.3)

mem-AllNonneg : (hs : List Held) → IsNonneg hs → AllNonneg (λ h. h.mem_mb) hs
mem-AllNonneg [] n = tt
mem-AllNonneg (h ∷ hs) n = (n.2, mem-AllNonneg hs n.3)

-- Release of an allocation that is out takes it out of the list, if what stays out is not negative.
pub release-Tracks :
    (gt : GpuTracker) (xs : List Held) (h : Held) (ys : List Held)
    → IsNonneg (xs ++ ys)
    → Tracks gt (xs ++ h ∷ ys)
    → Tracks (release_held gt h) (xs ++ ys)
unfolding release
release-Tracks gt xs h ys n t = record {
  gpus =
      sub-total (λ a. a.gpus) h xs ys gt.gpus_allocated
        (λ node. total-nonneg _ node (xs ++ ys) (gpus-AllNonneg (xs ++ ys) n)) t.gpus;
  cpus =
      sub-total (λ a. a.cpus) h xs ys gt.cpus_allocated
        (λ node. total-nonneg _ node (xs ++ ys) (cpus-AllNonneg (xs ++ ys) n)) t.cpus;
  mem =
      sub-total (λ a. a.mem_mb) h xs ys gt.mem_allocated
        (λ node. total-nonneg _ node (xs ++ ys) (mem-AllNonneg (xs ++ ys) n)) t.mem;
}

-- A second Release of the same allocation takes away what others hold: with `h` alone released and
-- `others` still out, of which the node has some GPUs, the tracker reads fewer GPUs than they hold.
pub release_twice_frees_others :
    (gt : GpuTracker) (h : Held) (others : List Held)
    → Tracks gt (h ∷ others)
    → IsNonneg others
    → pos 0 <ℤ h.gpus
    → pos 0 <ℤ total (λ a. a.gpus) h.node others
    → amount h.node (release_held (release_held gt h) h).gpus_allocated
      <ℤ total (λ a. a.gpus) h.node others
unfolding release
release_twice_frees_others gt h others t n some_gpus out =
    let once = release-Tracks gt [] h others n t in
    ground (
      arith,
      once.gpus h.node,
      amount-sub_amount h.node h.node h.gpus (sub_amount h.node h.gpus gt.gpus_allocated),
      eq_iff h.node h.node,
      -ℤ_parts (total (λ a. a.gpus) h.node others) h.gpus,
    )

-- A new tracker reads 0 everywhere.
pub new-Tracks : Tracks new_gpu_tracker []
unfolding new_gpu_tracker amount lookup total
new-Tracks = record { gpus = λ node. refl; cpus = λ node. refl; mem = λ node. refl }
