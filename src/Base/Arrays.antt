-- ===== src/Base/Arrays.antt =====
-- Slices of pointers as lists under native indices, with the multiset of their entries.
-- A read out of range gives 0 and a write out of range changes nothing: the program's own guards
-- keep every index in range, where the source would otherwise panic.
use Prim.Native.Nat.{ℕ, zero, suc, ◌+◌, ◌≤◌, ◌<◌}
use mathlib.Core.Path.{◌≡◌, refl}
use mathlib.Core.List.{List, [], ◌∷◌, ◌++◌}
use mathlib.Core.Logic.{inl, inr}
use mathlib.Core.Bool.{true}
use native.Mathlib.Omega.{arith}
use tasch.Base.Tests.{◌==◌, if◌then◌else◌, Bool-cases}

module _ {ℓ} {A : Type ℓ} where
  abbrev pub length : List A → ℕ
  length [] = 0
  length (x ∷ xs) = suc (length xs)

  pub length-append : (xs ys : List A) → length (xs ++ ys) ≡ length xs + length ys
  length-append [] ys = omega arith
  length-append (x ∷ xs) ys = omega (arith, length-append xs ys)

unfoldable pub get : List ℕ → ℕ → ℕ
get [] i = 0
get (x ∷ xs) zero = x
get (x ∷ xs) (suc i) = get xs i

unfoldable pub set : List ℕ → ℕ → ℕ → List ℕ
set [] i v = []
set (x ∷ xs) zero v = v ∷ xs
set (x ∷ xs) (suc i) v = x ∷ set xs i v

-- `a[0 : n]`
unfoldable pub take : ℕ → List ℕ → List ℕ
take zero xs = []
take (suc n) [] = []
take (suc n) (x ∷ xs) = x ∷ take n xs

-- How often a pointer stands in a slice.
unfoldable pub count : ℕ → List ℕ → ℕ
count p [] = 0
count p (x ∷ xs) = (if x == p then 1 else 0) + count p xs

pub length-set : (xs : List ℕ) (i v : ℕ) → length (set xs i v) ≡ length xs
unfolding set
length-set [] i v = refl
length-set (x ∷ xs) zero v = refl
length-set (x ∷ xs) (suc i) v = omega (arith, length-set xs i v)

pub get-set :
    (xs : List ℕ) (i j v : ℕ)
    → i < length xs
    → get (set xs i v) j ≡ (if i == j then v else get xs j)
unfolding get set
get-set [] i j v h = absurd (omega arith)
get-set (x ∷ xs) zero zero v h = refl
get-set (x ∷ xs) (suc i) (suc j) v h = ground (arith, get-set xs i j v)
get-set (x ∷ xs) i j v h = ground arith

pub count-set :
    (p : ℕ) (xs : List ℕ) (i v : ℕ)
    → i < length xs
    → count p (set xs i v) + (if get xs i == p then 1 else 0)
      ≡ count p xs + (if v == p then 1 else 0)
unfolding get set count
count-set p [] i v h = absurd (omega arith)
count-set p (x ∷ xs) zero v h = omega arith
count-set p (x ∷ xs) (suc i) v h = omega (arith, count-set p xs i v (omega arith))

pub get-append : (xs : List ℕ) (v i : ℕ) → i < length xs → get (xs ++ v ∷ []) i ≡ get xs i
unfolding get
get-append [] v i h = absurd (omega arith)
get-append (x ∷ xs) v zero h = refl
get-append (x ∷ xs) v (suc i) h = get-append xs v i (omega arith)

pub get-append_end : (xs : List ℕ) (v : ℕ) → get (xs ++ v ∷ []) (length xs) ≡ v
unfolding get
get-append_end [] v = refl
get-append_end (x ∷ xs) v = get-append_end xs v

pub count-append_end :
    (p : ℕ) (xs : List ℕ) (v : ℕ) → count p (xs ++ v ∷ []) ≡ count p xs + (if v == p then 1 else 0)
unfolding count
count-append_end p [] v = omega arith
count-append_end p (x ∷ xs) v = omega (arith, count-append_end p xs v)

pub length-take : (n : ℕ) (xs : List ℕ) → n < suc (length xs) → length (take n xs) ≡ n
unfolding take
length-take zero xs h = refl
length-take (suc n) [] h = absurd (omega arith)
length-take (suc n) (x ∷ xs) h = omega (arith, length-take n xs (omega arith))

pub get-take : (n : ℕ) (xs : List ℕ) (i : ℕ) → i < n → get (take n xs) i ≡ get xs i
unfolding get take
get-take zero xs i h = absurd (omega arith)
get-take (suc n) [] i h = refl
get-take (suc n) (x ∷ xs) zero h = refl
get-take (suc n) (x ∷ xs) (suc i) h = get-take n xs i (omega arith)

-- The last entry is what `take` drops.
pub count-take :
    (p n : ℕ) (xs : List ℕ)
    → length xs ≡ suc n
    → count p (take n xs) + (if get xs n == p then 1 else 0) ≡ count p xs
unfolding get take count
count-take p n [] h = absurd (omega arith)
count-take p zero (x ∷ []) h = omega arith
count-take p zero (x ∷ y ∷ xs) h = absurd (omega arith)
count-take p (suc n) (x ∷ xs) h = omega (arith, count-take p n xs (omega arith))

-- An entry in range is counted.
pub count-get : (xs : List ℕ) (i : ℕ) → i < length xs → 0 < count (get xs i) xs
unfolding get count
count-get [] i h = absurd (omega arith)
count-get (x ∷ xs) zero h = ground arith
count-get (x ∷ xs) (suc i) h = omega (arith, count-get xs i (omega arith))

-- An entry that is counted stands at some index.
pub index_of_count :
    (p : ℕ) (xs : List ℕ) → 0 < count p xs → (i : ℕ) × (i < length xs) × (get xs i ≡ p)
unfolding get count
index_of_count p [] h = absurd (omega arith)
index_of_count p (x ∷ xs) h = elim (Bool-cases (x == p)) [
  | inl here ↦ (0, omega arith, ground arith)
  | inr later ↦
      let (i, inside, found) = index_of_count p xs (ground arith) in (suc i, omega arith, found)
]

-- An entry that stands at one index at most is counted once at most.
pub count-le_one :
    (p : ℕ) (xs : List ℕ)
    → ((i j : ℕ) → i < length xs → j < length xs → get xs i ≡ p → get xs j ≡ p → i ≡ j)
    → count p xs ≤ 1
unfolding get count
count-le_one p [] h = omega arith
count-le_one p (x ∷ xs) h = elim (Bool-cases (x == p)) [
  | inl here ↦ ground (arith, not_later here)
  | inr later ↦ ground (
    arith,
    count-le_one p xs
        λ i j hi hj ei ej. omega (arith, h (suc i) (suc j) (omega arith) (omega arith) ei ej),
  )
]
  where
    not_later : (x == p) ≡ true → count p xs ≡ 0
    not_later here = elim (Bool-cases (count p xs == 0)) [
      | inl none_left ↦ ground arith
      | inr some_left ↦
          let (i, inside, found) = index_of_count p xs (ground arith) in
          absurd (omega (arith, h 0 (suc i) (omega arith) (omega arith) (ground arith) found))
    ]
