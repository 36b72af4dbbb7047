-- ===== src/Base/Texts.antt =====
-- Texts built and tested as the source does: joined, printed from a number, searched.
use Prim.Native.Nat.{ℕ, zero, suc, ◌/◌, ◌%◌}
use Prim.Native.String.{String, ◌++◌}
use mathlib.Core.Bool.{Bool, true, false}
use mathlib.Core.Option.{none, some}
use mathlib.Core.List.{List, [], ◌∷◌}
use text.Mathlib.Text.{find?}
use tasch.Base.Tests.{◌==◌, ltb, if◌then◌else◌}

-- `s + t`
abbrev pub concat : String → String → String
concat s t = s ++ t

abbrev pub digit : ℕ → String
digit d =
    if d == 0
    then "0"
    else if d == 1
    then "1"
    else if d == 2
    then "2"
    else if d == 3
    then "3"
    else if d == 4
    then "4"
    else if d == 5
    then "5"
    else if d == 6
    then "6"
    else if d == 7
    then "7"
    else if d == 8
    then "8"
    else "9"

-- `n` halves or better in each round, so `n + 1` rounds are enough.
unfoldable pub itoa_loop : ℕ → ℕ → String
itoa_loop zero n = ""
itoa_loop (suc f) n =
    let high = itoa_loop f (n / 10) in if ltb n 10 then digit n else concat high (digit (n % 10))

-- strconv.Itoa of a number that is not negative.
unfoldable pub itoa : ℕ → String
unfolding itoa_loop
itoa n = itoa_loop (suc n) n

-- strings.Join
unfoldable pub join : String → List String → String
join sep [] = ""
join sep (s ∷ []) = s
join sep (s ∷ t ∷ ts) = concat s (concat sep (join sep (t ∷ ts)))

-- strings.Contains
unfoldable pub contains : String → String → Bool
contains s part = elim (find? s part) [ none ↦ false | some i ↦ true ]
