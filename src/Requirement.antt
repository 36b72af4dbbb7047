-- ===== src/Requirement.antt =====
-- parseCELRequirement of internal/daemon/master.go: the numbers that a requirement asks for, found
-- by two regular expressions, `cpu_cores\s*(?:>=|==|>)\s*(\d+)` and the same for total_memory_mb.
-- A text is the list of its code points. FindStringSubmatch gives the leftmost match, with all its
-- digits; strconv.Atoi gives the largest `int` for a number that is too large.
use Prim.Native.Char.{code}
use Prim.Native.Nat.{◌^◌, min}
use tasch.Base.{
  ℕ, ◌+◌, ◌-◌, ◌*◌, String, ℤ, pos, Bool, ◌&&◌, ◌||◌, Option, none, some, List, [], ◌∷◌, leb, ◌==◌,
  if◌then◌else◌,
}

-- The code points of a text. `String` has its own `[]` and `∷`.
unfoldable pub codes : String → List ℕ
codes String.[] = []
codes (String.◌∷◌ c s) = code c ∷ codes s

-- What follows a word at the head of a text, if the text begins with it.
unfoldable pub strip : List ℕ → List ℕ → Option (List ℕ)
strip [] s = some s
strip (c ∷ word) [] = none
strip (c ∷ word) (d ∷ s) = let rest = strip word s in if c == d then rest else none

-- `\s`: tab, line feed, form feed, carriage return, space.
abbrev pub is_space : ℕ → Bool
is_space c = c == 9 || c == 10 || c == 12 || c == 13 || c == 32

unfoldable pub skip_spaces : List ℕ → List ℕ
skip_spaces [] = []
skip_spaces (c ∷ s) = let rest = skip_spaces s in if is_space c then rest else c ∷ s

-- `>=`, `==` or `>`
unfoldable pub strip_operator : List ℕ → Option (List ℕ)
strip_operator s = elim (strip (62 ∷ 61 ∷ []) s) [
  | some rest ↦ some rest
  | none ↦ elim (strip (61 ∷ 61 ∷ []) s) [ some rest ↦ some rest | none ↦ strip (62 ∷ []) s ]
]

abbrev pub is_digit : ℕ → Bool
is_digit c = leb 48 c && leb c 57

-- The number that the digits at the head spell, after what is read already.
unfoldable pub read_digits : ℕ → List ℕ → ℕ
read_digits n [] = n
read_digits n (c ∷ s) =
    let rest = read_digits (n * 10 + (c - 48)) s in if is_digit c then rest else n

unfoldable pub read_number : List ℕ → Option ℕ
read_number [] = none
read_number (c ∷ s) = if is_digit c then some (read_digits 0 (c ∷ s)) else none

-- A match of the expression at the head of a text.
unfoldable pub match_here : List ℕ → List ℕ → Option ℕ
match_here word s = elim (strip word s) [
  | none ↦ none
  | some s₁ ↦ elim (strip_operator (skip_spaces s₁)) [
    | none ↦ none
    | some s₂ ↦ read_number (skip_spaces s₂)
  ]
]

-- The leftmost match.
unfoldable pub find_number : List ℕ → List ℕ → Option ℕ
find_number word [] = match_here word []
find_number word (c ∷ s) =
    let later = find_number word s in
    elim (match_here word (c ∷ s)) [ none ↦ later | some n ↦ some n ]

abbrev pub max_int : ℕ
max_int = 2 ^ 63 - 1

unfoldable pub amount_after : String → String → ℤ
amount_after word s = elim (find_number (codes word) (codes s)) [
  | none ↦ pos 0
  | some n ↦ pos (min n max_int)
]

-- The CPUs and the memory.
unfoldable pub parse_cel_requirement : String → ℤ × ℤ
parse_cel_requirement s = (amount_after "cpu_cores" s, amount_after "total_memory_mb" s)
