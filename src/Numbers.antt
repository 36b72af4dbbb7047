-- ===== src/Numbers.antt =====
-- The readers of numbers and the trimming that internal/setup, internal/config and internal/daemon
-- call: strings.TrimSpace, strconv.Atoi and fmt.Sscanf with `%d`. An `int` has 64 bits.
pub mod RoundTrip
use Prim.Native.Char.{Char, code}
use Prim.Native.Nat.{◌^◌}
use tasch.Base.{
  ℕ, ◌-◌, String, ℤ, pos, negsuc, Bool, true, false, ◌&&◌, ◌||◌, Option, none, some, List, [], ◌∷◌,
  leb, ltb, ◌==◌, itoa, concat, if◌then◌else◌,
}
use tasch.Requirement.{codes, is_digit, read_digits}

-- unicode.IsSpace, and the spaces of fmt.
abbrev pub is_white : ℕ → Bool
is_white c =
    (leb 9 c && leb c 13)
    || c == 32
    || c == 133
    || c == 160
    || c == 5760
    || (leb 8192 c && leb c 8202)
    || c == 8232
    || c == 8233
    || c == 8239
    || c == 8287
    || c == 12288

unfoldable pub trim_left : String → String
trim_left String.[] = String.[]
trim_left (String.◌∷◌ c s) =
    let rest = trim_left s in if is_white (code c) then rest else String.◌∷◌ c s

abbrev pub prepend : Char → String → String
prepend c String.[] = if is_white (code c) then String.[] else String.◌∷◌ c String.[]
prepend c (String.◌∷◌ d s) = String.◌∷◌ c (String.◌∷◌ d s)

unfoldable pub trim_right : String → String
trim_right String.[] = String.[]
trim_right (String.◌∷◌ c s) = prepend c (trim_right s)

-- strings.TrimSpace
unfoldable pub trim_space : String → String
trim_space s = trim_right (trim_left s)

-- A sign at the head: whether it is a minus, and the rest.
abbrev pub read_sign : List ℕ → Bool × List ℕ
read_sign [] = (false, [])
read_sign (c ∷ s) = if c == 45 then (true, s) else if c == 43 then (false, s) else (false, c ∷ s)

unfoldable pub all_digits : List ℕ → Bool
all_digits [] = true
all_digits (c ∷ s) = is_digit c && all_digits s

-- strconv.ParseInt refuses what an `int` does not hold.
unfoldable pub in_range : Bool → ℕ → Option ℤ
in_range false n = if ltb n (2 ^ 63) then some (pos n) else none
in_range true n =
    if n == 0 then some (pos 0) else if leb n (2 ^ 63) then some (negsuc (n - 1)) else none

abbrev digits_value : Bool → List ℕ → Option ℤ
digits_value minus [] = none
digits_value minus (c ∷ s) =
    if all_digits (c ∷ s) then in_range minus (read_digits 0 (c ∷ s)) else none

-- strconv.Atoi; `none` is its error.
unfoldable pub atoi : String → Option ℤ
atoi s = let (minus, digits) = read_sign (codes s) in digits_value minus digits

-- SkipSpace of a scan; a line feed is an error.
unfoldable pub skip_blanks : List ℕ → Option (List ℕ)
skip_blanks [] = some []
skip_blanks (c ∷ s) =
    let rest = skip_blanks s in if c == 10 then none else if is_white c then rest else some (c ∷ s)

-- The digits at the head, one at least; what follows them is left unread.
abbrev head_value : Bool → List ℕ → Option ℤ
head_value minus [] = none
head_value minus (c ∷ s) = if is_digit c then in_range minus (read_digits 0 (c ∷ s)) else none

-- fmt.Sscanf(s, "%d", &v): the new value of v, or none where v keeps its value.
unfoldable pub sscanf_d : String → Option ℤ
sscanf_d s = elim (skip_blanks (codes s)) [
  | none ↦ none
  | some rest ↦ let (minus, digits) = read_sign rest in head_value minus digits
]

-- `%d`
unfoldable pub int_text : ℤ → String
int_text (pos n) = itoa n
int_text (negsuc n) = concat "-" (itoa (Prim.Native.Nat.suc n))
