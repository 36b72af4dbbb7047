-- ===== src/Profiler/Text.antt =====
-- The texts that the profiler reads: strings.Split, SplitN, ToLower, and its regular expressions.
use Prim.Native.Char.{Char, code}
use Prim.Native.Nat.{◌^◌}
use tasch.Base.{
  ℕ, ◌+◌, ◌-◌, ◌/◌, String, ℤ, pos, negsuc, Bool, true, false, ◌&&◌, ◌||◌, Option, none, some, List,
  [], ◌∷◌, leb, ltb, ◌==◌, if◌then◌else◌,
}
use tasch.Requirement.{codes, is_space, is_digit, read_digits}
use tasch.Numbers.{read_sign, all_digits}

abbrev add_char : Char → List String → List String
add_char c [] = String.◌∷◌ c "" ∷ []
add_char c (s ∷ ss) = String.◌∷◌ c s ∷ ss

-- strings.Split at a character.
unfoldable pub split_at_char : ℕ → String → List String
split_at_char d String.[] = "" ∷ []
split_at_char d (String.◌∷◌ c s) =
    let rest = split_at_char d s in if code c == d then "" ∷ rest else add_char c rest

abbrev pub split_lines : String → List String
split_lines = split_at_char 10

abbrev pub split_commas : String → List String
split_commas = split_at_char 44

-- The rest of a text that begins with a word, by a test of two characters.
unfoldable pub strip_word : (ℕ → ℕ → Bool) → String → String → Option String
strip_word same String.[] s = some s
strip_word same (String.◌∷◌ d word) String.[] = none
strip_word same (String.◌∷◌ d word) (String.◌∷◌ c s) =
    let rest = strip_word same word s in if same (code d) (code c) then rest else none

abbrev pub exactly : ℕ → ℕ → Bool
exactly d c = d == c

abbrev before_rest : Char → Option (String × String) → Option (String × String)
before_rest c none = none
before_rest c (some (head, rest)) = some (String.◌∷◌ c head, rest)

-- SplitN(line, ", ", 2), where it gives two parts.
unfoldable pub cut : String → Option (String × String)
cut String.[] = none
cut (String.◌∷◌ c s) = elim (strip_word exactly ", " (String.◌∷◌ c s)) [
  | some rest ↦ some ("", rest)
  | none ↦ before_rest c (cut s)
]

-- The value that strconv.Atoi and ParseInt give with or without an error: 0 for a text that is no
-- number, the nearest `int` for one that is too large.
abbrev clamp : Bool → ℕ → ℤ
clamp false n = if ltb n (2 ^ 63) then pos n else pos (2 ^ 63 - 1)
clamp true n =
    if n == 0 then pos 0 else if leb n (2 ^ 63) then negsuc (n - 1) else negsuc (2 ^ 63 - 1)

abbrev read_value : Bool → List ℕ → ℤ
read_value minus [] = pos 0
read_value minus (c ∷ s) = if all_digits (c ∷ s) then clamp minus (read_digits 0 (c ∷ s)) else pos 0

unfoldable pub atoi_value : String → ℤ
atoi_value s = let (minus, digits) = read_sign (codes s) in read_value minus digits

-- `/1024/1024`, which cuts towards zero.
unfoldable pub megabytes : ℤ → ℤ
megabytes (pos n) = pos (n / 1024 / 1024)
megabytes (negsuc n) = let q = (n + 1) / 1024 / 1024 in if q == 0 then pos 0 else negsuc (q - 1)

-- `[\d.]+`, greedy.
unfoldable pub version_head : String → String
version_head String.[] = ""
version_head (String.◌∷◌ c s) =
    let rest = version_head s in if is_digit (code c) || code c == 46 then String.◌∷◌ c rest else ""

-- `\d+`, greedy.
unfoldable pub digits_head : String → String
digits_head String.[] = ""
digits_head (String.◌∷◌ c s) =
    let rest = digits_head s in if is_digit (code c) then String.◌∷◌ c rest else ""

unfoldable pub drop_spaces : String → String
drop_spaces String.[] = ""
drop_spaces (String.◌∷◌ c s) =
    let rest = drop_spaces s in if is_space (code c) then rest else String.◌∷◌ c s

-- `\s+` and a group after the word, where the group is what `head` reads, if it is not empty.
abbrev pub spaced : (String → String) → String → Option String
spaced head String.[] = none
spaced head (String.◌∷◌ c s) =
    if is_space (code c)
    then (elim (head (drop_spaces s)) [ String.[] ↦ none | String.◌∷◌ d v ↦ some (String.◌∷◌ d v) ])
    else none

-- The group in the leftmost match of a word, `\s+` and the group.
unfoldable pub find_group : (ℕ → ℕ → Bool) → (String → String) → String → String → Option String
find_group same head word String.[] = none
find_group same head word (String.◌∷◌ c s) =
    let later = find_group same head word s in
    elim (strip_word same word (String.◌∷◌ c s)) [
      | none ↦ later
      | some rest ↦ elim (spaced head rest) [ none ↦ later | some v ↦ some v ]
    ]

-- A letter under `(?i)`: the capitals, and the long s.
abbrev pub fold : ℕ → ℕ
fold c = if leb 65 c && leb c 90 then c + 32 else if c == 383 then 115 else c

abbrev pub either_case : ℕ → ℕ → Bool
either_case d c = fold d == fold c

-- Whether a text has a word, in small letters, in either case: strings.ToLower and Contains.
abbrev pub lower : ℕ → ℕ
lower c = if leb 65 c && leb c 90 then c + 32 else c

unfoldable pub has_lower : String → String → Bool
has_lower word String.[] = elim (strip_word (λ d c. d == lower c) word "") [
  | none ↦ false
  | some r ↦ true
]
has_lower word (String.◌∷◌ c s) =
    let later = has_lower word s in
    elim (strip_word (λ d k. d == lower k) word (String.◌∷◌ c s)) [ none ↦ later | some r ↦ true ]

-- strings.ReplaceAll(s, "\x00", "")
unfoldable pub drop_nul : String → String
drop_nul String.[] = ""
drop_nul (String.◌∷◌ c s) = let rest = drop_nul s in if code c == 0 then rest else String.◌∷◌ c rest
