-- ===== src/Numbers/RoundTrip.antt =====
-- strconv.Atoi reads what strconv.Itoa has written.
use Prim.Native.Nat.{◌^◌, ◌%◌}
use Prim.Native.Char.{code}
use Prim.Native.String.append
use tasch.Base.{
  ℕ, zero, suc, ◌+◌, ◌-◌, ◌*◌, ◌/◌, ◌<◌, length, ◌≡◌, refl, sym, ap, ◌∙◌, String, pos, true, some,
  List, [], ◌∷◌, ◌++◌, ltb, itoa, itoa_loop, digit, concat, arith, inl, inr, Bool-cases,
}
use tasch.Requirement.{codes, read_digits}
use tasch.Numbers.{
  all_digits, in_range, read_sign, digits_value, atoi, skip_blanks, head_value, sscanf_d,
}

codes-append : (s t : String) → codes (concat s t) ≡ codes s ++ codes t
unfolding codes
codes-append String.[] t = ap codes (append.nil t)
codes-append (String.◌∷◌ c s) t =
    ap codes (append.cons c s t) ∙ ap (λ r. List.◌∷◌ (code c) r) (codes-append s t)

codes-digit : (d : ℕ) → d < 10 → codes (digit d) ≡ (48 + d) ∷ []
unfolding codes
codes-digit zero h = refl
codes-digit (suc zero) h = refl
codes-digit (suc (suc zero)) h = refl
codes-digit (suc (suc (suc zero))) h = refl
codes-digit (suc (suc (suc (suc zero)))) h = refl
codes-digit (suc (suc (suc (suc (suc zero))))) h = refl
codes-digit (suc (suc (suc (suc (suc (suc zero)))))) h = refl
codes-digit (suc (suc (suc (suc (suc (suc (suc zero))))))) h = refl
codes-digit (suc (suc (suc (suc (suc (suc (suc (suc zero)))))))) h = refl
codes-digit (suc (suc (suc (suc (suc (suc (suc (suc (suc zero))))))))) h = refl
codes-digit (suc (suc (suc (suc (suc (suc (suc (suc (suc (suc d)))))))))) h = absurd (omega arith)

read_digits-append :
    (a : ℕ) (xs ys : List ℕ)
    → all_digits xs ≡ true
    → read_digits a (xs ++ ys) ≡ read_digits (read_digits a xs) ys
unfolding read_digits all_digits
read_digits-append a [] ys h = refl
read_digits-append a (x ∷ xs) ys h = ground (arith, read_digits-append (a * 10 + (x - 48)) xs ys)

all_digits-append :
    (xs ys : List ℕ) → all_digits xs ≡ true → all_digits ys ≡ true → all_digits (xs ++ ys) ≡ true
unfolding all_digits
all_digits-append [] ys h k = k
all_digits-append (x ∷ xs) ys h k = ground (arith, all_digits-append xs ys)

length-append_pos : (xs ys : List ℕ) → 0 < length ys → 0 < length (xs ++ ys)
length-append_pos [] ys h = h
length-append_pos (x ∷ xs) ys h = omega arith

-- What Itoa writes: digits, one at least, with the value `n`.
abbrev IsNumeral : List ℕ → ℕ → Type 0
IsNumeral ds n = (all_digits ds ≡ true) × (read_digits 0 ds ≡ n) × (0 < length ds)

digit-IsNumeral : (d : ℕ) → d < 10 → IsNumeral ((48 + d) ∷ []) d
unfolding all_digits read_digits
digit-IsNumeral d h = (ground arith, ground arith, omega arith)

more-IsNumeral :
    (ds : List ℕ) (n d : ℕ) → d < 10 → IsNumeral ds n → IsNumeral (ds ++ (48 + d) ∷ []) (n * 10 + d)
unfolding read_digits
more-IsNumeral ds n d h v =
    let last = digit-IsNumeral d h in
    let split = read_digits-append 0 ds ((48 + d) ∷ []) v.0 in
    (
      all_digits-append ds ((48 + d) ∷ []) v.0 last.0,
      split ∙ ground (arith, v.1),
      length-append_pos ds ((48 + d) ∷ []) (omega arith),
    )

itoa_loop-IsNumeral : (f n : ℕ) → n < f → IsNumeral (codes (itoa_loop f n)) n
unfolding itoa_loop
itoa_loop-IsNumeral zero n h = absurd (omega arith)
itoa_loop-IsNumeral (suc f) n h = elim (Bool-cases (ltb n 10)) [
  | inl small ↦ rw (small, codes-digit n (ground arith)) (digit-IsNumeral n (ground arith))
  | inr large ↦
      let d = n % 10 in
      let high = itoa_loop-IsNumeral f (n / 10) (ground arith) in
      let m = more-IsNumeral (codes (itoa_loop f (n / 10))) (n / 10) (n % 10) (omega arith) high in
      let e : n ≡ n / 10 * 10 + n % 10 = omega arith in
      rw
        (
          large,
          codes-append (itoa_loop f (n / 10)) (digit (n % 10)),
          codes-digit (n % 10) (omega arith),
        )
        (m.0, m.1 ∙ sym e, m.2)
]

-- A numeral has no sign, and is read as its value.
read-IsNumeral :
    (ds : List ℕ) (n : ℕ)
    → n < 2 ^ 63
    → IsNumeral ds n
    → digits_value (read_sign ds).0 (read_sign ds).1 ≡ some (pos n)
unfolding all_digits in_range
read-IsNumeral [] n h v = absurd (omega (arith, v.2))
read-IsNumeral (c ∷ s) n h v = ground (arith, v.0, v.1)

-- Atoi of what Itoa writes gives the number back, where an `int` holds it.
pub atoi-itoa : (n : ℕ) → n < 2 ^ 63 → atoi (itoa n) ≡ some (pos n)
unfolding atoi itoa
atoi-itoa n h = read-IsNumeral (codes (itoa n)) n h (itoa_loop-IsNumeral (suc n) n (omega arith))

-- A numeral has no blanks before it.
skip_blanks-IsNumeral : (ds : List ℕ) (n : ℕ) → IsNumeral ds n → skip_blanks ds ≡ some ds
unfolding all_digits skip_blanks
skip_blanks-IsNumeral [] n v = refl
skip_blanks-IsNumeral (c ∷ s) n v = ground (arith, v.0)

head-IsNumeral :
    (ds : List ℕ) (n : ℕ)
    → n < 2 ^ 63
    → IsNumeral ds n
    → head_value (read_sign ds).0 (read_sign ds).1 ≡ some (pos n)
unfolding all_digits in_range
head-IsNumeral [] n h v = absurd (omega (arith, v.2))
head-IsNumeral (c ∷ s) n h v = ground (arith, v.0, v.1)

-- A scan of what Itoa writes gives the number back.
pub sscanf_d-itoa : (n : ℕ) → n < 2 ^ 63 → sscanf_d (itoa n) ≡ some (pos n)
unfolding sscanf_d itoa
sscanf_d-itoa n h =
    let v = itoa_loop-IsNumeral (suc n) n (omega arith) in
    rw (skip_blanks-IsNumeral (codes (itoa n)) n v, sscanf_d)
      (head-IsNumeral (codes (itoa n)) n h v)
