-- ===== src/Client.antt =====
-- parseEnvFlags of internal/cli/jobs.go: the variables that a user gives a job.
use Prim.Native.Char.{Char, code}
use Prim.Native.String.append
use tasch.Base.{
  ◌≡◌, refl, ap, ◌∙◌, String, Bool, false, ◌||◌, Option, none, some, List, [], ◌∷◌, ◌++◌, Map,
  lookup, insert, lookup-insert, concat, arith, ◌==◌, str_eq, if◌then◌else◌,
}
use tasch.Worker.{variable}

abbrev after_char : Char → Option (String × String) → Option (String × String)
after_char c none = none
after_char c (some (head, rest)) = some (String.◌∷◌ c head, rest)

-- strings.SplitN(e, "=", 2), where it gives two parts.
unfoldable pub cut_equals : String → Option (String × String)
cut_equals String.[] = none
cut_equals (String.◌∷◌ c s) =
    let later = after_char c (cut_equals s) in if code c == 61 then some ("", s) else later

-- One flag; one without `=` is passed over.
unfoldable pub add_flag : Map String → String → Map String
add_flag result e = elim (cut_equals e) [ none ↦ result | some (k, v) ↦ insert k v result ]

unfoldable pub add_flags : Map String → List String → Map String
add_flags result [] = result
add_flags result (e ∷ flags) = add_flags (add_flag result e) flags

unfoldable pub parse_env_flags : List String → Map String
parse_env_flags flags = add_flags [] flags

-- Whether a name has the sign `=`.
unfoldable pub has_equals : String → Bool
has_equals String.[] = false
has_equals (String.◌∷◌ c s) = (code c == 61) || has_equals s

equals_head : (v : String) → concat "=" v ≡ String.◌∷◌ "=" v
equals_head v = append.cons "=" "" v ∙ ap (λ s. String.◌∷◌ "=" s) (append.nil v)

cut_equals-variable :
    (k v : String) → has_equals k ≡ false → cut_equals (variable k v) ≡ some (k, v)
unfolding cut_equals has_equals
cut_equals-variable String.[] v h =
    ap cut_equals (append.nil (concat "=" v)) ∙ ap cut_equals (equals_head v)
cut_equals-variable (String.◌∷◌ c k) v h =
    let rest = cut_equals-variable k v (ground arith) in
    ap cut_equals (append.cons c k (concat "=" v))
    ∙ (let other : (code c == 61) ≡ false = ground arith in rw (cut_equals, other, rest) refl)

add_flags-append :
    (result : Map String) (flags : List String) (e : String)
    → add_flags result (flags ++ e ∷ []) ≡ add_flag (add_flags result flags) e
unfolding add_flags
add_flags-append result [] e = refl
add_flags-append result (f ∷ flags) e = add_flags-append (add_flag result f) flags e

-- A last flag `k=v`, as the worker writes a variable into a process' environment, gives `k` the value
-- `v`, whatever flags stand before it, and leaves every other variable as they give it. The name
-- holds no `=`; the value may.
pub parse_env_flags-variable :
    (flags : List String) (k v j : String)
    → has_equals k ≡ false
    → lookup j (parse_env_flags (flags ++ variable k v ∷ []))
      ≡ (if str_eq k j then some v else lookup j (parse_env_flags flags))
unfolding parse_env_flags add_flag
parse_env_flags-variable flags k v j h =
    ap (lookup j) (add_flags-append [] flags (variable k v))
    ∙ rw (add_flag, cut_equals-variable k v h) (lookup-insert j k v (add_flags [] flags))
