-- ===== src/Setup/Interactive.antt =====
-- What RunInteractive gives.
use Prim.Native.Nat.{◌^◌}
use tasch.Base.{
  ℕ, zero, suc, ◌<◌, String, ◌≡◌, ◌≢◌, ◌⊎◌, inl, inr, refl, ℤ, pos, ◌≤◌, true, Bool-cases, none,
  some, List, [], ◌∷◌, length, arith, eq_iff, str_eq, if◌then◌else◌,
}
use tasch.Config.{Config}
use tasch.Numbers.{trim_space, trim_left, trim_right, atoi}
use tasch.Numbers.RoundTrip.{atoi-itoa}
use tasch.Requirement.{codes}
use tasch.Setup.{
  read_line, prompt, prompt_int, role_of, ask_address, ask_master, ask_ports, run_interactive,
}

atoi_empty : atoi "" ≡ none
unfolding atoi codes
atoi_empty = refl

-- A question for a number: a blank line and a line that Atoi refuses give the default, any other line
-- the number that it reads; the next question gets the lines after it.
pub prompt_int_lem :
    (d : ℕ) (lines : List String)
    → d < 2 ^ 63
    → (trim_space (read_line lines).0 ≡ "" → (prompt_int d lines).0 ≡ pos d)
      × (atoi (trim_space (read_line lines).0) ≡ none → (prompt_int d lines).0 ≡ pos d)
      × ((v : ℤ) → atoi (trim_space (read_line lines).0) ≡ some v → (prompt_int d lines).0 ≡ v)
      × ((prompt_int d lines).1 ≡ (read_line lines).1)
unfolding prompt_int prompt
prompt_int_lem d lines h =
    let own = atoi-itoa d h in
    let s = trim_space (read_line lines).0 in
    (
      λ e. ground (arith, own, eq_iff s ""),
      λ e. ground (arith, own, eq_iff s ""),
      λ v e. ground (arith, own, eq_iff s "", atoi_empty),
      refl,
    )

never_at_end : (g : ℕ) → ask_address g [] ≡ none
unfolding ask_address prompt trim_space trim_left trim_right
never_at_end zero = refl
never_at_end (suc g) = never_at_end g

never_after_blank :
    (g : ℕ) (line : String) (lines : List String)
    → str_eq (trim_space line) "" ≡ true
    → ((k : ℕ) → ask_address k lines ≡ none)
    → ask_address g (line ∷ lines) ≡ none
unfolding ask_address prompt
never_after_blank zero line lines blank never = refl
never_after_blank (suc g) line lines blank never = rw (blank, ask_address) (never g)

-- Fuel above the number of lines is enough: an address is found, or none ever is.
ask_address_ends :
    (f : ℕ) (lines : List String)
    → length lines < f
    → ((addr : String) × (rest : List String) × (ask_address f lines ≡ some (addr, rest))
        × (addr ≢ ""))
      ⊎ ((g : ℕ) → ask_address g lines ≡ none)
unfolding ask_address prompt
ask_address_ends zero lines h = absurd (omega arith)
ask_address_ends (suc f) [] h = inr never_at_end
ask_address_ends (suc f) (line ∷ lines) h = elim (Bool-cases (str_eq (trim_space line) "")) [
  | inl blank ↦ elim (ask_address_ends f lines (omega arith)) [
    | inl (addr, rest, found, full) ↦ inl (addr, rest, rw (blank, ask_address) found, full)
    | inr never ↦ inr (λ g. never_after_blank g line lines blank never)
  ]
  | inr text ↦ inl (
    trim_space line,
    lines,
    rw (text, ask_address, text) refl,
    λ e. ground (arith, eq_iff (trim_space line) ""),
  )
]

abbrev pub chosen : List String → String
chosen lines = role_of (prompt "3" lines).0

roles :
    (choice : String)
    → (role_of choice ≡ "master") ⊎ (role_of choice ≡ "worker") ⊎ (role_of choice ≡ "both")
roles choice = elim (Bool-cases (str_eq choice "1")) [
  | inl one ↦ inl (rw one refl)
  | inr other ↦ elim (Bool-cases (str_eq choice "2")) [
    | inl two ↦ inr (inl (rw (other, two) refl))
    | inr more ↦ inr (inr (rw (other, more) refl))
  ]
]

rest-length : (d : String) (lines : List String) → length (prompt d lines).1 ≤ length lines
unfolding prompt
rest-length d [] = omega arith
rest-length d (line ∷ lines) = omega arith

-- With fuel above the number of lines the wizard ends with settings, in which a worker has a master's
-- address; or the role is that of a worker, and with no fuel at all is there an end: past the end of
-- the input it asks for the address again and again. The role is master, worker or both.
pub run_interactive_ends :
    (f : ℕ) (hostname local_ip : String) (lines : List String)
    → length lines < f
    → (((cfg : Config) × (run_interactive f hostname local_ip lines ≡ some cfg)
          × (cfg.role ≡ chosen lines)
          × (cfg.role ≡ "worker" → cfg.master_addr ≢ ""))
        ⊎ ((chosen lines ≡ "worker")
            × ((g : ℕ) → run_interactive g hostname local_ip lines ≡ none)))
      × ((chosen lines ≡ "master") ⊎ (chosen lines ≡ "worker") ⊎ (chosen lines ≡ "both"))
unfolding run_interactive ask_master ask_ports prompt prompt_int
run_interactive_ends f hostname local_ip lines h =
    let l₁ = (prompt "3" lines).1 in
    let l₂ = (prompt hostname l₁).1 in
    let few : length l₂ < f = omega (arith, rest-length "3" lines, rest-length hostname l₁) in
    (
      elim (Bool-cases (str_eq (chosen lines) "worker")) [
        | inl worker ↦ elim (ask_address_ends f l₂ few) [
          | inl (addr, rest, found, full) ↦ inl (
            ask_ports (chosen lines) (prompt hostname l₁).0 (addr, rest),
            rw (run_interactive, ask_master, worker, found) refl,
            refl,
            λ r. full,
          )
          | inr never ↦ inr (
            (eq_iff (chosen lines) "worker").0 worker,
            λ g. rw (run_interactive, ask_master, worker, never g) refl,
          )
        ]
        | inr other ↦
            let ip = if str_eq local_ip "" then "127.0.0.1" else local_ip in
            inl (
              ask_ports (chosen lines) (prompt hostname l₁).0 (prompt ip l₂),
              rw (run_interactive, ask_master, other) refl,
              refl,
              λ r. ground (arith, other, eq_iff (chosen lines) "worker"),
            )
      ],
      roles (prompt "3" lines).0,
    )
