-- ===== src/Matchmaker/Cache.antt =====
-- The cache of pkg/matchmaker/evaluator.go, against an evaluator that has none.
use tasch.Base.{
  String, Bool, some, List, [], ◌∷◌, Map, lookup, insert, ◌≡◌, refl, arith, inl, inr, ◌⊎◌,
  Bool-cases, Option-cases, str_eq, eq_iff, lookup-insert,
}
use tasch.Base.{Outcome, fails, gives}
use tasch.Matchmaker.{Cel, MatchError, build, run_program, match_cached}

module _ {Ast : Type 0} {Program : Type 0} {Ad : Type 0} {E : Type 0}
    (cel : Cel Ast Program Ad E) where
  -- Match of an evaluator that has no cache.
  unfoldable pub match_fresh : String → String → Outcome (MatchError E) Bool
  match_fresh expression ad_json = elim (build cel expression) [
    | fails e ↦ fails e
    | gives prg ↦ run_program cel prg ad_json
  ]

  -- Each program in the cache is the one that its expression compiles to.
  pub record IsFaithful (cache : Map Program) : Type 0 where
    pub built :
        (expression : String) (prg : Program)
        → lookup expression cache ≡ some prg
        → build cel expression ≡ gives prg

  build_cases :
      (expression : String)
      → ((e : MatchError E) × (build cel expression ≡ fails e))
        ⊎ ((prg : Program) × (build cel expression ≡ gives prg))
  build_cases expression = split (build cel expression) refl
    where
      split :
          (r : Outcome (MatchError E) Program)
          → build cel expression ≡ r
          → ((e : MatchError E) × (build cel expression ≡ fails e))
            ⊎ ((prg : Program) × (build cel expression ≡ gives prg))
      split (fails e) h = inl (e, h)
      split (gives prg) h = inr (prg, h)

  insert-IsFaithful :
      (cache : Map Program) (expression : String) (prg : Program)
      → IsFaithful cache
      → build cel expression ≡ gives prg
      → IsFaithful (insert expression prg cache)
  insert-IsFaithful cache expression prg v h = record {
    built = λ other found e. elim (Bool-cases (str_eq expression other)) [
      | inl same ↦
          let s : expression ≡ other = (eq_iff expression other).0 same in
          let got : some prg ≡ some found =
            rw (← e, lookup-insert other expression prg cache, same) refl in
          let p : prg ≡ found = ground (arith, got) in rw (← s, ← p) h
      | inr apart ↦
          v.built other found (rw (← e, lookup-insert other expression prg cache, apart) refl)
    ];
  }

  -- Match answers what an evaluator with no cache answers, and leaves a cache that is faithful again.
  match_cached_step :
      (cache : Map Program) (expression ad_json : String)
      → IsFaithful cache
      → ((match_cached cel cache expression ad_json).1 ≡ match_fresh expression ad_json)
        × IsFaithful (match_cached cel cache expression ad_json).0
  unfolding match_cached match_fresh
  match_cached_step cache expression ad_json v = elim (Option-cases (lookup expression cache)) [
    | inr (prg, known) ↦
        let h = v.built expression prg known in
        (rw (known, match_cached, match_fresh, h) refl, rw (known, match_cached) v)
    | inl missing ↦ elim (build_cases expression) [
      | inl (e, bad) ↦
          (rw (missing, match_cached, bad, match_fresh) refl, rw (missing, match_cached, bad) v)
      | inr (prg, fine) ↦ (
        rw (missing, match_cached, fine, match_fresh) refl,
        rw (missing, match_cached, fine) (insert-IsFaithful cache expression prg v fine),
      )
    ]
  ]

  -- The answers to a sequence of calls, each with the cache that the calls before it left.
  unfoldable pub match_all :
      Map Program → List (String × String) → List (Outcome (MatchError E) Bool)
  match_all cache [] = []
  match_all cache ((expression, ad_json) ∷ calls) =
      let (cache', answer) = match_cached cel cache expression ad_json in
      answer ∷ match_all cache' calls

  unfoldable pub fresh_all : List (String × String) → List (Outcome (MatchError E) Bool)
  fresh_all [] = []
  fresh_all ((expression, ad_json) ∷ calls) = match_fresh expression ad_json ∷ fresh_all calls

  match_all_lem :
      (cache : Map Program) (calls : List (String × String))
      → IsFaithful cache
      → match_all cache calls ≡ fresh_all calls
  unfolding match_all fresh_all
  match_all_lem cache [] v = refl
  match_all_lem cache ((expression, ad_json) ∷ calls) v =
      let (same, v') = match_cached_step cache expression ad_json v in
      rw (same, match_all_lem (match_cached cel cache expression ad_json).0 calls v') refl

  -- A new evaluator answers every sequence of calls as one that has no cache.
  pub match_all-fresh : (calls : List (String × String)) → match_all [] calls ≡ fresh_all calls
  unfolding lookup
  match_all-fresh calls =
      match_all_lem [] calls (record { built = λ expression prg h. absurd (ground arith) })
