-- ===== src/Matchmaker.antt =====
-- Evaluator of pkg/matchmaker/evaluator.go: requirement expressions, compiled once and kept in a cache.
-- cel-go and encoding/json are parameters. One call of Match is one step: the programs that two calls
-- at once compile for one expression are the same.
pub mod Cache
use tasch.Base.{
  String, Bool, true, false, Option, none, some, [], Map, lookup, insert, Outcome, fails, gives,
}

-- The errors of Match.
pub data MatchError (E : Type 0) : Type 0 where
  compile_error : E → MatchError E
  program_error : E → MatchError E
  ad_error : E → MatchError E
  not_boolean : MatchError E

-- A value of CEL: a Boolean, or of another type.
pub data Value : Type 0 where
  boolean : Bool → Value
  other_value : Value

-- env.Compile, env.Program, json.Unmarshal of an advertisement, and Program.Eval with `ad` bound.
pub record Cel (Ast : Type 0) (Program : Type 0) (Ad : Type 0) (E : Type 0) : Type 0 where
  pub compile : String → Outcome E Ast
  pub program : Ast → Outcome E Program
  pub decode : String → Outcome E Ad
  pub eval : Program → Ad → Outcome E Value

module _ {Ast : Type 0} {Program : Type 0} {Ad : Type 0} {E : Type 0}
    (cel : Cel Ast Program Ad E) where
  -- Compile, then Program.
  unfoldable pub build : String → Outcome (MatchError E) Program
  build expression = elim (cel.compile expression) [
    | fails e ↦ fails (compile_error e)
    | gives ast ↦ elim (cel.program ast) [
      | fails e ↦ fails (program_error e)
      | gives prg ↦ gives prg
    ]
  ]

  -- An error of the evaluation is no match.
  unfoldable pub verdict : Outcome E Value → Outcome (MatchError E) Bool
  verdict (fails e) = gives false
  verdict (gives (boolean b)) = gives b
  verdict (gives other_value) = fails not_boolean

  unfoldable pub run_program : Program → String → Outcome (MatchError E) Bool
  run_program prg ad_json = elim (cel.decode ad_json) [
    | fails e ↦ fails (ad_error e)
    | gives ad ↦ verdict (cel.eval prg ad)
  ]

  unfoldable pub match_cached :
      Map Program → String → String → Map Program × Outcome (MatchError E) Bool
  match_cached cache expression ad_json = elim (lookup expression cache) [
    | some prg ↦ (cache, run_program prg ad_json)
    | none ↦ elim (build expression) [
      | fails e ↦ (cache, fails e)
      | gives prg ↦ (insert expression prg cache, run_program prg ad_json)
    ]
  ]
