-- ===== src/Worker/Verdict.antt =====
-- What the master makes of a report of the worker: worker.go and ReportResult of master.go together.
use Prim.Native.Nat.{compare as compare_ℕ}
use Prim.Native.Char.{Char, code, len_utf8}
use Prim.Native.String.{begins, find, len, same}
use Prim.Native.String.append
use Prim.Native.String.find as find_clauses
use tasch.Base.{
  ℕ, ◌+◌, ◌≡◌, refl, ap, ◌∙◌, String, Bool, true, ◌||◌, none, some, concat, contains, arith, str_eq,
}
use text.Mathlib.Text.{is_le, when, find?, starts_with}
use text.Mathlib.TextLemmas.{append_assoc}
use tasch.Numbers.{int_text}
use tasch.Master.{DispatchPayload}
use tasch.Fairshare.{FloatOps}
use tasch.Breaker.{CircuitBreaker, record_success}
use tasch.Master.Report.{is_user_error, track_node}
use tasch.Worker.{
  Worker, Run, ContextError, canceled, deadline_exceeded, Exit, request_of, error_message,
}

same-code : (c : Char) (x y : ℕ) → same (compare_ℕ (code c) (code c)) x y ≡ x
same-code c x y = ground arith

begins-append : (t u : String) (n : ℕ) → begins (concat t u) t 0 n ≡ 0
begins-append String.[] u n = refl
begins-append (String.◌∷◌ c t) u n =
    ap (λ s. begins s (String.◌∷◌ c t) 0 n) (append.cons c t u)
    ∙ same-code c (begins (concat t u) t 0 n) n
    ∙ begins-append t u n

-- A text that begins with another has it at its head.
find-begins : (s t : String) → ((n : ℕ) → begins s t 0 n ≡ 0) → find s t ≡ 0
find-begins String.[] t h = find_clauses.nil t ∙ h 1
find-begins (String.◌∷◌ c s) t h = find_clauses.cons c s t ∙ h (len_utf8 c + find s t)

zero_is_le : (n : ℕ) → is_le (compare_ℕ 0 n) ≡ true
zero_is_le n = ground arith

contains-concat : (t u : String) → contains (concat t u) t ≡ true
unfolding contains
contains-concat t u =
    let s = concat t u in
    let first : find s t ≡ 0 = find-begins s t (begins-append t u) in
    let found : find? s t ≡ some 0 =
      ap (λ k. when (is_le (compare_ℕ k (len s))) k) first
      ∙ ap (λ b. when b 0) (zero_is_le (len s)) in
    rw (contains, found) refl

last_true : (a b c : Bool) → c ≡ true → (a || b || c) ≡ true
last_true a b c h = ground arith

-- A failure of a run that was cancelled or was over its walltime is the user's, and not the node's.
ended_error :
    (p : DispatchPayload) (e : ContextError) (x : String)
    → is_user_error (error_message p (some e) (some x)) ≡ true
unfolding is_user_error error_message
ended_error p canceled x = refl
ended_error p deadline_exceeded x =
    let rest = concat (int_text p.walltime_seconds) "s)" in
    let head : concat "walltime exceeded (" rest ≡ concat "walltime exceeded" (concat " (" rest) =
      append_assoc "walltime exceeded" " (" rest in
    let found : contains (concat "walltime exceeded (" rest) "walltime exceeded" ≡ true =
      ap (λ s. contains s "walltime exceeded") head
      ∙ contains-concat "walltime exceeded" (concat " (" rest) in
    let text = concat "walltime exceeded (" rest in
    last_true (starts_with text "exit status") (str_eq text "cancelled")
      (contains text "walltime exceeded") found

-- Whatever the process of a run says that was cancelled or was over its walltime, the master's circuit
-- breaker counts no failure of the node for the worker's report of it, and ReportResult of a process
-- that has ended well counts a success of the node.
pub track_node-request_of :
    {F : Type 0} (ops : FloatOps F) (cb : CircuitBreaker) (w : Worker) (run : Run) (exit : Exit)
    (now : ℕ)
    → ((exit.exec_err ≡ none)
        → track_node ops cb (request_of w run exit) now ≡ record_success cb w.node_name)
      × ((e : ContextError) (x : String)
          → run.context.err ≡ some e
          → exit.exec_err ≡ some x
          → track_node ops cb (request_of w run exit) now ≡ cb)
unfolding track_node request_of
track_node-request_of ops cb w run exit now = (
  λ ok. rw (ok, request_of, track_node) refl,
  λ e x ended bad. rw (bad, ended, request_of, track_node, ended_error run.payload e x) refl,
)
