-- ===== src/Worker/Subscribe.antt =====
-- subscribeWithReconnect of internal/daemon/worker.go: its goroutine, moved by what the socket and the
-- context answer. An answer that the code does not wait for leaves it as it is.
use tasch.Base.{
  ℕ, suc, ◌-◌, ◌≡◌, refl, ◌⊎◌, inl, String, Bool, true, false, List, [], ◌∷◌, ◌++◌, arith,
  if◌then◌else◌,
}
use tasch.Worker.Retry.{next_backoff}

-- The goroutine waits for a socket, with its backoff, or for a message, or has returned.
pub data Link : Type 0 where
  connecting : ℕ → Link
  receiving : Link
  closed : Link

-- `ctx_done` is what ctx.Err answers, `done_waiting` whether the context ends during the wait.
pub data Answer : Type 0 where
  connects : Answer
  connect_fails : Bool → Bool → Answer
  message : String → Answer
  receive_fails : Bool → Answer

-- The messages put into the channel and the waits, in their order, and the sockets that are open.
pub record Subscriber : Type 0 where
  pub link : Link
  pub messages : List String
  pub waits : List ℕ
  pub sockets : ℕ

unfoldable pub new_subscriber : Subscriber
new_subscriber = record { link = connecting 1; messages = []; waits = []; sockets = 0 }

unfoldable pub connect_failed : Subscriber → ℕ → Bool → Bool → Subscriber
connect_failed s backoff true done_waiting = record s { link = closed }
connect_failed s backoff false true = record s { link = closed; waits = s.waits ++ backoff ∷ [] }
connect_failed s backoff false false = record s {
  link = connecting (next_backoff 30 backoff);
  waits = s.waits ++ backoff ∷ [];
}

-- A socket that fails is closed, and the next one is waited for from one second on.
unfoldable pub receive_failed : Subscriber → Bool → Subscriber
receive_failed s ctx_done = record s {
  link = if ctx_done then closed else connecting 1;
  sockets = s.sockets - 1;
}

unfoldable pub subscribe_step : Subscriber → Answer → Subscriber
subscribe_step s a = elim s.link [
  | closed ↦ s
  | connecting backoff ↦ elim a [
    | connects ↦ record s { link = receiving; sockets = suc s.sockets }
    | connect_fails ctx_done done_waiting ↦ connect_failed s backoff ctx_done done_waiting
    | message m ↦ s
    | receive_fails ctx_done ↦ s
  ]
  | receiving ↦ elim a [
    | connects ↦ s
    | connect_fails ctx_done done_waiting ↦ s
    | message m ↦ record s { messages = s.messages ++ m ∷ [] }
    | receive_fails ctx_done ↦ receive_failed s ctx_done
  ]
]

unfoldable pub subscribe_run : Subscriber → List Answer → Subscriber
subscribe_run s [] = s
subscribe_run s (a ∷ answers) = subscribe_run (subscribe_step s a) answers

-- The waits that doubling from one second gives below 30 seconds, and the first above.
abbrev pub IsBackoff : ℕ → Type 0
IsBackoff b = (b ≡ 1) ⊎ (b ≡ 2) ⊎ (b ≡ 4) ⊎ (b ≡ 8) ⊎ (b ≡ 16) ⊎ (b ≡ 32)

abbrev pub AllBackoffs : List ℕ → Type 0
AllBackoffs [] = Unit
AllBackoffs (b ∷ bs) = IsBackoff b × AllBackoffs bs

abbrev pub LinkHolds : Link → ℕ → Type 0
LinkHolds (connecting b) n = IsBackoff b × (n ≡ 0)
LinkHolds receiving n = n ≡ 1
LinkHolds closed n = n ≡ 0

pub record IsSubscriber (s : Subscriber) : Type 0 where
  pub link : LinkHolds s.link s.sockets
  pub waits : AllBackoffs s.waits

next-IsBackoff : (b : ℕ) → IsBackoff b → IsBackoff (next_backoff 30 b)
unfolding next_backoff
next-IsBackoff b h = ground arith

append-AllBackoffs :
    (bs : List ℕ) (b : ℕ) → AllBackoffs bs → IsBackoff b → AllBackoffs (bs ++ b ∷ [])
append-AllBackoffs [] b h k = (k, tt)
append-AllBackoffs (x ∷ bs) b h k = (h.0, append-AllBackoffs bs b h.1 k)

connect_failed-IsSubscriber :
    (s : Subscriber) (backoff : ℕ) (ctx_done done_waiting : Bool)
    → IsBackoff backoff
    → s.sockets ≡ 0
    → AllBackoffs s.waits
    → IsSubscriber (connect_failed s backoff ctx_done done_waiting)
unfolding connect_failed
connect_failed-IsSubscriber s b true done_waiting h none_open w = record {
  link = none_open;
  waits = w;
}
connect_failed-IsSubscriber s b false true h none_open w = record {
  link = none_open;
  waits = append-AllBackoffs s.waits b w h;
}
connect_failed-IsSubscriber s b false false h none_open w = record {
  link = (next-IsBackoff b h, none_open);
  waits = append-AllBackoffs s.waits b w h;
}

step-IsSubscriber :
    (link : Link) (messages : List String) (waits : List ℕ) (sockets : ℕ) (a : Answer)
    → LinkHolds link sockets
    → AllBackoffs waits
    → IsSubscriber (
        subscribe_step
          (record { link = link; messages = messages; waits = waits; sockets = sockets })
          a)
unfolding subscribe_step receive_failed
step-IsSubscriber closed messages waits n a h w = record { link = h; waits = w }
step-IsSubscriber (connecting b) messages waits n connects h w = record {
  link = omega arith;
  waits = w;
}
step-IsSubscriber (connecting b) messages waits n (connect_fails ctx_done done_waiting) h w =
    connect_failed-IsSubscriber _ b ctx_done done_waiting h.0 h.1 w
step-IsSubscriber (connecting b) messages waits n (message m) h w = record { link = h; waits = w }
step-IsSubscriber (connecting b) messages waits n (receive_fails ctx_done) h w = record {
  link = h;
  waits = w;
}
step-IsSubscriber receiving messages waits n connects h w = record { link = h; waits = w }
step-IsSubscriber receiving messages waits n (connect_fails ctx_done done_waiting) h w = record {
  link = h;
  waits = w;
}
step-IsSubscriber receiving messages waits n (message m) h w = record { link = h; waits = w }
step-IsSubscriber receiving messages waits n (receive_fails true) h w = record {
  link = omega arith;
  waits = w;
}
step-IsSubscriber receiving messages waits n (receive_fails false) h w = record {
  link = (inl refl, omega arith);
  waits = w;
}

run-IsSubscriber :
    (s : Subscriber) (answers : List Answer)
    → IsSubscriber s
    → IsSubscriber (subscribe_run s answers)
unfolding subscribe_run
run-IsSubscriber s [] v = v
run-IsSubscriber s (a ∷ answers) v =
    run-IsSubscriber (subscribe_step s a) answers
      (step-IsSubscriber s.link s.messages s.waits s.sockets a v.link v.waits)

-- Whatever the sockets and the context answer: every wait before a new connection is of 1, 2, 4, 8, 16
-- or 32 seconds, and one socket is open while the goroutine waits for a message, none otherwise.
pub subscribe_run-IsSubscriber :
    (answers : List Answer) → IsSubscriber (subscribe_run new_subscriber answers)
unfolding new_subscriber
subscribe_run-IsSubscriber answers =
    run-IsSubscriber new_subscriber answers (record { link = (inl refl, refl); waits = tt })
