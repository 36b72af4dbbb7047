-- ===== src/Config/Overrides.antt =====
-- What the environment overrides.
use Prim.Native.Nat.{◌^◌}
use tasch.Base.{
  ℕ, ◌<◌, String, ℤ, pos, ◌≡◌, refl, none, some, itoa, arith, eq_iff, str_eq, if◌then◌else◌, inl,
  inr, Bool-cases,
}
use tasch.Requirement.{codes}
use tasch.Numbers.{sscanf_d, skip_blanks}
use tasch.Numbers.RoundTrip.{sscanf_d-itoa}
use tasch.Config.{Config, port_from, apply_env_overrides}

port_from_twice : (v : String) (old : ℤ) → port_from v (port_from v old) ≡ port_from v old
unfolding port_from
port_from_twice v old = ground arith

-- What one variable does to a port.
pub record Overrides (v : String) (old new : ℤ) : Type 0 where
  pub unset : v ≡ "" → new ≡ old
  pub number : (n : ℕ) → n < 2 ^ 63 → v ≡ itoa n → new ≡ pos n
  pub unread : sscanf_d v ≡ none → new ≡ old

empty_unread : sscanf_d "" ≡ none
unfolding sscanf_d codes skip_blanks
empty_unread = refl

port_from_number :
    (v : String) (old : ℤ) (n : ℕ) → n < 2 ^ 63 → v ≡ itoa n → port_from v old ≡ pos n
unfolding port_from
port_from_number v old n h e =
    let read : sscanf_d v ≡ some (pos n) = rw e (sscanf_d-itoa n h) in
    elim (Bool-cases (str_eq v "")) [
      | inl blank ↦
          let e' : v ≡ "" = ground (arith, eq_iff v "") in
          ground (arith, empty_unread, rw e' at read)
      | inr set ↦ rw (set, port_from, read) refl
    ]

port_from-Overrides : (v : String) (old : ℤ) → Overrides v old (port_from v old)
unfolding port_from
port_from-Overrides v old = record {
  unset = λ e. ground (arith, eq_iff v "");
  number = λ n h e. port_from_number v old n h e;
  unread = λ e. ground arith;
}

-- What stays.
pub record Kept (c c' : Config) : Type 0 where
  pub role : c'.role ≡ c.role
  pub node_name : c'.node_name ≡ c.node_name
  pub limits :
      (c'.max_queue_size ≡ c.max_queue_size)
      × (c'.max_retries ≡ c.max_retries)
      × (c'.drain_timeout ≡ c.drain_timeout)
  pub tls : c'.tls ≡ c.tls

-- Every port is the number in its variable, or what it was where the variable is empty or cannot be
-- read; the master's address is that of its variable unless that is empty; the rest stays, and
-- to apply the overrides again changes nothing.
pub apply_env_overrides_lem :
    (getenv : String → String) (c : Config)
    → Overrides
        (getenv "TASCH_GOSSIP_PORT")
        c.ports.gossip
        (apply_env_overrides getenv c).ports.gossip
      × Overrides (getenv "TASCH_GRPC_PORT") c.ports.grpc (apply_env_overrides getenv c).ports.grpc
      × Overrides (getenv "TASCH_ZMQ_PORT") c.ports.zmq (apply_env_overrides getenv c).ports.zmq
      × Overrides
          (getenv "TASCH_METRICS_PORT")
          c.ports.metrics
          (apply_env_overrides getenv c).ports.metrics
      × ((apply_env_overrides getenv c).master_addr ≡ (
          if str_eq (getenv "TASCH_MASTER_ADDR") ""
          then c.master_addr
          else getenv "TASCH_MASTER_ADDR"))
      × Kept c (apply_env_overrides getenv c)
      × (apply_env_overrides getenv (apply_env_overrides getenv c) ≡ apply_env_overrides getenv c)
unfolding apply_env_overrides
apply_env_overrides_lem getenv c = (
  port_from-Overrides (getenv "TASCH_GOSSIP_PORT") c.ports.gossip,
  port_from-Overrides (getenv "TASCH_GRPC_PORT") c.ports.grpc,
  port_from-Overrides (getenv "TASCH_ZMQ_PORT") c.ports.zmq,
  port_from-Overrides (getenv "TASCH_METRICS_PORT") c.ports.metrics,
  refl,
  record { role = refl; node_name = refl; limits = (refl, refl, refl); tls = refl },
  ground (
    arith,
    port_from_twice (getenv "TASCH_GOSSIP_PORT") c.ports.gossip,
    port_from_twice (getenv "TASCH_GRPC_PORT") c.ports.grpc,
    port_from_twice (getenv "TASCH_ZMQ_PORT") c.ports.zmq,
    port_from_twice (getenv "TASCH_METRICS_PORT") c.ports.metrics,
  ),
)
