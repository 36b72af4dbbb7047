-- ===== src/Setup/NonInteractive.antt =====
-- What RunNonInteractive gives.
use tasch.Base.{
  String, ℤ, pos, ◌≡◌, ◌≢◌, ◌<ℤ◌, ◌≤ℤ◌, refl, ◌⊎◌, gives, str_eq, eq_iff, false, ltb_ℤ, ◌&&◌,
  Bool-cases, inl, inr, arith,
}
use tasch.Config.{Config, default_config}
use tasch.Setup.{Flags, text_or, port_or, flag_config, run_non_interactive}

-- The test for a worker without an address cannot succeed.
never_refused :
    (hostname local_ip : String) (flags : Flags)
    → (str_eq (flag_config hostname local_ip flags).role "worker"
        && str_eq (flag_config hostname local_ip flags).master_addr "")
      ≡ false
unfolding flag_config default_config
never_refused hostname local_ip flags =
    elim (Bool-cases (str_eq (text_or flags.role "both") "worker")) [
      | inl worker ↦ elim (Bool-cases (str_eq flags.master_addr "")) [
        | inl blank ↦ rw (flag_config, worker, blank) refl
        | inr set ↦ rw (flag_config, worker, set) set
      ]
      | inr other ↦ rw (flag_config, other) refl
    ]

-- The text of a flag, or a default where it is empty.
abbrev pub IsTextOr : String → String → String → Type 0
IsTextOr flag default_val result =
    ((flag ≡ "") × (result ≡ default_val)) ⊎ ((flag ≢ "") × (result ≡ flag))

-- The number of a flag, or a default where it is not positive.
abbrev pub IsPortOr : ℤ → ℤ → ℤ → Type 0
IsPortOr flag default_val result =
    ((pos 0 <ℤ flag) × (result ≡ flag)) ⊎ ((flag ≤ℤ pos 0) × (result ≡ default_val))

-- The settings that the flags ask for, on a machine with this host name and local address.
pub record IsAsked (hostname local_ip : String) (flags : Flags) (cfg : Config) : Type 0 where
  pub role : IsTextOr flags.role "both" cfg.role
  pub node_name : IsTextOr flags.node_name hostname cfg.node_name
  pub address :
      ((flags.master_addr ≢ "") × (cfg.master_addr ≡ flags.master_addr))
      ⊎ ((flags.master_addr ≡ "") × (cfg.role ≡ "worker") × (cfg.master_addr ≡ "127.0.0.1"))
      ⊎ ((flags.master_addr ≡ "") × (cfg.role ≢ "worker") × (cfg.master_addr ≡ local_ip))
  pub gossip : IsPortOr flags.gossip_port (pos 7946) cfg.ports.gossip
  pub grpc : IsPortOr flags.grpc_port (pos 50051) cfg.ports.grpc
  pub zmq : IsPortOr flags.zmq_port (pos 5555) cfg.ports.zmq
  pub rest :
      (cfg.ports.metrics ≡ pos 9090)
      × (cfg.max_queue_size ≡ pos 10000)
      × (cfg.max_retries ≡ pos 3)
      × (cfg.drain_timeout ≡ pos 60)
      × (cfg.tls.enabled ≡ false)

text_or-IsTextOr :
    (flag default_val : String) → IsTextOr flag default_val (text_or flag default_val)
text_or-IsTextOr flag default_val = elim (Bool-cases (str_eq flag "")) [
  | inl blank ↦ inl (ground (arith, eq_iff flag ""), rw blank refl)
  | inr set ↦ inr (λ e. ground (arith, eq_iff flag ""), rw set refl)
]

port_or-IsPortOr : (flag default_val : ℤ) → IsPortOr flag default_val (port_or flag default_val)
port_or-IsPortOr flag default_val = elim (Bool-cases (ltb_ℤ (pos 0) flag)) [
  | inl set ↦ inl (ground arith, rw set refl)
  | inr unset ↦ inr (ground arith, rw unset refl)
]

-- RunNonInteractive never fails, and gives what the flags ask for: the role `both` where none is given,
-- the host name as name, the default ports. Without a master's address a worker is set up with
-- 127.0.0.1, and every other node with its local address, also where it has none.
pub run_non_interactive_never_fails :
    (hostname local_ip : String) (flags : Flags)
    → (cfg : Config) × (run_non_interactive hostname local_ip flags ≡ gives cfg)
      × IsAsked hostname local_ip flags cfg
unfolding run_non_interactive flag_config default_config
run_non_interactive_never_fails hostname local_ip flags = (
  flag_config hostname local_ip flags,
  rw (run_non_interactive, never_refused hostname local_ip flags) refl,
  record {
    role = text_or-IsTextOr flags.role "both";
    node_name = text_or-IsTextOr flags.node_name hostname;
    address = elim (Bool-cases (str_eq flags.master_addr "")) [
      | inr set ↦ inl (λ e. ground (arith, eq_iff flags.master_addr ""), rw (flag_config, set) refl)
      | inl blank ↦ elim (Bool-cases (str_eq (text_or flags.role "both") "worker")) [
        | inl worker ↦ inr (
            inl (
              ground (arith, eq_iff flags.master_addr ""),
              ground (arith, eq_iff (text_or flags.role "both") "worker"),
              rw (flag_config, blank, worker) refl,
            ))
        | inr other ↦ inr (
            inr (
              ground (arith, eq_iff flags.master_addr ""),
              λ e. ground (arith, eq_iff (text_or flags.role "both") "worker"),
              rw (flag_config, blank, other) refl,
            ))
      ]
    ];
    gossip = port_or-IsPortOr flags.gossip_port (pos 7946);
    grpc = port_or-IsPortOr flags.grpc_port (pos 50051);
    zmq = port_or-IsPortOr flags.zmq_port (pos 5555);
    rest = (refl, refl, refl, refl, refl);
  },
)
