-- ===== src/Setup.antt =====
-- internal/setup/setup.go: the settings of a new node, from flags or from questions. What is printed
-- is left out. The input is the list of the lines that are left; past its end each read gives "".
pub mod Interactive
pub mod NonInteractive
use tasch.Base.{
  ℕ, zero, suc, String, ℤ, pos, Bool, ◌&&◌, not, Option, none, some, List, [], ◌∷◌, Outcome, fails,
  gives, ltb_ℤ, itoa, str_eq, if◌then◌else◌,
}
use tasch.Numbers.{trim_space, atoi}
use tasch.Config.{Config, default_config}

abbrev pub read_line : List String → String × List String
read_line [] = ("", [])
read_line (line ∷ lines) = (line, lines)

unfoldable pub prompt : String → List String → String × List String
prompt default_val lines =
    let (line, rest) = read_line lines in
    let input = trim_space line in (if str_eq input "" then default_val else input, rest)

-- A number that is not negative as default.
unfoldable pub prompt_int : ℕ → List String → ℤ × List String
prompt_int default_val lines =
    let (s, rest) = prompt (itoa default_val) lines in
    (elim (atoi s) [ none ↦ pos default_val | some v ↦ v ], rest)

abbrev pub role_of : String → String
role_of choice =
    if str_eq choice "1" then "master" else if str_eq choice "2" then "worker" else "both"

-- `for cfg.MasterAddr == ""` asks again; none if the fuel is used up.
unfoldable pub ask_address : ℕ → List String → Option (String × List String)
ask_address zero lines = none
ask_address (suc f) lines =
    let (addr, rest) = prompt "" lines in
    let again = ask_address f rest in if str_eq addr "" then again else some (addr, rest)

-- The master's address by the role.
unfoldable pub ask_master : ℕ → String → String → List String → Option (String × List String)
ask_master f role local_ip lines =
    if str_eq role "worker"
    then ask_address f lines
    else some (prompt (if str_eq local_ip "" then "127.0.0.1" else local_ip) lines)

unfoldable pub ask_ports : String → String → String × List String → Config
ask_ports role node_name (addr, l₀) =
    let (gossip, l₁) = prompt_int 7946 l₀ in
    let (grpc, l₂) = prompt_int 50051 l₁ in
    let (zmq, l₃) = prompt_int 5555 l₂ in
    record default_config {
      role = role;
      node_name = node_name;
      master_addr = addr;
      ports = record default_config.ports { gossip = gossip; grpc = grpc; zmq = zmq };
    }

unfoldable pub run_interactive : ℕ → String → String → List String → Option Config
run_interactive f hostname local_ip l₀ =
    let (choice, l₁) = prompt "3" l₀ in
    let (node_name, l₂) = prompt hostname l₁ in
    elim (ask_master f (role_of choice) local_ip l₂) [
      | none ↦ none
      | some answer ↦ some (ask_ports (role_of choice) node_name answer)
    ]

pub data SetupError : Type 0 where
  master_addr_required : SetupError

pub record Flags : Type 0 where
  pub role : String
  pub node_name : String
  pub master_addr : String
  pub gossip_port : ℤ
  pub grpc_port : ℤ
  pub zmq_port : ℤ

abbrev pub text_or : String → String → String
text_or s default_val = if str_eq s "" then default_val else s

abbrev pub port_or : ℤ → ℤ → ℤ
port_or p default_val = if ltb_ℤ (pos 0) p then p else default_val

-- `hostname` and `local_ip` are what the machine answers, "" where it has no answer.
unfoldable pub flag_config : String → String → Flags → Config
flag_config hostname local_ip flags =
    let role = text_or flags.role default_config.role in
    record default_config {
      role = role;
      node_name = text_or flags.node_name hostname;
      master_addr =
          if not (str_eq flags.master_addr "")
          then flags.master_addr
          else if not (str_eq role "worker")
          then local_ip
          else default_config.master_addr;
      ports = record default_config.ports {
        gossip = port_or flags.gossip_port default_config.ports.gossip;
        grpc = port_or flags.grpc_port default_config.ports.grpc;
        zmq = port_or flags.zmq_port default_config.ports.zmq;
      };
    }

unfoldable pub run_non_interactive : String → String → Flags → Outcome SetupError Config
run_non_interactive hostname local_ip flags =
    let cfg = flag_config hostname local_ip flags in
    if str_eq cfg.role "worker" && str_eq cfg.master_addr ""
    then fails master_addr_required
    else gives cfg
