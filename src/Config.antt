-- ===== src/Config.antt =====
-- internal/config/config.go: a node's settings, their defaults, the paths, the file, and the overrides
-- by the environment. YAML is a parameter; what the machine answers is an argument.
pub mod Overrides
use Prim.Native.Char.{code}
use tasch.Base.{
  ◌==◌, ◌||◌, ◌&&◌, String, ℤ, pos, Bool, true, false, Option, none, some, Outcome, fails, gives,
  Map, lookup, insert, concat, str_eq, if◌then◌else◌,
}
use tasch.Numbers.{sscanf_d, int_text}

pub record PortConfig : Type 0 where
  pub gossip : ℤ
  pub grpc : ℤ
  pub zmq : ℤ
  pub metrics : ℤ

pub record TlsConfig : Type 0 where
  pub enabled : Bool
  pub cert_file : String
  pub key_file : String
  pub ca_file : String

pub record Config : Type 0 where
  pub role : String
  pub node_name : String
  pub master_addr : String
  pub ports : PortConfig
  pub max_queue_size : ℤ
  pub max_retries : ℤ
  pub drain_timeout : ℤ
  pub tls : TlsConfig

unfoldable pub default_config : Config
default_config = record {
  role = "both";
  node_name = "";
  master_addr = "127.0.0.1";
  ports = record { gossip = pos 7946; grpc = pos 50051; zmq = pos 5555; metrics = pos 9090 };
  max_queue_size = pos 10000;
  max_retries = pos 3;
  drain_timeout = pos 60;
  tls = record { enabled = false; cert_file = ""; key_file = ""; ca_file = "" };
}

-- What the machine answers: whether it is a Windows, os.Stat of the two paths, and os.UserHomeDir as a
-- clean path, or none where it fails.
pub record Host : Type 0 where
  pub windows : Bool
  pub etc_config : Bool
  pub var_lib_dir : Bool
  pub home : Option String

-- The separators that filepath.Join gives on Windows.
unfoldable pub back_slashes : String → String
back_slashes String.[] = ""
back_slashes (String.◌∷◌ c s) = String.◌∷◌ (if code c == 47 then "\\" else c) (back_slashes s)

-- With a separator at the end: the root of a drive has one.
unfoldable pub closed : Bool → String → String
closed windows String.[] = "/"
closed windows (String.◌∷◌ c String.[]) =
    String.◌∷◌ c (if code c == 47 || windows && code c == 92 then String.[] else "/")
closed windows (String.◌∷◌ c (String.◌∷◌ d s)) = String.◌∷◌ c (closed windows (String.◌∷◌ d s))

-- filepath.Join(home, ".tasch", file)
unfoldable pub in_home : Bool → String → String → String
in_home true home file = back_slashes (concat (closed true home) (concat ".tasch/" file))
in_home false home file = concat (closed false home) (concat ".tasch/" file)

unfoldable pub default_path : Host → String
default_path h =
    if h.etc_config
    then "/etc/tasch/config.yaml"
    else elim h.home [ none ↦ "config.yaml" | some home ↦ in_home h.windows home "config.yaml" ]

unfoldable pub store_path : Host → String
store_path h =
    if h.var_lib_dir
    then "/var/lib/tasch/tasch.db"
    else elim h.home [ none ↦ "tasch.db" | some home ↦ in_home h.windows home "tasch.db" ]

unfoldable pub pid_path : Host → String
pid_path h =
    if h.var_lib_dir
    then "/var/lib/tasch/tasch.pid"
    else elim h.home [ none ↦ "tasch.pid" | some home ↦ in_home h.windows home "tasch.pid" ]

-- `%s:%d`
unfoldable pub host_port : String → ℤ → String
host_port host port = concat host (concat ":" (int_text port))

unfoldable pub grpc_addr : Config → String
grpc_addr c = host_port c.master_addr c.ports.grpc

pub data ConfigError : Type 0 where
  cannot_read : String → ConfigError
  invalid : String → String → ConfigError
  cannot_make_dir : String → ConfigError
  cannot_encode : String → ConfigError
  cannot_write : String → ConfigError

-- How a write of a file ends: with an error it leaves some text, or no file, behind.
pub data Write : Type 0 where
  written : Write
  torn : String → Option String → Write

unfoldable pub torn_file : String → Option String → Map String → Map String
torn_file path none files = files
torn_file path (some left) files = insert path left files

-- yaml.Marshal, and yaml.Unmarshal into a value, whose fields it keeps where the text has none.
module _ (marshal : Config → Outcome String String)
    (unmarshal : String → Config → Outcome String Config) where
  unfoldable pub load_config : Map String → String → Outcome ConfigError Config
  load_config files path = elim (lookup path files) [
    | none ↦ fails (cannot_read path)
    | some text ↦ elim (unmarshal text default_config) [
      | fails e ↦ fails (invalid path e)
      | gives cfg ↦ gives cfg
    ]
  ]

  -- With the answers of os.MkdirAll and os.WriteFile: the files, and an error if there is one.
  unfoldable pub save_config :
      Map String → Option String → Write → String → Config → Map String × Option ConfigError
  save_config files (some e) write path cfg = (files, some (cannot_make_dir e))
  save_config files none write path cfg = elim (marshal cfg) [
    | fails e ↦ (files, some (cannot_encode e))
    | gives text ↦ elim write [
      | written ↦ (insert path text files, none)
      | torn e left ↦ (torn_file path left files, some (cannot_write e))
    ]
  ]

-- A port that a variable sets: an empty one, or one that does not begin with a number, keeps it.
unfoldable pub port_from : String → ℤ → ℤ
port_from v old = if str_eq v "" then old else elim (sscanf_d v) [ none ↦ old | some n ↦ n ]

unfoldable pub apply_env_overrides : (String → String) → Config → Config
apply_env_overrides getenv c =
    let addr = getenv "TASCH_MASTER_ADDR" in
    record c {
      master_addr = if str_eq addr "" then c.master_addr else addr;
      ports = record {
        gossip = port_from (getenv "TASCH_GOSSIP_PORT") c.ports.gossip;
        grpc = port_from (getenv "TASCH_GRPC_PORT") c.ports.grpc;
        zmq = port_from (getenv "TASCH_ZMQ_PORT") c.ports.zmq;
        metrics = port_from (getenv "TASCH_METRICS_PORT") c.ports.metrics;
      };
    }
