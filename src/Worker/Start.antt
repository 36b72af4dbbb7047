-- ===== src/Worker/Start.antt =====
-- StartWorker of internal/daemon/worker.go: what it opens, in which order, and what it closes when a
-- step fails. The answers of the machine and of the libraries are arguments.
use tasch.Base.{
  ◌≡◌, ◌≢◌, refl, inl, inr, String, Bool, ◌&&◌, not, Option, none, some, Option-cases, Outcome,
  fails, gives, List, [], ◌∷◌, str_eq, concat, arith, if◌then◌else◌,
}
use tasch.Config.{Config, host_port}

pub data Resource : Type 0 where
  discovery : Resource
  grpc_conn : Resource
  subscription : Resource

pub data StartError : Type 0 where
  profiling : String → StartError
  no_discovery : String → StartError
  no_join : String → String → StartError
  tls : String → StartError
  no_connection : String → StartError

-- os.Getenv, discovery.GetLocalIP, discovery.NewNodeDiscovery with the
-- advertised address, Join, the reading of the CA file, and grpc.NewClient with or without TLS.
pub record Machine : Type 0 where
  pub getenv : String → String
  pub local_ip : String
  pub discover : String → String → String → Option String
  pub join : String → Option String
  pub load_ca : String → Option String
  pub dial : String → Bool → Option String

-- A worker that runs: the address of the master and that of its messages.
pub record Running : Type 0 where
  pub grpc_address : String
  pub messages : String

unfoldable pub advertise_addr : Machine → Config → String
advertise_addr m cfg =
    let addr = m.getenv "TASCH_ADVERTISE_ADDR" in
    if str_eq addr "" && not (str_eq cfg.master_addr "127.0.0.1") then m.local_ip else addr

unfoldable pub grpc_address : Machine → Config → String
grpc_address m cfg =
    let addr = m.getenv "TASCH_GRPC_ADDR" in
    if str_eq addr "" then host_port cfg.master_addr cfg.ports.grpc else addr

abbrev pub with_tls : Config → Bool
with_tls cfg = cfg.tls.enabled && not (str_eq cfg.tls.ca_file "")

-- The first resource of a kind is closed.
unfoldable pub close : Resource → List Resource → List Resource
close r [] = []
close discovery (discovery ∷ rs) = rs
close grpc_conn (grpc_conn ∷ rs) = rs
close subscription (subscription ∷ rs) = rs
close r (q ∷ rs) = q ∷ close r rs

-- The client, once the node has joined; what is left open stands before the result.
unfoldable pub connect :
    Machine → Config → List Resource → List Resource × Outcome StartError Running
connect m cfg opened = elim (if with_tls cfg then m.load_ca cfg.tls.ca_file else none) [
  | some e ↦ (close discovery opened, fails (StartError.tls e))
  | none ↦ elim (m.dial (grpc_address m cfg) (with_tls cfg)) [
    | some e ↦ (close discovery opened, fails (no_connection e))
    | none ↦ (
      subscription ∷ grpc_conn ∷ opened,
      gives (record {
        grpc_address = grpc_address m cfg;
        messages = concat "tcp://" (host_port cfg.master_addr cfg.ports.zmq);
      }),
    )
  ]
]

-- With what profiler.GenerateClassAd gives.
unfoldable pub start_worker :
    Machine → Config → Outcome String String → List Resource × Outcome StartError Running
start_worker m cfg (fails e) = ([], fails (profiling e))
start_worker m cfg (gives ad) = elim (m.discover cfg.node_name ad (advertise_addr m cfg)) [
  | some e ↦ ([], fails (no_discovery e))
  | none ↦
      let opened = discovery ∷ [] in
      let gossip = host_port cfg.master_addr cfg.ports.gossip in
      elim (m.join gossip) [
        | some e ↦ (close discovery opened, fails (no_join gossip e))
        | none ↦ connect m cfg opened
      ]
]

-- The function that StartWorker returns: cancelSub, grpcConn.Close and disc.Shutdown.
unfoldable pub stop_worker : List Resource → List Resource
stop_worker rs = close discovery (close grpc_conn (close subscription rs))

-- An error of StartWorker, with nothing left open; or a worker that has joined the master's gossip
-- address, has a connection of its kind, and closes all that is open when it is stopped.
pub data Started (m : Machine) (cfg : Config)
    : List Resource × Outcome StartError Running → Type 0 where
  failed : (e : StartError) → Started m cfg ([], fails e)
  runs :
      (open_now : List Resource) (r : Running)
      → m.join (host_port cfg.master_addr cfg.ports.gossip) ≡ none
      → m.dial r.grpc_address (with_tls cfg) ≡ none
      → open_now ≢ []
      → stop_worker open_now ≡ []
      → Started m cfg (open_now, gives r)

connect-Started :
    (m : Machine) (cfg : Config)
    → m.join (host_port cfg.master_addr cfg.ports.gossip) ≡ none
    → Started m cfg (connect m cfg (discovery ∷ []))
unfolding connect close stop_worker
connect-Started m cfg joined =
    elim (Option-cases (if with_tls cfg then m.load_ca cfg.tls.ca_file else none)) [
      | inr (e, bad) ↦ rw (connect, bad) (failed (StartError.tls e))
      | inl loaded ↦ elim (Option-cases (m.dial (grpc_address m cfg) (with_tls cfg))) [
        | inr (e, bad) ↦ rw (connect, loaded, bad) (failed (no_connection e))
        | inl dialled ↦
            rw (connect, loaded, dialled)
              (runs (subscription ∷ grpc_conn ∷ discovery ∷ []) _ joined dialled (λ e. ground arith)
                refl)
      ]
    ]

-- StartWorker either fails with nothing left open, or gives a worker that has joined the master's
-- gossip address and has a connection, with TLS where it is enabled with a CA file, and that closes
-- everything it has opened when it is stopped.
pub start_worker-Started :
    (m : Machine) (cfg : Config) (class_ad : Outcome String String)
    → Started m cfg (start_worker m cfg class_ad)
unfolding start_worker close
start_worker-Started m cfg (fails e) = failed (profiling e)
start_worker-Started m cfg (gives ad) =
    elim (Option-cases (m.discover cfg.node_name ad (advertise_addr m cfg))) [
      | inr (e, bad) ↦ rw (start_worker, bad) (failed (no_discovery e))
      | inl found ↦ elim (Option-cases (m.join (host_port cfg.master_addr cfg.ports.gossip))) [
        | inr (e, bad) ↦ rw (start_worker, found, bad) (failed (no_join _ e))
        | inl joined ↦ rw (start_worker, found, joined) (connect-Started m cfg joined)
      ]
    ]
