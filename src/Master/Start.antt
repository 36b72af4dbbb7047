-- ===== src/Master/Start.antt =====
-- StartMaster of internal/daemon/master.go and MasterHandle.Cancel: what the start opens, in which
-- order, and what is closed when a step fails and at the end; Open of internal/store/store.go, which
-- the start calls first. The answers of the machine and of the libraries are arguments.
use tasch.Base.{
  ◌≡◌, refl, ◌⊎◌, inl, inr, String, ℤ, Bool, true, false, ◌&&◌, not, Option, none, some,
  Option-cases, str_eq, concat, if◌then◌else◌,
}
use tasch.Numbers.{int_text}
use tasch.Config.{Config}

-- What is open: the database, the goroutine that writes changes to it, the gossip of the cluster, the
-- goroutines that end with the shutdown context, the socket of messages, the health server, and the
-- gRPC server with its port.
pub record Parts : Type 0 where
  pub database : Bool
  pub writer : Bool
  pub gossip : Bool
  pub loops : Bool
  pub publisher : Bool
  pub health : Bool
  pub server : Bool

abbrev pub nothing : Parts
nothing = record {
  database = false;
  writer = false;
  gossip = false;
  loops = false;
  publisher = false;
  health = false;
  server = false;
}

pub data MasterError : Type 0 where
  no_store_dir : String → MasterError
  no_store : String → MasterError
  no_buckets : String → MasterError
  no_gossip : String → MasterError
  no_evaluator : String → MasterError
  no_publisher : String → MasterError
  no_certificate : String → MasterError
  no_listener : String → MasterError

-- The errors of os.MkdirAll, bolt.Open, CreateBucketIfNotExists, NewNodeDiscovery at a port,
-- NewEvaluator, NewZMQPublisher at an endpoint, the loading of a certificate, net.Listen, and http.ListenAndServe of
-- the health server, which is printed by its goroutine and stops nothing.
pub record MasterMachine : Type 0 where
  pub make_dir : String → Option String
  pub open_bolt : String → Option String
  pub create_buckets : Option String
  pub discover : ℤ → Option String
  pub evaluator : Option String
  pub publish : String → Option String
  pub load_pair : String → String → Option String
  pub listen : String → Option String
  pub listen_health : String → Option String

-- Open of the store at a path in a directory.
unfoldable pub open_store : MasterMachine → String → String → Parts → Parts × Option MasterError
open_store m dir path o = elim (m.make_dir dir) [
  | some e ↦ (o, some (no_store_dir e))
  | none ↦ elim (m.open_bolt path) [
    | some e ↦ (o, some (no_store e))
    | none ↦ elim m.create_buckets [
      | some e ↦ (record (record o { database = true }) { database = false }, some (no_buckets e))
      | none ↦ (record o { database = true }, none)
    ]
  ]
]

-- `cleanDB`
unfoldable pub clean_db : Parts → Parts
clean_db o = record o { writer = false; database = false }

-- `shutdownCancel`, `disc.Shutdown`, `pub.Close`, in the order of each error path.
unfoldable pub abandon : Parts → Parts
abandon o = clean_db (record o { loops = false; gossip = false; publisher = false })

abbrev pub port_text : ℤ → String
port_text port = concat ":" (int_text port)

abbrev pub serves_tls : Config → Bool
serves_tls cfg =
    cfg.tls.enabled && (not (str_eq cfg.tls.cert_file "") && not (str_eq cfg.tls.key_file ""))

-- The gRPC server, the last part.
unfoldable pub start_server : MasterMachine → Config → Parts → Parts × Option MasterError
start_server m cfg o =
    elim (if serves_tls cfg then m.load_pair cfg.tls.cert_file cfg.tls.key_file else none) [
      | some e ↦ (abandon o, some (no_certificate e))
      | none ↦ elim (m.listen (port_text cfg.ports.grpc)) [
        | some e ↦ (abandon o, some (no_listener e))
        | none ↦ (record o { server = true }, none)
      ]
    ]

-- Whether the health server comes up.
abbrev pub serves_health : MasterMachine → Config → Bool
serves_health m cfg = elim (m.listen_health (port_text cfg.ports.metrics)) [
  | none ↦ true
  | some e ↦ false
]

-- The parts after the store and its writer.
unfoldable pub start_cluster : MasterMachine → Config → Parts → Parts × Option MasterError
start_cluster m cfg o = elim (m.discover cfg.ports.gossip) [
  | some e ↦ (clean_db o, some (no_gossip e))
  | none ↦
      let o₁ : Parts = record o { gossip = true } in
      elim m.evaluator [
        | some e ↦ (clean_db (record o₁ { gossip = false }), some (no_evaluator e))
        | none ↦ elim (m.publish (concat "tcp://*:" (int_text cfg.ports.zmq))) [
          | some e ↦ (clean_db (record o₁ { loops = false; gossip = false }), some (no_publisher e))
          | none ↦
              start_server m cfg
                (record o₁ { publisher = true; health = serves_health m cfg; loops = true })
        ]
      ]
]

unfoldable pub start_master : MasterMachine → String → String → Config → Parts × Option MasterError
start_master m dir path cfg =
    let (o, err) = open_store m dir path nothing in
    elim err [ some e ↦ (o, some e) | none ↦ start_cluster m cfg (record o { writer = true }) ]

-- MasterHandle.Cancel
unfoldable pub cancel_master : Parts → Parts
cancel_master o =
    clean_db (record o { loops = false; server = false; publisher = false; gossip = false })

-- The health server alone, if it has come up.
abbrev pub only_health : Bool → Parts
only_health up = record nothing { health = up }

abbrev pub everything : Bool → Parts
everything up = record {
  database = true;
  writer = true;
  gossip = true;
  loops = true;
  publisher = true;
  health = up;
  server = true;
}

-- How the start ends: early, with nothing open; at the certificate or the port, with the health server
-- left if its own port was free; or with everything open, the health server if its port was free.
pub data Ends (m : MasterMachine) (cfg : Config) : Parts × Option MasterError → Type 0 where
  ends_early : (e : MasterError) → Ends m cfg (nothing, some e)
  ends_late :
      (e : MasterError)
      → ((x : String) × (e ≡ no_certificate x)) ⊎ ((x : String) × (e ≡ no_listener x))
      → (up : Bool)
      → ((up ≡ true) × (m.listen_health (port_text cfg.ports.metrics) ≡ none))
        ⊎ ((up ≡ false) × ((x : String) × (m.listen_health (port_text cfg.ports.metrics) ≡ some x)))
      → Ends m cfg (only_health up, some e)
  comes_up :
      m.listen (port_text cfg.ports.grpc) ≡ none
      → (up : Bool)
      → ((up ≡ true) × (m.listen_health (port_text cfg.ports.metrics) ≡ none))
        ⊎ ((up ≡ false) × ((x : String) × (m.listen_health (port_text cfg.ports.metrics) ≡ some x)))
      → cancel_master (everything up) ≡ only_health up
      → Ends m cfg (everything up, none)

module _ (m : MasterMachine) (cfg : Config) where
  abbrev before_server : Parts
  before_server = record (everything (serves_health m cfg)) { server = false }

  health :
      ((serves_health m cfg ≡ true) × (m.listen_health (port_text cfg.ports.metrics) ≡ none))
      ⊎ ((serves_health m cfg ≡ false)
          × ((x : String) × (m.listen_health (port_text cfg.ports.metrics) ≡ some x)))
  health = elim (Option-cases (m.listen_health (port_text cfg.ports.metrics))) [
    | inl free ↦ inl (rw (serves_health, free) refl, free)
    | inr (x, taken) ↦ inr (rw (serves_health, taken) refl, (x, taken))
  ]

  server-Ends : Ends m cfg (start_server m cfg before_server)
  unfolding start_server abandon clean_db cancel_master
  server-Ends =
      elim (Option-cases
        (if serves_tls cfg then m.load_pair cfg.tls.cert_file cfg.tls.key_file else none)) [
          | inr (e, bad) ↦
              rw (start_server, bad)
                (ends_late (no_certificate e) (inl (e, refl)) (serves_health m cfg) health)
          | inl loaded ↦ elim (Option-cases (m.listen (port_text cfg.ports.grpc))) [
            | inr (e, bad) ↦
                rw (start_server, loaded, bad)
                  (ends_late (no_listener e) (inr (e, refl)) (serves_health m cfg) health)
            | inl listens ↦
                rw (start_server, loaded, listens)
                  (comes_up listens (serves_health m cfg) health refl)
          ]
        ]

  abbrev with_store : Parts
  with_store = record nothing { database = true; writer = true }

  cluster-Ends : Ends m cfg (start_cluster m cfg with_store)
  unfolding start_cluster clean_db
  cluster-Ends = elim (Option-cases (m.discover cfg.ports.gossip)) [
    | inr (e, bad) ↦ simp (start_cluster, bad) (ends_early (no_gossip e))
    | inl found ↦ elim (Option-cases m.evaluator) [
      | inr (e, bad) ↦ simp (start_cluster, found, bad) (ends_early (no_evaluator e))
      | inl checks ↦ elim (Option-cases (m.publish (concat "tcp://*:" (int_text cfg.ports.zmq)))) [
        | inr (e, bad) ↦ simp (start_cluster, found, checks, bad) (ends_early (no_publisher e))
        | inl publishes ↦ simp (start_cluster, found, checks, publishes) server-Ends
      ]
    ]
  ]

-- StartMaster fails with nothing left open, or at the certificate or the port of its gRPC server with
-- nothing but its health server left open, if the metrics port was free for it; or everything is open,
-- the health server if the metrics port was free for it, and Cancel then closes all of it but the
-- health server.
pub start_master-Ends :
    (m : MasterMachine) (dir path : String) (cfg : Config)
    → Ends m cfg (start_master m dir path cfg)
unfolding start_master open_store
start_master-Ends m dir path cfg = elim (Option-cases (m.make_dir dir)) [
  | inr (e, bad) ↦ simp (start_master, open_store, bad) (ends_early (no_store_dir e))
  | inl made ↦ elim (Option-cases (m.open_bolt path)) [
    | inr (e, bad) ↦ simp (start_master, open_store, made, bad) (ends_early (no_store e))
    | inl opened ↦ elim (Option-cases m.create_buckets) [
      | inr (e, bad) ↦
          simp (start_master, open_store, made, opened, bad) (ends_early (no_buckets e))
      | inl ready ↦ simp (start_master, open_store, made, opened, ready) (cluster-Ends m cfg)
    ]
  ]
]
