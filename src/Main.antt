-- ===== src/Main.antt =====
-- main.go: the two commands of the program, up to the server that `main` calls `Loop` of. The
-- disk is the state. What the flag, strings, strconv and libp2p packages return is a parameter; a
-- call of log.Fatal is an error, since it ends the process.
pub mod Serving
pub mod Queues
pub mod Unset
pub mod Fresh
pub mod Cluster
pub mod Granted
pub mod Replication
pub mod Forwarding
pub mod HalfSet
use peerprint.Base.{
  ℕ, String, Bool, true, false, not, Option, List, [], ◌∷◌, map, str_eq, if◌then◌else◌,
}
use peerprint.Base.Go.{
  Go, Outcome, ok, err, halt, Error, Attempt, blocked, panicked, out_of_range, usage,
  not_an_integer, write_registry, pure, fail, stop, wrap, given, must, ◌>>=◌, ◌>>◌,
}
use peerprint.Discovery.{
  Discovery, Method, mdns, dht, Turn, Awaiter, ready, timed_out, new as new_discovery, run,
}
use peerprint.Cmd.{new_log}
use peerprint.RegistryGenerator.{Crypto, Disk, load_or_generate_keys}
use peerprint.RegistryGenerator.Registry.{Names, Formats, gen_registry_files}
use peerprint.Raft.External.{External}
use peerprint.Raft.Impl.{RaftImpl, raft_impl, new as new_raft}
use peerprint.Server.{Server, Env}
use peerprint.Server.Setup.{new as new_server}

pub record Flags : Type 0 where
  pub rendezvous : String
  pub trusted_peers : String
  pub local : Bool
  pub privkeyfile : String
  pub pubkeyfile : String
  pub zmq_log_addr : String

-- a libp2p host
pub record Host : Type 0 where
  pub id : String
  pub addrs : List String

-- The calls of the libraries.
pub record Platform (Priv Pub Bytes Json : Type 0) : Type 0 where
  pub crypto : Crypto Priv Pub Bytes
  pub formats : Formats Bytes Json
  pub id_from_public : Pub → Attempt String
  pub join : String → Names  -- the names in a directory
  pub uuid : String
  pub now : ℕ
  pub atoi : String → Attempt ℕ  -- a negative number is as none
  pub parse : List String → Attempt Flags
  pub split : String → List String  -- at commas
  pub trim_space : String → String
  pub new_push : String → Attempt (Unit {0})  -- of the socket library, for the log
  pub new_read_writer : String → Attempt (Unit {0})
  pub pubsub_host : Priv → Attempt Host
  pub raft_host : Priv → Attempt Host
  pub connect_fails : String → Option Error
  pub new_gossip_sub : Attempt (Unit {0})

-- What the process meets: the turns of discovery until `AwaitReady` comes back, and what the
-- server and its raft object read.
pub record Surroundings (W : Type 0) : Type 0 where
  pub turns : List Turn
  pub env : Env
  pub world : W
  pub fuel : ℕ

pub data Started (R : Type 0) : Type 0 where
  registry_written : Started R
  serving : Server R → Started R

module _ {S : Type 0} where
  abbrev pub must_be : Bool → Go S (Unit {0})
  must_be true = pure tt
  must_be false = stop panicked

  abbrev pub returned_by : Awaiter → Go S (Unit {0})
  returned_by ready = pure tt
  returned_by timed_out = stop panicked
  returned_by _ = stop blocked

  abbrev pub awaited : Outcome Discovery (Unit {0}) → Go S (Unit {0})
  awaited (ok c a) = returned_by c.awaiter
  awaited (err c e) = stop panicked
  awaited (halt x) = stop x

  -- AwaitReady, behind the `New` of discovery
  abbrev pub started_by :
      (String → Option Error) → List Turn → Outcome (Unit {0}) Discovery → Go S (Unit {0})
  started_by connect_fails turns (ok u c) = awaited (run connect_fails turns c)
  started_by connect_fails turns (err u e) = stop panicked
  started_by connect_fails turns (halt x) = stop x

  -- `New` of the server returns no error
  abbrev pub made : {R : Type 0} → Outcome (Server R) (Unit {0}) → Go S (Server R)
  made (ok t a) = pure t
  made (err t e) = pure t
  made (halt x) = stop x

abbrev pub method_of : Bool → Method
method_of local = if local then mdns else dht

module _ {Priv Pub Bytes Json : Type 0} (p : Platform Priv Pub Bytes Json) where
  abbrev pub trusted_list : String → List String
  trusted_list s = map p.trim_space (p.split s)

  -- discovery.New and AwaitReady
  abbrev pub find_peers : Bool → List Turn → String → Go (Disk Bytes) (Unit {0})
  find_peers local turns id =
      started_by p.connect_fails turns (new_discovery (method_of local) id tt)

  unfoldable pub generate : List String → Go (Disk Bytes) (Unit {0})
  generate (num ∷ dest_dir ∷ []) = do
    npeer ← wrap (λ e. not_an_integer) (given (p.atoi num))
    wrap write_registry (
        gen_registry_files p.crypto (p.join dest_dir) p.formats p.id_from_public p.uuid p.now npeer)
  generate _ = fail usage

module _ {Priv Pub Bytes Json W : Type 0} (p : Platform Priv Pub Bytes Json) (ext : External W)
    (around : Surroundings W) where
  unfoldable pub serve : Flags → Go (Disk Bytes) (Server (RaftImpl W))
  serve f = do
    must_be (not (str_eq f.rendezvous ""))
    must_be (not (str_eq f.trusted_peers ""))
    if str_eq f.zmq_log_addr ""
        then pure tt
        else new_log p.new_push p.new_read_writer f.zmq_log_addr
    (kpriv, public) ← must (load_or_generate_keys p.crypto f.privkeyfile f.pubkeyfile)
    h ← must (given (p.pubsub_host kpriv))
    rh ← must (given (p.raft_host kpriv))
    find_peers p f.local around.turns h.id
    must (given p.new_gossip_sub)
    made (
        new_server (raft_impl ext around.fuel) around.env (record {
          id = h.id;
          trusted_peers = trusted_list p f.trusted_peers;
          raft = new_raft rh.id rh.addrs around.world;
        }))

  -- os.Args
  unfoldable pub main : List String → Go (Disk Bytes) (Started (RaftImpl W))
  unfolding serve generate
  main (prog ∷ command ∷ rest) =
      if str_eq command "generate_registry"
      then (do generate p rest; pure registry_written)
      else (do f ← given (p.parse (command ∷ rest)); t ← serve f; pure (serving t))
  main _ = stop out_of_range
