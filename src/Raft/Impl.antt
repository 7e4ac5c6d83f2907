-- ===== src/Raft/Impl.antt =====
-- `RaftImpl` of raft.go. `W` is the world behind hashicorp/raft, go-libp2p-raft and libp2p: what
-- their calls read and write. A pointer to one of their objects is a Boolean, true where it is set.
pub mod Steady
pub mod Recursion
pub mod Members
pub mod Startup
pub mod Observe
pub mod Reads
pub mod Joining
pub mod Shutdown
pub mod Agreed
use peerprint.Base.{
  ℕ, zero, suc, String, Bool, true, false, Option, none, some, List, [], ◌∷◌, ◌++◌, ◌&&◌, str_eq,
  if◌then◌else◌,
}
use peerprint.Base.Go.{
  Go, Outcome, ok, Error, no_state, no_servers, not_agreed, not_a_state, nil_state, state_get,
  bootstrap, bad_peer, no_connection, Attempt, failed, succeeded, nil_dereference, out_of_fuel,
  pure, fail, stop, gets, modify, wrap, deref, within, attempt, ◌>>=◌, ◌>>◌,
}
use peerprint.Proto.Jobs.{State}
use peerprint.Proto.Peers.{AddrInfo, get_addr_id}
use peerprint.Raft.{Raft}
use peerprint.Raft.External.{RaftServer, Current, marshable, other_type, External}

pub record RaftImpl (W : Type 0) : Type 0 where
  pub id : String  -- host.ID().Pretty()
  pub host_addrs : List String
  pub peers : List (Option AddrInfo)
  pub servers : List RaftServer
  pub transport : Bool
  pub consensus : Bool
  pub raft : Bool
  pub world : W

abbrev pub server_of : String → RaftServer
server_of id = record { id = id; address = id }

abbrev pub get_addrs : Option AddrInfo → List String
get_addrs none = []
get_addrs (some a) = a.addrs

unfoldable pub new : {W : Type 0} → String → List String → W → RaftImpl W
new id host_addrs w = record {
  id = id;
  host_addrs = host_addrs;
  peers = [];
  servers = server_of id ∷ [];
  transport = false;
  consensus = false;
  raft = false;
  world = w;
}

unfoldable pub has_peer : Option AddrInfo → List (Option AddrInfo) → Bool
has_peer ai [] = false
has_peer ai (p ∷ ps) = if str_eq (get_addr_id ai) (get_addr_id p) then true else has_peer ai ps

abbrev pub is_empty : List RaftServer → Bool
is_empty [] = true
is_empty (s ∷ ss) = false

abbrev pub is_no_state : Error → Bool
is_no_state no_state = true
is_no_state _ = false

module _ {W : Type 0} where
  -- a method on a pointer that is not set panics
  abbrev pub set_pointer : Bool → Go (RaftImpl W) (Unit {0})
  set_pointer b = if b then pure tt else stop nil_dereference

  abbrev pub outside : {A : Type 0} → Go W A → Go (RaftImpl W) A
  outside = within (λ ri. ri.world) (λ w ri. record ri { world = w })

  abbrev pub addr_info : Go (RaftImpl W) (Option AddrInfo)
  addr_info ri = ok ri (some (record { id = ri.id; addrs = ri.host_addrs }))

  abbrev pub get_peers : Go (RaftImpl W) (List (Option AddrInfo))
  get_peers ri = ok ri ri.peers

  abbrev pub set_leader : String → Go (RaftImpl W) (Unit {0})
  set_leader l = pure tt

  -- `if !ri.HasPeer(ai) { ... }`
  unfoldable pub append_peer : Option AddrInfo → RaftImpl W → RaftImpl W
  append_peer ai ri = if has_peer ai ri.peers then ri else record ri {
    peers = ri.peers ++ ai ∷ [];
    servers = ri.servers ++ server_of (get_addr_id ai) ∷ [];
  }

module _ {W : Type 0} (ext : External W) where
  abbrev pub fail_at : {S : Type 0} → Option Error → Go S (Unit {0})
  fail_at none = pure tt
  fail_at (some e) = fail e

  unfoldable pub parse_addrs : {S : Type 0} → List String → Go S (Unit {0})
  parse_addrs [] = pure tt
  parse_addrs (a ∷ rest) = do fail_at (ext.new_multiaddr a); parse_addrs rest

  unfoldable pub proto_to_peer_addr_info : {S : Type 0} → Option AddrInfo → Go S (Unit {0})
  unfolding parse_addrs
  proto_to_peer_addr_info ai = do
    fail_at (ext.decode_id (get_addr_id ai))
    parse_addrs (get_addrs ai)

  -- `ri.raft != nil && ri.raft.State() == raft.Leader`
  abbrev pub leads : Go (RaftImpl W) Bool
  leads ri = if ri.raft then outside ext.is_leader ri else ok ri false

  unfoldable pub add_server : Option AddrInfo → Go (RaftImpl W) (Unit {0})
  unfolding append_peer proto_to_peer_addr_info
  add_server ai = do
    modify (append_peer ai)
    wrap bad_peer (proto_to_peer_addr_info ai)
    wrap no_connection (outside (ext.host_connect (get_addr_id ai) (get_addrs ai)))
    l ← leads
    if l then outside (ext.add_voter (server_of (get_addr_id ai))) else pure tt

  -- `transport` and `raft` stay nil where their calls fail
  unfoldable pub setup : Go (RaftImpl W) (Unit {0})
  setup = do
    servers ← gets (λ ri. ri.servers)
    if is_empty servers then fail no_servers else do
      outside ext.new_transport
      modify (λ ri. record ri { transport = true; consensus = true })
      outside ext.new_snapshot_store
      old ← outside ext.has_existing_state
      if old then pure tt else outside (ext.bootstrap_cluster servers)
      outside ext.new_raft
      modify (λ ri. record ri { raft = true })

  unfoldable pub connect : Option AddrInfo → Go (RaftImpl W) (Unit {0})
  unfolding add_server setup
  connect ai = do
    add_server ai
    started ← gets (λ ri. ri.transport)
    if started then pure tt else setup

  unfoldable pub leader : Go (RaftImpl W) String
  leader = do
    l ← leads
    if l
        then gets (λ ri. ri.id)
        else do set ← gets (λ ri. ri.raft); set_pointer set; outside ext.leader_with_id

  -- a nil map is replaced in the object itself
  abbrev pub with_jobs : Option State → Go (RaftImpl W) State
  with_jobs none = fail nil_state
  with_jobs (some s) = elim s.jobs [
    | some m ↦ pure (record { jobs = some m })
    | none ↦ do
      let s' : State = record { jobs = some [] }
      modify (λ ri. record ri { world = ext.wrote s' ri.world })
      pure s'
  ]

  abbrev pub assert_state : Current → Go (RaftImpl W) State
  assert_state (marshable s) = with_jobs s
  assert_state other_type = fail not_a_state

  unfoldable pub get_state : Go (RaftImpl W) State
  get_state = do
    set ← gets (λ ri. ri.consensus)
    set_pointer set
    c ← outside ext.get_current_state
    assert_state c

  -- `Commit`, where `get` is the call of `Get` at its end
  unfoldable pub commit_then :
      Go (RaftImpl W) (Option State) → Option State → Go (RaftImpl W) (Option State)
  commit_then get s = do
    set ← gets (λ ri. ri.raft)
    set_pointer set
    l ← outside ext.is_leader
    if l
        then (do a ← outside (ext.commit_state s); if a then pure tt else fail not_agreed)
        else pure tt
    get

  abbrev pub bootstrap_state : Go (RaftImpl W) (Option State) → Go (RaftImpl W) (Option State)
  bootstrap_state get = commit_then get (some (record { jobs = some [] }))

  abbrev pub got : Go (RaftImpl W) (Option State) → Attempt State → Go (RaftImpl W) (Option State)
  got get (succeeded s) = pure (some s)
  got get (failed e) =
      if is_no_state e then wrap bootstrap (bootstrap_state get) else fail (state_get e)

  -- `Get` calls itself through `bootstrapState` and `Commit`.
  unfoldable pub get : ℕ → Go (RaftImpl W) (Option State)
  unfolding get_state commit_then
  get zero = stop out_of_fuel
  get (suc n) = do r ← attempt get_state; got (get n) r

  unfoldable pub commit : ℕ → Option State → Go (RaftImpl W) (Option State)
  unfolding commit_then get
  commit n = commit_then (get n)

  unfoldable pub raft_impl : ℕ → Raft (RaftImpl W)
  unfolding connect leader get commit
  raft_impl n = record {
    addr_info = addr_info;
    connect = connect;
    leader = leader;
    set_leader = set_leader;
    commit = commit n;
    get = get n;
    wrote = λ s ri. record ri { world = ext.wrote s ri.world };
  }
