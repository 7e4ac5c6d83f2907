-- ===== src/Tests/Raft.antt =====
-- `RaftImpl` over stand-ins for the libraries.
use peerprint.Base.{
  String, Bool, true, false, Option, none, some, [], ◌∷◌, ◌≡◌, refl, str_eq, if◌then◌else◌, sym,
  inl,
}
use peerprint.Base.Go.{Outcome, ok, err, halt, Error, external, no_state, out_of_fuel, pure, ◌>>=◌}
use peerprint.Base.Post.{Returned, Ensures}
use peerprint.Proto.Jobs.{State}
use peerprint.Proto.Peers.{AddrInfo}
use peerprint.Raft.Impl.{RaftImpl, new, get, connect, server_of, has_peer, raft_impl}
use peerprint.Raft.External.{External, Current, marshable}
use peerprint.Raft.Impl.Recursion.{running, get-diverges}
use peerprint.Raft.Impl.Members.{Members, connect_with, get_within, run_calls, run_calls-Members}
use peerprint.Raft.Contract
use peerprint.Raft.Contract.{Board, jobs_at, ◌≗◌, Contract}
use peerprint.Raft.Consensus.{AfterRead, NoJobs, Consensus}
use peerprint.Raft.Impl.Agreed.{raft_impl-Contract}

-- What the libraries keep: who leads, whether files can be written, and the agreed state.
pub record World : Type 0 where
  pub leads : Bool
  pub disk : Bool
  pub agreed : Option State

abbrev pub current : Option State → World → Outcome World Current
current none w = err w no_state
current (some s) w = ok w (marshable (some s))

abbrev pub open_snapshots : Bool → World → Outcome World (Unit {0})
open_snapshots true w = ok w tt
open_snapshots false w = err w (external "disk")

abbrev pub decode : String → Option Error
decode id = if str_eq id "" then some (external "empty id") else none

abbrev pub libraries : External World
libraries = record {
  decode_id = decode;
  new_multiaddr = λ a. none;
  host_connect = λ id addrs. pure tt;
  new_transport = pure tt;
  new_snapshot_store = λ w. open_snapshots w.disk w;
  has_existing_state = pure false;
  bootstrap_cluster = λ servers. pure tt;
  new_raft = pure tt;
  is_leader = λ w. ok w w.leads;
  leader_with_id = pure "ann";
  add_voter = λ s. pure tt;
  commit_state = λ s w. ok (record w { agreed = s }) true;
  get_current_state = λ w. current w.agreed w;
  wrote = λ s w. record w { agreed = some s };
}

abbrev pub follower : World
follower = record { leads = false; disk = true; agreed = none }

abbrev pub at : World → RaftImpl World
at w = new "self" ("/ip4/10.0.0.1" ∷ []) w

abbrev pub bob : Option AddrInfo
bob = some (record { id = "bob"; addrs = "/ip4/10.0.0.2" ∷ [] })

-- the second `Connect` to the same peer appends nothing
joined :
    (connect libraries bob >>= λ _. connect libraries bob) (at follower)
    ≡ ok
        (record (at follower) {
          peers = bob ∷ [];
          servers = server_of "self" ∷ server_of "bob" ∷ [];
          transport = true;
          consensus = true;
          raft = true;
        })
        tt
unfolding connect new has_peer
joined = refl

get-diverges_example : get libraries 100 (running (at follower)) ≡ halt out_of_fuel
unfolding new
get-diverges_example = get-diverges libraries 100 (at follower) refl refl

abbrev pub chosen : World
chosen = record { leads = true; disk = true; agreed = none }

abbrev agreed_empty : World
agreed_empty = record chosen { agreed = some (record { jobs = some [] }) }

run_calls-Members_example : Returned (Members "self") (
    run_calls libraries
      (connect_with bob ∷ connect_with none ∷ connect_with bob ∷ get_within 3 ∷ [])
      (new "self" [] chosen))
run_calls-Members_example =
    run_calls-Members libraries "self" [] chosen
      (connect_with bob ∷ connect_with none ∷ connect_with bob ∷ get_within 3 ∷ [])

abbrev no_disk : World
no_disk = record { leads = false; disk = false; agreed = none }

abbrev pub half_set : RaftImpl World
half_set = record (at no_disk) { transport = true; consensus = true }

-- such an object is what a failed `Connect` leaves
setup_failed :
    connect libraries bob (at no_disk)
    ≡ err
        (record half_set { peers = bob ∷ []; servers = server_of "self" ∷ server_of "bob" ∷ [] })
        (external "disk")
unfolding connect new has_peer
setup_failed = refl

abbrev agreed_board : World → Board
agreed_board w = jobs_at w.agreed

open_snapshots-Keeps : (b : Bool) (w : World) → Contract.Keeps agreed_board w (open_snapshots b w)
open_snapshots-Keeps true w = record { at = λ k. refl }
open_snapshots-Keeps false w = record { at = λ k. refl }

current-AfterRead :
    (s : Option State) (w : World)
    → agreed_board w ≗ jobs_at s
    → Ensures
        (λ w' c. (agreed_board w' ≗ agreed_board w) × AfterRead agreed_board w c)
        (λ w' e. (agreed_board w' ≗ agreed_board w) × NoJobs agreed_board w e)
        (current s w)
current-AfterRead none w h = record { at = ((λ k. refl), h) }
current-AfterRead (some s) w h = record { at = ((λ k. refl), λ k. sym (h k)) }

libraries-Consensus : Consensus libraries agreed_board
libraries-Consensus = record {
  host_connect_lem = λ id addrs w. record { at = λ k. refl };
  new_transport_lem = λ w. record { at = λ k. refl };
  new_snapshot_store_lem = λ w. open_snapshots-Keeps w.disk w;
  has_existing_state_lem = λ w. record { at = λ k. refl };
  bootstrap_cluster_lem = λ l w. record { at = λ k. refl };
  new_raft_lem = λ w. record { at = λ k. refl };
  is_leader_lem = λ w. record { at = λ k. refl };
  leader_with_id_lem = λ w. record { at = λ k. refl };
  add_voter_lem = λ s w. record { at = λ k. refl };
  commit_state_lem = λ s w. record { at = inl λ k. refl };
  get_current_state_lem = λ w. current-AfterRead w.agreed w (λ k. refl);
  wrote_lem = λ s w. inl λ k. refl;
}

raft_impl-Contract_example : Contract (raft_impl libraries 3) (λ ri. agreed_board ri.world)
raft_impl-Contract_example = raft_impl-Contract libraries agreed_board libraries-Consensus 3
