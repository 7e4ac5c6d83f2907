-- ===== src/Raft/Consensus.antt =====
-- What `RaftImpl` (raft.go) relies on in hashicorp/raft and go-libp2p-raft, as far as jobs go.
use peerprint.Base.{String, Option, none, some, List, ◌⊎◌, if◌then◌else◌}
use peerprint.Base.Go.{Error}
use peerprint.Base.Post.{Ensures}
use peerprint.Proto.Jobs.{State}
use peerprint.Raft.Contract
use peerprint.Raft.Contract.{Board, jobs_at, ◌≗◌, AfterGet, AfterCommit, Contract}
use peerprint.Raft.External.{External, RaftServer, Current, marshable, other_type}
use peerprint.Raft.Impl.{is_no_state}

-- What a world's agreed board is, after a read of the state.
abbrev pub AfterRead : {W : Type 0} → (W → Board) → W → Current → Type 0
AfterRead board w (marshable s) = jobs_at s ≗ board w
AfterRead board w other_type = Unit

-- where the error is `ErrNoState`, nothing has been agreed on
abbrev pub NoJobs : {W : Type 0} → (W → Board) → W → Error → Type 0
NoJobs board w e = if is_no_state e then (board w ≗ jobs_at none) else Unit

-- What the libraries document, as far as jobs go: the agreed jobs change by a commit alone, or by a
-- write in place to the object that holds them; a commit that comes back has been agreed on or has
-- not; a read returns what is agreed, and `ErrNoState` only where nothing is.
pub record Consensus {W : Type 0} (ext : External W) (board : W → Board) : Type 0 where
  pub host_connect_lem :
      (id : String) (addrs : List String) (w : W)
      → Contract.Keeps board w (ext.host_connect id addrs w)
  pub new_transport_lem : (w : W) → Contract.Keeps board w (ext.new_transport w)
  pub new_snapshot_store_lem : (w : W) → Contract.Keeps board w (ext.new_snapshot_store w)
  pub has_existing_state_lem : (w : W) → Contract.Keeps board w (ext.has_existing_state w)
  pub bootstrap_cluster_lem :
      (l : List RaftServer) (w : W) → Contract.Keeps board w (ext.bootstrap_cluster l w)
  pub new_raft_lem : (w : W) → Contract.Keeps board w (ext.new_raft w)
  pub is_leader_lem : (w : W) → Contract.Keeps board w (ext.is_leader w)
  pub leader_with_id_lem : (w : W) → Contract.Keeps board w (ext.leader_with_id w)
  pub add_voter_lem : (s : RaftServer) (w : W) → Contract.Keeps board w (ext.add_voter s w)
  pub commit_state_lem : (s : Option State) (w : W) → AfterCommit board w s (ext.commit_state s w)
  pub get_current_state_lem :
      (w : W)
      → Ensures
          (λ w' c. (board w' ≗ board w) × AfterRead board w c)
          (λ w' e. (board w' ≗ board w) × NoJobs board w e)
          (ext.get_current_state w)
  pub wrote_lem :
      (s : State) (w : W)
      → (board (ext.wrote s w) ≗ jobs_at (some s)) ⊎ (board (ext.wrote s w) ≗ board w)
