-- ===== src/Raft/External.antt =====
-- The calls that `RaftImpl` of raft.go makes of hashicorp/raft, go-libp2p-raft and libp2p. `W` is the
-- world that they read and write.
use peerprint.Base.{String, Bool, Option, List}
use peerprint.Base.Go.{Go, Error}
use peerprint.Proto.Jobs.{State}

-- raft.Server; its suffrage is always `Voter`
pub record RaftServer : Type 0 where
  pub id : String
  pub address : String

-- what the type assertion in `getState` tells apart
pub data Current : Type 0 where
  marshable : Option State → Current
  other_type : Current

-- The calls of the libraries, each named for what it calls.
pub record External (W : Type 0) : Type 0 where
  pub decode_id : String → Option Error  -- peer.Decode
  pub new_multiaddr : String → Option Error  -- ma.NewMultiaddr
  pub host_connect : String → List String → Go W (Unit {0})
  pub new_transport : Go W (Unit {0})
  pub new_snapshot_store : Go W (Unit {0})
  pub has_existing_state : Go W Bool
  pub bootstrap_cluster : List RaftServer → Go W (Unit {0})
  pub new_raft : Go W (Unit {0})
  pub is_leader : Go W Bool  -- raft.State() == raft.Leader
  pub leader_with_id : Go W String
  pub add_voter : RaftServer → Go W (Unit {0})
  -- true where the agreed state is not nil
  pub commit_state : Option State → Go W Bool
  pub get_current_state : Go W Current
  -- the world once the object that `get_current_state` returned has been written in place
  pub wrote : State → W → W
