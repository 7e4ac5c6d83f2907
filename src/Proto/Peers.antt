-- ===== src/Proto/Peers.antt =====
-- peers.pb.go: peers, their roles and what is sent about them. A `double` is its 64 bits.
use peerprint.Base.{ℕ, String, Option, none, some, List, Bool, true, false}

abbrev pub Float64 : Type 0
Float64 = ℕ

-- proto3 keeps a number that no name stands for
pub data PeerType : Type 0 where
  unknown_peer_type : PeerType
  electable : PeerType
  listener : PeerType
  other_peer_type : ℕ → PeerType

pub data PeerState : Type 0 where
  unknown_peer_state : PeerState
  busy : PeerState
  idle : PeerState
  paused : PeerState
  other_peer_state : ℕ → PeerState

pub record PeerStatus : Type 0 where
  pub id : String
  pub topic : String
  pub leader : String
  pub type : PeerType
  pub state : PeerState

pub record PeersSummary : Type 0 where
  pub peer_estimate : ℕ  -- int64
  pub variance : Float64
  pub sample : List (Option PeerStatus)

pub record PollPeersRequest : Type 0 where
  pub topic : String
  pub probability : Float64

pub record AddrInfo : Type 0 where
  pub id : String
  pub addrs : List String

pub record AssignmentResponse : Type 0 where
  pub topic : String
  pub id : String
  pub leader_id : String
  pub type : PeerType

pub record Queue : Type 0 where
  pub name : String
  pub desc : String
  pub url : String
  pub rendezvous : String
  pub trusted_peers : List String

pub record Registry : Type 0 where
  pub created : ℕ  -- uint64
  pub url : String
  pub queues : List Queue

-- the generated getter, at a pointer that may be nil
abbrev pub get_addr_id : Option AddrInfo → String
get_addr_id none = ""
get_addr_id (some a) = a.id

abbrev pub is_electable : PeerType → Bool
is_electable electable = true
is_electable _ = false
