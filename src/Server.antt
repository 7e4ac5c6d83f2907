-- ===== src/Server.antt =====
-- server.go: the state of a server, and what each of its steps reads from outside.
pub mod Access
pub mod Jobs
pub mod Roles
pub mod Dispatch
pub mod Setup
pub mod Loop
pub mod Start
pub mod Invariants
pub mod Safety
pub mod Channels
pub mod Answers
pub mod Guards
pub mod Replies
pub mod TestEnv
use peerprint.Base.{
  ℕ, String, Bool, true, false, Option, none, some, List, ◌∷◌, ◌⊎◌, inl, inr, str_eq, if◌then◌else◌,
}
use peerprint.Base.Go.{
  Go, Outcome, ok, err, halt, Error, Fault, closed_channel, blocked, pure, gets, modify, stop, fail,
  within, ◌>>=◌, ◌>>◌,
}
use peerprint.Base.Dict.{Dict, lookup, insert}
use peerprint.Proto.Peers.{Float64, PeerType, PeerStatus, PeersSummary}
use peerprint.Proto.Message.{Message}
use peerprint.Raft.{Raft}

abbrev pub assignment_topic : String
assignment_topic = "ASSIGN"

abbrev pub default_topic : String
default_topic = "0"

abbrev pub lock_timeout_seconds : ℕ
lock_timeout_seconds = 7200

-- What a step reads from outside the server.
pub record Env : Type 0 where
  pub now : ℕ  -- time.Now().Unix()
  pub draw : Float64  -- rand.Float64()
  pub float_lt : Float64 → Float64 → Bool
  pub open_error : String → Option Error  -- the error of the opener at a topic, if it fails
  pub role_awaited : Bool  -- a handshake waits on `roleAssigned`
  pub push_room : Bool  -- `pushCmd` takes a value at once

-- What a server has sent, and to whom.
pub data Sent : Type 0 where
  to_topic : String → Message → Sent
  to_wrapper : Message → Sent
  to_command : Message → Sent
  role_assigned : PeerType → Sent
  poller_update : Option PeerStatus → Sent
  poller_resume : Sent

-- A topic's channel, as the map `sendPubsub` holds it.
pub data Chan : Type 0 where
  open_chan : Chan
  closed_chan : Chan

pub record Server (R : Type 0) : Type 0 where
  pub trusted_peers : Dict (Unit {0})
  pub send_pubsub : Dict Chan
  pub raft : R
  pub status : PeerStatus
  pub sent : List Sent  -- the latest first

module _ {R : Type 0} where
  abbrev pub get_id : Server R → String
  get_id t = t.status.id

  abbrev pub get_topic : Server R → String
  get_topic t = t.status.topic

  abbrev pub get_type : Server R → PeerType
  get_type t = t.status.type

  abbrev pub emit : Sent → Go (Server R) (Unit {0})
  emit m = modify λ t. record t { sent = m ∷ t.sent }

  -- a call of the raft object that the server holds
  abbrev pub call_raft : {A : Type 0} → Go R A → Go (Server R) A
  call_raft = within (λ t. t.raft) (λ r t. record t { raft = r })

  -- a send on what the map holds: a nil channel blocks for ever, a closed one panics
  abbrev pub send_on : Option Chan → String → Message → Go (Server R) (Unit {0})
  send_on none topic m = stop blocked
  send_on (some closed_chan) topic m = stop closed_channel
  send_on (some open_chan) topic m = emit (to_topic topic m)

  -- t.sendPubsub[topic] <- m
  unfoldable pub publish : String → Message → Go (Server R) (Unit {0})
  publish topic m t = send_on (lookup topic t.send_pubsub) topic m t

module _ {R : Type 0} (raft : Raft R) where
  abbrev pub get_leader : Go (Server R) String
  get_leader = call_raft raft.leader
