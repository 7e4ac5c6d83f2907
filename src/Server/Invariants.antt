-- ===== src/Server/Invariants.antt =====
-- Properties of a server that every step keeps for the same reason: one obligation for each way in
-- which a handler writes to the server.
pub mod Handlers
pub mod Dispatch
pub mod Loop
pub mod Unseen
use peerprint.Base.{String, Option, none, some, ◌≡◌}
use peerprint.Base.Go.{Go, Outcome, ok, err, halt}
use peerprint.Base.Post.{Returned, Ensures-within}
use peerprint.Base.Keeps.{Keeps}
use peerprint.Base.Dict.{lookup, insert}
use peerprint.Proto.Jobs.{State}
use peerprint.Proto.Peers.{PeerType, AddrInfo}
use peerprint.Raft.{Raft}
use peerprint.Server.{Server, Sent, to_command, open_chan, closed_chan, call_raft, emit}
use peerprint.Server.Roles.{set_role}

-- no answer to a command of the wrapper
abbrev pub NotAnswer : Sent → Type 0
NotAnswer (to_command m) = ⊥
NotAnswer _ = Unit

module _ {R : Type 0} (raft : Raft R) where
  pub record Stable (P : Server R → Type 0) : Type 0 where
    pub leader : Keeps P (call_raft raft.leader)
    pub set_leader : (l : String) → Keeps P (call_raft (raft.set_leader l))
    pub addr_info : Keeps P (call_raft raft.addr_info)
    pub connect : (a : Option AddrInfo) → Keeps P (call_raft (raft.connect a))
    pub get : Keeps P (call_raft raft.get)
    pub emit_other : (m : Sent) → NotAnswer m → Keeps P (emit m)
    pub close :
        (topic : String) (t : Server R)
        → lookup topic t.send_pubsub ≡ some open_chan
        → P t
        → P (record t { send_pubsub = insert topic closed_chan t.send_pubsub })
    pub open_new :
        (topic : String) (t : Server R)
        → lookup topic t.send_pubsub ≡ none
        → P t
        → P (record t { send_pubsub = insert topic open_chan t.send_pubsub })
    pub role : (topic : String) (type : PeerType) (t : Server R) → P t → P (set_role topic type t)

-- The property does not look at the store.
pub record IsAside {R : Type 0} (P : Server R → Type 0) : Type 0 where
  pub any_store : (r : R) (t : Server R) → P t → P (record t { raft = r })

pub call-IsAside :
    {R A : Type 0} {P : Server R → Type 0} (m : Go R A) → IsAside P → Keeps P (call_raft m)
call-IsAside m a = record {
  at = λ t h. Ensures-within _ (m t.raft) (anything (m t.raft) (λ r. a.any_store r t h));
}
  where
    anything : {R A : Type 0} {Q : R → Type 0} (o : Outcome R A) → ((r : R) → Q r) → Returned Q o
    anything (ok r x) h = record { at = h r }
    anything (err r e) h = record { at = h r }
    anything (halt x) h = record { at = tt }
