-- ===== src/Server/Setup.antt =====
-- `New` and `setup` of server.go.
pub mod Trusting
use peerprint.Base.{String, Bool, none, some, List, [], ◌∷◌, if◌then◌else◌}
use peerprint.Base.Go.{
  Go, Outcome, Attempt, failed, succeeded, panicked, pure, gets, modify, stop, attempt, ◌>>=◌, ◌>>◌,
}
use peerprint.Base.Dict.{Dict, insert}
use peerprint.Proto.Peers.{electable, unknown_peer_type, unknown_peer_state}
use peerprint.Raft.{Raft}
use peerprint.Server.{Env, Server, open_chan, get_id, assignment_topic, default_topic}
use peerprint.Server.Access.{in_trusted_peers}
use peerprint.Server.Roles.{on_assignment_response}

pub record ServerOptions (R : Type 0) : Type 0 where
  pub id : String
  pub trusted_peers : List String
  pub raft : R

-- for _, p := range opts.TrustedPeers { tp[p] = struct{}{} }
unfoldable pub trust_all : List String → Dict (Unit {0}) → Dict (Unit {0})
trust_all [] tp = tp
trust_all (p ∷ ps) tp = trust_all ps (insert p tt tp)

module _ {R : Type 0} where
  abbrev pub am_trusted : Server R → Bool
  am_trusted t = in_trusted_peers (get_id t) t

  -- `if err != nil { panic(err) }`
  abbrev pub or_panic : {A : Type 0} → Attempt A → Go (Server R) (Unit {0})
  or_panic (failed e) = stop panicked
  or_panic (succeeded a) = pure tt

  unfoldable pub open_assignment : Env → Go (Server R) (Unit {0})
  open_assignment env = elim (env.open_error assignment_topic) [
    | some e ↦ stop panicked
    | none ↦ modify λ t. record t { send_pubsub = insert assignment_topic open_chan t.send_pubsub }
  ]

module _ {R : Type 0} (raft : Raft R) where
  unfoldable pub setup : Env → Go (Server R) (Unit {0})
  unfolding open_assignment in_trusted_peers
  setup env = do
    open_assignment env
    trusted ← gets (λ t. am_trusted t)
    if trusted
        then (do
          me ← gets (λ t. get_id t)
          r ← attempt (
              on_assignment_response raft env assignment_topic me
                (record { id = me; topic = default_topic; type = electable; leader_id = "" }))
          or_panic r)
        else pure tt

  abbrev pub blank : ServerOptions R → Server R
  blank opts = record {
    trusted_peers = trust_all opts.trusted_peers [];
    send_pubsub = [];
    raft = opts.raft;
    status = record {
      id = opts.id;
      topic = "";
      leader = "";
      type = unknown_peer_type;
      state = unknown_peer_state;
    };
    sent = [];
  }

  unfoldable pub new : Env → ServerOptions R → Outcome (Server R) (Unit {0})
  unfolding setup
  new env opts = setup env (blank opts)
