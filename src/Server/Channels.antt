-- ===== src/Server/Channels.antt =====
-- The channels of topics (`sendPubsub` of server.go), in assignments and in the main loop.
pub mod Assigned
use peerprint.Base.{
  String, Bool, true, false, Option, none, some, ◌≡◌, ◌≢◌, ◌⊎◌, inl, inr, refl, List, [], ◌∷◌,
  arith, eq_iff, str_eq, if◌then◌else◌, ap, sym,
}
use peerprint.Base.Go.{
  Go, Outcome, ok, err, halt, closed_channel, Attempt, failed, succeeded, ◌>>=◌, ◌>>◌,
}
use peerprint.Base.Post.{Returned, Ensures}
use peerprint.Base.Keeps.{
  Keeps, Keeps-pure, Keeps-bind, Keeps-if, Keeps-attempt, Keeps-gets, Keeps-modify,
}
use peerprint.Base.Dict.{Dict, lookup, insert, lookup-insert, lookup-insert_ne, lookup-insert_self}
use peerprint.Proto.Peers.{AssignmentResponse, PeerType, electable, AddrInfo, is_electable}
use peerprint.Proto.Message.{Message}
use peerprint.Raft.{Raft}
use peerprint.Server.{
  Server, Sent, Env, Chan, open_chan, closed_chan, to_topic, get_id, get_topic, get_type, call_raft,
  emit, publish,
}
use peerprint.Server.Roles.{
  set_role, close_topic, open_topic, take_assignment, on_assignment_response, raft_addrs_request,
  notify_role,
}
use peerprint.Server.Dispatch.{handle}
use peerprint.Server.Loop.{Event, command, pubsub, loop_step, run_loop, on_command, answer}
use peerprint.Server.Invariants.{Stable, IsAside, NotAnswer, call-IsAside}
use peerprint.Server.Invariants.Dispatch.{handle-IsAside}
use peerprint.Server.Invariants.Handlers.{take_assignment-Stable}
use peerprint.Server.Invariants.Unseen.{Unseen, Unseen-Stable, run_loop-Unseen}
use peerprint.Server.Invariants.Loop.{
  StepKeeps, AllKeep, publish-Stable, publish_and_push-Stable, run_loop-Stable,
}

-- Who the server is and whom it trusts, and one topic whose channel is closed.
pub record Fixed {R : Type 0} (me : String) (trusted : Dict (Unit {0})) (t : Server R)
    : Type 0 where
  pub self : get_id t ≡ me
  pub peers : t.trusted_peers ≡ trusted

pub record IsClosed {R : Type 0} (topic : String) (t : Server R) : Type 0 where
  pub entry : lookup topic t.send_pubsub ≡ some closed_chan

module _ {R : Type 0} (me : String) (trusted : Dict (Unit {0})) where
  pub Fixed-Unseen : Unseen {R = R} (Fixed me trusted)
  Fixed-Unseen = record {
    aside = record { any_store = λ r t h. record { self = h.self; peers = h.peers } };
    emits = λ m. Keeps-modify _ λ t h. record { self = h.self; peers = h.peers };
    close = λ topic t e h. record { self = h.self; peers = h.peers };
    open_new = λ topic t e h. record { self = h.self; peers = h.peers };
    role = λ topic type t h. record { self = h.self; peers = h.peers };
  }

module _ {R : Type 0} (topic : String) where
  still_closed :
      (k : String) (t : Server R)
      → lookup k t.send_pubsub ≢ some closed_chan
      → (c : Chan) → IsClosed topic t
      → lookup topic (insert k c t.send_pubsub) ≡ some closed_chan
  still_closed k t n c h = ground (
    arith,
    lookup-insert k topic c t.send_pubsub,
    eq_iff k topic,
    h.entry,
    n,
    ap (λ x. lookup x t.send_pubsub),
  )

  IsClosed-Unseen : Unseen {R = R} (IsClosed topic)
  IsClosed-Unseen = record {
    aside = record { any_store = λ r t h. record { entry = h.entry } };
    emits = λ m. Keeps-modify _ λ t h. record { entry = h.entry };
    close = λ k t e h. record { entry = still_closed k t (λ q. cc) closed_chan h };
    open_new = λ k t e h. record { entry = still_closed k t (λ q. cc) open_chan h };
    role = λ k type t h. record { entry = h.entry };
  }

module _ {R : Type 0} (raft : Raft R) where
  -- Whatever a run of the main loop receives, if it comes back the server has the id and the trusted
  -- peers that it was started with.
  pub run_loop-Fixed :
      (events : List (Env × Event)) (t : Server R)
      → Returned (Fixed (get_id t) t.trusted_peers) (run_loop raft events t)
  run_loop-Fixed events t =
      (run_loop-Unseen raft (Fixed-Unseen (get_id t) t.trusted_peers) events).at t
        (record { self = refl; peers = refl })

  -- An assignment closes the channel of the current topic for good: the assignment, and any run of
  -- the main loop after it, that come back leave that channel in the map, closed. The new topic may
  -- be the same one.
  pub assignment-IsClosed :
      (env : Env) (topic from : String) (resp : AssignmentResponse) (events : List (Env × Event))
      (t : Server R)
      → lookup (get_topic t) t.send_pubsub ≡ some open_chan
      → Returned
          (IsClosed (get_topic t))
          ((on_assignment_response raft env topic from resp >>= λ _. run_loop raft events) t)
  unfolding on_assignment_response close_topic
  assignment-IsClosed env topic from resp events t e =
      rw (e, close_topic)
        ((Keeps-bind
            (take_assignment-Stable raft (Unseen-Stable raft (IsClosed-Unseen (get_topic t))) env
              from resp)
            λ _. run_loop-Unseen raft (IsClosed-Unseen (get_topic t)) events).at
          (record t { send_pubsub = insert (get_topic t) closed_chan t.send_pubsub })
          (record { entry = lookup-insert_self (get_topic t) closed_chan t.send_pubsub }))
