-- ===== src/Server/TestEnv/Assigned.antt =====
-- The listener that the tests set up (`testEnv` and `withAssignment` of mocks.go).
use peerprint.Base.{Bool, true, false, List, some, [], ◌∷◌, ◌≡◌, refl, inl, inr, Bool-cases}
use peerprint.Base.Post.{Succeeds}
use peerprint.Base.Dict.{lookup, insert}
use peerprint.Proto.Message.{Message}
use peerprint.Proto.Peers.{listener, electable, unknown_peer_type, unknown_peer_state}
use peerprint.Raft.Mock.{TestRaft}
use peerprint.Server.{
  Env, Server, Sent, open_chan, closed_chan, role_assigned, to_topic, get_topic, get_type,
  assignment_topic, default_topic,
}
use peerprint.Server.Access.{in_trusted_peers, is_trusted, can_handle_message}
use peerprint.Server.Setup.{new, am_trusted, trust_all}
use peerprint.Server.Roles.{on_assignment_response}
use peerprint.Server.Dispatch.{handle, dispatch}
use peerprint.Server.Start.{on_topic, offer}
use peerprint.Server.TestEnv.{
  test_id, fresh_raft, test_env, with_assignment, test_topic, trusted_peer,
}

-- assigned to the tests' topic as a listener, with its channel open and that of assignments closed
pub record IsAssigned (t : Server TestRaft) : Type 0 where
  pub topic : get_topic t ≡ test_topic
  pub type : get_type t ≡ listener
  pub opened : lookup test_topic t.send_pubsub ≡ some open_chan
  pub closed : lookup assignment_topic t.send_pubsub ≡ some closed_chan

-- A trusted server of the tests serves the default topic as electable.
test_env-trusted :
    (env : Env) (as_leader : Bool)
    → Succeeds
        (λ t _.
          (am_trusted t ≡ true)
          × (get_topic t ≡ default_topic)
          × (get_type t ≡ electable)
          × (lookup default_topic t.send_pubsub ≡ some open_chan))
        (test_env env true as_leader)
unfolding test_env new in_trusted_peers on_assignment_response lookup insert trust_all
test_env-trusted env as_leader = (_, _, refl, (refl, refl, refl, refl))

-- an untrusted server of the tests that has asked for an assignment
abbrev asking : Bool → Server TestRaft
asking as_leader = record {
  trusted_peers = (trusted_peer, tt) ∷ [];
  send_pubsub = (assignment_topic, open_chan) ∷ [];
  raft = fresh_raft as_leader;
  status = record {
    id = test_id;
    topic = assignment_topic;
    leader = "";
    type = unknown_peer_type;
    state = unknown_peer_state;
  };
  sent = to_topic assignment_topic Message.assignment_request ∷ [];
}

abbrev taken : Bool → List Sent → Server TestRaft
taken as_leader told = record (asking as_leader) {
  send_pubsub =
      insert test_topic open_chan
        (insert assignment_topic closed_chan ((assignment_topic, open_chan) ∷ []));
  raft = record (fresh_raft as_leader) { lset = test_id };
  status = record (asking as_leader).status { topic = test_topic; type = listener };
  sent = told;
}

asking-IsAssigned :
    (env : Env) (as_leader : Bool)
    → Succeeds (λ v _. IsAssigned v) (with_assignment env (asking as_leader))
unfolding with_assignment handle can_handle_message is_trusted dispatch on_assignment_response
    in_trusted_peers lookup insert
asking-IsAssigned env as_leader = elim (Bool-cases env.role_awaited) [
  | inl y ↦ (
    taken as_leader (role_assigned listener ∷ (asking as_leader).sent),
    tt,
    rw y refl,
    record { topic = refl; type = refl; opened = refl; closed = refl },
  )
  | inr n ↦ (
    taken as_leader (asking as_leader).sent,
    tt,
    rw n refl,
    record { topic = refl; type = refl; opened = refl; closed = refl },
  )
]

-- One that is not trusted asks for an assignment, and takes the one of the tests.
test_env-IsAssigned :
    (env : Env) (as_leader : Bool)
    → Succeeds
        (λ t _.
          (am_trusted t ≡ false)
          × Succeeds
              (λ u _. Succeeds (λ v _. IsAssigned v) (with_assignment env u))
              (offer true assignment_topic Message.assignment_request
                (on_topic assignment_topic t)))
        (test_env env false as_leader)
unfolding test_env new in_trusted_peers on_assignment_response lookup insert trust_all offer
    with_assignment handle can_handle_message is_trusted dispatch
test_env-IsAssigned env as_leader =
    (_, tt, refl, (refl, (asking as_leader, tt, refl, asking-IsAssigned env as_leader)))
