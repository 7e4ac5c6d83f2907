-- ===== src/Server/TestEnv.antt =====
-- The environment of mocks.go: a server over a test raft and a test poller, with an opener that never
-- fails.
pub mod Assigned
use peerprint.Base.{
  ◌%◌, ◌^◌, String, Bool, true, false, Option, none, some, List, [], ◌∷◌, ◌++◌, if◌then◌else◌,
}
use peerprint.Base.Go.{
  Go, Outcome, Attempt, failed, succeeded, panicked, stop, pure, gets, attempt, ◌>>=◌, ◌>>◌,
}
use peerprint.Proto.Jobs.{Lock}
use peerprint.Proto.Peers.{PeerStatus, listener}
use peerprint.Proto.Message.{Message}
use peerprint.Raft.Mock.{TestRaft, test_raft}
use peerprint.Server.{Env, Server, assignment_topic, get_id}
use peerprint.Server.Setup.{new}
use peerprint.Server.Dispatch.{handle}

abbrev pub test_id : String
test_id = "self"

abbrev pub test_raft_id : String
test_raft_id = "raftid"

abbrev pub test_topic : String
test_topic = "testtopic"

abbrev pub trusted_peer : String
trusted_peer = "trustedpeer"

-- `Open` makes a channel for any topic
abbrev pub opening : Env → Env
opening env = record env { open_error = λ topic. none }

abbrev pub test_peers : Bool → List String
test_peers trusted = trusted_peer ∷ (if trusted then test_id ∷ [] else [])

abbrev pub fresh_raft : Bool → TestRaft
fresh_raft as_leader = record {
  id = test_raft_id;
  s = some (record { jobs = some [] });
  l = if as_leader then test_id else "";
  lset = "";
  pending = 0;
  peers = [];
}

-- up to the start of the goroutine of `Loop`
unfoldable pub test_env : Env → Bool → Bool → Outcome (Server TestRaft) (Unit {0})
test_env env trusted as_leader =
    new test_raft (opening env)
      (record { id = test_id; trusted_peers = test_peers trusted; raft = fresh_raft as_leader })

abbrev pub or_fatal : {A : Type 0} → Attempt A → Go (Server TestRaft) (Unit {0})
or_fatal (failed e) = stop panicked
or_fatal (succeeded a) = pure tt

-- what `withAssignment` does once the assignment request is popped off
unfoldable pub with_assignment : Env → Go (Server TestRaft) (Unit {0})
with_assignment env = do
  me ← gets (λ t. get_id t)
  r ← attempt (
      handle test_raft (opening env) assignment_topic trusted_peer (
        Message.assignment_response
          (record { topic = test_topic; id = me; leader_id = me; type = listener })))
  or_fatal r

abbrev pub test_lock : Env → String → Lock
test_lock env peer = record { peer = peer; created = env.now % 2 ^ 64 }

-- `testPoller` keeps the responses of a poll; it is never paused.
pub record TestPoller : Type 0 where
  pub responses : List (Option PeerStatus)

abbrev pub update : Option PeerStatus → TestPoller → TestPoller
update status p = record p { responses = p.responses ++ status ∷ [] }
