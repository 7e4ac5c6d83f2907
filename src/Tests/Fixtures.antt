-- ===== src/Tests/Fixtures.antt =====
-- A server over the mock store of server/mocks.go, and what it reads from outside.
use peerprint.Base.{ℕ, String, true, false, Option, none, some, [], ◌∷◌}
use peerprint.Proto.Jobs.{Lock, Job}
use peerprint.Proto.Peers.{electable, unknown_peer_state}
use peerprint.Raft.Mock.{TestRaft}
use peerprint.Server.{Env, Server, open_chan}

abbrev pub calm : ℕ → Env
calm now = record {
  now = now;
  draw = 0;
  float_lt = λ a b. false;
  open_error = λ topic. none;
  role_awaited = false;
  push_room = true;
}

abbrev pub job : String → Option Lock → Job
job id l = record { id = id; owner = ""; lock = l; protocol = ""; payload = [] }

abbrev pub ann_lock : Lock
ann_lock = record { peer = "ann"; created = 100000 }

abbrev pub locked_job : Job
locked_job = job "foo" (some ann_lock)

abbrev pub store : TestRaft
store = record {
  id = "raftid";
  s = some (record { jobs = some (("foo", some locked_job) ∷ []) });
  l = "self";
  lset = "";
  pending = 0;
  peers = [];
}

-- the leader of topic "0"
abbrev pub leader : Server TestRaft
leader = record {
  trusted_peers = ("self", tt) ∷ ("tim", tt) ∷ [];
  send_pubsub = ("ASSIGN", open_chan) ∷ ("0", open_chan) ∷ [];
  raft = store;
  status = record {
    id = "self";
    topic = "0";
    leader = "";
    type = electable;
    state = unknown_peer_state;
  };
  sent = [];
}
