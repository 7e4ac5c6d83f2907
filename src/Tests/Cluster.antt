-- ===== src/Tests/Cluster.antt =====
-- The first two servers of a queue, each trusting the other.
use peerprint.Base.{String, false, none, some, [], ◌∷◌, ◌≡◌, refl}
use peerprint.Base.Go.{pure}
use peerprint.Base.Post.{Succeeds}
use peerprint.Base.Dict.{lookup}
use peerprint.Proto.Message.{Message}
use peerprint.Raft.External.{External}
use peerprint.Raft.Impl.{RaftImpl, raft_impl, new}
use peerprint.Raft.Impl.Joining.{Works}
use peerprint.Server.{Server, to_topic, open_chan}
use peerprint.Server.Access.{in_trusted_peers, is_self_electable}
use peerprint.Server.Loop.{pubsub, loop_step}
use peerprint.Main.Cluster.{info, HasJoined, servers-HasJoined}
use peerprint.Tests.Fixtures.{calm, leader}
use peerprint.Tests.Raft.{World, libraries, chosen}

abbrev steady : External World
steady = record libraries { new_snapshot_store = pure tt }

abbrev ann : Server (RaftImpl World)
ann = record {
  trusted_peers = ("ann", tt) ∷ ("bob", tt) ∷ [];
  send_pubsub = ("0", open_chan) ∷ [];
  raft = new "ann" ("/ip4/10.0.0.1" ∷ []) chosen;
  status = record leader.status { id = "ann" };
  sent = [];
}

abbrev bob : Server (RaftImpl World)
bob = record ann {
  raft = new "bob" ("/ip4/10.0.0.2" ∷ []) chosen;
  status = record leader.status { id = "bob" };
}

Works-at :
    (id addr : String)
    → steady.decode_id id ≡ none
    → Works steady (some (record { id = id; addrs = addr ∷ [] }))
Works-at id addr d = record {
  decodes = d;
  parses = (refl, tt);
  host_connect = λ w. (w, tt, refl, tt);
  is_leader = λ w. (w, w.leads, refl, tt);
  add_voter = λ s w. (w, tt, refl, tt);
  new_transport = λ w. (w, tt, refl, tt);
  new_snapshot_store = λ w. (w, tt, refl, tt);
  has_existing_state = λ w. (w, false, refl, tt);
  bootstrap_cluster = λ l w. (w, tt, refl, tt);
  new_raft = λ w. (w, tt, refl, tt);
}

servers-HasJoined_example :
    Succeeds
      (λ b' _.
        HasJoined (info ann) b'
        × (b'.sent ≡ to_topic "0" (Message.raft_addrs_response (info bob)) ∷ [])
        × Succeeds
            (λ a' _. HasJoined (info bob) a')
            (loop_step
              (raft_impl steady 5)
              (calm 1)
              (pubsub (record {
                topic = "0";
                peer = "bob";
                msg = Message.raft_addrs_response (info bob);
              }))
              ann))
      (loop_step
        (raft_impl steady 5)
        (calm 2)
        (pubsub (record { topic = "0"; peer = "ann"; msg = Message.raft_addrs_request (info ann) }))
        bob)
unfolding new in_trusted_peers is_self_electable lookup
servers-HasJoined_example =
    servers-HasJoined steady steady 5 5 (calm 1) (calm 2) ann bob refl refl refl refl
      (record { same = refl; server = refl }) (record { same = refl; server = refl })
      (Works-at "bob" "/ip4/10.0.0.2" refl) (Works-at "ann" "/ip4/10.0.0.1" refl)
