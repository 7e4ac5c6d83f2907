-- ===== src/Tests/Unset.antt =====
-- A server over a raft object that `setup` has not set, or half set; and chains of replies.
use peerprint.Base.{List, [], ◌∷◌, ◌≡◌, ◌≤◌, refl}
use peerprint.Base.Dict.{lookup, insert}
use peerprint.Base.Go.{halt, nil_dereference}
use peerprint.Base.Post.{Returned, Ensures}
use peerprint.Proto.Message.{Message}
use peerprint.Proto.Peers.{AssignmentResponse, electable}
use peerprint.Raft.Impl.{RaftImpl, raft_impl, new}
use peerprint.Raft.Mock.{TestRaft, test_raft}
use peerprint.Server.{Env, Server, open_chan}
use peerprint.Server.Access.{in_trusted_peers, is_trusted, can_handle_message}
use peerprint.Server.Dispatch.{dispatch, handle}
use peerprint.Server.Loop.{Event, command, pubsub, loop_step, run_loop}
use peerprint.Server.Roles.{on_assignment_response, on_raft_addrs_request, raft_addrs_response}
use peerprint.Server.Replies.{MayAnswer, handle-Answers}
use peerprint.Server.Replies.Chains.{Chain, asked, replied, Chain-bound}
use peerprint.Main.{serve}
use peerprint.Main.HalfSet.{run_loop-panics}
use peerprint.Main.Fresh.{serve-panics}
use peerprint.Tests.Fixtures.{calm, leader}
use peerprint.Tests.Raft.{World, libraries, half_set, bob}
use peerprint.Tests.Main.{platform, around, flags, no_keys}

abbrev half_set_server : Server (RaftImpl World)
half_set_server = record {
  trusted_peers = ("self", tt) ∷ ("bob", tt) ∷ [];
  send_pubsub = ("0", open_chan) ∷ [];
  raft = half_set;
  status = leader.status;
  sent = [];
}

abbrev addresses : List (Env × Event)
addresses =
    (calm 1, pubsub (record { topic = "0"; peer = "bob"; msg = Message.raft_addrs_request bob }))
    ∷ []

-- the addresses of a trusted peer come back, and do not help
run_loop-panics_example :
    Returned
      (λ u.
        loop_step (raft_impl libraries 5) (calm 2) (command (Message.delete_job_request "foo")) u
        ≡ halt nil_dereference)
      (run_loop (raft_impl libraries 5) addresses half_set_server)
unfolding new
run_loop-panics_example =
    run_loop-panics libraries 5 addresses (calm 2) (command (Message.delete_job_request "foo"))
      half_set_server refl refl tt

serve-panics_example :
    Ensures
      (λ _ t.
        loop_step (raft_impl libraries 5) (calm 2) (command (Message.delete_job_request "foo")) t
        ≡ halt nil_dereference)
      (λ _ _. ⊥)
      (serve platform libraries around flags no_keys)
serve-panics_example =
    serve-panics platform libraries around flags no_keys 5 (calm 2)
      (command (Message.delete_job_request "foo")) tt

handle-Answers_example :
    Ensures
      (λ u r. MayAnswer "tim" Message.assignment_request r)
      (λ u e. Unit {0})
      (handle test_raft (calm 1) "0" "tim" Message.assignment_request leader)
handle-Answers_example =
    handle-Answers test_raft (calm 1) "0" "tim" Message.assignment_request leader

abbrev to_shard : AssignmentResponse
to_shard = record { topic = "1"; id = "self"; leader_id = "tim"; type = electable }

abbrev on_shard : Server TestRaft
on_shard = record leader { status = record leader.status { topic = "1" } }

-- an electable assignment, its address, and the address of the peer that receives it
three : Chain test_raft (Message.assignment_response to_shard) 2
unfolding handle dispatch can_handle_message is_trusted in_trusted_peers lookup insert
    on_assignment_response on_raft_addrs_request raft_addrs_response
three =
    replied (calm 1) "ASSIGN" "tim" leader _ refl (replied (calm 1) "1" "tim" on_shard _ refl asked)

Chain-bound_example : 2 ≤ 2
Chain-bound_example = Chain-bound test_raft three
