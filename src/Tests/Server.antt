-- ===== src/Tests/Server.antt =====
-- Commands, guards and assignments.
use peerprint.Base.{none, some, List, [], ◌∷◌, ◌≡◌, refl, arith, eq_iff}
use peerprint.Base.Go.{ok, halt, nil_dereference, ◌>>=◌}
use peerprint.Base.Post.{Returned, Ensures, Succeeds}
use peerprint.Base.Dict.{lookup, insert}
use peerprint.Proto.Peers.{AssignmentResponse, electable, listener}
use peerprint.Proto.Jobs.{State}
use peerprint.Proto.Message.{Message}
use peerprint.Raft.Mock.{TestRaft, test_raft}
use peerprint.Server.{Env, Server, open_chan, closed_chan}
use peerprint.Server.Jobs.{on_set_job_request}
use peerprint.Server.Jobs.NilJob.{set_nil-halts}
use peerprint.Server.Access.{in_trusted_peers}
use peerprint.Server.Roles.{on_assignment_response}
use peerprint.Server.Dispatch.{handle}
use peerprint.Server.Loop.{Event, pubsub, run_loop, on_command}
use peerprint.Server.Setup.{new, trust_all}
use peerprint.Server.Guards.{handle-not_leader, handle-stranger}
use peerprint.Server.Answers.{answers, on_command-Counted}
use peerprint.Server.Channels.{IsClosed, assignment-IsClosed}
use peerprint.Server.Channels.Assigned.{Joined, addrs_reply, assign_new}
use peerprint.Tests.Fixtures.{job, calm, locked_job, store, leader}

abbrev follower : Server TestRaft
follower = record leader { raft = record store { l = "tim" } }

-- a trusted peer starts on topic "0", electable, with both channels open
starts :
    new test_raft (calm 100000) (record { id = "self"; trusted_peers = "self" ∷ []; raft = store })
    ≡ ok
        (record leader {
          trusted_peers = ("self", tt) ∷ [];
          send_pubsub = ("0", open_chan) ∷ ("ASSIGN", open_chan) ∷ [];
        })
        tt
unfolding new in_trusted_peers on_assignment_response lookup insert trust_all
starts = refl

on_command-Counted_example :
    Ensures
      (λ u _. answers u.sent ≡ 1)
      (λ u e. ⊥)
      (on_command test_raft (calm 100500) (Message.delete_job_request "foo") leader)
on_command-Counted_example =
    on_command-Counted test_raft (λ r. record { at = tt }) (calm 100500)
      (Message.delete_job_request "foo") leader

handle-not_leader_example :
    handle test_raft (calm 100500) "0" "tim" (Message.delete_job_request "foo") follower
    ≡ ok follower none
handle-not_leader_example =
    handle-not_leader test_raft (calm 100500) "0" "tim" follower "tim"
      (Message.delete_job_request "foo") refl (λ e. ground (arith, eq_iff "tim" "self")) tt

handle-stranger_example :
    handle test_raft (calm 100500) "0" "eve" (Message.leader "eve") follower ≡ ok follower none
unfolding in_trusted_peers lookup
handle-stranger_example =
    handle-stranger test_raft (calm 100500) "0" "eve" follower "tim" (Message.leader "eve") refl
      (λ e. ground (arith, eq_iff "tim" "self")) (λ e. ground (arith, eq_iff "tim" "eve")) refl

abbrev chatter : List (Env × Event)
chatter =
    (calm 100500, pubsub (record { topic = "0"; peer = "tim"; msg = Message.assignment_request }))
    ∷ []

abbrev to_shard : AssignmentResponse
to_shard = record { topic = "1"; id = "self"; leader_id = "tim"; type = electable }

abbrev to_same : AssignmentResponse
to_same = record to_shard { topic = "0"; type = listener }

abbrev told : TestRaft
told = record store { lset = "tim" }

assign_new_example :
    Succeeds
      (λ u rep.
        Joined to_shard u
        × (rep
            ≡ addrs_reply test_raft
                (calm 100500)
                "tim"
                to_shard
                told
                (some (record { id = "raftid"; addrs = [] }))
                refl
                refl))
      (on_assignment_response test_raft (calm 100500) "ASSIGN" "tim" to_shard leader)
unfolding lookup
assign_new_example =
    assign_new test_raft (calm 100500) "tim" to_shard told
      (some (record { id = "raftid"; addrs = [] })) refl refl "ASSIGN" leader refl (λ e. cc) refl

assignment-IsClosed_example : Returned (IsClosed "0") (
    (on_assignment_response test_raft (calm 100500) "ASSIGN" "tim" to_shard >>= λ _.
    run_loop test_raft chatter)
      leader)
unfolding lookup
assignment-IsClosed_example =
    assignment-IsClosed test_raft (calm 100500) "ASSIGN" "tim" to_shard chatter leader refl

abbrev muted : Server TestRaft
muted = record leader {
  raft = told;
  send_pubsub = ("0", closed_chan) ∷ ("ASSIGN", open_chan) ∷ [];
  status = record leader.status { type = listener };
}

abbrev nil_jobs : State
nil_jobs = record { jobs = some (insert "" none (("foo", some locked_job) ∷ [])) }

abbrev nil_stored : TestRaft
nil_stored = record store { s = some nil_jobs; pending = 1 }

set_nil-halts_example :
    (on_set_job_request test_raft (calm 100500) "0" "bob" none >>= λ _.
    on_set_job_request test_raft (calm 100600) "0" "tim" (some (job "" none)))
      leader
    ≡ halt nil_dereference
unfolding lookup
set_nil-halts_example =
    set_nil-halts test_raft (calm 100500) (calm 100600) "0" "bob" "tim" (some (job "" none)) leader
      store nil_stored nil_stored (("foo", some locked_job) ∷ []) nil_jobs (some nil_jobs) refl refl
      refl refl refl refl
