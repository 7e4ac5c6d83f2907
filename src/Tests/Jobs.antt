-- ===== src/Tests/Jobs.antt =====
-- Job requests to the leader.
use peerprint.Base.{
  ℕ, String, Bool, true, false, Option, none, some, List, [], ◌∷◌, ◌≡◌, ◌≢◌, refl, arith, eq_iff,
  if◌then◌else◌, str_eq,
}
use peerprint.Base.Go.{ok, err, access_denied, ◌>>=◌}
use peerprint.Base.Post.{Returned, Succeeds}
use peerprint.Base.Dict.{lookup, insert}
use peerprint.Proto.Message.{Message}
use peerprint.Raft.Mock.{test_raft}
use peerprint.Raft.Contract.{test_raft-Contract}
use peerprint.Server.{Env}
use peerprint.Server.Jobs.{check_mutable, on_acquire_job_request}
use peerprint.Server.Jobs.Mutable.{InRange, check_mutable-may_write}
use peerprint.Server.Jobs.Rulings.{acquire, Obeys, ruling, serve, serve-Obeys, set}
use peerprint.Server.Dispatch.{handle}
use peerprint.Server.Jobs.Tables.{Call, answer, table_of, answer_comm}
use peerprint.Tests.Fixtures.{job, calm, ann_lock, locked_job, store, leader}
use peerprint.Server.Loop.{Event, pubsub, run_loop}
use peerprint.Server.Safety.Held.{Held}
use peerprint.Server.Safety.Requests.{Foreign}
use peerprint.Server.Safety.Lease.{run_loop-Leased}

pub in_range : InRange 100500
in_range = record { past_timeout = omega arith; is_int64 = omega arith }

-- another peer's request on the locked job is denied
acquire_denied :
    handle test_raft (calm 100500) "0" "bob" (Message.acquire_job_request "foo") leader
    ≡ err leader (peerprint.Base.Go.on_acquire_job (access_denied "bob" "foo" "ann"))
unfolding handle lookup on_acquire_job_request
acquire_denied = refl

-- after the timeout it is granted
acquire_granted :
    handle test_raft (calm 107201) "0" "bob" (Message.acquire_job_request "foo") leader
    ≢ err leader (access_denied "bob" "foo" "ann")
unfolding handle lookup on_acquire_job_request insert
acquire_granted e = cc

check_mutable-may_write_example :
    check_mutable 100500 (some locked_job) "bob" leader
    ≡ err leader (access_denied "bob" "foo" "ann")
check_mutable-may_write_example = check_mutable-may_write 100500 locked_job "bob" leader in_range

bob_is_Foreign : Foreign ann_lock (calm 100500) "bob"
bob_is_Foreign = record {
  somebody = λ e. ground (arith, eq_iff "ann" "");
  other = λ e. ground (arith, eq_iff "bob" "ann");
  in_range = in_range;
  in_time = omega arith;
}

abbrev raid : List (Env × Event)
raid =
    (
      calm 100500,
      pubsub (record { topic = "0"; peer = "bob"; msg = Message.delete_job_request "foo" }),
    )
    ∷ (
      calm 100500,
      pubsub (record { topic = "0"; peer = "bob"; msg = Message.acquire_job_request "foo" }),
    )
    ∷ []

run_loop-Leased_example :
    Returned
      (Held test_raft test_raft-Contract "foo" (some (some locked_job)) "self")
      (run_loop test_raft raid leader)
unfolding lookup
run_loop-Leased_example =
    run_loop-Leased test_raft test_raft-Contract "foo" "self" locked_job ann_lock refl raid leader
      ((tt, bob_is_Foreign), ((tt, bob_is_Foreign), tt)) (record { entry = refl; self = refl })

serve-Obeys_example :
    Obeys test_raft "foo"
      (("foo", some locked_job) ∷ [])
      store
      leader
      (ruling 100500 "ann" (acquire "foo") (some locked_job))
      (serve test_raft (calm 100500) "0" "ann" (acquire "foo") leader)
unfolding lookup
serve-Obeys_example =
    serve-Obeys test_raft (calm 100500) "0" "ann" leader store (("foo", some locked_job) ∷ [])
      in_range refl (acquire "foo") (some locked_job) refl

foo_not_bar : ◌≢◌ {A = String} "foo" "bar"
foo_not_bar e = ground (arith, eq_iff "foo" "bar")

-- Ann asks for her job again, Bob brings another.
abbrev anns : Call
anns = record { env = calm 100500; topic = "0"; from = "ann"; req = acquire "foo" }

abbrev bobs : Call
bobs = record { env = calm 100600; topic = "0"; from = "bob"; req = set (job "bar" none) }

answer_comm_example :
    Succeeds
      (λ u _. Succeeds (λ v _. table_of u ≡ table_of v) ((answer bobs >>= λ _. answer anns) leader))
      ((answer anns >>= λ _. answer bobs) leader)
unfolding lookup
answer_comm_example =
    answer_comm anns bobs (some locked_job) none (("foo", some locked_job) ∷ []) leader in_range
      (record { past_timeout = omega arith; is_int64 = omega arith }) foo_not_bar refl refl refl
      (omega arith)
