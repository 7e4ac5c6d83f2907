-- ===== src/Tests/Replication.antt =====
-- A job that the wrapper of the leader sets, and a listener.
use peerprint.Base.{map, none, some, [], ◌∷◌, refl, arith, eq_iff}
use peerprint.Base.Post.{Succeeds}
use peerprint.Base.Dict.{lookup}
use peerprint.Proto.Message.{Message}
use peerprint.Proto.Codec.{NoNilJob}
use peerprint.Proto.Jobs.{Job, Jobs}
use peerprint.Proto.Peers.{listener as listener_type}
use peerprint.TopicReceiver.{TopicChannel, new_topic_channel}
use peerprint.Raft.Mock.{TestRaft, test_raft}
use peerprint.Server.{Server}
use peerprint.Server.Loop.{command, pubsub, loop_step, run_loop}
use peerprint.Server.Jobs.Rulings.{set, entry}
use peerprint.Main.Granted.{message_of, outgoing}
use peerprint.Main.Forwarding.{Ruled, request-ComesRound}
use peerprint.TopicReceiver.Delivery.{Delivers}
use peerprint.Main.Replication.{Answered, Carried, Arrives, request-Arrives}
use peerprint.Tests.Fixtures.{calm, job, locked_job, store, leader}
use peerprint.Tests.Jobs.{in_range}
use peerprint.Tests.Transport.{plain, network, plain-Faithful, plain-Writes}

abbrev one_job : Jobs
one_job = ("foo", some locked_job) ∷ []

one_job-NoNilJob : NoNilJob (record { jobs = some one_job })
unfolding lookup
one_job-NoNilJob k e = ground (arith, e)

abbrev bar : Job
bar = job "bar" none

-- it holds nothing yet
abbrev tim : Server TestRaft
tim = record leader {
  raft = record store { id = "timraft"; s = some (record { jobs = some [] }) };
  status = record leader.status { id = "tim"; type = listener_type };
}

abbrev from_self : TopicChannel Message
from_self = new_topic_channel "self" "0"

abbrev to_tim : TopicChannel Message
to_tim = new_topic_channel "tim" "0"

request-Arrives_example :
    Succeeds
      (λ u _.
        Answered
          (set bar)
          one_job
          leader
          (Arrives plain network (calm 100501) from_self to_tim tim)
          (entry (some bar))
          u)
      (loop_step test_raft (calm 100500) (command (message_of (set bar))) leader)
unfolding new_topic_channel lookup
request-Arrives_example =
    request-Arrives plain network plain-Faithful (λ _ _. refl) (calm 100500) (calm 100501) (set bar)
      one_job none leader tim from_self to_tim in_range refl one_job-NoNilJob
      (λ new m' e put. plain-Writes _) refl refl (omega arith) refl refl
      (λ p. ground (arith, eq_iff "self" "tim")) refl refl refl (omega arith)

-- the wrapper of the listener sets the job
request-ComesRound_example :
    Succeeds
      (λ f' _. Delivers plain network to_tim from_self (outgoing "0" f'.sent) λ received.
        Succeeds
          (λ u _.
            Ruled
              (set bar)
              one_job
              leader
              (λ v. Carried plain network (calm 100502) from_self to_tim f' v (outgoing "0" v.sent))
              (entry (some bar))
              u)
          (run_loop test_raft (map (λ msg. (calm 100500, pubsub msg)) received) leader))
      (loop_step test_raft (calm 100499) (command (message_of (set bar))) tim)
unfolding new_topic_channel lookup
request-ComesRound_example =
    request-ComesRound plain network plain-Faithful (λ _ _. refl) (calm 100499) (calm 100500)
      (calm 100502) (set bar) one_job none tim leader to_tim from_self from_self to_tim in_range
      refl one_job-NoNilJob (plain-Writes _) (λ new m' e put. plain-Writes _) refl refl
      (omega arith) refl refl (λ p. ground (arith, eq_iff "tim" "self")) refl refl
      (λ p. ground (arith, eq_iff "tim" "self")) refl (omega arith) refl refl
      (λ p. ground (arith, eq_iff "self" "tim")) refl refl
