-- ===== src/Tests/Transport.antt =====
-- The loops of topics and sockets over a codec that does not write an empty map.
use peerprint.Base.{
  arith, eq_iff, some, subst, ◌∙◌, true, false, none, [], ◌∷◌, ◌≡◌, refl, map, ◌≤◌, ◌<◌, ◌⊎◌, List,
  ◌++◌,
}
use peerprint.Base.Go.{ok, halt, succeeded, failed, external, any_cast, closed_channel, blocked}
use peerprint.Base.Post.{Succeeds, succeeded-injective}
use peerprint.Proto.Message.{Message}
use peerprint.Proto.Codec.{Codec, Faithful, Plain, Same, Writes, Writable, All, Pairwise}
use peerprint.Proto.Jobs.{State}
use peerprint.Base.Dict.{lookup}
use peerprint.Tests.Marshal.{no_empty, no_empty-same}
use peerprint.TopicReceiver.{TopicChannel, PubSub, message, new_topic_channel, send_loop, recv_loop}
use peerprint.TopicReceiver.Transport.{
  send_loop-panics, send_steps-recv_loop, send_steps, from_peer,
}
use peerprint.Cmd.{read, unread, new, pipe, receiver, deserialize}
use peerprint.Cmd.Deaf.{errors, messages, reading, receiver-unread}
use peerprint.Cmd.Sockets.{pipe-serialized, pipe-receiver}

-- what protobuf makes of a message: an empty map is not written
abbrev pub restored : Message → Message
restored (Message.state none) = Message.state (some (no_empty none))
restored (Message.state (some s)) = Message.state (some (no_empty s.jobs))
restored m = m

restored-Same : (m : Message) → Plain m → Same m (restored m)
restored-Same (Message.state none) p = absurd p
restored-Same (Message.state (some s)) p = (no_empty s.jobs, refl, no_empty-same s.jobs)
restored-Same (Message.error e) p = (e, refl)
restored-Same (Message.set_job_request j) p = refl
restored-Same (Message.delete_job_request i) p = refl
restored-Same (Message.acquire_job_request i) p = refl
restored-Same (Message.release_job_request i) p = refl
restored-Same (Message.leader l) p = refl
restored-Same (Message.peers_summary s) p = refl
restored-Same (Message.poll_peers_request r) p = refl
restored-Same (Message.poll_peers_response r) p = refl
restored-Same Message.assignment_request p = refl
restored-Same (Message.assignment_response r) p = refl
restored-Same (Message.raft_addrs_request a) p = refl
restored-Same (Message.raft_addrs_response a) p = refl
restored-Same Message.ok p = refl
restored-Same (Message.unknown n) p = refl

abbrev pub plain : Codec Message Message
plain = record {
  any_new = λ m. succeeded m;
  marshal = λ m. succeeded m;
  unmarshal = λ m. succeeded m;
  unmarshal_new = λ m. succeeded (restored m);
}

pub plain-Faithful : Faithful plain
plain-Faithful = record {
  reads = λ m b p w. (
    restored b,
    (b, refl, refl),
    subst (λ x. Same m (restored x)) (succeeded-injective (w.1 ∙ w.2)) (restored-Same m p),
  );
}

-- every message can be written
pub plain-Writes : (m : Message) → (b : Message) × Writes plain m b
plain-Writes m = (m, (m, refl, refl))

abbrev pub network : PubSub Message
network = record { publish_fails = λ before b. none; close_fails = none }

abbrev no_jobs : State
no_jobs = record { jobs = some [] }

abbrev letters : List Message
letters = Message.leader "ann" ∷ Message.state (some no_jobs) ∷ []

letters-Writable : All (Writable plain) letters
unfolding lookup
letters-Writable = (
  (tt, plain-Writes (Message.leader "ann")),
  (((λ k e. cc), plain-Writes (Message.state (some no_jobs))), tt),
)

abbrev ann : TopicChannel Message
ann = record (new_topic_channel "ann" "0") { send_queue = letters }

send_loop-panics_example :
    send_loop plain network 3 (record ann { send_closed = true }) ≡ halt closed_channel
unfolding new_topic_channel
send_loop-panics_example = send_loop-panics plain network (record ann { send_closed = true }) refl

send_steps-recv_loop_example :
    Succeeds
      (λ s' _.
        (q' : List Message) × Pairwise Same letters q'
        × (recv_loop plain network (map (message "ann") s'.published) (new_topic_channel "bob" "0")
            ≡ ok
                (record (new_topic_channel "bob" "0") { received = map (from_peer "0" "ann") q' })
                false))
      (send_steps plain network 2 ann)
unfolding new_topic_channel
send_steps-recv_loop_example =
    send_steps-recv_loop plain network plain-Faithful (λ _ _. refl) ann
      (new_topic_channel "bob" "0") letters-Writable (λ p. ground (arith, eq_iff "ann" "bob")) refl

-- a codec that cannot wrap anything
abbrev broken : Codec Message Message
broken = record plain { any_new = λ m. failed (external "any") }

pipe-serialized_example :
    pipe broken (Message.ok ∷ Message.leader "ann" ∷ []) (new read)
    ≡ ok
        (record (new read) {
          sent = [] ∷ [] ∷ [];
          errors = any_cast ∷ any_cast ∷ [];
          destroyed = true;
        })
        tt
unfolding new
pipe-serialized_example =
    pipe-serialized broken (Message.ok ∷ Message.leader "ann" ∷ []) (new read) refl

pipe-receiver_example :
    Succeeds
      (λ z' _.
        (got : List Message) × Pairwise Same letters got
        × (receiver plain z'.sent (new read) ≡ ok (record (new read) { received = got }) tt))
      (pipe plain letters (new read))
unfolding new
pipe-receiver_example = pipe-receiver plain plain-Faithful letters (new read) read letters-Writable

-- six empty messages, and one that is none
abbrev six_and_one : List (List Message)
six_and_one = [] ∷ [] ∷ [] ∷ [] ∷ [] ∷ [] ∷ (Message.ok ∷ []) ∷ []

six_errors : errors (map (reading plain) six_and_one) ≡ 6
unfolding deserialize
six_errors = refl

receiver-unread_example :
    (errors (map (reading plain) six_and_one) ≤ 5
      × Succeeds
          (λ u _.
            u.received
            ≡ (new {Bytes = Message} (unread 5)).received
              ++ messages (map (reading plain) six_and_one))
          (receiver plain six_and_one (new (unread 5))))
    ⊎ (5 < errors (map (reading plain) six_and_one)
        × (receiver plain six_and_one (new (unread 5)) ≡ halt blocked))
unfolding new
receiver-unread_example = receiver-unread plain six_and_one 5 (new (unread 5)) refl
