-- ===== src/TopicReceiver/Delivery.antt =====
-- A queue of messages from the `sendLoop` of one peer to the `recvLoop` of another
-- (topic_receiver.go), and what becomes of them there.
use peerprint.Base.{List, [], ◌++◌, map, length, ◌≡◌, ◌≢◌, subst, none, false}
use peerprint.Base.Post.{Succeeds}
use peerprint.Proto.Message.{Message}
use peerprint.Proto.Codec.{Codec, Faithful, All, Pairwise, Writable, Same}
use peerprint.TopicReceiver.{TopicMsg, TopicChannel, message, PubSub, recv_loop}
use peerprint.TopicReceiver.Transport.{send_steps, from_peer, send_steps-recv_loop}

module _ {Any Bytes : Type 0} (codec : Codec Any Bytes) (net : PubSub Bytes) where
  -- `s` works off the queue `q`, `r` receives what it publishes, and `Q` holds of all that `r` has
  -- received.
  abbrev pub Delivers :
      TopicChannel Bytes → TopicChannel Bytes → List Message → (List TopicMsg → Type 0) → Type 0
  Delivers s r q Q =
      Succeeds
        (λ s' _.
          Succeeds (λ r' _. Q r'.received)
            (recv_loop codec net (map (message s.id) s'.published) r))
        (send_steps codec net (length q) (record s { send_queue = q }))

  -- what a new channel receives are the messages of the queue, from the peer that sent them
  pub from_peer-Delivers :
      Faithful codec
      → ((before : List Bytes) (b : Bytes) → net.publish_fails before b ≡ none)
      → (s r : TopicChannel Bytes) (q : List Message) (Q : List TopicMsg → Type 0)
      → All (Writable codec) q
      → s.id ≢ r.id
      → s.published ≡ []
      → r.received ≡ []
      → ((q' : List Message) → Pairwise Same q q' → Q (map (from_peer r.topic s.id) q'))
      → Delivers s r q Q
  from_peer-Delivers faithful accepts s r q Q writable ids np nr h =
      let (s', x, e, (q', same, d)) =
        send_steps-recv_loop codec net faithful accepts (record s { send_queue = q }) r writable ids
          np in
      let all : map (from_peer r.topic s.id) q' ≡ r.received ++ map (from_peer r.topic s.id) q' =
        rw nr in
      (
        s',
        x,
        e,
        (
          record r { received = r.received ++ map (from_peer r.topic s.id) q' },
          false,
          d,
          subst Q all (h q' same),
        ),
      )
