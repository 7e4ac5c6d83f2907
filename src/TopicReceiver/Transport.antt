-- ===== src/TopicReceiver/Transport.antt =====
-- What the loops of a topic channel do with a queue of messages.
use peerprint.Base.{
  ℕ, zero, suc, String, true, false, none, List, [], ◌∷◌, ◌++◌, map, length, ◌≡◌, ◌≢◌, refl, sym,
  subst, ap, str_eq, eq_iff, arith, inl, inr, Option-cases,
}
use peerprint.Base.Go.{
  Outcome, Error, ok, halt, closed_channel, Attempt, failed, succeeded, attempt_outcome, any_cast,
  marshal_error, publish_error, ◌>>=◌,
}
use mathlib.Core.List.{append-nil, append_assoc}
use peerprint.Base.Post.{Succeeds, Attempt-cases}
use peerprint.Proto.Message.{Message}
use peerprint.Proto.Codec.{Codec, Faithful, All, Pairwise, Writable, Written, Same}
use peerprint.TopicReceiver.{
  TopicMsg, TopicChannel, message, PubSub, send_loop, send_step, recv_loop, recv_step, send_message,
  publish, destroy,
}

abbrev pub from_peer : String → String → Message → TopicMsg
from_peer topic peer m = record { topic = topic; peer = peer; msg = m }

module _ {Any Bytes : Type 0} (codec : Codec Any Bytes) (pubsub : PubSub Bytes) where
  abbrev Sends : Message → TopicChannel Bytes → Type 0
  Sends m t =
      (r : Attempt (Unit {0})) × (bs : List Bytes) × (attempt_outcome
          (send_message codec pubsub m t)
        ≡ ok (record t { published = bs }) r)

  -- `send_message` comes back, and publishes or returns an error
  send_message-total : (m : Message) (t : TopicChannel Bytes) → Sends m t
  unfolding send_message publish
  send_message-total m t = elim (Attempt-cases (codec.any_new m)) [
    | inl (e, p) ↦ rw p (failed any_cast, t.published, refl)
    | inr (a, p) ↦ elim (Attempt-cases (codec.marshal a)) [
      | inl (e, q) ↦ rw (p, q) (failed (marshal_error e), t.published, refl)
      | inr (b, q) ↦ elim (Option-cases (pubsub.publish_fails t.published b)) [
        | inl f ↦ rw (p, q, f) (succeeded tt, t.published ++ b ∷ [], refl)
        | inr (e, f) ↦ rw (p, q, f) (failed (publish_error e), t.published, refl)
      ]
    ]
  ]

  abbrev Steps : List Message → TopicChannel Bytes → Type 0
  Steps rest t =
      (bs : List Bytes) × (es : List Error) × (send_step codec pubsub t
        ≡ ok (record t { send_queue = rest; published = bs; errors = es }) false)

  send_step-more :
      (m : Message) (rest : List Message) (t : TopicChannel Bytes)
      → Steps rest (record t { send_queue = m ∷ rest })
  unfolding send_step
  send_step-more m rest t =
      let (r, bs, p) = send_message-total m (record t { send_queue = rest }) in
      elim (Attempt-cases r) [
        | inl (e, q) ↦ (bs, t.errors ++ e ∷ [], rw (p, q))
        | inr (a, q) ↦ (bs, t.errors, rw (p, q))
      ]

  panics :
      (q : List Message) (t : TopicChannel Bytes)
      → send_loop codec pubsub (suc (length q)) (record t { send_queue = q; send_closed = true })
        ≡ halt closed_channel
  unfolding send_loop destroy
  panics [] t = refl
  panics (m ∷ rest) t =
      let (bs, es, p) = send_step-more m rest (record t { send_closed = true }) in
      rw (p, panics rest (record t { published = bs; errors = es }))

  -- Once the server has closed the channel of a topic, `sendLoop` panics, when it has worked off
  -- the queued messages: `destroy` closes the channel a second time.
  pub send_loop-panics :
      (t : TopicChannel Bytes)
      → t.send_closed ≡ true
      → send_loop codec pubsub (suc (length t.send_queue)) t ≡ halt closed_channel
  send_loop-panics t c =
      subst
        (λ b.
          send_loop codec pubsub (suc (length t.send_queue)) (record t { send_closed = b })
          ≡ halt closed_channel)
        (sym c) (panics t.send_queue t)

  -- the rounds that work off a queue
  abbrev pub send_steps : ℕ → TopicChannel Bytes → Outcome (TopicChannel Bytes) (Unit {0})
  send_steps zero = λ t. ok t tt
  send_steps (suc n) = send_step codec pubsub >>= λ _. send_steps n

  send_steps-publishes :
      ((before : List Bytes) (b : Bytes) → pubsub.publish_fails before b ≡ none)
      → (q : List Message) (t : TopicChannel Bytes) → All (Writable codec) q
      → (bs : List Bytes) × Pairwise (Written codec) q bs
        × (send_steps (length q) (record t { send_queue = q })
            ≡ ok (record t { send_queue = []; published = t.published ++ bs }) tt)
  unfolding send_step send_message publish
  send_steps-publishes accepts [] t h = ([], tt, rw (append-nil t.published))
  send_steps-publishes accepts (m ∷ q) t ((plain, (b, (a, wrapped, written))), h) =
      let (bs, w, e) =
        send_steps-publishes accepts q (record t { published = t.published ++ b ∷ [] }) h in
      (
        b ∷ bs,
        ((plain, (a, wrapped, written)), w),
        rw (wrapped, written, accepts t.published b, ← append_assoc t.published (b ∷ []) bs) e,
      )

  recv_loop-delivers :
      Faithful codec
      → (peer : String) (q : List Message) (bs : List Bytes) (t : TopicChannel Bytes)
      → Pairwise (Written codec) q bs
      → str_eq peer t.id ≡ false
      → (q' : List Message) × Pairwise Same q q'
        × (recv_loop codec pubsub (map (message peer) bs) t
            ≡ ok (record t { received = t.received ++ map (from_peer t.topic peer) q' }) false)
  unfolding recv_loop recv_step
  recv_loop-delivers f peer [] [] t h ne = ([], tt, rw (append-nil t.received))
  recv_loop-delivers f peer [] (b ∷ bs) t h ne = absurd h
  recv_loop-delivers f peer (m ∷ q) [] t h ne = absurd h
  recv_loop-delivers f peer (m ∷ q) (b ∷ bs) t ((plain, w), h) ne =
      let (m', (a, read, unwrapped), same) = f.reads m b plain w in
      let (q', all, e) =
        recv_loop-delivers f peer q bs
          (record t { received = t.received ++ from_peer t.topic peer m' ∷ [] }) h ne in
      (
        m' ∷ q',
        (same, all),
        rw
            (
              ne,
              read,
              unwrapped,
              ← append_assoc t.received (from_peer t.topic peer m' ∷ [])
                  (map (from_peer t.topic peer) q'),
            )
            e,
      )

  -- Where the codec is faithful and the library accepts every publish: if each message of the queue
  -- of one peer, which has published nothing yet, has no nil pointer for itself, in its map or in its
  -- list, and can be written, the rounds of `sendLoop` that work off the queue publish what
  -- `recvLoop` of any other peer turns back into the same messages, in the same order, each under
  -- the receiver's topic and the sender's id; but an empty map of jobs may come back as a nil one,
  -- and an error as some error.
  pub send_steps-recv_loop :
      Faithful codec
      → ((before : List Bytes) (b : Bytes) → pubsub.publish_fails before b ≡ none)
      → (s r : TopicChannel Bytes) → All (Writable codec) s.send_queue
      → s.id ≢ r.id
      → s.published ≡ []
      → Succeeds
          (λ s' _.
            (q' : List Message) × Pairwise Same s.send_queue q'
            × (recv_loop codec pubsub (map (message s.id) s'.published) r
                ≡ ok (record r { received = r.received ++ map (from_peer r.topic s.id) q' }) false))
          (send_steps (length s.send_queue) s)
  send_steps-recv_loop f accepts s r all ne e =
      let (bs, w, sends) = send_steps-publishes accepts s.send_queue s all in
      let (q', same, takes) =
        recv_loop-delivers f s.id s.send_queue bs r w (ground (arith, eq_iff s.id r.id)) in
      (
        record s { send_queue = []; published = s.published ++ bs },
        tt,
        sends,
        (
          q',
          same,
          subst
              (λ l.
                recv_loop codec pubsub (map (message s.id) l) r
                ≡ ok (record r { received = r.received ++ map (from_peer r.topic s.id) q' }) false)
              (sym (ap (λ l. l ++ bs) e)) takes,
        ),
      )
