-- ===== src/TopicReceiver/Opening.antt =====
-- `NewTopicChannel` of topic_receiver.go: what it leaves joined and running.
use peerprint.Base.{String, ◌∷◌, ◌≡◌, refl, inl, inr, Option-cases}
use peerprint.Base.Post.{Ensures}
use peerprint.TopicReceiver.{TopicChannel, Joining, Topics, new_topic_channel, open_channel}

-- An open channel is a new one, and its topic is joined and its loops run; an error leaves nothing
-- joined or running that was not before.
pub open_channel-Ensures :
    {Bytes : Type 0} (p : Joining) (self topic : String) (t : Topics)
    → Ensures {A = TopicChannel Bytes}
        (λ u c.
          (c ≡ new_topic_channel self topic)
          × (u ≡ record { joined = topic ∷ t.joined; looping = topic ∷ t.looping }))
        (λ u e. u ≡ t)
        (open_channel p self topic t)
unfolding open_channel
open_channel-Ensures p self topic t = elim (Option-cases (p.join_fails t.joined topic)) [
  | inr (e, j) ↦ rw j (record { at = refl })
  | inl j ↦ elim (Option-cases (p.subscribe_fails topic)) [
    | inr (e, s) ↦ rw (j, s) (record { at = refl })
    | inl s ↦ rw (j, s) (record { at = (refl, refl) })
  ]
]
