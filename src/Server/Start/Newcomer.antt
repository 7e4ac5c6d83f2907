-- ===== src/Server/Start/Newcomer.antt =====
-- A peer that nobody trusts, in `handshakeListener` of server.go.
use peerprint.Base.{
  ℕ, zero, suc, Bool, true, false, Option, none, some, List, ◌∷◌, ◌≡◌, ◌⊎◌, inl, inr, refl, sym,
  subst, ◌∙◌,
}
use peerprint.Base.Post.{Ensures}
use peerprint.Base.Dict.{lookup}
use peerprint.Proto.Message.{Message}
use peerprint.Raft.{Raft}
use peerprint.Server.{
  Server, Sent, to_topic, Chan, open_chan, closed_chan, get_topic, assignment_topic,
}
use peerprint.Server.Access.{in_trusted_peers}
use peerprint.Server.Setup.{am_trusted}
use peerprint.Server.Start.{
  after_event, System, Main, starting, asking, awaiting, looping, returned, Shaking, not_started,
  offer, offer_on, start, Step, start_listener, start_trusted, ask, leave, ask_again, stop_asking,
  event, draw, request, request_again, stop_shaking, cancel, Reach, here, next,
}

-- `n` assignment requests, the latest first, over what was sent before
abbrev pub asked : ℕ → List Sent → List Sent
asked zero l = l
asked (suc n) l = to_topic assignment_topic Message.assignment_request ∷ asked n l

module _ {R : Type 0} where
  -- where such a peer is in the handshake
  abbrev pub InHandshake : Main → Server R → Type 0
  InHandshake starting t = Unit
  InHandshake asking t = get_topic t ≡ assignment_topic
  InHandshake awaiting t = get_topic t ≡ assignment_topic
  InHandshake looping t = ⊥
  InHandshake returned t = ⊥

  -- Since it was `t`, the server has done nothing but ask.
  pub record OnlyAsks (t : Server R) (s : System R) : Type 0 where
    pub place : InHandshake s.main s.server
    pub shaking : s.shaking ≡ not_started
    pub untrusted : am_trusted s.server ≡ false
    pub raft : s.server.raft ≡ t.raft
    pub requests : (n : ℕ) × (s.server.sent ≡ asked n t.sent)

  -- what a request for an assignment changes
  offer-asks :
      (o : Option Chan) (room : Bool) (t : Server R)
      → Ensures
          (λ u _.
            u ≡ record t { sent = to_topic assignment_topic Message.assignment_request ∷ t.sent })
          (λ u e. ⊥)
          (offer_on o room assignment_topic Message.assignment_request t)
  offer-asks none room t = record { at = tt }
  offer-asks (some closed_chan) room t = record { at = tt }
  offer-asks (some open_chan) true t = record { at = refl }
  offer-asks (some open_chan) false t = record { at = tt }

abbrev Unshaken : Shaking → Type 0
Unshaken not_started = Unit
Unshaken _ = ⊥

not_both : {b : Bool} → b ≡ false → b ≡ true → ⊥
not_both p q = cc

module _ {R : Type 0} (raft : Raft R) (t : Server R) where
  at_place : {s : System R} {m : Main} → s.main ≡ m → OnlyAsks t s → InHandshake m s.server
  at_place {s} e h = subst (λ m. InHandshake m s.server) e h.place

  is_shaken : {s : System R} {a : Shaking} → s.shaking ≡ a → OnlyAsks t s → Unshaken a
  is_shaken e h = subst Unshaken (sym h.shaking ∙ e) tt

  abbrev Inv : System R → Type 0
  Inv s = (s.cancelled ≡ true) ⊎ OnlyAsks t s

  moved :
      {s : System R} (m : Main)
      → InHandshake m s.server
      → OnlyAsks t s
      → OnlyAsks t (record s { main = m })
  moved m p h = record {
    place = p;
    shaking = h.shaking;
    untrusted = h.untrusted;
    raft = h.raft;
    requests = h.requests;
  }

  asked_once :
      {s : System R} {u : Server R}
      → OnlyAsks t s
      → get_topic s.server ≡ assignment_topic
      → u ≡ record s.server {
        sent = to_topic assignment_topic Message.assignment_request ∷ s.server.sent;
      }
      → OnlyAsks t (record s { server = u; main = awaiting })
  unfolding in_trusted_peers
  asked_once h p e = rw e (record {
    place = p;
    shaking = h.shaking;
    untrusted = h.untrusted;
    raft = h.raft;
    requests = (suc h.requests.0, rw h.requests.1);
  })

  Step-OnlyAsks : {s s' : System R} → Step raft s s' → OnlyAsks t s → Inv s'
  unfolding in_trusted_peers offer
  Step-OnlyAsks cancel h = inl refl
  Step-OnlyAsks (start_listener m n) h = inr (record {
    place = refl;
    shaking = h.shaking;
    untrusted = h.untrusted;
    raft = h.raft;
    requests = h.requests;
  })
  Step-OnlyAsks (start_trusted m y) h = absurd (not_both h.untrusted y)
  Step-OnlyAsks {s} (ask room m p e) h = inr (
      asked_once h p
        (rw e at (offer-asks (lookup assignment_topic s.server.send_pubsub) room s.server)).at)
  Step-OnlyAsks (leave m n) h = absurd (n (at_place m h))
  Step-OnlyAsks (ask_again m) h = inr (moved asking (at_place m h) h)
  Step-OnlyAsks (stop_asking m c) h = inl c
  Step-OnlyAsks (event env e m c r l) h = absurd (at_place m h)
  Step-OnlyAsks (draw a) h = absurd (is_shaken a h)
  Step-OnlyAsks (request room a e) h = absurd (is_shaken a h)
  Step-OnlyAsks (request_again a) h = absurd (is_shaken a h)
  Step-OnlyAsks (stop_shaking a c) h = inl c

  Step-cancelled : {s s' : System R} → Step raft s s' → s.cancelled ≡ true → s'.cancelled ≡ true
  unfolding after_event
  Step-cancelled cancel c = refl
  Step-cancelled (start_listener m n) c = c
  Step-cancelled (start_trusted m y) c = c
  Step-cancelled (ask room m p e) c = c
  Step-cancelled (leave m n) c = c
  Step-cancelled (ask_again m) c = c
  Step-cancelled (stop_asking m d) c = c
  Step-cancelled (event env e m d r l) c = c
  Step-cancelled (draw a) c = c
  Step-cancelled (request room a e) c = c
  Step-cancelled (request_again a) c = c
  Step-cancelled (stop_shaking a d) c = c

  Reach-Inv : {s : System R} → am_trusted t ≡ false → Reach raft (start t) s → Inv s
  unfolding start
  Reach-Inv n here =
      inr (record { place = tt; shaking = refl; untrusted = n; raft = refl; requests = (0, refl) })
  Reach-Inv n (next r st) = elim (Reach-Inv n r) [
    | inl c ↦ inl (Step-cancelled st c)
    | inr h ↦ Step-OnlyAsks st h
  ]

  -- A peer that does not trust itself never leaves the handshake while its context lasts: in every
  -- state that it can reach from the start of `Loop`, it has neither entered the main loop nor
  -- touched the raft object, and all that it has sent is requests for an assignment.
  pub Reach-OnlyAsks :
      {s : System R}
      → am_trusted t ≡ false
      → Reach raft (start t) s
      → s.cancelled ≡ false
      → OnlyAsks t s
  Reach-OnlyAsks n r c = elim (Reach-Inv n r) [ inl d ↦ absurd (not_both c d) | inr h ↦ h ]
