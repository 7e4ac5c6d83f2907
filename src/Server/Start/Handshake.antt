-- ===== src/Server/Start/Handshake.antt =====
-- What holds from the start of `Loop` (server.go) on, handshakes included.
use peerprint.Base.{
  ℕ, suc, Bool, true, false, List, ◌∷◌, ◌≡◌, ◌≤◌, ◌<◌, ◌||◌, ◌⊎◌, inl, inr, refl, sym, subst, ◌∙◌,
  ltb, arith, ltb→lt, Bool-cases,
}
use peerprint.Base.Go.{Go, ok}
use peerprint.Base.Keeps.{Keeps, Keeps-modify}
use peerprint.Raft.{Raft}
use peerprint.Server.{
  Server, Env, Sent, to_topic, to_wrapper, to_command, role_assigned, poller_update, poller_resume,
  get_id, get_type, assignment_topic,
}
use peerprint.Server.Loop.{Event, loop_step}
use peerprint.Server.Channels.{Fixed, Fixed-Unseen}
use peerprint.Server.Invariants.Unseen.{Unseen, loop_step-Unseen}
use peerprint.Server.Start.{
  after_event, roles, shaking_told, closes, IsCancelled, System, Shaking, not_started, drawing,
  requesting, awaiting_role, over, start, Step, start_listener, start_trusted, ask, leave,
  ask_again, stop_asking, event, draw, request, request_again, stop_shaking, cancel, Reach, here,
  next,
}
use peerprint.Server.Start.Kept.{left, Reach-Unseen, offer-Unseen}

-- `n` roles at least were handed over.
record HandedOver {R : Type 0} (n : ℕ) (t : Server R) : Type 0 where
  count : n ≤ roles t.sent

roles-emit : (m : Sent) (l : List Sent) → roles l ≤ roles (m ∷ l)
roles-emit (role_assigned type) l = omega arith
roles-emit (to_topic topic m) l = omega arith
roles-emit (to_wrapper m) l = omega arith
roles-emit (to_command m) l = omega arith
roles-emit (poller_update s) l = omega arith
roles-emit poller_resume l = omega arith

HandedOver-Unseen : {R : Type 0} (n : ℕ) → Unseen {R = R} (HandedOver n)
HandedOver-Unseen n = record {
  aside = record { any_store = λ r t h. record { count = h.count } };
  emits = λ m. Keeps-modify _ λ t h. record { count = omega (arith, h.count, roles-emit m t.sent) };
  close = λ topic t e h. record { count = h.count };
  open_new = λ topic t e h. record { count = h.count };
  role = λ topic type t h. record { count = h.count };
}

-- why the handshake ended, where it did: the context was cancelled, or more than `base` roles were
-- handed over
abbrev IfOver : ℕ → Shaking → Bool → ℕ → Type 0
IfOver base over c n = (c ≡ true) ⊎ (base < n)
IfOver base _ c n = Unit

module _ (base : ℕ) where
  IfOver-mono :
      (a : Shaking) (c : Bool) (n n' : ℕ) → n ≤ n' → IfOver base a c n → IfOver base a c n'
  IfOver-mono over c n n' le (inl h) = inl h
  IfOver-mono over c n n' le (inr h) = inr (omega arith)
  IfOver-mono not_started c n n' le h = tt
  IfOver-mono drawing c n n' le h = tt
  IfOver-mono requesting c n n' le h = tt
  IfOver-mono awaiting_role c n n' le h = tt

  IfOver-cancelled : (a : Shaking) (n : ℕ) → IfOver base a true n
  IfOver-cancelled over n = inl refl
  IfOver-cancelled not_started n = tt
  IfOver-cancelled drawing n = tt
  IfOver-cancelled requesting n = tt
  IfOver-cancelled awaiting_role n = tt

  told-IfOver :
      (b : Bool) (a : Shaking) (c : Bool) (n : ℕ)
      → (b ≡ true → (c ≡ true) ⊎ (base < n))
      → IfOver base a c n
      → IfOver base (shaking_told b a) c n
  told-IfOver false a c n why h = h
  told-IfOver true awaiting_role c n why h = why refl
  told-IfOver true over c n why h = h
  told-IfOver true not_started c n why h = tt
  told-IfOver true drawing c n why h = tt
  told-IfOver true requesting c n why h = tt

closes→cancelled : (e : Event) (c : Bool) → IsCancelled e c → closes e ≡ true → c ≡ true
closes→cancelled Event.cancelled c h p = h
closes→cancelled (Event.command m) c h p = cc
closes→cancelled (Event.pubsub m) c h p = cc
closes→cancelled Event.state_changed c h p = cc
closes→cancelled Event.leader_changed c h p = cc
closes→cancelled (Event.epoch m) c h p = cc
closes→cancelled (Event.result m) c h p = cc

why_told :
    (base n n' : ℕ) (e : Event) (c : Bool)
    → base ≤ n
    → IsCancelled e c
    → (ltb n n' || closes e) ≡ true
    → (c ≡ true) ⊎ (base < n')
why_told base n n' e c le h p = elim (Bool-cases (ltb n n')) [
  | inl y ↦ inr (omega (arith, ltb→lt n n' y))
  | inr f ↦ inl (closes→cancelled e c h (rw f at p))
]

module _ {R : Type 0} (raft : Raft R) (t : Server R) where
  abbrev IfShaken : System R → Type 0
  IfShaken s = IfOver (roles t.sent) s.shaking s.cancelled (roles s.server.sent)

  -- a call that keeps the count of roles, or adds to it
  more :
      {A : Type 0} {m : Go (Server R) A} {v u : Server R} {a : A}
      → Keeps (HandedOver (roles v.sent)) m
      → m v ≡ ok u a
      → roles v.sent ≤ roles u.sent
  more k e = (left k e (record { count = omega arith })).count

  Step-IfShaken :
      {s s' : System R}
      → Step raft s s'
      → roles t.sent ≤ roles s.server.sent
      → IfShaken s
      → IfShaken s'
  unfolding after_event
  Step-IfShaken (start_listener m n) g h = h
  Step-IfShaken (start_trusted m y) g h = tt
  Step-IfShaken {s} (ask room m p e) g h =
      IfOver-mono _ s.shaking s.cancelled _ _
        (more (offer-Unseen raft (HandedOver-Unseen _) room assignment_topic _) e) h
  Step-IfShaken (leave m n) g h = h
  Step-IfShaken (ask_again m) g h = h
  Step-IfShaken (stop_asking m d) g h = h
  Step-IfShaken {s} (event env e {u} m d r l) g h =
      let grown : roles s.server.sent ≤ roles u.sent =
        more (loop_step-Unseen raft (HandedOver-Unseen _) env e) l in
      told-IfOver _ (ltb (roles s.server.sent) (roles u.sent) || closes e) s.shaking s.cancelled _
        (why_told _ (roles s.server.sent) _ e s.cancelled g d)
        (IfOver-mono _ s.shaking s.cancelled _ _ grown h)
  Step-IfShaken (draw a) g h = tt
  Step-IfShaken (request room a e) g h = tt
  Step-IfShaken (request_again a) g h = tt
  Step-IfShaken (stop_shaking a d) g h = inl d
  Step-IfShaken {s} cancel g h = IfOver-cancelled _ s.shaking _

  Reach-IfShaken : {s : System R} → Reach raft (start t) s → IfShaken s
  unfolding start
  Reach-IfShaken here = tt
  Reach-IfShaken (next r st) =
      Step-IfShaken st
        (Reach-Unseen raft (HandedOver-Unseen (roles t.sent)) r
          (record { count = omega arith })).count
        (Reach-IfShaken r)

  -- The raft handshake ends only because a role was handed over or its context was cancelled: where
  -- `handshakeRaft` has returned, the server has handed over a role since the start of `Loop`, or
  -- the context is done.
  pub Reach-over :
      {s : System R}
      → Reach raft (start t) s
      → s.shaking ≡ over
      → (s.cancelled ≡ true) ⊎ (roles t.sent < roles s.server.sent)
  Reach-over {s} r e =
      subst (λ a. IfOver (roles t.sent) a s.cancelled (roles s.server.sent)) e (Reach-IfShaken r)

  -- From the start of `Loop` on, in the handshakes and in the main loop and in every order of their
  -- turns, a server keeps its id and its trusted peers.
  pub Reach-Fixed :
      {s : System R} → Reach raft (start t) s → Fixed (get_id t) t.trusted_peers s.server
  Reach-Fixed r =
      Reach-Unseen raft (Fixed-Unseen (get_id t) t.trusted_peers) r
        (record { self = refl; peers = refl })

module _ {R : Type 0} (raft : Raft R) where
  -- the role is handed over first, and the rest of the turn does not look at who waits for it
  leader_changed-first :
      (env : Env) (t : Server R)
      → env.role_awaited ≡ true
      → loop_step raft env Event.leader_changed t
        ≡ loop_step raft
            (record env { role_awaited = false })
            Event.leader_changed
            (record t { sent = role_assigned (get_type t) ∷ t.sent })
  unfolding loop_step
  leader_changed-first env t e = simp e refl

  -- A change of leader ends the raft handshake: where `handshakeRaft` waits and the main loop comes
  -- back from its turn for `LeaderChan`, the handshake is over.
  pub leader_changed-over :
      (env : Env) (s : System R) (u : Server R) (done : Bool)
      → s.shaking ≡ awaiting_role
      → env.role_awaited ≡ true
      → loop_step raft env Event.leader_changed s.server ≡ ok u done
      → (after_event Event.leader_changed s u done).shaking ≡ over
  unfolding after_event
  leader_changed-over env s u done w r e =
      let grown : suc (roles s.server.sent) ≤ roles u.sent =
        (left
          (loop_step-Unseen raft (HandedOver-Unseen (suc (roles s.server.sent)))
            (record env { role_awaited = false }) Event.leader_changed)
          (sym (leader_changed-first env s.server r) ∙ e) (record { count = omega arith })).count in
      rw w (ground (arith, grown))
