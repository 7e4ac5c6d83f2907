-- ===== src/Server/Channels/Assigned.antt =====
-- What a server is after an assignment.
use peerprint.Base.{
  String, Option, none, some, ◌≡◌, ◌≢◌, inl, inr, refl, str_eq, if◌then◌else◌, ap, ◌∙◌, Bool-cases,
  Option-cases, [],
}
use peerprint.Base.Go.{Outcome, ok, err, halt, closed_channel, and_then}
use peerprint.Base.Post.{Returned, Ensures, Ensures-bind, Ensures-mono, Succeeds}
use peerprint.Base.Keeps.{Keeps, Keeps-pure, Keeps-gets, Keeps-bind, Keeps-if, Returned-if}
use peerprint.Server.Invariants.{IsAside, call-IsAside}
use peerprint.Server.Loop.{run_loop}
use peerprint.Server.Channels.{IsClosed, assignment-IsClosed}
use peerprint.Base.Dict.{lookup, insert, lookup-insert_ne, lookup-insert_self}
use peerprint.Proto.Peers.{AssignmentResponse, AddrInfo, is_electable}
use peerprint.Proto.Message.{Message}
use peerprint.Raft.{Raft}
use peerprint.Server.{
  Server, Env, Chan, open_chan, closed_chan, get_id, get_topic, get_type, publish,
}
use peerprint.Server.Roles.{
  close_topic, open_topic, set_role, notify_role, raft_addrs_request, take_assignment,
  on_assignment_response,
}

-- The role is taken, and the channel of the assigned topic is open.
pub record Joined {R : Type 0} (resp : AssignmentResponse) (u : Server R) : Type 0 where
  pub at_topic : get_topic u ≡ resp.topic
  pub has_type : get_type u ≡ resp.type
  pub can_publish : lookup resp.topic u.send_pubsub ≡ some open_chan

module _ {R : Type 0} (raft : Raft R) (env : Env) (from : String) (resp : AssignmentResponse)
    (r : R) (a : Option AddrInfo) (known : raft.addr_info r ≡ ok r a)
    (opens : env.open_error resp.topic ≡ none) where
  abbrev pub addrs_reply : Option Message
  addrs_reply = if is_electable resp.type then some (Message.raft_addrs_request a) else none

  opened :
      (t : Server R)
      → lookup resp.topic (insert resp.topic open_chan t.send_pubsub) ≡ some open_chan
  opened t = lookup-insert_self resp.topic open_chan t.send_pubsub

  take_new :
      (t : Server R)
      → raft.set_leader resp.leader_id t.raft ≡ ok r tt
      → lookup resp.topic t.send_pubsub ≡ none
      → Succeeds
          (λ u rep. Joined resp u × (rep ≡ addrs_reply))
          (take_assignment raft env from resp t)
  unfolding take_assignment
  take_new t told new =
      rw (told, new, open_topic, opens)
        (elim (Bool-cases (is_electable resp.type)) [
          | inl y ↦
              rw (y, known)
                (
                  _,
                  _,
                  refl,
                  (record { at_topic = refl; has_type = refl; can_publish = opened t }, refl),
                )
          | inr n ↦ rw n (elim (Bool-cases (str_eq from (get_id t))) [
            | inl self ↦ rw self (
              _,
              _,
              refl,
              (record { at_topic = refl; has_type = refl; can_publish = opened t }, refl),
            )
            | inr other ↦ rw other (elim (Bool-cases env.role_awaited) [
              | inl w ↦ rw w (
                _,
                _,
                refl,
                (record { at_topic = refl; has_type = refl; can_publish = opened t }, refl),
              )
              | inr w ↦ rw w (
                _,
                _,
                refl,
                (record { at_topic = refl; has_type = refl; can_publish = opened t }, refl),
              )
            ])
          ])
        ])

  -- An assignment to a topic that is not in the map yet, where the opener succeeds, the current
  -- topic has no closed channel and the calls of the raft object succeed: the call succeeds, the
  -- server has the assigned topic and role, the topic's channel is open, and the reply is a request
  -- for raft addresses exactly if the role is electable.
  pub assign_new :
      (topic : String) (t : Server R)
      → raft.set_leader resp.leader_id t.raft ≡ ok r tt
      → lookup (get_topic t) t.send_pubsub ≢ some closed_chan
      → lookup resp.topic t.send_pubsub ≡ none
      → Succeeds
          (λ u rep. Joined resp u × (rep ≡ addrs_reply))
          (on_assignment_response raft env topic from resp t)
  unfolding on_assignment_response
  assign_new topic t told prev new = closing (lookup (get_topic t) t.send_pubsub) refl
    where
      still_new :
          lookup (get_topic t) t.send_pubsub ≡ some open_chan
          → lookup resp.topic (insert (get_topic t) closed_chan t.send_pubsub) ≡ none
      still_new e =
          lookup-insert_ne (get_topic t) resp.topic closed_chan t.send_pubsub
            (λ p. cc (ap (λ k. lookup k t.send_pubsub) p))
          ∙ new

      closing :
          (o : Option Chan)
          → lookup (get_topic t) t.send_pubsub ≡ o
          → Succeeds
              (λ u rep. Joined resp u × (rep ≡ addrs_reply))
              (on_assignment_response raft env topic from resp t)
      closing none e = rw (e, close_topic) (take_new t told new)
      closing (some closed_chan) e = absurd (prev e)
      closing (some open_chan) e =
          rw (e, close_topic)
            (take_new (record t { send_pubsub = insert (get_topic t) closed_chan t.send_pubsub })
              told (still_new e))

trivially : {S A : Type 0} (o : Outcome S A) → Ensures (λ u _. Unit {0}) (λ u _. Unit {0}) o
trivially (ok s a) = record { at = tt }
trivially (err s e) = record { at = tt }
trivially (halt x) = record { at = tt }

record OnTopic {R : Type 0} (topic : String) (u : Server R) : Type 0 where
  at : get_topic u ≡ topic

module _ {R : Type 0} (topic : String) where
  OnTopic-IsAside : IsAside {R = R} (OnTopic topic)
  OnTopic-IsAside = record { any_store = λ r t h. record { at = h.at } }

  open_topic-OnTopic :
      (env : Env) (k : String) → Keeps {S = Server R} (OnTopic topic) (open_topic env k)
  unfolding open_topic
  open_topic-OnTopic env k = record {
    at = λ t h. elim (Option-cases (lookup k t.send_pubsub)) [
      | inr (c, e) ↦ rw (e, open_topic) (record { at = h })
      | inl e ↦ elim (Option-cases (env.open_error k)) [
        | inl q ↦ rw (e, open_topic, q) (record { at = record { at = h.at } })
        | inr (x, q) ↦ rw (e, open_topic, q) (record { at = h })
      ]
    ];
  }

  notify_role-OnTopic : (env : Env) → Keeps {S = Server R} (OnTopic topic) (notify_role env)
  unfolding notify_role
  notify_role-OnTopic env = record {
    at = λ t h.
        Returned-if env.role_awaited (record { at = record { at = h.at } }) (record { at = h });
  }

take_assignment-OnTopic :
    {R : Type 0} (raft : Raft R) (env : Env) (from : String) (resp : AssignmentResponse)
    (t : Server R)
    → Returned (OnTopic resp.topic) (take_assignment raft env from resp t)
unfolding take_assignment raft_addrs_request
take_assignment-OnTopic raft env from resp t =
    (Keeps-bind (call-IsAside (raft.set_leader resp.leader_id) (OnTopic-IsAside resp.topic)) λ _.
        Keeps-bind (open_topic-OnTopic resp.topic env resp.topic) λ _.
          Keeps-if (is_electable resp.type)
            (Keeps-bind
              (Keeps-bind (call-IsAside raft.addr_info (OnTopic-IsAside resp.topic))
                λ a. Keeps-pure _)
              λ q. Keeps-pure (some q))
            (Keeps-bind (Keeps-gets (λ t. get_id t)) λ me.
              Keeps-if (str_eq from me) (Keeps-pure none)
                (Keeps-bind (notify_role-OnTopic resp.topic env) λ _. Keeps-pure none))).at
      (set_role resp.topic resp.type t) (record { at = refl })

on_assignment-OnTopic :
    {R : Type 0} (raft : Raft R) (env : Env) (topic from : String) (resp : AssignmentResponse)
    (t : Server R)
    → Ensures
        (λ u _. OnTopic resp.topic u)
        (λ u _. Unit)
        (on_assignment_response raft env topic from resp t)
unfolding on_assignment_response
on_assignment-OnTopic raft env topic from resp t =
    Ensures-bind _ _ (trivially (close_topic (get_topic t) t)) λ u _ q.
      Ensures-mono _ (take_assignment-OnTopic raft env from resp u) (λ v a h. h) (λ v a h. tt)

-- An assignment to the topic that the server already serves, over an open channel, leaves it mute: if the call succeeds,
-- the server still serves that topic, and its next message to the topic panics on the closed
-- channel.
pub reassign-mute :
    {R : Type 0} (raft : Raft R) (env : Env) (topic from : String) (resp : AssignmentResponse)
    (t u : Server R) (rep : Option Message) (m : Message)
    → lookup (get_topic t) t.send_pubsub ≡ some open_chan
    → resp.topic ≡ get_topic t
    → on_assignment_response raft env topic from resp t ≡ ok u rep
    → (get_topic u ≡ get_topic t) × (publish (get_topic u) m u ≡ halt closed_channel)
unfolding publish run_loop
reassign-mute raft env topic from resp t u rep m e same done =
    let closed : Returned (IsClosed (get_topic t))
        (and_then (on_assignment_response raft env topic from resp t) (λ _. run_loop raft [])) =
      assignment-IsClosed raft env topic from resp [] t e in
    let here : Ensures (λ u _. OnTopic resp.topic u) (λ u _. Unit)
        (on_assignment_response raft env topic from resp t) =
      on_assignment-OnTopic raft env topic from resp t in
    let at_topic : get_topic u ≡ get_topic t = (rw done at here).at.at ∙ same in
    (at_topic, rw (at_topic, (rw done at closed).at.entry))
