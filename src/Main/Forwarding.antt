-- ===== src/Main/Forwarding.antt =====
-- A job request of the wrapper of a server that does not lead: to the leader over the topic, and the
-- state back (server.go, handlers.go, topic_receiver.go), over test rafts.
use peerprint.Base.{
  suc, ◌+◌, ◌≤◌, String, false, Option, none, some, List, [], ◌∷◌, map, ◌≡◌, ◌≢◌, ap, sym, subst,
  refl, arith, str_eq, eq_iff, eq_refl,
}
use peerprint.Base.Go.{Error, ok, err}
use peerprint.Base.Post.{Succeeds}
use peerprint.Base.Dict.{lookup}
use peerprint.Proto.Jobs.{Job, Jobs}
use peerprint.Proto.Message.{Message}
use peerprint.Proto.Codec.{Codec, Faithful, NoNilJob, Plain, Writes, Pairwise, Same}
use peerprint.TopicReceiver.{TopicMsg, TopicChannel, PubSub}
use peerprint.TopicReceiver.Transport.{from_peer}
use peerprint.TopicReceiver.Delivery.{Delivers, from_peer-Delivers}
use peerprint.Raft.Mock.{TestRaft, test_raft}
use peerprint.Server.{Env, Server, to_topic, to_command, open_chan, get_id, get_topic, publish}
use peerprint.Server.Access.{can_handle_message}
use peerprint.Server.Dispatch.{handle, dispatch}
use peerprint.Server.Loop.{command, pubsub, loop_step, run_loop, on_command, on_pubsub}
use peerprint.Server.Jobs.Mutable.{InRange}
use peerprint.Server.Jobs.Rulings.{
  JobRequest, set, delete, acquire, release, named, Ruling, entry, refuse, Obeys, ruling, stored,
  serve, commit_jobs, serve-Obeys,
}
use peerprint.Main.Granted.{message_of, outgoing, holding, Puts, Puts-NoNilJob, fits, same_back}
use peerprint.Main.Replication.{Updated, Carried, state-Carried}

-- the server that has passed a request on
abbrev pub forwarded : JobRequest → Server TestRaft → Server TestRaft
forwarded req f = record f {
  sent = to_command Message.ok ∷ to_topic (get_topic f) (message_of req) ∷ f.sent;
}

-- the leader that has granted a request from the topic
abbrev pub replied_with : String → Jobs → Server TestRaft → Server TestRaft
replied_with topic m t = record t {
  raft = record t.raft { s = holding m; pending = suc t.raft.pending };
  sent = to_topic topic (Message.state (holding m)) ∷ t.sent;
}

listener-forwards :
    (env : Env) (req : JobRequest) (f : Server TestRaft)
    → str_eq (get_id f) f.raft.l ≡ false
    → lookup (get_topic f) f.send_pubsub ≡ some open_chan
    → loop_step test_raft env (command (message_of req)) f ≡ ok (forwarded req f) false
unfolding loop_step on_command publish
listener-forwards env req f n c = rw (n, c)

leader-replies :
    (env : Env) (topic peer : String) (req : JobRequest) (m : Jobs) (t : Server TestRaft)
    → t.raft.l ≡ get_id t
    → t.raft.pending + 1 ≤ 5
    → lookup topic t.send_pubsub ≡ some open_chan
    → serve test_raft env topic peer req t ≡ commit_jobs test_raft m t.raft t
    → run_loop test_raft ((env, pubsub (from_peer topic peer (message_of req))) ∷ []) t
      ≡ ok (replied_with topic m t) false
unfolding run_loop loop_step on_pubsub handle can_handle_message dispatch publish
leader-replies env topic peer (set j) m t l room c e =
    rw (same_back t l, e, fits t.raft.pending room, c)
leader-replies env topic peer (delete id) m t l room c e =
    rw (same_back t l, e, fits t.raft.pending room, c)
leader-replies env topic peer (acquire id) m t l room c e =
    rw (same_back t l, e, fits t.raft.pending room, c)
leader-replies env topic peer (release id) m t l room c e =
    rw (same_back t l, e, fits t.raft.pending room, c)

leader-refuses :
    (env : Env) (topic peer : String) (req : JobRequest) (x : Error) (t : Server TestRaft)
    → t.raft.l ≡ get_id t
    → serve test_raft env topic peer req t ≡ err t x
    → run_loop test_raft ((env, pubsub (from_peer topic peer (message_of req))) ∷ []) t ≡ ok t false
unfolding run_loop loop_step on_pubsub handle can_handle_message dispatch
leader-refuses env topic peer (set j) x t l e = rw (same_back t l, e)
leader-refuses env topic peer (delete id) x t l e = rw (same_back t l, e)
leader-refuses env topic peer (acquire id) x t l e = rw (same_back t l, e)
leader-refuses env topic peer (release id) x t l e = rw (same_back t l, e)

-- The leader, which was `t`, has the entry that it granted, and `Reaches` holds of it, or it has
-- refused the request and is as before.
abbrev pub Ruled :
    JobRequest
    → Jobs
    → Server TestRaft
    → (Server TestRaft → Type 0)
    → Ruling
    → Server TestRaft
    → Type 0
Ruled req m t Reaches (entry new) u = Updated req m new u × Reaches u
Ruled req m t Reaches (refuse e) u = u ≡ t

leader-Ruled :
    (env : Env) (topic peer : String) (req : JobRequest) (m : Jobs) (t : Server TestRaft)
    → t.raft.l ≡ get_id t
    → t.raft.pending + 1 ≤ 5
    → lookup topic t.send_pubsub ≡ some open_chan
    → (Reaches : Server TestRaft → Type 0) (ρ : Ruling)
    → ((new : Option Job) (m' : Jobs)
        → ρ ≡ entry new
        → Puts req m new m'
        → Reaches (replied_with topic m' t))
    → Obeys test_raft (named req) m t.raft t ρ (serve test_raft env topic peer req t)
    → Succeeds
        (λ u _. Ruled req m t Reaches ρ u)
        (run_loop test_raft ((env, pubsub (from_peer topic peer (message_of req))) ∷ []) t)
leader-Ruled env topic peer req m t l room c Reaches (entry new) reach (m', e, put) = (
  replied_with topic m' t,
  false,
  leader-replies env topic peer req m' t l room c e,
  ((m', refl, put), reach new m' refl put),
)
leader-Ruled env topic peer req m t l room c Reaches (refuse x) reach e =
    (t, false, leader-refuses env topic peer req x t l e, refl)

module _ {Any Bytes : Type 0} (codec : Codec Any Bytes) (net : PubSub Bytes)
    (faithful : Faithful codec)
    (accepts : (before : List Bytes) (b : Bytes) → net.publish_fails before b ≡ none) where
  one-Same :
      (req : JobRequest) (Q : List TopicMsg → Type 0) (topic id : String) (q' : List Message)
      → Pairwise Same (message_of req ∷ []) q'
      → Q (from_peer topic id (message_of req) ∷ [])
      → Q (map (from_peer topic id) q')
  one-Same req Q topic id [] h x = absurd h
  one-Same req Q topic id (m' ∷ y ∷ q) h x = absurd h.1
  one-Same (set j) Q topic id (m' ∷ []) (e, h) x = rw e x
  one-Same (delete i) Q topic id (m' ∷ []) (e, h) x = rw e x
  one-Same (acquire i) Q topic id (m' ∷ []) (e, h) x = rw e x
  one-Same (release i) Q topic id (m' ∷ []) (e, h) x = rw e x

  message_of-Plain : (req : JobRequest) → Plain (message_of req)
  message_of-Plain (set j) = tt
  message_of-Plain (delete i) = tt
  message_of-Plain (acquire i) = tt
  message_of-Plain (release i) = tt

  request-Delivers :
      (req : JobRequest) (f : Server TestRaft) (s r : TopicChannel Bytes)
      (Q : List TopicMsg → Type 0)
      → ((b : Bytes) × Writes codec (message_of req) b)
      → f.sent ≡ []
      → s.id ≢ r.id
      → s.published ≡ []
      → r.received ≡ []
      → Q (from_peer r.topic s.id (message_of req) ∷ [])
      → Delivers codec net s r (outgoing (get_topic f) (forwarded req f).sent) Q
  request-Delivers req f s r Q w n ids np nr h =
      let one : outgoing (get_topic f) (forwarded req f).sent ≡ message_of req ∷ [] =
        rw (n, eq_refl (get_topic f)) in
      subst (λ q. Delivers codec net s r q Q) (sym one)
        (from_peer-Delivers codec net faithful accepts s r (message_of req ∷ []) Q
          ((message_of-Plain req, w), tt) ids np nr
          (λ q' same. one-Same req Q r.topic s.id q' same h))

  reply-Carried :
      (env : Env) (topic : String) (m : Jobs) (t f : Server TestRaft) (s r : TopicChannel Bytes)
      → t.sent ≡ []
      → Carried codec net env s r f (replied_with topic m t) (Message.state (holding m) ∷ [])
      → Carried codec net env s r f
          (replied_with topic m t)
          (outgoing topic (replied_with topic m t).sent)
  reply-Carried env topic m t f s r n c =
      let one : outgoing topic (replied_with topic m t).sent ≡ Message.state (holding m) ∷ [] =
        rw (n, eq_refl topic) in
      subst (Carried codec net env s r f (replied_with topic m t)) (sym one) c

  -- A server that does not lead comes back from the step for a job request of its wrapper, and
  -- what it has sent on its topic goes through both ends of the topic to the main loop of the
  -- leader, which comes back. If the leader refuses the request, it is as before. If it grants
  -- it, it has a map in which the named entry, and no other, is as ruled for that server; what it
  -- has sent on the topic then goes back, and the main loop of the server, at the change of the
  -- state behind it, comes back with a state of the leader's jobs, though perhaps a nil map for
  -- an empty one, and with this state as one more message to the wrapper. This is over test rafts
  -- with room for a change; both servers have sent nothing before, their channels to the topic
  -- are open, and at each hop the two ends of the topic have different ids and have published and
  -- received nothing; the server takes the id of the leader's end for the leader, whose clock is
  -- in range and no job of whose map is a nil pointer; the codec is faithful and can write the
  -- request and the state that it leaves, and every publish is accepted.
  pub request-ComesRound :
      (env env' env'' : Env) (req : JobRequest) (m : Jobs) (old : Option Job)
      (f t : Server TestRaft) (out in_leader back in_listener : TopicChannel Bytes)
      → InRange env'.now
      → lookup (named req) m ≡ stored old
      → NoNilJob (record { jobs = some m })
      → ((b : Bytes) × Writes codec (message_of req) b)
      → ((new : Option Job) (m' : Jobs)
          → ruling env'.now out.id req old ≡ entry new
          → Puts req m new m'
          → (b : Bytes) × Writes codec (Message.state (holding m')) b)
      → t.raft.s ≡ holding m
      → t.raft.l ≡ get_id t
      → t.raft.pending + 1 ≤ 5
      → lookup in_leader.topic t.send_pubsub ≡ some open_chan
      → t.sent ≡ []
      → out.id ≢ in_leader.id
      → out.published ≡ []
      → in_leader.received ≡ []
      → get_id f ≢ f.raft.l
      → f.raft.l ≡ back.id
      → f.raft.pending + 1 ≤ 5
      → lookup (get_topic f) f.send_pubsub ≡ some open_chan
      → f.sent ≡ []
      → back.id ≢ in_listener.id
      → back.published ≡ []
      → in_listener.received ≡ []
      → Succeeds
          (λ f' _. Delivers codec net out in_leader (outgoing (get_topic f) f'.sent) λ received.
            Succeeds
              (λ u _.
                Ruled req m t
                  (λ v.
                    Carried codec net env'' back in_listener f' v (outgoing in_leader.topic v.sent))
                  (ruling env'.now out.id req old)
                  u)
              (run_loop test_raft (map (λ msg. (env', pubsub msg)) received) t))
          (loop_step test_raft env (command (message_of req)) f)
  request-ComesRound env env' env'' req m old f t out in_leader back in_listener range entry_is
        plain written writes holds leads room chan n ids np nr others l room' chan' n' ids' np'
        nr' =
      (
        forwarded req f,
        false,
        listener-forwards env req f (ground (arith, eq_iff (get_id f) f.raft.l)) chan',
        request-Delivers req f out in_leader _ written n' ids np nr (
            leader-Ruled env' in_leader.topic out.id req m t leads room chan _
              (ruling env'.now out.id req old)
              (λ new m' e puts.
                reply-Carried env'' in_leader.topic m' t (forwarded req f) back in_listener n (
                  state-Carried codec net faithful accepts env'' m'
                    (replied_with in_leader.topic m' t) (forwarded req f) back in_listener
                    (Puts-NoNilJob req m new m' plain puts, writes new m' e puts) refl ids' np' nr'
                    l room'))
              (serve-Obeys test_raft env' in_leader.topic out.id t t.raft m range
                (ap (ok t.raft) holds) req old entry_is)),
      )
