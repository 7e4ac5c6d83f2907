-- ===== src/Main/Replication.antt =====
-- A job request on its way through the program: the leader's main loop (server.go, handlers.go), the
-- channel of its topic and the one of another peer (topic_receiver.go), and that peer's main loop.
use peerprint.Base.{
  ◌+◌, ◌≤◌, false, Option, none, some, List, [], ◌∷◌, ◌++◌, map, ◌≡◌, ◌≢◌, ap, sym, refl, eq_refl,
  subst,
}
use peerprint.Base.Go.{ok}
use peerprint.Base.Post.{Succeeds}
use peerprint.Base.Dict.{lookup}
use peerprint.Proto.Jobs.{Job, Jobs}
use peerprint.Proto.Message.{Message}
use peerprint.Proto.Codec.{Codec, Faithful, NoNilJob, Writable, Writes, Pairwise, Same}
use peerprint.TopicReceiver.Transport.{from_peer}
use peerprint.Raft.Contract.{jobs_at, ◌≗◌}
use peerprint.TopicReceiver.{TopicChannel, PubSub}
use peerprint.Raft.Mock.{TestRaft, test_raft}
use peerprint.Server.{Env, Server, to_wrapper, open_chan, get_id, get_topic}
use peerprint.Server.Loop.{command, pubsub, state_changed, loop_step, run_loop}
use peerprint.Server.Jobs.Mutable.{InRange}
use peerprint.Server.Jobs.Rulings.{
  JobRequest, named, Ruling, entry, refuse, ruling, stored, serve, Obeys, serve-Obeys,
}
use peerprint.TopicReceiver.Delivery.{Delivers, from_peer-Delivers}
use peerprint.Main.Granted.{
  refused, leader-refuses, message_of, outgoing, holding, Puts, Puts-NoNilJob, granted, followed,
  leader-grants, listener-follows,
}

-- The leader's map is `m` but for the entry of the request, which is `new`.
abbrev pub Updated : JobRequest → Jobs → Option Job → Server TestRaft → Type 0
Updated req m new u = (m' : Jobs) × (u.raft.s ≡ holding m') × Puts req m new m'

-- `g`, which was `f`, has a state with the leader's jobs, and has told its wrapper that state, once.
abbrev pub Follows : Server TestRaft → Server TestRaft → Server TestRaft → Type 0
Follows u f g =
    (jobs_at g.raft.s ≗ jobs_at u.raft.s) × (g.sent ≡ to_wrapper (Message.state g.raft.s) ∷ f.sent)

-- The leader, which was `t`, has the entry that it granted, and `Reaches` holds of it, or it has
-- told its wrapper the error of the refusal, and nothing else.
abbrev pub Answered :
    JobRequest
    → Jobs
    → Server TestRaft
    → (Server TestRaft → Type 0)
    → Ruling
    → Server TestRaft
    → Type 0
Answered req m t Reaches (entry new) u = Updated req m new u × Reaches u
Answered req m t Reaches (refuse x) u = u ≡ refused x t

leader-Answered :
    (env : Env) (req : JobRequest) (m : Jobs) (t : Server TestRaft)
    → t.raft.l ≡ get_id t
    → t.raft.pending + 1 ≤ 5
    → lookup (get_topic t) t.send_pubsub ≡ some open_chan
    → (Reaches : Server TestRaft → Type 0) (ρ : Ruling)
    → ((new : Option Job) (m' : Jobs) → ρ ≡ entry new → Puts req m new m' → Reaches (granted m' t))
    → Obeys test_raft (named req) m t.raft t ρ (serve test_raft env (get_topic t) (get_id t) req t)
    → Succeeds
        (λ u _. Answered req m t Reaches ρ u)
        (loop_step test_raft env (command (message_of req)) t)
leader-Answered env req m t l room c Reaches (entry new) reach (m', e, put) = (
  granted m' t,
  false,
  leader-grants env req m' t l room c e,
  ((m', refl, put), reach new m' refl put),
)
leader-Answered env req m t l room c Reaches (refuse x) reach e =
    (refused x t, false, leader-refuses env req x t l e, refl)

module _ {Any Bytes : Type 0} (codec : Codec Any Bytes) (net : PubSub Bytes) where
  -- the messages `q`, through both channels, to the loop of `f`
  abbrev pub Carried :
      Env
      → TopicChannel Bytes
      → TopicChannel Bytes
      → Server TestRaft
      → Server TestRaft
      → List Message
      → Type 0
  Carried env s r f u q = Delivers codec net s r q λ received.
      Succeeds (λ g _. Follows u f g)
        (run_loop test_raft (map (λ msg. (env, pubsub msg)) received ++ (env, state_changed) ∷ [])
          f)

  -- all that `u` has sent on its topic
  abbrev pub Arrives :
      Env → TopicChannel Bytes → TopicChannel Bytes → Server TestRaft → Server TestRaft → Type 0
  Arrives env s r f u = Carried env s r f u (outgoing (get_topic u) u.sent)

module _ {Any Bytes : Type 0} (codec : Codec Any Bytes) (net : PubSub Bytes)
    (faithful : Faithful codec)
    (accepts : (before : List Bytes) (b : Bytes) → net.publish_fails before b ≡ none) where
  pub state-Carried :
      (env : Env) (m : Jobs) (u f : Server TestRaft) (s r : TopicChannel Bytes)
      → Writable codec (Message.state (holding m))
      → u.raft.s ≡ holding m
      → s.id ≢ r.id
      → s.published ≡ []
      → r.received ≡ []
      → f.raft.l ≡ s.id
      → f.raft.pending + 1 ≤ 5
      → Carried codec net env s r f u (Message.state (holding m) ∷ [])
  state-Carried env m u f s r writable hu ids np nr l room =
      from_peer-Delivers codec net faithful accepts s r (Message.state (holding m) ∷ []) _
        (writable, tt) ids np nr follows
    where
      follows :
          (q' : List Message)
          → Pairwise Same (Message.state (holding m) ∷ []) q'
          → Succeeds
              (λ g _. Follows u f g)
              (run_loop test_raft
                (map (λ msg. (env, pubsub msg)) (map (from_peer r.topic s.id) q')
                  ++ (env, state_changed) ∷ [])
                f)
      follows [] h = absurd h
      follows (m' ∷ y ∷ q) h = absurd h.1
      follows (m' ∷ []) ((x, e, same), h) = (
        followed x f,
        false,
        rw e (listener-follows env env r.topic s.id x f l room),
        (rw hu same, refl),
      )

  granted-Arrives :
      (env : Env) (m : Jobs) (t f : Server TestRaft) (s r : TopicChannel Bytes)
      → t.sent ≡ []
      → Carried codec net env s r f (granted m t) (Message.state (holding m) ∷ [])
      → Arrives codec net env s r f (granted m t)
  granted-Arrives env m t f s r n c =
      let q : outgoing (get_topic t) (granted m t).sent ≡ Message.state (holding m) ∷ [] =
        rw (n, eq_refl (get_topic t)) in
      subst (Carried codec net env s r f (granted m t)) (sym q) c

  -- At a request of its wrapper for a job, the step of the leader's main loop comes back. If the
  -- request is refused, the error has gone to the wrapper, and nothing else has changed. If it is
  -- granted, the map has that entry, and no other, as it is ruled; all that the leader has sent
  -- on its topic then goes through its sendLoop and through the recvLoop of another server, which
  -- takes it for the leader, and what that one's main loop receives, with the change of the state
  -- behind it, comes back too, with a state of the leader's jobs, though perhaps a nil map for an
  -- empty one, and one more message to the wrapper, this state. This is over test rafts with room
  -- for a change; the leader has sent nothing before, its topic's channel is open and its clock
  -- in range, no job of its map is a nil pointer, and the two ends of the topic have different
  -- ids and have published and received nothing; the codec is faithful and can write the state
  -- that the request leaves, and every publish is accepted.
  pub request-Arrives :
      (env env' : Env) (req : JobRequest) (m : Jobs) (old : Option Job) (t f : Server TestRaft)
      (s r : TopicChannel Bytes)
      → InRange env.now
      → lookup (named req) m ≡ stored old
      → NoNilJob (record { jobs = some m })
      → ((new : Option Job) (m' : Jobs)
          → ruling env.now (get_id t) req old ≡ entry new
          → Puts req m new m'
          → (b : Bytes) × Writes codec (Message.state (holding m')) b)
      → t.raft.s ≡ holding m
      → t.raft.l ≡ get_id t
      → t.raft.pending + 1 ≤ 5
      → lookup (get_topic t) t.send_pubsub ≡ some open_chan
      → t.sent ≡ []
      → s.id ≢ r.id
      → s.published ≡ []
      → r.received ≡ []
      → f.raft.l ≡ s.id
      → f.raft.pending + 1 ≤ 5
      → Succeeds
          (λ u _.
            Answered req m t (Arrives codec net env' s r f) (ruling env.now (get_id t) req old) u)
          (loop_step test_raft env (command (message_of req)) t)
  request-Arrives env env' req m old t f s r range entry_is plain writes holds leads room chan n ids
        np nr l room' =
      leader-Answered env req m t leads room chan (Arrives codec net env' s r f)
        (ruling env.now (get_id t) req old)
        (λ new m' e puts. granted-Arrives env' m' t f s r n (
          state-Carried env' m' (granted m' t) f s r
            (Puts-NoNilJob req m new m' plain puts, writes new m' e puts) refl ids np nr l room'))
        (serve-Obeys test_raft env (get_topic t) (get_id t) t t.raft m range (ap (ok t.raft) holds)
          req old entry_is)
