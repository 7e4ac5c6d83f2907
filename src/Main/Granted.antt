-- ===== src/Main/Granted.antt =====
-- A job request that the leader grants: the step of its main loop, and the steps of a listener that
-- receives the state (server.go, handlers.go), over test rafts.
use peerprint.Base.{
  ℕ, suc, none, ◌≢◌, ◌∙◌, sym, inl, inr, Bool-cases, ◌+◌, ◌≤◌, String, true, false, Option, some,
  List, [], ◌∷◌, ◌++◌, ◌≡◌, arith, ltb, str_eq, eq_refl, if◌then◌else◌,
}
use peerprint.Base.Go.{Error, ok, err}
use peerprint.Base.Dict.{lookup}
use peerprint.Proto.Jobs.{Job, Jobs, State}
use peerprint.Proto.Message.{Message}
use peerprint.TopicReceiver.Transport.{from_peer}
use peerprint.Raft.Mock.{TestRaft, test_raft}
use peerprint.Server.{
  Env, Server, Sent, to_topic, to_wrapper, to_command, open_chan, get_id, get_topic, publish,
}
use peerprint.Server.Access.{can_handle_message}
use peerprint.Server.Dispatch.{handle, dispatch}
use peerprint.Server.Roles.{on_state}
use peerprint.Server.Loop.{
  command, pubsub, state_changed, loop_step, run_loop, on_command, on_pubsub,
}
use peerprint.Server.Jobs.Rulings.{
  JobRequest, set, delete, acquire, release, named, stored, serve, commit_jobs,
}
use peerprint.Proto.Codec.{NoNilJob}

-- the command of the wrapper
abbrev pub message_of : JobRequest → Message
message_of (set j) = Message.set_job_request (some j)
message_of (delete id) = Message.delete_job_request id
message_of (acquire id) = Message.acquire_job_request id
message_of (release id) = Message.release_job_request id

-- what has been sent on a topic, in order
abbrev pub outgoing : String → List Sent → List Message
outgoing topic [] = []
outgoing topic (to_topic k m ∷ l) = outgoing topic l ++ (if str_eq k topic then m ∷ [] else [])
outgoing topic (_ ∷ l) = outgoing topic l

abbrev pub holding : Jobs → Option State
holding m = some (record { jobs = some m })

-- the leader once it has granted a request, with `m` as its map
abbrev pub granted : Jobs → Server TestRaft → Server TestRaft
granted m t = record t {
  raft = record t.raft { s = holding m; pending = suc t.raft.pending };
  sent =
      to_command Message.ok
      ∷ to_wrapper (Message.state (holding m))
      ∷ to_topic (get_topic t) (Message.state (holding m))
      ∷ t.sent;
}

-- another server that has taken over the state `x`, and told its wrapper
abbrev pub followed : State → Server TestRaft → Server TestRaft
followed x f = record f {
  raft = record f.raft { s = some x; pending = suc f.raft.pending };
  sent = to_wrapper (Message.state (some x)) ∷ f.sent;
}

-- `m'` is `m` but for the entry of the request, which is `new`
abbrev pub Puts : JobRequest → Jobs → Option Job → Jobs → Type 0
Puts req m new m' =
    (k : String) → lookup k m' ≡ (if str_eq (named req) k then stored new else lookup k m)

stored-not_nil : (new : Option Job) → stored new ≢ some none
stored-not_nil none e = cc
stored-not_nil (some j) e = cc

-- a granted request leaves no nil pointer where there was none
pub Puts-NoNilJob :
    (req : JobRequest) (m : Jobs) (new : Option Job) (m' : Jobs)
    → NoNilJob (record { jobs = some m })
    → Puts req m new m'
    → NoNilJob (record { jobs = some m' })
Puts-NoNilJob req m new m' h puts k e = elim (Bool-cases (str_eq (named req) k)) [
  | inl y ↦
      let now : lookup k m' ≡ stored new = rw y at (puts k) in
      absurd (stored-not_nil new (sym now ∙ e))
  | inr n ↦ let now : lookup k m' ≡ lookup k m = rw n at (puts k) in absurd (h k (sym now ∙ e))
]

pub fits : (n : ℕ) → n + 1 ≤ 5 → ltb n 5 ≡ true
fits n h = ground (arith, h)

same : (t : Server TestRaft) → t.raft.l ≡ get_id t → str_eq (get_id t) t.raft.l ≡ true
same t l = rw l (eq_refl (get_id t))

pub same_back : (t : Server TestRaft) → t.raft.l ≡ get_id t → str_eq t.raft.l (get_id t) ≡ true
same_back t l = rw l (eq_refl (get_id t))

pub leader-grants :
    (env : Env) (req : JobRequest) (m : Jobs) (t : Server TestRaft)
    → t.raft.l ≡ get_id t
    → t.raft.pending + 1 ≤ 5
    → lookup (get_topic t) t.send_pubsub ≡ some open_chan
    → serve test_raft env (get_topic t) (get_id t) req t ≡ commit_jobs test_raft m t.raft t
    → loop_step test_raft env (command (message_of req)) t ≡ ok (granted m t) false
unfolding loop_step on_command handle can_handle_message dispatch publish
leader-grants env (set j) m t l room c e =
    rw (same t l, same_back t l, e, fits t.raft.pending room, c)
leader-grants env (delete id) m t l room c e =
    rw (same t l, same_back t l, e, fits t.raft.pending room, c)
leader-grants env (acquire id) m t l room c e =
    rw (same t l, same_back t l, e, fits t.raft.pending room, c)
leader-grants env (release id) m t l room c e =
    rw (same t l, same_back t l, e, fits t.raft.pending room, c)

-- the leader once it has refused a request
abbrev pub refused : Error → Server TestRaft → Server TestRaft
refused x t = record t { sent = to_command (Message.error x) ∷ t.sent }

pub leader-refuses :
    (env : Env) (req : JobRequest) (x : Error) (t : Server TestRaft)
    → t.raft.l ≡ get_id t
    → serve test_raft env (get_topic t) (get_id t) req t ≡ err t x
    → loop_step test_raft env (command (message_of req)) t ≡ ok (refused x t) false
unfolding loop_step on_command handle can_handle_message dispatch
leader-refuses env (set j) x t l e = rw (same t l, same_back t l, e)
leader-refuses env (delete id) x t l e = rw (same t l, same_back t l, e)
leader-refuses env (acquire id) x t l e = rw (same t l, same_back t l, e)
leader-refuses env (release id) x t l e = rw (same t l, same_back t l, e)

pub listener-follows :
    (env env' : Env) (topic peer : String) (x : State) (f : Server TestRaft)
    → f.raft.l ≡ peer
    → f.raft.pending + 1 ≤ 5
    → run_loop test_raft
        ((env, pubsub (from_peer topic peer (Message.state (some x)))) ∷ (env', state_changed) ∷ [])
        f
      ≡ ok (followed x f) false
unfolding run_loop loop_step on_pubsub handle can_handle_message dispatch on_state
listener-follows env env' topic peer x f l room =
    let leads : str_eq f.raft.l peer ≡ true = rw l (eq_refl peer) in
    rw (leads, leads, fits f.raft.pending room)
