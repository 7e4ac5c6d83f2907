-- ===== src/Server/Replies.antt =====
-- The replies of `Handle` (handlers.go), by the messages they reply to.
pub mod Chains
use peerprint.Base.{
  String, Bool, true, false, Option, none, some, ◌≡◌, refl, Bool-cases, inl, inr, str_eq, ◌&&◌,
  if◌then◌else◌,
}
use peerprint.Base.Go.{Go, pure, gets, modify, ◌>>=◌}
use peerprint.Base.Post.{Ensures, Ensures-bind, Ensures-any, Ensures-ok}
use peerprint.Proto.Jobs.{Job, State}
use peerprint.Proto.Peers.{
  AddrInfo, AssignmentResponse, PollPeersRequest, PeerStatus, PeerType, electable, listener,
  is_electable,
}
use peerprint.Proto.Message.{Message}
use peerprint.Raft.{Raft}
use peerprint.Server.{Env, Server, get_topic, get_id, get_leader, call_raft}
use peerprint.Server.Access.{can_handle_message, in_trusted_peers}
use peerprint.Server.Roles.{
  on_poll_peers_request, on_poll_peers_response, on_peers_summary, on_raft_addrs_response, on_state,
  on_leader, on_assignment_request, on_assignment_response, take_assignment, on_raft_addrs_request,
  set_role, close_topic, open_topic, notify_role, raft_addrs_request, raft_addrs_response,
}
use peerprint.Server.Guards.{handle-poll}
use peerprint.Server.Jobs.{
  on_set_job_request, on_delete_job_request, on_acquire_job_request, on_release_job_request,
}
use peerprint.Server.Dispatch.{dispatch, handle, replying, no_reply, state_reply}

-- A message from the peer `from`, and a reply to it.
pub data Answers (from : String) : Message → Message → Type 0 where
  assigns :
      {topic leader : String}
      → Answers from Message.assignment_request (
          Message.assignment_response
            (record { topic = topic; id = from; leader_id = leader; type = listener }))
  joins :
      {r : AssignmentResponse} {a : Option AddrInfo}
      → is_electable r.type ≡ true
      → Answers from (Message.assignment_response r) (Message.raft_addrs_request a)
  connects :
      {a b : Option AddrInfo}
      → Answers from (Message.raft_addrs_request a) (Message.raft_addrs_response b)
  sets :
      {j : Option Job} {s : State}
      → Answers from (Message.set_job_request j) (Message.state (some s))
  deletes :
      {id : String} {s : State}
      → Answers from (Message.delete_job_request id) (Message.state (some s))
  acquires :
      {id : String} {s : State}
      → Answers from (Message.acquire_job_request id) (Message.state (some s))
  releases :
      {id : String} {s : State}
      → Answers from (Message.release_job_request id) (Message.state (some s))

-- no reply, or one of the right type
abbrev pub MayAnswer : String → Message → Option Message → Type 0
MayAnswer from q none = Unit
MayAnswer from q (some r) = Answers from q r

-- The call replies to `q` with a message of the right type, or with none.
pub record Replying {R : Type 0} (from : String) (q : Message) (m : Go (Server R) (Option Message))
    : Type 0 where
  pub at : (t : Server R) → Ensures (λ u r. MayAnswer from q r) (λ u e. Unit {0}) (m t)

abbrev state_MayAnswer :
    (from : String) (q : Message)
    → ((s : State) → Answers from q (Message.state (some s)))
    → (s : Option State) → MayAnswer from q (state_reply s)
state_MayAnswer from q h none = tt
state_MayAnswer from q h (some s) = h s

-- the guard drops the others
abbrev Handled : Message → Type 0
Handled (Message.poll_peers_request q) = ⊥
Handled _ = Unit

module _ {R : Type 0} {from : String} {q : Message} where
  Replying-pure :
      (r : Option Message) → MayAnswer from q r → Replying from q (pure {S = Server R} r)
  Replying-pure r h = record { at = λ t. record { at = h } }

  Replying-after :
      {A : Type 0} (m : Go (Server R) A) {f : A → Go (Server R) (Option Message)}
      → ((a : A) → Replying from q (f a))
      → Replying from q (m >>= f)
  Replying-after m {f} h = record {
    at = λ t. Ensures-bind (m t) f (Ensures-any (m t)) (λ u a _. (h a).at u);
  }

  Replying-if :
      (b : Bool) {m n : Go (Server R) (Option Message)}
      → (b ≡ true → Replying from q m)
      → Replying from q n
      → Replying from q (if b then m else n)
  Replying-if true h k = h refl
  Replying-if false h k = k

  with_state :
      (m : Go (Server R) (Option State))
      → ((s : State) → Answers from q (Message.state (some s)))
      → Replying from q (replying m)
  with_state m h = Replying-after m λ s. Replying-pure (state_reply s) (state_MayAnswer from q h s)

  silent : (m : Go (Server R) (Unit {0})) → Replying from q (no_reply m)
  silent m = Replying-after m λ _. Replying-pure none tt

module _ {R : Type 0} (raft : Raft R) (env : Env) (topic from : String) where
  -- the server's own address in the reply
  request_then :
      {q : Message} (with : Option AddrInfo → Message)
      → ((a : Option AddrInfo) → Answers from q (with a))
      → Replying from q (do r ← (do ai ← call_raft raft.addr_info; pure (with ai)); pure (some r))
  request_then with h = record {
    at = λ t.
        Ensures-bind _ _
          (Ensures-bind (call_raft raft.addr_info t) (λ ai. pure (with ai)) (Ensures-any _)
            λ u ai _. record { at = h ai })
          λ u r a. record { at = a };
  }

  response-Replying :
      (r : AssignmentResponse)
      → Replying from (Message.assignment_response r) (on_assignment_response raft env topic from r)
  unfolding on_assignment_response take_assignment raft_addrs_request
  response-Replying r = Replying-after (gets λ t. get_topic t) λ prev.
      Replying-after (close_topic prev) λ _. Replying-after (modify (set_role r.topic r.type)) λ _.
        Replying-after (call_raft (raft.set_leader r.leader_id)) λ _.
          Replying-after (open_topic env r.topic) λ _.
            Replying-if (is_electable r.type)
              (λ e. request_then Message.raft_addrs_request λ a. joins e)
              (Replying-after (gets λ t. get_id t) λ me.
                Replying-if (str_eq from me) (λ _. Replying-pure none tt)
                  (Replying-after (notify_role env) λ _. Replying-pure none tt))

  addrs-Replying :
      (a : Option AddrInfo)
      → Replying from (Message.raft_addrs_request a) (on_raft_addrs_request raft topic from a)
  unfolding on_raft_addrs_request raft_addrs_response
  addrs-Replying a = record {
    at = λ t. elim (Bool-cases (in_trusted_peers from t && str_eq topic (get_topic t))) [
      | inl y ↦ rw y (
          (Replying-after (call_raft (raft.connect a))
              λ _. request_then Message.raft_addrs_response λ b. connects).at
            t)
      | inr n ↦ rw n (record { at = tt })
    ];
  }

  assignment-Replying :
      Replying from Message.assignment_request
        (do r ← on_assignment_request raft topic from; pure (some (Message.assignment_response r)))
  unfolding on_assignment_request
  assignment-Replying = record {
    at = λ t.
        Ensures-bind _ _
          (Ensures-bind (get_leader raft t) _ (Ensures-any _) λ u l _. Ensures-ok u _ assigns)
          λ u r a. record { at = a };
  }

  dispatch-Replying : (q : Message) → Handled q → Replying from q (dispatch raft env topic from q)
  unfolding dispatch
  dispatch-Replying Message.assignment_request n = assignment-Replying
  dispatch-Replying (Message.poll_peers_request q) n = absurd n
  dispatch-Replying (Message.raft_addrs_request a) n = addrs-Replying a
  dispatch-Replying (Message.assignment_response r) n = response-Replying r
  dispatch-Replying (Message.poll_peers_response s) n = silent (on_poll_peers_response topic from s)
  dispatch-Replying (Message.peers_summary s) n = silent (on_peers_summary topic from s)
  dispatch-Replying (Message.raft_addrs_response a) n =
      silent (on_raft_addrs_response raft topic from a)
  dispatch-Replying (Message.set_job_request j) n =
      with_state (on_set_job_request raft env topic from j) λ s. sets
  dispatch-Replying (Message.delete_job_request i) n =
      with_state (on_delete_job_request raft env topic from i) λ s. deletes
  dispatch-Replying (Message.acquire_job_request i) n =
      with_state (on_acquire_job_request raft env topic from i) λ s. acquires
  dispatch-Replying (Message.release_job_request i) n =
      with_state (on_release_job_request raft env topic from i) λ s. releases
  dispatch-Replying (Message.state s) n = silent (on_state raft topic from s)
  dispatch-Replying (Message.leader l) n = silent (on_leader raft topic from l)
  dispatch-Replying _ n = record { at = λ t. record { at = tt } }

  -- What `Handle` replies is of the right type: to a request for an assignment the assignment of the
  -- asking peer as a listener; to an assignment the server's raft address, if the type assigned is
  -- electable; to a raft address its own; to a job request the state, not nil. Any other message, the
  -- request of a poll among them, has no reply.
  pub handle-Answers :
      (q : Message) (t : Server R)
      → Ensures (λ u r. MayAnswer from q r) (λ u e. Unit {0}) (handle raft env topic from q t)
  unfolding handle
  handle-Answers (Message.poll_peers_request q) t =
      rw (handle-poll raft env topic from t (Message.poll_peers_request q) tt) (record { at = tt })
  handle-Answers q t =
      (Replying-after (can_handle_message raft from q)
          λ allowed. Replying-if allowed (λ _. dispatch-Replying q tt) (Replying-pure none tt)).at
        t
