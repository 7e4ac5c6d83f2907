-- ===== src/Main/Unset.antt =====
-- The server of server.go over a `RaftImpl` (raft.go) that has no raft object yet, or never gets one.
use peerprint.Base.{ℕ, String, false, ◌≡◌, Bool-cases, Option-cases, inl, inr}
use peerprint.Base.Go.{halt, nil_dereference}
use peerprint.Base.Post.{Returned}
use peerprint.Proto.Message.{Message}
use peerprint.Raft.External.{External}
use peerprint.Raft.Impl.{RaftImpl, raft_impl, leader}
use peerprint.Server.{Server, Env, assignment_topic, default_topic}
use peerprint.Base.Dict.{lookup, insert}
use peerprint.Server.Access.{in_trusted_peers}
use peerprint.Server.Roles.{
  on_assignment_response, take_assignment, close_topic, open_topic, raft_addrs_request,
}
use peerprint.Server.Setup.{ServerOptions, new, setup, blank, open_assignment}
use peerprint.Server.Dispatch.{handle}
use peerprint.Server.Loop.{
  Event, command, pubsub, leader_changed, loop_step, on_command, on_pubsub, on_leader_changed,
}

-- the messages before which the guard asks for the leader, whoever sends them
abbrev pub FromLeader : Message → Type 0
FromLeader (Message.state s) = Unit
FromLeader (Message.peers_summary s) = Unit
FromLeader (Message.set_job_request j) = Unit
FromLeader (Message.delete_job_request i) = Unit
FromLeader (Message.acquire_job_request i) = Unit
FromLeader (Message.release_job_request i) = Unit
FromLeader Message.assignment_request = Unit
FromLeader _ = ⊥

-- the events whose first call is one of `Leader`
abbrev pub AsksLeader : Event → Type 0
AsksLeader (command m) = Unit
AsksLeader (pubsub msg) = FromLeader msg.msg
AsksLeader leader_changed = Unit
AsksLeader _ = ⊥

-- the raft object of the server is nil
abbrev pub NoRaft : {W : Type 0} → Server (RaftImpl W) → Type 0
NoRaft t = t.raft.raft ≡ false

module _ {W : Type 0} (ext : External W) (n : ℕ) where
  pub leader-NoRaft :
      (t : Server (RaftImpl W)) → NoRaft t → (raft_impl ext n).leader t.raft ≡ halt nil_dereference
  unfolding raft_impl leader
  leader-NoRaft t h = rw h

  pub handle-NoRaft :
      (env : Env) (topic from : String) (m : Message) (t : Server (RaftImpl W))
      → FromLeader m
      → NoRaft t
      → handle (raft_impl ext n) env topic from m t ≡ halt nil_dereference
  unfolding handle
  handle-NoRaft env topic from (Message.set_job_request j) t f h = rw (leader-NoRaft t h)
  handle-NoRaft env topic from (Message.delete_job_request i) t f h = rw (leader-NoRaft t h)
  handle-NoRaft env topic from (Message.acquire_job_request i) t f h = rw (leader-NoRaft t h)
  handle-NoRaft env topic from (Message.release_job_request i) t f h = rw (leader-NoRaft t h)
  handle-NoRaft env topic from Message.assignment_request t f h = rw (leader-NoRaft t h)
  handle-NoRaft env topic from (Message.state s) t f h = rw (leader-NoRaft t h)
  handle-NoRaft env topic from (Message.peers_summary s) t f h = rw (leader-NoRaft t h)
  handle-NoRaft env topic from _ t f h = absurd f

  pub loop_step-NoRaft :
      (env : Env) (e : Event) (t : Server (RaftImpl W))
      → AsksLeader e
      → NoRaft t
      → loop_step (raft_impl ext n) env e t ≡ halt nil_dereference
  unfolding loop_step on_command on_pubsub on_leader_changed
  loop_step-NoRaft env (command m) t f h = rw (leader-NoRaft t h)
  loop_step-NoRaft env (pubsub msg) t f h = rw (handle-NoRaft env msg.topic msg.peer msg.msg t f h)
  loop_step-NoRaft env leader_changed t f h = elim (Bool-cases env.role_awaited) [
    | inl y ↦ rw (y, leader-NoRaft t h)
    | inr e ↦ rw (e, leader-NoRaft t h)
  ]
  loop_step-NoRaft env _ t f h = absurd f

  -- a new server has asked its raft object for no more than its address
  pub new-NoRaft :
      (env : Env) (opts : ServerOptions (RaftImpl W))
      → opts.raft.raft ≡ false
      → Returned NoRaft (new (raft_impl ext n) env opts)
  unfolding new setup open_assignment on_assignment_response take_assignment close_topic open_topic
      raft_addrs_request raft_impl lookup insert
  new-NoRaft env opts h = elim (Option-cases (env.open_error assignment_topic)) [
    | inr (x, e) ↦ rw (open_assignment, e) (record { at = tt })
    | inl e ↦ elim (Bool-cases (in_trusted_peers opts.id (blank (raft_impl ext n) opts))) [
      | inr d ↦ rw (open_assignment, e, d) (record { at = h })
      | inl y ↦ elim (Option-cases (env.open_error default_topic)) [
        | inr (x, q) ↦ rw (open_assignment, e, y, q) (record { at = tt })
        | inl q ↦ rw (open_assignment, e, y, q) (record { at = h })
      ]
    ]
  ]
