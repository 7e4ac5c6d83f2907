-- ===== src/Server/Dispatch.antt =====
-- `Handle` of handlers.go: the guard, then the handler of the message's type. A reply is `none`
-- for a nil interface and for a nil pointer alike, since `Loop` sends neither.
use peerprint.Base.{String, Option, none, some, if◌then◌else◌}
use peerprint.Base.Go.{Go, pure, fail, no_handler, ◌>>=◌, ◌>>◌}
use peerprint.Proto.Jobs.{State}
use peerprint.Proto.Message.{Message}
use peerprint.Raft.{Raft}
use peerprint.Server.{Env, Server}
use peerprint.Server.Access.{can_handle_message}
use peerprint.Server.Jobs.{
  on_set_job_request, on_delete_job_request, on_acquire_job_request, on_release_job_request,
}
use peerprint.Server.Roles.{
  on_poll_peers_request, on_poll_peers_response, on_peers_summary, on_assignment_request,
  on_assignment_response, on_raft_addrs_request, on_raft_addrs_response, on_state, on_leader,
}

abbrev pub state_reply : Option State → Option Message
state_reply none = none
state_reply (some s) = some (Message.state (some s))

module _ {R : Type 0} where
  abbrev pub no_reply : Go (Server R) (Unit {0}) → Go (Server R) (Option Message)
  no_reply m = do m; pure none

  abbrev pub replying : Go (Server R) (Option State) → Go (Server R) (Option Message)
  replying m = do s ← m; pure (state_reply s)

module _ {R : Type 0} (raft : Raft R) where
  -- the `switch` of `Handle`
  unfoldable pub dispatch : Env → String → String → Message → Go (Server R) (Option Message)
  dispatch env topic peer Message.assignment_request = do
    r ← on_assignment_request raft topic peer
    pure (some (Message.assignment_response r))
  dispatch env topic peer (Message.poll_peers_request q) = do
    r ← on_poll_peers_request env topic peer q
    pure (elim r [ none ↦ none | some s ↦ some (Message.poll_peers_response (some s)) ])
  dispatch env topic peer (Message.raft_addrs_request a) = on_raft_addrs_request raft topic peer a
  dispatch env topic peer (Message.assignment_response r) =
      on_assignment_response raft env topic peer r
  dispatch env topic peer (Message.poll_peers_response s) =
      no_reply (on_poll_peers_response topic peer s)
  dispatch env topic peer (Message.peers_summary s) = no_reply (on_peers_summary topic peer s)
  dispatch env topic peer (Message.raft_addrs_response a) =
      no_reply (on_raft_addrs_response raft topic peer a)
  dispatch env topic peer (Message.set_job_request j) =
      replying (on_set_job_request raft env topic peer j)
  dispatch env topic peer (Message.delete_job_request i) =
      replying (on_delete_job_request raft env topic peer i)
  dispatch env topic peer (Message.acquire_job_request i) =
      replying (on_acquire_job_request raft env topic peer i)
  dispatch env topic peer (Message.release_job_request i) =
      replying (on_release_job_request raft env topic peer i)
  dispatch env topic peer (Message.state s) = no_reply (on_state raft topic peer s)
  dispatch env topic peer (Message.leader l) = no_reply (on_leader raft topic peer l)
  dispatch env topic peer _ = fail no_handler

  unfoldable pub handle : Env → String → String → Message → Go (Server R) (Option Message)
  unfolding dispatch can_handle_message
  handle env topic peer p = do
    allowed ← can_handle_message raft peer p
    if allowed then dispatch env topic peer p else pure none
