-- ===== src/Server/Roles.antt =====
-- The handlers of handlers.go on peers: assignment, raft addresses, polls and leadership.
use peerprint.Base.{String, Option, none, some, ◌&&◌, str_eq, if◌then◌else◌}
use peerprint.Base.Go.{Go, closed_channel, ok, err, halt, pure, modify, gets, ◌>>=◌, ◌>>◌}
use peerprint.Base.Dict.{lookup, insert}
use peerprint.Proto.Jobs.{State}
use peerprint.Proto.Peers.{
  PeerType, listener, PeerStatus, PeersSummary, PollPeersRequest, AddrInfo, AssignmentResponse,
  is_electable,
}
use peerprint.Proto.Message.{Message}
use peerprint.Raft.{Raft}
use peerprint.Server.{
  Env, Server, open_chan, closed_chan, role_assigned, to_wrapper, poller_update, get_id, get_topic,
  get_type, emit, call_raft, get_leader,
}
use peerprint.Server.Access.{in_trusted_peers}

module _ {R : Type 0} where
  -- `if prev, ok := t.sendPubsub[topic]; ok { close(prev) }`, with the entry left in the map
  unfoldable pub close_topic : String → Go (Server R) (Unit {0})
  close_topic topic t = elim (lookup topic t.send_pubsub) [
    | none ↦ ok t tt
    | some closed_chan ↦ halt closed_channel
    | some open_chan ↦ ok (record t { send_pubsub = insert topic closed_chan t.send_pubsub }) tt
  ]

  -- `if _, ok := t.sendPubsub[topic]; !ok { ... t.open(topic) ... }`
  unfoldable pub open_topic : Env → String → Go (Server R) (Unit {0})
  open_topic env topic t = elim (lookup topic t.send_pubsub) [
    | some c ↦ ok t tt
    | none ↦ elim (env.open_error topic) [
      | some e ↦ err t e
      | none ↦ ok (record t { send_pubsub = insert topic open_chan t.send_pubsub }) tt
    ]
  ]

  abbrev pub set_role : String → PeerType → Server R → Server R
  set_role topic type t = record t { status = record t.status { topic = topic; type = type } }

  -- a send that gives up at once if no handshake waits
  unfoldable pub notify_role : Env → Go (Server R) (Unit {0})
  notify_role env t = if env.role_awaited then emit (role_assigned (get_type t)) t else ok t tt

  unfoldable pub on_poll_peers_request :
      Env → String → String → PollPeersRequest → Go (Server R) (Option PeerStatus)
  on_poll_peers_request env topic from req t =
      if env.float_lt env.draw req.probability then ok t (some t.status) else ok t none

  unfoldable pub on_poll_peers_response :
      String → String → Option PeerStatus → Go (Server R) (Unit {0})
  on_poll_peers_response topic from status = emit (poller_update status)

  unfoldable pub on_peers_summary : String → String → PeersSummary → Go (Server R) (Unit {0})
  on_peers_summary topic from summary = emit (to_wrapper (Message.peers_summary summary))

module _ {R : Type 0} (raft : Raft R) where
  unfoldable pub raft_addrs_request : Go (Server R) Message
  raft_addrs_request = do ai ← call_raft raft.addr_info; pure (Message.raft_addrs_request ai)

  unfoldable pub raft_addrs_response : Go (Server R) Message
  raft_addrs_response = do ai ← call_raft raft.addr_info; pure (Message.raft_addrs_response ai)

  unfoldable pub on_assignment_request : String → String → Go (Server R) AssignmentResponse
  on_assignment_request topic from = do
    l ← get_leader raft
    gets λ t. record { topic = get_topic t; id = from; leader_id = l; type = listener }

  -- what follows the close of the old topic
  unfoldable pub take_assignment :
      Env → String → AssignmentResponse → Go (Server R) (Option Message)
  unfolding open_topic notify_role raft_addrs_request
  take_assignment env from resp = do
    modify (set_role resp.topic resp.type)
    call_raft (raft.set_leader resp.leader_id)
    open_topic env resp.topic
    if is_electable resp.type then (do req ← raft_addrs_request; pure (some req)) else (do
      me ← gets (λ t. get_id t)
      if str_eq from me then pure none else (do notify_role env; pure none))

  unfoldable pub on_assignment_response :
      Env → String → String → AssignmentResponse → Go (Server R) (Option Message)
  unfolding close_topic take_assignment
  on_assignment_response env topic from resp = do
    prev ← gets (λ t. get_topic t)
    close_topic prev
    take_assignment env from resp

  unfoldable pub on_raft_addrs_request :
      String → String → Option AddrInfo → Go (Server R) (Option Message)
  unfolding raft_addrs_response in_trusted_peers
  on_raft_addrs_request topic from ai t =
      if in_trusted_peers from t && str_eq topic (get_topic t)
      then (do call_raft (raft.connect ai); rep ← raft_addrs_response; pure (some rep)) t
      else ok t none

  unfoldable pub on_raft_addrs_response :
      String → String → Option AddrInfo → Go (Server R) (Unit {0})
  on_raft_addrs_response topic from ai = call_raft (raft.connect ai)

  unfoldable pub on_state : String → String → Option State → Go (Server R) (Unit {0})
  on_state topic from resp = do
    l ← get_leader raft
    if str_eq l from then (do _ ← call_raft (raft.commit resp); pure tt) else pure tt

  unfoldable pub on_leader : String → String → String → Go (Server R) (Unit {0})
  on_leader topic from id = call_raft (raft.set_leader id)
