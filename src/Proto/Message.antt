-- ===== src/Proto/Message.antt =====
-- `proto.Message` as the server meets it: one constructor for each message type that it sends or
-- tells apart, and `unknown` with its full name for any other registered type.
use peerprint.Base.{String, Option}
use peerprint.Base.Go.{Error}
use peerprint.Proto.Jobs.{Job, State}
use peerprint.Proto.Peers.{PeerStatus, PeersSummary, PollPeersRequest, AddrInfo, AssignmentResponse}

pub data Message : Type 0 where
  set_job_request : Option Job → Message
  delete_job_request : String → Message
  acquire_job_request : String → Message
  release_job_request : String → Message
  state : Option State → Message
  leader : String → Message
  peers_summary : PeersSummary → Message
  poll_peers_request : PollPeersRequest → Message
  poll_peers_response : Option PeerStatus → Message
  assignment_request : Message
  assignment_response : AssignmentResponse → Message
  raft_addrs_request : Option AddrInfo → Message
  raft_addrs_response : Option AddrInfo → Message
  -- `Error` of state.proto; its status is the text of the error
  error : Error → Message
  ok : Message
  unknown : String → Message
