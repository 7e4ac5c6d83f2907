-- ===== src/Server/Invariants/Handlers.antt =====
-- The handlers that are not about jobs, and stable properties.
use peerprint.Base.{String, true, false, Option, none, some, ◌≡◌, refl, str_eq}
use peerprint.Base.Go.{Outcome, ok, err, halt, Error, closed_channel}
use peerprint.Base.Post.{Returned}
use peerprint.Base.Keeps.{
  Keeps, Keeps-pure, Keeps-gets, Keeps-modify, Keeps-bind, Keeps-if, Keeps-if_state, Returned-if,
}
use peerprint.Base.Dict.{lookup, insert}
use peerprint.Proto.Peers.{
  PeerStatus, PeersSummary, PollPeersRequest, AddrInfo, AssignmentResponse, is_electable,
}
use peerprint.Proto.Message.{Message}
use peerprint.Raft.{Raft}
use peerprint.Server.{Server, role_assigned, Env, Chan, open_chan, closed_chan, get_id}
use peerprint.Server.Invariants.{Stable}
use peerprint.Server.Roles.{
  close_topic, open_topic, notify_role, on_poll_peers_request, on_poll_peers_response,
  on_peers_summary, raft_addrs_request, raft_addrs_response, on_assignment_request, take_assignment,
  on_assignment_response, on_raft_addrs_request, on_raft_addrs_response, on_leader,
}
use peerprint.Server.Access.{can_handle_message, is_self_leader, is_leader, is_trusted}

module _ {R : Type 0} (raft : Raft R) {P : Server R → Type 0} (st : Stable raft P) where
  close_topic-Stable : (topic : String) → Keeps P (close_topic topic)
  unfolding close_topic
  close_topic-Stable topic = record { at = λ t h. at_entry t (lookup topic t.send_pubsub) refl h }
    where
      at_entry :
          (t : Server R) (o : Option Chan)
          → lookup topic t.send_pubsub ≡ o
          → P t
          → Returned P (elim o as (λ _. Outcome (Server R) Unit) [
            | none ↦ ok t tt
            | some closed_chan ↦ halt closed_channel
            | some open_chan ↦
                ok (record t { send_pubsub = insert topic closed_chan t.send_pubsub }) tt
          ])
      at_entry t none e h = record { at = h }
      at_entry t (some closed_chan) e h = record { at = tt }
      at_entry t (some open_chan) e h = record { at = st.close topic t e h }

  open_topic-Stable : (env : Env) (topic : String) → Keeps P (open_topic env topic)
  unfolding open_topic
  open_topic-Stable env topic = record {
    at = λ t h. at_entry t (lookup topic t.send_pubsub) (env.open_error topic) refl h;
  }
    where
      at_entry :
          (t : Server R) (o : Option Chan) (e : Option Error)
          → lookup topic t.send_pubsub ≡ o
          → P t
          → Returned P (elim o as (λ _. Outcome (Server R) Unit) [
            | some c ↦ ok t tt
            | none ↦ elim e [
              | some x ↦ err t x
              | none ↦ ok (record t { send_pubsub = insert topic open_chan t.send_pubsub }) tt
            ]
          ])
      at_entry t (some c) e q h = record { at = h }
      at_entry t none (some x) q h = record { at = h }
      at_entry t none none q h = record { at = st.open_new topic t q h }

  pub notify_role-Stable : (env : Env) → Keeps P (notify_role env)
  unfolding notify_role
  notify_role-Stable env = record {
    at = λ t h.
        Returned-if env.role_awaited ((st.emit_other (role_assigned t.status.type) tt).at t h)
          (record { at = h });
  }

  raft_addrs_request-Stable : Keeps P (raft_addrs_request raft)
  unfolding raft_addrs_request
  raft_addrs_request-Stable = Keeps-bind st.addr_info (λ a. Keeps-pure _)

  raft_addrs_response-Stable : Keeps P (raft_addrs_response raft)
  unfolding raft_addrs_response
  raft_addrs_response-Stable = Keeps-bind st.addr_info (λ a. Keeps-pure _)

  pub take_assignment-Stable :
      (env : Env) (from : String) (resp : AssignmentResponse)
      → Keeps P (take_assignment raft env from resp)
  unfolding take_assignment
  take_assignment-Stable env from resp =
      Keeps-bind (Keeps-modify _ (st.role resp.topic resp.type)) λ _.
        Keeps-bind (st.set_leader resp.leader_id) λ _.
          Keeps-bind (open_topic-Stable env resp.topic) λ _.
            Keeps-if (is_electable resp.type)
              (Keeps-bind raft_addrs_request-Stable (λ q. Keeps-pure (some q)))
              (Keeps-bind (Keeps-gets (λ t. get_id t)) λ self.
                Keeps-if (str_eq from self) (Keeps-pure none)
                  (Keeps-bind (notify_role-Stable env) λ _. Keeps-pure none))

  pub on_assignment_response-Stable :
      (env : Env) (topic from : String) (resp : AssignmentResponse)
      → Keeps P (on_assignment_response raft env topic from resp)
  unfolding on_assignment_response
  on_assignment_response-Stable env topic from resp =
      Keeps-bind (Keeps-gets _)
        λ prev. Keeps-bind (close_topic-Stable prev) λ _. take_assignment-Stable env from resp

  pub on_raft_addrs_request-Stable :
      (topic from : String) (ai : Option AddrInfo)
      → Keeps P (on_raft_addrs_request raft topic from ai)
  unfolding on_raft_addrs_request
  on_raft_addrs_request-Stable topic from ai =
      Keeps-if_state _
        (Keeps-bind (st.connect ai) λ _. Keeps-bind raft_addrs_response-Stable λ rep. Keeps-pure _)
        (Keeps-pure _)

  pub on_raft_addrs_response-Stable :
      (topic from : String) (ai : Option AddrInfo)
      → Keeps P (on_raft_addrs_response raft topic from ai)
  unfolding on_raft_addrs_response
  on_raft_addrs_response-Stable topic from ai = st.connect ai

  pub on_leader-Stable : (topic from id : String) → Keeps P (on_leader raft topic from id)
  unfolding on_leader
  on_leader-Stable topic from id = st.set_leader id

  pub on_assignment_request-Stable :
      (topic from : String) → Keeps P (on_assignment_request raft topic from)
  unfolding on_assignment_request
  on_assignment_request-Stable topic from = Keeps-bind st.leader λ l. Keeps-gets _

  pub on_poll_peers_request-Stable :
      (env : Env) (topic from : String) (q : PollPeersRequest)
      → Keeps P (on_poll_peers_request env topic from q)
  unfolding on_poll_peers_request
  on_poll_peers_request-Stable env topic from q = record {
    at = λ t h.
        Returned-if (env.float_lt env.draw q.probability) (record { at = h }) (record { at = h });
  }

  pub on_poll_peers_response-Stable :
      (topic from : String) (s : Option PeerStatus) → Keeps P (on_poll_peers_response topic from s)
  unfolding on_poll_peers_response
  on_poll_peers_response-Stable topic from s = st.emit_other _ tt

  pub on_peers_summary-Stable :
      (topic from : String) (s : PeersSummary) → Keeps P (on_peers_summary topic from s)
  unfolding on_peers_summary
  on_peers_summary-Stable topic from s = st.emit_other _ tt

  is_leader-Stable : (from : String) → Keeps P (is_leader raft from)
  unfolding is_leader
  is_leader-Stable from = Keeps-bind st.leader λ l. Keeps-pure _

  is_self_leader-Stable : Keeps P (is_self_leader raft)
  unfolding is_self_leader
  is_self_leader-Stable = Keeps-bind st.leader λ l. Keeps-gets _

  is_trusted-Stable : (from : String) → Keeps P (is_trusted raft from)
  unfolding is_trusted
  is_trusted-Stable from = Keeps-if_state _ (Keeps-pure true) (is_leader-Stable from)

  pub can_handle_message-Stable :
      (from : String) (m : Message) → Keeps P (can_handle_message raft from m)
  unfolding can_handle_message
  can_handle_message-Stable from (Message.assignment_response r) =
      Keeps-bind (is_trusted-Stable from) λ b. Keeps-gets _
  can_handle_message-Stable from (Message.raft_addrs_response a) =
      Keeps-if_state _ (is_trusted-Stable from) (Keeps-pure false)
  can_handle_message-Stable from _ =
      search (is_leader-Stable, is_self_leader-Stable, is_trusted-Stable, Keeps-pure)
