-- ===== src/Server/Guards.antt =====
-- `CanHandleMessage` of handlers.go in front of `Handle`.
use peerprint.Base.{
  String, false, none, ◌≡◌, ◌≢◌, inl, inr, refl, str_eq, eq_iff, arith, Bool-cases,
}
use peerprint.Base.Go.{ok}
use peerprint.Proto.Message.{Message}
use peerprint.Raft.{Raft}
use peerprint.Server.{Server, Env, get_id}
use peerprint.Server.Access.{in_trusted_peers, is_self_electable}
use peerprint.Server.Dispatch.{handle}

str_ne : (a b : String) → a ≢ b → str_eq a b ≡ false
str_ne a b h = ground (arith, eq_iff a b)

module _ {R : Type 0} (raft : Raft R) (env : Env) (topic from : String) (t : Server R) where
  -- what only the leader serves
  abbrev pub ForLeader : Message → Type 0
  ForLeader (Message.set_job_request j) = Unit
  ForLeader (Message.delete_job_request i) = Unit
  ForLeader (Message.acquire_job_request i) = Unit
  ForLeader (Message.release_job_request i) = Unit
  ForLeader Message.assignment_request = Unit
  ForLeader _ = ⊥

  -- A server that is not the leader neither answers a job or assignment request nor changes at it,
  -- whoever sent it.
  pub handle-not_leader :
      (l : String) (m : Message)
      → raft.leader t.raft ≡ ok t.raft l
      → l ≢ get_id t
      → ForLeader m
      → handle raft env topic from m t ≡ ok t none
  unfolding handle
  handle-not_leader l (Message.set_job_request j) e ne f = rw (e, str_ne l (get_id t) ne)
  handle-not_leader l (Message.delete_job_request i) e ne f = rw (e, str_ne l (get_id t) ne)
  handle-not_leader l (Message.acquire_job_request i) e ne f = rw (e, str_ne l (get_id t) ne)
  handle-not_leader l (Message.release_job_request i) e ne f = rw (e, str_ne l (get_id t) ne)
  handle-not_leader l Message.assignment_request e ne f = rw (e, str_ne l (get_id t) ne)
  handle-not_leader l _ e ne f = absurd f

  -- A server that is not the leader ignores every message of a peer that is neither the leader nor
  -- trusted: it sends no reply and does not change.
  pub handle-stranger :
      (l : String) (m : Message)
      → raft.leader t.raft ≡ ok t.raft l
      → l ≢ get_id t
      → l ≢ from
      → in_trusted_peers from t ≡ false
      → handle raft env topic from m t ≡ ok t none
  unfolding handle
  handle-stranger l (Message.set_job_request j) e ne nf d = rw (e, str_ne l (get_id t) ne)
  handle-stranger l (Message.delete_job_request i) e ne nf d = rw (e, str_ne l (get_id t) ne)
  handle-stranger l (Message.acquire_job_request i) e ne nf d = rw (e, str_ne l (get_id t) ne)
  handle-stranger l (Message.release_job_request i) e ne nf d = rw (e, str_ne l (get_id t) ne)
  handle-stranger l Message.assignment_request e ne nf d = rw (e, str_ne l (get_id t) ne)
  handle-stranger l (Message.state s) e ne nf d = rw (e, str_ne l from nf)
  handle-stranger l (Message.peers_summary s) e ne nf d = rw (e, str_ne l from nf)
  handle-stranger l (Message.leader i) e ne nf d = rw (d, e, str_ne l from nf)
  handle-stranger l (Message.assignment_response r) e ne nf d = rw (d, e, str_ne l from nf)
  handle-stranger l (Message.raft_addrs_request a) e ne nf d = rw (d, e, str_ne l from nf)
  handle-stranger l (Message.raft_addrs_response a) e ne nf d =
      elim (Bool-cases (is_self_electable t)) [
        | inl y ↦ rw (y, d, e, str_ne l from nf)
        | inr n ↦ rw n
      ]
  handle-stranger l _ e ne nf d = refl

  -- the messages of a poll
  abbrev pub OfPoll : Message → Type 0
  OfPoll (Message.poll_peers_request q) = Unit
  OfPoll (Message.poll_peers_response s) = Unit
  OfPoll _ = ⊥

  -- The guard lets no message of a poll through: `Handle` drops each poll request and each poll
  -- response, whoever sent it, with no reply and no change.
  pub handle-poll : (m : Message) → OfPoll m → handle raft env topic from m t ≡ ok t none
  unfolding handle
  handle-poll (Message.poll_peers_request q) p = refl
  handle-poll (Message.poll_peers_response s) p = refl
  handle-poll _ p = absurd p
