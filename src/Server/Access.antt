-- ===== src/Server/Access.antt =====
-- The guards of handlers.go: who may send which message to whom.
use peerprint.Base.{String, Bool, true, false, Option, none, some, ◌&&◌, str_eq, if◌then◌else◌}
use peerprint.Base.Go.{Go, pure, gets, ok, ◌>>=◌}
use peerprint.Base.Dict.{lookup}
use peerprint.Proto.Peers.{is_electable}
use peerprint.Proto.Message.{Message}
use peerprint.Raft.{Raft}
use peerprint.Server.{Server, get_id, get_type, get_leader}

abbrev pub is_present {ℓ} : {A : Type ℓ} → Option A → Bool
is_present none = false
is_present (some a) = true

-- `_, ok := t.trustedPeers[peer]`
unfoldable pub in_trusted_peers : {R : Type 0} → String → Server R → Bool
in_trusted_peers peer t = is_present (lookup peer t.trusted_peers)

unfoldable pub is_self_electable : {R : Type 0} → Server R → Bool
is_self_electable t = is_electable (get_type t)

module _ {R : Type 0} (raft : Raft R) where
  unfoldable pub is_self_leader : Go (Server R) Bool
  is_self_leader = do l ← get_leader raft; gets λ t. str_eq l (get_id t)

  unfoldable pub is_leader : String → Go (Server R) Bool
  is_leader peer = do l ← get_leader raft; pure (str_eq l peer)

  unfoldable pub is_trusted : String → Go (Server R) Bool
  unfolding in_trusted_peers is_leader
  is_trusted peer t = if in_trusted_peers peer t then ok t true else is_leader peer t

  -- `a && b`: the right side is evaluated only if the left side holds
  abbrev pub and_also : Go (Server R) Bool → (Server R → Bool) → Go (Server R) Bool
  and_also m p = do b ← m; gets λ t. b && p t

  unfoldable pub can_handle_message : String → Message → Go (Server R) Bool
  unfolding is_self_leader is_leader is_trusted is_self_electable
  can_handle_message from (Message.set_job_request j) = is_self_leader
  can_handle_message from (Message.delete_job_request i) = is_self_leader
  can_handle_message from (Message.acquire_job_request i) = is_self_leader
  can_handle_message from (Message.release_job_request i) = is_self_leader
  can_handle_message from (Message.state s) = is_leader from
  can_handle_message from (Message.leader l) = is_trusted from
  can_handle_message from (Message.peers_summary s) = is_leader from
  can_handle_message from Message.assignment_request = is_self_leader
  can_handle_message from (Message.assignment_response r) =
      and_also (is_trusted from) (λ t. str_eq r.id (get_id t))
  can_handle_message from (Message.raft_addrs_request a) = is_trusted from
  can_handle_message from (Message.raft_addrs_response a) =
      λ t. if is_self_electable t then is_trusted from t else ok t false
  can_handle_message from _ = pure false
