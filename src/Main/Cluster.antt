-- ===== src/Main/Cluster.antt =====
-- Two trusted servers that meet: the raft addresses go to and fro between their main loops
-- (server.go, handlers.go), and both set up their `RaftImpl` (raft.go).
use peerprint.Base.{ℕ, String, true, false, Option, some, ◌∷◌, ◌≡◌, eq_refl}
use peerprint.Base.Go.{ok}
use peerprint.Base.Post.{Succeeds}
use peerprint.Base.Dict.{lookup}
use peerprint.Proto.Peers.{AddrInfo}
use peerprint.Proto.Message.{Message}
use peerprint.Raft.External.{External}
use peerprint.Raft.Impl.{RaftImpl, raft_impl, has_peer, connect}
use peerprint.Raft.Impl.Joining.{Works, Whole, connect-Joined, has_peer-append_peer}
use peerprint.Server.{Env, Server, to_topic, open_chan, get_id, get_topic, publish}
use peerprint.Server.Access.{in_trusted_peers, is_self_electable, can_handle_message, is_trusted}
use peerprint.Server.Roles.{on_raft_addrs_request, on_raft_addrs_response, raft_addrs_response}
use peerprint.Server.Dispatch.{handle, dispatch}
use peerprint.Server.Loop.{pubsub, loop_step, on_pubsub}

-- the address that a server gives for its raft host
abbrev pub info : {W : Type 0} → Server (RaftImpl W) → Option AddrInfo
info t = some (record { id = t.raft.id; addrs = t.raft.host_addrs })

-- Raft is set up at `t`, and the peer at that address is a member.
abbrev pub HasJoined : {W : Type 0} → Option AddrInfo → Server (RaftImpl W) → Type 0
HasJoined ai t = (t.raft.raft ≡ true) × (has_peer ai t.raft.peers ≡ true)

module _ {W : Type 0} (ext : External W) (n : ℕ) (env : Env) where
  takes_request :
      (from : String) (ai : Option AddrInfo) (t : Server (RaftImpl W)) (r : RaftImpl W)
      → in_trusted_peers from t ≡ true
      → lookup (get_topic t) t.send_pubsub ≡ some open_chan
      → connect ext ai t.raft ≡ ok r tt
      → loop_step
          (raft_impl ext n)
          env
          (pubsub
            (record { topic = get_topic t; peer = from; msg = Message.raft_addrs_request ai }))
          t
        ≡ ok
            (record t {
              raft = r;
              sent =
                  to_topic (get_topic t) (
                    Message.raft_addrs_response (some (record { id = r.id; addrs = r.host_addrs })))
                  ∷ t.sent;
            })
            false
  unfolding loop_step on_pubsub handle can_handle_message is_trusted dispatch on_raft_addrs_request
      raft_addrs_response raft_impl publish
  takes_request from ai t r trusted chan e = rw (trusted, trusted, eq_refl (get_topic t), e, chan)

  takes_response :
      (topic from : String) (ai : Option AddrInfo) (t : Server (RaftImpl W)) (r : RaftImpl W)
      → is_self_electable t ≡ true
      → in_trusted_peers from t ≡ true
      → connect ext ai t.raft ≡ ok r tt
      → loop_step
          (raft_impl ext n)
          env
          (pubsub (record { topic = topic; peer = from; msg = Message.raft_addrs_response ai }))
          t
        ≡ ok (record t { raft = r }) false
  unfolding loop_step on_pubsub handle can_handle_message is_trusted dispatch on_raft_addrs_response
      raft_impl
  takes_response topic from ai t r electable trusted e = rw (electable, trusted, e)

module _ {V W : Type 0} (ext : External V) (ext' : External W) (n n' : ℕ) where
  -- Two servers that trust each other, and whose raft objects are set up as a whole or not at all:
  -- where `a` is electable, the channel of `b` to its topic is open, each host answers at its address
  -- and the start of raft succeeds, the step of the main loop of `b` for the address of `a` comes
  -- back, with one message on its topic, its own address, and that of `a` for this answer comes back
  -- too. Both have then set up raft, with the other as a member.
  pub servers-HasJoined :
      (env env' : Env) (a : Server (RaftImpl V)) (b : Server (RaftImpl W))
      → in_trusted_peers (get_id b) a ≡ true
      → in_trusted_peers (get_id a) b ≡ true
      → is_self_electable a ≡ true
      → lookup (get_topic b) b.send_pubsub ≡ some open_chan
      → Whole a.raft
      → Whole b.raft
      → Works ext (info b)
      → Works ext' (info a)
      → Succeeds
          (λ b' _.
            HasJoined (info a) b'
            × (b'.sent ≡ to_topic (get_topic b) (Message.raft_addrs_response (info b)) ∷ b.sent)
            × Succeeds
                (λ a' _. HasJoined (info b) a')
                (loop_step
                  (raft_impl ext n)
                  env
                  (pubsub (record {
                    topic = get_topic b;
                    peer = get_id b;
                    msg = Message.raft_addrs_response (info b);
                  }))
                  a))
          (loop_step
            (raft_impl ext' n')
            env'
            (pubsub (record {
              topic = get_topic b;
              peer = get_id a;
              msg = Message.raft_addrs_request (info a);
            }))
            b)
  servers-HasJoined env env' a b ta tb el chan wa wb works works' =
      let (rb, x, eb, (jb, wb')) = connect-Joined ext' (info a) works' b.raft wb in
      let (ra, y, ea, (ja, wa')) = connect-Joined ext (info b) works a.raft wa in
      (
        record b {
          raft = rb;
          sent =
              to_topic (get_topic b)
                (Message.raft_addrs_response (some (record { id = rb.id; addrs = rb.host_addrs })))
              ∷ b.sent;
        },
        false,
        takes_request ext' n' env' (get_id a) (info a) b rb tb chan eb,
        (
          (jb.raft, rw jb.peers (has_peer-append_peer (info a) b.raft)),
          rw (jb.id, jb.host_addrs),
          (
            record a { raft = ra },
            false,
            takes_response ext n env (get_topic b) (get_id b) (info b) a ra el ta ea,
            (ja.raft, rw ja.peers (has_peer-append_peer (info b) a.raft)),
          ),
        ),
      )
