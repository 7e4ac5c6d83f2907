-- ===== src/Raft/Impl/Startup.antt =====
-- `Connect` of `RaftImpl` (raft.go) where it fails: a bad address, and a `setup` that comes back with
-- an error.
use peerprint.Base.{true, false, Option, some, List, [], ◌∷◌, ◌++◌, ◌≡◌, refl, Bool-cases, inl, inr}
use peerprint.Base.Go.{err, halt, Error, bad_peer, nil_dereference}
use peerprint.Base.Post.{Returned, Ensures-bind, Ensures-mono}
use peerprint.Base.Keeps.{Keeps}
use peerprint.Proto.Peers.{AddrInfo, get_addr_id}
use peerprint.Raft.Impl.{RaftImpl, server_of, has_peer, append_peer, connect, leader}
use peerprint.Raft.External.{External}
use peerprint.Raft.Impl.Steady.{Steady, Steady-MemberCalls, add_server-Keeps}
use peerprint.Raft.Impl.Members.{Call, run_calls, run_calls-Keeps}

-- A transport, and no raft: how a `setup` that fails after its first step leaves the object.
pub record HalfSet {W : Type 0} (ri : RaftImpl W) : Type 0 where
  pub transport : ri.transport ≡ true
  pub raft : ri.raft ≡ false

append_peer-HalfSet :
    {W : Type 0} (ai : Option AddrInfo) (ri : RaftImpl W) → HalfSet ri → HalfSet (append_peer ai ri)
unfolding append_peer
append_peer-HalfSet ai ri h = elim (Bool-cases (has_peer ai ri.peers)) [
  | inl e ↦ rw e h
  | inr e ↦ rw e (record { transport = h.transport; raft = h.raft })
]

pub HalfSet-Steady : {W : Type 0} → Steady {W = W} HalfSet
HalfSet-Steady = record {
  any_world = λ w ri h. record { transport = h.transport; raft = h.raft };
  append = append_peer-HalfSet;
}

module _ {W : Type 0} (ext : External W) where
  pub connect-HalfSet : (ai : Option AddrInfo) → Keeps HalfSet (connect ext ai)
  unfolding connect
  connect-HalfSet ai = record {
    at = λ ri h.
        Ensures-bind _ _ ((add_server-Keeps ext (Steady-MemberCalls ext HalfSet-Steady) ai).at ri h)
          λ u _ q. rw q.transport (record { at = record { transport = refl; raft = q.raft } });
  }

  leader-HalfSet : (ri : RaftImpl W) → HalfSet ri → leader ext ri ≡ halt nil_dereference
  unfolding leader
  leader-HalfSet ri h = rw h.raft

  -- Once a `setup` has failed behind its first step, so that the transport is set and the raft is
  -- not, no calls repair the object: after any sequence of them that comes back, `Leader` panics.
  pub run_calls-HalfSet :
      (calls : List Call) (ri : RaftImpl W)
      → ri.transport ≡ true
      → ri.raft ≡ false
      → Returned (λ u. leader ext u ≡ halt nil_dereference) (run_calls ext calls ri)
  run_calls-HalfSet calls ri t r =
      Ensures-mono _
        ((run_calls-Keeps ext HalfSet-Steady connect-HalfSet calls).at ri
          (record { transport = t; raft = r }))
        (λ u _ h. leader-HalfSet u h) (λ u _ h. leader-HalfSet u h)

  -- `Connect` to a new peer whose id cannot be decoded returns the error, and yet the peer has
  -- joined the peers and the servers of the electorate.
  pub connect-malformed :
      (ai : Option AddrInfo) (ri : RaftImpl W) (e : Error)
      → has_peer ai ri.peers ≡ false
      → ext.decode_id (get_addr_id ai) ≡ some e
      → connect ext ai ri
        ≡ err
            (record ri {
              peers = ri.peers ++ ai ∷ [];
              servers = ri.servers ++ server_of (get_addr_id ai) ∷ [];
            })
            (bad_peer e)
  unfolding connect
  connect-malformed ai ri e new bad = rw (new, bad)
