-- ===== src/Raft/Impl/Steady.antt =====
-- Properties of `RaftImpl` (raft.go) that its calls keep whatever the libraries return.
use peerprint.Base.{
  ℕ, zero, suc, String, Bool, true, false, Option, none, some, List, [], ◌∷◌, Option-cases, inl,
  inr,
}
use peerprint.Base.Go.{
  nil_state, no_servers, bad_peer, no_connection, bootstrap, Error, Go, Outcome, ok, err, halt,
  Attempt, failed, succeeded, wrap,
}
use peerprint.Base.Post.{Returned, Ensures-wrap, Ensures-within}
use peerprint.Base.Keeps.{
  Keeps, Keeps-pure, Keeps-fail, Keeps-stop, Keeps-gets, Keeps-modify, Keeps-bind, Keeps-attempt,
  Keeps-if, Keeps-if_state,
}
use peerprint.Proto.Jobs.{State}
use peerprint.Proto.Peers.{AddrInfo, get_addr_id}
use peerprint.Raft.Impl.{
  get_addrs, is_no_state, is_empty, RaftImpl, server_of, append_peer, outside, set_pointer, leads,
  add_server, setup, connect, leader, bootstrap_state, get_state, assert_state, with_jobs, got, get,
  commit, commit_then, proto_to_peer_addr_info, parse_addrs, fail_at,
}
use peerprint.Raft.External.{External, RaftServer, Current, marshable, other_type}

-- Properties that neither the libraries nor `addServer` can break.
pub record Steady {W : Type 0} (P : RaftImpl W → Type 0) : Type 0 where
  pub any_world : (w : W) (ri : RaftImpl W) → P ri → P (record ri { world = w })
  pub append : (ai : Option AddrInfo) (ri : RaftImpl W) → P ri → P (append_peer ai ri)

-- What the calls of `RaftImpl` ask of a property: those on the members, on the start, on the state.
module _ {W : Type 0} (ext : External W) (P : RaftImpl W → Type 0) where
  pub record MemberCalls : Type 0 where
    pub append : (ai : Option AddrInfo) (ri : RaftImpl W) → P ri → P (append_peer ai ri)
    pub host_connect :
        (id : String) (addrs : List String) → Keeps P (outside (ext.host_connect id addrs))
    pub is_leader : Keeps P (outside ext.is_leader)
    pub leader_with_id : Keeps P (outside ext.leader_with_id)
    pub add_voter : (s : RaftServer) → Keeps P (outside (ext.add_voter s))

  pub record SetupCalls : Type 0 where
    pub new_transport : Keeps P (outside ext.new_transport)
    pub new_snapshot_store : Keeps P (outside ext.new_snapshot_store)
    pub has_existing_state : Keeps P (outside ext.has_existing_state)
    pub bootstrap_cluster : (l : List RaftServer) → Keeps P (outside (ext.bootstrap_cluster l))
    pub new_raft : Keeps P (outside ext.new_raft)
    pub transport : (ri : RaftImpl W) → P ri → P (record ri { transport = true; consensus = true })
    pub raft : (ri : RaftImpl W) → P ri → P (record ri { raft = true })

  pub record StateCalls : Type 0 where
    pub is_leader : Keeps P (outside ext.is_leader)
    pub commit_state : (s : Option State) → Keeps P (outside (ext.commit_state s))
    pub get_current_state : Keeps P (outside ext.get_current_state)
    pub wrote :
        (s : State) (ri : RaftImpl W) → P ri → P (record ri { world = ext.wrote s ri.world })

Keeps-wrap :
    {S A : Type 0} {P : S → Type 0} (m : Go S A) (w : Error → Error)
    → Keeps P m
    → Keeps P (wrap w m)
Keeps-wrap m w h = record { at = λ s p. Ensures-wrap w (m s) (h.at s p) }

pub set_pointer-Keeps : {W : Type 0} {P : RaftImpl W → Type 0} (b : Bool) → Keeps P (set_pointer b)
set_pointer-Keeps b = Keeps-if b (Keeps-pure tt) (Keeps-stop _)

anything : {R A : Type 0} {Q : R → Type 0} (o : Outcome R A) → ((r : R) → Q r) → Returned Q o
anything (ok r x) h = record { at = h r }
anything (err r e) h = record { at = h r }
anything (halt x) h = record { at = tt }

module _ {W : Type 0} (ext : External W) {P : RaftImpl W → Type 0} (st : Steady P) where
  outside-Keeps : {A : Type 0} (m : Go W A) → Keeps P (outside m)
  outside-Keeps m = record {
    at = λ ri h. Ensures-within _ (m ri.world) (anything (m ri.world) (λ w. st.any_world w ri h));
  }

  pub Steady-MemberCalls : MemberCalls ext P
  Steady-MemberCalls = record {
    append = st.append;
    host_connect = λ id addrs. outside-Keeps (ext.host_connect id addrs);
    is_leader = outside-Keeps ext.is_leader;
    leader_with_id = outside-Keeps ext.leader_with_id;
    add_voter = λ s. outside-Keeps (ext.add_voter s);
  }

  pub Steady-StateCalls : StateCalls ext P
  Steady-StateCalls = record {
    is_leader = outside-Keeps ext.is_leader;
    commit_state = λ s. outside-Keeps (ext.commit_state s);
    get_current_state = outside-Keeps ext.get_current_state;
    wrote = λ s ri h. st.any_world _ ri h;
  }

  pub Steady-SetupCalls :
      ((ri : RaftImpl W) → P ri → P (record ri { transport = true; consensus = true }))
      → ((ri : RaftImpl W) → P ri → P (record ri { raft = true }))
      → SetupCalls ext P
  Steady-SetupCalls t r = record {
    new_transport = outside-Keeps ext.new_transport;
    new_snapshot_store = outside-Keeps ext.new_snapshot_store;
    has_existing_state = outside-Keeps ext.has_existing_state;
    bootstrap_cluster = λ l. outside-Keeps (ext.bootstrap_cluster l);
    new_raft = outside-Keeps ext.new_raft;
    transport = t;
    raft = r;
  }

module _ {W : Type 0} (ext : External W) {P : RaftImpl W → Type 0} (st : MemberCalls ext P) where
  leads-Keeps : Keeps P (leads ext)
  leads-Keeps = Keeps-if_state (λ ri. ri.raft) st.is_leader (Keeps-pure false)

  fail_at-Keeps : (e : Option Error) → Keeps P (fail_at ext e)
  fail_at-Keeps none = Keeps-pure tt
  fail_at-Keeps (some e) = Keeps-fail e

  parse_addrs-Keeps : (a : List String) → Keeps P (parse_addrs ext a)
  unfolding parse_addrs
  parse_addrs-Keeps [] = Keeps-pure tt
  parse_addrs-Keeps (a ∷ rest) =
      Keeps-bind (fail_at-Keeps (ext.new_multiaddr a)) λ _. parse_addrs-Keeps rest

  proto_to_peer_addr_info-Keeps : (ai : Option AddrInfo) → Keeps P (proto_to_peer_addr_info ext ai)
  unfolding proto_to_peer_addr_info
  proto_to_peer_addr_info-Keeps ai =
      Keeps-bind (fail_at-Keeps (ext.decode_id (get_addr_id ai))) λ _. parse_addrs-Keeps _

  pub add_server-Keeps : (ai : Option AddrInfo) → Keeps P (add_server ext ai)
  unfolding add_server
  add_server-Keeps ai = Keeps-bind (Keeps-modify (append_peer ai) (st.append ai)) λ _.
      Keeps-bind
        (Keeps-wrap (proto_to_peer_addr_info ext ai) bad_peer (proto_to_peer_addr_info-Keeps ai))
        λ _.
          Keeps-bind (Keeps-wrap _ no_connection (st.host_connect (get_addr_id ai) (get_addrs ai)))
            λ _.
              Keeps-bind leads-Keeps
                λ l. Keeps-if l (st.add_voter (server_of (get_addr_id ai))) (Keeps-pure tt)

  pub leader-Keeps : Keeps P (leader ext)
  unfolding leader
  leader-Keeps = Keeps-bind leads-Keeps λ l.
      Keeps-if l (Keeps-gets _)
        (Keeps-bind (Keeps-gets _) λ b. Keeps-bind (set_pointer-Keeps b) λ _. st.leader_with_id)

module _ {W : Type 0} (ext : External W) {P : RaftImpl W → Type 0} (st : StateCalls ext P) where
  with_jobs-Keeps : (s : Option State) → Keeps P (with_jobs ext s)
  with_jobs-Keeps none = Keeps-fail nil_state
  with_jobs-Keeps (some s) = elim (Option-cases s.jobs) [
    | inl e ↦ rw e (
        Keeps-bind
          (Keeps-modify (λ ri. record ri { world = ext.wrote (record { jobs = some [] }) ri.world })
            (st.wrote (record { jobs = some [] })))
          λ _. Keeps-pure (record { jobs = some [] }))
    | inr (m, e) ↦ rw e (Keeps-pure (record { jobs = some m }))
  ]

  assert_state-Keeps : (c : Current) → Keeps P (assert_state ext c)
  assert_state-Keeps (marshable s) = with_jobs-Keeps s
  assert_state-Keeps other_type = Keeps-fail _

  get_state-Keeps : Keeps P (get_state ext)
  unfolding get_state
  get_state-Keeps =
      Keeps-bind (Keeps-gets _) λ b.
        Keeps-bind (set_pointer-Keeps b) λ _. Keeps-bind st.get_current_state assert_state-Keeps

  commit_then-Keeps :
      (m : Go (RaftImpl W) (Option State)) (s : Option State)
      → Keeps P m
      → Keeps P (commit_then ext m s)
  unfolding commit_then
  commit_then-Keeps m s h = Keeps-bind (Keeps-gets _) λ b. Keeps-bind (set_pointer-Keeps b) λ _.
      Keeps-bind st.is_leader λ l.
        Keeps-bind
          (Keeps-if l
            (Keeps-bind (st.commit_state s) λ a. Keeps-if a (Keeps-pure tt) (Keeps-fail _))
            (Keeps-pure tt))
          λ _. h

  got-Keeps :
      (m : Go (RaftImpl W) (Option State)) (r : Attempt State) → Keeps P m → Keeps P (got ext m r)
  got-Keeps m (succeeded s) h = Keeps-pure _
  got-Keeps m (failed e) h =
      Keeps-if (is_no_state e)
        (Keeps-wrap (bootstrap_state ext m) bootstrap (commit_then-Keeps m _ h)) (Keeps-fail _)

  pub get-Keeps : (n : ℕ) → Keeps P (get ext n)
  unfolding get
  get-Keeps zero = Keeps-stop _
  get-Keeps (suc n) =
      Keeps-bind (Keeps-attempt get_state-Keeps) λ r. got-Keeps (get ext n) r (get-Keeps n)

  pub commit-Keeps : (n : ℕ) (s : Option State) → Keeps P (commit ext n s)
  unfolding commit
  commit-Keeps n s = commit_then-Keeps (get ext n) s (get-Keeps n)

module _ {W : Type 0} (ext : External W) {P : RaftImpl W → Type 0} (mem : MemberCalls ext P)
    (st : SetupCalls ext P) where
  setup-Keeps : Keeps P (setup ext)
  unfolding setup
  setup-Keeps = Keeps-bind (Keeps-gets (λ ri. ri.servers)) λ servers.
      Keeps-if (is_empty servers) (Keeps-fail no_servers) (
        Keeps-bind st.new_transport λ _.
          Keeps-bind
            (Keeps-modify (λ ri. record ri { transport = true; consensus = true }) st.transport)
            λ _. Keeps-bind st.new_snapshot_store λ _. Keeps-bind st.has_existing_state λ old.
              Keeps-bind (Keeps-if old (Keeps-pure tt) (st.bootstrap_cluster servers)) λ _.
                Keeps-bind st.new_raft λ _. Keeps-modify (λ ri. record ri { raft = true }) st.raft)

  pub connect-Keeps : (ai : Option AddrInfo) → Keeps P (connect ext ai)
  unfolding connect
  connect-Keeps ai =
      Keeps-bind (add_server-Keeps ext mem ai) λ _.
        Keeps-bind (Keeps-gets (λ ri. ri.transport)) λ b. Keeps-if b (Keeps-pure tt) setup-Keeps
