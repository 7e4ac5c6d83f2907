-- ===== src/Raft/Impl/Members.antt =====
-- The peers and the servers of `RaftImpl` (raft.go), and what its calls leave of them.
use peerprint.Base.{
  arith, ℕ, String, false, Option, List, [], ◌∷◌, ◌++◌, map, ◌≡◌, refl, ap, str_eq, eq_iff,
  Bool-cases, inl, inr,
}
use peerprint.Base.Go.{Go, attempt, pure, ◌>>=◌, ◌>>◌}
use peerprint.Base.Post.{Returned}
use peerprint.Base.Keeps.{Keeps, Keeps-pure, Keeps-bind, Keeps-attempt}
use peerprint.Proto.Jobs.{State}
use peerprint.Proto.Peers.{AddrInfo, get_addr_id}
use peerprint.Raft.Impl.{
  set_leader, RaftImpl, server_of, new, has_peer, append_peer, connect, leader, get, commit,
}
use peerprint.Raft.External.{External}
use peerprint.Raft.Impl.Steady.{
  Steady, Steady-MemberCalls, Steady-SetupCalls, Steady-StateCalls, get-Keeps, commit-Keeps,
  connect-Keeps, leader-Keeps,
}

-- No two peers have the same id.
abbrev pub Distinct : List (Option AddrInfo) → Type 0
Distinct [] = Unit
Distinct (p ∷ ps) = (has_peer p ps ≡ false) × Distinct ps

-- `RaftImpl` of the host `me`: a server for the host itself and one for each peer, in the order of
-- the peers.
pub record Members {W : Type 0} (me : String) (ri : RaftImpl W) : Type 0 where
  pub self : ri.id ≡ me
  pub servers : ri.servers ≡ server_of me ∷ map (λ p. server_of (get_addr_id p)) ri.peers
  pub distinct : Distinct ri.peers

has_peer-snoc :
    (p ai : Option AddrInfo) (ps : List (Option AddrInfo))
    → has_peer p ps ≡ false
    → str_eq (get_addr_id p) (get_addr_id ai) ≡ false
    → has_peer p (ps ++ ai ∷ []) ≡ false
unfolding has_peer
has_peer-snoc p ai [] h n = rw n
has_peer-snoc p ai (q ∷ ps) h n = ground (arith, has_peer-snoc p ai ps)

Distinct-snoc :
    (ai : Option AddrInfo) (ps : List (Option AddrInfo))
    → Distinct ps
    → has_peer ai ps ≡ false
    → Distinct (ps ++ ai ∷ [])
unfolding has_peer
Distinct-snoc ai [] d h = (refl, tt)
Distinct-snoc ai (p ∷ ps) d h = (
  has_peer-snoc p ai ps d.0 (
      ground
        (arith, eq_iff (get_addr_id p) (get_addr_id ai), eq_iff (get_addr_id ai) (get_addr_id p))),
  Distinct-snoc ai ps d.1 (ground arith),
)

map-snoc :
    {A B : Type 0} (f : A → B) (xs : List A) (x : A) → map f (xs ++ x ∷ []) ≡ map f xs ++ f x ∷ []
map-snoc f [] x = refl
map-snoc f (y ∷ xs) x = ap (λ ys. f y ∷ ys) (map-snoc f xs x)

append_peer-Members :
    {W : Type 0} (me : String) (ai : Option AddrInfo) (ri : RaftImpl W)
    → Members me ri
    → Members me (append_peer ai ri)
unfolding append_peer
append_peer-Members me ai ri h = elim (Bool-cases (has_peer ai ri.peers)) [
  | inl e ↦ rw e h
  | inr e ↦ rw e (record {
    self = h.self;
    servers = rw (h.servers, map-snoc (λ p. server_of (get_addr_id p)) ri.peers ai);
    distinct = Distinct-snoc ai ri.peers h.distinct e;
  })
]

Members-Steady : {W : Type 0} (me : String) → Steady {W = W} (Members me)
Members-Steady me = record {
  any_world = λ w ri h. record { self = h.self; servers = h.servers; distinct = h.distinct };
  append = append_peer-Members me;
}

connect-Members :
    {W : Type 0} (ext : External W) (me : String) (ai : Option AddrInfo)
    → Keeps (Members me) (connect ext ai)
connect-Members ext me = connect-Keeps ext (Steady-MemberCalls ext (Members-Steady me)) (
    Steady-SetupCalls ext (Members-Steady me)
      (λ ri h. record { self = h.self; servers = h.servers; distinct = h.distinct })
      (λ ri h. record { self = h.self; servers = h.servers; distinct = h.distinct }))

-- A call of the server to the raft object; the server goes on after an error.
pub data Call : Type 0 where
  connect_with : Option AddrInfo → Call
  leader_of : Call
  set_leader_to : String → Call
  commit_within : ℕ → Option State → Call
  get_within : ℕ → Call

module _ {W : Type 0} (ext : External W) where
  abbrev pub run_call : Call → Go (RaftImpl W) (Unit {0})
  run_call (connect_with ai) = attempt (connect ext ai) >>= λ _. pure tt
  run_call leader_of = attempt (leader ext) >>= λ _. pure tt
  run_call (set_leader_to l) = set_leader l
  run_call (commit_within n s) = attempt (commit ext n s) >>= λ _. pure tt
  run_call (get_within n) = attempt (get ext n) >>= λ _. pure tt

  abbrev pub run_calls : List Call → Go (RaftImpl W) (Unit {0})
  run_calls [] = pure tt
  run_calls (c ∷ cs) = run_call c >> run_calls cs

  module _ {P : RaftImpl W → Type 0} (st : Steady P)
      (connects : (ai : Option AddrInfo) → Keeps P (connect ext ai)) where
    run_call-Keeps : (c : Call) → Keeps P (run_call c)
    run_call-Keeps (connect_with ai) = Keeps-bind (Keeps-attempt (connects ai)) λ _. Keeps-pure tt
    run_call-Keeps leader_of =
        Keeps-bind (Keeps-attempt (leader-Keeps ext (Steady-MemberCalls ext st))) λ _. Keeps-pure tt
    run_call-Keeps (set_leader_to l) = Keeps-pure tt
    run_call-Keeps (commit_within n s) =
        Keeps-bind (Keeps-attempt (commit-Keeps ext (Steady-StateCalls ext st) n s))
          λ _. Keeps-pure tt
    run_call-Keeps (get_within n) =
        Keeps-bind (Keeps-attempt (get-Keeps ext (Steady-StateCalls ext st) n)) λ _. Keeps-pure tt

    pub run_calls-Keeps : (cs : List Call) → Keeps P (run_calls cs)
    run_calls-Keeps [] = Keeps-pure tt
    run_calls-Keeps (c ∷ cs) = Keeps-bind (run_call-Keeps c) λ _. run_calls-Keeps cs

  -- After any sequence of calls that come back, whatever errors they return, the electorate of a
  -- new raft object is the host itself and its peers, in order, and no two peers have the same id.
  pub run_calls-Members :
      (me : String) (addrs : List String) (w : W) (calls : List Call)
      → Returned (Members me) (run_calls calls (new me addrs w))
  unfolding new
  run_calls-Members me addrs w calls =
      (run_calls-Keeps (Members-Steady me) (connect-Members ext me) calls).at _
        (record { self = refl; servers = refl; distinct = tt })
