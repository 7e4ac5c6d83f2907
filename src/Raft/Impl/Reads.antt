-- ===== src/Raft/Impl/Reads.antt =====
-- `getState` of `RaftImpl` (raft.go), and the calls that leave the agreed jobs alone.
use peerprint.Base.{Option, none, some, [], ◌≡◌, inl, inr, refl, sym, ◌∙◌, Bool-cases, arith}
use peerprint.Base.Go.{Go, Error, Outcome, Attempt, failed, succeeded}
use peerprint.Base.Post.{Ensures, Ensures-bind, Ensures-within, Ensures-mono}
use peerprint.Base.Keeps.{Keeps}
use peerprint.Proto.Jobs.{State, Jobs}
use peerprint.Proto.Peers.{AddrInfo}
use peerprint.Raft.Contract
use peerprint.Raft.Contract.{Board, jobs_at, ◌≗◌, AfterGet, AfterCommit, Contract}
use peerprint.Raft.External.{External, Current, marshable, other_type}
use peerprint.Raft.Impl.{
  RaftImpl, outside, append_peer, get_state, assert_state, with_jobs, is_no_state,
}
use peerprint.Raft.Impl.Steady.{MemberCalls, SetupCalls}
use peerprint.Raft.Consensus.{AfterRead, NoJobs, Consensus}

-- The board of `RaftImpl` is the agreed one.
abbrev pub agreed_of : {W : Type 0} → (W → Board) → RaftImpl W → Board
agreed_of board ri = board ri.world

abbrev pub Holds : {W : Type 0} → (W → Board) → Board → RaftImpl W → Type 0
Holds board b ri = board ri.world ≗ b

abbrev pub AfterGetState :
    {W : Type 0} → (W → Board) → RaftImpl W → Outcome (RaftImpl W) State → Type 0
AfterGetState board ri =
    Ensures (λ r' s'. (board r'.world ≗ board ri.world) × (jobs_at (some s') ≗ board ri.world))
      (λ r' e. (board r'.world ≗ board ri.world) × NoJobs board ri.world e)

abbrev pub OfAttempt : {W : Type 0} → (W → Board) → RaftImpl W → Attempt State → Type 0
OfAttempt board ri (failed e) = NoJobs board ri.world e
OfAttempt board ri (succeeded s) = jobs_at (some s) ≗ board ri.world

module _ {W : Type 0} (ext : External W) (board : W → Board) (c : Consensus ext board) where
  abbrev agreed : RaftImpl W → Board
  agreed ri = board ri.world

  pub same :
      (b : Board) {A : Type 0} (m : Go W A)
      → ((w : W) → Contract.Keeps board w (m w))
      → Keeps (Holds board b) (outside m)
  same b m h = record {
    at = λ ri p.
        Ensures-within _ (m ri.world)
          (Ensures-mono (m ri.world) (h ri.world) (λ w a q k. q k ∙ p k) (λ w e q k. q k ∙ p k));
  }

  append_peer-agreed :
      (ai : Option AddrInfo) (ri : RaftImpl W) → agreed (append_peer ai ri) ≡ agreed ri
  unfolding append_peer
  append_peer-agreed ai ri = ground arith

  pub Holds-MemberCalls : (b : Board) → MemberCalls ext (Holds board b)
  Holds-MemberCalls b = record {
    append = λ ai ri p. rw (append_peer-agreed ai ri) p;
    host_connect = λ id addrs. same b (ext.host_connect id addrs) (c.host_connect_lem id addrs);
    is_leader = same b ext.is_leader c.is_leader_lem;
    leader_with_id = same b ext.leader_with_id c.leader_with_id_lem;
    add_voter = λ s. same b (ext.add_voter s) (c.add_voter_lem s);
  }

  pub Holds-SetupCalls : (b : Board) → SetupCalls ext (Holds board b)
  Holds-SetupCalls b = record {
    new_transport = same b ext.new_transport c.new_transport_lem;
    new_snapshot_store = same b ext.new_snapshot_store c.new_snapshot_store_lem;
    has_existing_state = same b ext.has_existing_state c.has_existing_state_lem;
    bootstrap_cluster = λ l. same b (ext.bootstrap_cluster l) (c.bootstrap_cluster_lem l);
    new_raft = same b ext.new_raft c.new_raft_lem;
    transport = λ ri p. p;
    raft = λ ri p. p;
  }

  with_map-Agreed :
      (m : Option Jobs) (ri : RaftImpl W)
      → jobs_at (some (record { jobs = m })) ≗ agreed ri
      → AfterGetState board ri (with_jobs ext (some (record { jobs = m })) ri)
  with_map-Agreed (some m) ri h = record { at = ((λ k. refl), h) }
  with_map-Agreed none ri h = elim (c.wrote_lem (record { jobs = some [] }) ri.world) [
    | inl q ↦ record { at = ((λ k. q k ∙ h k), h) }
    | inr q ↦ record { at = (q, h) }
  ]

  assert_state-Agreed :
      (x : Current) (ri : RaftImpl W)
      → AfterRead agreed ri x
      → AfterGetState board ri (assert_state ext x ri)
  assert_state-Agreed (marshable none) ri h = record { at = ((λ k. refl), tt) }
  assert_state-Agreed (marshable (some s)) ri h = with_map-Agreed s.jobs ri h
  assert_state-Agreed other_type ri h = record { at = ((λ k. refl), tt) }

  NoJobs-moved : (v w : W) (e : Error) → board v ≗ board w → NoJobs board v e → NoJobs board w e
  NoJobs-moved v w e q h = elim (Bool-cases (is_no_state e)) [
    | inl y ↦ rw y (λ k. sym (q k) ∙ (rw y at h) k)
    | inr n ↦ rw n tt
  ]

  AfterRead-moved :
      (v w : W) (x : Current) → board v ≗ board w → AfterRead board w x → AfterRead board v x
  AfterRead-moved v w (marshable s) q h = λ k. h k ∙ sym (q k)
  AfterRead-moved v w other_type q h = tt

  AfterGetState-moved :
      (ri u : RaftImpl W) (o : Outcome (RaftImpl W) State)
      → agreed u ≗ agreed ri
      → AfterGetState board u o
      → AfterGetState board ri o
  AfterGetState-moved ri u o q h =
      Ensures-mono o h (λ v s p. ((λ k. p.0 k ∙ q k), (λ k. p.1 k ∙ q k)))
        (λ v e p. ((λ k. p.0 k ∙ q k), NoJobs-moved u.world ri.world e q p.1))

  pub get_state-Agreed : (ri : RaftImpl W) → AfterGetState board ri (get_state ext ri)
  unfolding get_state
  get_state-Agreed ri = elim (Bool-cases ri.consensus) [
    | inr n ↦ simp n (record { at = tt })
    | inl y ↦ simp y (
        Ensures-bind {Q = λ u x. (agreed u ≗ agreed ri) × AfterRead board ri.world x} _ _
          (Ensures-within _ (ext.get_current_state ri.world) (c.get_current_state_lem ri.world))
          λ u x h.
            AfterGetState-moved ri u _ h.0
              (assert_state-Agreed x u (AfterRead-moved u.world ri.world x h.0 h.1)))
  ]
