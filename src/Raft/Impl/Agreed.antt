-- ===== src/Raft/Impl/Agreed.antt =====
-- `RaftImpl` (raft.go) as a store of jobs: its board is the one that the cluster has agreed on.
use peerprint.Base.{
  ℕ, zero, suc, Bool, true, false, Option, none, some, [], ◌⊎◌, inl, inr, refl, sym, ◌∙◌,
  if◌then◌else◌, Bool-cases,
}
use peerprint.Base.Go.{
  pure, fail, not_agreed, ◌>>=◌, Go, Outcome, ok, err, halt, Attempt, failed, succeeded, bootstrap,
  attempt_outcome,
}
use peerprint.Base.Post.{
  Returned, Ensures, Ensures-bind, Ensures-wrap, Ensures-within, Ensures-mono,
}
use peerprint.Base.Dict.{lookup}
use peerprint.Base.Keeps.{Keeps-if, Keeps-pure, Keeps-fail}
use peerprint.Proto.Jobs.{State}
use peerprint.Raft.Contract.{Board, jobs_at, ◌≗◌, AfterGet, Contract}
use peerprint.Raft.External.{External}
use peerprint.Raft.Impl.{RaftImpl, raft_impl, outside, get, commit, commit_then, got, is_no_state}
use peerprint.Raft.Impl.Steady.{set_pointer-Keeps, connect-Keeps, leader-Keeps}
use peerprint.Raft.Consensus.{Consensus}
use peerprint.Raft.Impl.Reads.{
  Holds, AfterGetState, OfAttempt, same, get_state-Agreed, Holds-MemberCalls, Holds-SetupCalls,
}

module _ {W : Type 0} (ext : External W) (board : W → Board) (c : Consensus ext board) where
  abbrev agreed : RaftImpl W → Board
  agreed ri = board ri.world

  -- the agreed jobs are those committed, or stay
  abbrev Either : Option State → RaftImpl W → RaftImpl W → Type 0
  Either s ri u = (agreed u ≗ jobs_at s) ⊎ (agreed u ≗ agreed ri)

  Either-moved :
      (s : Option State) (ri u v : RaftImpl W) → agreed v ≗ agreed u → Either s ri u → Either s ri v
  Either-moved s ri u v q (inl h) = inl (λ k. q k ∙ h k)
  Either-moved s ri u v q (inr h) = inr (λ k. q k ∙ h k)

  Either-from :
      (s : Option State) (ri u v : RaftImpl W) → agreed u ≗ agreed ri → Either s u v → Either s ri v
  Either-from s ri u v q (inl h) = inl h
  Either-from s ri u v q (inr h) = inr (λ k. h k ∙ q k)

  abbrev agree : Option State → Bool → Go (RaftImpl W) (Unit {0})
  agree s l =
      if l
      then (do a ← outside (ext.commit_state s); if a then pure tt else fail not_agreed)
      else pure tt

  agree-Either :
      (s : Option State) (l : Bool) (ri : RaftImpl W) → Returned (Either s ri) (agree s l ri)
  agree-Either s false ri = record { at = inr (λ k. refl) }
  agree-Either s true ri =
      Ensures-bind {Q = λ u _. Either s ri u} _ _
        (Ensures-within _ (ext.commit_state s ri.world) (c.commit_state_lem s ri.world))
        λ u a h. (Keeps-if a (Keeps-pure tt) (Keeps-fail not_agreed)).at u h

  -- after `Commit`, where the call of `Get` at its end comes back with the agreed jobs
  commit_then-Agreed :
      (m : Go (RaftImpl W) (Option State)) (s : Option State) (ri : RaftImpl W)
      → ((u : RaftImpl W) → AfterGet agreed u (m u))
      → Ensures
          (λ v x. Either s ri v × (jobs_at x ≗ agreed v))
          (λ v e. Either s ri v)
          (commit_then ext m s ri)
  unfolding commit_then
  commit_then-Agreed m s ri h =
      Ensures-bind {Q = λ u _. Holds board (agreed ri) u} _ _
        (stays _ ((set_pointer-Keeps ri.raft).at ri (λ k. refl)))
        λ u _ p.
          Ensures-bind {Q = λ u _. Holds board (agreed ri) u} _ _
            (stays _ ((same ext board c (agreed ri) ext.is_leader c.is_leader_lem).at u p))
            λ v l q.
              Ensures-bind {Q = λ u _. Either s ri u} _ _
                (Ensures-mono _ (agree-Either s l v) (λ w a. Either-from s ri v w q)
                  (λ w e. Either-from s ri v w q))
                λ w _ k.
                  Ensures-mono _ (h w)
                    (λ x y g. (Either-moved s ri w x g.0 k, λ i. g.1 i ∙ sym (g.0 i)))
                    (λ x e g. Either-moved s ri w x g k)
    where
      stays :
          {A : Type 0} (o : Outcome (RaftImpl W) A)
          → Returned (Holds board (agreed ri)) o
          → Ensures (λ u _. Holds board (agreed ri) u) (λ u e. Either s ri u) o
      stays o r = Ensures-mono o r (λ u a p. p) (λ u e p. inr p)

  -- the empty map is what a store with no state holds already
  bootstrapped :
      (ri u v : RaftImpl W)
      → agreed ri ≗ jobs_at none
      → agreed u ≗ agreed ri
      → Either (some (record { jobs = some [] })) u v
      → agreed v ≗ agreed ri
  unfolding lookup
  bootstrapped ri u v empty q (inl h) = λ k. h k ∙ sym (empty k)
  bootstrapped ri u v empty q (inr h) = λ k. h k ∙ q k

  got-Agreed :
      (m : Go (RaftImpl W) (Option State)) (r : Attempt State) (ri u : RaftImpl W)
      → ((v : RaftImpl W) → AfterGet agreed v (m v))
      → agreed u ≗ agreed ri
      → OfAttempt board ri r
      → AfterGet agreed ri (got ext m r u)
  got-Agreed m (succeeded s) ri u h q p = record { at = (q, p) }
  got-Agreed m (failed e) ri u h q p = elim (Bool-cases (is_no_state e)) [
    | inr n ↦ rw n (record { at = q })
    | inl y ↦ rw y (
        Ensures-wrap bootstrap _ (
          Ensures-mono _ (commit_then-Agreed m (some (record { jobs = some [] })) u h)
            (λ v x k. (
              bootstrapped ri u v (rw y at p) q k.0,
              λ i. k.1 i ∙ bootstrapped ri u v (rw y at p) q k.0 i,
            ))
            (λ v x k. bootstrapped ri u v (rw y at p) q k)))
  ]

  attempt-Agreed :
      (ri : RaftImpl W) (o : Outcome (RaftImpl W) State)
      → AfterGetState board ri o
      → Ensures
          (λ u r. (agreed u ≗ agreed ri) × OfAttempt board ri r)
          (λ u e. agreed u ≗ agreed ri)
          (attempt_outcome o)
  attempt-Agreed ri (ok s a) h = record { at = h.at }
  attempt-Agreed ri (err s e) h = record { at = h.at }
  attempt-Agreed ri (halt x) h = record { at = tt }

  get-Agreed : (n : ℕ) (ri : RaftImpl W) → AfterGet agreed ri (get ext n ri)
  unfolding get
  get-Agreed zero ri = record { at = tt }
  get-Agreed (suc n) ri =
      Ensures-bind _ _ (attempt-Agreed ri _ (get_state-Agreed ext board c ri))
        λ u r h. got-Agreed (get ext n) r ri u (get-Agreed n) h.0 h.1

  -- `RaftImpl`, over libraries that keep to `Consensus`, keeps the contract on which the theorems on
  -- jobs rest, on any fuel: its board is the agreed one, `Get` returns it and changes nothing, and
  -- after a `Commit` it is the committed one or the one before.
  pub raft_impl-Contract : (n : ℕ) → Contract (raft_impl ext n) (λ ri. board ri.world)
  unfolding raft_impl commit
  raft_impl-Contract n = record {
    get_lem = get-Agreed n;
    commit_lem = λ s ri.
        Ensures-mono _ (commit_then-Agreed (get ext n) s ri (get-Agreed n)) (λ v x h. h.0)
          (λ v e h. h);
    wrote_lem = λ s ri. c.wrote_lem s ri.world;
    leader_lem =
        λ ri. (leader-Keeps ext (Holds-MemberCalls ext board c (agreed ri))).at ri (λ k. refl);
    set_leader_lem = λ l ri. record { at = λ k. refl };
    addr_info_lem = λ ri. record { at = λ k. refl };
    connect_lem = λ a ri.
        (connect-Keeps ext (Holds-MemberCalls ext board c (agreed ri))
            (Holds-SetupCalls ext board c (agreed ri)) a).at
          ri (λ k. refl);
  }
