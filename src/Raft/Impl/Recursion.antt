-- ===== src/Raft/Impl/Recursion.antt =====
-- `Get`, `bootstrapState` and `Commit` of `RaftImpl` (raft.go), which call one another.
use peerprint.Base.{
  ℕ, zero, suc, true, false, Option, none, some, [], ◌≡◌, refl, Option-cases, inl, inr, Bool-cases,
}
use peerprint.Base.Go.{
  Go, Outcome, ok, err, halt, Attempt, failed, succeeded, no_state, out_of_fuel, bootstrap,
  attempt_outcome,
}
use peerprint.Base.Post.{Ensures, Ensures-bind, Ensures-wrap}
use peerprint.Proto.Jobs.{State, Jobs}
use peerprint.Raft.Impl.{
  RaftImpl, get, get_state, assert_state, with_jobs, got, commit, commit_then, is_no_state, outside,
  set_pointer,
}
use peerprint.Raft.External.{External, Current, marshable, other_type}

-- `ri` with the pointers that `setup` sets
abbrev pub running : {W : Type 0} → RaftImpl W → RaftImpl W
running ri = record ri { transport = true; consensus = true; raft = true }

-- a state whose map is not nil
abbrev pub HasMap : Option State → Type 0
HasMap none = ⊥
HasMap (some s) = (m : Jobs) × (s.jobs ≡ some m)

module _ {W : Type 0} (ext : External W) where
  -- On a follower that holds no state, as long as the libraries' answers to that stay the same,
  -- `Get` calls itself for ever: no fuel is enough for it.
  pub get-diverges :
      (n : ℕ) (ri : RaftImpl W)
      → ext.get_current_state ri.world ≡ err ri.world no_state
      → ext.is_leader ri.world ≡ ok ri.world false
      → get ext n (running ri) ≡ halt out_of_fuel
  unfolding get get_state commit_then
  get-diverges zero ri e f = refl
  get-diverges (suc n) ri e f = rw (e, f, get-diverges n ri e f)

  trivially : {S A : Type 0} (o : Outcome S A) → Ensures (λ s a. Unit {0}) (λ s e. Unit {0}) o
  trivially (ok s a) = record { at = tt }
  trivially (err s e) = record { at = tt }
  trivially (halt x) = record { at = tt }

  with_jobs-HasMap :
      (s : Option State) (ri : RaftImpl W)
      → Ensures (λ _ s. HasMap (some s)) (λ _ e. Unit {0}) (with_jobs ext s ri)
  with_jobs-HasMap none ri = record { at = tt }
  with_jobs-HasMap (some s) ri = elim (Option-cases s.jobs) [
    | inl e ↦ rw e (record { at = ([], refl) })
    | inr (m, e) ↦ rw e (record { at = (m, refl) })
  ]

  assert_state-HasMap :
      (c : Current) (ri : RaftImpl W)
      → Ensures (λ _ s. HasMap (some s)) (λ _ e. Unit {0}) (assert_state ext c ri)
  assert_state-HasMap (marshable s) ri = with_jobs-HasMap s ri
  assert_state-HasMap other_type ri = record { at = tt }

  get_state-HasMap :
      (ri : RaftImpl W) → Ensures (λ _ s. HasMap (some s)) (λ _ e. Unit {0}) (get_state ext ri)
  unfolding get_state
  get_state-HasMap ri = Ensures-bind _ _ (trivially (set_pointer ri.consensus ri)) λ u _ _.
      Ensures-bind _ _ (trivially (outside ext.get_current_state u))
        λ v c _. assert_state-HasMap c v

  abbrev OfAttempt : Attempt State → Type 0
  OfAttempt (failed e) = Unit
  OfAttempt (succeeded s) = HasMap (some s)

  attempt-HasMap :
      (o : Outcome (RaftImpl W) State)
      → Ensures (λ _ s. HasMap (some s)) (λ _ e. Unit {0}) o
      → Ensures (λ _ r. OfAttempt r) (λ _ e. Unit {0}) (attempt_outcome o)
  attempt-HasMap (ok s a) h = record { at = h.at }
  attempt-HasMap (err s e) h = record { at = tt }
  attempt-HasMap (halt x) h = record { at = tt }

  commit_then-HasMap :
      (m : Go (RaftImpl W) (Option State)) (s : Option State) (ri : RaftImpl W)
      → ((u : RaftImpl W) → Ensures (λ _ s. HasMap s) (λ _ e. Unit {0}) (m u))
      → Ensures (λ _ s. HasMap s) (λ _ e. Unit {0}) (commit_then ext m s ri)
  unfolding commit_then
  commit_then-HasMap m s ri h = Ensures-bind _ _ (trivially (set_pointer ri.raft ri)) λ u _ _.
      Ensures-bind _ _ (trivially (outside ext.is_leader u))
        λ v l _. Ensures-bind _ _ (trivially _) λ x _ _. h x

  got-HasMap :
      (m : Go (RaftImpl W) (Option State)) (r : Attempt State) (ri : RaftImpl W)
      → OfAttempt r
      → ((u : RaftImpl W) → Ensures (λ _ s. HasMap s) (λ _ e. Unit {0}) (m u))
      → Ensures (λ _ s. HasMap s) (λ _ e. Unit {0}) (got ext m r ri)
  got-HasMap m (succeeded s) ri a h = record { at = a }
  got-HasMap m (failed e) ri a h = elim (Bool-cases (is_no_state e)) [
    | inl y ↦ rw y (Ensures-wrap bootstrap _ (commit_then-HasMap m _ ri h))
    | inr n ↦ rw n (record { at = tt })
  ]

  get-HasMap :
      (n : ℕ) (ri : RaftImpl W) → Ensures (λ _ s. HasMap s) (λ _ e. Unit {0}) (get ext n ri)
  unfolding get
  get-HasMap zero ri = record { at = tt }
  get-HasMap (suc n) ri =
      Ensures-bind _ _ (attempt-HasMap _ (get_state-HasMap ri))
        λ u r a. got-HasMap (get ext n) r u a (get-HasMap n)

  -- On any fuel and whatever the libraries return, where `Commit` returns no error it returns a
  -- state, and one whose map is not nil.
  pub commit-HasMap :
      (n : ℕ) (s : Option State) (ri : RaftImpl W)
      → Ensures (λ _ s. HasMap s) (λ _ e. Unit {0}) (commit ext n s ri)
  unfolding commit
  commit-HasMap n s ri = commit_then-HasMap (get ext n) s ri (get-HasMap n)
