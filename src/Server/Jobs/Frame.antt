-- ===== src/Server/Jobs/Frame.antt =====
-- What a job request may change, over every implementation of `Raft` that keeps its contract.
use peerprint.Base.{
  ℕ, String, true, false, Option, none, some, ◌≡◌, ◌≢◌, ◌⊎◌, inl, inr, refl, sym, ◌∙◌, arith, ap,
  Bool-cases,
}
use peerprint.Base.Go.{raft_get, job_not_found, deref, ◌>>=◌, ◌>>◌}
use peerprint.Base.Post.{
  Ensures, Returned, Ensures-ok, Ensures-err, Ensures-bind, Ensures-wrap, Ensures-within,
  Ensures-mono,
}
use peerprint.Base.Dict.{lookup}
use peerprint.Proto.Jobs.{Job, State, get_jobs}
use peerprint.Raft.{Raft}
use peerprint.Raft.Contract.{Board, jobs_at, ◌≗◌, Contract}
use peerprint.Server.{Server, get_id, call_raft}
use peerprint.Server.Jobs.{check_mutable, check_found, get_mutable_job, write_back}
use peerprint.Server.Jobs.Mutable.{may_write, InRange, check_mutable-may_write}

module _ {R : Type 0} (raft : Raft R) {board : R → Board} (c : Contract raft board) where
  abbrev pub on_board : Server R → Board
  on_board t = board t.raft

  -- no entry changed, and the server is still itself
  abbrev pub Still : Server R → Server R → Type 0
  Still t u = (on_board u ≗ on_board t) × (get_id u ≡ get_id t)

  -- the entry of `k` did not change, and the server is still itself
  abbrev pub Same : String → Server R → Server R → Type 0
  Same k t u = (on_board u k ≡ on_board t k) × (get_id u ≡ get_id t)

  pub call_get :
      (t : Server R)
      → Ensures
          (λ u s. Still t u × (jobs_at s ≗ on_board t))
          (λ u e. Still t u)
          (call_raft raft.get t)
  call_get t =
      Ensures-within (λ r. record t { raft = r }) (raft.get t.raft)
        (Ensures-mono _ (c.get_lem t.raft) (λ r s h. ((h.0, refl), h.1)) (λ r e h. (h, refl)))

  -- what `getMutableJob` has found when it returns a job
  pub record Found (now : ℕ) (jid peer : String) (t u : Server R) (p : State × Job) : Type 0 where
    pub unchanged : Still t u
    pub same : jobs_at (some p.0) ≗ on_board t
    pub entry : on_board t jid ≡ some (some p.1)
    pub allowed : may_write now peer p.1 ≡ true

  check_found-Found :
      (now : ℕ) (jid peer : String) (t u : Server R) (s : State) (o : Option (Option Job))
      → InRange now
      → Still t u
      → jobs_at (some s) ≗ on_board t
      → on_board t jid ≡ o
      → Ensures (Found now jid peer t) (λ u e. Still t u) (check_found now peer s o u)
  unfolding check_found
  check_found-Found now jid peer t u s none r b v e = Ensures-err u job_not_found b
  check_found-Found now jid peer t u s (some none) r b v e = record {
    at = unfold check_mutable in tt;
  }
  check_found-Found now jid peer t u s (some (some j)) r b v e =
      rw (check_mutable-may_write now j peer u r) (elim (Bool-cases (may_write now peer j)) [
        | inl y ↦
            rw y (Ensures-ok u (s, j) (record { unchanged = b; same = v; entry = e; allowed = y }))
        | inr n ↦ rw n (Ensures-err u _ b)
      ])

  pub get_mutable_job-Found :
      (now : ℕ) (jid peer : String) (t : Server R)
      → InRange now
      → Ensures (Found now jid peer t) (λ u e. Still t u) (get_mutable_job raft now jid peer t)
  unfolding get_mutable_job
  get_mutable_job-Found now jid peer t r =
      Ensures-bind _ _ (Ensures-wrap raft_get _ (call_get t)) found
    where
      found :
          (u : Server R) (p : Option State)
          → Still t u × (jobs_at p ≗ on_board t)
          → Ensures
              (Found now jid peer t)
              (λ u e. Still t u)
              ((deref p >>= λ s. check_found now peer s (lookup jid (get_jobs s))) u)
      found u none q = record { at = tt }
      found u (some s) q =
          check_found-Found now jid peer t u s (lookup jid (get_jobs s)) r q.0 q.1 (sym (q.1 jid))

  -- The request names another id, or its sender may not write to the job of this id.
  abbrev pub Untouchable : ℕ → String → String → String → Server R → Type 0
  Untouchable now peer id k t =
      (id ≢ k) ⊎ ((j : Job) × (on_board t k ≡ some (some j)) × (may_write now peer j ≡ false))

  pub Found-ne :
      {now : ℕ} {id peer : String} (k : String) {t u : Server R} {p : State × Job}
      → Found now id peer t u p
      → Untouchable now peer id k t
      → id ≢ k
  Found-ne k f (inl h) = h
  Found-ne {id = id} k {t} f (inr (j, here, denied)) =
      λ e. ground (arith, ap (on_board t) e, f.entry, f.allowed)

  pub write_commit :
      (k : String) (s : State) (t u : Server R)
      → jobs_at (some s) k ≡ on_board t k
      → Same k t u
      → Returned (Same k t) ((write_back raft s >> call_raft (raft.commit (some s))) u)
  write_commit k s t u e b = Ensures-within _ _ (
      Ensures-mono _ (c.commit_lem (some s) (raft.wrote s u.raft)) (λ r a h. (after r h, b.1))
        (λ r a h. (after r h, b.1)))
    where
      wrote : board (raft.wrote s u.raft) k ≡ on_board t k
      wrote = elim (c.wrote_lem s u.raft) [ inl h ↦ h k ∙ e | inr h ↦ h k ∙ b.0 ]

      after :
          (r : R)
          → (board r ≗ jobs_at (some s)) ⊎ (board r ≗ board (raft.wrote s u.raft))
          → board r k ≡ on_board t k
      after r (inl h) = h k ∙ e
      after r (inr h) = h k ∙ wrote
