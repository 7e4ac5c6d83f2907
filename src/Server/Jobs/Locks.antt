-- ===== src/Server/Jobs/Locks.antt =====
-- The job handlers, and the entries that they leave alone.
use peerprint.Base.{
  ℕ, String, true, Option, none, some, ◌≡◌, ◌≢◌, inl, inr, sym, ◌∙◌, arith, ap, Bool-cases,
  Option-cases,
}
use peerprint.Base.Go.{
  Error, raft_get, on_delete_job, on_acquire_job, on_release_job, deref, wrap, pure, ◌>>=◌, ◌>>◌,
}
use peerprint.Base.Post.{
  Ensures, Returned, Ensures-ok, Ensures-err, Ensures-bind, Ensures-wrap, Ensures-mono,
}
use peerprint.Base.Dict.{lookup, insert, lookup-insert_ne, lookup-remove_ne}
use peerprint.Proto.Jobs.{Lock, Job, Jobs, State, get_jobs, get_id as get_job_id}
use peerprint.Raft.{Raft}
use peerprint.Raft.Contract.{Board, jobs_at, ◌≗◌, Contract}
use peerprint.Server.{Server, Env, call_raft}
use peerprint.Server.Jobs.{
  check_mutable, get_mutable_job, write_back, delete_job, set_lock, put_job, state_or_error,
  guard_existing, on_delete_job_request, on_acquire_job_request, on_release_job_request,
  on_set_job_request,
}
use peerprint.Server.Jobs.Mutable.{may_write, InRange, check_mutable-may_write}
use peerprint.Server.Jobs.Frame.{
  on_board, call_get, get_mutable_job-Found, Untouchable, Still, Same, Found-ne, write_commit,
}

pub delete_job_ne :
    (id k : String) (s : State) → id ≢ k → jobs_at (some (delete_job id s)) k ≡ jobs_at (some s) k
unfolding delete_job
delete_job_ne id k s h = elim (Option-cases s.jobs) [
  | inl e ↦ rw e
  | inr (m, e) ↦ rw e (lookup-remove_ne id k m h)
]

pub set_lock_ne :
    (id k : String) (j : Job) (l : Option Lock) (s : State)
    → id ≢ k
    → jobs_at (some (set_lock id j l s)) k ≡ jobs_at (some s) k
unfolding set_lock
set_lock_ne id k j l s h = elim (Option-cases s.jobs) [
  | inl e ↦ rw e
  | inr (m, e) ↦ rw e (lookup-insert_ne id k _ m h)
]

module _ {R : Type 0} (raft : Raft R) {board : R → Board} (c : Contract raft board) where
  -- A delete request leaves every entry alone that it may not touch.
  pub on_delete_job_request-Same :
      (env : Env) (topic from id k : String) (t : Server R)
      → InRange env.now
      → Untouchable raft c env.now from id k t
      → Returned (Same raft c k t) (on_delete_job_request raft env topic from id t)
  unfolding on_delete_job_request
  on_delete_job_request-Same env topic from id k t r h =
      Ensures-bind _ _
        (Ensures-wrap on_delete_job _ (
          Ensures-mono _ (get_mutable_job-Found raft c env.now id from t r) (λ u p f. f)
            (λ u e f. (f.0 k, f.1))))
        λ u p f.
          write_commit raft c k (delete_job id p.0) t u
            (delete_job_ne id k p.0 (Found-ne raft c k f h) ∙ f.same k)
            (f.unchanged.0 k, f.unchanged.1)

  relock-Same :
      (w : Error → Error) (env : Env) (from id k : String) (l : Option Lock) (t : Server R)
      → InRange env.now
      → Untouchable raft c env.now from id k t
      → Returned (Same raft c k t) (
          (wrap w (get_mutable_job raft env.now id from) >>= λ p.
          write_back raft (set_lock id p.1 l p.0)
          >> call_raft (raft.commit (some (set_lock id p.1 l p.0))))
            t)
  relock-Same w env from id k l t r h =
      Ensures-bind _ _
        (Ensures-wrap w _ (
          Ensures-mono _ (get_mutable_job-Found raft c env.now id from t r) (λ u p f. f)
            (λ u e f. (f.0 k, f.1))))
        λ u p f.
          write_commit raft c k (set_lock id p.1 l p.0) t u
            (set_lock_ne id k p.1 l p.0 (Found-ne raft c k f h) ∙ f.same k)
            (f.unchanged.0 k, f.unchanged.1)

  -- An acquire request leaves every entry alone that it may not touch.
  pub on_acquire_job_request-Same :
      (env : Env) (topic from id k : String) (t : Server R)
      → InRange env.now
      → Untouchable raft c env.now from id k t
      → Returned (Same raft c k t) (on_acquire_job_request raft env topic from id t)
  unfolding on_acquire_job_request
  on_acquire_job_request-Same env topic from id k t r h =
      relock-Same on_acquire_job env from id k _ t r h

  -- A release request leaves every entry alone that it may not touch.
  pub on_release_job_request-Same :
      (env : Env) (topic from id k : String) (t : Server R)
      → InRange env.now
      → Untouchable raft c env.now from id k t
      → Returned (Same raft c k t) (on_release_job_request raft env topic from id t)
  unfolding on_release_job_request
  on_release_job_request-Same env topic from id k t r h =
      relock-Same on_release_job env from id k none t r h

  -- where the guard of a set request lets it through, its id is not the untouchable one
  guard_existing-ne :
      (now : ℕ) (from id k : String) (req : Option Job) (t u : Server R) (o : Option (Option Job))
      → InRange now
      → Untouchable raft c now from id k t
      → Still raft c t u
      → on_board raft c t id ≡ o
      → Ensures
          (λ v j. Same raft c k t v × (id ≢ k))
          (λ v e. Same raft c k t v)
          (guard_existing now from req o u)
  unfolding guard_existing
  guard_existing-ne now from id k req t u none r h b e = Ensures-ok u req ((b.0 k, b.1), absent h)
    where
      absent : Untouchable raft c now from id k t → id ≢ k
      absent (inl p) = p
      absent (inr (j, here, denied)) = λ p. ground (arith, ap (on_board raft c t) p)
  guard_existing-ne now from id k req t u (some none) r h b e = record {
    at = unfold check_mutable in tt;
  }
  guard_existing-ne now from id k req t u (some (some j)) r h b e =
      rw (check_mutable-may_write now j from u r) (elim (Bool-cases (may_write now from j)) [
        | inl y ↦ rw y (kept req (λ p. writable y h p))
        | inr n ↦ rw n (Ensures-err u _ (b.0 k, b.1))
      ])
    where
      writable : may_write now from j ≡ true → Untouchable raft c now from id k t → id ≢ k
      writable y (inl p) = p
      writable y (inr (i, here, denied)) = λ p. ground (arith, ap (on_board raft c t) p)

      kept :
          (q : Option Job)
          → id ≢ k
          → Ensures
              (λ v j. Same raft c k t v × (id ≢ k))
              (λ v e. Same raft c k t v)
              ((deref q >>= λ job. pure (some (record job { lock = j.lock }))) u)
      kept none p = record { at = tt }
      kept (some q) p = Ensures-ok u _ ((b.0 k, b.1), p)

  store_job-Same :
      (id k : String) (m : Option Jobs) (t u : Server R) (j : Option Job)
      → jobs_at (some (record { jobs = m })) k ≡ on_board raft c t k
      → Same raft c k t u
      → id ≢ k
      → Returned (Same raft c k t) (
          (put_job id j (record { jobs = m }) >>= λ s'.
          write_back raft s' >> call_raft (raft.commit (some s')))
            u)
  unfolding put_job
  store_job-Same id k none t u j e b ne = record { at = tt }
  store_job-Same id k (some m) t u j e b ne =
      write_commit raft c k (record { jobs = some (insert id j m) }) t u
        (lookup-insert_ne id k j m ne ∙ e) b

  -- A set request leaves every entry alone that it may not touch.
  pub on_set_job_request-Same :
      (env : Env) (topic from k : String) (req : Option Job) (t : Server R)
      → InRange env.now
      → Untouchable raft c env.now from (get_job_id req) k t
      → Returned (Same raft c k t) (on_set_job_request raft env topic from req t)
  unfolding on_set_job_request
  on_set_job_request-Same env topic from k req t r h =
      Ensures-bind _ _
        (Ensures-wrap raft_get _
          (Ensures-mono _ (call_get raft c t) (λ u p f. f) (λ u e f. (f.0 k, f.1))))
        found
    where
      id : String
      id = get_job_id req

      found :
          (u : Server R) (p : Option State)
          → Still raft c t u × (jobs_at p ≗ on_board raft c t)
          → Returned (Same raft c k t) (
              (state_or_error p >>= λ s.
              guard_existing env.now from req (lookup id (get_jobs s)) >>= λ job.
              put_job id job s >>= λ s'. write_back raft s' >> call_raft (raft.commit (some s')))
                u)
      found u none q = Ensures-err u _ (q.0.0 k, q.0.1)
      found u (some s) q =
          Ensures-bind _ _
            (guard_existing-ne env.now from id k req t u (lookup id (get_jobs s)) r h q.0
              (sym (q.1 id)))
            λ v j g. store_job-Same id k s.jobs t v j (q.1 k) g.0 g.1
