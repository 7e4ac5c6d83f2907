-- ===== src/Server/Jobs/Rulings.antt =====
-- The job handlers against a table of rulings: what becomes of the one entry that a request names,
-- given what it holds, who asks and when. The table knows no pointers, maps, errors of the store or
-- wrap-around.
use peerprint.Base.{
  ℕ, String, Option, none, some, ◌≡◌, inl, inr, refl, ◌%◌, ◌^◌, Bool-cases, str_eq, arith,
  if◌then◌else◌,
}
use peerprint.Base.Go.{
  Go, Outcome, ok, err, Error, job_not_found, access_denied, on_delete_job, on_acquire_job,
  on_release_job,
}
use peerprint.Base.Dict.{lookup, insert, remove, lookup-insert, lookup-remove}
use peerprint.Proto.Jobs.{Job, Jobs, State, get_peer}
use peerprint.Raft.{Raft}
use peerprint.Server.{Server, Env, call_raft}
use peerprint.Server.Jobs.{
  on_set_job_request, on_delete_job_request, on_acquire_job_request, on_release_job_request,
}
use peerprint.Server.Jobs.Mutable.{may_write, InRange, check_mutable-may_write}

pub data JobRequest : Type 0 where
  set : Job → JobRequest
  delete acquire release : String → JobRequest

abbrev pub named : JobRequest → String
named (set j) = j.id
named (delete id) = id
named (acquire id) = id
named (release id) = id

-- the entry after the request, or the error
pub data Ruling : Type 0 where
  entry : Option Job → Ruling
  refuse : Error → Ruling

abbrev pub denial : String → Job → Error
denial from j = access_denied from j.id (get_peer j.lock)

abbrev pub ruling : ℕ → String → JobRequest → Option Job → Ruling
ruling now from (set new) none = entry (some new)
ruling now from (set new) (some old) =
    if may_write now from old
    then entry (some (record new { lock = old.lock }))
    else refuse (denial from old)
ruling now from (delete id) none = refuse (on_delete_job job_not_found)
ruling now from (delete id) (some old) =
    if may_write now from old then entry none else refuse (on_delete_job (denial from old))
ruling now from (acquire id) none = refuse (on_acquire_job job_not_found)
ruling now from (acquire id) (some old) =
    if may_write now from old
    then entry (some (record old { lock = some (record { peer = from; created = now }) }))
    else refuse (on_acquire_job (denial from old))
ruling now from (release id) none = refuse (on_release_job job_not_found)
ruling now from (release id) (some old) =
    if may_write now from old
    then entry (some (record old { lock = none }))
    else refuse (on_release_job (denial from old))

abbrev pub stored : Option Job → Option (Option Job)
stored none = none
stored (some j) = some (some j)

module _ {R : Type 0} (raft : Raft R) where
  -- the handler of the request's type
  abbrev pub serve : Env → String → String → JobRequest → Go (Server R) (Option State)
  serve env topic from (set j) = on_set_job_request raft env topic from (some j)
  serve env topic from (delete id) = on_delete_job_request raft env topic from id
  serve env topic from (acquire id) = on_acquire_job_request raft env topic from id
  serve env topic from (release id) = on_release_job_request raft env topic from id

  -- The map `m` is written to the object that `get` returned, and committed.
  abbrev pub commit_jobs : Jobs → R → Server R → Outcome (Server R) (Option State)
  commit_jobs m r t =
      let s : State = record { jobs = some m } in
      call_raft (raft.commit (some s)) (record t { raft = raft.wrote s r })

  -- Either the error, with nothing written or committed, or the commit of a map in which the named
  -- entry, and no other, is as ruled.
  abbrev pub Obeys :
      String → Jobs → R → Server R → Ruling → Outcome (Server R) (Option State) → Type 0
  Obeys id m r t (refuse e) o = o ≡ err (record t { raft = r }) e
  Obeys id m r t (entry e) o =
      (m' : Jobs) × (o ≡ commit_jobs m' r t)
      × ((k : String) → lookup k m' ≡ (if str_eq id k then stored e else lookup k m))

  module _ (env : Env) (topic from : String) (t : Server R) (r : R) (m : Jobs)
      (in_range : InRange env.now)
      (got : raft.get t.raft ≡ ok r (some (record { jobs = some m }))) where
    delete-Obeys :
        (id : String) (e : Option Job)
        → lookup id m ≡ stored e
        → Obeys id m r t
            (ruling env.now from (delete id) e)
            (on_delete_job_request raft env topic from id t)
    unfolding on_delete_job_request
    delete-Obeys id none h = rw (got, h)
    delete-Obeys id (some old) h =
        rw (got, h)
          (rw (check_mutable-may_write env.now old from _ in_range)
            (elim (Bool-cases (may_write env.now from old)) [
              | inl y ↦ rw y (remove id m, refl, λ k. lookup-remove id k m)
              | inr n ↦ rw n
            ]))

    acquire-Obeys :
        (id : String) (e : Option Job)
        → lookup id m ≡ stored e
        → Obeys id m r t
            (ruling env.now from (acquire id) e)
            (on_acquire_job_request raft env topic from id t)
    unfolding on_acquire_job_request
    acquire-Obeys id none h = rw (got, h)
    acquire-Obeys id (some old) h =
        let wide : env.now % 2 ^ 64 ≡ env.now = omega (arith, in_range.is_int64) in
        rw (got, h)
          (rw (check_mutable-may_write env.now old from _ in_range)
            (elim (Bool-cases (may_write env.now from old)) [
              | inl y ↦ rw (y, wide) (insert id _ m, refl, λ k. lookup-insert id k _ m)
              | inr n ↦ rw n
            ]))

    release-Obeys :
        (id : String) (e : Option Job)
        → lookup id m ≡ stored e
        → Obeys id m r t
            (ruling env.now from (release id) e)
            (on_release_job_request raft env topic from id t)
    unfolding on_release_job_request
    release-Obeys id none h = rw (got, h)
    release-Obeys id (some old) h =
        rw (got, h)
          (rw (check_mutable-may_write env.now old from _ in_range)
            (elim (Bool-cases (may_write env.now from old)) [
              | inl y ↦ rw y (insert id _ m, refl, λ k. lookup-insert id k _ m)
              | inr n ↦ rw n
            ]))

    set-Obeys :
        (new : Job) (e : Option Job)
        → lookup new.id m ≡ stored e
        → Obeys new.id m r t
            (ruling env.now from (set new) e)
            (on_set_job_request raft env topic from (some new) t)
    unfolding on_set_job_request
    set-Obeys new none h = rw (got, h) (insert new.id _ m, refl, λ k. lookup-insert new.id k _ m)
    set-Obeys new (some old) h =
        rw (got, h)
          (rw (check_mutable-may_write env.now old from _ in_range)
            (elim (Bool-cases (may_write env.now from old)) [
              | inl y ↦ rw y (insert new.id _ m, refl, λ k. lookup-insert new.id k _ m)
              | inr n ↦ rw n
            ]))

    -- On a store that returns the map `m`, at a clock in range, where the named entry is no nil
    -- pointer: a set request that carries a job, or a delete, acquire or release request, returns the
    -- error of its ruling, with nothing written or committed, or commits a map that differs from `m`
    -- in the named entry alone, which is as ruled. Where there is no entry, a set request is granted,
    -- and the others are refused, delete too.
    pub serve-Obeys :
        (req : JobRequest) (e : Option Job)
        → lookup (named req) m ≡ stored e
        → Obeys (named req) m r t (ruling env.now from req e) (serve env topic from req t)
    serve-Obeys (set new) e h = set-Obeys new e h
    serve-Obeys (delete id) e h = delete-Obeys id e h
    serve-Obeys (acquire id) e h = acquire-Obeys id e h
    serve-Obeys (release id) e h = release-Obeys id e h
