-- ===== src/Server/Jobs.antt =====
-- The job handlers of handlers.go, with `checkMutable` and `getMutableJob` of server.go.
pub mod Mutable
pub mod Frame
pub mod Locks
pub mod Rulings
pub mod Tables
pub mod NilJob
use peerprint.Base.{
  ℕ, String, Option, none, some, ◌+◌, ◌-◌, ◌%◌, ◌^◌, ◌||◌, ltb, str_eq, if◌then◌else◌,
}
use peerprint.Base.Go.{
  Go, pure, fail, stop, modify, wrap, deref, nil_map_write, raft_get, raft_get_nil, access_denied,
  job_not_found, on_delete_job, on_acquire_job, on_release_job, ◌>>=◌, ◌>>◌,
}
use peerprint.Base.Dict.{lookup, insert, remove}
use peerprint.Proto.Jobs.{Lock, Job, State, get_peer, get_jobs, get_id as get_job_id}
use peerprint.Raft.{Raft}
use peerprint.Server.{Env, Server, lock_timeout_seconds, call_raft}

-- uint64(time.Now().Unix() - LockTimeoutSeconds)
unfoldable pub expiry : ℕ → ℕ
expiry now = (now + 2 ^ 64 - lock_timeout_seconds) % 2 ^ 64

-- `||` stops at the first test that holds, so the lock is read only if it names a peer
unfoldable pub check_mutable : {S : Type 0} → ℕ → Option Job → String → Go S (Unit {0})
unfolding expiry
check_mutable now j peer = do
  job ← deref j
  let p = get_peer job.lock
  if str_eq p "" || str_eq p peer then pure tt else do
    l ← deref job.lock
    if ltb l.created (expiry now)
        then pure tt
        else fail (access_denied peer job.id (get_peer job.lock))

-- s.Jobs[k] = v, where a nil map panics
unfoldable pub put_job : {S : Type 0} → String → Option Job → State → Go S State
put_job k j s = elim s.jobs [
  | none ↦ stop nil_map_write
  | some m ↦ pure (record { jobs = some (insert k j m) })
]

-- delete(s.Jobs, k), which does nothing to a nil map
unfoldable pub delete_job : String → State → State
delete_job k s = elim s.jobs [
  | none ↦ record { jobs = none }
  | some m ↦ record { jobs = some (remove k m) }
]

-- `Lock` of the job that a request brings
unfoldable pub with_lock : Option Lock → Option Job → Option Job
with_lock l none = none
with_lock l (some j) = some (record j { lock = l })

-- j.Lock = l, through the pointer that the map holds
unfoldable pub set_lock : String → Job → Option Lock → State → State
set_lock id j l s = elim s.jobs [
  | none ↦ record { jobs = none }
  | some m ↦ record { jobs = some (insert id (some (record j { lock = l })) m) }
]

-- the part of `getMutableJob` after the lookup
unfoldable pub check_found :
    {S : Type 0} → ℕ → String → State → Option (Option Job) → Go S (State × Job)
unfolding check_mutable
check_found now peer s none = fail job_not_found
check_found now peer s (some j) = do check_mutable now j peer; job ← deref j; pure (s, job)

-- `err != nil || s == nil`
abbrev pub state_or_error : {S : Type 0} → Option State → Go S State
state_or_error none = fail raft_get_nil
state_or_error (some s) = pure s

-- the lock check and the kept lock, where a job of that id exists
unfoldable pub guard_existing :
    {S : Type 0} → ℕ → String → Option Job → Option (Option Job) → Go S (Option Job)
unfolding check_mutable with_lock
guard_existing now from req none = pure req
guard_existing now from req (some j) = do
  check_mutable now j from
  job ← deref req
  old ← deref j
  pure (some (record job { lock = old.lock }))

module _ {R : Type 0} (raft : Raft R) where
  -- the object that `get` returned now holds `s`
  abbrev pub write_back : State → Go (Server R) (Unit {0})
  write_back s = modify λ t. record t { raft = raft.wrote s t.raft }

  unfoldable pub get_mutable_job : ℕ → String → String → Go (Server R) (State × Job)
  unfolding check_found
  get_mutable_job now jid peer = do
    p ← wrap raft_get (call_raft raft.get)
    s ← deref p
    check_found now peer s (lookup jid (get_jobs s))

  unfoldable pub on_set_job_request :
      Env → String → String → Option Job → Go (Server R) (Option State)
  unfolding guard_existing put_job
  on_set_job_request env topic from req = do
    p ← wrap raft_get (call_raft raft.get)
    s ← state_or_error p
    job ← guard_existing env.now from req (lookup (get_job_id req) (get_jobs s))
    s' ← put_job (get_job_id req) job s
    write_back s'
    call_raft (raft.commit (some s'))

  unfoldable pub on_delete_job_request :
      Env → String → String → String → Go (Server R) (Option State)
  unfolding get_mutable_job delete_job
  on_delete_job_request env topic from id = do
    (s, j) ← wrap on_delete_job (get_mutable_job env.now id from)
    let s' = delete_job id s
    write_back s'
    call_raft (raft.commit (some s'))

  unfoldable pub on_acquire_job_request :
      Env → String → String → String → Go (Server R) (Option State)
  unfolding get_mutable_job set_lock
  on_acquire_job_request env topic from id = do
    (s, j) ← wrap on_acquire_job (get_mutable_job env.now id from)
    let s' = set_lock id j (some (record { peer = from; created = env.now % 2 ^ 64 })) s
    write_back s'
    call_raft (raft.commit (some s'))

  unfoldable pub on_release_job_request :
      Env → String → String → String → Go (Server R) (Option State)
  unfolding get_mutable_job set_lock
  on_release_job_request env topic from id = do
    (s, j) ← wrap on_release_job (get_mutable_job env.now id from)
    let s' = set_lock id j none s
    write_back s'
    call_raft (raft.commit (some s'))
