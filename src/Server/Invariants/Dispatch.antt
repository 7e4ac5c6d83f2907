-- ===== src/Server/Invariants/Dispatch.antt =====
-- `Handle` and stable properties.
use peerprint.Base.{ℕ, String, Option, none, some, ◌||◌, str_eq, ltb}
use peerprint.Base.Go.{
  Go, wrap, Error, raft_get, on_delete_job, on_acquire_job, on_release_job, ◌>>◌,
}
use peerprint.Base.Post.{Ensures-wrap}
use peerprint.Base.Keeps.{
  Keeps, Keeps-pure, Keeps-fail, Keeps-stop, Keeps-modify, Keeps-deref, Keeps-bind, Keeps-if,
}
use peerprint.Base.Dict.{lookup}
use peerprint.Proto.Jobs.{Job, Jobs, State, get_peer, get_jobs, get_id as get_job_id}
use peerprint.Proto.Message.{Message}
use peerprint.Raft.{Raft}
use peerprint.Server.{Server, Env, call_raft}
use peerprint.Server.Jobs.{
  expiry, check_mutable, check_found, get_mutable_job, state_or_error, guard_existing, put_job,
  write_back, on_set_job_request, on_delete_job_request, on_acquire_job_request,
  on_release_job_request,
}
use peerprint.Server.Roles.{on_state}
use peerprint.Server.Dispatch.{dispatch, handle}
use peerprint.Server.Invariants.{Stable, IsAside, call-IsAside}
use peerprint.Server.Invariants.Handlers

-- the messages whose handlers write to the store
abbrev pub WritesStore : Message → Type 0
WritesStore (Message.set_job_request j) = Unit
WritesStore (Message.delete_job_request i) = Unit
WritesStore (Message.acquire_job_request i) = Unit
WritesStore (Message.release_job_request i) = Unit
WritesStore (Message.state s) = Unit
WritesStore _ = ⊥

module _ {R : Type 0} (raft : Raft R) {P : Server R → Type 0} (st : Stable raft P) where
  pub dispatch-Stable :
      (env : Env) (topic from : String) (m : Message)
      → (WritesStore m → Keeps P (dispatch raft env topic from m))
      → Keeps P (dispatch raft env topic from m)
  unfolding dispatch
  dispatch-Stable env topic from (Message.set_job_request r) w = w tt
  dispatch-Stable env topic from (Message.delete_job_request i) w = w tt
  dispatch-Stable env topic from (Message.acquire_job_request i) w = w tt
  dispatch-Stable env topic from (Message.release_job_request i) w = w tt
  dispatch-Stable env topic from (Message.state s) w = w tt
  dispatch-Stable env topic from (Message.leader i) w =
      Keeps-bind (Handlers.on_leader-Stable raft st topic from i) (λ _. Keeps-pure none)
  dispatch-Stable env topic from (Message.peers_summary s) w =
      Keeps-bind (Handlers.on_peers_summary-Stable raft st topic from s) (λ _. Keeps-pure none)
  dispatch-Stable env topic from (Message.poll_peers_request q) w =
      Keeps-bind (Handlers.on_poll_peers_request-Stable raft st env topic from q)
        (λ _. Keeps-pure _)
  dispatch-Stable env topic from (Message.poll_peers_response s) w =
      Keeps-bind (Handlers.on_poll_peers_response-Stable raft st topic from s)
        (λ _. Keeps-pure none)
  dispatch-Stable env topic from Message.assignment_request w =
      Keeps-bind (Handlers.on_assignment_request-Stable raft st topic from) (λ _. Keeps-pure _)
  dispatch-Stable env topic from (Message.assignment_response r) w =
      Handlers.on_assignment_response-Stable raft st env topic from r
  dispatch-Stable env topic from (Message.raft_addrs_request a) w =
      Handlers.on_raft_addrs_request-Stable raft st topic from a
  dispatch-Stable env topic from (Message.raft_addrs_response a) w =
      Keeps-bind (Handlers.on_raft_addrs_response-Stable raft st topic from a)
        (λ _. Keeps-pure none)
  dispatch-Stable env topic from _ w = Keeps-fail _

  pub handle-Stable :
      (env : Env) (topic from : String) (m : Message)
      → (WritesStore m → Keeps P (dispatch raft env topic from m))
      → Keeps P (handle raft env topic from m)
  unfolding handle
  handle-Stable env topic from m w =
      Keeps-bind (Handlers.can_handle_message-Stable raft st from m)
        λ allowed. Keeps-if allowed (dispatch-Stable env topic from m w) (Keeps-pure none)

-- The checks on a job write to nothing.
module _ {S : Type 0} {P : S → Type 0} where
  check_mutable-Keeps :
      (now : ℕ) (j : Option Job) (peer : String) → Keeps P (check_mutable now j peer)
  unfolding check_mutable
  check_mutable-Keeps now j peer = Keeps-bind (Keeps-deref j) λ job.
      Keeps-if (str_eq (get_peer job.lock) "" || str_eq (get_peer job.lock) peer) (Keeps-pure tt) (
        Keeps-bind (Keeps-deref job.lock)
          λ l. Keeps-if (ltb l.created (expiry now)) (Keeps-pure tt) (Keeps-fail _))

  check_found-Keeps :
      (now : ℕ) (peer : String) (s : State) (o : Option (Option Job))
      → Keeps P (check_found now peer s o)
  unfolding check_found
  check_found-Keeps now peer s none = Keeps-fail _
  check_found-Keeps now peer s (some j) =
      Keeps-bind (check_mutable-Keeps now j peer)
        λ _. Keeps-bind (Keeps-deref j) λ job. Keeps-pure _

  guard_existing-Keeps :
      (now : ℕ) (from : String) (req : Option Job) (o : Option (Option Job))
      → Keeps P (guard_existing now from req o)
  unfolding guard_existing
  guard_existing-Keeps now from req none = Keeps-pure _
  guard_existing-Keeps now from req (some j) =
      Keeps-bind (check_mutable-Keeps now j from)
        λ _. Keeps-bind (Keeps-deref req) λ job. Keeps-bind (Keeps-deref j) λ old. Keeps-pure _

  put_job-Keeps :
      (k : String) (j : Option Job) (m : Option Jobs) → Keeps P (put_job k j (record { jobs = m }))
  unfolding put_job
  put_job-Keeps k j none = Keeps-stop _
  put_job-Keeps k j (some m) = Keeps-pure _

  state_or_error-Keeps : (p : Option State) → Keeps P (state_or_error p)
  state_or_error-Keeps none = Keeps-fail _
  state_or_error-Keeps (some s) = Keeps-pure s

  wrap-Keeps : {A : Type 0} (w : Error → Error) {m : Go S A} → Keeps P m → Keeps P (wrap w m)
  wrap-Keeps w {m} h = record { at = λ s p. Ensures-wrap w (m s) (h.at s p) }

module _ {R : Type 0} (raft : Raft R) {P : Server R → Type 0} (st : Stable raft P)
    (a : IsAside P) where
  write_commit-Keeps : (s : State) → Keeps P (write_back raft s >> call_raft (raft.commit (some s)))
  write_commit-Keeps s =
      Keeps-bind (Keeps-modify _ (λ t h. a.any_store (raft.wrote s t.raft) t h))
        λ _. call-IsAside (raft.commit (some s)) a

  get_mutable_job-Keeps : (now : ℕ) (id from : String) → Keeps P (get_mutable_job raft now id from)
  unfolding get_mutable_job
  get_mutable_job-Keeps now id from =
      Keeps-bind (wrap-Keeps raft_get st.get)
        λ p. Keeps-bind (Keeps-deref p) λ s. check_found-Keeps now from s (lookup id (get_jobs s))

  writes-Keeps :
      (env : Env) (topic from : String) (m : Message)
      → WritesStore m
      → Keeps P (dispatch raft env topic from m)
  unfolding dispatch on_set_job_request on_delete_job_request on_acquire_job_request
      on_release_job_request on_state
  writes-Keeps env topic from (Message.set_job_request r) w =
      Keeps-bind
        (Keeps-bind (wrap-Keeps raft_get st.get) λ p. Keeps-bind (state_or_error-Keeps p) λ s.
          Keeps-bind (guard_existing-Keeps env.now from r (lookup (get_job_id r) (get_jobs s)))
            λ j. Keeps-bind (put_job-Keeps (get_job_id r) j s.jobs) λ s'. write_commit-Keeps s')
        (λ _. Keeps-pure _)
  writes-Keeps env topic from (Message.delete_job_request i) w =
      Keeps-bind
        (Keeps-bind (wrap-Keeps on_delete_job (get_mutable_job-Keeps env.now i from))
          λ p. write_commit-Keeps _)
        (λ _. Keeps-pure _)
  writes-Keeps env topic from (Message.acquire_job_request i) w =
      Keeps-bind
        (Keeps-bind (wrap-Keeps on_acquire_job (get_mutable_job-Keeps env.now i from))
          λ p. write_commit-Keeps _)
        (λ _. Keeps-pure _)
  writes-Keeps env topic from (Message.release_job_request i) w =
      Keeps-bind
        (Keeps-bind (wrap-Keeps on_release_job (get_mutable_job-Keeps env.now i from))
          λ p. write_commit-Keeps _)
        (λ _. Keeps-pure _)
  writes-Keeps env topic from (Message.state s) w =
      Keeps-bind
        (Keeps-bind st.leader λ l.
          Keeps-if (str_eq l from) (Keeps-bind (call-IsAside (raft.commit s) a) λ _. Keeps-pure tt)
            (Keeps-pure tt))
        (λ _. Keeps-pure none)
  writes-Keeps env topic from _ w = absurd w

  pub handle-IsAside :
      (env : Env) (topic from : String) (m : Message) → Keeps P (handle raft env topic from m)
  handle-IsAside env topic from m =
      handle-Stable raft st env topic from m (writes-Keeps env topic from m)
