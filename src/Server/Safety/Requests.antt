-- ===== src/Server/Safety/Requests.antt =====
-- The job handlers at a peer that may not write to a job.
use peerprint.Base.{String, false, Option, some, ◌≡◌, ◌≢◌, inr, ◌∙◌, arith, ◌+◌, ◌≤◌, eq_iff}
use peerprint.Base.Go.{Go}
use peerprint.Base.Post.{Returned, Ensures-mono}
use peerprint.Base.Keeps.{Keeps, Keeps-pure, Keeps-bind}
use peerprint.Proto.Jobs.{Lock, Job, State}
use peerprint.Proto.Message.{Message}
use peerprint.Raft.{Raft}
use peerprint.Raft.Contract.{Board, Contract}
use peerprint.Server.{Server, Env, lock_timeout_seconds}
use peerprint.Server.Jobs.Mutable.{may_write, InRange}
use peerprint.Server.Jobs.Frame.{Untouchable, Same}
use peerprint.Server.Jobs.Locks.{
  on_set_job_request-Same, on_delete_job_request-Same, on_acquire_job_request-Same,
  on_release_job_request-Same,
}
use peerprint.Server.Dispatch.{dispatch, handle, replying}
use peerprint.Server.Safety.Held.{Held, Held-Stable}
use peerprint.Server.Invariants.Dispatch.{WritesStore, handle-Stable}

-- A lock that `l` describes is in force against `from`.
pub record Foreign (l : Lock) (env : Env) (from : String) : Type 0 where
  pub somebody : l.peer ≢ ""
  pub other : from ≢ l.peer
  pub in_range : InRange env.now
  pub in_time : env.now ≤ l.created + lock_timeout_seconds

may_write-Foreign :
    (j : Job) (l : Lock) (env : Env) (from : String)
    → j.lock ≡ some l
    → Foreign l env from
    → may_write env.now from j ≡ false
may_write-Foreign j l env from e f =
    rw e (ground (arith, f.somebody, f.other, f.in_time, eq_iff l.peer "", eq_iff l.peer from))

-- The one message that may replace the whole board; it is taken from the leader alone.
abbrev pub NotState : Message → Type 0
NotState (Message.state s) = ⊥
NotState _ = Unit

module _ {R : Type 0} (raft : Raft R) {board : R → Board} (c : Contract raft board) where
  module _ (k me : String) (j : Job) (l : Lock) (locked : j.lock ≡ some l) where
    abbrev pub Leased : Server R → Type 0
    Leased = Held raft c k (some (some j)) me

    of_Same :
        {m : Go (Server R) (Option State)}
        → ((t : Server R) → Leased t → Returned (Same raft c k t) (m t))
        → Keeps Leased (replying m)
    of_Same {m} h =
        Keeps-bind
          (record {
            at = λ t p.
                Ensures-mono (m t) (h t p)
                  (λ u a q. record { entry = q.0 ∙ p.entry; self = q.1 ∙ p.self })
                  (λ u a q. record { entry = q.0 ∙ p.entry; self = q.1 ∙ p.self });
          })
          (λ a. Keeps-pure _)

    denied :
        (env : Env) (from id : String) (t : Server R)
        → Foreign l env from
        → Leased t
        → Untouchable raft c env.now from id k t
    denied env from id t f h = inr (j, h.entry, may_write-Foreign j l env from locked f)

    store-Leased :
        (env : Env) (topic from : String) (m : Message)
        → NotState m
        → Foreign l env from
        → WritesStore m
        → Keeps Leased (dispatch raft env topic from m)
    unfolding dispatch
    store-Leased env topic from (Message.set_job_request r) n f w = of_Same λ t p.
        on_set_job_request-Same raft c env topic from k r t f.in_range (denied env from _ t f p)
    store-Leased env topic from (Message.delete_job_request i) n f w = of_Same λ t p.
        on_delete_job_request-Same raft c env topic from i k t f.in_range (denied env from i t f p)
    store-Leased env topic from (Message.acquire_job_request i) n f w = of_Same λ t p.
        on_acquire_job_request-Same raft c env topic from i k t f.in_range (denied env from i t f p)
    store-Leased env topic from (Message.release_job_request i) n f w = of_Same λ t p.
        on_release_job_request-Same raft c env topic from i k t f.in_range (denied env from i t f p)
    store-Leased env topic from (Message.state s) n f w = absurd n
    store-Leased env topic from _ n f w = absurd w

    -- Whatever else a peer sends, it changes neither a job that it may not write to nor the lock.
    pub handle-Leased :
        (env : Env) (topic from : String) (m : Message)
        → NotState m
        → Foreign l env from
        → Keeps Leased (handle raft env topic from m)
    handle-Leased env topic from m n f =
        handle-Stable raft (Held-Stable raft c) env topic from m (store-Leased env topic from m n f)
