-- ===== src/Raft/Impl/Shutdown.antt =====
-- `Shutdown` of `RaftImpl` (raft.go), which no server code calls.
use peerprint.Base.{Bool, false, ◌≡◌}
use peerprint.Base.Go.{
  Go, halt, Attempt, failed, succeeded, nil_dereference, panicked, pure, stop, gets, attempt, ◌>>=◌,
  ◌>>◌,
}
use peerprint.Raft.Impl.{RaftImpl, outside, set_pointer}

-- The calls of the libraries: the end of raft, an observer that is taken off (true where it is set),
-- and the ends of the host and of the transport, the errors of which are dropped.
pub record Closing (W : Type 0) : Type 0 where
  pub shutdown : Go W (Unit {0})
  pub deregister : Bool → Go W (Unit {0})
  pub close_host : Go W (Unit {0})
  pub close_transport : Go W (Unit {0})

module _ {W : Type 0} (c : Closing W) where
  abbrev pub or_panic : Attempt (Unit {0}) → Go (RaftImpl W) (Unit {0})
  or_panic (failed e) = stop panicked
  or_panic (succeeded u) = pure tt

  -- the deferred calls, the last first; nothing sets `leaderObs`
  unfoldable pub deferred : Go (RaftImpl W) (Unit {0})
  deferred = do
    outside (c.deregister false)
    _ ← attempt (outside c.close_host)
    started ← gets (λ ri. ri.transport)
    set_pointer started
    _ ← attempt (outside c.close_transport)
    pure tt

  -- the deferred calls run before the panic goes on
  unfoldable pub shutdown : Go (RaftImpl W) (Unit {0})
  unfolding deferred
  shutdown = do
    set ← gets (λ ri. ri.raft)
    set_pointer set
    r ← attempt (outside c.shutdown)
    deferred
    or_panic r

  -- An object without raft panics.
  shutdown-NoRaft : (ri : RaftImpl W) → ri.raft ≡ false → shutdown ri ≡ halt nil_dereference
  unfolding shutdown
  shutdown-NoRaft ri h = rw h
