-- ===== src/Poll/Deadlock.antt =====
-- `Update` and `pollPeersSync` of poll.go where each waits for the other.
use peerprint.Base.{ℕ, suc, ◌+◌, true, Option, ◌≡◌, length}
use peerprint.Proto.Peers.{PeerStatus}
use peerprint.Poll.{FloatOps, free, appending, sending, Poller, update_append}

module _ (f : FloatOps) where
  -- The one poll that there is announces itself to a server that waits, in `Update`, for a poll to
  -- take its send on `done`.
  pub record Waits (p : Poller) : Type 0 where
    spawned : p.spawned ≡ 0
    announcing : p.announcing ≡ 1
    collecting : p.collecting ≡ 0
    closing : p.closing ≡ 0
    summarising : p.summarising ≡ 0
    polling : p.polling ≡ true
    updater : p.updater ≡ sending

  -- the one poll that there is collects
  record Collects (p : Poller) : Type 0 where
    spawned : p.spawned ≡ 0
    announcing : p.announcing ≡ 0
    collecting : p.collecting ≡ 1
    closing : p.closing ≡ 0
    summarising : p.summarising ≡ 0
    ticking : p.ticking ≡ true

  record Filling (k : ℕ) (p : Poller) : Type 0 where
    collects : Collects p
    polling : p.polling ≡ true
    caller : p.updater ≡ free
    room : length p.poll_result + suc k ≡ p.max_poll

  record Full (p : Poller) : Type 0 where
    collects : Collects p
    caller : p.updater ≡ sending

  put : Option PeerStatus → Poller → Poller
  unfolding update_append
  put s p = update_append s (record p { updater = appending s })
