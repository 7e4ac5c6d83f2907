-- ===== src/Tests/Poll.antt =====
-- The poller over a stand-in for float64 arithmetic.
use peerprint.Base.{true, ◌*◌, ◌-◌, ◌≤◌, [], inl, inr, refl, length}
use peerprint.Proto.Peers.{PeersSummary}
use peerprint.Poll.{
  FloatOps, Poller, fires, tick, begin, resumed, Reach, here, next, new, resume, on_tick,
  begin_poll,
}
use peerprint.Poll.Bounds.{Reported, Reach-bounds}

abbrev whole : FloatOps
whole = record {
  of_ℕ = λ n. n;
  div = λ a b. a;
  mul = λ a b. a * b;
  sub = λ a b. a - b;
  to_int64 = λ a. a;
  prob = 1;
  one = 1;
}

abbrev nothing : PeersSummary
nothing = record { peer_estimate = 0; variance = 0; sample = [] }

abbrev running : Poller
running = begin_poll 0 (on_tick (record (resume (new nothing)) { tick_ready = true }))

-- a tick, the first line of the poll, and a second tick
abbrev ticked : Poller
ticked = on_tick (record running { tick_ready = true })

two_ticks : Reach whole (new nothing) ticked
unfolding new resume on_tick begin_poll
two_ticks =
    next
      (next (next (next (next (next here (resumed refl)) (fires refl)) (tick refl)) (begin 0 refl))
        (fires refl))
      (tick refl)

Reach-bounds_example : (length ticked.poll_result ≤ 101) × Reported whole 101 ticked.sent
unfolding two_ticks new resume on_tick begin_poll
Reach-bounds_example =
    Reach-bounds whole nothing ticked two_ticks ((((((tt, tt), tt), inr refl), tt), tt), inl refl)
