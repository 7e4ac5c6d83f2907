-- ===== src/Poll.antt =====
-- poll.go: the poller as a state machine. The goroutines take turns: `loop` with its ticker,
-- `pollPeersSync` for each poll that runs, of which there can be several, and the server's, which
-- calls `Update`, `Pause` and `Resume` and receives epochs and results only while it is in none of
-- those calls.
pub mod Bounds
pub mod Deadlock
use peerprint.Base.{
  ℕ, suc, ◌+◌, ◌≤◌, ◌<◌, Bool, true, false, Option, none, some, List, [], ◌∷◌, ◌++◌, ◌≡◌, length,
  leb, if◌then◌else◌,
}
use peerprint.Proto.Peers.{Float64, PeerStatus, PeersSummary}

-- the arithmetic of float64 that a summary uses
pub record FloatOps : Type 0 where
  pub of_ℕ : ℕ → Float64
  pub div : Float64 → Float64 → Float64
  pub mul : Float64 → Float64 → Float64
  pub sub : Float64 → Float64 → Float64
  pub to_int64 : Float64 → ℕ
  pub prob : Float64  -- 0.9
  pub one : Float64  -- 1

abbrev pub default_max_poll : ℕ
default_max_poll = 100

abbrev pub default_poll_period : ℕ
default_poll_period = 60

abbrev pub default_poll_timeout : ℕ
default_poll_timeout = 5

-- Where the caller of `Update` stands: in no call; behind the test `isPolling`; at `p.done <-`.
pub data Updater : Type 0 where
  free : Updater
  appending : Option PeerStatus → Updater
  sending : Updater

pub record Poller : Type 0 where
  -- how many goroutines of `pollPeersSync` stand before its first line; at `p.epoch <- prob`; at the
  -- `select`; behind it, before `p.polling = false`; behind that, before the summary
  pub spawned : ℕ
  pub announcing : ℕ
  pub collecting : ℕ
  pub closing : ℕ
  pub summarising : ℕ
  pub polling : Bool
  pub poll_result : List (Option PeerStatus)
  pub updater : Updater
  pub ticking : Bool  -- the ticker runs
  pub tick_ready : Bool  -- a tick is in the channel of the ticker, which holds one
  pub max_poll : ℕ
  pub poll_period : ℕ
  pub poll_timeout : ℕ
  pub peers_summary : PeersSummary
  pub sent : List PeersSummary  -- the latest first

unfoldable pub new : PeersSummary → Poller
new empty_summary = record {
  spawned = 0;
  announcing = 0;
  collecting = 0;
  closing = 0;
  summarising = 0;
  polling = false;
  poll_result = [];
  updater = free;
  ticking = false;
  tick_ready = false;
  max_poll = default_max_poll;
  poll_period = default_poll_period;
  poll_timeout = default_poll_timeout;
  peers_summary = empty_summary;
  sent = [];
}

unfoldable pub set_poll_period : ℕ → Poller → Poller
set_poll_period d p = record p { poll_period = d }

unfoldable pub set_poll_timeout : ℕ → Poller → Poller
set_poll_timeout d p = record p { poll_timeout = d }

-- the getters take and give back the lock `m`
abbrev pub is_polling : Poller → Bool
is_polling p = p.polling

abbrev pub get_poll_period : Poller → ℕ
get_poll_period p = p.poll_period

abbrev pub get_poll_timeout : Poller → ℕ
get_poll_timeout p = p.poll_timeout

-- `Cleanup` has an empty body
abbrev pub cleanup : Poller → Poller
cleanup p = p

unfoldable pub pause : Poller → Poller
pause p = record p { ticking = false }

unfoldable pub resume : Poller → Poller
resume p = record p { ticking = true }

-- `Update`: the test, and the append with the test against the bound
unfoldable pub update_begin : Option PeerStatus → Poller → Poller
update_begin s p = if is_polling p then record p { updater = appending s } else p

unfoldable pub update_append : Option PeerStatus → Poller → Poller
update_append s p =
    let got = p.poll_result ++ s ∷ [] in
    record p { poll_result = got; updater = if leb p.max_poll (length got) then sending else free }

-- the body of `loop` at a tick
unfoldable pub on_tick : Poller → Poller
on_tick p =
    if is_polling p
    then record p { tick_ready = false }
    else record p { tick_ready = false; spawned = suc p.spawned; ticking = true }

-- `n`: how many others stand where the goroutine comes from
unfoldable pub begin_poll : ℕ → Poller → Poller
begin_poll n p = record p {
  polling = true;
  poll_result = [];
  spawned = n;
  announcing = suc p.announcing;
}

unfoldable pub end_poll : ℕ → Poller → Poller
end_poll n p = record p { polling = false; closing = n; summarising = suc p.summarising }

unfoldable pub summary : FloatOps → ℕ → PeersSummary
summary f n =
    let pop = f.to_int64 (f.div (f.of_ℕ n) f.prob) in
    record {
      peer_estimate = pop;
      variance = f.mul (f.mul (f.of_ℕ pop) f.prob) (f.sub f.one f.prob);
      sample = [];
    }

-- `taken`: the server receives the result at once
unfoldable pub summarise : FloatOps → Bool → ℕ → Poller → Poller
unfolding summary
summarise f taken n p =
    let s = summary f (length p.poll_result) in
    record p { summarising = n; peers_summary = s; sent = if taken then s ∷ p.sent else p.sent }

module _ (f : FloatOps) where
  pub data Step (p : Poller) : Poller → Type 0 where
    fires : p.ticking ≡ true → Step p (record p { tick_ready = true })
    tick : p.tick_ready ≡ true → Step p (on_tick p)
    begin : (n : ℕ) → p.spawned ≡ suc n → Step p (begin_poll n p)
    announce :
        (n : ℕ)
        → p.announcing ≡ suc n
        → p.updater ≡ free
        → Step p (record p { announcing = n; collecting = suc p.collecting })
    done :
        (n : ℕ)
        → p.collecting ≡ suc n
        → p.updater ≡ sending
        → Step p (record p { collecting = n; closing = suc p.closing; updater = free })
    timeout :
        (n : ℕ)
        → p.collecting ≡ suc n
        → Step p (record p { collecting = n; closing = suc p.closing })
    end : (n : ℕ) → p.closing ≡ suc n → Step p (end_poll n p)
    report :
        (taken : Bool) (n : ℕ)
        → p.summarising ≡ suc n
        → (taken ≡ true → p.updater ≡ free)
        → Step p (summarise f taken n p)
    update : (s : Option PeerStatus) → p.updater ≡ free → Step p (update_begin s p)
    append : (s : Option PeerStatus) → p.updater ≡ appending s → Step p (update_append s p)
    paused : p.updater ≡ free → Step p (pause p)
    resumed : p.updater ≡ free → Step p (resume p)

  pub data Reach (p : Poller) : Poller → Type 0 where
    here : Reach p p
    next : {q r : Poller} → Reach p q → Step q r → Reach p r
