-- ===== src/Tests/Discovery.antt =====
-- Discovery where every connection succeeds.
use peerprint.Discovery.Bootstrap.{
  Boot, start_dht, start_peer, bootstrap_peer, Step, Run, add, finish, wait, here, next,
}
use peerprint.Discovery.Bootstrap.Joins.{init_dht-returns}
use peerprint.Base.Post.{Succeeds}
use peerprint.Discovery.Told.{run-mdns-ready}
use peerprint.Base.{
  ◌++◌, length, ◌+◌, true, false, some, ◌≤◌, ◌⊎◌, str_eq, if◌then◌else◌, String, Option, none, [],
  ◌∷◌, ◌≡◌, refl,
}
use peerprint.Base.Go.{Outcome, ok, Error, external}
use peerprint.Discovery.{
  Discovery, Awaiter, absent, blank, starting, nobody, listening, receiver, waiting, new, listen,
  found, proceed, await, timeout, ready, timed_out, run, turn,
}

abbrev reachable : String → Option Error
reachable peer = none

abbrev awaiter_of : Outcome Discovery (Unit {0}) → Awaiter
awaiter_of (ok c x) = c.awaiter
awaiter_of _ = absent

abbrev fresh : Discovery
fresh = blank "ann" starting nobody

news_arrives :
    awaiter_of (run reachable (await ∷ listen ∷ found "bob" ∷ proceed ∷ timeout ∷ []) fresh) ≡ ready
unfolding run turn
news_arrives = refl

-- `AwaitReady` waits, and the goroutine of `New` is at its `select`
abbrev heard : Discovery
heard = record fresh {
  finder = listening;
  new_conn = receiver;
  awaiter = waiting;
  on_ready = receiver;
}

run-mdns-ready_example :
    Succeeds
      (λ u _. u.awaiter ≡ ready)
      (run reachable (found "bob" ∷ (await ∷ found "carol" ∷ []) ++ proceed ∷ timeout ∷ []) heard)
unfolding new run turn
run-mdns-ready_example =
    run-mdns-ready reachable "ann" "bob" (listen ∷ await ∷ []) (await ∷ found "carol" ∷ [])
      (timeout ∷ []) fresh heard refl refl refl refl refl refl ((λ p. cc), ((λ p. cc), tt))

-- found before the `select`
news_lost :
    awaiter_of (run reachable (await ∷ found "bob" ∷ listen ∷ proceed ∷ timeout ∷ []) fresh)
    ≡ timed_out
unfolding run turn
news_lost = refl

-- carol is away
abbrev away : String → Option Error
away peer = if str_eq peer "carol" then some (external "away") else none

abbrev two_peers : Boot
two_peers = record {
  to_start = "bob" ∷ "carol" ∷ [];
  running = [];
  wg = 0;
  connected = [];
  warned = [];
  returned = false;
}

abbrev all_done : Boot
all_done = record two_peers {
  to_start = [];
  connected = "bob" ∷ [];
  warned = external "away" ∷ [];
  returned = true;
}

-- carol's goroutine is the first to end
five_turns : Run away two_peers all_done 5
unfolding start_peer bootstrap_peer
five_turns =
    next
      (next
        (next (next (next here (add refl)) (add refl)) (finish ("bob" ∷ []) [] "carol" refl refl))
        (finish [] [] "bob" refl refl))
      (wait refl refl refl)

init_dht-returns_example :
    (5 ≤ 5)
    × (((v : Boot) × Step away all_done v)
        ⊎ ((true ≡ true)
            × (all_done.running ≡ [])
            × (length all_done.connected + length all_done.warned ≡ 2)))
unfolding start_dht
init_dht-returns_example = init_dht-returns away ("bob" ∷ "carol" ∷ []) refl five_turns
