-- ===== src/Discovery/Ready.antt =====
-- When `AwaitReady` of discovery.go can return.
use peerprint.Base.{
  subst, String, false, Option, none, List, [], ◌∷◌, ◌≡◌, ◌≢◌, refl, str_eq, Option-cases,
  Bool-cases, inl, inr,
}
use peerprint.Base.Go.{Error, Outcome}
use peerprint.Base.Post.{Returned, Ensures, Ensures-mono, Succeeds}
use peerprint.Base.Keeps.{Keeps, Keeps-pure, Keeps-bind, Keeps-modify}
use peerprint.Discovery.{
  search_turn, listen_turn, start_failed_turn, proceed_turn, cancelled_turn, find_failed_turn,
  await_turn, timeout_turn, Discovery, nobody, Finder, searching, starting, listening, notifying,
  finished, Awaiter, absent, waiting, ready, timed_out, Turn, found, search, find_failed,
  start_failed, listen, proceed, await, timeout, cancelled, mdns, dht, new, run, turn,
  handle_peer_found,
}

-- Where the finder waits for nobody: in the loop over the DHT, and at its end.
abbrev IsQuiet : Finder → Type 0
IsQuiet searching = Unit
IsQuiet finished = Unit
IsQuiet _ = ⊥

-- What the steps of `AwaitReady` itself keep of its caller.
pub record Kept (P : Awaiter → Type 0) : Type 0 where
  pub called : P absent → P waiting
  pub gave_up : P waiting → P timed_out

pub record Quiet (f : Finder) (P : Awaiter → Type 0) (c : Discovery) : Type 0 where
  pub finder : c.finder ≡ f
  pub new_conn : c.new_conn ≡ nobody
  pub awaiter : P c.awaiter

abbrev pub NotReady : Discovery → Type 0
NotReady c = c.awaiter ≢ ready

pub ready-Kept : Kept (λ a. a ≡ ready)
ready-Kept = record { called = λ h. cc; gave_up = λ h. cc }

not_ready-Kept : Kept (λ a. a ≢ ready)
not_ready-Kept = record { called = λ h p. cc; gave_up = λ h p. cc }

module _ (connect_fails : String → Option Error) {P : Awaiter → Type 0} (k : Kept P)
    {f : Finder} where
  await-Quiet :
      (a : Awaiter) (c : Discovery)
      → c.awaiter ≡ a
      → Quiet f P c
      → Quiet f P (await_turn connect_fails a c)
  await-Quiet absent c e h = record {
    finder = h.finder;
    new_conn = h.new_conn;
    awaiter = k.called (subst P e h.awaiter);
  }
  await-Quiet waiting c e h = h
  await-Quiet ready c e h = h
  await-Quiet timed_out c e h = h

  timeout-Quiet :
      (a : Awaiter) (c : Discovery)
      → c.awaiter ≡ a
      → Quiet f P c
      → Quiet f P (timeout_turn connect_fails a c)
  timeout-Quiet waiting c e h = record {
    finder = h.finder;
    new_conn = h.new_conn;
    awaiter = k.gave_up (subst P e h.awaiter);
  }
  timeout-Quiet absent c e h = h
  timeout-Quiet ready c e h = h
  timeout-Quiet timed_out c e h = h

  found-Quiet :
      (peer : String) (c : Discovery)
      → Quiet f P c
      → Quiet f P (handle_peer_found connect_fails peer c)
  unfolding handle_peer_found
  found-Quiet peer c h = elim (Bool-cases (str_eq peer c.self)) [
    | inl e ↦ simp e h
    | inr e ↦ elim (Option-cases (connect_fails peer)) [
      | inl good ↦
          simp (e, good, h.new_conn)
            (record { finder = h.finder; new_conn = refl; awaiter = h.awaiter })
      | inr (x, bad) ↦ simp (e, bad) h
    ]
  ]

module _ (connect_fails : String → Option Error) {P : Awaiter → Type 0} (k : Kept P) where
  idle-Quiet :
      (f : Finder) (c : Discovery)
      → IsQuiet f
      → Quiet f P c
      → (search_turn connect_fails f c ≡ c)
        × (proceed_turn connect_fails f c ≡ c)
        × (cancelled_turn connect_fails f c ≡ c)
        × (listen_turn connect_fails f c ≡ c)
  idle-Quiet searching c q h = (simp h.new_conn, refl, refl, refl)
  idle-Quiet finished c q h = (refl, refl, refl, refl)
  idle-Quiet starting c q h = absurd q
  idle-Quiet listening c q h = absurd q
  idle-Quiet notifying c q h = absurd q

  failed-Quiet :
      (f : Finder) (c : Discovery)
      → IsQuiet f
      → Quiet f P c
      → Returned (Quiet f P) (find_failed_turn connect_fails f c)
  failed-Quiet searching c q h = record { at = tt }
  failed-Quiet finished c q h = record { at = h }
  failed-Quiet starting c q h = absurd q
  failed-Quiet listening c q h = absurd q
  failed-Quiet notifying c q h = absurd q

  start_failed-Quiet :
      (f : Finder) (c : Discovery)
      → IsQuiet f
      → Quiet f P c
      → Returned (Quiet f P) (start_failed_turn connect_fails f c)
  start_failed-Quiet searching c q h = record { at = h }
  start_failed-Quiet finished c q h = record { at = h }
  start_failed-Quiet starting c q h = absurd q
  start_failed-Quiet listening c q h = absurd q
  start_failed-Quiet notifying c q h = absurd q

  turn-Quiet : (f : Finder) (t : Turn) → IsQuiet f → Keeps (Quiet f P) (turn connect_fails t)
  unfolding turn
  turn-Quiet f (found peer) q = Keeps-modify _ (found-Quiet connect_fails k peer)
  turn-Quiet f search q = Keeps-modify _ λ c h. simp (h.finder, (idle-Quiet f c q h).0) h
  turn-Quiet f proceed q = Keeps-modify _ λ c h. simp (h.finder, (idle-Quiet f c q h).1) h
  turn-Quiet f cancelled q = Keeps-modify _ λ c h. simp (h.finder, (idle-Quiet f c q h).2) h
  turn-Quiet f listen q = Keeps-modify _ λ c h. simp (h.finder, (idle-Quiet f c q h).3) h
  turn-Quiet f await q = Keeps-modify _ λ c h. await-Quiet connect_fails k c.awaiter c refl h
  turn-Quiet f timeout q = Keeps-modify _ λ c h. timeout-Quiet connect_fails k c.awaiter c refl h
  turn-Quiet f find_failed q = record { at = λ c h. simp h.finder (failed-Quiet f c q h) }
  turn-Quiet f start_failed q = record { at = λ c h. simp h.finder (start_failed-Quiet f c q h) }

  run-Quiet :
      (f : Finder) (turns : List Turn) → IsQuiet f → Keeps (Quiet f P) (run connect_fails turns)
  unfolding run
  run-Quiet f [] q = Keeps-pure tt
  run-Quiet f (t ∷ rest) q = Keeps-bind (turn-Quiet f t q) λ _. run-Quiet f rest q

  -- the end is quiet, and no turn panics there
  turn-ended :
      (t : Turn) (c : Discovery)
      → Quiet finished P c
      → Succeeds (λ u _. Quiet finished P u) (turn connect_fails t c)
  unfolding turn
  turn-ended (found peer) c h = (_, tt, refl, ((turn-Quiet finished (found peer) tt).at c h).at)
  turn-ended search c h = (_, tt, refl, ((turn-Quiet finished search tt).at c h).at)
  turn-ended proceed c h = (_, tt, refl, ((turn-Quiet finished proceed tt).at c h).at)
  turn-ended await c h = (_, tt, refl, ((turn-Quiet finished await tt).at c h).at)
  turn-ended timeout c h = (_, tt, refl, ((turn-Quiet finished timeout tt).at c h).at)
  turn-ended cancelled c h = (_, tt, refl, ((turn-Quiet finished cancelled tt).at c h).at)
  turn-ended listen c h = (_, tt, refl, ((turn-Quiet finished listen tt).at c h).at)
  turn-ended find_failed c h = simp h.finder (c, tt, refl, h)
  turn-ended start_failed c h = simp h.finder (c, tt, refl, h)

  pub run-ended :
      (turns : List Turn) (c : Discovery)
      → Quiet finished P c
      → Succeeds (λ u _. Quiet finished P u) (run connect_fails turns c)
  unfolding run
  run-ended [] c h = (c, tt, refl, h)
  run-ended (t ∷ rest) c h =
      let (u, x, e, q) = turn-ended t c h in
      let (v, y, e', q') = run-ended rest u q in (v, y, rw e e', q')

module _ (connect_fails : String → Option Error) where
  awaiting :
      {P : Awaiter → Type 0} {o : Outcome Discovery (Unit {0})}
      → Succeeds (λ u _. Quiet finished P u) o
      → Succeeds (λ u _. P u.awaiter) o
  awaiting (u, x, e, q) = (u, x, e, q.awaiter)

  -- Over the DHT the caller of `AwaitReady` is never made ready, in any order of turns and whatever
  -- peers are found: after any turns that come back it has not been called, waits or has timed out.
  pub run-dht-NotReady :
      (self : String) (turns : List Turn)
      → Ensures
          (λ _ c. Returned NotReady (run connect_fails turns c))
          (λ _ _. Unit {0})
          (new dht self tt)
  unfolding new
  run-dht-NotReady self turns = record {
    at =
        Ensures-mono _
          ((run-Quiet connect_fails not_ready-Kept searching turns tt).at _
            (record { finder = refl; new_conn = refl; awaiter = λ p. cc }))
          (λ u _ h. h.awaiter) (λ u _ h. h.awaiter);
  }

  -- Over mDNS, where the first connection to another peer is made at the `select`, and the goroutine
  -- of `New` has had its turn, before `AwaitReady` is called, the news is lost: after any turns the
  -- caller is not ready.
  pub run-mdns-lost :
      (self peer : String) (turns : List Turn)
      → str_eq peer self ≡ false
      → connect_fails peer ≡ none
      → Ensures
          (λ _ c.
            Succeeds
              (λ u _. NotReady u)
              (run connect_fails (listen ∷ found peer ∷ proceed ∷ turns) c))
          (λ _ _. ⊥)
          (new mdns self tt)
  unfolding new run turn
  run-mdns-lost self peer turns ne good = record {
    at =
        rw (ne, good)
          (awaiting (
            run-ended connect_fails not_ready-Kept turns _
              (record { finder = refl; new_conn = refl; awaiter = λ p. cc })));
  }
