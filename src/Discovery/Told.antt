-- ===== src/Discovery/Told.antt =====
-- How the caller of `AwaitReady` of discovery.go comes to hear of a connection over mDNS.
use peerprint.Base.{
  String, false, Option, none, List, [], ◌∷◌, ◌++◌, ◌≡◌, ◌≢◌, ◌⊎◌, refl, str_eq, Option-cases,
  Bool-cases, inl, inr, subst, arith,
}
use peerprint.Base.Go.{Error, ok}
use peerprint.Base.Post.{Returned, Succeeds, ok-injective}
use peerprint.Base.Keeps.{Keeps, Keeps-pure, Keeps-bind, Keeps-modify}
use peerprint.Proto.Codec.{All}
use peerprint.Discovery.{
  start_failed_turn, proceed_turn, find_failed_turn, Discovery, nobody, receiver, can_send, Finder,
  searching, starting, listening, notifying, finished, waiting, ready, Turn, found, search,
  find_failed, start_failed, listen, proceed, await, timeout, cancelled, mdns, new, run, turn,
  handle_peer_found, notify_ready, notify_new,
}
use peerprint.Discovery.Ready.{Quiet, ready-Kept, run-ended}

module _ (connect_fails : String → Option Error) where
  -- The goroutine of `New` has its news to pass on, and `AwaitReady` waits for it.
  record Due (c : Discovery) : Type 0 where
    finder : c.finder ≡ notifying
    new_conn : c.new_conn ≡ nobody
    awaiter : c.awaiter ≡ waiting
    on_ready : c.on_ready ≡ receiver

  abbrev Told : Discovery → Type 0
  Told = Quiet finished (λ a. a ≡ ready)

  found-Due : (peer : String) (c : Discovery) → Due c → Due (handle_peer_found connect_fails peer c)
  unfolding handle_peer_found
  found-Due peer c h = elim (Bool-cases (str_eq peer c.self)) [
    | inl e ↦ simp e h
    | inr e ↦ elim (Option-cases (connect_fails peer)) [
      | inl good ↦
          simp (e, good, h.new_conn)
            (record {
              finder = h.finder;
              new_conn = refl;
              awaiter = h.awaiter;
              on_ready = h.on_ready;
            })
      | inr (x, bad) ↦ simp (e, bad) h
    ]
  ]

  proceed-Told : (c : Discovery) → Due c → Told (proceed_turn connect_fails notifying c)
  unfolding notify_ready
  proceed-Told c h =
      simp h.on_ready (record { finder = refl; new_conn = h.new_conn; awaiter = refl })

  turn-Due :
      (t : Turn) (c : Discovery)
      → t ≢ timeout
      → Due c
      → Succeeds (λ u _. Due u ⊎ Told u) (turn connect_fails t c)
  unfolding turn
  turn-Due (found peer) c n h = (_, tt, refl, inl (found-Due peer c h))
  turn-Due search c n h = simp h.finder (c, tt, refl, inl h)
  turn-Due find_failed c n h = simp h.finder (c, tt, refl, inl h)
  turn-Due start_failed c n h = simp h.finder (c, tt, refl, inl h)
  turn-Due listen c n h = simp h.finder (c, tt, refl, inl h)
  turn-Due proceed c n h = simp h.finder (_, tt, refl, inr (proceed-Told c h))
  turn-Due await c n h = simp h.awaiter (c, tt, refl, inl h)
  turn-Due timeout c n h = absurd (n refl)
  turn-Due cancelled c n h = simp h.finder (c, tt, refl, inl h)

  told :
      (turns : List Turn) (c : Discovery)
      → Told c
      → Succeeds (λ u _. u.awaiter ≡ ready) (run connect_fails turns c)
  told turns c h =
      let (u, x, e, q) = run-ended connect_fails ready-Kept turns c h in (u, x, e, q.awaiter)

  run-Due :
      (between after : List Turn) (c : Discovery)
      → All (λ t. t ≢ timeout) between
      → Due c
      → Succeeds (λ u _. u.awaiter ≡ ready) (run connect_fails (between ++ proceed ∷ after) c)
  unfolding run turn
  run-Due [] after c a h = simp h.finder (told after _ (proceed-Told c h))
  run-Due (t ∷ between) after c (n, a) h =
      let (u, x, e, d) = turn-Due t c n h in
      elim d [
        | inl due ↦ let (v, y, e', r) = run-Due between after u a due in (v, y, rw e e', r)
        | inr is_told ↦
            let (v, y, e', r) = told (between ++ proceed ∷ after) u is_told in (v, y, rw e e', r)
      ]

  -- Who is at a receive waits at its channel.
  record Linked (me : String) (c : Discovery) : Type 0 where
    self : c.self ≡ me
    new_conn : c.finder ≡ listening → c.new_conn ≡ receiver
    on_ready : c.awaiter ≡ waiting → c.on_ready ≡ receiver

  found-Linked :
      (me peer : String) (c : Discovery)
      → Linked me c
      → Linked me (handle_peer_found connect_fails peer c)
  unfolding handle_peer_found notify_new
  found-Linked me peer c h = elim (Bool-cases (str_eq peer c.self)) [
    | inl e ↦ simp e h
    | inr e ↦ elim (Option-cases (connect_fails peer)) [
      | inl good ↦ elim (Bool-cases (can_send c.new_conn)) [
        | inl y ↦
            simp (e, good, y) (record { self = h.self; new_conn = λ f. cc; on_ready = h.on_ready })
        | inr n ↦
            simp (e, good, n)
              (record { self = h.self; new_conn = h.new_conn; on_ready = h.on_ready })
      ]
      | inr (x, bad) ↦ simp (e, bad) h
    ]
  ]

  find_failed-Linked :
      (me : String) (f : Finder) (c : Discovery)
      → Linked me c
      → Returned (Linked me) (find_failed_turn connect_fails f c)
  find_failed-Linked me searching c h = record { at = tt }
  find_failed-Linked me _ c h = record { at = h }

  start_failed-Linked :
      (me : String) (f : Finder) (c : Discovery)
      → Linked me c
      → Returned (Linked me) (start_failed_turn connect_fails f c)
  start_failed-Linked me starting c h = record { at = tt }
  start_failed-Linked me _ c h = record { at = h }

  turn-Linked : (me : String) (t : Turn) → Keeps (Linked me) (turn connect_fails t)
  unfolding turn notify_ready
  turn-Linked me (found peer) = Keeps-modify _ (found-Linked me peer)
  turn-Linked me search = Keeps-modify _ λ c h. ground arith
  turn-Linked me find_failed = record { at = λ c h. find_failed-Linked me c.finder c h }
  turn-Linked me start_failed = record { at = λ c h. start_failed-Linked me c.finder c h }
  turn-Linked me listen = Keeps-modify _ λ c h. ground arith
  turn-Linked me proceed = Keeps-modify _ λ c h. ground arith
  turn-Linked me await = Keeps-modify _ λ c h. ground arith
  turn-Linked me timeout = Keeps-modify _ λ c h. ground arith
  turn-Linked me cancelled = Keeps-modify _ λ c h. ground arith

  run-Linked : (me : String) (turns : List Turn) → Keeps (Linked me) (run connect_fails turns)
  unfolding run
  run-Linked me [] = Keeps-pure tt
  run-Linked me (t ∷ rest) = Keeps-bind (turn-Linked me t) λ _. run-Linked me rest

  new-Linked : (self : String) (c : Discovery) → new mdns self tt ≡ ok tt c → Linked self c
  unfolding new
  new-Linked self c e =
      subst (Linked self) (ok-injective e).1
        (record { self = refl; new_conn = λ f. cc; on_ready = λ a. cc })

  found-heard :
      (peer : String) (c : Discovery)
      → str_eq peer c.self ≡ false
      → connect_fails peer ≡ none
      → c.new_conn ≡ receiver
      → c.awaiter ≡ waiting
      → c.on_ready ≡ receiver
      → Due (handle_peer_found connect_fails peer c)
  unfolding handle_peer_found notify_new
  found-heard peer c ne good n a r =
      simp (ne, good, n) (record { finder = refl; new_conn = refl; awaiter = a; on_ready = r })

  -- Over mDNS, after any turns of a new discovery that leave the goroutine of `New` at its `select`
  -- and the caller of `AwaitReady` waiting: where another peer is then found to which the connection
  -- is made, and the goroutine of `New` has its turn, behind any turns but the end of the caller's
  -- context, the caller is ready after it, no turn panics, and no later turn changes that.
  pub run-mdns-ready :
      (self peer : String) (before between after : List Turn) (c0 c : Discovery)
      → new mdns self tt ≡ ok tt c0
      → run connect_fails before c0 ≡ ok c tt
      → c.finder ≡ listening
      → c.awaiter ≡ waiting
      → str_eq peer self ≡ false
      → connect_fails peer ≡ none
      → All (λ t. t ≢ timeout) between
      → Succeeds
          (λ u _. u.awaiter ≡ ready)
          (run connect_fails (found peer ∷ between ++ proceed ∷ after) c)
  unfolding run turn
  run-mdns-ready self peer before between after c0 c is_new ran listens waits ne good calm =
      let l : Linked self c =
        (subst (Returned (Linked self)) ran
          ((run-Linked self before).at c0 (new-Linked self c0 is_new))).at in
      run-Due between after (handle_peer_found connect_fails peer c) calm
        (found-heard peer c (rw l.self ne) good (l.new_conn listens) waits (l.on_ready waits))
