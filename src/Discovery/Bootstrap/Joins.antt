-- ===== src/Discovery/Bootstrap/Joins.antt =====
-- The turns of `initDHT` and of its goroutines (discovery.go), counted.
use peerprint.Base.{
  ℕ, suc, ◌+◌, ◌*◌, ◌≤◌, String, true, false, Option, List, [], ◌∷◌, ◌++◌, ◌≡◌, ◌⊎◌, inl, inr, refl,
  sym, subst, ap, ◌∙◌, length, arith, Option-cases, Bool-cases, if◌then◌else◌,
}
use peerprint.Base.Go.{Error, ok, succeeded}
use peerprint.Base.Post.{Succeeds, ok-injective}
use peerprint.Discovery.Bootstrap.{
  Boot, start_dht, start_peer, bootstrap_peer, Step, add, finish, wait, Run, here, next,
}

-- with `total` peers to start with, after `n` turns
pub record Counted (total n : ℕ) (b : Boot) : Type 0 where
  pub counter : b.wg ≡ length b.running
  pub shared : length b.to_start + length b.running + (length b.connected + length b.warned) ≡ total
  pub turns :
      n + 2 * length b.to_start + length b.running + (if b.returned then 0 else 1) ≡ 2 * total + 1
  pub over : b.returned ≡ true → (b.to_start ≡ []) × (b.running ≡ [])

length-insert :
    (before after : List String) (peer : String)
    → length (before ++ peer ∷ after) ≡ suc (length (before ++ after))
length-insert [] after peer = refl
length-insert (x ∷ before) after peer = ap suc (length-insert before after peer)

length-snoc : {A : Type 0} (xs : List A) (x : A) → length (xs ++ x ∷ []) ≡ suc (length xs)
length-snoc [] x = refl
length-snoc (y ∷ xs) x = ap suc (length-snoc xs x)

start_peer-Counted :
    {total n : ℕ} (peer : String) (rest : List String) (b : Boot)
    → b.to_start ≡ peer ∷ rest
    → Counted total n b
    → Counted total (suc n) (start_peer peer rest b)
unfolding start_peer
start_peer-Counted peer rest b e c =
    let more = length-snoc b.running peer in
    let started : length b.to_start ≡ suc (length rest) = ap length e in
    record {
      counter = rw more (ap suc c.counter);
      shared = omega (arith, more, started, c.shared);
      turns = omega (arith, more, started, c.turns);
      over = λ r. absurd (cons_ne peer rest (sym e ∙ (c.over r).0));
    }
  where
    cons_ne : (x : String) (xs : List String) → x ∷ xs ≡ [] → ⊥
    cons_ne x xs p = cc

-- The counter of the WaitGroup is not zero while a goroutine runs, so that its `Done` comes back.
bootstrap_peer-Counted :
    {total n : ℕ} (connect_fails : String → Option Error) (before after : List String)
    (peer : String) (b : Boot)
    → b.running ≡ before ++ peer ∷ after
    → Counted total n b
    → Succeeds
        (λ u _. Counted total (suc n) u)
        (bootstrap_peer connect_fails peer (before ++ after) b)
unfolding bootstrap_peer
bootstrap_peer-Counted connect_fails before after peer b e c =
    let less : length b.running ≡ suc (length (before ++ after)) =
      ap length e ∙ length-insert before after peer in
    let up : b.wg ≡ suc (length (before ++ after)) = c.counter ∙ less in
    let still : b.returned ≡ true → (b.to_start ≡ []) × (before ++ after ≡ []) = λ r.
      let none_left : length b.running ≡ 0 = ap length (c.over r).1 in
      absurd (omega (arith, less, none_left)) in
    elim (Option-cases (connect_fails peer)) [
      | inl w ↦
          let warm = length-snoc b.connected peer in
          rw (w, up)
            (
              record b {
                connected = b.connected ++ peer ∷ [];
                running = before ++ after;
                wg = length (before ++ after);
              },
              tt,
              refl,
              record {
                counter = refl;
                shared = omega (arith, less, warm, c.shared);
                turns = omega (arith, less, c.turns);
                over = still;
              },
            )
      | inr (x, w) ↦
          let warm = length-snoc b.warned x in
          rw (w, up)
            (
              record b {
                warned = b.warned ++ x ∷ [];
                running = before ++ after;
                wg = length (before ++ after);
              },
              tt,
              refl,
              record {
                counter = refl;
                shared = omega (arith, less, warm, c.shared);
                turns = omega (arith, less, c.turns);
                over = still;
              },
            )
    ]

empty : {A : Type 0} (l : List A) → length l ≡ 0 → l ≡ []
empty [] e = refl
empty (x ∷ l) e = absurd (omega (arith, e))

module _ (connect_fails : String → Option Error) where
  Step-Counted :
      {total n : ℕ} {b u : Boot}
      → Counted total n b
      → Step connect_fails b u
      → Counted total (suc n) u
  Step-Counted {b = b} c (add {peer} {rest} e) = start_peer-Counted peer rest b e c
  Step-Counted {total} {n} {b} c (finish before after peer e q) =
      let (u, x, q', h) = bootstrap_peer-Counted connect_fails before after peer b e c in
      subst (Counted total (suc n)) (ok-injective (sym q' ∙ q)).0 h
  Step-Counted {b = b} c (wait e r z) = record {
    counter = c.counter;
    shared = c.shared;
    turns = omega (arith, rw r at c.turns);
    over = λ _. (e, empty b.running (sym c.counter ∙ z));
  }

  Run-Counted :
      {total : ℕ} {b u : Boot} {n : ℕ}
      → Counted total 0 b
      → Run connect_fails b u n
      → Counted total n u
  Run-Counted c here = c
  Run-Counted c (next r s) = Step-Counted (Run-Counted c r) s

  -- a goroutine that runs can finish, one that waits can start, and the wait can end
  progress :
      {total n : ℕ} (b : Boot)
      → Counted total n b
      → b.returned ≡ false
      → (u : Boot) × Step connect_fails b u
  progress b c r = started b.to_start refl
    where
      running_or_over :
          b.to_start ≡ [] → (l : List String) → b.running ≡ l → (u : Boot) × Step connect_fails b u
      running_or_over e [] q = (record b { returned = true }, wait e r (c.counter ∙ ap length q))
      running_or_over e (p ∷ l) q =
          let (u, x, f, h) = bootstrap_peer-Counted connect_fails [] l p b q c in
          (u, finish [] l p q f)

      started : (l : List String) → b.to_start ≡ l → (u : Boot) × Step connect_fails b u
      started [] e = running_or_over e b.running refl
      started (p ∷ l) e = (start_peer p l b, add e)

  -- Whichever connections fail and in whatever order the goroutines take turns, `initDHT` comes
  -- back behind its first calls: a run has at most two turns for each bootstrap peer and one for the
  -- wait; where it has not come to its end it can go on; and at the end no goroutine runs, and as
  -- many peers are connected or warned of as there were.
  pub init_dht-returns :
      (peers : List String) {b u : Boot} {n : ℕ}
      → start_dht (succeeded tt) (succeeded tt) peers tt ≡ ok tt b
      → Run connect_fails b u n
      → (n ≤ 2 * length peers + 1)
        × (((v : Boot) × Step connect_fails u v)
            ⊎ ((u.returned ≡ true)
                × (u.running ≡ [])
                × (length u.connected + length u.warned ≡ length peers)))
  unfolding start_dht
  init_dht-returns peers {b} {u} {n} e r =
      let c0 : Counted (length peers) 0 b =
        subst (Counted (length peers) 0) (ok-injective e).1
          (record { counter = refl; shared = omega arith; turns = omega arith; over = λ r. cc }) in
      let c = Run-Counted c0 r in
      (
        omega (arith, c.turns),
        elim (Bool-cases u.returned) [
          | inr not_yet ↦ inl (progress u c not_yet)
          | inl y ↦
              let (no_more, idle) = c.over y in
              inr (y, idle, omega (arith, c.shared, ap length no_more, ap length idle))
        ],
      )
