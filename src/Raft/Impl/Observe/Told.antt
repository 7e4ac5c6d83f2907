-- ===== src/Raft/Impl/Observe/Told.antt =====
-- Whether the server hears of each change of leader.
use peerprint.Base.{
  ℕ, ◌<◌, String, ◌≡◌, ◌≢◌, ◌⊎◌, inl, inr, refl, sym, ◌∙◌, ap, arith, eq_iff, eq_refl, str_eq, ltb,
  Bool-cases,
}
use peerprint.Base.Go.{ok}
use peerprint.Base.Post.{ok-injective}
use peerprint.Raft.External.{External}
use peerprint.Raft.Impl.{RaftImpl, leader}
use peerprint.Raft.Impl.Observe.{
  Watch, Watched, notice, observe, start, Step, change, round, receive, Reach, here, next,
}

module _ {W : Type 0} (ext : External W) (ri : RaftImpl W) (who : W → String)
    (reads : (w : W)
      → leader ext (record ri { world = w }) ≡ ok (record ri { world = w }) (who w)) where
  -- something waits in the channel, or the server has heard, or the next round will see it
  record Told (s : Watched W) : Type 0 where
    at : (0 < s.watch.pending) ⊎ ((s.heard ≡ who s.world) ⊎ (who s.world ≢ s.watch.last))

  -- the leader does not come back to the one that the goroutine saw last
  abbrev pub NoReturn : Watch → W → Type 0
  NoReturn w v = who v ≢ w.last

  notice-Told :
      (l heard : String) (w : Watch)
      → (0 < w.pending) ⊎ ((heard ≡ l) ⊎ (l ≢ w.last))
      → (0 < (notice l w).pending) ⊎ ((heard ≡ l) ⊎ (l ≢ (notice l w).last))
  unfolding notice
  notice-Told l heard w h = elim (Bool-cases (str_eq l w.last)) [
    | inl e ↦ rw e h
    | inr e ↦ elim (Bool-cases (ltb w.pending 5)) [
      | inl f ↦ rw (e, f) (inl (omega arith))
      | inr f ↦ rw (e, f) h
    ]
  ]

  observe-notice :
      (v : W) (w : Watch)
      → observe ext w (record ri { world = v }) ≡ ok (record ri { world = v }) (notice (who v) w)
  unfolding observe
  observe-notice v w = rw (reads v) refl

  Step-Told : {s t : Watched W} → Step ext ri NoReturn s t → Told s → Told t
  Step-Told (change w n) h = record { at = inr (inr n) }
  Step-Told {s} (round e) h =
      let (eu, ew) = ok-injective (sym (observe-notice s.world s.watch) ∙ e) in
      rw (sym eu, sym ew) (record { at = notice-Told (who s.world) s.heard s.watch h.at })
  Step-Told {s} (receive p e) h =
      let (eu, el) = ok-injective (sym (reads s.world) ∙ e) in
      rw (sym eu, sym el) (record { at = inr (inl refl) })

  Reach-at : {s t : Watched W} → Told s → Reach ext ri NoReturn s t → Told t
  Reach-at h here = h
  Reach-at h (next r st) = Step-Told st (Reach-at h r)

  -- Where `Leader` returns who leads and changes nothing, and nobody leads at the start: while the
  -- leader never comes back to the one that `observeLeadership` saw last, no change of leader is
  -- lost: whenever nothing waits in `LeaderChan`, the server has heard of the leader, or the leader
  -- differs from the one seen last, so that the next round announces it.
  pub Reach-told :
      {w : W} {s : Watched W}
      → who w ≡ ""
      → Reach ext ri NoReturn (start w) s
      → s.watch.pending ≡ 0
      → (s.heard ≡ who s.world) ⊎ (who s.world ≢ s.watch.last)
  Reach-told {s = s} e r z = elim (Reach-at (record { at = inr (inl (sym e)) }) r).at [
    | inl p ↦ absurd (omega arith)
    | inr h ↦ h
  ]

  abbrev pub AnyChange : Watch → W → Type 0
  AnyChange w v = Unit

  abbrev pub NoChange : Watch → W → Type 0
  NoChange w v = ⊥

  -- the leader of `a` was seen last, and that of `b` heard
  abbrev pub missed : W → W → Watched W
  missed a b = record { world = a; watch = record { last = who a; pending = 0 }; heard = who b }

  notice-first :
      (l : String)
      → l ≢ ""
      → notice l (record { last = ""; pending = 0 }) ≡ record { last = l; pending = 1 }
  unfolding notice
  notice-first l n = elim (Bool-cases (str_eq l "")) [
    | inl e ↦ absurd (n ((eq_iff l "").0 e))
    | inr e ↦ rw e refl
  ]

  notice-seen :
      (l : String) (n : ℕ)
      → notice l (record { last = l; pending = n }) ≡ record { last = l; pending = n }
  unfolding notice
  notice-seen l n = rw (eq_refl l) refl

  Reach-missed : (a b : W) → who a ≢ "" → Reach ext ri AnyChange (start a) (missed a b)
  Reach-missed a b n =
      next
        (next
          (next
            (next here (
              round (
                observe-notice a (record { last = ""; pending = 0 })
                ∙ ap (ok (record ri { world = a })) (notice-first (who a) n))))
            (change b tt))
          (receive refl (reads b)))
        (change a tt)

  -- unless the leader changes, nothing does
  Step-missed :
      (a b : W) {s t : Watched W} → Step ext ri NoChange s t → s ≡ missed a b → t ≡ missed a b
  Step-missed a b (change w n) e = absurd n
  Step-missed a b {s} (round g) e =
      let (eu, ew) = ok-injective (sym (observe-notice s.world s.watch) ∙ g) in
      rw (sym eu, sym ew)
        (ap
            (λ (z : Watched W). record {
              world = z.world;
              watch = notice (who z.world) z.watch;
              heard = z.heard;
            })
            e
          ∙ ap (λ (k : Watch). record (missed a b) { watch = k }) (notice-seen (who a) 0))
  Step-missed a b {s} (receive p g) e =
      absurd (omega (arith, ap (λ (z : Watched W). z.watch.pending) e))

  stays-missed : (a b : W) {s : Watched W} → Reach ext ri NoChange (missed a b) s → s ≡ missed a b
  stays-missed a b here = refl
  stays-missed a b (next r st) = Step-missed a b st (stays-missed a b r)

  -- Where `Leader` returns who leads and changes nothing: a leader that comes back between two
  -- rounds is lost. The server can come to have heard of a second leader while the first leads
  -- again, and unless the leader changes once more it stays so, whatever rounds and receives follow.
  pub Reach-lost :
      (a b : W) {s : Watched W}
      → who a ≢ ""
      → Reach ext ri NoChange (missed a b) s
      → Reach ext ri AnyChange (start a) (missed a b) × (s.heard ≡ who b) × (who s.world ≡ who a)
  Reach-lost a b n r =
      let e = stays-missed a b r in
      (Reach-missed a b n, ap (λ u. u.heard) e, ap (λ u. who u.world) e)
