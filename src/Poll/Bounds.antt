-- ===== src/Poll/Bounds.antt =====
-- How much a poll collects, and what it reports.
use peerprint.Base.{
  ℕ, suc, ◌+◌, ◌≤◌, ◌<◌, true, false, Option, List, [], ◌∷◌, ◌++◌, ◌≡◌, ◌⊎◌, inl, inr, refl, length,
  arith, ap, ◌∙◌,
}
use peerprint.Proto.Peers.{PeerStatus, PeersSummary}
use peerprint.Poll.{
  FloatOps, Updater, appending, sending, Poller, new, pause, resume, update_begin, update_append,
  on_tick, begin_poll, end_poll, summarise, summary, Step, fires, tick, begin, announce, done,
  timeout, end, report, update, append, paused, resumed, Reach, here, next,
}

pub length-snoc {ℓ} : {A : Type ℓ} (xs : List A) (a : A) → length (xs ++ a ∷ []) ≡ suc (length xs)
length-snoc [] a = refl
length-snoc (x ∷ xs) a = ap suc (length-snoc xs a)

-- room that the caller of `Update` still leaves: one status for each append that may follow
abbrev is_sending : Updater → ℕ
is_sending sending = 1
is_sending _ = 0

-- the polls that are under way
abbrev under_way : Poller → ℕ
under_way p = p.spawned + p.announcing + p.collecting + p.closing + p.summarising

record Inv (p : Poller) : Type 0 where
  positive : 0 < p.max_poll
  within : length p.poll_result + p.announcing + p.collecting ≤ p.max_poll + is_sending p.updater
  single : under_way p ≤ 1

-- Where a tick is taken, `polling` tells whether a poll is under way: none is between its spawn and
-- its first line, or between its end and its summary.
abbrev TickAlone : (f : FloatOps) {p q : Poller} → Step f p q → Type 0
TickAlone f {p} (tick t) = (p.polling ≡ true) ⊎ (under_way p ≡ 0)
TickAlone f _ = Unit

-- so at every tick of a run
abbrev pub Alone : (f : FloatOps) {p q : Poller} → Reach f p q → Type 0
Alone f here = Unit
Alone f (next r s) = Alone f r × TickAlone f s

update_append-Inv :
    (s : Option PeerStatus) (p : Poller) → p.updater ≡ appending s → Inv p → Inv (update_append s p)
unfolding update_append
update_append-Inv s p e h = ground (arith, length-snoc p.poll_result s)

tick-Inv : (p : Poller) → (p.polling ≡ true) ⊎ (under_way p ≡ 0) → Inv p → Inv (on_tick p)
unfolding on_tick
tick-Inv p (inl a) h = ground (arith, a)
tick-Inv p (inr a) h = ground (arith, a)

Step-Inv : (f : FloatOps) {p q : Poller} (s : Step f p q) → TickAlone f s → Inv p → Inv q
unfolding begin_poll end_poll summarise update_begin pause resume
Step-Inv f {p} (fires t) a h = ground arith
Step-Inv f {p} (tick t) a h = tick-Inv p a h
Step-Inv f {p} (begin n e) a h = ground arith
Step-Inv f {p} (announce n e u) a h = ground arith
Step-Inv f {p} (done n e u) a h = ground arith
Step-Inv f {p} (timeout n e) a h = ground arith
Step-Inv f {p} (end n e) a h = ground arith
Step-Inv f {p} (report taken n e u) a h = ground arith
Step-Inv f {p} (update s u) a h = ground arith
Step-Inv f {p} (append s u) a h = update_append-Inv s p u h
Step-Inv f {p} (paused u) a h = ground arith
Step-Inv f {p} (resumed u) a h = ground arith

-- every summary estimates from at most `bound` statuses
abbrev pub Reported : FloatOps → ℕ → List PeersSummary → Type 0
Reported f bound [] = Unit
Reported f bound (s ∷ l) = ((n : ℕ) × (n ≤ bound) × (s ≡ summary f n)) × Reported f bound l

record Bounded (f : FloatOps) (bound : ℕ) (p : Poller) : Type 0 where
  inv : Inv p
  same_max : p.max_poll + 1 ≡ bound
  reported : Reported f bound p.sent

Inv-length : (p : Poller) → Inv p → length p.poll_result ≤ p.max_poll + 1
Inv-length p h = ground (arith, h.within)

Step-same_max : (f : FloatOps) {p q : Poller} → Step f p q → q.max_poll ≡ p.max_poll
unfolding on_tick begin_poll end_poll summarise update_begin update_append pause resume
Step-same_max f {p} (fires t) = refl
Step-same_max f {p} (tick t) = ground arith
Step-same_max f {p} (begin n e) = refl
Step-same_max f {p} (announce n e u) = refl
Step-same_max f {p} (done n e u) = refl
Step-same_max f {p} (timeout n e) = refl
Step-same_max f {p} (end n e) = refl
Step-same_max f {p} (report taken n e u) = refl
Step-same_max f {p} (update s u) = ground arith
Step-same_max f {p} (append s u) = refl
Step-same_max f {p} (paused u) = refl
Step-same_max f {p} (resumed u) = refl

sent-on_tick : (p : Poller) → (on_tick p).sent ≡ p.sent
unfolding on_tick
sent-on_tick p = ground arith

sent-update_begin : (s : Option PeerStatus) (p : Poller) → (update_begin s p).sent ≡ p.sent
unfolding update_begin
sent-update_begin s p = ground arith

Step-Reported :
    (f : FloatOps) (bound : ℕ) {p q : Poller}
    → Step f p q
    → length p.poll_result ≤ bound
    → Reported f bound p.sent
    → Reported f bound q.sent
unfolding begin_poll end_poll summarise update_append pause resume
Step-Reported f bound {p} (fires t) h r = r
Step-Reported f bound {p} (tick t) h r = rw (sent-on_tick p) r
Step-Reported f bound {p} (begin n e) h r = r
Step-Reported f bound {p} (announce n e u) h r = r
Step-Reported f bound {p} (done n e u) h r = r
Step-Reported f bound {p} (timeout n e) h r = r
Step-Reported f bound {p} (end n e) h r = r
Step-Reported f bound {p} (report true n e u) h r = ((length p.poll_result, h, refl), r)
Step-Reported f bound {p} (report false n e u) h r = r
Step-Reported f bound {p} (update s u) h r = rw (sent-update_begin s p) r
Step-Reported f bound {p} (append s u) h r = r
Step-Reported f bound {p} (paused u) h r = r
Step-Reported f bound {p} (resumed u) h r = r

Reach-Bounded :
    (f : FloatOps) (bound : ℕ) {p q : Poller} (r : Reach f p q)
    → Alone f r
    → Bounded f bound p
    → Bounded f bound q
Reach-Bounded f bound here a h = h
Reach-Bounded f bound (next r s) a h =
    let b = Reach-Bounded f bound r a.0 h in
    record {
      inv = Step-Inv f s a.1 b.inv;
      same_max = ap suc_of (Step-same_max f s) ∙ b.same_max;
      reported = Step-Reported f bound s (omega (arith, Inv-length _ b.inv, b.same_max)) b.reported;
    }
  where
    suc_of : ℕ → ℕ
    suc_of n = n + 1

-- A new poller, in every state that it reaches by a run that is Alone (no tick is taken between the
-- spawn of a poll and its first line, or between its end and its summary), holds at most 101
-- statuses, one more than its bound of 100, and no result that it has sent estimates from more.
pub Reach-bounds :
    (f : FloatOps) (empty_summary : PeersSummary) (p : Poller) (r : Reach f (new empty_summary) p)
    → Alone f r
    → (length p.poll_result ≤ 101) × Reported f 101 p.sent
unfolding new
Reach-bounds f empty_summary p r alone =
    let b = Reach-Bounded f 101 r alone start in
    (omega (arith, Inv-length p b.inv, b.same_max), b.reported)
  where
    start : Bounded f 101 (new empty_summary)
    start = record {
      inv = record { positive = omega arith; within = omega arith; single = omega arith };
      same_max = refl;
      reported = tt;
    }
