-- ===== src/Base/Keeps.antt =====
-- Invariants of Go calls: one rule for each way to build a call.
use peerprint.Base.Tests.{if◌then◌else◌}
use mathlib.Core.Bool.{Bool, true, false}
use mathlib.Core.Option.{Option, none, some}
use peerprint.Base.Go.{
  Go, Error, Fault, Outcome, pure, fail, stop, gets, modify, deref, attempt, ◌>>=◌,
}
use peerprint.Base.Post.{Returned, Ensures-bind, Returned-attempt}

-- Started where `P` holds, `m` comes back where `P` holds, if it comes back.
pub record Keeps {ℓ} {S A : Type ℓ} (P : S → Type ℓ) (m : Go S A) : Type ℓ where
  pub at : (s : S) → P s → Returned P (m s)

module _ {ℓ} {S : Type ℓ} {P : S → Type ℓ} where
  pub Keeps-pure : {A : Type ℓ} (a : A) → Keeps P (pure a)
  Keeps-pure a = record { at = λ s h. record { at = h } }

  pub Keeps-fail : {A : Type ℓ} (e : Error) → Keeps P (fail {A = A} e)
  Keeps-fail e = record { at = λ s h. record { at = h } }

  pub Keeps-stop : {A : Type ℓ} (x : Fault) → Keeps P (stop {A = A} x)
  Keeps-stop x = record { at = λ s h. record { at = tt } }

  pub Keeps-gets : {A : Type ℓ} (f : S → A) → Keeps P (gets f)
  Keeps-gets f = record { at = λ s h. record { at = h } }

  pub Keeps-modify : (f : S → S) → ((s : S) → P s → P (f s)) → Keeps P (modify f)
  Keeps-modify f k = record { at = λ s h. record { at = k s h } }

  pub Keeps-deref : {A : Type ℓ} (p : Option A) → Keeps P (deref p)
  Keeps-deref none = record { at = λ s h. record { at = tt } }
  Keeps-deref (some a) = record { at = λ s h. record { at = h } }

  pub Keeps-bind :
      {A B : Type ℓ} {m : Go S A} {f : A → Go S B}
      → Keeps P m
      → ((a : A) → Keeps P (f a))
      → Keeps P (m >>= f)
  Keeps-bind {m = m} {f = f} h k = record {
    at = λ s p. Ensures-bind (m s) f (h.at s p) (λ t a q. (k a).at t q);
  }

  pub Keeps-attempt : {A : Type ℓ} {m : Go S A} → Keeps P m → Keeps P (attempt m)
  Keeps-attempt {m = m} h = record { at = λ s p. Returned-attempt (m s) (h.at s p) }

  pub Keeps-if :
      {A : Type ℓ} (b : Bool) {m n : Go S A} → Keeps P m → Keeps P n → Keeps P (if b then m else n)
  Keeps-if true h k = h
  Keeps-if false h k = k

  pub Returned-if :
      {A : Type ℓ} (b : Bool) {o p : Outcome S A}
      → Returned P o
      → Returned P p
      → Returned P (if b then o else p)
  Returned-if true h k = h
  Returned-if false h k = k

  -- a test that reads the state
  pub Keeps-if_state :
      {A : Type ℓ} (b : S → Bool) {m n : Go S A}
      → Keeps P m
      → Keeps P n
      → Keeps P (λ s. if b s then m s else n s)
  Keeps-if_state b {m} {n} h k = record { at = λ s p. Returned-if (b s) (h.at s p) (k.at s p) }

pub ruleset keeps_rules = (
  Keeps-pure, Keeps-fail, Keeps-stop, Keeps-gets, Keeps-deref, Keeps-bind, Keeps-attempt, Keeps-if,
)
