-- ===== src/Base/Back.antt =====
-- Go calls that come back, with a value or an error: one rule for each way to build a call.
use peerprint.Base.Go.{
  Go, Attempt, failed, succeeded, Error, Outcome, ok, err, halt, and_then, wrap_outcome, given,
}

abbrev pub IsBack {ℓ} : {S A : Type ℓ} → Outcome S A → Type 0
IsBack (ok s a) = Unit
IsBack (err s e) = Unit
IsBack (halt x) = ⊥

-- The call neither panics nor blocks.
pub record ComesBack {ℓ} {S A : Type ℓ} (o : Outcome S A) : Type 0 where
  pub at : IsBack o

module _ {ℓ} {S A : Type ℓ} where
  pub ComesBack-bind :
      {B : Type ℓ} (o : Outcome S A) (f : A → Go S B)
      → ComesBack o
      → ((a : A) (s : S) → ComesBack (f a s))
      → ComesBack (and_then o f)
  ComesBack-bind (ok s a) f h k = k a s
  ComesBack-bind (err s e) f h k = record { at = tt }
  ComesBack-bind (halt x) f h k = absurd h.at

  pub ComesBack-wrap :
      (w : Error → Error) (o : Outcome S A) → ComesBack o → ComesBack (wrap_outcome w o)
  ComesBack-wrap w (ok s a) h = record { at = tt }
  ComesBack-wrap w (err s e) h = record { at = tt }
  ComesBack-wrap w (halt x) h = absurd h.at

  pub ComesBack-given : (r : Attempt A) (s : S) → ComesBack (given r s)
  ComesBack-given (failed e) s = record { at = tt }
  ComesBack-given (succeeded a) s = record { at = tt }
