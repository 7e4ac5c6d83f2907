-- ===== src/Base/Post.antt =====
-- Postconditions of Go calls, and one rule for each way to build a call. A call that does not
-- return meets any postcondition.
use mathlib.Core.Path.{◌≡◌, refl}
use mathlib.Core.Logic.{◌⊎◌, inl, inr}
use peerprint.Base.Go.{
  Attempt, failed, succeeded, Error, Outcome, ok, err, halt, and_then, wrap_outcome, within_outcome,
  attempt_outcome,
}

abbrev pub Post {ℓ κ} :
    {S A : Type ℓ} → (S → A → Type κ) → (S → Error → Type κ) → Outcome S A → Type κ
Post Q E (ok s a) = Q s a
Post Q E (err s e) = E s e
Post Q E (halt x) = Unit

-- `Q` holds of the state and the value on success, `E` of the state beside an error.
pub record Ensures {ℓ κ} {S A : Type ℓ} (Q : S → A → Type κ) (E : S → Error → Type κ)
    (o : Outcome S A) : Type κ where
  pub at : Post Q E o

-- `P` holds of the state, however the call comes back.
abbrev pub Returned {ℓ κ} : {S A : Type ℓ} → (S → Type κ) → Outcome S A → Type κ
Returned P = Ensures (λ s _. P s) (λ s _. P s)

module _ {ℓ κ} {S A : Type ℓ} {Q : S → A → Type κ} {E : S → Error → Type κ} where
  pub Ensures-ok : (s : S) (a : A) → Q s a → Ensures Q E (ok s a)
  Ensures-ok s a h = record { at = h }

  pub Ensures-err : (s : S) (e : Error) → E s e → Ensures Q E (err s e)
  Ensures-err s e h = record { at = h }

  pub Ensures-bind :
      {B : Type ℓ} {Q' : S → B → Type κ} (o : Outcome S A) (f : A → S → Outcome S B)
      → Ensures Q E o
      → ((s : S) (a : A) → Q s a → Ensures Q' E (f a s))
      → Ensures Q' E (and_then o f)
  Ensures-bind (ok s a) f h k = k s a h.at
  Ensures-bind (err s e) f h k = record { at = h.at }
  Ensures-bind (halt x) f h k = record { at = tt }

  pub Ensures-wrap :
      (w : Error → Error) (o : Outcome S A)
      → Ensures Q (λ s e. E s (w e)) o
      → Ensures Q E (wrap_outcome w o)
  Ensures-wrap w (ok s a) h = record { at = h.at }
  Ensures-wrap w (err s e) h = record { at = h.at }
  Ensures-wrap w (halt x) h = record { at = tt }

  pub Ensures-within :
      {T : Type ℓ} (back : T → S) (o : Outcome T A)
      → Ensures (λ t a. Q (back t) a) (λ t e. E (back t) e) o
      → Ensures Q E (within_outcome back o)
  Ensures-within back (ok t a) h = record { at = h.at }
  Ensures-within back (err t e) h = record { at = h.at }
  Ensures-within back (halt x) h = record { at = tt }

  pub Ensures-mono :
      {Q' : S → A → Type κ} {E' : S → Error → Type κ} (o : Outcome S A)
      → Ensures Q E o
      → ((s : S) (a : A) → Q s a → Q' s a)
      → ((s : S) (e : Error) → E s e → E' s e)
      → Ensures Q' E' o
  Ensures-mono (ok s a) h f g = record { at = f s a h.at }
  Ensures-mono (err s e) h f g = record { at = g s e h.at }
  Ensures-mono (halt x) h f g = record { at = tt }

-- after an attempt the state is as the call left it, and the caller goes on
pub Returned-attempt {ℓ κ} :
    {S A : Type ℓ} {P : S → Type κ} (o : Outcome S A)
    → Returned P o
    → Returned P (attempt_outcome o)
Returned-attempt (ok s a) h = record { at = h.at }
Returned-attempt (err s e) h = record { at = h.at }
Returned-attempt (halt x) h = record { at = tt }

-- The call returns a value, and `Q` holds of the state and that value.
abbrev pub Succeeds {ℓ κ} : {S A : Type ℓ} → (S → A → Type κ) → Outcome S A → Type (ℓ ⊔ κ)
Succeeds {S = S} {A = A} Q o = (s : S) × (a : A) × (o ≡ ok s a) × Q s a

-- An attempt itself returns no error.
pub Ensures-attempt {ℓ κ} :
    {S A : Type ℓ} {P : S → Type κ} {E : S → Error → Type κ} (o : Outcome S A)
    → Returned P o
    → Ensures (λ s _. P s) E (attempt_outcome o)
Ensures-attempt (ok s a) h = record { at = h.at }
Ensures-attempt (err s e) h = record { at = h.at }
Ensures-attempt (halt x) h = record { at = tt }

pub Attempt-cases :
    {A : Type 0} (r : Attempt A) → ((e : Error) × (r ≡ failed e)) ⊎ ((a : A) × (r ≡ succeeded a))
Attempt-cases (failed e) = inl (e, refl)
Attempt-cases (succeeded a) = inr (a, refl)

pub succeeded-injective :
    {A : Type 0} {a b : A} → ◌≡◌ {A = Attempt A} (succeeded a) (succeeded b) → a ≡ b
succeeded-injective e = cc (e)

pub ok-injective :
    {S A : Type 0} {s t : S} {a b : A} → ◌≡◌ {A = Outcome S A} (ok s a) (ok t b) → (s ≡ t) × (a ≡ b)
ok-injective e = (cc (e), cc (e))

pub Ensures-any {ℓ} :
    {S A : Type ℓ} (o : Outcome S A) → Ensures (λ _ _. Unit {0}) (λ _ _. Unit {0}) o
Ensures-any (ok s a) = record { at = tt }
Ensures-any (err s e) = record { at = tt }
Ensures-any (halt x) = record { at = tt }
