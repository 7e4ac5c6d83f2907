-- ===== src/Base/Go.antt =====
-- The behaviour of a Go call: it returns a value, returns an error, or does not return at all.
-- The state is what the call can write; it is kept beside an error, since Go undoes nothing.
use Prim.Native.String.{String}
use mathlib.Core.Option.{Option, none, some}

-- Why a goroutine stops short of a return.
pub data Fault : Type 0 where
  nil_dereference : Fault
  nil_map_write : Fault
  closed_channel : Fault
  blocked : Fault
  panicked : Fault
  out_of_range : Fault
  out_of_fuel : Fault  -- of the model, where a recursion has none left

-- An error value, by the call that makes it; `external` is the text of a library's error.
pub data Error : Type 0 where
  external : String → Error
  raft_get : Error → Error
  raft_get_nil : Error
  access_denied : String → String → String → Error
  job_not_found : Error
  on_delete_job : Error → Error
  on_acquire_job : Error → Error
  on_release_job : Error → Error
  no_handler : Error
  no_servers : Error
  not_agreed : Error
  not_a_state : Error
  nil_state : Error
  no_state : Error
  state_get : Error → Error
  bootstrap : Error → Error
  bad_peer : Error → Error
  no_connection : Error → Error
  any_cast : Error
  marshal_error : Error → Error
  publish_error : Error → Error
  join_failure : Error → Error
  subscribe_failure : Error → Error
  empty_message : Error
  unmarshal_error : Error → Error
  from_any_error : Error → Error
  receiver_error : Error → Error
  keypair : Error → Error
  marshal_key : Error → Error
  unmarshal_key : Error → Error
  write_file : String → Error → Error
  read_file : String → Error → Error
  no_such_file : Error
  partial_keys : Error
  usage : Error
  not_an_integer : Error
  write_registry : Error → Error

-- The pair of a value and an error that a caller looks at itself.
pub data Attempt {ℓ} (A : Type ℓ) : Type ℓ where
  failed : Error → Attempt A
  succeeded : A → Attempt A

pub data Outcome {ℓ} (S : Type ℓ) (A : Type ℓ) : Type ℓ where
  ok : S → A → Outcome S A
  err : S → Error → Outcome S A
  halt : Fault → Outcome S A

abbrev pub Go {ℓ} : Type ℓ → Type ℓ → Type ℓ
Go S A = S → Outcome S A

module _ {ℓ} {S : Type ℓ} where
  abbrev pub pure : {A : Type ℓ} → A → Go S A
  pure a s = ok s a

  abbrev pub fail : {A : Type ℓ} → Error → Go S A
  fail e s = err s e

  abbrev pub stop : {A : Type ℓ} → Fault → Go S A
  stop f s = halt f

  abbrev pub gets : {A : Type ℓ} → (S → A) → Go S A
  gets f s = ok s (f s)

  -- `if err != nil { return err }` after each call
  abbrev pub and_then : {A B : Type ℓ} → Outcome S A → (A → Go S B) → Outcome S B
  and_then (ok s a) f = f a s
  and_then (err s e) f = err s e
  and_then (halt x) f = halt x

  infixl 5 ◌>>=◌
  abbrev pub ◌>>=◌ : {A B : Type ℓ} → Go S A → (A → Go S B) → Go S B
  ◌>>=◌ m f s = and_then (m s) f

  -- `fmt.Errorf("...: %w", err)` on the error path
  abbrev pub wrap_outcome : {A : Type ℓ} → (Error → Error) → Outcome S A → Outcome S A
  wrap_outcome w (ok s a) = ok s a
  wrap_outcome w (err s e) = err s (w e)
  wrap_outcome w (halt x) = halt x

  abbrev pub wrap : {A : Type ℓ} → (Error → Error) → Go S A → Go S A
  wrap w m s = wrap_outcome w (m s)

  -- reading through a pointer
  abbrev pub deref : {A : Type ℓ} → Option A → Go S A
  deref none s = halt nil_dereference
  deref (some a) s = ok s a

-- A caller that looks at the error itself and goes on.
abbrev pub attempt_outcome {ℓ} : {S A : Type ℓ} → Outcome S A → Outcome S (Attempt A)
attempt_outcome (ok s a) = ok s (succeeded a)
attempt_outcome (err s e) = ok s (failed e)
attempt_outcome (halt x) = halt x

abbrev pub attempt {ℓ} : {S A : Type ℓ} → Go S A → Go S (Attempt A)
attempt m s = attempt_outcome (m s)

abbrev pub modify {ℓ} : {S : Type ℓ} → (S → S) → Go S (Unit {ℓ})
modify f s = ok (f s) tt

infixl 5 ◌>>◌
abbrev pub ◌>>◌ {ℓ} : {S B : Type ℓ} → Go S (Unit {ℓ}) → Go S B → Go S B
m >> k = m >>= λ _. k

-- A call on a part of the state, such as a field that holds another object.
abbrev pub within_outcome {ℓ} : {S T A : Type ℓ} → (T → S) → Outcome T A → Outcome S A
within_outcome back (ok t a) = ok (back t) a
within_outcome back (err t e) = err (back t) e
within_outcome back (halt x) = halt x

abbrev pub within {ℓ} : {S T A : Type ℓ} → (S → T) → (T → S → S) → Go T A → Go S A
within part put m s = within_outcome (λ t. put t s) (m (part s))

-- A library call that only computes.
abbrev pub given {ℓ} : {S A : Type ℓ} → Attempt A → Go S A
given (failed e) = fail e
given (succeeded a) = pure a

-- `if err != nil { panic(err) }`
abbrev pub must_outcome {ℓ} : {S A : Type ℓ} → Outcome S A → Outcome S A
must_outcome (ok s a) = ok s a
must_outcome (err s e) = halt panicked
must_outcome (halt x) = halt x

abbrev pub must {ℓ} : {S A : Type ℓ} → Go S A → Go S A
must m s = must_outcome (m s)
