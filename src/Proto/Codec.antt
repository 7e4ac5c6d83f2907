-- ===== src/Proto/Codec.antt =====
-- The calls of the protobuf library that wrap a message for transport, and what it documents of them.
use peerprint.Base.{String, none, some, List, [], ◌∷◌, ◌≡◌, ◌≢◌}
use peerprint.Base.Go.{Attempt, succeeded, Error}
use peerprint.Base.Dict.{lookup}
use peerprint.Proto.Jobs.{State, get_jobs}
use peerprint.Proto.Message.{Message}

pub record Codec (Any Bytes : Type 0) : Type 0 where
  pub any_new : Message → Attempt Any  -- anypb.New
  pub marshal : Any → Attempt Bytes  -- proto.Marshal
  pub unmarshal : Bytes → Attempt Any  -- proto.Unmarshal into an Any
  pub unmarshal_new : Any → Attempt Message  -- any.UnmarshalNew

abbrev pub All {ℓ κ} : {A : Type ℓ} → (A → Type κ) → List A → Type κ
All P [] = Unit
All P (x ∷ xs) = P x × All P xs

abbrev pub Pairwise {ℓ ℓ'} :
    {A : Type ℓ} {B : Type ℓ'} → (A → B → Type 0) → List A → List B → Type 0
Pairwise R [] [] = Unit
Pairwise R (x ∷ xs) (y ∷ ys) = R x y × Pairwise R xs ys
Pairwise R [] (y ∷ ys) = ⊥
Pairwise R (x ∷ xs) [] = ⊥

abbrev pub NoNilJob : State → Type 0
NoNilJob s = (k : String) → lookup k (get_jobs s) ≢ some none

-- No nil pointer stands where protobuf cannot write one: for the message itself, in a map or in a
-- list.
abbrev pub Plain : Message → Type 0
Plain (Message.state none) = ⊥
Plain (Message.state (some s)) = NoNilJob s
Plain (Message.peers_summary s) = All (λ p. p ≢ none) s.sample
Plain _ = Unit

abbrev pub SameJobs : State → State → Type 0
SameJobs s s' = (k : String) → lookup k (get_jobs s') ≡ lookup k (get_jobs s)

-- What is read of a message: the message, but an empty map may come back as a nil one, and an error
-- as its text alone.
abbrev pub Same : Message → Message → Type 0
Same (Message.state (some s)) m' = (s' : State) × (m' ≡ Message.state (some s')) × SameJobs s s'
Same (Message.error e) m' = (e' : Error) × (m' ≡ Message.error e')
Same m m' = m' ≡ m

module _ {Any Bytes : Type 0} (codec : Codec Any Bytes) where
  -- `m` is wrapped and written as `b`
  abbrev pub Writes : Message → Bytes → Type 0
  Writes m b = (a : Any) × (codec.any_new m ≡ succeeded a) × (codec.marshal a ≡ succeeded b)

  abbrev pub Reads : Bytes → Message → Type 0
  Reads b m = (a : Any) × (codec.unmarshal b ≡ succeeded a) × (codec.unmarshal_new a ≡ succeeded m)

  -- a message without stray nil pointers that the codec can write
  abbrev pub Writable : Message → Type 0
  Writable m = Plain m × ((b : Bytes) × Writes m b)

  abbrev pub Written : Message → Bytes → Type 0
  Written m b = Plain m × Writes m b

  -- What the library documents: of a message that could be written, the same is read.
  pub record Faithful : Type 0 where
    pub reads :
        (m : Message) (b : Bytes) → Plain m → Writes m b → (m' : Message) × Reads b m' × Same m m'
