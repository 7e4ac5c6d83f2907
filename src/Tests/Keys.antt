-- ===== src/Tests/Keys.antt =====
-- Key files over keys that are numbers.
use peerprint.Base.{sym, String, ◌≢◌, arith, eq_iff, ℕ, none, [], ◌∷◌, ◌≡◌, refl}
use peerprint.Base.Go.{ok, err, succeeded, partial_keys}
use peerprint.Base.Post.{Ensures}
use peerprint.Base.Dict.{lookup}
use peerprint.RegistryGenerator.{Crypto, Disk, load_or_generate_keys}
use peerprint.RegistryGenerator.Written.{KeysRoundTrip}
use peerprint.RegistryGenerator.KeyFiles.{load_or_generate_keys-Loads}

abbrev numbers : Crypto ℕ ℕ ℕ
numbers = record {
  generate = λ n. succeeded (n, n);
  marshal_private = λ k. succeeded k;
  marshal_public = λ k. succeeded k;
  unmarshal_private = λ b. succeeded b;
  unmarshal_public = λ b. succeeded b;
}

numbers-KeysRoundTrip : KeysRoundTrip numbers
numbers-KeysRoundTrip = record { private_lem = λ k b e. sym e; public_lem = λ k b e. sym e }

abbrev empty : Disk ℕ
empty = record { files = []; generated = 7; write_fails = λ path. none }

-- the public key's file is missing
partial :
    load_or_generate_keys numbers "priv" "pub" (record empty { files = ("priv", 1) ∷ [] })
    ≡ err (record empty { files = ("priv", 1) ∷ [] }) partial_keys
unfolding load_or_generate_keys lookup
partial = refl

pub_not_priv : ◌≢◌ {A = String} "pub" "priv"
pub_not_priv e = ground (arith, eq_iff "pub" "priv")

load_or_generate_keys-Loads_example :
    Ensures
      (λ d keys. load_or_generate_keys numbers "priv" "pub" d ≡ ok d keys)
      (λ _ _. Unit {0})
      (load_or_generate_keys numbers "priv" "pub" empty)
load_or_generate_keys-Loads_example =
    load_or_generate_keys-Loads numbers numbers-KeysRoundTrip "priv" "pub" pub_not_priv empty
