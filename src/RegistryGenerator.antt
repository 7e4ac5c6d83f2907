-- ===== src/RegistryGenerator.antt =====
-- The key files of registry_generator.go, and `loadOrGenerateKeys` of main.go. The files are a map
-- from names to contents, as far as os.ReadFile and os.WriteFile see them.
pub mod KeyFiles
pub mod Written
pub mod Registry
use peerprint.Base.{
  ℕ, suc, String, Bool, true, false, not, Option, none, some, ◌&&◌, ◌+◌, if◌then◌else◌,
}
use peerprint.Base.Go.{
  Go, Outcome, ok, err, Error, Attempt, keypair, marshal_key, write_file, read_file, unmarshal_key,
  no_such_file, partial_keys, pure, fail, gets, modify, wrap, given, ◌>>=◌, ◌>>◌,
}
use peerprint.Base.Dict.{Dict, lookup, insert}

-- The calls of the crypto library; a pair that is generated depends on how many were before.
pub record Crypto (Priv Pub Bytes : Type 0) : Type 0 where
  pub generate : ℕ → Attempt (Priv × Pub)
  pub marshal_private : Priv → Attempt Bytes
  pub marshal_public : Pub → Attempt Bytes
  pub unmarshal_private : Bytes → Attempt Priv
  pub unmarshal_public : Bytes → Attempt Pub

pub record Disk (Bytes : Type 0) : Type 0 where
  pub files : Dict Bytes
  pub generated : ℕ
  pub write_fails : String → Option Error

abbrev pub differ : Bool → Bool → Bool
differ true b = not b
differ false b = b

module _ {Priv Pub Bytes : Type 0} (crypto : Crypto Priv Pub Bytes) where
  abbrev pub write_file_to : String → Bytes → Go (Disk Bytes) (Unit {0})
  write_file_to path content d = elim (d.write_fails path) [
    | some e ↦ err d e
    | none ↦ ok (record d { files = insert path content d.files }) tt
  ]

  abbrev pub contents : Option Bytes → Go (Disk Bytes) Bytes
  contents none = fail no_such_file
  contents (some content) = pure content

  abbrev pub read_file_from : String → Go (Disk Bytes) Bytes
  read_file_from path d = contents (lookup path d.files) d

  abbrev pub generate_pair : Go (Disk Bytes) (Priv × Pub)
  generate_pair = do
    n ← gets (λ d. d.generated)
    modify (λ d. record d { generated = suc n })
    given (crypto.generate n)

  unfoldable pub gen_key_pair_file : String → String → Go (Disk Bytes) (Priv × Pub)
  gen_key_pair_file privkey_file pubkey_file = do
    (priv, public) ← wrap keypair generate_pair
    private_data ← wrap marshal_key (given (crypto.marshal_private priv))
    wrap (write_file privkey_file) (write_file_to privkey_file private_data)
    public_data ← wrap marshal_key (given (crypto.marshal_public public))
    wrap (write_file pubkey_file) (write_file_to pubkey_file public_data)
    pure (priv, public)

  unfoldable pub load_keys : String → String → Go (Disk Bytes) (Priv × Pub)
  load_keys privkey_file pubkey_file = do
    private_data ← wrap (read_file privkey_file) (read_file_from privkey_file)
    priv ← wrap unmarshal_key (given (crypto.unmarshal_private private_data))
    public_data ← wrap (read_file pubkey_file) (read_file_from pubkey_file)
    public ← wrap unmarshal_key (given (crypto.unmarshal_public public_data))
    pure (priv, public)

  abbrev pub is_file : Option Bytes → Bool
  is_file none = false
  is_file (some content) = true

  unfoldable pub file_exists : String → Disk Bytes → Bool
  file_exists path d = is_file (lookup path d.files)

  unfoldable pub load_or_generate_keys : String → String → Go (Disk Bytes) (Priv × Pub)
  unfolding file_exists gen_key_pair_file load_keys
  load_or_generate_keys privkey_file pubkey_file = do
    priv_ex ← gets (λ d. file_exists privkey_file d)
    pub_ex ← gets (λ d. file_exists pubkey_file d)
    if differ pub_ex priv_ex
        then fail partial_keys
        else if priv_ex && pub_ex
        then load_keys privkey_file pubkey_file
        else gen_key_pair_file privkey_file pubkey_file
