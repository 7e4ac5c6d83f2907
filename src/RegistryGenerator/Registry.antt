-- ===== src/RegistryGenerator/Registry.antt =====
-- The registry of registry_generator.go: `genRegistry`, `GenRegistryFiles`, `writeAsYaml` and
-- `LoadRegistry`. The names that fmt and path/filepath make of the peers' numbers, the identity of
-- a public key and the JSON and YAML libraries are parameters; so are the random rendezvous and
-- the clock.
pub mod Back
pub mod Numbered
pub mod Trusted
use peerprint.Base.{ℕ, zero, suc, String, List, [], ◌∷◌, ◌++◌, ◌+◌}
use peerprint.Base.Go.{Go, Attempt, pure, given, ◌>>=◌}
use peerprint.Proto.Peers.{Queue, Registry}
use peerprint.RegistryGenerator.{Crypto, Disk, write_file_to, read_file_from, gen_key_pair_file}

-- the paths in the destination's directory
pub record Names : Type 0 where
  pub priv_key : ℕ → String
  pub pub_key : ℕ → String
  pub registry : String

-- protojson and ghodss/yaml
pub record Formats (Bytes Json : Type 0) : Type 0 where
  pub to_json : Registry → Attempt Json
  pub json_to_yaml : Json → Attempt Bytes
  pub yaml_to_json : Bytes → Attempt Json
  pub from_json : Json → Attempt Registry

module _ {Priv Pub Bytes Json : Type 0} (crypto : Crypto Priv Pub Bytes)
    (formats : Formats Bytes Json) where
  unfoldable pub write_as_yaml : Registry → String → Go (Disk Bytes) (Unit {0})
  write_as_yaml reg dest = do
    jdata ← given (formats.to_json reg)
    ydata ← given (formats.json_to_yaml jdata)
    write_file_to crypto dest ydata

  unfoldable pub load_registry : String → Go (Disk Bytes) Registry
  load_registry path = do
    yaml ← read_file_from crypto path
    j ← given (formats.yaml_to_json yaml)
    given (formats.from_json j)

abbrev pub registry_of : String → ℕ → List String → Registry
registry_of rendezvous now tp = record {
  created = now;
  url = "TODO: Provide a useful URL linking to registry maintainer details";
  queues =
      (record {
        name = "TODO: Name this queue";
        desc = "TODO: Provide a useful description for why users should join this queue";
        url = "TODO: Provide a working URL with more information about the queue";
        rendezvous = rendezvous;
        trusted_peers = tp;
      })
      ∷ [];
}

module _ {Pub Bytes : Type 0} (id_from_public : Pub → Attempt String) where
  unfoldable pub append_ids : List Pub → List String → Go (Disk Bytes) (List String)
  append_ids [] tp = pure tp
  append_ids (p ∷ ps) tp = do id ← given (id_from_public p); append_ids ps (tp ++ (id ∷ []))

  unfoldable pub gen_registry : String → ℕ → List Pub → Go (Disk Bytes) Registry
  gen_registry rendezvous now trusted_peers = do
    tp ← append_ids trusted_peers []
    pure (registry_of rendezvous now tp)

module _ {Priv Pub Bytes : Type 0} (crypto : Crypto Priv Pub Bytes) (names : Names) where
  -- the loop of GenRegistryFiles, `num` rounds from `i`
  unfoldable pub gen_keys : ℕ → ℕ → List Pub → Go (Disk Bytes) (List Pub)
  gen_keys zero i pubks = pure pubks
  gen_keys (suc num) i pubks = do
    (priv, public) ← gen_key_pair_file crypto (names.priv_key (i + 1)) (names.pub_key (i + 1))
    gen_keys num (i + 1) (pubks ++ (public ∷ []))

  unfoldable pub gen_registry_files :
      {Json : Type 0}
      → Formats Bytes Json
      → (Pub → Attempt String)
      → (rendezvous : String) (now : ℕ) → ℕ
      → Go (Disk Bytes) (Unit {0})
  gen_registry_files formats id_from_public rendezvous now num_peers = do
    pubks ← gen_keys num_peers 0 []
    reg ← gen_registry id_from_public rendezvous now pubks
    write_as_yaml crypto formats reg names.registry
