-- ===== src/RegistryGenerator/Registry/Back.antt =====
-- GenRegistryFiles of registry_generator.go always comes back.
use peerprint.Base.{ℕ, zero, suc, ◌+◌, String, List, [], ◌∷◌, ◌++◌, inl, inr, Option-cases}
use peerprint.Base.Go.{Attempt}
use peerprint.Base.Back.{ComesBack, ComesBack-bind, ComesBack-wrap, ComesBack-given}
use peerprint.RegistryGenerator.{Crypto, Disk, write_file_to, gen_key_pair_file}
use peerprint.RegistryGenerator.Registry.{
  Names, Formats, write_as_yaml, append_ids, gen_registry, gen_keys, gen_registry_files,
}

module _ {Priv Pub Bytes : Type 0} (crypto : Crypto Priv Pub Bytes) where
  write_file_to-ComesBack :
      (path : String) (b : Bytes) (d : Disk Bytes) → ComesBack (write_file_to crypto path b d)
  write_file_to-ComesBack path b d = elim (Option-cases (d.write_fails path)) [
    | inl w ↦ rw (write_file_to, w) (record { at = tt })
    | inr (e, w) ↦ rw (write_file_to, w) (record { at = tt })
  ]

  gen_key_pair_file-ComesBack :
      (p q : String) (d : Disk Bytes) → ComesBack (gen_key_pair_file crypto p q d)
  unfolding gen_key_pair_file
  gen_key_pair_file-ComesBack p q d =
      ComesBack-bind _ _
        (ComesBack-wrap _ _ (
          ComesBack-given (crypto.generate d.generated) (record d { generated = suc d.generated })))
        λ (priv, public) s.
          ComesBack-bind _ _ (ComesBack-wrap _ _ (ComesBack-given (crypto.marshal_private priv) s))
            λ b s1. ComesBack-bind _ _ (ComesBack-wrap _ _ (write_file_to-ComesBack p b s1)) λ _ s2.
              ComesBack-bind _ _
                (ComesBack-wrap _ _ (ComesBack-given (crypto.marshal_public public) s2))
                λ c s3.
                  ComesBack-bind _ _ (ComesBack-wrap _ _ (write_file_to-ComesBack q c s3))
                    λ _ s4. record { at = tt }

  gen_keys-ComesBack :
      (names : Names) (num i : ℕ) (acc : List Pub) (d : Disk Bytes)
      → ComesBack (gen_keys crypto names num i acc d)
  unfolding gen_keys
  gen_keys-ComesBack names zero i acc d = record { at = tt }
  gen_keys-ComesBack names (suc num) i acc d =
      ComesBack-bind _ _
        (gen_key_pair_file-ComesBack (names.priv_key (i + 1)) (names.pub_key (i + 1)) d)
        λ (priv, k) s. gen_keys-ComesBack names num (i + 1) (acc ++ (k ∷ [])) s

append_ids-ComesBack :
    {Pub Bytes : Type 0} (id_from_public : Pub → Attempt String) (ps : List Pub) (tp : List String)
    (d : Disk Bytes)
    → ComesBack (append_ids id_from_public ps tp d)
unfolding append_ids
append_ids-ComesBack id_from_public [] tp d = record { at = tt }
append_ids-ComesBack id_from_public (p ∷ ps) tp d =
    ComesBack-bind _ _ (ComesBack-given (id_from_public p) d)
      λ id s. append_ids-ComesBack id_from_public ps (tp ++ (id ∷ [])) s

pub gen_registry_files-ComesBack :
    {Priv Pub Bytes Json : Type 0} (crypto : Crypto Priv Pub Bytes) (formats : Formats Bytes Json)
    (names : Names) (id_from_public : Pub → Attempt String) (rendezvous : String)
    (now num_peers : ℕ) (d : Disk Bytes)
    → ComesBack (gen_registry_files crypto names formats id_from_public rendezvous now num_peers d)
unfolding gen_registry_files gen_registry write_as_yaml
gen_registry_files-ComesBack crypto formats names id_from_public rendezvous now num_peers d =
    ComesBack-bind _ _ (gen_keys-ComesBack crypto names num_peers 0 [] d) λ ks s.
      ComesBack-bind _ _
        (ComesBack-bind _ _ (append_ids-ComesBack id_from_public ks [] s)
          λ ids s1. record { at = tt })
        λ reg s2. ComesBack-bind _ _ (ComesBack-given (formats.to_json reg) s2) λ j s3.
          ComesBack-bind _ _ (ComesBack-given (formats.json_to_yaml j) s3)
            λ y s4. write_file_to-ComesBack crypto names.registry y s4
