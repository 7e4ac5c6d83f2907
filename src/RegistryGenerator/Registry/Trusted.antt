-- ===== src/RegistryGenerator/Registry/Trusted.antt =====
-- The registry that GenRegistryFiles of registry_generator.go writes, and the peers it trusts.
use peerprint.Base.{
  ℕ, suc, String, List, [], ◌∷◌, ◌++◌, ◌+◌, ◌≡◌, ◌≢◌, ◌∙◌, refl, ap, sym, inl, inr, Option-cases,
  length,
}
use mathlib.Core.List.{append-nil, append_assoc}
use peerprint.Base.Go.{ok, Attempt, succeeded}
use peerprint.Base.Post.{Ensures, Ensures-bind, Ensures-mono, Attempt-cases}
use peerprint.Base.Dict.{Dict, lookup, lookup-insert_ne, lookup-insert_self}
use peerprint.Base.Back.{ComesBack}
use peerprint.RegistryGenerator.Registry.Back.{gen_registry_files-ComesBack}
use peerprint.Base.Peers.{AllPeers, AllPeers-map}
use peerprint.Proto.Peers.{Registry}
use peerprint.RegistryGenerator.{Crypto, Disk, write_file_to, load_or_generate_keys}
use peerprint.RegistryGenerator.Written.{Generated, KeysRoundTrip, Stored}
use peerprint.RegistryGenerator.KeyFiles.{Stored-Loads}
use peerprint.RegistryGenerator.Registry.Numbered.{
  AllDiffer, Stored-moves, KeysStored, gen_keys-KeysStored,
}
use peerprint.RegistryGenerator.Registry.{
  Names, Formats, write_as_yaml, load_registry, append_ids, registry_of, gen_registry,
  gen_registry_files,
}

-- What the libraries document: reading a registry undoes writing it.
pub record RegistryRoundTrip {Bytes Json : Type 0} (formats : Formats Bytes Json) : Type 0 where
  pub yaml_lem :
      (reg : Registry) (j : Json) (y : Bytes)
      → formats.to_json reg ≡ succeeded j
      → formats.json_to_yaml j ≡ succeeded y
      → (k : Json) × (formats.yaml_to_json y ≡ succeeded k) × (formats.from_json k ≡ succeeded reg)

module _ {Priv Pub Bytes : Type 0} (crypto : Crypto Priv Pub Bytes) (names : Names) where
  -- the keys in the files of peer `n`, generated together, have this id
  abbrev IdStored : (Pub → Attempt String) → Dict Bytes → ℕ → String → Type 0
  IdStored id_from_public f n id =
      (keys : Priv × Pub) × Stored crypto (names.priv_key n) (names.pub_key n) f keys
      × Generated crypto keys
      × (id_from_public keys.1 ≡ succeeded id)

  -- peer `n`, started with its key files, loads keys that were generated together and have this id
  abbrev pub PeerLoads : (Pub → Attempt String) → Disk Bytes → ℕ → String → Type 0
  PeerLoads id_from_public d n id =
      (keys : Priv × Pub) × (load_or_generate_keys crypto (names.priv_key n) (names.pub_key n) d
        ≡ ok d keys)
      × Generated crypto keys
      × (id_from_public keys.1 ≡ succeeded id)

module _ {Priv Pub Bytes : Type 0} (crypto : Crypto Priv Pub Bytes) (laws : KeysRoundTrip crypto)
    (names : Names) (differ : AllDiffer names) where
  IdStored-PeerLoads :
      (id_from_public : Pub → Attempt String) (d u : Disk Bytes) (n : ℕ) (id : String)
      → ((x : String) → names.registry ≢ x → lookup x u.files ≡ lookup x d.files)
      → IdStored crypto names id_from_public d.files n id
      → PeerLoads crypto names id_from_public u n id
  IdStored-PeerLoads id_from_public d u n id frame (keys, st, made, e) =
      let p = names.priv_key n in
      let q = names.pub_key n in
      let moved : Stored crypto p q u.files keys =
        Stored-moves crypto p q d.files u.files keys (frame p (differ.registry_priv n))
          (frame q (differ.registry_pub n)) st in
      (keys, Stored-Loads crypto laws p q (differ.pub_priv n n) u keys moved, made, e)

module _ {Priv Pub Bytes : Type 0} (crypto : Crypto Priv Pub Bytes) (names : Names)
    (id_from_public : Pub → Attempt String) (d : Disk Bytes) where
  append_ids-IdStored :
      (i : ℕ) (ps : List Pub) (tp : List String)
      → KeysStored crypto names d.files i ps
      → Ensures
          (λ u ids.
            (u ≡ d)
            × (rest : List String) × (ids ≡ tp ++ rest)
            × (length rest ≡ length ps)
            × AllPeers (IdStored crypto names id_from_public d.files) i rest)
          (λ _ _. Unit {0})
          (append_ids id_from_public ps tp d)
  unfolding append_ids
  append_ids-IdStored i [] tp h = record { at = (refl, [], sym (append-nil tp), refl, tt) }
  append_ids-IdStored i (p ∷ ps) tp ((priv, st, made), h) =
      elim (Attempt-cases (id_from_public p)) [
        | inl (e, eq) ↦ rw eq (record { at = tt })
        | inr (id, eq) ↦ rw eq (
            Ensures-mono _ (append_ids-IdStored (i + 1) ps (tp ++ (id ∷ [])) h)
              (λ u ids (same, rest, e, l, k). (
                same,
                id ∷ rest,
                e ∙ append_assoc tp (id ∷ []) rest,
                ap suc l,
                (((priv, p), st, made, eq), k),
              ))
              (λ _ _ _. tt))
      ]

  gen_registry-IdStored :
      (rendezvous : String) (now : ℕ) (ks : List Pub)
      → KeysStored crypto names d.files 0 ks
      → Ensures
          (λ u reg.
            (u ≡ d)
            × (ids : List String) × (reg ≡ registry_of rendezvous now ids)
            × (length ids ≡ length ks)
            × AllPeers (IdStored crypto names id_from_public d.files) 0 ids)
          (λ _ _. Unit {0})
          (gen_registry id_from_public rendezvous now ks d)
  unfolding gen_registry
  gen_registry-IdStored rendezvous now ks h =
      Ensures-bind _ _ (append_ids-IdStored 0 ks [] h) (λ u ids (same, rest, e, l, k). record {
        at = (same, rest, ap (registry_of rendezvous now) e, l, k);
      })

module _ {Priv Pub Bytes Json : Type 0} (crypto : Crypto Priv Pub Bytes)
    (formats : Formats Bytes Json) (round_trip : RegistryRoundTrip formats) where
  write_as_yaml-load_registry :
      (reg : Registry) (dest : String) (d : Disk Bytes)
      → Ensures
          (λ u _.
            (load_registry crypto formats dest u ≡ ok u reg)
            × ((x : String) → dest ≢ x → lookup x u.files ≡ lookup x d.files))
          (λ _ _. Unit {0})
          (write_as_yaml crypto formats reg dest d)
  unfolding write_as_yaml load_registry
  write_as_yaml-load_registry reg dest d = elim (Attempt-cases (formats.to_json reg)) [
    | inl (e, ej) ↦ rw ej (record { at = tt })
    | inr (j, ej) ↦ elim (Attempt-cases (formats.json_to_yaml j)) [
      | inl (e, ey) ↦ rw (ej, ey) (record { at = tt })
      | inr (y, ey) ↦ elim (Option-cases (d.write_fails dest)) [
        | inr (e, w) ↦ rw (ej, ey, write_file_to, w) (record { at = tt })
        | inl w ↦
            let (k, ek, er) = round_trip.yaml_lem reg j y ej ey in
            rw (ej, ey, write_file_to, w)
              (record {
                at = (
                  rw (lookup-insert_self dest y d.files, ek, er) refl,
                  λ x n. lookup-insert_ne dest x y d.files n,
                );
              })
      ]
    ]
  ]

-- Where reading a key, or a registry, undoes writing it and all file names are different:
-- GenRegistryFiles for some number of peers comes back, and where it returns no error, LoadRegistry
-- reads the registry of one queue that trusts that many peers, and each peer that starts with its
-- own key files loads keys that were generated together, the public one with the id that the
-- registry lists for it.
pub gen_registry_files-PeerLoads :
    {Priv Pub Bytes Json : Type 0} (crypto : Crypto Priv Pub Bytes) (formats : Formats Bytes Json)
    (names : Names) (id_from_public : Pub → Attempt String) (rendezvous : String)
    (now num_peers : ℕ) (d : Disk Bytes)
    → KeysRoundTrip crypto
    → RegistryRoundTrip formats
    → AllDiffer names
    → ComesBack (gen_registry_files crypto names formats id_from_public rendezvous now num_peers d)
      × Ensures
          (λ u _.
            (ids : List String) × (load_registry crypto formats names.registry u
              ≡ ok u (registry_of rendezvous now ids))
            × (length ids ≡ num_peers)
            × AllPeers (PeerLoads crypto names id_from_public u) 0 ids)
          (λ _ _. Unit {0})
          (gen_registry_files crypto names formats id_from_public rendezvous now num_peers d)
unfolding gen_registry_files
gen_registry_files-PeerLoads crypto formats names id_from_public rendezvous now num_peers d laws
      round_trip differ =
    (
      gen_registry_files-ComesBack crypto formats names id_from_public rendezvous now num_peers d,
      Ensures-bind _ _ (gen_keys-KeysStored crypto laws names differ num_peers 0 [] d)
          (λ u ks (rest, e, l, stored, _).
            Ensures-bind _ _
              (gen_registry-IdStored crypto names id_from_public u rendezvous now ks (rw e stored))
              (λ v reg (same, ids, er, el, k).
                Ensures-mono _
                  (write_as_yaml-load_registry crypto formats round_trip reg names.registry v)
                  (λ w _ (reads, frame). (
                    ids,
                    reads ∙ ap (ok w) er,
                    el ∙ ap length e ∙ l,
                    AllPeers-map 0 ids
                        (λ n id m.
                          IdStored-PeerLoads crypto laws names differ id_from_public v w n id frame)
                        (rw same k),
                  ))
                  (λ _ _ _. tt))),
    )
