-- ===== src/Main/Queues.antt =====
-- From `generate_registry` of main.go to the servers of the queue that it describes.
use peerprint.Base.{ℕ, String, List, [], ◌∷◌, ◌≡◌, length, Memᴰ}
use peerprint.Base.Go.{ok, succeeded}
use peerprint.Base.Post.{Ensures, Ensures-bind, Ensures-mono, Ensures-wrap}
use peerprint.Base.Back.{ComesBack, ComesBack-bind, ComesBack-wrap, ComesBack-given}
use peerprint.RegistryGenerator.Registry.Back.{gen_registry_files-ComesBack}
use peerprint.Base.Peers.{AllPeers, AllPeers-map, AllPeers-each}
use peerprint.RegistryGenerator.{Disk}
use peerprint.RegistryGenerator.Written.{KeysRoundTrip}
use peerprint.RegistryGenerator.Registry.{Names, load_registry, registry_of}
use peerprint.RegistryGenerator.Registry.Numbered.{AllDiffer}
use peerprint.RegistryGenerator.Registry.Trusted.{
  RegistryRoundTrip, PeerLoads, gen_registry_files-PeerLoads,
}
use peerprint.Raft.External.{External}
use peerprint.Main.{Flags, Platform, Surroundings, trusted_list, generate, serve, main}
use peerprint.Main.Serving.{HostIds, TrustsItself, serve-TrustsItself}

-- Ids of peers that are written into a flag are found in it again.
pub record WritesIds {Priv Pub Bytes Json : Type 0} (p : Platform Priv Pub Bytes Json)
    (write : List String → String) : Type 0 where
  pub write_lem :
      (ids : List String)
      → ((id : String) → Memᴰ id ids → (k : Pub) × (p.id_from_public k ≡ succeeded id))
      → (id : String) → Memᴰ id ids
      → Memᴰ id (trusted_list p (write ids))

module _ {Priv Pub Bytes Json W : Type 0} (p : Platform Priv Pub Bytes Json) (ext : External W)
    (around : ℕ → Surroundings W) (f : Flags) (write : List String → String) where
  -- the flags of peer `n`
  abbrev pub flags_of : Names → List String → ℕ → Flags
  flags_of names ids n = record f {
    privkeyfile = names.priv_key n;
    pubkeyfile = names.pub_key n;
    trusted_peers = write ids;
  }

  -- peer `n`, if it comes to serve, leaves the disk as it is, has this id and trusts itself
  abbrev pub PeerServes : Names → List String → Disk Bytes → ℕ → String → Type 0
  PeerServes names ids u n id =
      Ensures (λ v t. (v ≡ u) × TrustsItself p ext (around n) id t) (λ _ _. ⊥)
        (serve p ext (around n) (flags_of names ids n) u)

  abbrev HasKey : String → Type 0
  HasKey id = (k : Pub) × (p.id_from_public k ≡ succeeded id)

  -- the registry on the disk, and the peers that it lists
  abbrev pub Described : Names → ℕ → Disk Bytes → Type 0
  Described names num_peers u =
      (ids : List String) × (load_registry p.crypto p.formats names.registry u
        ≡ ok u (registry_of p.uuid p.now ids))
      × (length ids ≡ num_peers)
      × AllPeers (PeerServes names ids u) 0 ids

  PeerLoads-PeerServes :
      HostIds p
      → WritesIds p write
      → (names : Names) (ids : List String) (u : Disk Bytes)
      → AllPeers (PeerLoads p.crypto names p.id_from_public u) 0 ids
      → AllPeers (PeerServes names ids u) 0 ids
  PeerLoads-PeerServes hosts writes names ids u h =
      AllPeers-map {P = PeerLoads p.crypto names p.id_from_public u} {Q = PeerServes names ids u} 0
        ids
        (λ n id m (keys, el, g, ei).
          serve-TrustsItself p ext (around n) hosts (flags_of names ids n) u keys id el g ei (
            writes.write_lem ids
              (AllPeers-each {P = PeerLoads p.crypto names p.id_from_public u} {Q = HasKey} 0 ids
                (λ k x (ks, _, _, e). (ks.1, e)) h)
              id m))
        h

  generate-ComesBack :
      (num dest_dir : String) (d : Disk Bytes) → ComesBack (generate p (num ∷ dest_dir ∷ []) d)
  unfolding generate
  generate-ComesBack num dest_dir d =
      ComesBack-bind _ _ (ComesBack-wrap _ _ (ComesBack-given (p.atoi num) d)) λ n s.
        ComesBack-wrap _ _ (
          gen_registry_files-ComesBack p.crypto p.formats (p.join dest_dir) p.id_from_public p.uuid
            p.now n s)

  generate-Described :
      (num dest_dir : String) (num_peers : ℕ) (d : Disk Bytes)
      → HostIds p
      → WritesIds p write
      → KeysRoundTrip p.crypto
      → RegistryRoundTrip p.formats
      → AllDiffer (p.join dest_dir)
      → p.atoi num ≡ succeeded num_peers
      → Ensures
          (λ u _. Described (p.join dest_dir) num_peers u)
          (λ _ _. Unit {0})
          (generate p (num ∷ dest_dir ∷ []) d)
  unfolding generate
  generate-Described num dest_dir num_peers d hosts writes keys formats names atoi = rw atoi (
      Ensures-wrap _ _ (
        Ensures-mono _
          ((gen_registry_files-PeerLoads p.crypto p.formats (p.join dest_dir) p.id_from_public
            p.uuid p.now num_peers d keys formats names).1)
          (λ u _ (ids, reads, l, h).
            (ids, reads, l, PeerLoads-PeerServes hosts writes (p.join dest_dir) ids u h))
          (λ _ _ _. tt)))

  -- Where the libraries keep to what they document and all file names are different:
  -- `generate_registry` for some number of peers comes back, and where it does so without an error,
  -- the registry lists that many ids, and each peer that is started with its key files and these ids as
  -- -trustedPeers, if it comes to serve, has the id that the registry lists for it, trusts itself
  -- and has changed no file; a peer that does not come to serve panics or blocks.
  pub main-PeerServes :
      (prog num dest_dir : String) (num_peers : ℕ) (d : Disk Bytes)
      → HostIds p
      → WritesIds p write
      → KeysRoundTrip p.crypto
      → RegistryRoundTrip p.formats
      → AllDiffer (p.join dest_dir)
      → p.atoi num ≡ succeeded num_peers
      → ComesBack (main p ext (around 0) (prog ∷ "generate_registry" ∷ num ∷ dest_dir ∷ []) d)
        × Ensures
            (λ u _. Described (p.join dest_dir) num_peers u)
            (λ _ _. Unit {0})
            (main p ext (around 0) (prog ∷ "generate_registry" ∷ num ∷ dest_dir ∷ []) d)
  unfolding main
  main-PeerServes prog num dest_dir num_peers d hosts writes keys formats names atoi = (
    ComesBack-bind _ _ (generate-ComesBack num dest_dir d) (λ _ s. record { at = tt }),
    Ensures-bind _ _
        (generate-Described num dest_dir num_peers d hosts writes keys formats names atoi)
        (λ u _ h. record { at = h }),
  )
