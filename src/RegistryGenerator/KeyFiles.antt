-- ===== src/RegistryGenerator/KeyFiles.antt =====
-- The keys of a peer over restarts.
use peerprint.Base.{String, some, ◌≡◌, refl, ◌≢◌, inl, inr, Option-cases}
use peerprint.Base.Go.{Outcome, ok, succeeded}
use peerprint.Base.Post.{Ensures, Ensures-mono, Attempt-cases}
use peerprint.Base.Dict.{lookup}
use peerprint.RegistryGenerator.Written.{KeysRoundTrip, Stored, gen_key_pair_file-Stored}
use peerprint.RegistryGenerator.{
  Crypto, Disk, gen_key_pair_file, load_keys, file_exists, load_or_generate_keys,
}

module _ {Priv Pub Bytes : Type 0} (crypto : Crypto Priv Pub Bytes) (laws : KeysRoundTrip crypto)
    (p q : String) (distinct : q ≢ p) where
  -- the disk holds these keys, for the next start to load
  abbrev pub Loads : Disk Bytes → Priv × Pub → Type 0
  Loads d keys = load_or_generate_keys crypto p q d ≡ ok d keys

  abbrev Kept : Outcome (Disk Bytes) (Priv × Pub) → Type 0
  Kept = Ensures Loads (λ _ _. Unit {0})

  load_keys-reads :
      (d : Disk Bytes) (priv : Priv) (public : Pub) (b c : Bytes)
      → crypto.unmarshal_private b ≡ succeeded priv
      → crypto.unmarshal_public c ≡ succeeded public
      → lookup p d.files ≡ some b
      → lookup q d.files ≡ some c
      → load_keys crypto p q d ≡ ok d (priv, public)
  unfolding load_keys
  load_keys-reads d priv public b c up uq lb lc = rw (lb, up, lc, uq)

  pub Stored-Loads :
      (d : Disk Bytes) (keys : Priv × Pub) → Stored crypto p q d.files keys → Loads d keys
  unfolding load_or_generate_keys file_exists
  Stored-Loads d (priv, public) h =
      rw
        (
          h.private_file,
          h.public_file,
          load_keys-reads d priv public _ _ h.private_key h.public_key h.private_file h.public_file,
        )
        refl

  load_keys-Kept :
      (d : Disk Bytes) (b c : Bytes)
      → lookup p d.files ≡ some b
      → lookup q d.files ≡ some c
      → Kept (load_keys crypto p q d)
  unfolding load_keys
  load_keys-Kept d b c lb lc = elim (Attempt-cases (crypto.unmarshal_private b)) [
    | inl (e, up) ↦ rw (lb, up) (record { at = tt })
    | inr (priv, up) ↦ elim (Attempt-cases (crypto.unmarshal_public c)) [
      | inl (e, uq) ↦ rw (lb, up, lc, uq) (record { at = tt })
      | inr (public, uq) ↦
          rw (lb, up, lc, uq)
            (record {
              at =
                  Stored-Loads d (priv, public)
                    (record {
                      private_bytes = b;
                      public_bytes = c;
                      private_file = lb;
                      public_file = lc;
                      private_key = up;
                      public_key = uq;
                    });
            })
    ]
  ]

  gen_key_pair_file-Kept : (d : Disk Bytes) → Kept (gen_key_pair_file crypto p q d)
  gen_key_pair_file-Kept d =
      Ensures-mono _ (gen_key_pair_file-Stored crypto laws p q distinct d)
        (λ u keys (h, made, frame). Stored-Loads u keys h) (λ u e h. tt)

  -- Where reading a key undoes writing it and the two files have different names, the keys that a
  -- peer starts with, generated or loaded, are those that it starts with again: the next call loads
  -- the same keys, and changes nothing.
  pub load_or_generate_keys-Loads :
      (d : Disk Bytes) → Ensures Loads (λ _ _. Unit {0}) (load_or_generate_keys crypto p q d)
  unfolding load_or_generate_keys file_exists
  load_or_generate_keys-Loads d = elim (Option-cases (lookup p d.files)) [
    | inl lp ↦ elim (Option-cases (lookup q d.files)) [
      | inl lq ↦ rw (lp, lq) (gen_key_pair_file-Kept d)
      | inr (c, lq) ↦ rw (lp, lq) (record { at = tt })
    ]
    | inr (b, lp) ↦ elim (Option-cases (lookup q d.files)) [
      | inl lq ↦ rw (lp, lq) (record { at = tt })
      | inr (c, lq) ↦ rw (lp, lq) (load_keys-Kept d b c lp lq)
    ]
  ]
