-- ===== src/RegistryGenerator/Written.antt =====
-- What GenKeyPairFile of registry_generator.go leaves on the disk.
use peerprint.Base.{ℕ, String, some, ◌≡◌, ◌≢◌, ◌∙◌, inl, inr, Option-cases}
use peerprint.Base.Go.{succeeded}
use peerprint.Base.Post.{Ensures, Attempt-cases}
use peerprint.Base.Dict.{Dict, lookup, insert, lookup-insert_ne, lookup-insert_self}
use peerprint.RegistryGenerator.{Crypto, Disk, gen_key_pair_file}

-- What the library documents: reading a key undoes writing it.
pub record KeysRoundTrip {Priv Pub Bytes : Type 0} (crypto : Crypto Priv Pub Bytes) : Type 0 where
  pub private_lem :
      (k : Priv) (b : Bytes)
      → crypto.marshal_private k ≡ succeeded b
      → crypto.unmarshal_private b ≡ succeeded k
  pub public_lem :
      (k : Pub) (b : Bytes)
      → crypto.marshal_public k ≡ succeeded b
      → crypto.unmarshal_public b ≡ succeeded k

-- The two files of a pair of keys, as the library reads them.
pub record Stored {Priv Pub Bytes : Type 0} (crypto : Crypto Priv Pub Bytes) (p q : String)
    (files : Dict Bytes) (keys : Priv × Pub) : Type 0 where
  pub private_bytes : Bytes
  pub public_bytes : Bytes
  pub private_file : lookup p files ≡ some private_bytes
  pub public_file : lookup q files ≡ some public_bytes
  pub private_key : crypto.unmarshal_private private_bytes ≡ succeeded keys.0
  pub public_key : crypto.unmarshal_public public_bytes ≡ succeeded keys.1

-- The library has generated the two keys together.
abbrev pub Generated : {Priv Pub Bytes : Type 0} → Crypto Priv Pub Bytes → Priv × Pub → Type 0
Generated crypto keys = (n : ℕ) × (crypto.generate n ≡ succeeded keys)

module _ {Priv Pub Bytes : Type 0} (crypto : Crypto Priv Pub Bytes) (laws : KeysRoundTrip crypto)
    (p q : String) (distinct : q ≢ p) where
  -- the keys, generated together, are in their files, and no other file has changed
  abbrev pub Writes : Disk Bytes → Disk Bytes → Priv × Pub → Type 0
  Writes d u keys =
      Stored crypto p q u.files keys
      × Generated crypto keys
      × ((x : String) → p ≢ x → q ≢ x → lookup x u.files ≡ lookup x d.files)

  written :
      (f : Dict Bytes) (priv : Priv) (public : Pub) (b c : Bytes)
      → crypto.marshal_private priv ≡ succeeded b
      → crypto.marshal_public public ≡ succeeded c
      → Stored crypto p q (insert q c (insert p b f)) (priv, public)
  written f priv public b c mp mq = record {
    private_bytes = b;
    public_bytes = c;
    private_file = lookup-insert_ne q p c (insert p b f) distinct ∙ lookup-insert_self p b f;
    public_file = lookup-insert_self q c (insert p b f);
    private_key = laws.private_lem priv b mp;
    public_key = laws.public_lem public c mq;
  }

  pub gen_key_pair_file-Stored :
      (d : Disk Bytes) → Ensures (Writes d) (λ _ _. Unit {0}) (gen_key_pair_file crypto p q d)
  unfolding gen_key_pair_file
  gen_key_pair_file-Stored d = elim (Attempt-cases (crypto.generate d.generated)) [
    | inl (e, g) ↦ rw g (record { at = tt })
    | inr ((priv, public), g) ↦ elim (Attempt-cases (crypto.marshal_private priv)) [
      | inl (e, mp) ↦ rw (g, mp) (record { at = tt })
      | inr (b, mp) ↦ elim (Option-cases (d.write_fails p)) [
        | inr (e, wp) ↦ rw (g, mp, wp) (record { at = tt })
        | inl wp ↦ elim (Attempt-cases (crypto.marshal_public public)) [
          | inl (e, mq) ↦ rw (g, mp, wp, mq) (record { at = tt })
          | inr (c, mq) ↦ elim (Option-cases (d.write_fails q)) [
            | inr (e, wq) ↦ rw (g, mp, wp, mq, wq) (record { at = tt })
            | inl wq ↦
                rw (g, mp, wp, mq, wq)
                  (record {
                    at = (
                      written d.files priv public b c mp mq,
                      (d.generated, g),
                      λ x np nq.
                          lookup-insert_ne q x c (insert p b d.files) nq
                          ∙ lookup-insert_ne p x b d.files np,
                    );
                  })
          ]
        ]
      ]
    ]
  ]
