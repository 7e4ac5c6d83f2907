-- ===== src/RegistryGenerator/Registry/Numbered.antt =====
-- The key files that the loop of GenRegistryFiles (registry_generator.go) writes.
use peerprint.Base.{
  ℕ, zero, suc, String, List, [], ◌∷◌, ◌++◌, ◌+◌, ◌<◌, ◌≡◌, ◌≢◌, ◌∙◌, refl, ap, sym, arith, length,
}
use mathlib.Core.List.{append-nil, append_assoc}
use peerprint.Base.Post.{Ensures, Ensures-bind, Ensures-mono}
use peerprint.Base.Dict.{Dict, lookup}
use peerprint.RegistryGenerator.{Crypto, Disk}
use peerprint.RegistryGenerator.Written.{Generated, KeysRoundTrip, Stored, gen_key_pair_file-Stored}
use peerprint.RegistryGenerator.Registry.{Names, gen_keys}

-- All the names are different.
pub record AllDiffer (names : Names) : Type 0 where
  pub pub_priv : (i j : ℕ) → names.pub_key i ≢ names.priv_key j
  pub priv_priv : (i j : ℕ) → i < j → names.priv_key j ≢ names.priv_key i
  pub pub_pub : (i j : ℕ) → i < j → names.pub_key j ≢ names.pub_key i
  pub registry_priv : (i : ℕ) → names.registry ≢ names.priv_key i
  pub registry_pub : (i : ℕ) → names.registry ≢ names.pub_key i

pub Stored-moves :
    {Priv Pub Bytes : Type 0} (crypto : Crypto Priv Pub Bytes) (p q : String) (f g : Dict Bytes)
    (keys : Priv × Pub)
    → lookup p g ≡ lookup p f
    → lookup q g ≡ lookup q f
    → Stored crypto p q f keys
    → Stored crypto p q g keys
Stored-moves crypto p q f g keys ep eq h = record {
  private_bytes = h.private_bytes;
  public_bytes = h.public_bytes;
  private_file = ep ∙ h.private_file;
  public_file = eq ∙ h.public_file;
  private_key = h.private_key;
  public_key = h.public_key;
}

module _ {Bytes : Type 0} (names : Names) where
  -- `g` differs from `f` in no file but the keys of the peers after `i`
  abbrev pub OnlyAfter : ℕ → Dict Bytes → Dict Bytes → Type 0
  OnlyAfter i f g =
      (x : String)
      → ((j : ℕ) → i < j → names.priv_key j ≢ x)
      → ((j : ℕ) → i < j → names.pub_key j ≢ x)
      → lookup x g ≡ lookup x f

module _ {Priv Pub Bytes : Type 0} (crypto : Crypto Priv Pub Bytes) (names : Names) where
  abbrev pub KeysStored : Dict Bytes → ℕ → List Pub → Type 0
  KeysStored f i [] = Unit {0}
  KeysStored f i (k ∷ ks) =
      ((priv : Priv) × Stored crypto (names.priv_key (i + 1)) (names.pub_key (i + 1)) f (priv, k)
        × Generated crypto (priv, k))
      × KeysStored f (i + 1) ks

module _ {Priv Pub Bytes : Type 0} (crypto : Crypto Priv Pub Bytes) (laws : KeysRoundTrip crypto)
    (names : Names) (differ : AllDiffer names) where
  pub gen_keys-KeysStored :
      (num i : ℕ) (acc : List Pub) (d : Disk Bytes)
      → Ensures
          (λ u ks.
            (rest : List Pub) × (ks ≡ acc ++ rest)
            × (length rest ≡ num)
            × KeysStored crypto names u.files i rest
            × OnlyAfter names i d.files u.files)
          (λ _ _. Unit {0})
          (gen_keys crypto names num i acc d)
  unfolding gen_keys
  gen_keys-KeysStored zero i acc d = record {
    at = ([], sym (append-nil acc), refl, tt, λ x np nq. refl);
  }
  gen_keys-KeysStored (suc num) i acc d =
      Ensures-bind _ _
        (gen_key_pair_file-Stored crypto laws (names.priv_key (i + 1)) (names.pub_key (i + 1))
          (differ.pub_priv (i + 1) (i + 1)) d)
        (λ u (priv, k) (st, made, frame).
          Ensures-mono _ (gen_keys-KeysStored num (i + 1) (acc ++ (k ∷ [])) u)
            (λ w ks (rest, e, l, kst, out). (
              k ∷ rest,
              e ∙ append_assoc acc (k ∷ []) rest,
              ap suc l,
              (
                (
                  priv,
                  Stored-moves crypto (names.priv_key (i + 1)) (names.pub_key (i + 1)) u.files
                      w.files (priv, k)
                      (out (names.priv_key (i + 1)) (λ j h. differ.priv_priv (i + 1) j h)
                        (λ j h. differ.pub_priv j (i + 1)))
                      (out (names.pub_key (i + 1)) (λ j h e. differ.pub_priv (i + 1) j (sym e))
                        (λ j h. differ.pub_pub (i + 1) j h))
                      st,
                  made,
                ),
                kst,
              ),
              λ x np nq.
                  out x (λ j h. np j (omega arith)) (λ j h. nq j (omega arith))
                  ∙ frame x (np (i + 1) (omega arith)) (nq (i + 1) (omega arith)),
            ))
            (λ _ _ _. tt))
