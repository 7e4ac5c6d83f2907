-- ===== src/Tests/Registry.antt =====
-- A registry of two peers, over keys that are numbers.
use peerprint.Base.{
  ℕ, zero, suc, String, ◌+◌, ◌*◌, ◌≡◌, refl, sym, ap, arith, none, [], length, ◌≢◌, List, ◌∙◌,
}
use Prim.Native.String.{◌++◌, len}
use package.text.Mathlib.TextPositions.{len-append}
use peerprint.Base.Go.{Attempt, ok, failed, succeeded, no_such_file}
use peerprint.Base.Post.{Ensures, succeeded-injective}
use peerprint.Base.Back.{ComesBack}
use peerprint.Base.Peers.{AllPeers}
use peerprint.Proto.Peers.{Registry}
use peerprint.RegistryGenerator.{Crypto, Disk}
use peerprint.RegistryGenerator.Written.{KeysRoundTrip}
use peerprint.RegistryGenerator.Registry.{
  Names, Formats, load_registry, registry_of, gen_registry_files,
}
use peerprint.RegistryGenerator.Registry.Numbered.{AllDiffer}
use peerprint.RegistryGenerator.Registry.Trusted.{
  RegistryRoundTrip, PeerLoads, gen_registry_files-PeerLoads,
}

pub data Content : Type 0 where
  key : ℕ → Content
  text : Registry → Content

abbrev pub as_key : Content → Attempt ℕ
as_key (key n) = succeeded n
as_key (text r) = failed no_such_file

abbrev pub as_text : Content → Attempt Registry
as_text (key n) = failed no_such_file
as_text (text r) = succeeded r

abbrev pub numbers : Crypto ℕ ℕ Content
numbers = record {
  generate = λ n. succeeded (n, n);
  marshal_private = λ k. succeeded (key k);
  marshal_public = λ k. succeeded (key k);
  unmarshal_private = as_key;
  unmarshal_public = as_key;
}

abbrev pub formats : Formats Content Registry
formats = record {
  to_json = succeeded;
  json_to_yaml = λ r. succeeded (text r);
  yaml_to_json = as_text;
  from_json = succeeded;
}

pub numbers-KeysRoundTrip : KeysRoundTrip numbers
numbers-KeysRoundTrip = record {
  private_lem = λ k b e. ap as_key (sym (succeeded-injective e));
  public_lem = λ k b e. ap as_key (sym (succeeded-injective e));
}

pub formats-RegistryRoundTrip : RegistryRoundTrip formats
formats-RegistryRoundTrip = record {
  yaml_lem = λ reg j y ej ey.
      (reg, rw (sym (succeeded-injective ey)) (ap succeeded (sym (succeeded-injective ej))), refl);
}

-- a name of a given length
unfoldable pub strokes : ℕ → String
strokes zero = ""
strokes (suc n) = "|" ++ strokes n

len-strokes : (n : ℕ) → len (strokes n) ≡ n
unfolding strokes
len-strokes zero = refl
len-strokes (suc n) = omega (arith, len-append "|" (strokes n), len-strokes n)

strokes_ne : (m n : ℕ) → m ≢ n → strokes m ≢ strokes n
strokes_ne m n ne e = ne (sym (len-strokes m) ∙ ap len e ∙ len-strokes n)

abbrev pub paths : Names
paths = record {
  priv_key = λ i. strokes (2 * i + 1);
  pub_key = λ i. strokes (2 * i + 2);
  registry = strokes 0;
}

pub paths-AllDiffer : AllDiffer paths
paths-AllDiffer = record {
  pub_priv = λ i j. strokes_ne (2 * i + 2) (2 * j + 1) (λ e. omega arith);
  priv_priv = λ i j h. strokes_ne (2 * j + 1) (2 * i + 1) (λ e. omega arith);
  pub_pub = λ i j h. strokes_ne (2 * j + 2) (2 * i + 2) (λ e. omega arith);
  registry_priv = λ i. strokes_ne 0 (2 * i + 1) (λ e. omega arith);
  registry_pub = λ i. strokes_ne 0 (2 * i + 2) (λ e. omega arith);
}

abbrev pub empty : Disk Content
empty = record { files = []; generated = 7; write_fails = λ path. none }

abbrev id_of : ℕ → Attempt String
id_of n = succeeded (strokes n)

gen_registry_files-PeerLoads_example :
    ComesBack (gen_registry_files numbers paths formats id_of "room" 1 2 empty)
    × Ensures
        (λ u _.
          (ids : List String) × (load_registry numbers formats paths.registry u
            ≡ ok u (registry_of "room" 1 ids))
          × (length ids ≡ 2)
          × AllPeers (PeerLoads numbers paths id_of u) 0 ids)
        (λ _ _. Unit {0})
        (gen_registry_files numbers paths formats id_of "room" 1 2 empty)
gen_registry_files-PeerLoads_example =
    gen_registry_files-PeerLoads numbers formats paths id_of "room" 1 2 empty numbers-KeysRoundTrip
      formats-RegistryRoundTrip paths-AllDiffer
