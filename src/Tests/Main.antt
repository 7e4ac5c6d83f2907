-- ===== src/Tests/Main.antt =====
-- A registry of two peers, and the first of them started on it.
use peerprint.Base.{
  ℕ, zero, suc, String, Bool, true, false, [], ◌∷◌, ◌≡◌, refl, sym, ap, subst, ◌∙◌, none, Memᴰ,
}
use peerprint.Base.Go.{Outcome, ok, succeeded}
use peerprint.Base.Back.{ComesBack}
use peerprint.Base.Post.{Ensures, succeeded-injective}
use peerprint.Discovery.{await, listen, found, proceed, new, run, turn}
use peerprint.Proto.Peers.{Registry}
use peerprint.Base.Dict.{lookup, insert}
use peerprint.Server.{Server}
use peerprint.Raft.Impl.{RaftImpl, raft_impl}
use peerprint.Server.Setup.{am_trusted, trust_all, setup, new as server_new}
use peerprint.Server.Access.{in_trusted_peers}
use peerprint.Server.Roles.{on_assignment_response}
use peerprint.RegistryGenerator.{Disk, load_or_generate_keys, gen_key_pair_file}
use peerprint.Main.{Flags, Host, Platform, Surroundings, serve, main}
use peerprint.Main.Serving.{HostIds, serve-dht-Halts, Halts}
use peerprint.Main.Queues.{WritesIds, Described, main-PeerServes}
use peerprint.Tests.Fixtures.{calm}
use peerprint.Tests.Raft.{World, libraries, follower}
use peerprint.Tests.Registry.{
  Content, numbers, formats, paths, empty, numbers-KeysRoundTrip, formats-RegistryRoundTrip,
  paths-AllDiffer,
}

abbrev name : ℕ → String
name zero = "ann"
name (suc n) = "bob"

abbrev pub flags : Flags
flags = record {
  rendezvous = "room";
  trusted_peers = "ann,bob";
  local = true;
  privkeyfile = "";
  pubkeyfile = "";
  zmq_log_addr = "";
}

-- two peers, known by the first key and by any other
abbrev pub platform : Platform ℕ ℕ Content Registry
platform = record {
  crypto = numbers;
  formats = formats;
  id_from_public = λ k. succeeded (name k);
  join = λ directory. paths;
  uuid = "room";
  now = 1;
  atoi = λ s. succeeded 2;
  parse = λ args. succeeded flags;
  split = λ s. "ann" ∷ "bob" ∷ [];
  trim_space = λ s. s;
  new_push = λ s. succeeded tt;
  new_read_writer = λ s. succeeded tt;
  pubsub_host = λ k. succeeded (record { id = name k; addrs = [] });
  raft_host = λ k. succeeded (record { id = name k; addrs = [] });
  connect_fails = λ s. none;
  new_gossip_sub = succeeded tt;
}

platform-HostIds : HostIds platform
platform-HostIds = record {
  host_lem = λ keys h (n, g) e.
      let q : ◌≡◌ {A = ℕ × ℕ} (n, n) keys = succeeded-injective g in
      ap succeeded (
        sym (ap (λ k. name k.1) q)
        ∙ ap (λ k. name k.0) q
        ∙ ap (λ (x : Host). x.id) (succeeded-injective e));
}

named : (k : ℕ) → Memᴰ (name k) ("ann" ∷ "bob" ∷ [])
named zero = Memᴰ.head refl
named (suc n) = Memᴰ.tail (Memᴰ.head refl)

platform-WritesIds : WritesIds platform (λ ids. "ann,bob")
platform-WritesIds = record {
  write_lem = λ ids known id m.
      let (k, e) = known id m in
      subst (λ x. Memᴰ x ("ann" ∷ "bob" ∷ [])) (succeeded-injective e) (named k);
}

abbrev pub no_keys : Disk Content
no_keys = record empty { generated = 0 }

abbrev pub around : Surroundings World
around = record {
  turns = await ∷ listen ∷ found "carol" ∷ proceed ∷ [];
  env = calm 1;
  world = follower;
  fuel = 1;
}

main-PeerServes_example :
    ComesBack (
      main platform libraries around
        ("peerprint" ∷ "generate_registry" ∷ "2" ∷ "keys" ∷ [])
        no_keys)
    × Ensures
        (λ u _. Described platform libraries (λ n. around) flags (λ ids. "ann,bob") paths 2 u)
        (λ _ _. Unit {0})
        (main platform libraries around
          ("peerprint" ∷ "generate_registry" ∷ "2" ∷ "keys" ∷ [])
          no_keys)
main-PeerServes_example =
    main-PeerServes platform libraries (λ n. around) flags (λ ids. "ann,bob") "peerprint" "2" "keys"
      2 no_keys platform-HostIds platform-WritesIds numbers-KeysRoundTrip formats-RegistryRoundTrip
      paths-AllDiffer refl

serve-dht-Halts_example :
    Halts (serve platform libraries around (record flags { local = false }) no_keys)
serve-dht-Halts_example =
    serve-dht-Halts platform libraries around (record flags { local = false }) no_keys refl

abbrev came_to_serve : Outcome (Disk Content) (Server (RaftImpl World)) → Bool
came_to_serve (ok d t) = am_trusted t
came_to_serve _ = false

-- over mDNS with two new keys
serves :
    came_to_serve (
      serve platform libraries around
        (record flags { privkeyfile = "a"; pubkeyfile = "b" })
        no_keys)
    ≡ true
unfolding serve load_or_generate_keys lookup gen_key_pair_file insert new run turn server_new setup
    on_assignment_response trust_all in_trusted_peers raft_impl
serves = refl
