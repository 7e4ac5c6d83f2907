-- ===== src/Main/Serving.antt =====
-- The server that main.go starts.
use peerprint.Base.{
  String, Bool, true, false, not, List, ◌≡◌, ◌≢◌, refl, sym, ◌∙◌, str_eq, Option, if◌then◌else◌,
  Memᴰ,
}
use peerprint.Base.Go.{
  must, must_outcome, Go, Error, pure, given, Outcome, ok, err, halt, Attempt, failed, succeeded,
  ◌>>◌,
}
use peerprint.Base.Post.{
  Ensures, Ensures-bind, Ensures-mono, Ensures-any, Returned, succeeded-injective,
}
use peerprint.Discovery.{Discovery, ready, timed_out, absent, waiting, run, Awaiter, Turn}
use peerprint.Discovery.Ready.{NotReady, run-dht-NotReady}
use peerprint.Cmd.{new_log}
use peerprint.RegistryGenerator.{Disk, load_or_generate_keys}
use peerprint.RegistryGenerator.Written.{Generated}
use peerprint.Raft.External.{External}
use peerprint.Raft.Impl.{RaftImpl}
use peerprint.Server.{Server, get_id}
use peerprint.Server.Setup.{am_trusted}
use peerprint.Server.Setup.Trusting.{new-Fixed, Fixed-am_trusted}
use peerprint.Main.{
  Flags, Host, Platform, Surroundings, trusted_list, serve, must_be, made, awaited, returned_by,
  find_peers, started_by,
}

-- What libp2p documents: a host's id is that of the public key that belongs to its private key.
pub record HostIds {Priv Pub Bytes Json : Type 0} (p : Platform Priv Pub Bytes Json) : Type 0 where
  pub host_lem :
      (keys : Priv × Pub) (h : Host)
      → Generated p.crypto keys
      → p.pubsub_host keys.0 ≡ succeeded h
      → p.id_from_public keys.1 ≡ succeeded h.id

-- The call does not come back.
abbrev pub Halts : {S A : Type 0} → Outcome S A → Type 0
Halts = Ensures (λ _ _. ⊥) (λ _ _. ⊥)

module _ {S : Type 0} where
  pub must-Ensures :
      {A : Type 0} {Q : S → A → Type 0} (o : Outcome S A)
      → Ensures Q (λ _ _. Unit {0}) o
      → Ensures Q (λ _ _. ⊥) (must_outcome o)
  must-Ensures (ok s a) h = record { at = h.at }
  must-Ensures (err s e) h = record { at = tt }
  must-Ensures (halt x) h = record { at = tt }

  must_be-same : (b : Bool) (s : S) → Ensures (λ u _. u ≡ s) (λ _ _. ⊥) (must_be b s)
  must_be-same true s = record { at = refl }
  must_be-same false s = record { at = tt }

  given-same :
      {A : Type 0} (r : Attempt A) (s : S)
      → Ensures (λ u a. (u ≡ s) × (r ≡ succeeded a)) (λ _ _. Unit {0}) (given r s)
  given-same (failed e) s = record { at = tt }
  given-same (succeeded a) s = record { at = (refl, refl) }

  pub must-given :
      {A : Type 0} (r : Attempt A) (s : S)
      → Ensures (λ u a. (u ≡ s) × (r ≡ succeeded a)) (λ _ _. ⊥) (must (given r) s)
  must-given r s = must-Ensures (given r s) (given-same r s)

  open_log-same :
      (b : Bool) (new_push new_read_writer : String → Attempt (Unit {0})) (addr : String) (s : S)
      → Ensures
          (λ u _. u ≡ s)
          (λ _ _. ⊥)
          ((if b then pure tt else new_log new_push new_read_writer addr) s)
  unfolding new_log
  open_log-same true push rw_of addr s = record { at = refl }
  open_log-same false push rw_of addr s =
      Ensures-bind _ _ (must-given (push addr) s)
        λ u a h. Ensures-mono _ (must-given (rw_of addr) u) (λ v x k. k.0 ∙ h.0) (λ v e k. k)

  returned_by-same : (a : Awaiter) (s : S) → Ensures (λ u _. u ≡ s) (λ _ _. ⊥) (returned_by a s)
  returned_by-same ready s = record { at = refl }
  returned_by-same timed_out s = record { at = tt }
  returned_by-same absent s = record { at = tt }
  returned_by-same waiting s = record { at = tt }

  awaited-same :
      (o : Outcome Discovery (Unit {0})) (s : S) → Ensures (λ u _. u ≡ s) (λ _ _. ⊥) (awaited o s)
  awaited-same (ok c a) s = returned_by-same c.awaiter s
  awaited-same (err c e) s = record { at = tt }
  awaited-same (halt x) s = record { at = tt }

  pub started_by-same :
      (connect_fails : String → Option Error) (turns : List Turn) (o : Outcome (Unit {0}) Discovery)
      (s : S)
      → Ensures (λ u _. u ≡ s) (λ _ _. ⊥) (started_by connect_fails turns o s)
  started_by-same connect_fails turns (ok u c) s = awaited-same (run connect_fails turns c) s
  started_by-same connect_fails turns (err u e) s = record { at = tt }
  started_by-same connect_fails turns (halt x) s = record { at = tt }

  pub made-same :
      {R : Type 0} {P : Server R → Type 0} (o : Outcome (Server R) (Unit {0})) (s : S)
      → Returned P o
      → Ensures (λ u t. (u ≡ s) × P t) (λ _ _. ⊥) (made o s)
  made-same (ok t a) s h = record { at = (refl, h.at) }
  made-same (err t e) s h = record { at = (refl, h.at) }
  made-same (halt x) s h = record { at = tt }

  -- a caller of `AwaitReady` that is not made ready
  awaited-Halts :
      (o : Outcome Discovery (Unit {0})) (s : S) → Returned NotReady o → Halts (awaited o s)
  awaited-Halts (ok c a) s h = at_end c.awaiter h.at
    where
      at_end : (a : Awaiter) → a ≢ ready → Halts (returned_by a s)
      at_end ready n = absurd (n refl)
      at_end timed_out n = record { at = tt }
      at_end absent n = record { at = tt }
      at_end waiting n = record { at = tt }
  awaited-Halts (err c e) s h = record { at = tt }
  awaited-Halts (halt x) s h = record { at = tt }

  started_by-Halts :
      (connect_fails : String → Option Error) (turns : List Turn) (o : Outcome (Unit {0}) Discovery)
      (s : S)
      → Ensures (λ _ c. Returned NotReady (run connect_fails turns c)) (λ _ _. Unit {0}) o
      → Halts (started_by connect_fails turns o s)
  started_by-Halts connect_fails turns (ok u c) s h =
      awaited-Halts (run connect_fails turns c) s h.at
  started_by-Halts connect_fails turns (err u e) s h = record { at = tt }
  started_by-Halts connect_fails turns (halt x) s h = record { at = tt }

module _ {Priv Pub Bytes Json W : Type 0} (p : Platform Priv Pub Bytes Json) (ext : External W)
    (around : Surroundings W) where
  -- the checks of the flags, and what they leave
  pub checked :
      {A : Type 0} {Q : Disk Bytes → A → Type 0} (f : Flags) (d : Disk Bytes)
      (rest : Go (Disk Bytes) A)
      → Ensures Q (λ _ _. ⊥) (rest d)
      → Ensures Q
          (λ _ _. ⊥)
          ((must_be (not (str_eq f.rendezvous ""))
              >> (must_be (not (str_eq f.trusted_peers ""))
                  >> ((if str_eq f.zmq_log_addr ""
                        then pure tt
                        else new_log p.new_push p.new_read_writer f.zmq_log_addr)
                      >> rest)))
            d)
  checked f d rest h = Ensures-bind _ _ (must_be-same (not (str_eq f.rendezvous "")) d) λ a _ ea.
      Ensures-bind _ _ (must_be-same (not (str_eq f.trusted_peers "")) a) λ b _ eb.
        Ensures-bind _ _
          (open_log-same (str_eq f.zmq_log_addr "") p.new_push p.new_read_writer f.zmq_log_addr b)
          λ c _ ec. rw (ec, eb, ea) h

  -- The server knows itself, and trusts itself.
  abbrev pub TrustsItself : String → Server (RaftImpl W) → Type 0
  TrustsItself id t = (get_id t ≡ id) × (am_trusted t ≡ true)

  -- Where a host has the id of its key pair: a server that `main` starts with a generated key pair,
  -- the id of which its flag lists, has that id and trusts itself, and the files are as before; if
  -- there is no server, `main` panics or blocks.
  pub serve-TrustsItself :
      HostIds p
      → (f : Flags) (d : Disk Bytes) (keys : Priv × Pub) (id : String)
      → load_or_generate_keys p.crypto f.privkeyfile f.pubkeyfile d ≡ ok d keys
      → Generated p.crypto keys
      → p.id_from_public keys.1 ≡ succeeded id
      → Memᴰ id (trusted_list p f.trusted_peers)
      → Ensures (λ u t. (u ≡ d) × TrustsItself id t) (λ _ _. ⊥) (serve p ext around f d)
  unfolding serve
  serve-TrustsItself ids f d keys id el g ei m = checked f d _ (
      rw el (
        Ensures-bind _ _ (must-given (p.pubsub_host keys.0) d) λ a h (ea, eh).
          Ensures-bind _ _ (must-given (p.raft_host keys.0) a) λ b rh (eb, er).
            Ensures-bind _ _ (started_by-same p.connect_fails around.turns _ b) λ c _ ec.
              Ensures-bind _ _ (must-given p.new_gossip_sub c) λ e _ (ee, eg).
                Ensures-mono _ (made-same _ e (new-Fixed _ around.env _))
                  (λ u t (eu, fixed).
                    let same : h.id ≡ id =
                      succeeded-injective (sym (ids.host_lem keys h g eh) ∙ ei) in
                    (
                      eu ∙ ee ∙ ec ∙ eb ∙ ea,
                      (
                        fixed.self ∙ same,
                        Fixed-am_trusted h.id (trusted_list p f.trusted_peers) t fixed (rw same m),
                      ),
                    ))
                  (λ u x h. h)))

  -- Without -local, over the DHT, `main` never comes to serve, nor back with an error: whatever the
  -- flags, the files and the peers that are found, it panics or blocks.
  pub serve-dht-Halts :
      (f : Flags) (d : Disk Bytes) → f.local ≡ false → Halts (serve p ext around f d)
  unfolding serve
  serve-dht-Halts f d l = checked f d _ (
      Ensures-bind _ _
        (must-Ensures _ (Ensures-any (load_or_generate_keys p.crypto f.privkeyfile f.pubkeyfile d)))
        λ c keys _. Ensures-bind _ _ (must-given (p.pubsub_host keys.0) c) λ a h _.
          Ensures-bind _ _ (must-given (p.raft_host keys.0) a) λ b rh _.
            let stuck : Halts (find_peers p f.local around.turns h.id b) = rw l (
              started_by-Halts p.connect_fails around.turns _ b
                (run-dht-NotReady p.connect_fails h.id around.turns)) in
            Ensures-bind _ _ stuck λ e _ never. absurd never)
