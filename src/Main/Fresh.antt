-- ===== src/Main/Fresh.antt =====
-- The raft object of the server that main.go starts.
use peerprint.Base.{ℕ, ◌≡◌, refl}
use peerprint.Base.Go.{halt, nil_dereference}
use peerprint.Base.Post.{Ensures, Ensures-bind, Ensures-mono, Ensures-any}
use peerprint.RegistryGenerator.{Disk, load_or_generate_keys}
use peerprint.Raft.External.{External}
use peerprint.Raft.Impl.{raft_impl, new as new_raft}
use peerprint.Server.{Env}
use peerprint.Server.Loop.{Event, loop_step}
use peerprint.Main.{Flags, Platform, Surroundings, serve}
use peerprint.Main.Serving.{must-Ensures, must-given, started_by-same, made-same, checked}
use peerprint.Main.Unset.{AsksLeader, NoRaft, new-NoRaft, loop_step-NoRaft}

module _ {Priv Pub Bytes Json W : Type 0} (p : Platform Priv Pub Bytes Json) (ext : External W)
    (around : Surroundings W) where
  serve-NoRaft :
      (f : Flags) (d : Disk Bytes) → Ensures (λ _ t. NoRaft t) (λ _ _. ⊥) (serve p ext around f d)
  unfolding serve new_raft
  serve-NoRaft f d = checked p ext around f d _ (
      Ensures-bind _ _
        (must-Ensures _ (Ensures-any (load_or_generate_keys p.crypto f.privkeyfile f.pubkeyfile d)))
        λ c keys _. Ensures-bind _ _ (must-given (p.pubsub_host keys.0) c) λ a h _.
          Ensures-bind _ _ (must-given (p.raft_host keys.0) a) λ b rh _.
            Ensures-bind _ _ (started_by-same p.connect_fails around.turns _ b) λ e _ _.
              Ensures-bind _ _ (must-given p.new_gossip_sub e) λ g _ _.
                Ensures-mono _ (made-same _ g (new-NoRaft ext around.fuel around.env _ refl))
                  (λ u t q. q.1) (λ u x q. q))

  -- Where main comes to serve, the raft of its RaftImpl is nil still: if the first event of the
  -- main loop asks for the leader (a command, a job or assignment request, a state, a summary, a
  -- change of the leader), it panics; if there is no server, main panics or blocks.
  pub serve-panics :
      (f : Flags) (d : Disk Bytes) (n : ℕ) (env : Env) (e : Event)
      → AsksLeader e
      → Ensures
          (λ _ t. loop_step (raft_impl ext n) env e t ≡ halt nil_dereference)
          (λ _ _. ⊥)
          (serve p ext around f d)
  serve-panics f d n env e asks =
      Ensures-mono _ (serve-NoRaft f d) (λ u t h. loop_step-NoRaft ext n env e t asks h)
        (λ u x h. h)
