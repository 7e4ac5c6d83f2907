-- ===== src/Tests/Marshal.antt =====
-- An empty state through a protobuf library that reads it back with a nil map.
use peerprint.Base.{true, sym, subst, Option, none, some, [], ◌∷◌, ◌≡◌, refl}
use peerprint.Base.Go.{succeeded, ok}
use peerprint.Base.Post.{Succeeds, ok-injective, succeeded-injective}
use peerprint.Proto.Jobs.{Jobs, State}
use peerprint.Base.Dict.{lookup}
use peerprint.Raft.Contract.{jobs_at, ◌≗◌}
use peerprint.Raft.Impl.{get_state}
use peerprint.Raft.Marshal.{Protobuf, Streams, unmarshal, marshal}
use peerprint.Raft.Marshal.Restored.{Documented, MapOf, marshal-get_state}
use peerprint.Tests.Raft.{libraries, chosen, at}

abbrev pub no_empty : Option Jobs → State
no_empty none = record { jobs = none }
no_empty (some []) = record { jobs = none }
no_empty (some (e ∷ m)) = record { jobs = some (e ∷ m) }

abbrev given_state : Option State → State
given_state none = record { jobs = none }
given_state (some s) = s

-- written as they are, read with no empty map
abbrev states : Protobuf State
states = record {
  marshal = λ p. succeeded (given_state p);
  unmarshal = λ b p. ok (some (no_empty b.jobs)) tt;
}

-- a buffer that is written once
abbrev buffer : Streams State State
buffer = record { write = λ b w. ok b tt; read_all = λ w. ok w w }

pub no_empty-same :
    (m : Option Jobs) → jobs_at (some (no_empty m)) ≗ jobs_at (some (record { jobs = m }))
no_empty-same none k = refl
no_empty-same (some []) k = refl
no_empty-same (some (e ∷ m)) k = refl

states-Documented : Documented states buffer
states-Documented = record {
  reads = λ b w w' e. (w', w', refl, sym (ok-injective e).0);
  restores = λ s u b n e. (
    some (no_empty b.jobs),
    tt,
    refl,
    (
      no_empty b.jobs,
      refl,
      subst (λ x. jobs_at (some (no_empty x.jobs)) ≗ jobs_at (some s)) (succeeded-injective e)
          (no_empty-same s.jobs),
    ),
  );
}

abbrev empty_state : State
empty_state = record { jobs = some [] }

abbrev nil_state : State
nil_state = record { jobs = none }

marshal-get_state_example :
    Succeeds
      (λ x _.
        (r : State) × (x.state ≡ some r)
        × Succeeds
            (λ _ s'. MapOf empty_state s')
            (get_state libraries
              (record (at chosen) { consensus = true; world = record chosen { agreed = some r } })))
      (unmarshal states buffer (record { state = some nil_state; stream = empty_state }))
unfolding lookup marshal
marshal-get_state_example =
    marshal-get_state states buffer states-Documented libraries
      (λ r. record chosen { agreed = some r }) (at chosen) empty_state nil_state nil_state
      empty_state (λ p. refl) (λ k e. cc) refl
