-- ===== src/Raft/Marshal/Restored.antt =====
-- A state that is written by `Marshal`, read by `Unmarshal` and handed out by `getState` (raft.go).
use peerprint.Base.{true, some, [], ◌≡◌, refl, inl, inr, Option-cases}
use peerprint.Base.Go.{Outcome, ok, err, succeeded}
use peerprint.Base.Post.{Succeeds, Attempt-cases}
use peerprint.Proto.Jobs.{Jobs, State}
use peerprint.Proto.Codec.{NoNilJob}
use peerprint.Raft.Contract.{jobs_at, ◌≗◌}
use peerprint.Raft.External.{External, marshable}
use peerprint.Raft.Impl.{RaftImpl, get_state, with_jobs}
use peerprint.Raft.Marshal.{Protobuf, Streams, marshal, unmarshal}

-- What the libraries document: a reader gives what was written; of a state that could be written,
-- what is read has the same jobs, but an empty map may come back as a nil one.
pub record Documented {W Bytes : Type 0} (lib : Protobuf Bytes) (io : Streams W Bytes)
    : Type 0 where
  pub reads :
      (b : Bytes) (w w' : W) → io.write b w ≡ ok w' tt → Succeeds (λ _ c. c ≡ b) (io.read_all w')
  pub restores :
      (s u : State) (b : Bytes)
      → NoNilJob s
      → lib.marshal (some s) ≡ succeeded b
      → Succeeds
          (λ p _. (u' : State) × (p ≡ some u') × (jobs_at (some u') ≗ jobs_at (some s)))
          (lib.unmarshal b (some u))

-- a map, with the jobs of `s`
abbrev pub MapOf : State → State → Type 0
MapOf s s' = (m : Jobs) × (s'.jobs ≡ some m) × (jobs_at (some s') ≗ jobs_at (some s))

module _ {W Bytes V : Type 0} (lib : Protobuf Bytes) (io : Streams W Bytes)
    (doc : Documented lib io) (ext : External V) where
  with_jobs-MapOf :
      (s u : State) (ri : RaftImpl V)
      → jobs_at (some u) ≗ jobs_at (some s)
      → Succeeds (λ _ s'. MapOf s s') (with_jobs ext (some u) ri)
  with_jobs-MapOf s u ri h = elim (Option-cases u.jobs) [
    | inl e ↦
        let h' : jobs_at (some (record { jobs = some [] })) ≗ jobs_at (some s) = rw e at h in
        rw e (
          record ri { world = ext.wrote (record { jobs = some [] }) ri.world },
          record { jobs = some [] },
          refl,
          ([], refl, h'),
        )
    | inr (m, e) ↦
        let h' : jobs_at (some (record { jobs = some m })) ≗ jobs_at (some s) = rw e at h in
        rw e (ri, record { jobs = some m }, refl, (m, refl, h'))
  ]

  -- Where reading undoes writing as the libraries document, and a raft object in the world `held u'`
  -- holds the state `u'`: a state without nil jobs that `Marshal` can write is read by `Unmarshal`,
  -- into any state, and `getState` of a set up raft object that holds what is read returns a map
  -- that is not nil, with the jobs of the state that was written.
  pub marshal-get_state :
      (held : State → V) (ri : RaftImpl V) (s u : State) (w w' : W)
      → ((p : State) → ext.get_current_state (held p) ≡ ok (held p) (marshable (some p)))
      → NoNilJob s
      → marshal lib io (some s) w ≡ ok w' tt
      → Succeeds
          (λ x _.
            (r : State) × (x.state ≡ some r)
            × Succeeds
                (λ _ s'. MapOf s s')
                (get_state ext (record ri { consensus = true; world = held r })))
          (unmarshal lib io (record { state = some u; stream = w' }))
  unfolding marshal unmarshal get_state
  marshal-get_state held ri s u w w' holds set wrote = elim (Attempt-cases (lib.marshal (some s))) [
    | inl (e, q) ↦
        let never : ◌≡◌ {A = Outcome W (Unit {0})} (err w e) (ok w' tt) = rw q at wrote in absurd cc
    | inr (b, q) ↦
        let (v, c, ec, same) = doc.reads b w w' (rw q at wrote) in
        let (p, y, eu, (u', pu, h)) = doc.restores s u b set q in
        let (ri', s', eg, of) =
          with_jobs-MapOf s u' (record ri { consensus = true; world = held u' }) h in
        (
          record { state = some u'; stream = v },
          tt,
          rw (ec, same, eu, pu),
          (u', refl, (ri', s', rw (holds u') eg, of)),
        )
  ]
