-- ===== src/Cmd/Deaf.antt =====
-- The receiver of cmd.go over an `errChan` that nobody reads.
use mathlib.Core.List.{append-nil, append_assoc}
use native.Mathlib.Decide.{dec_le}
use mathlib.Core.Logic.{◌⊎◌}
use peerprint.Base.{
  ℕ, zero, suc, ◌≤◌, ◌<◌, ap, List, [], ◌∷◌, ◌++◌, map, ◌≡◌, refl, sym, ◌∙◌, inl, inr, arith,
}
use peerprint.Base.Go.{
  Outcome, ok, err, halt, blocked, Error, empty_message, receiver_error, Attempt, failed, succeeded,
  attempt_outcome, and_then,
}
use peerprint.Base.Post.{Succeeds, Attempt-cases}
use peerprint.Proto.Message.{Message}
use peerprint.Proto.Codec.{Codec}
use peerprint.Cmd.{Zmq, unread, deserialize, report, report_to, take_in, receiver}

-- the messages among what was read, and the number of errors
abbrev pub messages : List (Attempt Message) → List Message
messages [] = []
messages (failed e ∷ rs) = messages rs
messages (succeeded m ∷ rs) = m ∷ messages rs

abbrev pub errors : List (Attempt Message) → ℕ
errors [] = 0
errors (failed e ∷ rs) = suc (errors rs)
errors (succeeded m ∷ rs) = errors rs

abbrev pub read_as : Outcome (Unit {0}) Message → Attempt Message
read_as (ok s m) = succeeded m
read_as (err s e) = failed e
read_as (halt x) = failed empty_message

module _ {Any Bytes : Type 0} (codec : Codec Any Bytes) where
  -- what `Deserialize` makes of a message
  abbrev pub reading : List Bytes → Attempt Message
  reading mm = read_as (deserialize codec mm tt)

  deserialize-reading :
      (mm : List Bytes) (z : Zmq Bytes)
      → attempt_outcome (deserialize codec mm z) ≡ ok z (reading mm)
  unfolding deserialize
  deserialize-reading [] z = refl
  deserialize-reading (b ∷ bs) z = elim (Attempt-cases (codec.unmarshal b)) [
    | inl (e, p) ↦ rw p refl
    | inr (a, p) ↦ elim (Attempt-cases (codec.unmarshal_new a)) [
      | inl (e, q) ↦ rw (p, q) refl
      | inr (m, q) ↦ rw (p, q) refl
    ]
  ]

  -- the rounds of `receiver`, by what is read
  take_all : List (Attempt Message) → Zmq Bytes → Outcome (Zmq Bytes) (Unit {0})
  take_all [] z = ok z tt
  take_all (r ∷ rs) z = and_then (take_in codec r z) (λ _. take_all rs)

  receiver-take_all :
      (mms : List (List Bytes)) (z : Zmq Bytes)
      → receiver codec mms z ≡ take_all (map reading mms) z
  unfolding receiver take_all
  receiver-take_all [] z = refl
  receiver-take_all (mm ∷ mms) z =
      rw (deserialize-reading mm z)
        (λ i. and_then (take_in codec (reading mm) z) (λ _ u. receiver-take_all mms u i))

  at_room :
      {n : ℕ} (e : Error) (z : Zmq Bytes)
      → z.err_chan ≡ unread n
      → report codec e z ≡ report_to codec (unread n) e z
  at_room e z c = ap (λ h. report_to codec h e z) c

  take_all-fits :
      (rs : List (Attempt Message)) (n : ℕ) (z : Zmq Bytes)
      → z.err_chan ≡ unread n
      → errors rs ≤ n
      → Succeeds (λ u _. u.received ≡ z.received ++ messages rs) (take_all rs z)
  unfolding take_all
  take_all-fits [] n z c l = (z, tt, refl, sym (append-nil z.received))
  take_all-fits (succeeded m ∷ rs) n z c l =
      let (u, x, e, h) = take_all-fits rs n (record z { received = z.received ++ m ∷ [] }) c l in
      (u, x, e, h ∙ append_assoc z.received (m ∷ []) (messages rs))
  take_all-fits (failed e ∷ rs) zero z c l = absurd (omega arith)
  take_all-fits (failed e ∷ rs) (suc n) z c l =
      let (u, x, t, h) =
        take_all-fits rs n
          (record z { errors = z.errors ++ receiver_error e ∷ []; err_chan = unread n }) refl
          (omega arith) in
      (u, x, rw (at_room (receiver_error e) z c) t, h)

  take_all-blocks :
      (rs : List (Attempt Message)) (n : ℕ) (z : Zmq Bytes)
      → z.err_chan ≡ unread n
      → n < errors rs
      → take_all rs z ≡ halt blocked
  unfolding take_all
  take_all-blocks [] n z c l = absurd (omega arith)
  take_all-blocks (succeeded m ∷ rs) n z c l =
      take_all-blocks rs n (record z { received = z.received ++ m ∷ [] }) c l
  take_all-blocks (failed e ∷ rs) zero z c l = rw (at_room (receiver_error e) z c) refl
  take_all-blocks (failed e ∷ rs) (suc n) z c l = rw (at_room (receiver_error e) z c) (
      take_all-blocks rs n
        (record z { errors = z.errors ++ receiver_error e ∷ []; err_chan = unread n }) refl
        (omega arith))

  -- Where nobody reads errChan and its buffer has a number of free places: while no more messages
  -- than that cannot be deserialized, `receiver` hands over all the others, in order; with one more
  -- of them it blocks for good, whatever comes behind.
  pub receiver-unread :
      (mms : List (List Bytes)) (n : ℕ) (z : Zmq Bytes)
      → z.err_chan ≡ unread n
      → (errors (map reading mms) ≤ n
          × Succeeds
              (λ u _. u.received ≡ z.received ++ messages (map reading mms))
              (receiver codec mms z))
        ⊎ (n < errors (map reading mms) × (receiver codec mms z ≡ halt blocked))
  receiver-unread mms n z c = elim (dec_le (errors (map reading mms)) n) [
    | yes l ↦ inl (l, rw (receiver-take_all mms z) (take_all-fits (map reading mms) n z c l))
    | no l ↦
        let m : n < errors (map reading mms) = omega arith in
        inr (m, receiver-take_all mms z ∙ take_all-blocks (map reading mms) n z c m)
  ]
