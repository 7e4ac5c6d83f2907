-- ===== src/Cmd/Sockets.antt =====
-- What the two ends of a socket make of a sequence of messages.
use mathlib.Core.List.{append-nil, append_assoc}
use peerprint.Base.{List, [], ◌∷◌, ◌++◌, map, ◌≡◌, refl, inl, inr, ap, true}
use peerprint.Base.Go.{
  Error, ok, Attempt, failed, succeeded, any_cast, marshal_error, attempt_outcome,
}
use peerprint.Base.Post.{Succeeds, Attempt-cases}
use peerprint.Proto.Message.{Message}
use peerprint.Proto.Codec.{Codec, Faithful, All, Pairwise, Writable, Written, Same}
use peerprint.Cmd.{
  Zmq, ErrChan, read, new, report, report_to, serialize, deserialize, pipe, receiver,
}

-- what goes out for a message: its frames, or none if it cannot be serialized
abbrev pub frames : {Bytes : Type 0} → Attempt (List Bytes) → List Bytes
frames (failed e) = []
frames (succeeded l) = l

abbrev pub errors_in : {Bytes : Type 0} → List (Attempt (List Bytes)) → List Error
errors_in [] = []
errors_in (failed e ∷ l) = e ∷ errors_in l
errors_in (succeeded x ∷ l) = errors_in l

module _ {Any Bytes : Type 0} (codec : Codec Any Bytes) where
  abbrev in_one_frame : Attempt Bytes → Attempt (List Bytes)
  in_one_frame (failed e) = failed (marshal_error e)
  in_one_frame (succeeded b) = succeeded (b ∷ [])

  abbrev from_any : Attempt Any → Attempt (List Bytes)
  from_any (failed e) = failed any_cast
  from_any (succeeded a) = in_one_frame (codec.marshal a)

  -- a message as one frame of the codec, or the error of the call that fails
  abbrev pub serialized : Message → Attempt (List Bytes)
  serialized m = from_any (codec.any_new m)

  serialize-serialized :
      (m : Message) (z : Zmq Bytes) → attempt_outcome (serialize codec m z) ≡ ok z (serialized m)
  unfolding serialize
  serialize-serialized m z = elim (Attempt-cases (codec.any_new m)) [
    | inl (e, p) ↦ rw p refl
    | inr (a, p) ↦ elim (Attempt-cases (codec.marshal a)) [
      | inl (e, q) ↦ rw (p, q) refl
      | inr (b, q) ↦ rw (p, q) refl
    ]
  ]

  report-read :
      (e : Error) (z : Zmq Bytes)
      → z.err_chan ≡ read
      → report codec e z ≡ ok (record z { errors = z.errors ++ e ∷ [] }) tt
  report-read e z c = ap (λ h. report_to codec h e z) c

  -- Where errChan is read, `pipe` comes back once its channel is closed, with the socket destroyed.
  -- It has then put on SendChan, in order, one item for each message that it was given: the one frame
  -- of the message, or, where a call of the codec fails, no frames; and the errors of these calls, and
  -- no others, have gone to errChan in that order.
  pub pipe-serialized :
      (reqs : List Message) (z : Zmq Bytes)
      → z.err_chan ≡ read
      → pipe codec reqs z
        ≡ ok
            (record z {
              sent = z.sent ++ map (λ m. frames (serialized m)) reqs;
              errors = z.errors ++ errors_in (map serialized reqs);
              destroyed = true;
            })
            tt
  unfolding pipe
  pipe-serialized [] z c = rw (append-nil z.sent, append-nil z.errors) refl
  pipe-serialized (m ∷ reqs) z c = elim (Attempt-cases (serialized m)) [
    | inl (e, k) ↦
        rw
          (
            serialize-serialized m z,
            k,
            report-read e z c,
            ← append_assoc z.sent ([] ∷ []) (map (λ m. frames (serialized m)) reqs),
            ← append_assoc z.errors (e ∷ []) (errors_in (map serialized reqs)),
          )
          (pipe-serialized reqs (record z { errors = z.errors ++ e ∷ []; sent = z.sent ++ [] ∷ [] })
            c)
    | inr (l, k) ↦
        rw
          (
            serialize-serialized m z,
            k,
            ← append_assoc z.sent (l ∷ []) (map (λ m. frames (serialized m)) reqs),
          )
          (pipe-serialized reqs (record z { sent = z.sent ++ l ∷ [] }) c)
  ]

  framed : Bytes → List Bytes
  framed b = b ∷ []

  pipe-sends :
      (reqs : List Message) (z : Zmq Bytes)
      → All (Writable codec) reqs
      → (bs : List Bytes) × Pairwise (Written codec) reqs bs
        × (pipe codec reqs z
            ≡ ok (record z { sent = z.sent ++ map framed bs; destroyed = true }) tt)
  unfolding pipe serialize framed
  pipe-sends [] z h = ([], tt, rw (append-nil z.sent))
  pipe-sends (m ∷ reqs) z ((plain, (b, (a, wrapped, written))), h) =
      let (bs, w, e) = pipe-sends reqs (record z { sent = z.sent ++ (b ∷ []) ∷ [] }) h in
      (
        b ∷ bs,
        ((plain, (a, wrapped, written)), w),
        rw (wrapped, written, ← append_assoc z.sent ((b ∷ []) ∷ []) (map framed bs)) e,
      )

  receiver-takes :
      Faithful codec
      → (reqs : List Message) (bs : List Bytes) (z : Zmq Bytes) → Pairwise (Written codec) reqs bs
      → (got : List Message) × Pairwise Same reqs got
        × (receiver codec (map framed bs) z ≡ ok (record z { received = z.received ++ got }) tt)
  unfolding receiver deserialize framed
  receiver-takes f [] [] z h = ([], tt, rw (append-nil z.received))
  receiver-takes f [] (b ∷ bs) z h = absurd h
  receiver-takes f (m ∷ reqs) [] z h = absurd h
  receiver-takes f (m ∷ reqs) (b ∷ bs) z ((plain, w), h) =
      let (m', (a, taken, unwrapped), same) = f.reads m b plain w in
      let (got, all, e) =
        receiver-takes f reqs bs (record z { received = z.received ++ m' ∷ [] }) h in
      (m' ∷ got, (same, all), rw (taken, unwrapped, ← append_assoc z.received (m' ∷ []) got) e)

  -- Where the codec is faithful, and each message has no nil pointer for itself, in its map or in its
  -- list, and can be written: what `pipe` sends for a sequence of messages, `receiver` at the other
  -- end turns back into the same messages in the same order, without an error; but an empty map of
  -- jobs may come back as a nil one, and an error as some error.
  pub pipe-receiver :
      Faithful codec
      → (reqs : List Message) (z : Zmq Bytes) (c : ErrChan) → All (Writable codec) reqs
      → Succeeds
          (λ z' _.
            (got : List Message) × Pairwise Same reqs got
            × (receiver codec z'.sent z ≡ ok (record z { received = z.received ++ got }) tt))
          (pipe codec reqs (new c))
  unfolding new
  pipe-receiver f reqs z c writable =
      let (bs, w, e) = pipe-sends reqs (new c) writable in (_, tt, e, receiver-takes f reqs bs z w)
