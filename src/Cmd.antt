-- ===== src/Cmd.antt =====
-- cmd.go: the sockets to the wrapper. `Bytes` is one frame; a zmq message is a list of frames. What
-- a goroutine sends on a channel is appended, the latest last; a full `errChan` that nobody reads
-- blocks it.
pub mod Sockets
pub mod Deaf
use peerprint.Base.{ℕ, zero, suc, String, Bool, true, false, List, [], ◌∷◌, ◌++◌}
use peerprint.Base.Go.{
  Go, Error, any_cast, marshal_error, empty_message, unmarshal_error, from_any_error,
  receiver_error, Attempt, failed, succeeded, pure, fail, modify, stop, blocked, wrap, attempt,
  given, must, ◌>>=◌, ◌>>◌,
}
use peerprint.Proto.Message.{Message}
use peerprint.Proto.Codec.{Codec}

-- `errChan`: read by another goroutine, or by nobody, with so many free places in its buffer.
pub data ErrChan : Type 0 where
  read : ErrChan
  unread : ℕ → ErrChan

-- One socket and the channels around it.
pub record Zmq (Bytes : Type 0) : Type 0 where
  pub sent : List (List Bytes)  -- what is put on `SendChan`; nil data is a list of no frames
  pub received : List Message  -- on `recvChan`
  pub errors : List Error
  pub err_chan : ErrChan
  pub destroyed : Bool

unfoldable pub new : {Bytes : Type 0} → ErrChan → Zmq Bytes
new c = record { sent = []; received = []; errors = []; err_chan = c; destroyed = false }

module _ {Any Bytes : Type 0} (codec : Codec Any Bytes) where
  unfoldable pub serialize : {S : Type 0} → Message → Go S (List Bytes)
  serialize req = do
    any ← wrap (λ e. any_cast) (given (codec.any_new req))
    msg ← wrap marshal_error (given (codec.marshal any))
    pure (msg ∷ [])

  unfoldable pub deserialize : {S : Type 0} → List Bytes → Go S Message
  deserialize [] = fail empty_message
  deserialize (b ∷ bs) = do
    any ← wrap unmarshal_error (given (codec.unmarshal b))
    wrap from_any_error (given (codec.unmarshal_new any))

  abbrev pub report_to : ErrChan → Error → Go (Zmq Bytes) (Unit {0})
  report_to read e = modify λ z. record z { errors = z.errors ++ e ∷ [] }
  report_to (unread zero) e = stop blocked
  report_to (unread (suc n)) e =
      modify λ z. record z { errors = z.errors ++ e ∷ []; err_chan = unread n }

  abbrev pub report : Error → Go (Zmq Bytes) (Unit {0})
  report e z = report_to z.err_chan e z

  abbrev pub send : List Bytes → Go (Zmq Bytes) (Unit {0})
  send frames = modify λ z. record z { sent = z.sent ++ frames ∷ [] }

  -- `data` is nil beside an error, and is put on `SendChan` all the same
  abbrev pub pass_on : Attempt (List Bytes) → Go (Zmq Bytes) (Unit {0})
  pass_on (failed e) = do report e; send []
  pass_on (succeeded frames) = send frames

  -- over what the channel carries until it is closed
  unfoldable pub pipe : List Message → Go (Zmq Bytes) (Unit {0})
  unfolding serialize
  pipe [] = modify λ z. record z { destroyed = true }
  pipe (req ∷ rest) = do r ← attempt (serialize req); pass_on r; pipe rest

  abbrev pub take_in : Attempt Message → Go (Zmq Bytes) (Unit {0})
  take_in (failed e) = report (receiver_error e)
  take_in (succeeded m) = modify λ z. record z { received = z.received ++ m ∷ [] }

  unfoldable pub receiver : List (List Bytes) → Go (Zmq Bytes) (Unit {0})
  unfolding deserialize
  receiver [] = pure tt
  receiver (mm ∷ rest) = do r ← attempt (deserialize mm); take_in r; receiver rest

-- `NewLog`: the calls of the socket library for the push socket and for its writer
unfoldable pub new_log :
    {S : Type 0}
    → (String → Attempt (Unit {0}))
    → (String → Attempt (Unit {0}))
    → String
    → Go S (Unit {0})
new_log new_push new_read_writer addr = do
  must (given (new_push addr))
  must (given (new_read_writer addr))

-- `Destroy`, of the reply socket and of the push socket
unfoldable pub destroy : {Bytes : Type 0} → Zmq Bytes × Zmq Bytes → Zmq Bytes × Zmq Bytes
destroy (c, p) = (record c { destroyed = true }, record p { destroyed = true })
