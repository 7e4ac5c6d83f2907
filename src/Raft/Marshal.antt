-- ===== src/Raft/Marshal.antt =====
-- `MarshableState` of raft.go: how the consensus writes its state to the log and to snapshots. The
-- protobuf library and the streams are parameters.
pub mod Restored
use peerprint.Base.{Option}
use peerprint.Base.Go.{Go, Attempt, given, within, ◌>>=◌}
use peerprint.Proto.Jobs.{State}

-- proto.Marshal, and proto.Unmarshal into a message, which may be a nil pointer.
pub record Protobuf (Bytes : Type 0) : Type 0 where
  pub marshal : Option State → Attempt Bytes
  pub unmarshal : Bytes → Go (Option State) (Unit {0})

-- an io.Writer, and io.ReadAll of an io.Reader
pub record Streams (W Bytes : Type 0) : Type 0 where
  pub write : Bytes → Go W (Unit {0})
  pub read_all : Go W Bytes

-- a `MarshableState`, and the reader that it is read from
pub record Reading (W : Type 0) : Type 0 where
  pub state : Option State
  pub stream : W

module _ {W Bytes : Type 0} (lib : Protobuf Bytes) (io : Streams W Bytes) where
  unfoldable pub marshal : Option State → Go W (Unit {0})
  marshal state = do m ← given (lib.marshal state); io.write m

  unfoldable pub unmarshal : Go (Reading W) (Unit {0})
  unmarshal = do
    b ← within (λ x. x.stream) (λ w x. record x { stream = w }) io.read_all
    within (λ x. x.state) (λ s x. record x { state = s }) (lib.unmarshal b)
