-- ===== src/Lib.antt =====
-- PeerPrint's Go server, peerprint/server.
--
-- Peers share a queue of print jobs: a map from ids to jobs, each perhaps locked by the peer that
-- works on it. The peers of a queue talk over pubsub topics. On each topic some of them (the
-- electable ones) replicate the map with raft; their leader alone writes to it, at the requests
-- of the others, and publishes what it becomes. A wrapper process sends commands to its server and
-- is told of changes.
--
-- A call of Go code is a function from the state that it can write to an `Outcome` (Base/Go): a
-- value, an error, each with the state that is left, or `halt`, where the call panics or blocks.
-- A panic is a value, so that a nil pointer, a write to a nil map and a send on a closed channel
-- appear in the model where the code has them. A pointer is an `Option`. A Go map is an
-- association list (Base/Dict). A uint64 or int64 computation keeps its wrap-around.
--
--   Proto (Proto/Jobs, Proto/Peers, Proto/Message)
--     peerprint/server/proto/*.pb.go: the message types. A field that no modelled code reads is
--     kept where the message is stored or passed on.
--   Raft
--     peerprint/server/raft/raft.go, `Raft`: the interface, as a record of calls over a state
--     `R`. Raft/Memory is `LocalMemoryImpl`, Raft/Mock is `testRaft` of
--     peerprint/server/server/mocks.go, Raft/Impl is `RaftImpl`, over a record `External` with
--     the calls of hashicorp/raft, go-libp2p-raft and libp2p, on a world that they read and
--     write. A method of theirs on a nil pointer panics. `Get`, `bootstrapState` and `Commit`
--     call one another, and take fuel; each level is one call of `Get`. Raft/Impl/Observe is
--     `observeLeadership`, with the server's end of `LeaderChan`. Raft/Contract is what the
--     theorems on jobs ask of an implementation, Raft/Consensus what RaftImpl relies on to keep
--     it. Raft/Impl/Joining is `Connect` where the libraries' calls succeed, Raft/Impl/Shutdown
--     is `Shutdown`. Raft/Marshal is `MarshableState`, with protobuf and the streams as
--     parameters.
--   Server
--     peerprint/server/server/server.go, `Server`: the state. A channel of `sendPubsub` is open
--     or closed. What a step sends (to a topic, to the wrapper, to the poller) is appended to
--     `sent`, newest first. What a step reads from outside (the clock, a random draw, the result
--     of opening a topic, whether a receiver waits) is its `Env`, one for each step.
--     Server/Access: `CanHandleMessage` of handlers.go and the tests that it makes. Server/Jobs:
--     `checkMutable` and `getMutableJob` of server.go, and the four job handlers.
--     Server/Jobs/Rulings is a table of what they are to do, Server/Jobs/Tables the map of jobs
--     as a quotient, without an order of its entries. Server/Roles: the other handlers.
--     Server/Dispatch: `Handle`. Server/Setup: `New` and `setup`. Server/Loop: the `select` of
--     `Loop`, one function for each case; a run of the loop is a fold over the events that it
--     receives, in any order, so it needs no fuel. Server/Start: `Loop` from its first line, with
--     `handshakeListener` and `handshakeRaft`, as a step relation of the two goroutines.
--     Server/Replies: the types of the replies of `Handle`, and Server/Replies/Chains the replies
--     to replies. Server/TestEnv: the environment of peerprint/server/server/mocks.go, and its
--     poller.
--   Poll
--     peerprint/server/poll/poll.go: the poller as a step relation over its goroutines, with the
--     points where each of them waits. Polls can overlap, so it counts the goroutines of
--     `pollPeersSync` that stand at each point; a tick can wait in the ticker's channel, also after
--     `Stop`.
--   TopicReceiver
--     peerprint/server/topic_receiver/topic_receiver.go: a message of a topic, and the loops that
--     send and receive. `sendLoop` takes fuel, one for each round; it needs one round for each
--     queued message and one for the closed channel. Its `open_channel` is `NewTopicChannel`.
--   Cmd
--     peerprint/server/cmd/cmd.go: the messages to and from the wrapper, over what a channel or a
--     socket carries until it is closed, and over an `errChan` that is read or not. Proto/Codec
--     has the calls of the protobuf library that these two use, and what they document (`Faithful`):
--     of a message that could be written, the same is read, where an empty map may come back as a
--     nil one, and an error as its text.
--   Discovery
--     peerprint/server/discovery/discovery.go: who waits on its unbuffered channels, as turns of
--     the goroutines in any order; peers can be found over mDNS before its goroutine waits for them.
--     Discovery/Bootstrap is `initDHT`, with the goroutines that its WaitGroup joins.
--   RegistryGenerator
--     the key files of peerprint/server/registry_generator/registry_generator.go, and
--     `loadOrGenerateKeys` of peerprint/server/main.go. The files are a map from names to
--     contents. RegistryGenerator/Registry is the registry: `genRegistry`, `GenRegistryFiles`,
--     `writeAsYaml` and `LoadRegistry`.
--   Main
--     peerprint/server/main.go: the two commands, from the arguments to the server that `main`
--     calls `Loop` of; Platform is what the libraries return. The files below it put the parts
--     together: Main/Unset, Main/HalfSet and Main/Fresh the server over a `RaftImpl` that is not
--     set up, Main/Cluster two servers that exchange their raft addresses, Main/Granted and
--     Main/Replication a request from the leader's wrapper through the topic channels to another
--     server, and Main/Forwarding one from the wrapper of another server to the leader and back.
--   Tests
--     runs on concrete inputs.
--
-- Assumed. Where a theorem is about the clock, the reading lies in the range that `InRange`
-- (Server/Jobs/Mutable) names. A channel to a topic has room, but in the handshakes, which panic
-- without it: what is sent is recorded, and waiting for room is not modelled. The errors of a
-- topic's loops are taken to find room in `errChan`. Arithmetic on float64 is a parameter. An
-- error is compared by where it comes from, not by its text. The handlers write to the map that
-- `Get` returned before `Commit` agrees: `wrote` of the `Raft` record is that aliasing.
--
-- Not modelled: what libp2p does in its calls, those of `testHost` among them; the channels that
-- main.go makes between the parts; the sockets of cmd.go; in poll.go, a context that is
-- cancelled, which main's never is. The Python side is another program.
pub mod Base
pub mod Proto
pub mod Raft
pub mod TopicReceiver
pub mod Cmd
pub mod Discovery
pub mod RegistryGenerator
pub mod Poll
pub mod Server
pub mod Main
mod Tests
