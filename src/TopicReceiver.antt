-- ===== src/TopicReceiver.antt =====
-- topic_receiver.go: the two goroutines of a pubsub topic. A step of a loop is what it does with one
-- value received. What it sends on a channel is appended, the latest last.
pub mod Transport
pub mod Opening
pub mod Delivery
use peerprint.Base.{
  ℕ, zero, suc, String, Bool, true, false, Option, none, some, List, [], ◌∷◌, ◌++◌, str_eq,
  if◌then◌else◌,
}
use peerprint.Base.Go.{
  Go, Error, any_cast, marshal_error, publish_error, join_failure, subscribe_failure, Attempt,
  failed, succeeded, closed_channel, blocked, out_of_fuel, pure, fail, stop, gets, modify, wrap,
  attempt, given, ◌>>=◌, ◌>>◌,
}
use peerprint.Proto.Message.{Message}
use peerprint.Proto.Codec.{Codec}

pub record TopicMsg : Type 0 where
  pub topic : String
  pub peer : String
  pub msg : Message

-- `send_queue` is what `sendChan` holds, `send_closed` whether it is closed.
pub record TopicChannel (Bytes : Type 0) : Type 0 where
  pub id : String
  pub topic : String
  pub closed : Bool
  pub cancelled : Bool
  pub topic_closed : Bool
  pub send_queue : List Message
  pub send_closed : Bool
  pub published : List Bytes
  pub received : List TopicMsg
  pub errors : List Error

-- what the subscription's `Next` returns: the data of a message and the peer it came from
pub data Next (Bytes : Type 0) : Type 0 where
  next_error : Error → Next Bytes
  message : String → Bytes → Next Bytes

-- The pubsub library: whether a publish fails, after what is published, and a topic's `Close`.
pub record PubSub (Bytes : Type 0) : Type 0 where
  pub publish_fails : List Bytes → Bytes → Option Error
  pub close_fails : Option Error

abbrev pub fails {ℓ} : {S : Type ℓ} → Option Error → Go S (Unit {ℓ})
fails none = pure tt
fails (some e) = fail e

unfoldable pub new_topic_channel : {Bytes : Type 0} → String → String → TopicChannel Bytes
new_topic_channel self topic = record {
  id = self;
  topic = topic;
  closed = false;
  cancelled = false;
  topic_closed = false;
  send_queue = [];
  send_closed = false;
  published = [];
  received = [];
  errors = [];
}

-- The errors of `Join` and `Subscribe`, if they fail.
pub record Joining : Type 0 where
  pub join_fails : List String → String → Option Error  -- beside the topics that are joined
  pub subscribe_fails : String → Option Error

-- The topics that the process has joined, and those whose two loops run; the latest first.
pub record Topics : Type 0 where
  pub joined : List String
  pub looping : List String

-- topic.Close(), of the topic that was joined last
abbrev pub leave_last : List String → List String
leave_last [] = []
leave_last (t ∷ rest) = rest

abbrev pub subscribed :
    {Bytes : Type 0} → String → String → Attempt (Unit {0}) → Go Topics (TopicChannel Bytes)
subscribed self topic (failed e) = do
  modify (λ t. record t { joined = leave_last t.joined })
  fail (subscribe_failure e)
subscribed self topic (succeeded u) = do
  modify (λ t. record t { looping = topic ∷ t.looping })
  pure (new_topic_channel self topic)

-- `NewTopicChannel`
unfoldable pub open_channel :
    {Bytes : Type 0} → Joining → String → String → Go Topics (TopicChannel Bytes)
open_channel p self topic = do
  before ← gets (λ t. t.joined)
  wrap join_failure (fails (p.join_fails before topic))
  modify (λ t. record t { joined = topic ∷ t.joined })
  r ← attempt (fails (p.subscribe_fails topic))
  subscribed self topic r

module _ {Any Bytes : Type 0} (codec : Codec Any Bytes) (pubsub : PubSub Bytes) where
  abbrev pub Channel : Type 0
  Channel = TopicChannel Bytes

  -- t.errChan <- err
  abbrev pub report : Attempt (Unit {0}) → Go Channel (Unit {0})
  report (failed e) = modify λ t. record t { errors = t.errors ++ e ∷ [] }
  report (succeeded u) = pure tt

  -- close(t.sendChan), which panics on a closed channel
  abbrev pub close_send : Go Channel (Unit {0})
  close_send = do
    done ← gets (λ t. t.send_closed)
    if done then stop closed_channel else modify λ t. record t { send_closed = true }

  unfoldable pub destroy : Go Channel (Unit {0})
  destroy = do
    modify (λ t. record t { closed = true; cancelled = true })
    close_send
    modify (λ t. record t { topic_closed = true })
    fails pubsub.close_fails

  unfoldable pub publish : Bytes → Go Channel (Unit {0})
  publish b = do
    before ← gets (λ t. t.published)
    fails (pubsub.publish_fails before b)
    modify (λ t. record t { published = t.published ++ b ∷ [] })

  -- the errors are those that `sendLoop` reports
  unfoldable pub send_message : Message → Go Channel (Unit {0})
  unfolding publish
  send_message req = do
    any ← wrap (λ e. any_cast) (given (codec.any_new req))
    msg ← wrap marshal_error (given (codec.marshal any))
    wrap publish_error (publish msg)

  -- One round of `sendLoop`; true where it returns.
  abbrev pub send_received : List Message → Go Channel Bool
  send_received (req ∷ rest) = do
    modify (λ t. record t { send_queue = rest })
    r ← attempt (send_message req)
    report r
    pure false
  send_received [] = do
    more ← gets (λ t. t.send_closed)
    if more then (do r ← attempt destroy; report r; pure true) else stop blocked

  unfoldable pub send_step : Go Channel Bool
  unfolding destroy send_message
  send_step t = send_received t.send_queue t

  unfoldable pub send_loop : ℕ → Go Channel (Unit {0})
  unfolding send_step
  send_loop zero = stop out_of_fuel
  send_loop (suc n) = do done ← send_step; let more = send_loop n; if done then pure tt else more

  abbrev pub deliver : String → Attempt Message → Go Channel (Unit {0})
  deliver peer (failed e) = report (failed e)
  deliver peer (succeeded m) = modify λ t. record t {
    received = t.received ++ record { topic = t.topic; peer = peer; msg = m } ∷ [];
  }

  -- One round of `recvLoop`; true where it returns.
  unfoldable pub recv_step : Next Bytes → Go Channel Bool
  recv_step (next_error e) = do
    closed ← gets (λ t. t.closed)
    if closed then pure true else (do report (failed e); pure false)
  recv_step (message peer data_bytes) = do
    me ← gets (λ t. t.id)
    if str_eq peer me then pure false else do
      m ← attempt (do any ← given (codec.unmarshal data_bytes); given (codec.unmarshal_new any))
      deliver peer m
      pure false

  unfoldable pub recv_loop : List (Next Bytes) → Go Channel Bool
  unfolding recv_step
  recv_loop [] = pure false
  recv_loop (m ∷ rest) = do
    done ← recv_step m
    let more = recv_loop rest
    if done then pure true else more
