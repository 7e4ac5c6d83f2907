-- ===== src/Discovery.antt =====
-- discovery.go: finding peers, and `AwaitReady`. The channels `newConn` and `onReady` have no buffer:
-- a send meets a receive only where one of the two goroutines waits for the other.
pub mod Ready
pub mod Bootstrap
pub mod Told
use peerprint.Base.{
  String, Bool, true, false, Option, none, some, List, [], ◌∷◌, ◌++◌, str_eq, if◌then◌else◌,
}
use peerprint.Base.Go.{Go, Error, panicked, pure, gets, modify, stop, ◌>>=◌, ◌>>◌}

pub data Method : Type 0 where
  mdns : Method
  dht : Method
  other_method : Method

-- Who waits on a channel.
pub data Waiting : Type 0 where
  nobody : Waiting
  receiver : Waiting
  sender : Waiting

-- `case c <- true:` beside a `default:`
abbrev pub can_send : Waiting → Bool
can_send receiver = true
can_send _ = false

-- `case <-c:` beside a `default:`
abbrev pub can_receive : Waiting → Bool
can_receive sender = true
can_receive _ = false

-- Where the goroutine that `New` starts stands: in the loop of `discoverPeersDHT`; before the
-- `select` of `discoverPeersMDNS`, where peers can be found already; at that `select`; before
-- `notify(c.onReady)`; at its end.
pub data Finder : Type 0 where
  searching starting listening notifying finished : Finder

-- Where the caller of `AwaitReady` stands.
pub data Awaiter : Type 0 where
  absent waiting ready timed_out : Awaiter

pub record Discovery : Type 0 where
  pub self : String
  pub finder : Finder
  pub awaiter : Awaiter
  pub new_conn : Waiting
  pub on_ready : Waiting
  pub connected : List String

-- A turn of one of the goroutines.
pub data Turn : Type 0 where
  found : String → Turn  -- `HandlePeerFound` is called
  search : Turn  -- the head of the loop of `discoverPeersDHT`
  find_failed : Turn  -- `FindPeers` returns an error
  start_failed : Turn  -- the start of mDNS returns an error
  listen : Turn  -- the goroutine of mDNS comes to its `select`
  proceed : Turn  -- `notify(c.onReady)`, and the return
  await : Turn  -- `AwaitReady` is called
  timeout : Turn  -- the context of `AwaitReady` is done
  cancelled : Turn  -- the context of `New` is done

abbrev pub blank : String → Finder → Waiting → Discovery
blank self finder new_conn = record {
  self = self;
  finder = finder;
  awaiter = absent;
  new_conn = new_conn;
  on_ready = nobody;
  connected = [];
}

-- `New`, with the goroutine that it starts: over mDNS at its first line, over the DHT at its loop
unfoldable pub new : Method → String → Go (Unit {0}) Discovery
new mdns self = pure (blank self starting nobody)
new dht self = pure (blank self searching nobody)
new other_method self = stop panicked

-- notify(c.newConn): the receiver is the goroutine in `discoverPeersMDNS`
unfoldable pub notify_new : Discovery → Discovery
notify_new c = if can_send c.new_conn then record c { new_conn = nobody; finder = notifying } else c

-- notify(c.onReady): the receiver is the caller of `AwaitReady`
unfoldable pub notify_ready : Discovery → Discovery
notify_ready c = if can_send c.on_ready then record c { on_ready = nobody; awaiter = ready } else c

module _ (connect_fails : String → Option Error) where
  abbrev pub connected_to : Option Error → String → Discovery → Discovery
  connected_to none peer c = notify_new (record c { connected = c.connected ++ peer ∷ [] })
  connected_to (some e) peer c = c

  unfoldable pub handle_peer_found : String → Discovery → Discovery
  unfolding notify_new
  handle_peer_found peer c =
      if str_eq peer c.self then c else connected_to (connect_fails peer) peer c

  abbrev pub search_turn : Finder → Discovery → Discovery
  search_turn searching c =
      if can_receive c.new_conn then record c { new_conn = nobody; finder = notifying } else c
  search_turn _ c = c

  abbrev pub find_failed_turn : Finder → Go Discovery (Unit {0})
  find_failed_turn searching = stop panicked
  find_failed_turn _ = pure tt

  abbrev pub start_failed_turn : Finder → Go Discovery (Unit {0})
  start_failed_turn starting = stop panicked
  start_failed_turn _ = pure tt

  abbrev pub listen_turn : Finder → Discovery → Discovery
  listen_turn starting c = record c { finder = listening; new_conn = receiver }
  listen_turn _ c = c

  abbrev pub proceed_turn : Finder → Discovery → Discovery
  proceed_turn notifying c = notify_ready (record c { finder = finished })
  proceed_turn _ c = c

  abbrev pub await_turn : Awaiter → Discovery → Discovery
  await_turn absent c = record c { awaiter = waiting; on_ready = receiver }
  await_turn _ c = c

  abbrev pub timeout_turn : Awaiter → Discovery → Discovery
  timeout_turn waiting c = record c { awaiter = timed_out; on_ready = nobody }
  timeout_turn _ c = c

  abbrev pub cancelled_turn : Finder → Discovery → Discovery
  cancelled_turn listening c = record c { finder = finished; new_conn = nobody }
  cancelled_turn _ c = c

  -- A turn of a goroutine that is not where the turn starts changes nothing.
  unfoldable pub turn : Turn → Go Discovery (Unit {0})
  unfolding handle_peer_found notify_ready
  turn (found peer) = modify (handle_peer_found peer)
  turn search = modify λ c. search_turn c.finder c
  turn find_failed = λ c. find_failed_turn c.finder c
  turn start_failed = λ c. start_failed_turn c.finder c
  turn listen = modify λ c. listen_turn c.finder c
  turn proceed = modify λ c. proceed_turn c.finder c
  turn await = modify λ c. await_turn c.awaiter c
  turn timeout = modify λ c. timeout_turn c.awaiter c
  turn cancelled = modify λ c. cancelled_turn c.finder c

  unfoldable pub run : List Turn → Go Discovery (Unit {0})
  run [] = pure tt
  run (t ∷ rest) = do turn t; run rest
