-- ===== src/Server/Start.antt =====
-- `Loop` of server.go from its first line: the two handshakes, and the main loop beside the second.
-- A step is a turn of one goroutine up to the next point where it waits; a turn that panics has no
-- step. The goroutine of `Loop` is `main`, that of `handshakeRaft` is `shaking`.
pub mod Newcomer
pub mod Kept
pub mod Handshake
use peerprint.Base.{
  ℕ, suc, String, Bool, true, false, Option, none, some, List, [], ◌∷◌, ◌≡◌, ◌≢◌, ◌||◌, ltb,
  if◌then◌else◌,
}
use peerprint.Base.Go.{Go, ok, closed_channel, panicked, stop, ◌>>=◌}
use peerprint.Base.Dict.{lookup}
use peerprint.Proto.Message.{Message}
use peerprint.Raft.{Raft}
use peerprint.Server.{
  Server, Env, Sent, role_assigned, to_topic, Chan, open_chan, closed_chan, get_topic, emit,
  assignment_topic, default_topic,
}
use peerprint.Server.Roles.{raft_addrs_request}
use peerprint.Server.Setup.{am_trusted}
use peerprint.Server.Loop.{Event, loop_step}

-- At the first line; at the test of the loop of `handshakeListener`; at its `select`; at the
-- `select` of the main loop; behind the return.
pub data Main : Type 0 where
  starting asking awaiting looping returned : Main

-- Not started; at the first timer; before the send; at the `select`; behind the return.
pub data Shaking : Type 0 where
  not_started drawing requesting awaiting_role over : Shaking

pub record System (R : Type 0) : Type 0 where
  pub server : Server R
  pub main : Main
  pub shaking : Shaking
  pub cancelled : Bool  -- the context of `Loop` is done

abbrev pub main_waits : Main → Bool
main_waits awaiting = true
main_waits _ = false

abbrev pub shaking_waits : Shaking → Bool
shaking_waits awaiting_role = true
shaking_waits _ = false

-- how often a role was handed over on `roleAssigned`
abbrev pub roles : List Sent → ℕ
roles [] = 0
roles (role_assigned type ∷ l) = suc (roles l)
roles (_ ∷ l) = roles l

-- The goroutine that waits on `roleAssigned` goes on, if a role is handed over or the channel is
-- closed.
abbrev pub shaking_told : Bool → Shaking → Shaking
shaking_told true awaiting_role = over
shaking_told _ s = s

abbrev pub IsCancelled : Event → Bool → Type 0
IsCancelled Event.cancelled b = b ≡ true
IsCancelled _ b = Unit

-- `ctx.Done()` closes `roleAssigned`
abbrev pub closes : Event → Bool
closes Event.cancelled = true
closes _ = false

abbrev pub after_turn : Bool → Main
after_turn true = returned
after_turn false = looping

module _ {R : Type 0} where
  -- a send beside a `default:` that panics; a nil channel is never ready
  abbrev pub offer_on : Option Chan → Bool → String → Message → Go (Server R) (Unit {0})
  offer_on none room topic m = stop panicked
  offer_on (some closed_chan) room topic m = stop closed_channel
  offer_on (some open_chan) room topic m = if room then emit (to_topic topic m) else stop panicked

  unfoldable pub offer : Bool → String → Message → Go (Server R) (Unit {0})
  offer room topic m t = offer_on (lookup topic t.send_pubsub) room topic m t

  abbrev pub on_topic : String → Server R → Server R
  on_topic topic t = record t { status = record t.status { topic = topic } }

  unfoldable pub start : Server R → System R
  start t = record { server = t; main = starting; shaking = not_started; cancelled = false }

  -- what a turn of the main loop leaves
  unfoldable pub after_event : Event → System R → Server R → Bool → System R
  after_event e s u done = record s {
    server = u;
    main = after_turn done;
    shaking = shaking_told (ltb (roles s.server.sent) (roles u.sent) || closes e) s.shaking;
  }

module _ {R : Type 0} (raft : Raft R) where
  -- one request of `handshakeRaft`
  unfoldable pub request_addrs : Bool → Go (Server R) (Unit {0})
  unfolding raft_addrs_request offer
  request_addrs room = do m ← raft_addrs_request raft; offer room default_topic m

  pub data Step (s : System R) : System R → Type 0 where
    start_listener :
        s.main ≡ starting
        → am_trusted s.server ≡ false
        → Step s (record s { server = on_topic assignment_topic s.server; main = asking })
    start_trusted :
        s.main ≡ starting
        → am_trusted s.server ≡ true
        → Step s (record s { main = looping; shaking = drawing })
    ask :
        (room : Bool) {u : Server R}
        → s.main ≡ asking
        → get_topic s.server ≡ assignment_topic
        → offer room assignment_topic Message.assignment_request s.server ≡ ok u tt
        → Step s (record s { server = u; main = awaiting })
    leave :
        s.main ≡ asking
        → get_topic s.server ≢ assignment_topic
        → Step s (record s { main = looping })
    ask_again : s.main ≡ awaiting → Step s (record s { main = asking })
    stop_asking : s.main ≡ awaiting → s.cancelled ≡ true → Step s (record s { main = looping })
    -- The main loop hands a role over only to a goroutine that waits for it.
    event :
        (env : Env) (e : Event) {u : Server R} {done : Bool}
        → s.main ≡ looping
        → IsCancelled e s.cancelled
        → env.role_awaited ≡ (main_waits s.main || shaking_waits s.shaking)
        → loop_step raft env e s.server ≡ ok u done
        → Step s (after_event e s u done)
    draw : s.shaking ≡ drawing → Step s (record s { shaking = requesting })
    request :
        (room : Bool) {u : Server R}
        → s.shaking ≡ requesting
        → request_addrs room s.server ≡ ok u tt
        → Step s (record s { server = u; shaking = awaiting_role })
    request_again : s.shaking ≡ awaiting_role → Step s (record s { shaking = requesting })
    stop_shaking :
        s.shaking ≡ awaiting_role → s.cancelled ≡ true → Step s (record s { shaking = over })
    cancel : Step s (record s { cancelled = true })

  pub data Reach (s : System R) : System R → Type 0 where
    here : Reach s s
    next : {t u : System R} → Reach s t → Step t u → Reach s u
