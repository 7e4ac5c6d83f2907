-- ===== src/Server/Start/Kept.antt =====
-- Properties of a server that the handshakes keep, with the main loop beside them (server.go).
use peerprint.Base.{String, Bool, Option, none, some, ◌≡◌}
use peerprint.Base.Go.{Go, ok}
use peerprint.Base.Keeps.{Keeps, Keeps-pure, Keeps-stop, Keeps-if, Keeps-bind}
use peerprint.Base.Dict.{lookup}
use peerprint.Proto.Message.{Message}
use peerprint.Raft.{Raft}
use peerprint.Server.{
  Server, to_topic, Chan, open_chan, closed_chan, get_type, assignment_topic, default_topic,
}
use peerprint.Server.Invariants.{call-IsAside}
use peerprint.Server.Invariants.Unseen.{Unseen, loop_step-Unseen}
use peerprint.Server.Start.{
  after_event, request_addrs, System, offer, offer_on, start, Step, start_listener, start_trusted,
  ask, leave, ask_again, stop_asking, event, draw, request, request_again, stop_shaking, cancel,
  Reach, here, next,
}

-- what a call that came back left
pub left :
    {S A : Type 0} {P : S → Type 0} {m : Go S A} (k : Keeps P m) {s u : S} {a : A}
    → m s ≡ ok u a
    → P s
    → P u
left k {s} e h = (rw e at (k.at s h)).at

module _ {R : Type 0} (raft : Raft R) {P : Server R → Type 0} (u : Unseen P) where
  offer_on-Unseen :
      (o : Option Chan) (room : Bool) (topic : String) (m : Message)
      → Keeps P (offer_on o room topic m)
  offer_on-Unseen none room topic m = Keeps-stop _
  offer_on-Unseen (some closed_chan) room topic m = Keeps-stop _
  offer_on-Unseen (some open_chan) room topic m =
      Keeps-if room (u.emits (to_topic topic m)) (Keeps-stop _)

  pub offer-Unseen : (room : Bool) (topic : String) (m : Message) → Keeps P (offer room topic m)
  unfolding offer
  offer-Unseen room topic m = record {
    at = λ t h. (offer_on-Unseen (lookup topic t.send_pubsub) room topic m).at t h;
  }

  request_addrs-Unseen : (room : Bool) → Keeps P (request_addrs raft room)
  unfolding request_addrs
  request_addrs-Unseen room =
      Keeps-bind (Keeps-bind (call-IsAside raft.addr_info u.aside) λ a. Keeps-pure _)
        λ m. offer-Unseen room default_topic m

  pub Step-Unseen : {s s' : System R} → Step raft s s' → P s.server → P s'.server
  unfolding after_event
  Step-Unseen {s} (start_listener m n) h = u.role assignment_topic (get_type s.server) s.server h
  Step-Unseen (start_trusted m y) h = h
  Step-Unseen (ask room m p e) h = left (offer-Unseen room assignment_topic _) e h
  Step-Unseen (leave m n) h = h
  Step-Unseen (ask_again m) h = h
  Step-Unseen (stop_asking m d) h = h
  Step-Unseen (event env e m d r l) h = left (loop_step-Unseen raft u env e) l h
  Step-Unseen (draw a) h = h
  Step-Unseen (request room a e) h = left (request_addrs-Unseen room) e h
  Step-Unseen (request_again a) h = h
  Step-Unseen (stop_shaking a d) h = h
  Step-Unseen cancel h = h

  pub Reach-Unseen : {t : Server R} {s : System R} → Reach raft (start t) s → P t → P s.server
  unfolding start
  Reach-Unseen here h = h
  Reach-Unseen (next r st) h = Step-Unseen st (Reach-Unseen r h)
