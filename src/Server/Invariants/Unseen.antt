-- ===== src/Server/Invariants/Unseen.antt =====
-- Properties that see neither the store nor, of what is sent, more than a send can change.
use peerprint.Base.{String, Option, none, some, ◌≡◌, List, [], ◌∷◌, str_eq}
use peerprint.Base.Go.{Attempt, failed, succeeded}
use peerprint.Base.Keeps.{Keeps, Keeps-bind, Keeps-if, Keeps-attempt, Keeps-gets}
use peerprint.Base.Dict.{lookup, insert}
use peerprint.Proto.Peers.{PeerType}
use peerprint.Proto.Message.{Message}
use peerprint.Raft.{Raft}
use peerprint.Server.{Server, Sent, Env, open_chan, closed_chan, get_id, get_topic, emit}
use peerprint.Server.Roles.{set_role}
use peerprint.Server.Loop.{Event, command, pubsub, loop_step, run_loop, on_command, answer}
use peerprint.Server.Invariants.{Stable, IsAside, call-IsAside}
use peerprint.Server.Invariants.Dispatch.{handle-IsAside}
use peerprint.Server.Invariants.Loop.{
  loop_step-Stable, StepKeeps, AllKeep, publish-Stable, publish_and_push-Stable, run_loop-Stable,
}

-- What the loop's writes to a server ask of such a property.
pub record Unseen {R : Type 0} (P : Server R → Type 0) : Type 0 where
  pub aside : IsAside P
  pub emits : (m : Sent) → Keeps P (emit m)
  pub close :
      (topic : String) (t : Server R)
      → lookup topic t.send_pubsub ≡ some open_chan
      → P t
      → P (record t { send_pubsub = insert topic closed_chan t.send_pubsub })
  pub open_new :
      (topic : String) (t : Server R)
      → lookup topic t.send_pubsub ≡ none
      → P t
      → P (record t { send_pubsub = insert topic open_chan t.send_pubsub })
  pub role : (topic : String) (type : PeerType) (t : Server R) → P t → P (set_role topic type t)

module _ {R : Type 0} (raft : Raft R) {P : Server R → Type 0} (u : Unseen P) where
  pub Unseen-Stable : Stable raft P
  Unseen-Stable = record {
    leader = call-IsAside raft.leader u.aside;
    set_leader = λ l. call-IsAside (raft.set_leader l) u.aside;
    addr_info = call-IsAside raft.addr_info u.aside;
    connect = λ x. call-IsAside (raft.connect x) u.aside;
    get = call-IsAside raft.get u.aside;
    emit_other = λ m n. u.emits m;
    close = u.close;
    open_new = u.open_new;
    role = u.role;
  }

  answer-unseen : (r : Attempt (Option Message)) → Keeps P (answer r)
  answer-unseen (failed e) = u.emits _
  answer-unseen (succeeded o) =
      Keeps-bind (publish_and_push-Stable raft Unseen-Stable o) λ _. u.emits _

  on_command-unseen : (env : Env) (m : Message) → Keeps P (on_command raft env m)
  unfolding on_command
  on_command-unseen env m = Keeps-bind (call-IsAside raft.leader u.aside) λ l.
      Keeps-bind (Keeps-gets (λ t. get_id t)) λ me.
        Keeps-bind (Keeps-gets (λ t. get_topic t)) λ topic.
          Keeps-if (str_eq me l)
            (Keeps-bind (Keeps-attempt (handle-IsAside raft Unseen-Stable u.aside env topic me m))
              λ r. answer-unseen r)
            (Keeps-bind (publish-Stable raft Unseen-Stable topic m) λ _. u.emits _)

  step-unseen : (env : Env) (e : Event) → StepKeeps raft P env e
  step-unseen env (command m) = on_command-unseen env m
  step-unseen env (pubsub msg) =
      handle-IsAside raft Unseen-Stable u.aside env msg.topic msg.peer msg.msg
  step-unseen env _ = tt

  all-unseen : (es : List (Env × Event)) → AllKeep raft Unseen-Stable es
  all-unseen [] = tt
  all-unseen ((env, e) ∷ es) = (step-unseen env e, all-unseen es)

  pub loop_step-Unseen : (env : Env) (e : Event) → Keeps P (loop_step raft env e)
  loop_step-Unseen env e = loop_step-Stable raft Unseen-Stable env e (step-unseen env e)

  pub run_loop-Unseen : (es : List (Env × Event)) → Keeps P (run_loop raft es)
  run_loop-Unseen es = run_loop-Stable raft Unseen-Stable es (all-unseen es)
