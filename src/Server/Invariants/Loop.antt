-- ===== src/Server/Invariants/Loop.antt =====
-- The steps of the main loop and stable properties.
use peerprint.Base.{String, true, false, Option, none, some, List, [], ◌∷◌, str_eq}
use peerprint.Base.Go.{Attempt, failed, succeeded}
use peerprint.Base.Keeps.{
  Keeps, Keeps-pure, Keeps-stop, Keeps-gets, Keeps-bind, Keeps-if, Keeps-attempt,
}
use peerprint.Base.Dict.{lookup}
use peerprint.Proto.Jobs.{State}
use peerprint.Proto.Peers.{PeersSummary}
use peerprint.Proto.Message.{Message}
use peerprint.Raft.{Raft}
use peerprint.Server.{
  Server, Env, Chan, open_chan, closed_chan, to_topic, to_wrapper, poller_resume, get_id, get_topic,
  send_on, publish,
}
use peerprint.Server.Dispatch.{handle}
use peerprint.Server.Loop.{
  Event, command, pubsub, state_changed, leader_changed, epoch, result, cancelled, loop_step,
  run_loop, on_command, on_pubsub, on_leader_changed, on_summary, publish_here, publish_and_push,
  publish_reply, push_state, announce_state,
}
use peerprint.Server.Invariants.{Stable}
use peerprint.Server.Invariants.Handlers.{notify_role-Stable}

-- what is asked of a step's call of `Handle` or, of a command, of the whole step
abbrev pub StepKeeps : {R : Type 0} → Raft R → (Server R → Type 0) → Env → Event → Type 0
StepKeeps raft P env (command m) = Keeps P (on_command raft env m)
StepKeeps raft P env (pubsub msg) = Keeps P (handle raft env msg.topic msg.peer msg.msg)
StepKeeps raft P env _ = Unit

module _ {R : Type 0} (raft : Raft R) {P : Server R → Type 0} (st : Stable raft P) where
  send_on-Stable : (o : Option Chan) (topic : String) (m : Message) → Keeps P (send_on o topic m)
  send_on-Stable none topic m = Keeps-stop _
  send_on-Stable (some open_chan) topic m = st.emit_other (to_topic topic m) tt
  send_on-Stable (some closed_chan) topic m = Keeps-stop _

  pub publish-Stable : (topic : String) (m : Message) → Keeps P (publish topic m)
  unfolding publish
  publish-Stable topic m = record {
    at = λ t h. (send_on-Stable (lookup topic t.send_pubsub) topic m).at t h;
  }

  publish_here-Stable : (m : Message) → Keeps P (publish_here m)
  publish_here-Stable m = Keeps-bind (Keeps-gets _) λ topic. publish-Stable topic m

  push-Stable : (m : Message) → Keeps P (publish_and_push (some m))
  push-Stable m = Keeps-bind (publish_here-Stable m) λ _. st.emit_other (to_wrapper m) tt

  pub publish_and_push-Stable : (o : Option Message) → Keeps P (publish_and_push o)
  publish_and_push-Stable none = Keeps-pure tt
  publish_and_push-Stable (some m) = push-Stable m

  publish_reply-Stable :
      (topic : String) (r : Attempt (Option Message)) → Keeps P (publish_reply topic r)
  publish_reply-Stable topic (failed e) = Keeps-pure _
  publish_reply-Stable topic (succeeded none) = Keeps-pure _
  publish_reply-Stable topic (succeeded (some m)) = publish-Stable topic m

  push_state-Stable : (r : Attempt (Option State)) → Keeps P (push_state r)
  push_state-Stable (failed e) = Keeps-pure _
  push_state-Stable (succeeded s) = st.emit_other _ tt

  announce_state-Stable : (r : Attempt (Option State)) → Keeps P (announce_state r)
  announce_state-Stable (failed e) = Keeps-pure _
  announce_state-Stable (succeeded s) = push-Stable (Message.state s)

  on_leader_changed-Stable : (env : Env) → Keeps P (on_leader_changed raft env)
  unfolding on_leader_changed
  on_leader_changed-Stable env = Keeps-bind (notify_role-Stable raft st env) λ _.
      Keeps-bind st.leader λ l. Keeps-bind (Keeps-gets (λ t. get_id t)) λ self.
        Keeps-bind
          (Keeps-if (str_eq l self)
            (Keeps-bind (Keeps-gets (λ t. get_topic t)) λ topic. Keeps-bind st.leader λ l'.
              Keeps-bind (publish-Stable topic _)
                λ _. Keeps-bind (Keeps-attempt st.get) λ s. announce_state-Stable s)
            (Keeps-pure tt))
          λ _. st.emit_other poller_resume tt

  on_summary-Stable : (env : Env) (s : PeersSummary) → Keeps P (on_summary env s)
  unfolding on_summary
  on_summary-Stable env s = Keeps-bind (publish_here-Stable _) λ _.
      Keeps-if env.push_room (st.emit_other (to_wrapper (Message.peers_summary s)) tt)
        (Keeps-pure tt)

  pub loop_step-Stable :
      (env : Env) (e : Event) → StepKeeps raft P env e → Keeps P (loop_step raft env e)
  unfolding loop_step on_pubsub
  loop_step-Stable env (command m) h = Keeps-bind h λ _. Keeps-pure false
  loop_step-Stable env (pubsub msg) h =
      Keeps-bind (Keeps-bind (Keeps-attempt h) λ r. publish_reply-Stable msg.topic r)
        λ _. Keeps-pure false
  loop_step-Stable env state_changed h =
      Keeps-bind (Keeps-attempt st.get) λ s. Keeps-bind (push_state-Stable s) λ _. Keeps-pure false
  loop_step-Stable env leader_changed h =
      Keeps-bind (on_leader_changed-Stable env) λ _. Keeps-pure false
  loop_step-Stable env (epoch none) h = Keeps-pure true
  loop_step-Stable env (epoch (some p)) h = Keeps-bind (publish_here-Stable _) λ _. Keeps-pure false
  loop_step-Stable env (result none) h = Keeps-pure true
  loop_step-Stable env (result (some s)) h =
      Keeps-bind (on_summary-Stable env s) λ _. Keeps-pure false
  loop_step-Stable env cancelled h = Keeps-pure true

  abbrev pub AllKeep : List (Env × Event) → Type 0
  AllKeep [] = Unit
  AllKeep ((env, e) ∷ es) = StepKeeps raft P env e × AllKeep es

  pub run_loop-Stable : (es : List (Env × Event)) → AllKeep es → Keeps P (run_loop raft es)
  unfolding run_loop
  run_loop-Stable [] h = Keeps-pure false
  run_loop-Stable ((env, e) ∷ es) h =
      Keeps-bind (loop_step-Stable env e h.0)
        λ done. Keeps-if done (Keeps-pure true) (run_loop-Stable es h.1)
