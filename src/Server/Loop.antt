-- ===== src/Server/Loop.antt =====
-- The main loop of `Loop` in server.go: one step for each case of its `select`.
use peerprint.Base.{
  String, Bool, true, false, Option, none, some, List, [], ◌∷◌, str_eq, if◌then◌else◌,
}
use peerprint.Base.Go.{Go, Attempt, failed, succeeded, pure, gets, attempt, ◌>>=◌, ◌>>◌}
use peerprint.Proto.Jobs.{State}
use peerprint.Proto.Peers.{Float64, PeersSummary}
use peerprint.Proto.Message.{Message}
use peerprint.TopicReceiver.{TopicMsg}
use peerprint.Raft.{Raft}
use peerprint.Server.{
  Env, Server, to_wrapper, to_command, poller_resume, get_id, get_topic, emit, publish, call_raft,
  get_leader,
}
use peerprint.Server.Roles.{notify_role}
use peerprint.Server.Dispatch.{handle}

-- What a `select` of the loop can receive; `none` is a closed channel.
pub data Event : Type 0 where
  command : Message → Event
  pubsub : TopicMsg → Event
  state_changed : Event
  leader_changed : Event
  epoch : Option Float64 → Event
  result : Option PeersSummary → Event
  cancelled : Event

module _ {R : Type 0} where
  -- t.sendPubsub[t.getTopic()] <- m
  abbrev pub publish_here : Message → Go (Server R) (Unit {0})
  publish_here m = do topic ← gets (λ t. get_topic t); publish topic m

  abbrev pub publish_and_push : Option Message → Go (Server R) (Unit {0})
  publish_and_push none = pure tt
  publish_and_push (some rep) = do publish_here rep; emit (to_wrapper rep)

  -- the answer to a command of the wrapper
  abbrev pub answer : Attempt (Option Message) → Go (Server R) (Unit {0})
  answer (failed e) = emit (to_command (Message.error e))
  answer (succeeded rep) = do publish_and_push rep; emit (to_command Message.ok)

  abbrev pub publish_reply : String → Attempt (Option Message) → Go (Server R) (Unit {0})
  publish_reply topic (failed e) = pure tt
  publish_reply topic (succeeded none) = pure tt
  publish_reply topic (succeeded (some rep)) = publish topic rep

  abbrev pub push_state : Attempt (Option State) → Go (Server R) (Unit {0})
  push_state (failed e) = pure tt
  push_state (succeeded s) = emit (to_wrapper (Message.state s))

  abbrev pub announce_state : Attempt (Option State) → Go (Server R) (Unit {0})
  announce_state (failed e) = pure tt
  announce_state (succeeded s) = do
    publish_here (Message.state s)
    emit (to_wrapper (Message.state s))

  unfoldable pub on_summary : Env → PeersSummary → Go (Server R) (Unit {0})
  on_summary env summary = do
    publish_here (Message.peers_summary summary)
    if env.push_room then emit (to_wrapper (Message.peers_summary summary)) else pure tt

module _ {R : Type 0} (raft : Raft R) where
  unfoldable pub on_command : Env → Message → Go (Server R) (Unit {0})
  on_command env req = do
    l ← get_leader raft
    me ← gets (λ t. get_id t)
    topic ← gets (λ t. get_topic t)
    if str_eq me l
        then (do r ← attempt (handle raft env topic me req); answer r)
        else (do publish topic req; emit (to_command Message.ok))

  unfoldable pub on_pubsub : Env → TopicMsg → Go (Server R) (Unit {0})
  on_pubsub env msg = do
    r ← attempt (handle raft env msg.topic msg.peer msg.msg)
    publish_reply msg.topic r

  unfoldable pub on_leader_changed : Env → Go (Server R) (Unit {0})
  unfolding notify_role
  on_leader_changed env = do
    notify_role env
    l ← get_leader raft
    me ← gets (λ t. get_id t)
    if str_eq l me
        then (do
          topic ← gets (λ t. get_topic t)
          l' ← get_leader raft
          publish topic (Message.leader l')
          s ← attempt (call_raft raft.get)
          announce_state s)
        else pure tt
    emit poller_resume

  -- true where the loop returns
  unfoldable pub loop_step : Env → Event → Go (Server R) Bool
  unfolding on_command on_pubsub on_leader_changed on_summary
  loop_step env (command req) = do on_command env req; pure false
  loop_step env (pubsub msg) = do on_pubsub env msg; pure false
  loop_step env state_changed = do s ← attempt (call_raft raft.get); push_state s; pure false
  loop_step env leader_changed = do on_leader_changed env; pure false
  loop_step env (epoch none) = pure true
  loop_step env (epoch (some prob)) = do
    publish_here (Message.poll_peers_request (record { topic = ""; probability = prob }))
    pure false
  loop_step env (result none) = pure true
  loop_step env (result (some summary)) = do on_summary env summary; pure false
  loop_step env cancelled = pure true

  -- the loop over a sequence of events, each with what the step reads from outside
  unfoldable pub run_loop : List (Env × Event) → Go (Server R) Bool
  run_loop [] = pure false
  run_loop ((env, e) ∷ rest) = do
    done ← loop_step env e
    let more = run_loop rest
    if done then pure true else more
