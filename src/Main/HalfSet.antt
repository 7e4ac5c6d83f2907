-- ===== src/Main/HalfSet.antt =====
-- The main loop of server.go over a `RaftImpl` (raft.go) whose `setup` has failed half way.
use peerprint.Base.{ℕ, String, true, false, List, [], ◌∷◌, ◌≡◌}
use peerprint.Base.Go.{Go, halt, nil_dereference}
use peerprint.Base.Post.{Returned, Ensures-within, Ensures-mono}
use peerprint.Base.Keeps.{Keeps, Keeps-pure, Keeps-modify}
use peerprint.Proto.Message.{Message}
use peerprint.Raft.External.{External}
use peerprint.Raft.Impl.{RaftImpl, raft_impl, leader, connect, get, addr_info, set_leader}
use peerprint.Raft.Impl.Startup.{HalfSet, HalfSet-Steady, connect-HalfSet}
use peerprint.Raft.Impl.Steady.{Steady-MemberCalls, Steady-StateCalls, get-Keeps, leader-Keeps}
use peerprint.Server.{Server, Env, call_raft}
use peerprint.Server.Dispatch.{handle}
use peerprint.Server.Invariants.{Stable}
use peerprint.Server.Invariants.Dispatch.{handle-Stable}
use peerprint.Server.Invariants.Loop.{StepKeeps, AllKeep, run_loop-Stable}
use peerprint.Server.Loop.{Event, command, pubsub, loop_step, run_loop, on_command}
use peerprint.Main.Unset.{FromLeader, AsksLeader, leader-NoRaft, handle-NoRaft, loop_step-NoRaft}

-- The raft object of the server has a transport and no raft.
pub record HalfSetServer {W : Type 0} (t : Server (RaftImpl W)) : Type 0 where
  pub half : HalfSet t.raft

call-HalfSet :
    {W A : Type 0} (m : Go (RaftImpl W) A) → Keeps HalfSet m → Keeps HalfSetServer (call_raft m)
call-HalfSet m k = record {
  at = λ t h. Ensures-within _ (m t.raft) (
      Ensures-mono (m t.raft) (k.at t.raft h.half) (λ r _ q. record { half = q })
        (λ r _ q. record { half = q }));
}

module _ {W : Type 0} (ext : External W) (n : ℕ) where
  HalfSet-Stable : Stable (raft_impl ext n) HalfSetServer
  unfolding raft_impl
  HalfSet-Stable = record {
    leader = call-HalfSet (leader ext) (leader-Keeps ext (Steady-MemberCalls ext HalfSet-Steady));
    set_leader = λ l. call-HalfSet (set_leader l) (Keeps-pure tt);
    addr_info = call-HalfSet addr_info (record { at = λ ri h. record { at = h } });
    connect = λ a. call-HalfSet (connect ext a) (connect-HalfSet ext a);
    get = call-HalfSet (get ext n) (get-Keeps ext (Steady-StateCalls ext HalfSet-Steady) n);
    emit_other = λ m a. Keeps-modify _ λ t h. record { half = h.half };
    close = λ topic t e h. record { half = h.half };
    open_new = λ topic t e h. record { half = h.half };
    role = λ topic type t h. record { half = h.half };
  }

  refused :
      (env : Env) (topic from : String) (m : Message)
      → FromLeader m
      → Keeps HalfSetServer (handle (raft_impl ext n) env topic from m)
  refused env topic from m f = record {
    at = λ t h. rw (handle-NoRaft ext n env topic from m t f h.half.raft) (record { at = tt });
  }

  handle-HalfSet :
      (env : Env) (topic from : String) (m : Message)
      → Keeps HalfSetServer (handle (raft_impl ext n) env topic from m)
  handle-HalfSet env topic from (Message.set_job_request j) = refused env topic from _ tt
  handle-HalfSet env topic from (Message.delete_job_request i) = refused env topic from _ tt
  handle-HalfSet env topic from (Message.acquire_job_request i) = refused env topic from _ tt
  handle-HalfSet env topic from (Message.release_job_request i) = refused env topic from _ tt
  handle-HalfSet env topic from (Message.state s) = refused env topic from (Message.state s) tt
  handle-HalfSet env topic from m =
      handle-Stable (raft_impl ext n) HalfSet-Stable env topic from m λ w. absurd w

  step-HalfSet : (env : Env) (e : Event) → StepKeeps (raft_impl ext n) HalfSetServer env e
  unfolding on_command
  step-HalfSet env (command m) = record {
    at = λ t h. rw (leader-NoRaft ext n t h.half.raft) (record { at = tt });
  }
  step-HalfSet env (pubsub msg) = handle-HalfSet env msg.topic msg.peer msg.msg
  step-HalfSet env _ = tt

  all-HalfSet : (events : List (Env × Event)) → AllKeep (raft_impl ext n) HalfSet-Stable events
  all-HalfSet [] = tt
  all-HalfSet ((env, e) ∷ events) = (step-HalfSet env e, all-HalfSet events)

  -- Over a RaftImpl with its transport set and its raft nil, as a setup that fails behind its
  -- first step leaves it, whatever the main loop receives and comes back from, addresses of peers
  -- included, the next event that asks for the leader (a command, a job or assignment request, a
  -- state, a summary, a change of the leader) panics.
  pub run_loop-panics :
      (events : List (Env × Event)) (env : Env) (e : Event) (t : Server (RaftImpl W))
      → t.raft.transport ≡ true
      → t.raft.raft ≡ false
      → AsksLeader e
      → Returned
          (λ u. loop_step (raft_impl ext n) env e u ≡ halt nil_dereference)
          (run_loop (raft_impl ext n) events t)
  run_loop-panics events env e t tr r asks =
      Ensures-mono _
        ((run_loop-Stable (raft_impl ext n) HalfSet-Stable events (all-HalfSet events)).at t
          (record { half = record { transport = tr; raft = r } }))
        (λ u _ h. loop_step-NoRaft ext n env e u asks h.half.raft)
        (λ u _ h. loop_step-NoRaft ext n env e u asks h.half.raft)
