-- ===== src/Server/Safety/Lease.antt =====
-- A lock in force through a run of `Loop` (server.go).
use peerprint.Base.{String, Option, some, ◌≡◌, List, [], ◌∷◌, sym, subst, str_eq, if◌then◌else◌}
use peerprint.Base.Go.{Attempt, failed, succeeded, attempt, ◌>>=◌, ◌>>◌}
use peerprint.Base.Post.{Returned}
use peerprint.Base.Keeps.{Keeps, Keeps-bind, Keeps-if, Keeps-attempt}
use peerprint.Proto.Jobs.{Lock, Job}
use peerprint.Proto.Message.{Message}
use peerprint.Raft.{Raft}
use peerprint.Raft.Contract.{Board, Contract}
use peerprint.Server.{Server, Sent, Env, get_id, get_topic, publish, emit, to_command}
use peerprint.Server.Loop.{Event, command, pubsub, run_loop, on_command, answer}
use peerprint.Server.Dispatch.{handle}
use peerprint.Server.Invariants.Loop.{
  StepKeeps, AllKeep, publish-Stable, publish_and_push-Stable, run_loop-Stable,
}
use peerprint.Server.Safety.Held.{Held, Held-Stable}
use peerprint.Server.Safety.Requests.{Foreign, NotState, Leased, handle-Leased}

-- The event comes from somebody against whom the lock is in force, and is no state message.
abbrev pub ForeignEvent : Lock → String → Env × Event → Type 0
ForeignEvent l me (env, command m) = NotState m × Foreign l env me
ForeignEvent l me (env, pubsub msg) = NotState msg.msg × Foreign l env msg.peer
ForeignEvent l me (env, _) = Unit

abbrev pub AllForeign : Lock → String → List (Env × Event) → Type 0
AllForeign l me [] = Unit
AllForeign l me (e ∷ es) = ForeignEvent l me e × AllForeign l me es

module _ {R : Type 0} (raft : Raft R) {board : R → Board} (c : Contract raft board) where
  emit-Held :
      {k me : String} {v : Option (Option Job)} (m : Sent) → Keeps (Held raft c k v me) (emit m)
  emit-Held m = record { at = λ t h. record { at = record { entry = h.entry; self = h.self } } }

  answer-Held :
      {k me : String} {v : Option (Option Job)} (r : Attempt (Option Message))
      → Keeps (Held raft c k v me) (answer r)
  answer-Held (failed e) = emit-Held _
  answer-Held (succeeded o) =
      Keeps-bind (publish_and_push-Stable raft (Held-Stable raft c) o) λ _. emit-Held _

  module _ (k me : String) (j : Job) (l : Lock) (locked : j.lock ≡ some l) where
    on_command-Leased :
        (env : Env) (m : Message)
        → NotState m
        → Foreign l env me
        → Keeps (Leased raft c k me j l locked) (on_command raft env m)
    unfolding on_command
    on_command-Leased env m n f =
        Keeps-bind (Held-Stable raft c).leader
          λ ld. record { at = λ t p. (run ld (get_id t) (get_topic t) p.self).at t p }
      where
        run :
            (ld self topic : String)
            → self ≡ me
            → Keeps (Leased raft c k me j l locked) (
                if str_eq self ld
                then (do r ← attempt (handle raft env topic self m); answer r)
                else (do publish topic m; emit (to_command Message.ok)))
        run ld self topic e =
            Keeps-if (str_eq self ld)
              (Keeps-bind
                (Keeps-attempt (
                  handle-Leased raft c k me j l locked env topic self m n
                    (subst (Foreign l env) (sym e) f)))
                λ r. answer-Held r)
              (Keeps-bind (publish-Stable raft (Held-Stable raft c) topic m) λ _. emit-Held _)

    step-Leased :
        (env : Env) (e : Event)
        → ForeignEvent l me (env, e)
        → StepKeeps raft (Leased raft c k me j l locked) env e
    step-Leased env (command m) h = on_command-Leased env m h.0 h.1
    step-Leased env (pubsub msg) h =
        handle-Leased raft c k me j l locked env msg.topic msg.peer msg.msg h.0 h.1
    step-Leased env _ h = tt

    all-Leased :
        (events : List (Env × Event))
        → AllForeign l me events
        → AllKeep raft (Held-Stable raft c {k = k} {v = some (some j)} {me = me}) events
    all-Leased [] a = tt
    all-Leased ((env, e) ∷ es) a = (step-Leased env e a.0, all-Leased es a.1)

    -- While the lock `l` of the job `j` of id `k` is in force against the sender of every event (each
    -- sender is another peer, and each clock reading is within two hours of the lock's creation),
    -- and no event is a state message, a run of the main loop that comes back leaves the entry of
    -- `k` as it was, lock included, whatever is requested and whatever errors are met on the way.
    pub run_loop-Leased :
        (events : List (Env × Event)) (t : Server R)
        → AllForeign l me events
        → Held raft c k (some (some j)) me t
        → Returned (Held raft c k (some (some j)) me) (run_loop raft events t)
    run_loop-Leased events t all h =
        (run_loop-Stable raft (Held-Stable raft c) events (all-Leased events all)).at t h
