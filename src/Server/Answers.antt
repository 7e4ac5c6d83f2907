-- ===== src/Server/Answers.antt =====
-- The answers to the commands of the wrapper, on the request socket (`sendCmd` of server.go).
use peerprint.Base.{
  ℕ, suc, String, Option, none, some, List, [], ◌∷◌, ◌≡◌, refl, ap, ◌∙◌, str_eq, if◌then◌else◌,
  Bool-cases, inl, inr,
}
use peerprint.Base.Go.{Attempt, failed, succeeded, attempt, ◌>>=◌, ◌>>◌}
use peerprint.Base.Post.{Ensures, Ensures-bind, Ensures-within, Ensures-attempt, Ensures-mono}
use peerprint.Base.Dict.{lookup}
use peerprint.Proto.Message.{Message}
use peerprint.Raft.{Raft}
use peerprint.Server.{
  Server, Sent, Env, Chan, open_chan, closed_chan, to_command, get_id, get_topic, emit, send_on,
  publish,
}
use peerprint.Server.Dispatch.{handle}
use peerprint.Server.Loop.{on_command, answer}
use peerprint.Server.Invariants.{Stable, IsAside, call-IsAside, NotAnswer}
use peerprint.Server.Invariants.Dispatch.{handle-IsAside}

-- the answers among what was sent
abbrev pub answers : List Sent → ℕ
answers [] = 0
answers (to_command m ∷ l) = suc (answers l)
answers (_ ∷ l) = answers l

pub record Counted {R : Type 0} (n : ℕ) (t : Server R) : Type 0 where
  pub count : answers t.sent ≡ n

answers_other : (m : Sent) (l : List Sent) → NotAnswer m → answers (m ∷ l) ≡ answers l
answers_other (to_command m) l n = absurd n
answers_other _ l n = refl

module _ {R : Type 0} where
  pub Counted-IsAside : (n : ℕ) → IsAside {R = R} (Counted n)
  Counted-IsAside n = record { any_store = λ r t h. record { count = h.count } }

  send_on-Counted :
      (n : ℕ) (o : Option Chan) (topic : String) (m : Message) (t : Server R)
      → Counted n t
      → Ensures (λ u _. Counted n u) (λ u e. ⊥) (send_on o topic m t)
  send_on-Counted n none topic m t h = record { at = tt }
  send_on-Counted n (some open_chan) topic m t h = record { at = record { count = h.count } }
  send_on-Counted n (some closed_chan) topic m t h = record { at = tt }

  publish-Counted :
      (n : ℕ) (topic : String) (m : Message) (t : Server R)
      → Counted n t
      → Ensures (λ u _. Counted n u) (λ u e. ⊥) (publish topic m t)
  unfolding publish
  publish-Counted n topic m t = send_on-Counted n (lookup topic t.send_pubsub) topic m t

  reply-Counted :
      (n : ℕ) (m : Message) (t : Server R)
      → Counted n t
      → Ensures (λ u _. Counted (suc n) u) (λ u e. ⊥) (emit (to_command m) t)
  reply-Counted n m t h = record { at = record { count = ap suc h.count } }

  answer-Counted :
      (n : ℕ) (r : Attempt (Option Message)) (t : Server R)
      → Counted n t
      → Ensures (λ u _. Counted (suc n) u) (λ u e. ⊥) (answer r t)
  answer-Counted n (failed e) t h = reply-Counted n _ t h
  answer-Counted n (succeeded none) t h = reply-Counted n _ t h
  answer-Counted n (succeeded (some m)) t h =
      Ensures-bind _ _
        (Ensures-bind _ _ (publish-Counted n (get_topic t) m t h)
          λ u _ q. record { at = record { count = q.count } })
        λ u _ q. reply-Counted n Message.ok u q

module _ {R : Type 0} (raft : Raft R) where
  pub Counted-Stable : (n : ℕ) → Stable raft (Counted n)
  Counted-Stable n = record {
    leader = call-IsAside raft.leader (Counted-IsAside n);
    set_leader = λ l. call-IsAside (raft.set_leader l) (Counted-IsAside n);
    addr_info = call-IsAside raft.addr_info (Counted-IsAside n);
    connect = λ a. call-IsAside (raft.connect a) (Counted-IsAside n);
    get = call-IsAside raft.get (Counted-IsAside n);
    emit_other = λ m k. record {
      at = λ t h. record { at = record { count = answers_other m t.sent k ∙ h.count } };
    };
    close = λ topic t e h. record { count = h.count };
    open_new = λ topic t e h. record { count = h.count };
    role = λ topic type t h. record { count = h.count };
  }

  -- A command is answered exactly once: where `Leader` returns no error, the step for a command
  -- returns none either, and if it comes back it has sent the wrapper one answer more than before,
  -- on the leader as on any other server, and whatever the handler of the command did.
  pub on_command-Counted :
      ((r : R) → Ensures (λ r' l. Unit {0}) (λ r' e. ⊥) (raft.leader r))
      → (env : Env) (m : Message) (t : Server R)
      → Ensures (λ u _. answers u.sent ≡ suc (answers t.sent)) (λ u e. ⊥) (on_command raft env m t)
  unfolding on_command
  on_command-Counted leads env m t =
      Ensures-bind _ _
        (Ensures-within (λ r. record t { raft = r }) (raft.leader t.raft)
          (Ensures-mono _ (leads t.raft) (λ r l _. counted r) (λ r e x. x)))
        λ u l h. Ensures-mono _ (run l (get_id u) (get_topic u) u h) (λ v _ q. q.count) (λ v e x. x)
    where
      counted : (r : R) → Counted {R = R} (answers t.sent) (record t { raft = r })
      counted r = record { count = refl }

      run :
          (l me topic : String) (u : Server R)
          → Counted (answers t.sent) u
          → Ensures
              (λ v _. Counted (suc (answers t.sent)) v)
              (λ v e. ⊥)
              ((if str_eq me l
                  then (do r ← attempt (handle raft env topic me m); answer r)
                  else (do publish topic m; emit (to_command Message.ok)))
                u)
      run l me topic u h = elim (Bool-cases (str_eq me l)) [
        | inl y ↦ rw y (
            Ensures-bind _ _
              (Ensures-attempt _ (
                (handle-IsAside raft (Counted-Stable (answers t.sent))
                    (Counted-IsAside (answers t.sent)) env topic me m).at
                  u h))
              λ v r q. answer-Counted (answers t.sent) r v q)
        | inr n ↦ rw n (
            Ensures-bind _ _ (publish-Counted (answers t.sent) topic m u h)
              λ v _ q. reply-Counted (answers t.sent) Message.ok v q)
      ]
