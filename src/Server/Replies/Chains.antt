-- ===== src/Server/Replies/Chains.antt =====
-- Replies of `Handle` (handlers.go) to replies, from server to server.
use peerprint.Base.{subst, ℕ, suc, ◌≤◌, ◌<◌, String, some, ◌≡◌, arith, if◌then◌else◌}
use peerprint.Base.Go.{ok}
use peerprint.Base.Post.{Ensures}
use peerprint.Proto.Peers.{is_electable}
use peerprint.Proto.Message.{Message}
use peerprint.Raft.{Raft}
use peerprint.Server.{Env, Server}
use peerprint.Server.Dispatch.{handle}
use peerprint.Server.Replies.{
  Answers, MayAnswer, assigns, joins, connects, sets, deletes, acquires, releases, handle-Answers,
}

-- how many replies can follow
abbrev rank : Message → ℕ
rank Message.assignment_request = 1
rank (Message.assignment_response r) = if is_electable r.type then 2 else 0
rank (Message.raft_addrs_request a) = 1
rank (Message.set_job_request j) = 1
rank (Message.delete_job_request i) = 1
rank (Message.acquire_job_request i) = 1
rank (Message.release_job_request i) = 1
rank _ = 0

Answers-rank : {from : String} {q r : Message} → Answers from q r → rank r < rank q
Answers-rank assigns = omega arith
Answers-rank (joins e) = rw e (omega arith)
Answers-rank connects = omega arith
Answers-rank sets = omega arith
Answers-rank deletes = omega arith
Answers-rank acquires = omega arith
Answers-rank releases = omega arith

rank-bound : (q : Message) → rank q ≤ 2
rank-bound (Message.assignment_response r) = ground arith
rank-bound _ = omega arith

module _ {R : Type 0} (raft : Raft R) where
  -- Messages that start at `q`, each but the first the reply of some server to the one before,
  -- and the number of replies.
  pub data Chain : Message → ℕ → Type 0 where
    asked : {q : Message} → Chain q 0
    replied :
        {q r : Message} {n : ℕ} (env : Env) (topic from : String) (t u : Server R)
        → handle raft env topic from q t ≡ ok u (some r)
        → Chain r n
        → Chain q (suc n)

  Chain-rank : {q : Message} {n : ℕ} → Chain q n → n ≤ rank q
  Chain-rank asked = omega arith
  Chain-rank {q} (replied {r = r} {n = n} env topic from t u e c) =
      let falls : rank r < rank q =
        Answers-rank
          (subst (Ensures (λ u r. MayAnswer from q r) (λ u e. Unit {0})) e
            (handle-Answers raft env topic from q t)).at in
      let rest : n ≤ rank r = Chain-rank c in omega arith

  -- Servers do not reply to each other for ever: at most two replies follow from a message, the
  -- first to it and the second to the first, whichever servers receive them, in whatever states.
  pub Chain-bound : {q : Message} {n : ℕ} → Chain q n → n ≤ 2
  Chain-bound {q} c = let b = Chain-rank c in let m = rank-bound q in omega arith
