-- ===== src/Raft/Contract.antt =====
-- What the server relies on in an implementation of `Raft`: a view of it as a board of jobs, and
-- how far each call may change that board. A call that blocks or panics promises nothing.
use peerprint.Base.{
  String, Option, none, some, ◌≡◌, ◌⊎◌, inl, inr, refl, ltb, Bool-cases, ℕ, zero, suc,
}
use peerprint.Base.Go.{Outcome}
use peerprint.Base.Post.{Returned, Ensures}
use peerprint.Base.Dict.{lookup}
use peerprint.Proto.Jobs.{Job, State, get_jobs}
use peerprint.Proto.Peers.{AddrInfo}
use peerprint.Raft.{Raft}
use peerprint.Raft.Mock.{TestRaft, test_raft}
use peerprint.Raft.Memory.{LocalMemory, local_memory, send_changed}

-- What each id is mapped to; the entry of an id may be a nil pointer.
abbrev pub Board : Type 0
Board = String → Option (Option Job)

abbrev pub jobs_at : Option State → Board
jobs_at none k = none
jobs_at (some s) k = lookup k (get_jobs s)

infix 4 ◌≗◌
abbrev pub ◌≗◌ : Board → Board → Type 0
b ≗ c = (k : String) → b k ≡ c k

module _ {R : Type 0} (board : R → Board) where
  abbrev pub Keeps : {A : Type 0} → R → Outcome R A → Type 0
  Keeps r = Returned λ r'. board r' ≗ board r

  abbrev pub AfterGet : R → Outcome R (Option State) → Type 0
  AfterGet r =
      Ensures (λ r' s. (board r' ≗ board r) × (jobs_at s ≗ board r)) (λ r' e. board r' ≗ board r)

  abbrev pub AfterCommit : {A : Type 0} → R → Option State → Outcome R A → Type 0
  AfterCommit r s = Returned λ r'. (board r' ≗ jobs_at s) ⊎ (board r' ≗ board r)

pub record Contract {R : Type 0} (raft : Raft R) (board : R → Board) : Type 0 where
  pub get_lem : (r : R) → AfterGet board r (raft.get r)
  pub commit_lem : (s : Option State) (r : R) → AfterCommit board r s (raft.commit s r)
  pub wrote_lem :
      (s : State) (r : R)
      → (board (raft.wrote s r) ≗ jobs_at (some s)) ⊎ (board (raft.wrote s r) ≗ board r)
  pub leader_lem : (r : R) → Keeps board r (raft.leader r)
  pub set_leader_lem : (l : String) (r : R) → Keeps board r (raft.set_leader l r)
  pub addr_info_lem : (r : R) → Keeps board r (raft.addr_info r)
  pub connect_lem : (a : Option AddrInfo) (r : R) → Keeps board r (raft.connect a r)

abbrev pub test_board : TestRaft → Board
test_board r = jobs_at r.s

test_commit : (s : Option State) (r : TestRaft) → AfterCommit test_board r s (test_raft.commit s r)
test_commit s r = elim (Bool-cases (ltb r.pending 5)) [
  | inl e ↦ rw e (record { at = inl λ k. refl })
  | inr e ↦ rw e (record { at = tt })
]

-- The mock keeps the contract.
pub test_raft-Contract : Contract test_raft test_board
test_raft-Contract = record {
  get_lem = λ r. record { at = (λ k. refl, λ k. refl) };
  commit_lem = test_commit;
  wrote_lem = λ s r. inl λ k. refl;
  leader_lem = λ r. record { at = λ k. refl };
  set_leader_lem = λ l r. record { at = λ k. refl };
  addr_info_lem = λ r. record { at = λ k. refl };
  connect_lem = λ a r. record { at = λ k. refl };
}

abbrev pub memory_board : LocalMemory → Board
memory_board r = jobs_at r.s

memory_send :
    (n : ℕ) (s : Option State) (r : LocalMemory)
    → AfterCommit memory_board r s (send_changed n s r r)
memory_send zero s r = record { at = tt }
memory_send (suc n) s r = record { at = inl λ k. refl }

-- The store in memory keeps the contract.
pub local_memory-Contract : Contract local_memory memory_board
local_memory-Contract = record {
  get_lem = λ r. record { at = (λ k. refl, λ k. refl) };
  commit_lem = λ s r. memory_send r.receivers s r;
  wrote_lem = λ s r. inl λ k. refl;
  leader_lem = λ r. record { at = λ k. refl };
  set_leader_lem = λ l r. record { at = λ k. refl };
  addr_info_lem = λ r. record { at = λ k. refl };
  connect_lem = λ a r. record { at = λ k. refl };
}
