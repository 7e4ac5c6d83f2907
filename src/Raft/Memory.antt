-- ===== src/Raft/Memory.antt =====
-- `LocalMemoryImpl` of raft.go. The channel `sc` has no buffer: a send needs a goroutine that
-- waits to receive, and `receivers` counts those.
use peerprint.Base.{ℕ, zero, suc, String, Option, none, some, List, []}
use peerprint.Base.Go.{Go, ok, halt, blocked, pure}
use peerprint.Proto.Jobs.{State}
use peerprint.Proto.Peers.{AddrInfo}
use peerprint.Raft.{Raft}

pub record LocalMemory : Type 0 where
  pub s : Option State
  pub l : String
  pub receivers : ℕ

abbrev pub new_in_memory : LocalMemory
new_in_memory = record { s = some (record { jobs = some [] }); l = ""; receivers = 0 }

abbrev pub addr_info : Go LocalMemory (Option AddrInfo)
addr_info = pure none

abbrev pub connect : Option AddrInfo → Go LocalMemory (Unit {0})
connect a = pure tt

abbrev pub get_peers : Go LocalMemory (List (Option AddrInfo))
get_peers = pure []

abbrev pub leader : Go LocalMemory String
leader r = ok r r.l

abbrev pub get : Go LocalMemory (Option State)
get r = ok r r.s

-- ri.sc <- struct{}{}
abbrev pub send_changed : ℕ → Option State → LocalMemory → Go LocalMemory (Option State)
send_changed zero s r = λ _. halt blocked
send_changed (suc n) s r = λ _. ok (record r { s = s; receivers = n }) s

abbrev pub commit : Option State → Go LocalMemory (Option State)
commit s r = send_changed r.receivers s r r

abbrev pub set_leader : String → Go LocalMemory (Unit {0})
set_leader l r = ok (record r { l = l }) tt

abbrev pub local_memory : Raft LocalMemory
local_memory = record {
  addr_info = addr_info;
  connect = connect;
  leader = leader;
  set_leader = set_leader;
  commit = commit;
  get = get;
  wrote = λ s r. record r { s = some s };
}
