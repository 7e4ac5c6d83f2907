-- ===== src/Raft/Mock.antt =====
-- `testRaft` of server/mocks.go: `pending` counts what waits in the channel `sc`, of capacity 5.
use peerprint.Base.{
  ℕ, suc, String, Bool, true, false, Option, some, List, [], ◌∷◌, ◌++◌, ltb, str_eq, if◌then◌else◌,
}
use peerprint.Base.Go.{Go, ok, halt, blocked}
use peerprint.Proto.Jobs.{State}
use peerprint.Proto.Peers.{AddrInfo, get_addr_id}
use peerprint.Raft.{Raft}

pub record TestRaft : Type 0 where
  pub id : String
  pub s : Option State
  pub l : String
  pub lset : String
  pub pending : ℕ
  pub peers : List (Option AddrInfo)

abbrev pub addr_info : Go TestRaft (Option AddrInfo)
addr_info r = ok r (some (record { id = r.id; addrs = [] }))

abbrev pub connect : Option AddrInfo → Go TestRaft (Unit {0})
connect peer r = ok (record r { peers = r.peers ++ peer ∷ [] }) tt

abbrev pub get_peers : Go TestRaft (List (Option AddrInfo))
get_peers r = ok r r.peers

unfoldable pub has_peer : Option AddrInfo → List (Option AddrInfo) → Bool
has_peer peer [] = false
has_peer peer (p ∷ ps) =
    if str_eq (get_addr_id p) (get_addr_id peer) then true else has_peer peer ps

abbrev pub leader : Go TestRaft String
leader r = ok r r.l

-- leadership itself stays
abbrev pub set_leader : String → Go TestRaft (Unit {0})
set_leader l r = ok (record r { lset = l }) tt

abbrev pub commit : Option State → Go TestRaft (Option State)
commit s r =
    if ltb r.pending 5 then ok (record r { s = s; pending = suc r.pending }) s else halt blocked

abbrev pub get : Go TestRaft (Option State)
get r = ok r r.s

-- `Get` hands out the object itself
abbrev pub test_raft : Raft TestRaft
test_raft = record {
  addr_info = addr_info;
  connect = connect;
  leader = leader;
  set_leader = set_leader;
  commit = commit;
  get = get;
  wrote = λ s r. record r { s = some s };
}
