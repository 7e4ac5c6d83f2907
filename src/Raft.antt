-- ===== src/Raft.antt =====
-- The interface `Raft` of raft.go, as far as the server calls it. `R` is the state of an
-- implementation. `wrote s r` is that state once the object which `get` returned has been
-- written in place to hold `s`: an implementation that hands out its own object changes, one that
-- hands out a copy does not.
pub mod Mock
pub mod Memory
pub mod Contract
pub mod External
pub mod Consensus
pub mod Impl
pub mod Marshal
use peerprint.Base.{String, Option}
use peerprint.Base.Go.{Go}
use peerprint.Proto.Jobs.{State}
use peerprint.Proto.Peers.{AddrInfo}

pub record Raft (R : Type 0) : Type 0 where
  pub addr_info : Go R (Option AddrInfo)
  pub connect : Option AddrInfo → Go R (Unit {0})
  pub leader : Go R String
  pub set_leader : String → Go R (Unit {0})
  pub commit : Option State → Go R (Option State)
  pub get : Go R (Option State)
  pub wrote : State → R → R
