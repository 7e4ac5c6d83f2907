-- ===== src/Raft/Impl/Observe.antt =====
-- `observeLeadership` of raft.go, and the server's end of `LeaderChan`: a goroutine that looks at
-- the leader from time to time, and a channel with five places between it and the main loop.
pub mod Told
use peerprint.Base.{ℕ, suc, ◌+◌, String, ◌≡◌, str_eq, ltb, if◌then◌else◌}
use peerprint.Base.Go.{Go, ok, pure, ◌>>=◌}
use peerprint.Raft.External.{External}
use peerprint.Raft.Impl.{RaftImpl, leader}

pub record Watch : Type 0 where
  pub last : String
  pub pending : ℕ  -- in `newLeader`

-- cap(ri.newLeader)
abbrev pub places : ℕ
places = 5

-- `if l := ri.Leader(); l != last`, with the `select` on `newLeader`
unfoldable pub notice : String → Watch → Watch
notice l w =
    if str_eq l w.last
    then w
    else if ltb w.pending places
    then record { last = l; pending = w.pending + 1 }
    else w

module _ {W : Type 0} (ext : External W) where
  -- one round of the loop, at an observation or a tick
  unfoldable pub observe : Watch → Go (RaftImpl W) Watch
  unfolding leader notice
  observe w = do l ← leader ext; pure (notice l w)

-- The world of the raft libraries, the goroutine, and the leader that the server saw when it last
-- took a value from `LeaderChan`.
pub record Watched (W : Type 0) : Type 0 where
  pub world : W
  pub watch : Watch
  pub heard : String

abbrev pub start : {W : Type 0} → W → Watched W
start w = record { world = w; watch = record { last = ""; pending = 0 }; heard = "" }

-- The leader may change wherever `Allowed` says.
module _ {W : Type 0} (ext : External W) (ri : RaftImpl W) (Allowed : Watch → W → Type 0) where
  pub data Step (s : Watched W) : Watched W → Type 0 where
    change : (w : W) → Allowed s.watch w → Step s (record s { world = w })
    round :
        {u : RaftImpl W} {w : Watch}
        → observe ext s.watch (record ri { world = s.world }) ≡ ok u w
        → Step s (record s { world = u.world; watch = w })
    receive :
        {u : RaftImpl W} {l : String} {n : ℕ}
        → s.watch.pending ≡ suc n
        → leader ext (record ri { world = s.world }) ≡ ok u l
        → Step s (record { world = u.world; watch = record s.watch { pending = n }; heard = l })

  pub data Reach (s : Watched W) : Watched W → Type 0 where
    here : Reach s s
    next : {t u : Watched W} → Reach s t → Step t u → Reach s u
