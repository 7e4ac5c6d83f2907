-- ===== src/Proto/Jobs.antt =====
-- jobs.pb.go and state.pb.go: locks, jobs and the shared state. A pointer is an `Option`.
use peerprint.Base.{ℕ, String, Option, none, some, List, []}
use peerprint.Base.Dict.{Dict}

pub record Lock : Type 0 where
  pub peer : String
  pub created : ℕ  -- uint64

pub record Job : Type 0 where
  pub id : String
  pub owner : String
  pub lock : Option Lock
  pub protocol : String
  pub payload : List ℕ  -- the bytes of the field `data`

abbrev pub Jobs : Type 0
Jobs = Dict (Option Job)

-- `jobs` is `none` for a nil map
pub record State : Type 0 where
  pub jobs : Option Jobs

-- The generated getters answer the zero value at a nil pointer.
abbrev pub get_peer : Option Lock → String
get_peer none = ""
get_peer (some l) = l.peer

abbrev pub get_id : Option Job → String
get_id none = ""
get_id (some j) = j.id

abbrev pub get_lock : Option Job → Option Lock
get_lock none = none
get_lock (some j) = j.lock

-- reading a nil map is reading an empty one
abbrev pub get_jobs : State → Jobs
get_jobs s = elim s.jobs [ none ↦ [] | some m ↦ m ]
