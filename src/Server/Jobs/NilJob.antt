-- ===== src/Server/Jobs/NilJob.antt =====
-- Set requests that bring no job: the field `job` of the message is a nil pointer.
use peerprint.Base.{String, Option, none, some, ◌≡◌}
use peerprint.Base.Go.{ok, halt, nil_dereference, ◌>>=◌}
use peerprint.Base.Dict.{lookup, insert, lookup-insert_self}
use peerprint.Proto.Jobs.{Job, Jobs, State, get_id}
use peerprint.Raft.{Raft}
use peerprint.Server.{Server, Env}
use peerprint.Server.Jobs.{on_set_job_request}

-- A set request without a job stores a nil job under the empty id. On a store whose map has no
-- entry of that id, and which accepts the commit and then returns the committed map, the request
-- after it panics if it is a set request for that id, with or without a job, by any peer.
pub set_nil-halts :
    {R : Type 0} (raft : Raft R) (env env' : Env) (topic from from' : String) (req : Option Job)
    (t : Server R) (r r' r'' : R) (m : Jobs) (s : State) (c : Option State)
    → s ≡ record { jobs = some (insert "" none m) }
    → raft.get t.raft ≡ ok r (some (record { jobs = some m }))
    → lookup "" m ≡ none
    → raft.commit (some s) (raft.wrote s r) ≡ ok r' c
    → raft.get r' ≡ ok r'' (some s)
    → get_id req ≡ ""
    → (on_set_job_request raft env topic from none >>= λ _.
          on_set_job_request raft env' topic from' req)
        t
      ≡ halt nil_dereference
unfolding on_set_job_request
set_nil-halts raft env env' topic from from' req t r r' r'' m s c is got new put again id =
    rw (got, new, ← is, put, again, id, is, lookup-insert_self "" none m)
