-- ===== src/Server/Jobs/Mutable.antt =====
-- `checkMutable` against a description of it that has no wrap-around and no pointers.
use peerprint.Base.{
  ℕ, String, Bool, true, Option, none, some, ◌+◌, ◌-◌, ◌^◌, ◌≤◌, ◌<◌, ◌≡◌, refl, ◌||◌, ltb, str_eq,
  if◌then◌else◌, arith, Option-cases, inl, inr,
}
use peerprint.Base.Go.{ok, err, halt, nil_dereference, access_denied}
use peerprint.Proto.Jobs.{Lock, Job, get_peer}
use peerprint.Server.{lock_timeout_seconds}
use peerprint.Server.Jobs.{expiry, check_mutable}

-- A peer may write to a job if nobody holds it, if the peer itself holds it, or if the lock is
-- older than the timeout.
abbrev pub may_write_under : ℕ → String → Option Lock → Bool
may_write_under now peer none = true
may_write_under now peer (some l) =
    str_eq l.peer "" || str_eq l.peer peer || ltb (l.created + lock_timeout_seconds) now

abbrev pub may_write : ℕ → String → Job → Bool
may_write now peer j = may_write_under now peer j.lock

-- A clock between two hours after the epoch and the end of int64 does not wrap.
pub record InRange (now : ℕ) : Type 0 where
  pub past_timeout : lock_timeout_seconds ≤ now
  pub is_int64 : now < 2 ^ 63

pub expiry-sub : (now : ℕ) → InRange now → expiry now ≡ now - lock_timeout_seconds
unfolding expiry
expiry-sub now r = omega (arith, r.past_timeout, r.is_int64)

lock_expired : (c now : ℕ) → InRange now → ltb c (expiry now) ≡ ltb (c + lock_timeout_seconds) now
lock_expired c now r = rw (expiry-sub now r) (ground (arith, r.past_timeout))

-- `checkMutable` lets exactly the permitted peers through, and changes nothing.
pub check_mutable-may_write :
    {S : Type 0} (now : ℕ) (j : Job) (peer : String) (s : S)
    → InRange now
    → check_mutable now (some j) peer s ≡ (
        if may_write now peer j then ok s tt else err s (access_denied peer j.id (get_peer j.lock)))
unfolding check_mutable
check_mutable-may_write now j peer s r = elim (Option-cases j.lock) [
  | inl e ↦ rw e
  | inr (l, e) ↦ ground (arith, lock_expired l.created now r)
]

-- A nil job panics.
pub check_mutable-nil :
    {S : Type 0} (now : ℕ) (peer : String) (s : S)
    → check_mutable now none peer s ≡ halt nil_dereference
unfolding check_mutable
check_mutable-nil now peer s = refl
