-- ===== src/Tests/Observe.antt =====
-- Leaders come and go before the eyes of `observeLeadership`.
use peerprint.Base.{String, true, false, ◌≡◌, ◌≢◌, ◌⊎◌, refl, [], none, arith, eq_iff}
use peerprint.Base.Go.{ok, pure}
use peerprint.Raft.External.{External, marshable}
use peerprint.Raft.Impl.{RaftImpl, new, leader}
use peerprint.Raft.Impl.Observe.{
  Watched, notice, observe, start, change, round, receive, Reach, here, next,
}
use peerprint.Raft.Impl.Observe.Told.{AnyChange, NoReturn, missed, Reach-told, Reach-lost}

-- the world is the id of the leader
abbrev votes : External String
votes = record {
  decode_id = λ id. none;
  new_multiaddr = λ a. none;
  host_connect = λ id addrs. pure tt;
  new_transport = pure tt;
  new_snapshot_store = pure tt;
  has_existing_state = pure false;
  bootstrap_cluster = λ servers. pure tt;
  new_raft = pure tt;
  is_leader = pure false;
  leader_with_id = λ w. ok w w;
  add_voter = λ s. pure tt;
  commit_state = λ s w. ok w true;
  get_current_state = pure (marshable none);
  wrote = λ s w. w;
}

unfoldable me : RaftImpl String
unfolding new
me = record (new "me" [] "") { raft = true }

reads : (w : String) → leader votes (record me { world = w }) ≡ ok (record me { world = w }) w
unfolding leader me new
reads w = refl

ann_not_none : ◌≢◌ {A = String} "ann" ""
ann_not_none e = ground (arith, eq_iff "ann" "")

abbrev told : Watched String
told = record { world = "ann"; watch = record { last = "ann"; pending = 0 }; heard = "ann" }

to_told : Reach votes me (NoReturn votes me (λ w. w) reads) (start "") told
unfolding observe notice leader me new
to_told = next (next (next here (change "ann" ann_not_none)) (round refl)) (receive refl refl)

Reach-told_example : (told.heard ≡ "ann") ⊎ (told.world ≢ told.watch.last)
Reach-told_example = Reach-told votes me (λ w. w) reads refl to_told refl

Reach-lost_example :
    Reach votes me
      (AnyChange votes me (λ w. w) reads)
      (start "ann")
      (missed votes me (λ w. w) reads "ann" "bob")
    × ◌≡◌ {A = String} "bob" "bob"
    × ◌≡◌ {A = String} "ann" "ann"
Reach-lost_example = Reach-lost votes me (λ w. w) reads "ann" "bob" ann_not_none here
