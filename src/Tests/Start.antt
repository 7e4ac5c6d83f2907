-- ===== src/Tests/Start.antt =====
-- The start of `Loop` of a trusted peer and of one that nobody trusts.
use peerprint.Base.{true, false, [], ◌∷◌, ◌≡◌, ◌⊎◌, ◌<◌, refl}
use peerprint.Base.Dict.{lookup}
use peerprint.Raft.Mock.{TestRaft, test_raft}
use peerprint.Server.{publish, Env, Server, open_chan, get_id}
use peerprint.Server.Access.{in_trusted_peers}
use peerprint.Server.Channels.{Fixed}
use peerprint.Server.Loop.{Event, loop_step}
use peerprint.Server.Start.{
  System, start, Reach, here, next, start_listener, start_trusted, ask, ask_again, event, draw,
  request, roles, after_event, offer, request_addrs, over, awaiting_role, looping,
}
use peerprint.Server.Start.Newcomer.{OnlyAsks, Reach-OnlyAsks}
use peerprint.Server.Start.Handshake.{Reach-over, Reach-Fixed}
use peerprint.Tests.Fixtures.{calm, store, leader}

abbrev newcomer : Server TestRaft
newcomer = record leader {
  trusted_peers = ("tim", tt) ∷ [];
  send_pubsub = ("ASSIGN", open_chan) ∷ [];
}

asked_once : (s : System TestRaft) × Reach test_raft (start newcomer) s × (s.cancelled ≡ false)
unfolding start offer lookup in_trusted_peers
asked_once = (
  _,
  next (next (next here (start_listener refl refl)) (ask true refl refl refl)) (ask_again refl),
  refl,
)

Reach-OnlyAsks_example : OnlyAsks newcomer asked_once.0
unfolding asked_once lookup in_trusted_peers
Reach-OnlyAsks_example = Reach-OnlyAsks test_raft newcomer refl asked_once.1 asked_once.2

abbrev awaited : Env
awaited = record (calm 100500) { role_awaited = true }

shaken : (s : System TestRaft) × Reach test_raft (start leader) s × (s.shaking ≡ over)
unfolding start after_event request_addrs loop_step lookup in_trusted_peers publish
shaken = (
  _,
  next (next (next (next here (start_trusted refl refl)) (draw refl)) (request true refl refl))
      (event awaited Event.leader_changed refl tt refl refl),
  refl,
)

Reach-over_example : (shaken.0.cancelled ≡ true) ⊎ (roles leader.sent < roles shaken.0.server.sent)
Reach-over_example = Reach-over test_raft leader shaken.1 shaken.2

Reach-Fixed_example : Fixed (get_id leader) leader.trusted_peers shaken.0.server
Reach-Fixed_example = Reach-Fixed test_raft leader shaken.1

abbrev waiting : System TestRaft
waiting = record { server = leader; main = looping; shaking = awaiting_role; cancelled = false }

abbrev follower : Server TestRaft
follower = record leader { raft = record store { l = "tim" } }
