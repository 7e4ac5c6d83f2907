-- ===== src/Raft/Impl/Joining.antt =====
-- `Connect` of `RaftImpl` (raft.go) where the calls of the libraries succeed.
use peerprint.Base.{
  String, true, false, Option, none, List, [], ◌∷◌, ◌++◌, ◌≡◌, refl, sym, ◌∙◌, inl, inr, Bool-cases,
  str_eq, eq_refl,
}
use peerprint.Base.Go.{Outcome, ok}
use peerprint.Base.Post.{Succeeds}
use peerprint.Proto.Peers.{AddrInfo, get_addr_id}
use peerprint.Raft.External.{RaftServer, External}
use peerprint.Raft.Impl.{
  RaftImpl, get_addrs, has_peer, is_empty, append_peer, server_of, proto_to_peer_addr_info,
  parse_addrs, add_server, setup, connect,
}

abbrev pub Returns : {S A : Type 0} → Outcome S A → Type 0
Returns = Succeeds (λ _ _. Unit {0})

-- Raft is set up as a whole or not at all.
pub record Whole {W : Type 0} (ri : RaftImpl W) : Type 0 where
  pub same : ri.transport ≡ ri.raft
  pub server : is_empty ri.servers ≡ false

-- but for the world and what `setup` sets, the object is as `addServer` leaves it
pub record Joined {W : Type 0} (ai : Option AddrInfo) (ri u : RaftImpl W) : Type 0 where
  pub raft : u.raft ≡ true
  pub transport : u.transport ≡ true
  pub peers : u.peers ≡ (append_peer ai ri).peers
  pub servers : u.servers ≡ (append_peer ai ri).servers
  pub id : u.id ≡ ri.id
  pub host_addrs : u.host_addrs ≡ ri.host_addrs

module _ {W : Type 0} (ext : External W) where
  abbrev pub AllParse : List String → Type 0
  AllParse [] = Unit
  AllParse (a ∷ rest) = (ext.new_multiaddr a ≡ none) × AllParse rest

  -- The peer's address is well-formed and the host answers there, and the start of raft succeeds.
  pub record Works (ai : Option AddrInfo) : Type 0 where
    pub decodes : ext.decode_id (get_addr_id ai) ≡ none
    pub parses : AllParse (get_addrs ai)
    pub host_connect : (w : W) → Returns (ext.host_connect (get_addr_id ai) (get_addrs ai) w)
    pub is_leader : (w : W) → Returns (ext.is_leader w)
    pub add_voter : (s : RaftServer) (w : W) → Returns (ext.add_voter s w)
    pub new_transport : (w : W) → Returns (ext.new_transport w)
    pub new_snapshot_store : (w : W) → Returns (ext.new_snapshot_store w)
    pub has_existing_state : (w : W) → Returns (ext.has_existing_state w)
    pub bootstrap_cluster : (l : List RaftServer) (w : W) → Returns (ext.bootstrap_cluster l w)
    pub new_raft : (w : W) → Returns (ext.new_raft w)

  module _ (ai : Option AddrInfo) (works : Works ai) where
    parse-ok :
        {S : Type 0} (addrs : List String) (s : S)
        → AllParse addrs
        → parse_addrs ext addrs s ≡ ok s tt
    unfolding parse_addrs
    parse-ok [] s h = refl
    parse-ok (a ∷ addrs) s h = rw h.0 (parse-ok addrs s h.1)

    proto-ok : {S : Type 0} (s : S) → proto_to_peer_addr_info ext ai s ≡ ok s tt
    unfolding proto_to_peer_addr_info
    proto-ok s = rw works.decodes (parse-ok (get_addrs ai) s works.parses)

    add_server-Works :
        (ri : RaftImpl W)
        → (w : W) × (add_server ext ai ri ≡ ok (record (append_peer ai ri) { world = w }) tt)
    unfolding add_server
    add_server-Works ri =
        let base = append_peer ai ri in
        let (w1, x, e1, _) = works.host_connect base.world in
        elim (Bool-cases base.raft) [
          | inr n ↦ (w1, rw (proto-ok base, e1, n))
          | inl y ↦
              let (w2, l, e2, _) = works.is_leader w1 in
              elim (Bool-cases l) [
                | inr n ↦ (w2, rw (proto-ok base, e1, y, e2, n))
                | inl t ↦
                    let (w3, z, e3, _) = works.add_voter (server_of (get_addr_id ai)) w2 in
                    (w3, rw (proto-ok base, e1, y, e2, t, e3))
              ]
        ]

    setup-Works :
        (ri : RaftImpl W)
        → is_empty ri.servers ≡ false
        → (w : W) × (setup ext ri
            ≡ ok (record ri { transport = true; consensus = true; raft = true; world = w }) tt)
    unfolding setup
    setup-Works ri s =
        let (w1, x1, e1, _) = works.new_transport ri.world in
        let (w2, x2, e2, _) = works.new_snapshot_store w1 in
        let (w3, old, e3, _) = works.has_existing_state w2 in
        elim (Bool-cases old) [
          | inl y ↦ let (w4, x4, e4, _) = works.new_raft w3 in (w4, rw (s, e1, e2, e3, y, e4))
          | inr n ↦
              let (w4, x4, e4, _) = works.bootstrap_cluster ri.servers w3 in
              let (w5, x5, e5, _) = works.new_raft w4 in (w5, rw (s, e1, e2, e3, n, e4, e5))
        ]

    append_peer-Whole : (ri : RaftImpl W) → Whole ri → Whole (append_peer ai ri)
    unfolding append_peer
    append_peer-Whole ri h = elim (Bool-cases (has_peer ai ri.peers)) [
      | inl y ↦ rw y h
      | inr n ↦ rw n (record { same = h.same; server = snoc_full ri.servers })
    ]
      where
        snoc_full : (l : List RaftServer) → is_empty (l ++ server_of (get_addr_id ai) ∷ []) ≡ false
        snoc_full [] = refl
        snoc_full (s ∷ l) = refl

    append_peer_self :
        (ri : RaftImpl W)
        → ((append_peer ai ri).id ≡ ri.id) × ((append_peer ai ri).host_addrs ≡ ri.host_addrs)
    unfolding append_peer
    append_peer_self ri = elim (Bool-cases (has_peer ai ri.peers)) [
      | inl y ↦ rw y (refl, refl)
      | inr n ↦ rw n (refl, refl)
    ]

    -- `Connect` adds the peer, and leaves raft set up.
    pub connect-Joined :
        (ri : RaftImpl W)
        → Whole ri
        → Succeeds (λ u _. Joined ai ri u × Whole u) (connect ext ai ri)
    unfolding connect
    connect-Joined ri h =
        let base = append_peer ai ri in
        let whole = append_peer-Whole ri h in
        let (w, e) = add_server-Works ri in
        let (id, addrs) = append_peer_self ri in
        elim (Bool-cases base.transport) [
          | inl y ↦ (
            record base { world = w },
            tt,
            rw (e, y),
            (
              record {
                raft = sym whole.same ∙ y;
                transport = y;
                peers = refl;
                servers = refl;
                id = id;
                host_addrs = addrs;
              },
              record { same = whole.same; server = whole.server },
            ),
          )
          | inr n ↦
              let (w', q) =
                setup-Works (record base { transport = false; world = w }) whole.server in
              (
                record base { transport = true; consensus = true; raft = true; world = w' },
                tt,
                rw (e, n, q),
                (
                  record {
                    raft = refl;
                    transport = refl;
                    peers = refl;
                    servers = refl;
                    id = id;
                    host_addrs = addrs;
                  },
                  record { same = refl; server = whole.server },
                ),
              )
        ]

has_peer-last :
    (ai : Option AddrInfo) (l : List (Option AddrInfo)) → has_peer ai (l ++ ai ∷ []) ≡ true
unfolding has_peer
has_peer-last ai [] = rw (eq_refl (get_addr_id ai))
has_peer-last ai (p ∷ l) = elim (Bool-cases (str_eq (get_addr_id ai) (get_addr_id p))) [
  | inl y ↦ rw y
  | inr n ↦ rw n (has_peer-last ai l)
]

pub has_peer-append_peer :
    {W : Type 0} (ai : Option AddrInfo) (ri : RaftImpl W)
    → has_peer ai (append_peer ai ri).peers ≡ true
unfolding append_peer
has_peer-append_peer ai ri = elim (Bool-cases (has_peer ai ri.peers)) [
  | inl y ↦ rw y y
  | inr n ↦ rw n (has_peer-last ai ri.peers)
]
