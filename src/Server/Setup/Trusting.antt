-- ===== src/Server/Setup/Trusting.antt =====
-- Who a new server is and whom it trusts (`New` of server.go).
use peerprint.Base.{
  String, true, some, List, [], ◌∷◌, ◌≡◌, refl, inl, inr, Option-cases, arith, Memᴰ,
}
use peerprint.Base.Go.{Attempt, failed, succeeded}
use peerprint.Base.Post.{Returned}
use peerprint.Base.Keeps.{
  Keeps, Keeps-pure, Keeps-stop, Keeps-bind, Keeps-gets, Keeps-attempt, Keeps-if, Keeps-modify,
}
use peerprint.Base.Dict.{Dict, lookup, insert, lookup-insert, lookup-insert_self}
use peerprint.Raft.{Raft}
use peerprint.Server.{Server, Env, get_id, assignment_topic, default_topic}
use peerprint.Proto.Peers.{electable}
use peerprint.Server.Access.{in_trusted_peers}
use peerprint.Server.Setup.{
  ServerOptions, trust_all, am_trusted, or_panic, open_assignment, setup, blank, new,
}
use peerprint.Server.Channels.{Fixed, Fixed-Unseen}
use peerprint.Server.Invariants.Unseen.{Unseen-Stable}
use peerprint.Server.Invariants.Handlers.{on_assignment_response-Stable}

trust_all-keeps :
    (id : String) (ps : List String) (d : Dict (Unit {0}))
    → lookup id d ≡ some tt
    → lookup id (trust_all ps d) ≡ some tt
unfolding trust_all
trust_all-keeps id [] d h = h
trust_all-keeps id (p ∷ ps) d h =
    trust_all-keeps id ps (insert p tt d) (ground (arith, lookup-insert p id tt d))

pub trust_all-in :
    (id : String) (ps : List String) (d : Dict (Unit {0}))
    → Memᴰ id ps
    → lookup id (trust_all ps d) ≡ some tt
unfolding trust_all
trust_all-in id [] d m = elim m [ ]
trust_all-in id (p ∷ ps) d (Memᴰ.head e) =
    trust_all-keeps id ps (insert p tt d) (rw e (lookup-insert_self p tt d))
trust_all-in id (p ∷ ps) d (Memᴰ.tail m) = trust_all-in id ps (insert p tt d) m

module _ {R : Type 0} (raft : Raft R) where
  or_panic-Keeps : {A : Type 0} {P : Server R → Type 0} (r : Attempt A) → Keeps P (or_panic r)
  or_panic-Keeps (failed e) = Keeps-stop _
  or_panic-Keeps (succeeded a) = Keeps-pure tt

  open_assignment-Fixed :
      (me : String) (trusted : Dict (Unit {0})) (env : Env)
      → Keeps (Fixed {R = R} me trusted) (open_assignment env)
  unfolding open_assignment
  open_assignment-Fixed me trusted env = elim (Option-cases (env.open_error assignment_topic)) [
    | inl e ↦
        rw (open_assignment, e) (Keeps-modify _ λ t h. record { self = h.self; peers = h.peers })
    | inr (x, e) ↦ rw (open_assignment, e) (Keeps-stop _)
  ]

  pub new-Fixed :
      (env : Env) (opts : ServerOptions R)
      → Returned (λ t. Fixed opts.id (trust_all opts.trusted_peers []) t) (new raft env opts)
  unfolding new setup
  new-Fixed env opts =
      let keeps : Keeps (Fixed {R = R} opts.id (trust_all opts.trusted_peers [])) (setup raft env) =
        Keeps-bind (open_assignment-Fixed opts.id (trust_all opts.trusted_peers []) env) λ _.
          Keeps-bind (Keeps-gets _) λ trusted.
            Keeps-if trusted
              (Keeps-bind (Keeps-gets (λ t. get_id t)) λ me.
                Keeps-bind
                  (Keeps-attempt (
                    on_assignment_response-Stable raft
                      (Unseen-Stable raft (Fixed-Unseen opts.id (trust_all opts.trusted_peers [])))
                      env assignment_topic me
                      (record {
                        id = me;
                        topic = default_topic;
                        type = electable;
                        leader_id = "";
                      })))
                  λ r. or_panic-Keeps r)
              (Keeps-pure tt) in
      keeps.at (blank raft opts) (record { self = refl; peers = refl })

pub Fixed-am_trusted :
    {R : Type 0} (id : String) (ps : List String) (t : Server R)
    → Fixed id (trust_all ps []) t
    → Memᴰ id ps
    → am_trusted t ≡ true
unfolding in_trusted_peers
Fixed-am_trusted id ps t h m = rw (h.self, h.peers, trust_all-in id ps [] m) refl
