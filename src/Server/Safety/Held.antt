-- ===== src/Server/Safety/Held.antt =====
-- What is fixed while a lock is in force: the entry of one id, and who the server is.
use peerprint.Base.{String, Option, ◌≡◌, ◌∙◌}
use peerprint.Base.Go.{Go}
use peerprint.Base.Post.{Returned, Ensures-within, Ensures-mono}
use peerprint.Base.Keeps.{Keeps}
use peerprint.Proto.Jobs.{Job}
use peerprint.Raft.{Raft}
use peerprint.Raft.Contract.{Board, ◌≗◌, Contract}
use peerprint.Server.{Server, get_id, call_raft}
use peerprint.Server.Jobs.Frame.{on_board, call_get}
use peerprint.Server.Invariants.{Stable}

module _ {R : Type 0} (raft : Raft R) {board : R → Board} (c : Contract raft board) where
  -- The entry of `k` is `v`, and the server is `me`.
  pub record Held (k : String) (v : Option (Option Job)) (me : String) (t : Server R) : Type 0 where
    pub entry : on_board raft c t k ≡ v
    pub self : get_id t ≡ me

  module _ {k : String} {v : Option (Option Job)} {me : String} where
    call-Held :
        {A : Type 0} (m : Go R A)
        → ((r : R) → Returned (λ r'. board r' ≗ board r) (m r))
        → Keeps (Held k v me) (call_raft m)
    call-Held m h = record {
      at = λ t p. Ensures-within _ _ (
          Ensures-mono _ (h t.raft) (λ r a e. record { entry = e k ∙ p.entry; self = p.self })
            (λ r a e. record { entry = e k ∙ p.entry; self = p.self }));
    }

    get-Held : Keeps (Held k v me) (call_raft raft.get)
    get-Held = record {
      at = λ t p.
          Ensures-mono _ (call_get raft c t)
            (λ u a q. record { entry = q.0.0 k ∙ p.entry; self = q.0.1 ∙ p.self })
            (λ u a q. record { entry = q.0 k ∙ p.entry; self = q.1 ∙ p.self });
    }

    pub Held-Stable : Stable raft (Held k v me)
    Held-Stable = record {
      leader = call-Held raft.leader c.leader_lem;
      set_leader = λ l. call-Held (raft.set_leader l) (c.set_leader_lem l);
      addr_info = call-Held raft.addr_info c.addr_info_lem;
      connect = λ a. call-Held (raft.connect a) (c.connect_lem a);
      get = get-Held;
      emit_other =
          λ m n. record { at = λ t h. record { at = record { entry = h.entry; self = h.self } } };
      close = λ topic t e h. record { entry = h.entry; self = h.self };
      open_new = λ topic t e h. record { entry = h.entry; self = h.self };
      role = λ topic type t h. record { entry = h.entry; self = h.self };
    }
