-- ===== src/Discovery/Bootstrap.antt =====
-- The start of the DHT in discovery.go: `initDHT` and the goroutines of `bootstrapPeer`, which a
-- WaitGroup joins.
pub mod Joins
use peerprint.Base.{
  ℕ, zero, suc, ◌+◌, String, Bool, true, false, Option, none, some, List, [], ◌∷◌, ◌++◌, ◌≡◌,
}
use peerprint.Base.Go.{Go, Error, Attempt, pure, stop, given, must, panicked, ◌>>=◌, ◌>>◌}

-- `to_start` is what the loop of `initDHT` has not come to, `running` the goroutines that are under
-- way, `wg` the counter of the WaitGroup.
pub record Boot : Type 0 where
  pub to_start : List String
  pub running : List String
  pub wg : ℕ
  pub connected : List String
  pub warned : List Error
  pub returned : Bool

-- `initDHT` up to its loop: `dht.New` and `Bootstrap` may fail
unfoldable pub start_dht :
    Attempt (Unit {0}) → Attempt (Unit {0}) → List String → Go (Unit {0}) Boot
start_dht new_dht bootstrap peers = do
  must (given new_dht)
  must (given bootstrap)
  pure (record {
    to_start = peers;
    running = [];
    wg = 0;
    connected = [];
    warned = [];
    returned = false;
  })

-- wg.Add(1), and the start of a goroutine
unfoldable pub start_peer : String → List String → Boot → Boot
start_peer peer rest b = record b {
  to_start = rest;
  running = b.running ++ peer ∷ [];
  wg = suc b.wg;
}

-- wg.Done(), which panics below zero
abbrev pub done_from : ℕ → Go Boot (Unit {0})
done_from zero = stop panicked
done_from (suc n) = λ b. pure tt (record b { wg = n })

abbrev pub tried : Option Error → String → Boot → Boot
tried none peer b = record b { connected = b.connected ++ peer ∷ [] }
tried (some e) peer b = record b { warned = b.warned ++ e ∷ [] }

module _ (connect_fails : String → Option Error) where
  -- the body of the goroutine, which is then no longer among the running
  unfoldable pub bootstrap_peer : String → List String → Go Boot (Unit {0})
  bootstrap_peer peer others b =
      let u = tried (connect_fails peer) peer b in done_from u.wg (record u { running = others })

  -- A turn of `initDHT` or of one of the goroutines.
  pub data Step (b : Boot) : Boot → Type 0 where
    add :
        {peer : String} {rest : List String}
        → b.to_start ≡ peer ∷ rest
        → Step b (start_peer peer rest b)
    finish :
        {u : Boot} (before after : List String) (peer : String)
        → b.running ≡ before ++ peer ∷ after
        → bootstrap_peer peer (before ++ after) b ≡ peerprint.Base.Go.ok u tt
        → Step b u
    -- wg.Wait() comes back at zero
    wait : b.to_start ≡ [] → b.returned ≡ false → b.wg ≡ 0 → Step b (record b { returned = true })

  -- `Run b u n`: `n` turns lead from `b` to `u`.
  pub data Run (b : Boot) : Boot → ℕ → Type 0 where
    here : Run b b 0
    next : {u v : Boot} {n : ℕ} → Run b u n → Step u v → Run b v (suc n)
