-- ===== src/Base/Peers.antt =====
-- Statements about each entry of a list, by the number of the peer that the entry is for.
use Prim.Native.Nat.{ℕ, ◌+◌}
use Prim.Native.String.{String}
use mathlib.Core.Path.{refl, sym, subst}
use mathlib.Core.List.{List, [], ◌∷◌, Memᴰ}

-- `Q` holds of the peers after `i` and their entries.
abbrev pub AllPeers : (ℕ → String → Type 0) → ℕ → List String → Type 0
AllPeers Q i [] = Unit {0}
AllPeers Q i (id ∷ ids) = Q (i + 1) id × AllPeers Q (i + 1) ids

pub AllPeers-map :
    {P Q : ℕ → String → Type 0} (i : ℕ) (ids : List String)
    → ((n : ℕ) (id : String) → Memᴰ id ids → P n id → Q n id)
    → AllPeers P i ids
    → AllPeers Q i ids
AllPeers-map i [] f h = tt
AllPeers-map i (id ∷ ids) f (h, hs) =
    (f (i + 1) id (Memᴰ.head refl) h, AllPeers-map (i + 1) ids (λ n x m. f n x (Memᴰ.tail m)) hs)

pub AllPeers-each :
    {P : ℕ → String → Type 0} {Q : String → Type 0} (i : ℕ) (ids : List String)
    → ((n : ℕ) (id : String) → P n id → Q id)
    → AllPeers P i ids
    → (id : String) → Memᴰ id ids
    → Q id
AllPeers-each i [] f h id m = elim m [ ]
AllPeers-each {Q = Q} i (x ∷ ids) f (h, hs) id (Memᴰ.head e) = subst Q (sym e) (f (i + 1) x h)
AllPeers-each i (x ∷ ids) f (h, hs) id (Memᴰ.tail m) = AllPeers-each (i + 1) ids f hs id m
