-- ===== src/Server/Jobs/Tables.antt =====
-- The job handlers over `testRaft`, with its map seen as a table of entries: a quotient, which
-- forgets the order in which the entries of a Go map happen to be held.
use mathlib.Core.Quot
use mathlib.Core.Quot.{Quot}
use peerprint.Base.{
  ℕ, suc, ◌+◌, ◌≤◌, String, true, false, Option, none, some, ◌≡◌, ◌≢◌, ◌∙◌, inl, inr, refl, sym, ap,
  Bool-cases, str_eq, arith, eq_iff, ltb, if◌then◌else◌,
}
use peerprint.Base.Go.{Go, Outcome, ok, Attempt, failed, succeeded, attempt, attempt_outcome, ◌>>=◌}
use peerprint.Base.Post.{Succeeds}
use peerprint.Base.Dict.{lookup}
use peerprint.Proto.Jobs.{Job, Jobs, State}
use peerprint.Raft.Mock.{TestRaft, test_raft}
use peerprint.Server.{Server, Env}
use peerprint.Server.Jobs.Mutable.{InRange}
use peerprint.Server.Jobs.Rulings.{
  JobRequest, named, Ruling, entry, refuse, ruling, stored, serve, Obeys, serve-Obeys,
}

abbrev pub SameEntries : Jobs → Jobs → Type 0
SameEntries m n = (k : String) → lookup k m ≡ lookup k n

abbrev pub Table : Type 0
Table = Quot SameEntries

abbrev table_in : Option State → Option Table
table_in none = none
table_in (some s) = elim s.jobs [ none ↦ none | some m ↦ some (Quot.mk m) ]

abbrev pub table_of : Server TestRaft → Option Table
table_of t = table_in t.raft.s

-- what the named entry is after the ruling
abbrev settled : Ruling → Option Job → Option Job
settled (entry new) old = new
settled (refuse e) old = old

-- The map of the store, and the places that are left in the channel of its changes.
record Holds (m : Jobs) (n : ℕ) (t : Server TestRaft) : Type 0 where
  state : t.raft.s ≡ some (record { jobs = some m })
  room : t.raft.pending + n ≤ 5

-- `m'` is `m` but for the entry at `id`
abbrev Put : String → Option Job → Jobs → Jobs → Type 0
Put id e m m' = (k : String) → lookup k m' ≡ (if str_eq id k then stored e else lookup k m)

abbrev Settles :
    String → Jobs → ℕ → Option Job → Outcome (Server TestRaft) (Attempt (Option State)) → Type 0
Settles id m n e o = (m' : Jobs) × Put id e m m' × Succeeds (λ u _. Holds m' n u) o

Put-same : (id : String) (e : Option Job) (m : Jobs) → lookup id m ≡ stored e → Put id e m m
Put-same id e m h k = elim (Bool-cases (str_eq id k)) [
  | inl y ↦ rw y (ap (λ j. lookup j m) (sym ((eq_iff id k).0 y)) ∙ h)
  | inr n ↦ rw n refl
]

Put-hit :
    (id k : String) (e : Option Job) (m m' : Jobs)
    → Put id e m m'
    → str_eq id k ≡ true
    → lookup k m' ≡ stored e
Put-hit id k e m m' p h = rw h at (p k)

Put-miss :
    (id k : String) (e : Option Job) (m m' : Jobs)
    → Put id e m m'
    → str_eq id k ≡ false
    → lookup k m' ≡ lookup k m
Put-miss id k e m m' p h = rw h at (p k)

Put-other :
    (id j : String) (e : Option Job) (m m' : Jobs)
    → Put id e m m'
    → id ≢ j
    → lookup j m' ≡ lookup j m
Put-other id j e m m' p n = elim (Bool-cases (str_eq id j)) [
  | inl y ↦ absurd (n ((eq_iff id j).0 y))
  | inr f ↦ Put-miss id j e m m' p f
]

-- writes to different entries come to the same in both orders
Put-comm :
    (i j : String) (a b : Option Job) (m m1 m2 m12 m21 : Jobs)
    → i ≢ j
    → Put i a m m1
    → Put j b m1 m12
    → Put j b m m2
    → Put i a m2 m21
    → SameEntries m12 m21
Put-comm i j a b m m1 m2 m12 m21 n p q r s k = elim (Bool-cases (str_eq i k)) [
  | inl x ↦ elim (Bool-cases (str_eq j k)) [
    | inl y ↦ absurd (n ((eq_iff i k).0 x ∙ sym ((eq_iff j k).0 y)))
    | inr y ↦ Put-miss j k b m1 m12 q y ∙ Put-hit i k a m m1 p x ∙ sym (Put-hit i k a m2 m21 s x)
  ]
  | inr x ↦
      let back : lookup k m21 ≡ lookup k m2 = Put-miss i k a m2 m21 s x in
      elim (Bool-cases (str_eq j k)) [
        | inl y ↦ Put-hit j k b m1 m12 q y ∙ sym (back ∙ Put-hit j k b m m2 r y)
        | inr y ↦
            Put-miss j k b m1 m12 q y
            ∙ Put-miss i k a m m1 p x
            ∙ sym (back ∙ Put-miss j k b m m2 r y)
      ]
]

Obeys-Settles :
    (id : String) (m : Jobs) (n : ℕ) (t : Server TestRaft) (old : Option Job) (ρ : Ruling)
    (o : Outcome (Server TestRaft) (Option State))
    → lookup id m ≡ stored old
    → Holds m (suc n) t
    → Obeys test_raft id m t.raft t ρ o
    → Settles id m n (settled ρ old) (attempt_outcome o)
Obeys-Settles id m n t old (refuse e) o l h e' = (
  m,
  Put-same id old m l,
  (t, failed e, ap attempt_outcome e', record { state = h.state; room = omega (arith, h.room) }),
)
Obeys-Settles id m n t old (entry new) o l h (m', e', put) =
    let fits : ltb t.raft.pending 5 ≡ true = ground (arith, h.room) in
    (
      m',
      put,
      (
        record t {
          raft = record t.raft {
            s = some (record { jobs = some m' });
            pending = suc t.raft.pending;
          };
        },
        succeeded (some (record { jobs = some m' })),
        ap attempt_outcome e' ∙ rw fits refl,
        record { state = refl; room = omega (arith, h.room) },
      ),
    )

module _ (env : Env) (topic from : String) (in_range : InRange env.now) where
  serve-Settles :
      (req : JobRequest) (m : Jobs) (n : ℕ) (t : Server TestRaft) (old : Option Job)
      → lookup (named req) m ≡ stored old
      → Holds m (suc n) t
      → Settles
          (named req)
          m
          n
          (settled (ruling env.now from req old) old)
          (attempt (serve test_raft env topic from req) t)
  serve-Settles req m n t old l h =
      Obeys-Settles (named req) m n t old (ruling env.now from req old) _ l h (
        serve-Obeys test_raft env topic from t t.raft m in_range (ap (ok t.raft) h.state) req old l)

-- A request, who sends it and when; a refusal is dropped.
pub record Call : Type 0 where
  pub env : Env
  pub topic : String
  pub from : String
  pub req : JobRequest

abbrev pub answer : Call → Go (Server TestRaft) (Attempt (Option State))
answer c = attempt (serve test_raft c.env c.topic c.from c.req)

-- what the call makes of the entry that it names
abbrev after : Call → Option Job → Option Job
after c e = settled (ruling c.env.now c.from c.req e) e

abbrev SettlesBoth :
    Call
    → Call
    → Option Job
    → Option Job
    → Jobs
    → Outcome (Server TestRaft) (Attempt (Option State))
    → Type 0
SettlesBoth c d e f m o =
    (m1 : Jobs) × (m2 : Jobs) × Put (named c.req) (after c e) m m1
    × Put (named d.req) (after d f) m1 m2
    × Succeeds (λ u _. Holds m2 0 u) o

both-Settles :
    (c d : Call) (e f : Option Job) (m : Jobs) (t : Server TestRaft)
    → InRange c.env.now
    → InRange d.env.now
    → named c.req ≢ named d.req
    → lookup (named c.req) m ≡ stored e
    → lookup (named d.req) m ≡ stored f
    → Holds m 2 t
    → SettlesBoth c d e f m ((answer c >>= λ _. answer d) t)
both-Settles c d e f m t rc rd n le lf h =
    let (m1, p, (u, x, eu, hu)) = serve-Settles c.env c.topic c.from rc c.req m 1 t e le h in
    let lf' : lookup (named d.req) m1 ≡ stored f =
      Put-other (named c.req) (named d.req) (after c e) m m1 p n ∙ lf in
    let (m2, q, (v, y, ev, hv)) = serve-Settles d.env d.topic d.from rd d.req m1 0 u f lf' hu in
    (m1, m2, p, q, (v, y, rw eu ev, hv))

-- On a testRaft that holds a map and has room for two changes, at clocks in range: two requests
-- for jobs with different ids, whose entries are no nil pointers, can be served in either order.
-- Both orders come back, and leave the same table of entries, whether a request is granted or
-- refused.
pub answer_comm :
    (c d : Call) (e f : Option Job) (m : Jobs) (t : Server TestRaft)
    → InRange c.env.now
    → InRange d.env.now
    → named c.req ≢ named d.req
    → lookup (named c.req) m ≡ stored e
    → lookup (named d.req) m ≡ stored f
    → t.raft.s ≡ some (record { jobs = some m })
    → t.raft.pending + 2 ≤ 5
    → Succeeds
        (λ u _. Succeeds (λ v _. table_of u ≡ table_of v) ((answer d >>= λ _. answer c) t))
        ((answer c >>= λ _. answer d) t)
answer_comm c d e f m t rc rd n le lf hs hr =
    let h : Holds m 2 t = record { state = hs; room = hr } in
    let (m1, m12, p, q, (u, x, eu, hu)) = both-Settles c d e f m t rc rd n le lf h in
    let (m2, m21, r, s, (v, y, ev, hv)) = both-Settles d c f e m t rd rc (λ z. n (sym z)) lf le h in
    let same : ◌≡◌ {A = Table} (Quot.mk m12) (Quot.mk m21) =
      Quot.sound
        (Put-comm (named c.req) (named d.req) (after c e) (after d f) m m1 m2 m12 m21 n p q r s) in
    (u, x, eu, (v, y, ev, ap table_in hu.state ∙ ap some same ∙ sym (ap table_in hv.state)))
