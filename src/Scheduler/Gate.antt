-- ===== src/Scheduler/Gate.antt =====
-- internal/scheduler/scheduler.go: Gate, NewGate, TryAcquire and the release it returns.
-- A release has two halves: the drill leaves the in-flight set under the lock, and afterwards its
-- slot is received from the channel. Other goroutines may move between the halves, so they are two
-- moves of the system; `sync.Once` makes a second call of one release do nothing.
use redrill.Prelude.{
  ℕ, suc, ◌-◌, String, Bool, true, false, not, ◌&&◌, ◌||◌, Option, none, some, List, [], ◌∷◌,
  str_eq, ltb, ◌==◌, if◌then◌else◌, select, first,
}
use redrill.Prelude.Int.{ℤ, pos, ltb_ℤ, pos_part}

-- Gate: `sem` is the number of tokens in the channel, `cap` its capacity.
pub record Gate : Type 0 where
  pub cap : ℕ
  pub sem : ℕ
  pub inflight : List String

-- NewGate
unfoldable pub new_gate : ℤ → Gate
new_gate concurrency = record {
  cap = if ltb_ℤ concurrency (pos 1) then 1 else pos_part concurrency;
  sem = 0;
  inflight = [];
}

-- g.inflight[drill]
abbrev pub is_inflight : String → List String → Bool
is_inflight drill [] = false
is_inflight drill (d ∷ ds) = str_eq d drill || is_inflight drill ds

-- delete(g.inflight, drill)
abbrev pub delete : String → List String → List String
delete drill = select (λ d. not (str_eq d drill))

-- TryAcquire: the gate after it, and whether the drill may run
unfoldable pub try_acquire : String → Gate → Bool × Gate
try_acquire drill g =
    if is_inflight drill g.inflight
    then (false, g)
    else if ltb g.sem g.cap
    then (true, record g { sem = suc g.sem; inflight = drill ∷ g.inflight })
    else (false, g)

-- A run that holds the gate, by the number of its acquisition.
pub record Claim : Type 0 where
  pub ticket : ℕ
  pub drill : String

-- The gate with its holders: `running` have not begun their release, `leaving` are between its
-- halves.
pub record System : Type 0 where
  pub gate : Gate
  pub running : List Claim
  pub leaving : List ℕ
  pub next : ℕ

abbrev pub find : ℕ → List Claim → Option Claim
find t = first (λ c. c.ticket == t)

-- The first claim with a ticket, or the first such number, is taken out.
abbrev pub drop_claim : ℕ → List Claim → List Claim
drop_claim t [] = []
drop_claim t (c ∷ cs) = if c.ticket == t then cs else c ∷ drop_claim t cs

abbrev pub drop_ticket : ℕ → List ℕ → List ℕ
drop_ticket t [] = []
drop_ticket t (x ∷ xs) = if x == t then xs else x ∷ drop_ticket t xs

abbrev pub has_ticket : ℕ → List ℕ → Bool
has_ticket t [] = false
has_ticket t (x ∷ xs) = x == t || has_ticket t xs

-- What a goroutine may do.
pub data Move : Type 0 where
  acquire : String → Move
  release free : ℕ → Move

-- The second half receives a token, which waits while there is none.
unfoldable pub move : Move → System → System
unfolding try_acquire
move (acquire drill) s =
    let (got, g) = try_acquire drill s.gate in
    if got
    then record s {
      gate = g;
      running = record { ticket = s.next; drill = drill } ∷ s.running;
      next = suc s.next;
    }
    else s
move (release t) s = elim (find t s.running) [
  | none ↦ s
  | some c ↦ record s {
    gate = record (s.gate) { inflight = delete c.drill s.gate.inflight };
    running = drop_claim t s.running;
    leaving = t ∷ s.leaving;
  }
]
move (free t) s =
    if has_ticket t s.leaving && ltb 0 s.gate.sem
    then record s {
      gate = record (s.gate) { sem = s.gate.sem - 1 };
      leaving = drop_ticket t s.leaving;
    }
    else s

unfoldable pub moves : List Move → System → System
moves [] s = s
moves (m ∷ ms) s = moves ms (move m s)

abbrev pub idle : Gate → System
idle g = record { gate = g; running = []; leaving = []; next = 0 }
