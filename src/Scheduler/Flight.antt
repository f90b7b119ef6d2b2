-- ===== src/Scheduler/Flight.antt =====
-- Single flight: what holds of the gate after any moves of any goroutines.
use redrill.Prelude.{
  ℕ, zero, suc, ◌+◌, ◌≤◌, ◌≡◌, refl, sym, ap, ◌∙◌, String, Bool, true, false, not, ◌&&◌, some, List,
  [], ◌∷◌, map, eq_iff, ltb, ◌==◌, length, arith, Option-cases, Bool-cases, inl, inr,
}
use redrill.Prelude.Int.{ℤ, pos, negsuc}
use redrill.Scheduler.Gate.{
  new_gate, is_inflight, delete, try_acquire, Claim, System, find, drop_claim, drop_ticket,
  has_ticket, Move, acquire, release, free, move, moves, idle,
}

-- The drills of claims, and names with no repetition.
abbrev pub drills : List Claim → List String
drills = map (λ c. c.drill)

abbrev pub distinct : List String → Bool
distinct [] = true
distinct (d ∷ ds) = not (is_inflight d ds) && distinct ds

-- The in-flight set names the running drills, none twice; each running or leaving run has one
-- token, and there are no more tokens than slots.
pub record InFlight (slots : ℕ) (s : System) : Type 0 where
  pub fixed : s.gate.cap ≡ slots
  pub named : s.gate.inflight ≡ drills s.running
  pub once : distinct (drills s.running) ≡ true
  pub tokens : s.gate.sem ≡ length s.running + length s.leaving
  pub bounded : s.gate.sem ≤ slots

delete-fresh : (d : String) (ds : List String) → is_inflight d ds ≡ false → delete d ds ≡ ds
delete-fresh d [] e = refl
delete-fresh d (x ∷ ds) e = ground (arith, delete-fresh d ds)

find-inflight :
    (t : ℕ) (cs : List Claim) {c : Claim}
    → find t cs ≡ some c
    → is_inflight c.drill (drills cs) ≡ true
find-inflight t [] e = ground arith
find-inflight t (x ∷ cs) {c} e = ground (
  arith,
  λ (h : find t cs ≡ some c). find-inflight t cs h,
  eq_iff c.drill c.drill,
  eq_iff x.drill c.drill,
)

inflight-drop_claim :
    (d : String) (t : ℕ) (cs : List Claim)
    → is_inflight d (drills cs) ≡ false
    → is_inflight d (drills (drop_claim t cs)) ≡ false
inflight-drop_claim d t [] e = refl
inflight-drop_claim d t (x ∷ cs) e = ground (arith, inflight-drop_claim d t cs)

distinct-drop_claim :
    (t : ℕ) (cs : List Claim)
    → distinct (drills cs) ≡ true
    → distinct (drills (drop_claim t cs)) ≡ true
distinct-drop_claim t [] e = refl
distinct-drop_claim t (x ∷ cs) e =
    ground (arith, distinct-drop_claim t cs, inflight-drop_claim x.drill t cs)

drills-drop_claim :
    (t : ℕ) (cs : List Claim) {c : Claim}
    → distinct (drills cs) ≡ true
    → find t cs ≡ some c
    → drills (drop_claim t cs) ≡ delete c.drill (drills cs)
drills-drop_claim t [] d e = ground arith
drills-drop_claim t (x ∷ cs) {c} d e = elim (Bool-cases (x.ticket == t)) [
  | inl h ↦ ground (arith, delete-fresh c.drill (drills cs), eq_iff x.drill c.drill)
  | inr h ↦
      let there : find t cs ≡ some c = ground arith in
      let rest : distinct (drills cs) ≡ true = ground arith in
      ground
        (arith, drills-drop_claim t cs rest there, find-inflight t cs there, eq_iff x.drill c.drill)
]

length-drop_claim :
    (t : ℕ) (cs : List Claim) {c : Claim}
    → find t cs ≡ some c
    → suc (length (drop_claim t cs)) ≡ length cs
length-drop_claim t [] e = ground arith
length-drop_claim t (x ∷ cs) {c} e =
    ground (arith, λ (h : find t cs ≡ some c). length-drop_claim t cs h)

length-drop_ticket :
    (t : ℕ) (ts : List ℕ) → has_ticket t ts ≡ true → suc (length (drop_ticket t ts)) ≡ length ts
length-drop_ticket t [] e = ground arith
length-drop_ticket t (x ∷ ts) e = ground (arith, length-drop_ticket t ts)

acquire-InFlight :
    (slots : ℕ) (d : String) (s : System) → InFlight slots s → InFlight slots (move (acquire d) s)
unfolding move try_acquire
acquire-InFlight slots d s v =
    let a = v.fixed in
    let b = v.named in
    let c = v.once in
    let e = v.tokens in
    let g = v.bounded in
    record {
      fixed = ground arith;
      named = ground arith;
      once = ground arith;
      tokens = ground arith;
      bounded = ground arith;
    }

release-InFlight :
    (slots t : ℕ) (s : System) → InFlight slots s → InFlight slots (move (release t) s)
unfolding move
release-InFlight slots t s v = elim (Option-cases (find t s.running)) [
  | inl e ↦ rw (e, move) v
  | inr (c, e) ↦
      rw (e, move)
        (record {
          fixed = v.fixed;
          named = ap (delete c.drill) v.named ∙ sym (drills-drop_claim t s.running v.once e);
          once = distinct-drop_claim t s.running v.once;
          tokens = omega (arith, v.tokens, length-drop_claim t s.running e);
          bounded = v.bounded;
        })
]

free-InFlight : (slots t : ℕ) (s : System) → InFlight slots s → InFlight slots (move (free t) s)
unfolding move
free-InFlight slots t s v = elim (Bool-cases (has_ticket t s.leaving && ltb 0 s.gate.sem)) [
  | inr e ↦ rw (e, move) v
  | inl e ↦
      rw (e, move)
        (record {
          fixed = v.fixed;
          named = v.named;
          once = v.once;
          tokens = ground (arith, v.tokens, length-drop_ticket t s.leaving);
          bounded = ground (arith, v.bounded);
        })
]

pub moves-InFlight :
    (slots : ℕ) (ms : List Move) (s : System) → InFlight slots s → InFlight slots (moves ms s)
unfolding moves
moves-InFlight slots [] s v = v
moves-InFlight slots (acquire d ∷ ms) s v =
    moves-InFlight slots ms (move (acquire d) s) (acquire-InFlight slots d s v)
moves-InFlight slots (release t ∷ ms) s v =
    moves-InFlight slots ms (move (release t) s) (release-InFlight slots t s v)
moves-InFlight slots (free t ∷ ms) s v =
    moves-InFlight slots ms (move (free t) s) (free-InFlight slots t s v)

-- The slots that a concurrency asks for: that many, and at least one.
abbrev pub slots_for : ℤ → ℕ
slots_for (pos zero) = 1
slots_for (pos (suc n)) = suc n
slots_for (negsuc n) = 1

new_gate-cap : (concurrency : ℤ) → (new_gate concurrency).cap ≡ slots_for concurrency
unfolding new_gate
new_gate-cap (pos zero) = refl
new_gate-cap (pos (suc n)) = ground arith
new_gate-cap (negsuc n) = ground arith

new_gate-InFlight :
    (concurrency : ℤ) → InFlight (slots_for concurrency) (idle (new_gate concurrency))
unfolding new_gate
new_gate-InFlight concurrency = record {
  fixed = new_gate-cap concurrency;
  named = refl;
  once = refl;
  tokens = refl;
  bounded = omega arith;
}

-- However acquisitions and the two halves of releases interleave from a new gate, no drill runs
-- twice at once, the runs that hold or are giving back a slot are together at most the concurrency
-- (at least one), and the in-flight set is exactly the running drills.
pub single_flight :
    (concurrency : ℤ) (ms : List Move)
    → let s = moves ms (idle (new_gate concurrency)) in
      (distinct (drills s.running) ≡ true)
      × (length s.running + length s.leaving ≤ slots_for concurrency)
      × (s.gate.inflight ≡ drills s.running)
single_flight concurrency ms =
    let v =
      moves-InFlight (slots_for concurrency) ms (idle (new_gate concurrency))
        (new_gate-InFlight concurrency) in
    (v.once, omega (arith, v.tokens, v.bounded), v.named)

-- After any moves from a new gate, a run between the two halves of its release gets its token
-- without waiting, and a drill is refused only if it runs or every slot (the concurrency, at least
-- one) is taken; otherwise it runs.
pub gate-NotStuck :
    (concurrency : ℤ) (ms : List Move) (t : ℕ) (d : String)
    → let s = moves ms (idle (new_gate concurrency)) in
      (has_ticket t s.leaving ≡ true → suc (length (move (free t) s).leaving) ≡ length s.leaving)
      × ((try_acquire d s.gate).0 ≡ (
          not (is_inflight d (drills s.running))
          && ltb (length s.running + length s.leaving) (slots_for concurrency)))
unfolding move try_acquire
gate-NotStuck concurrency ms t d =
    let s = moves ms (idle (new_gate concurrency)) in
    let v =
      moves-InFlight (slots_for concurrency) ms (idle (new_gate concurrency))
        (new_gate-InFlight concurrency) in
    (
      (λ h. ground (arith, v.tokens, length-drop_ticket t s.leaving h)),
      ground (arith, v.tokens, v.named, v.fixed),
    )
