-- ===== src/Limiter/Atomics/Soundness.antt =====
-- What every interleaving of the breaker's atomic operations keeps
-- (backend/internal/limiter/limiter.go).
use vegait.Prelude.{
  ℕ, ◌+◌, ◌≤◌, ◌<◌, ◌≡◌, refl, ◌∙◌, ap, Bool, true, false, List, [], ◌∷◌, ◌++◌, count, count-append,
  arith, if◌then◌else◌,
}
use vegait.Limiter.Atomics.{
  Shared, Routine, starting, asking, answered, failing, counted, electing, pinging, clearing, done,
  advance, System, turned, Step, turn, arrives, forces, Reach, here, next, initial,
}

-- A recovery goroutine that will ping.
abbrev pub is_pinging : Routine → Bool
is_pinging pinging = true
is_pinging _ = false

-- The breaker is closed and nobody pings, or it is open and exactly one goroutine pings.
pub record IsSound (s : System) : Type 0 where
  pub one_pings : s.shared.redis_healthy + count is_pinging s.routines ≡ 1

-- The weight of one goroutine.
abbrev weight : Routine → ℕ
weight p = if is_pinging p then 1 else 0

advance-weight :
    (answers : Bool) (sh : Shared) (p : Routine)
    → sh.redis_healthy + weight p ≤ 1
    → let (sh', p', started) = advance answers sh p in
      sh'.redis_healthy + weight p' + count is_pinging started ≡ sh.redis_healthy + weight p
unfolding advance
advance-weight answers sh starting h = ground arith
advance-weight true sh asking h = ground arith
advance-weight false sh asking h = ground arith
advance-weight answers sh answered h = ground arith
advance-weight answers sh failing h = ground arith
advance-weight answers sh (counted fails) h = ground arith
advance-weight answers sh (electing fails) h = ground arith
advance-weight true sh pinging h = ground arith
advance-weight false sh pinging h = ground arith
advance-weight answers sh clearing h = ground arith
advance-weight answers sh done h = ground arith

count-turned :
    (before after : List Routine) (o : Shared × Routine × List Routine)
    → count is_pinging (turned before after o).routines
      ≡ count is_pinging before + weight o.1 + count is_pinging after + count is_pinging o.2
count-turned before after (sh, p, started) = omega (
  arith,
  count-append is_pinging (before ++ p ∷ after) started,
  count-append is_pinging before (p ∷ after),
)

Step-IsSound : {s t : System} → Step s t → IsSound s → IsSound t
Step-IsSound {s} {t} (turn before after p answers at e) v =
    let total = ap (count is_pinging) at ∙ count-append is_pinging before (p ∷ after) in
    let own = advance-weight answers s.shared p (omega (arith, total, v.one_pings)) in
    let new = count-turned before after (advance answers s.shared p) in
    record { one_pings = rw e (omega (arith, total, own, new, v.one_pings)) }
Step-IsSound {s} {t} (arrives e) v = record {
  one_pings = rw e (omega (arith, count-append is_pinging s.routines (starting ∷ []), v.one_pings));
}
Step-IsSound {s} {t} (forces e) v = record {
  one_pings = rw e (omega (arith, count-append is_pinging s.routines (failing ∷ []), v.one_pings));
}

-- Whatever the goroutines' interleaving, from a fresh manager on: the flag is 0 or 1, and the breaker is
-- open exactly while one recovery goroutine pings Redis. No race leaves it open with nobody to close
-- it, or starts a second one.
pub Reach-IsSound : {s : System} → Reach initial s → IsSound s
unfolding initial
Reach-IsSound here = record { one_pings = refl }
Reach-IsSound (next r st) = Step-IsSound st (Reach-IsSound r)

-- A recovery goroutine of the list, with what stands before and after it.
later :
    (p : Routine) {ps : List Routine}
    → (before : List Routine) × (after : List Routine) × (ps ≡ before ++ pinging ∷ after)
    → (before : List Routine) × (after : List Routine) × (p ∷ ps ≡ before ++ pinging ∷ after)
later p (before, after, at) = (p ∷ before, after, ap (◌∷◌ p) at)

found :
    (ps : List Routine)
    → 0 < count is_pinging ps
    → (before : List Routine) × (after : List Routine) × (ps ≡ before ++ pinging ∷ after)
found [] h = absurd (omega arith)
found (pinging ∷ ps) h = ([], ps, refl)
found (starting ∷ ps) h = later starting (found ps (omega arith))
found (asking ∷ ps) h = later asking (found ps (omega arith))
found (answered ∷ ps) h = later answered (found ps (omega arith))
found (failing ∷ ps) h = later failing (found ps (omega arith))
found (counted n ∷ ps) h = later (counted n) (found ps (omega arith))
found (electing n ∷ ps) h = later (electing n) (found ps (omega arith))
found (clearing ∷ ps) h = later clearing (found ps (omega arith))
found (done ∷ ps) h = later done (found ps (omega arith))

-- From every state that a fresh manager comes to in which the breaker is open, one step closes it: the
-- next ping that Redis answers. The flag is not 1 there.
pub Reach-closes :
    {s : System}
    → Reach initial s
    → s.shared.redis_healthy ≡ 0
    → (t : System) × Step s t × (t.shared.redis_healthy ≡ 1)
unfolding advance
Reach-closes {s} r opened =
    let (before, after, at) = found s.routines (omega (arith, (Reach-IsSound r).one_pings)) in
    (
      turned before after (advance true s.shared pinging),
      turn before after pinging true at refl,
      refl,
    )
