-- ===== src/Limiter/Atomics/Races.antt =====
-- A race that the breaker's atomic operations allow (backend/internal/limiter/limiter.go).
use vegait.Prelude.{ℕ, ◌+◌, ◌^◌, ◌≤◌, ◌<◌, ◌≡◌, refl, true, false, [], ◌∷◌, arith}
use vegait.Limiter.Manager.{add_int32, ge_int32}
use vegait.Limiter.Atomics.{
  starting, asking, failing, counted, electing, pinging, clearing, done, advance, System, turn,
  arrives, Reach, here, next,
}

-- An open breaker with a count of failures, and its recovery goroutine.
abbrev pub open_with : ℕ → System
open_with fails = record {
  shared = record { redis_healthy = 0; consec_failures = fails; max_failures = 3 };
  routines = pinging ∷ [];
}

-- The recovery stores the flag before it clears the count, and one request fails in between: the
-- breaker is open again, with a second recovery goroutine, and the count will be cleared under it.
abbrev pub reopened : ℕ → System
reopened fails = record {
  shared = record { redis_healthy = 0; consec_failures = fails; max_failures = 3 };
  routines = clearing ∷ done ∷ pinging ∷ [];
}

enough : (fails : ℕ) → 2 ≤ fails → fails + 1 < 2 ^ 31 → ge_int32 (add_int32 fails 1) 3 ≡ true
enough fails h k = ground arith

same : (fails : ℕ) → fails + 1 < 2 ^ 31 → add_int32 fails 1 ≡ fails + 1
same fails k = omega arith

-- One failure is enough to open the breaker again after a recovery, where three in a row are meant to
-- be: from an open breaker that has counted at least two failures there are steps in which Redis answers
-- the ping, then fails one request, and no other request is made, and after which the breaker is
-- open again.
pub open_with-reopened :
    (fails : ℕ) → 2 ≤ fails → fails + 1 < 2 ^ 31 → Reach (open_with fails) (reopened (fails + 1))
unfolding advance
open_with-reopened fails h k =
    next
      (next
        (next
          (next
            (next (next (next here (turn [] [] pinging true refl refl)) (arrives refl))
              (turn (clearing ∷ []) [] starting true refl refl))
            (turn (clearing ∷ []) [] asking false refl refl))
          (turn (clearing ∷ []) [] failing true refl refl))
        (turn (clearing ∷ []) [] (counted (add_int32 fails 1)) true refl refl))
      (turn (clearing ∷ []) [] (electing (add_int32 fails 1)) true (rw (enough fails h k) refl)
        (rw (same fails k) refl))
