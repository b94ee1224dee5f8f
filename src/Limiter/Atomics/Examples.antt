-- ===== src/Limiter/Atomics/Examples.antt =====
-- The theorems about the atomic operations of backend/internal/limiter/limiter.go at concrete inputs.
use vegait.Prelude.{ℕ, ◌≡◌, refl, true, List, [], ◌∷◌, arith}
use vegait.Limiter.Manager.{Manager}
use vegait.Limiter.Atomics.{
  Shared, Routine, failing, counted, electing, pinging, done, advance, System, Step, turn, forces,
  Reach, here, next, initial,
}
use vegait.Limiter.Atomics.Soundness.{IsSound, Reach-IsSound, Reach-closes}
use vegait.Limiter.Atomics.Races.{open_with, reopened, open_with-reopened}

abbrev words : ℕ → ℕ → Shared
words healthy fails = record { redis_healthy = healthy; consec_failures = fails; max_failures = 3 }

abbrev at : ℕ → ℕ → List Routine → System
at healthy fails ps = record { shared = words healthy fails; routines = ps }

-- Four failures counted at once, all before the first compare-and-swap.
abbrev race : System
race = at 1 4 (counted 1 ∷ counted 2 ∷ electing 3 ∷ electing 4 ∷ [])

race-Reach : Reach initial race
unfolding initial advance
race-Reach =
    let fs =
      next (next (next (next here (forces refl)) (forces refl)) (forces refl)) (forces refl) in
    let c1 = next fs (turn [] (failing ∷ failing ∷ failing ∷ []) failing true refl refl) in
    let c2 = next c1 (turn (counted 1 ∷ []) (failing ∷ failing ∷ []) failing true refl refl) in
    let c3 = next c2 (turn (counted 1 ∷ counted 2 ∷ []) (failing ∷ []) failing true refl refl) in
    let c4 = next c3 (turn (counted 1 ∷ counted 2 ∷ counted 3 ∷ []) [] failing true refl refl) in
    let e3 =
      next c4 (turn (counted 1 ∷ counted 2 ∷ []) (counted 4 ∷ []) (counted 3) true refl refl) in
    next e3 (turn (counted 1 ∷ counted 2 ∷ electing 3 ∷ []) [] (counted 4) true refl refl)

-- The last failure wins the compare-and-swap, and the third one loses it.
abbrev race_over : System
race_over = at 0 4 (counted 1 ∷ counted 2 ∷ done ∷ done ∷ pinging ∷ [])

race_over-Reach : Reach initial race_over
unfolding advance
race_over-Reach =
    next
      (next race-Reach
        (turn (counted 1 ∷ counted 2 ∷ electing 3 ∷ []) [] (electing 4) true refl refl))
      (turn (counted 1 ∷ counted 2 ∷ []) (done ∷ pinging ∷ []) (electing 3) true refl refl)

Reach-IsSound_example : IsSound race_over
Reach-IsSound_example = Reach-IsSound race_over-Reach

Reach-closes_example : (t : System) × Step race_over t × (t.shared.redis_healthy ≡ 1)
Reach-closes_example = Reach-closes race_over-Reach refl

abbrev third : Manager (List ℕ)
third = record {
  lua_sha = "f00d";
  redis_healthy = 1;
  consec_failures = 2;
  member_seq = 7;
  local_limiters = [];
  max_failures = 3;
  checks = 0;
}

open_with-reopened_example : Reach (open_with 3) (reopened 4)
open_with-reopened_example = open_with-reopened 3 (omega arith) (omega arith)
