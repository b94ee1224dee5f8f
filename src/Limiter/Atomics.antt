-- ===== src/Limiter/Atomics.antt =====
-- The circuit breaker of backend/internal/limiter/limiter.go at the grain of its atomic operations: each
-- step is one load, store, add or compare-and-swap of one goroutine, or the end of one call of Redis, and
-- the goroutines take their steps in any order.
pub mod Soundness
pub mod Races
pub mod Examples
use vegait.Prelude.{ℕ, Bool, true, false, ◌&&◌, List, [], ◌∷◌, ◌++◌, ◌==◌, ◌≡◌, if◌then◌else◌}
use vegait.Limiter.Manager.{add_int32, ge_int32}

-- The int32 words that all goroutines share, and the constant maxFailures.
pub record Shared : Type 0 where
  pub redis_healthy : ℕ
  pub consec_failures : ℕ
  pub max_failures : ℕ

-- Where a goroutine is. In Allow: before it reads the flag, in its call of Redis, and before it stores 0
-- in the failures. In handleRedisFailure: before the add, with what the add gave, and before the
-- compare-and-swap. In the recovery: before a ping, and after the flag is stored. Or it has returned,
-- or goes on with the local limiter.
pub data Routine : Type 0 where
  starting asking answered failing : Routine
  counted electing : ℕ → Routine
  pinging clearing done : Routine

-- One step of a goroutine, where Redis answers or not: the words, the goroutine, and those it starts.
unfoldable pub advance : Bool → Shared → Routine → Shared × Routine × List Routine
advance ok sh starting = (sh, (if sh.redis_healthy == 1 then asking else done), [])
advance true sh asking = (sh, answered, [])
advance false sh asking = (sh, failing, [])
advance ok sh answered = (record sh { consec_failures = 0 }, done, [])
advance ok sh failing =
    let fails = add_int32 sh.consec_failures 1 in
    (record sh { consec_failures = fails }, counted fails, [])
advance ok sh (counted fails) = (
  sh,
  (if ge_int32 fails sh.max_failures && sh.redis_healthy == 1 then electing fails else done),
  [],
)
advance ok sh (electing fails) =
    if sh.redis_healthy == 1
    then (record sh { redis_healthy = 0 }, done, pinging ∷ [])
    else (sh, done, [])
advance true sh pinging = (record sh { redis_healthy = 1 }, clearing, [])
advance false sh pinging = (sh, pinging, [])
advance ok sh clearing = (record sh { consec_failures = 0 }, done, [])
advance ok sh done = (sh, done, [])

pub record System : Type 0 where
  pub shared : Shared
  pub routines : List Routine

-- A step of the goroutine between `before` and `after`.
abbrev pub turned : List Routine → List Routine → Shared × Routine × List Routine → System
turned before after (sh, p, started) = record {
  shared = sh;
  routines = before ++ p ∷ after ++ started;
}

-- A goroutine takes a step; a request comes; a test calls HandleRedisFailure.
pub data Step (s t : System) : Type 0 where
  turn :
      (before after : List Routine) (p : Routine) (answers : Bool)
      → s.routines ≡ before ++ p ∷ after
      → t ≡ turned before after (advance answers s.shared p)
      → Step s t
  arrives : t ≡ record s { routines = s.routines ++ starting ∷ [] } → Step s t
  forces : t ≡ record s { routines = s.routines ++ failing ∷ [] } → Step s t

pub data Reach (s : System) : System → Type 0 where
  here : Reach s s
  next : {t u : System} → Reach s t → Step t u → Reach s u

-- After New, before any request.
unfoldable pub initial : System
initial = record {
  shared = record { redis_healthy = 1; consec_failures = 0; max_failures = 3 };
  routines = [];
}
