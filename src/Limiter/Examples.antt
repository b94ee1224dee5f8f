-- ===== src/Limiter/Examples.antt =====
-- The theorems about backend/internal/limiter/limiter.go at concrete inputs, over the small Redis of
-- Redis/Reference and a token bucket that never refills.
use vegait.Prelude.{
  ℕ, ◌+◌, ◌-◌, ◌*◌, ◌≤◌, ◌≡◌, refl, true, false, List, [], ◌∷◌, none, some, String, arith, ltb, pos,
  pos_part, keep, count, All,
}
use Prim.Native.Nat.{min}
use vegait.Limiter.Redis.Reference.{reference, reference-RedisLaws, empty_store}
use vegait.Limiter.Script.{Call, ceil_seconds, sliding_window, run}
use vegait.Limiter.Script.Log.{log_run, admitted_times, answer_for, is_for}
use vegait.Limiter.Script.Bound.{within}
use vegait.Limiter.Script.Cluster.{SameSettings, DistinctMembers, run-eq-log_run, run-le-limit}
use vegait.Limiter.Manager.{RateLib, new, is_redis_healthy, load}
use vegait.Limiter.Allow.{World, delivered, unsent}
use vegait.Limiter.Allow.Breaker.{
  IsSound, forced_failure, recovery, cleanup, run_events, new-IsSound, run_events-IsSound,
}
use vegait.Limiter.Allow.Outage.{Request, allow_all, outage-allow_all}
use vegait.Limiter.Allow.Fallback.{RateLaws, allow_all-fallback_serves, allow_all-fallback_caps}
use vegait.Limiter.Allow.Sequence.{granted_times, allow_all-le-limit}

-- Three calls of client a and one of client b, two a second allowed.
abbrev call : String → ℕ → ℕ → Call
call key now seq = record {
  key = key;
  at = now + 3;
  now = now;
  window_ms = pos 1000;
  limit = pos 2;
  member = seq ∷ [];
}

abbrev calls : List Call
calls =
    call "limiter:a" 5000 1
    ∷ call "limiter:b" 5001 2
    ∷ call "limiter:a" 5002 3
    ∷ call "limiter:a" 5999 4
    ∷ call "limiter:a" 6000 5
    ∷ []

calls_answers :
    admitted_times (keep (answer_for "limiter:a") (run reference calls empty_store))
    ≡ 5000 ∷ 5002 ∷ 6000 ∷ []
unfolding run sliding_window ceil_seconds
calls_answers = refl

calls-SameSettings : SameSettings "limiter:a" 1000 (pos 2) calls
calls-SameSettings = ground arith

calls-DistinctMembers : DistinctMembers calls
calls-DistinctMembers = ground arith

run-eq-log_run_example :
    keep (answer_for "limiter:a") (run reference calls empty_store)
    ≡ log_run 1000 (pos 2) [] (keep (is_for "limiter:a") calls)
run-eq-log_run_example =
    run-eq-log_run reference reference-RedisLaws "limiter:a" 1000 (pos 2) 5003 5000 calls
      empty_store (λ now. refl) (omega arith) calls-SameSettings calls-DistinctMembers

run-le-limit_example :
    count
      (within 1000 6001)
      (admitted_times (keep (answer_for "limiter:a") (run reference calls empty_store)))
    ≤ 2
run-le-limit_example =
    run-le-limit reference reference-RedisLaws "limiter:a" 1000 (pos 2) 5003 5000 6001 calls
      empty_store (λ now. refl) (omega arith) calls-SameSettings calls-DistinctMembers

-- A bucket is its tokens.
abbrev pub bucket : RateLib
bucket = record {
  Limit = Unit {0};
  Limiter = ℕ;
  quotient = λ limit window. tt;
  new_limiter = λ now q burst. pos_part burst;
  allow = λ now l. (l - 1, ltb 0 l);
}

abbrev bucket_laws : RateLaws bucket
bucket_laws = record {
  IsUsual = λ l. Unit;
  tokens = λ now l. l;
  new_usual = λ now b window some fits small. (tt, refl);
  refills = λ now later l u h. omega arith;
  allow_usual = λ now l u. tt;
  allow_decides = λ now l u. refl;
  allow_takes = λ now l u. refl;
}

abbrev up : World reference bucket
up = record { manager = new (some "5f2a"); store = empty_store }

-- The same with an open breaker.
abbrev down : World reference bucket
down = record up { manager = record (new (some "5f2a")) { redis_healthy = 0; checks = 1 } }

abbrev pub arriving : ℕ → Request
arriving ms = record {
  net = record {
    now_ns = ms * 1_000_000;
    redis_ms = ms + 3;
    first = delivered;
    second = delivered;
  };
  client = "a";
  limit = pos 2;
  window_seconds = pos 10;
}

abbrev cut_off : ℕ → Request
cut_off ms = record (arriving ms) {
  net = record {
    now_ns = ms * 1_000_000;
    redis_ms = ms + 3;
    first = unsent "timeout";
    second = unsent "timeout";
  };
}

abbrev three : (ℕ → Request) → List Request
three q = q 7000 ∷ q 7001 ∷ q 7002 ∷ []

abbrev at_once : List Request
at_once = cut_off 7000 ∷ cut_off 7000 ∷ cut_off 7000 ∷ []

run_events-IsSound_example :
    IsSound
      (run_events reference bucket up (
        forced_failure
        ∷ forced_failure
        ∷ forced_failure
        ∷ recovery false none
        ∷ recovery true none
        ∷ cleanup 9
        ∷ [])).manager
run_events-IsSound_example =
    run_events-IsSound reference bucket up
      (forced_failure
        ∷ forced_failure
        ∷ forced_failure
        ∷ recovery false none
        ∷ recovery true none
        ∷ cleanup 9
        ∷ [])
      (new-IsSound (some "5f2a"))

outage-allow_all_example :
    let w' = (allow_all reference bucket (three cut_off) up).0 in
    (w'.store ≡ up.store)
    × (is_redis_healthy w'.manager ≡ ltb (up.manager.consec_failures + 3) 3)
    × (w'.manager.member_seq ≡ up.manager.member_seq + min 3 (3 - up.manager.consec_failures))
unfolding new
outage-allow_all_example =
    outage-allow_all reference bucket (three cut_off) up
      ((
        (("timeout", refl), ("timeout", refl)),
        ((("timeout", refl), ("timeout", refl)), ((("timeout", refl), ("timeout", refl)), tt)),
      ))
      (new-IsSound (some "5f2a")) refl (omega arith)

allow_all-fallback_serves_example :
    All (λ a. a ≡ true) (allow_all reference bucket (cut_off 7000 ∷ cut_off 7001 ∷ []) down).1
unfolding new is_redis_healthy load
allow_all-fallback_serves_example =
    allow_all-fallback_serves bucket bucket_laws "a" 2 10 (omega arith) (omega arith) (omega arith)
      reference 0 (cut_off 7000 ∷ cut_off 7001 ∷ []) down (ground arith) refl refl (omega arith)

allow_all-fallback_caps_example :
    count (λ a. a) (allow_all reference bucket at_once down).1 ≡ min 3 2
unfolding new is_redis_healthy load
allow_all-fallback_caps_example =
    allow_all-fallback_caps bucket bucket_laws "a" 2 10 (omega arith) (omega arith) (omega arith)
      reference 7_000_000_000 at_once down (ground arith) refl refl

allow_all-le-limit_example :
    count
      (within 10000 7002)
      (granted_times "a" (three arriving) (allow_all reference bucket (three arriving) up).1)
    ≤ 2
unfolding new is_redis_healthy
allow_all-le-limit_example =
    allow_all-le-limit reference bucket reference-RedisLaws "a" (pos 2) 10 3 0 7002 (three arriving)
      up (λ now. refl) refl (refl, (refl, (refl, tt))) (omega arith) (ground arith) (omega arith)
      (omega arith)
