-- ===== src/Limiter/Allow/Breaker.antt =====
-- The circuit breaker of backend/internal/limiter/limiter.go: what Allow, HandleRedisFailure and the
-- two background goroutines keep of a Manager, and what an outage of Redis does.
use vegait.Prelude.{
  ℕ, ◌+◌, ◌<◌, ◌≡◌, Bool, true, false, inl, inr, List, [], ◌∷◌, Option, String, arith, ◌==◌, ℤ,
  Bool-cases, if◌then◌else◌,
}
use vegait.Limiter.Redis.{Redis}
use vegait.Limiter.Manager.{
  Manager, RateLib, new, is_redis_healthy, handle_redis_failure, recovery_tick, cleanup_tick,
  allow_local,
}
use vegait.Limiter.Allow.{World, Net, Result, ok, err, allow_redis, after_redis, allow}

-- The flag is 0 or 1, the breaker is open exactly while one recovery goroutine runs, and closed only
-- below the limit of failures.
pub record IsSound {L : Type 0} (m : Manager L) : Type 0 where
  pub one_check : m.checks + m.redis_healthy ≡ 1
  pub limit : m.max_failures ≡ 3
  pub below : m.redis_healthy ≡ 1 → m.consec_failures < 3

module _ {L : Type 0} where
  pub new-IsSound : (sha : Option String) → IsSound {L = L} (new sha)
  unfolding new
  new-IsSound sha = ground arith

  pub handle_redis_failure-IsSound : (m : Manager L) → IsSound m → IsSound (handle_redis_failure m)
  unfolding handle_redis_failure
  handle_redis_failure-IsSound m v = ground arith

  pub recovery_tick-IsSound :
      (ping : Bool) (sha : Option String) (m : Manager L)
      → 0 < m.checks
      → IsSound m
      → IsSound (recovery_tick ping sha m).0
  unfolding recovery_tick
  recovery_tick-IsSound false sha m h v = v
  recovery_tick-IsSound true sha m h v = record {
    one_check = omega arith;
    limit = v.limit;
    below = λ e. omega arith;
  }

module _ (rate : RateLib) (now : ℕ) (client : String) (limit window_seconds : ℤ) where
  pub allow_local-IsSound :
      (m : Manager rate.Limiter)
      → IsSound m
      → IsSound (allow_local rate now client limit window_seconds m).0
  unfolding allow_local
  allow_local-IsSound m v = record { one_check = v.one_check; limit = v.limit; below = v.below }

module _ (r : Redis) (rate : RateLib) (net : Net) (client : String) (limit window_seconds : ℤ) where
  allow_redis-IsSound :
      (w : World r rate)
      → IsSound w.manager
      → IsSound (allow_redis r rate net client limit window_seconds w).0.manager
  unfolding allow_redis
  allow_redis-IsSound w v = record { one_check = v.one_check; limit = v.limit; below = v.below }

  after_redis-IsSound :
      (o : World r rate × Result Bool)
      → IsSound o.0.manager
      → IsSound (after_redis r rate net client limit window_seconds o).0.manager
  after_redis-IsSound (w, ok allowed) v = record {
    one_check = v.one_check;
    limit = v.limit;
    below = λ e. omega arith;
  }
  after_redis-IsSound (w, err e) v =
      allow_local-IsSound rate net.now_ns client limit window_seconds _
        (handle_redis_failure-IsSound w.manager v)

  pub allow-IsSound :
      (w : World r rate)
      → IsSound w.manager
      → IsSound (allow r rate net client limit window_seconds w).0.manager
  unfolding allow
  allow-IsSound w v = elim (Bool-cases (is_redis_healthy w.manager)) [
    | inl closed ↦ rw (closed, allow) (after_redis-IsSound _ (allow_redis-IsSound w v))
    | inr opened ↦
        rw (opened, allow)
          (allow_local-IsSound rate net.now_ns client limit window_seconds w.manager v)
  ]

-- What a Manager goes through: calls of Allow and HandleRedisFailure, and the ticks of the recovery
-- goroutine, if one runs, and of the cleanup goroutine.
pub data Event : Type 0 where
  allows : Net → String → ℤ → ℤ → Event
  forced_failure : Event
  recovery : Bool → Option String → Event
  cleanup : ℕ → Event

module _ (r : Redis) (rate : RateLib) where
  unfoldable pub step : World r rate → Event → World r rate
  step w (allows net client limit window_seconds) =
      (allow r rate net client limit window_seconds w).0
  step w forced_failure = record w { manager = handle_redis_failure w.manager }
  step w (recovery ping sha) =
      if w.manager.checks == 0
      then w
      else record w { manager = (recovery_tick ping sha w.manager).0 }
  step w (cleanup now) = record w { manager = cleanup_tick now w.manager }

  unfoldable pub run_events : World r rate → List Event → World r rate
  run_events w [] = w
  run_events w (e ∷ es) = run_events (step w e) es

  step-IsSound : (w : World r rate) (e : Event) → IsSound w.manager → IsSound (step w e).manager
  unfolding step cleanup_tick
  step-IsSound w (allows net client limit window_seconds) v =
      allow-IsSound r rate net client limit window_seconds w v
  step-IsSound w forced_failure v = handle_redis_failure-IsSound w.manager v
  step-IsSound w (recovery ping sha) v = elim (Bool-cases (w.manager.checks == 0)) [
    | inl none_runs ↦ rw none_runs v
    | inr one_runs ↦ rw one_runs (recovery_tick-IsSound ping sha w.manager (ground arith) v)
  ]
  step-IsSound w (cleanup now) v = record {
    one_check = v.one_check;
    limit = v.limit;
    below = v.below;
  }

  -- Where each call of Allow, each further failure, tick of recovery and cleanup runs without
  -- another in between (their interleavings are in Limiter/Atomics): after any sequence of them a
  -- manager that was sound is sound: the health flag is 0 or 1, the breaker is open exactly while
  -- one recovery goroutine runs, and while it is closed fewer than three failures in a row are
  -- counted.
  pub run_events-IsSound :
      (w : World r rate) (es : List Event) → IsSound w.manager → IsSound (run_events w es).manager
  unfolding run_events
  run_events-IsSound w [] v = v
  run_events-IsSound w (e ∷ es) v = run_events-IsSound (step w e) es (step-IsSound w e v)
