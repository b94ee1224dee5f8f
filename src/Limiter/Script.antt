-- ===== src/Limiter/Script.antt =====
-- slidingWindowLua of backend/internal/limiter/limiter.go: the script that Redis runs as one step.
pub mod Log
pub mod Bound
pub mod Agreement
pub mod Refinement
pub mod Cluster
use vegait.Prelude.{
  ℕ, suc, ◌+◌, ◌/◌, ◌≡◌, Bool, List, [], ◌∷◌, String, ◌==◌, ltb_ℤ, ◌-ℤ◌, ℤ, pos, negsuc,
  if◌then◌else◌,
}
use vegait.Limiter.Redis.{Redis}

-- math.ceil(window_ms / 1000)
unfoldable pub ceil_seconds : ℤ → ℤ
unfolding ◌-ℤ◌
ceil_seconds (pos n) = pos ((n + 999) / 1000)
ceil_seconds (negsuc n) = pos 0 -ℤ pos (suc n / 1000)

-- KEYS[1], ARGV[1..4] of one run of the script, and the time of Redis's clock, in milliseconds, at which
-- it is run: EXPIRE counts from that one, the scores are from ARGV[1].
pub record Call : Type 0 where
  pub at : ℕ
  pub key : String
  pub now : ℕ
  pub window_ms : ℤ
  pub limit : ℤ
  pub member : List ℕ

module _ (r : Redis) where
  open r use {Store, zremrangebyscore, zcard, zadd, expire}

  -- The reply is 1 or 0. Redis runs the script at its time `t`.
  unfoldable pub sliding_window : ℕ → Call → Store → ℕ × Store
  unfolding ◌-ℤ◌
  sliding_window t c s =
      let clear_before = pos c.now -ℤ c.window_ms in
      let cleared = zremrangebyscore t c.key (pos 0) clear_before s in
      let current_requests = zcard t c.key cleared in
      if ltb_ℤ (pos current_requests) c.limit
      then (1, expire t c.key (ceil_seconds c.window_ms) (zadd t c.key c.now c.member cleared))
      else (0, cleared)

  -- The runs of a cluster, in the order in which Redis makes them, each with its answer.
  unfoldable pub run : List Call → Store → List (Call × Bool)
  run [] s = []
  run (c ∷ cs) s = let (reply, s') = sliding_window c.at c s in (c, reply == 1) ∷ run cs s'
