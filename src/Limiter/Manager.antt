-- ===== src/Limiter/Manager.antt =====
-- Manager of backend/internal/limiter/limiter.go. A method returns the new state; `World` joins the
-- manager to the Redis that it shares. The local token buckets are golang.org/x/time/rate's, and what
-- the network does to each Redis call is an argument. Log lines are left out. A time is a number of
-- nanoseconds since 1970, on the gateways' clock; Redis has its own.
use vegait.Prelude.{
  ℕ, suc, ◌+◌, ◌-◌, ◌%◌, ◌^◌, Bool, true, false, not, ◌&&◌, ◌||◌, List, [], ◌∷◌, Option, none, some,
  String, str_eq, leb, ◌==◌, ℤ, pos, ltb_ℤ, eqb_ℤ, ◌*ℤ◌, ◌-ℤ◌, wrap_int64, keep, if◌then◌else◌,
}

-- What the program calls of golang.org/x/time/rate, and the float64 quotient that it passes.
pub record RateLib : Type 1 where
  pub Limit : Type 0
  pub Limiter : Type 0
  pub quotient : ℤ → ℤ → Limit
  pub new_limiter : ℕ → Limit → ℤ → Limiter
  pub allow : ℕ → Limiter → Limiter × Bool

pub record LocalEntry (L : Type 0) : Type 0 where
  pub limiter : L
  pub limit : ℤ
  pub window_seconds : ℤ
  pub last_accessed : ℕ

-- The flags and counters are the words that sync/atomic updates: int32, int32 and uint64.
-- `checks` counts the recovery goroutines that run.
pub record Manager (L : Type 0) : Type 0 where
  pub lua_sha : String
  pub redis_healthy : ℕ
  pub consec_failures : ℕ
  pub member_seq : ℕ
  pub local_limiters : List (String × LocalEntry L)
  pub max_failures : ℕ
  pub checks : ℕ

-- sync.Map
module _ {ℓ} {V : Type ℓ} where
  unfoldable pub load : String → List (String × V) → Option V
  load k [] = none
  load k ((j, v) ∷ m) = if str_eq j k then some v else load k m

  unfoldable pub store : String → V → List (String × V) → List (String × V)
  store k v [] = (k, v) ∷ []
  store k v ((j, w) ∷ m) = if str_eq j k then (k, v) ∷ m else (j, w) ∷ store k v m

-- atomic.AddInt32, and `a >= b` on int32 read from their bits.
abbrev pub add_int32 : ℕ → ℕ → ℕ
add_int32 a b = (a + b) % 2 ^ 32

abbrev pub ge_int32 : ℕ → ℕ → Bool
ge_int32 a b = leb ((b + 2 ^ 31) % 2 ^ 32) ((a + 2 ^ 31) % 2 ^ 32)

-- New. `sha` is the answer to SCRIPT LOAD, none if it fails.
unfoldable pub new : {L : Type 0} → Option String → Manager L
new sha = record {
  lua_sha = elim sha [ none ↦ "" | some s ↦ s ];
  redis_healthy = 1;
  consec_failures = 0;
  member_seq = 0;
  local_limiters = [];
  max_failures = 3;
  checks = 0;
}

module _ {L : Type 0} where
  unfoldable pub is_redis_healthy : Manager L → Bool
  is_redis_healthy m = m.redis_healthy == 1

  -- The compare-and-swap that opens the breaker; who wins it starts the recovery goroutine.
  unfoldable pub open_breaker : Manager L → Manager L
  open_breaker m =
      if m.redis_healthy == 1 then record m { redis_healthy = 0; checks = suc m.checks } else m

  unfoldable pub handle_redis_failure : Manager L → Manager L
  unfolding is_redis_healthy open_breaker
  handle_redis_failure m =
      let fails = add_int32 m.consec_failures 1 in
      let counted = record m { consec_failures = fails } in
      if ge_int32 fails m.max_failures && is_redis_healthy counted
      then open_breaker counted
      else counted

  -- One tick of the recovery goroutine: Redis answers the ping or not, and `sha` is the answer to
  -- SCRIPT LOAD. The flag says whether the goroutine returns.
  unfoldable pub recovery_tick : Bool → Option String → Manager L → Manager L × Bool
  recovery_tick false sha m = (m, false)
  recovery_tick true sha m = (
    record m {
      redis_healthy = 1;
      consec_failures = 0;
      lua_sha =
          if str_eq m.lua_sha "" then (elim sha [ none ↦ m.lua_sha | some s ↦ s ]) else m.lua_sha;
      checks = m.checks - 1;
    },
    true,
  )

  -- How long an entry may stay unused, in nanoseconds: five windows, and five minutes at least.
  unfoldable pub inactive_duration : LocalEntry L → ℤ
  unfolding ◌*ℤ◌
  inactive_duration e =
      let five = wrap_int64 (wrap_int64 (e.window_seconds *ℤ pos 5) *ℤ pos 1_000_000_000) in
      if ltb_ℤ five (pos 300_000_000_000) then pos 300_000_000_000 else five

  is_inactive : ℕ → String × LocalEntry L → Bool
  unfolding inactive_duration ◌-ℤ◌
  is_inactive now (k, e) = ltb_ℤ (inactive_duration e) (pos now -ℤ pos e.last_accessed)

  -- One tick of the cleanup goroutine.
  unfoldable pub cleanup_tick : ℕ → Manager L → Manager L
  unfolding is_inactive
  cleanup_tick now m = record m {
    local_limiters = keep (λ e. not (is_inactive now e)) m.local_limiters;
  }

module _ (rate : RateLib) where
  open rate use {Limiter, quotient, new_limiter, allow as allow_token}

  unfoldable pub create_local_entry : ℕ → ℤ → ℤ → LocalEntry Limiter
  create_local_entry now limit window_seconds = record {
    limiter = new_limiter now (quotient limit window_seconds) limit;
    limit = limit;
    window_seconds = window_seconds;
    last_accessed = now;
  }

  -- The entry that allowLocal uses: the client's, or a new one if it has none or other settings.
  unfoldable pub local_entry : ℕ → String → ℤ → ℤ → Manager Limiter → LocalEntry Limiter
  unfolding create_local_entry
  local_entry now client limit window_seconds m = elim (load client m.local_limiters) [
    | none ↦ create_local_entry now limit window_seconds
    | some e ↦
        if not (eqb_ℤ e.limit limit) || not (eqb_ℤ e.window_seconds window_seconds)
        then create_local_entry now limit window_seconds
        else e
  ]

  unfoldable pub allow_local : ℕ → String → ℤ → ℤ → Manager Limiter → Manager Limiter × Bool
  allow_local now client limit window_seconds m =
      let entry = local_entry now client limit window_seconds m in
      let (limiter', ok) = allow_token now entry.limiter in
      let entry' : LocalEntry Limiter = record entry { limiter = limiter'; last_accessed = now } in
      (record m { local_limiters = store client entry' m.local_limiters }, ok)
