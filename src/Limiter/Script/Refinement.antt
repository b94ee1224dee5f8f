-- ===== src/Limiter/Script/Refinement.antt =====
-- slidingWindowLua of backend/internal/limiter/limiter.go, run by a whole cluster for many clients,
-- answers each client as that client's log of admitted requests does.
use vegait.Prelude.{
  ℕ, ◌+◌, ◌≤◌, ◌≡◌, refl, inl, inr, ◌≢◌, false, List, String, arith, ltb_ℤ, ◌==◌, ◌-ℤ◌, ℤ, pos,
  Bool-cases,
}
use vegait.Limiter.Redis.{eq_bytes, Redis, RedisLaws}
use vegait.Limiter.Script.Log.{admits, record_at}
use vegait.Limiter.Script.Agreement.{
  Agrees, Unstored, cleared, cleared-Agrees, zcard-cleared, cleared-Unstored, renewed-Agrees,
  renewed-Unstored,
}
use vegait.Limiter.Script.{Call, ceil_seconds, sliding_window}

module _ (r : Redis) (laws : RedisLaws r) where
  open r use {Store, entries, zremrangebyscore, zcard, zadd, expire}

  -- One run of the script answers as the log does, keeps the agreement, and stores no member but its own.
  abbrev pub Answers : ℕ → ℕ → Call → Store → List ℕ → ℕ × Store → Type 0
  Answers w t c s log out =
      ((out.0 == 1) ≡ admits w c.limit c.now log)
      × Agrees r w c.at c.now c.key out.1 (record_at c.now (admits w c.limit c.now log) log)
      × ((m : List ℕ)
          → eq_bytes c.member m ≡ false
          → Unstored r t c.key s m
          → Unstored r c.at c.key out.1 m)

  pub sliding_window-Answers :
      (w t u at now : ℕ) (k : String) (limit : ℤ) (m : List ℕ) (s : Store) (log : List ℕ)
      → t ≤ at
      → at + u ≤ now + t
      → Agrees r w t u k s log
      → Unstored r t k s m
      → let c : Call = record {
        at = at;
        key = k;
        now = now;
        window_ms = pos w;
        limit = limit;
        member = m;
      } in
        Answers w t c s log (sliding_window r at c s)
  unfolding sliding_window admits ceil_seconds
  sliding_window-Answers w t u at now k limit m s log h d a v =
      let after = cleared r w at now k s in
      let same = zcard-cleared r laws w t u at now k s log h d a in
      let kept = cleared-Agrees r laws w t u at now k s log h d a in
      let fresh = cleared-Unstored r laws w t u at now k s log h d a in
      elim (Bool-cases (ltb_ℤ (pos (zcard at k after)) limit)) [
        | inl granted ↦ rw (← same) (
            rw granted (
              refl,
              renewed-Agrees r laws w at now k after m (fresh m v) log kept,
              λ m' e n. renewed-Unstored r laws w at now k after m (fresh m v) m' e (fresh m' n),
            ))
        | inr refused ↦
            rw (← same) (rw (refused, sliding_window) (refl, kept, λ m' e n. fresh m' n))
      ]

  -- A run for another key leaves the key alone.
  pub sliding_window-frame :
      (t t' : ℕ) (c : Call) (k : String) (s : Store)
      → c.key ≢ k
      → entries (sliding_window r t c s).1 t' k ≡ entries s t' k
  unfolding sliding_window
  sliding_window-frame t t' c k s h =
      let after = zremrangebyscore t c.key (pos 0) (pos c.now -ℤ c.window_ms) s in
      let grown = zadd t c.key c.now c.member after in
      ground (
        arith,
        laws.zremrangebyscore_frame t t' c.key k (pos 0) (pos c.now -ℤ c.window_ms) s h,
        laws.zadd_frame t t' c.key k c.now c.member after h,
        laws.expire_frame t t' c.key k (ceil_seconds c.window_ms) grown h,
      )
