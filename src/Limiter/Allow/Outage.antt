-- ===== src/Limiter/Allow/Outage.antt =====
-- An outage of Redis as Allow of backend/internal/limiter/limiter.go meets it: three calls find out,
-- and no later one waits for Redis until a ping succeeds.
use vegait.Prelude.{
  ◌+◌, ◌<◌, ◌≡◌, ◌∙◌, ◌-◌, ◌^◌, refl, Bool, true, false, inl, inr, List, [], ◌∷◌, String, arith,
  ltb, ℤ, All, Bool-cases, length, str_eq, if◌then◌else◌,
}
use Prim.Native.Nat.{min}
use vegait.Limiter.Redis.{Redis}
use vegait.Limiter.Script.{Call}
use vegait.Limiter.Manager.{RateLib, is_redis_healthy, handle_redis_failure, allow_local}
use vegait.Limiter.Allow.{
  World, Net, unsent, err, eval_script, next_seq, script_call, allow_redis, allow_fallback, allow,
  is_no_script_error,
}
use vegait.Limiter.Allow.Breaker.{IsSound, allow-IsSound}

-- One request to Allow.
pub record Request : Type 0 where
  pub net : Net
  pub client : String
  pub limit : ℤ
  pub window_seconds : ℤ

-- Neither call of Redis arrives.
abbrev pub IsCutOff : Request → Type 0
IsCutOff q = ((e : String) × (q.net.first ≡ unsent e)) × ((e : String) × (q.net.second ≡ unsent e))

module _ (r : Redis) (rate : RateLib) where
  unfoldable pub allow_all : List Request → World r rate → World r rate × List Bool
  allow_all [] w = (w, [])
  allow_all (q ∷ qs) w =
      let (w', a) = allow r rate q.net q.client q.limit q.window_seconds w in
      let (w'', as') = allow_all qs w' in (w'', a ∷ as')

  eval_script_cut_off :
      (sha : String) (q : Request) (c : Call) (s : r.Store)
      → IsCutOff q
      → (e : String) × (eval_script r sha q.net c s ≡ (err e, s))
  unfolding eval_script
  eval_script_cut_off sha q c s ((e, p), (e', p')) = elim (Bool-cases (str_eq sha "")) [
    | inl none_loaded ↦ (e, rw (none_loaded, p))
    | inr loaded ↦ elim (Bool-cases (is_no_script_error e)) [
      | inl missing ↦ (e', rw (loaded, p) (rw (missing, p')))
      | inr known ↦ (e, rw (loaded, p) (rw known))
    ]
  ]

  -- Closed, the breaker counts the failure; the store stays as it is.
  allow-closed :
      (q : Request) (w : World r rate)
      → IsCutOff q
      → is_redis_healthy w.manager ≡ true
      → (allow r rate q.net q.client q.limit q.window_seconds w)
        ≡ allow_fallback r rate q.net.now_ns q.client q.limit q.window_seconds (record w {
          manager =
              handle_redis_failure
                (record w.manager { member_seq = next_seq w.manager.member_seq });
        })
  unfolding allow allow_redis
  allow-closed q w cut closed =
      let call =
        script_call r q.net q.client q.limit q.window_seconds (next_seq w.manager.member_seq) in
      let (e, p) = eval_script_cut_off w.manager.lua_sha q call w.store cut in rw (closed, p)

  pub allow-open :
      (q : Request) (w : World r rate)
      → is_redis_healthy w.manager ≡ false
      → (allow r rate q.net q.client q.limit q.window_seconds w)
        ≡ allow_fallback r rate q.net.now_ns q.client q.limit q.window_seconds w
  unfolding allow
  allow-open q w opened = rw opened

  -- What an open breaker leaves alone.
  abbrev pub Untouched : World r rate → World r rate → Type 0
  Untouched w w' =
      (w'.store ≡ w.store)
      × (w'.manager.redis_healthy ≡ w.manager.redis_healthy)
      × (w'.manager.member_seq ≡ w.manager.member_seq)

  pub allow-Untouched :
      (q : Request) (w : World r rate)
      → is_redis_healthy w.manager ≡ false
      → Untouched w (allow r rate q.net q.client q.limit q.window_seconds w).0
  unfolding allow_local
  allow-Untouched q w opened = rw (allow-open q w opened) (refl, refl, refl)

  allow_all-Untouched :
      (qs : List Request) (w : World r rate)
      → is_redis_healthy w.manager ≡ false
      → Untouched w (allow_all qs w).0
  unfolding allow_all is_redis_healthy
  allow_all-Untouched [] w opened = (refl, refl, refl)
  allow_all-Untouched (q ∷ qs) w opened =
      let w' = (allow r rate q.net q.client q.limit q.window_seconds w).0 in
      let (a, b, c) = allow-Untouched q w opened in
      let (a', b', c') = allow_all-Untouched qs w' (rw b opened) in (a' ∙ a, b' ∙ b, c' ∙ c)

  -- One request while the breaker is closed and Redis is cut off.
  allow-counts :
      (q : Request) (w : World r rate)
      → IsCutOff q
      → IsSound w.manager
      → w.manager.redis_healthy ≡ 1
      → let w' = (allow r rate q.net q.client q.limit q.window_seconds w).0 in
        (w'.store ≡ w.store)
        × (w'.manager.member_seq ≡ next_seq w.manager.member_seq)
        × (w'.manager.redis_healthy ≡ (if ltb (w.manager.consec_failures + 1) 3 then 1 else 0))
        × (w'.manager.consec_failures ≡ w.manager.consec_failures + 1)
  unfolding allow_local handle_redis_failure
  allow-counts q w cut v closed =
      rw (allow-closed q w cut (unfold is_redis_healthy in rw closed))
        (refl, ground arith, ground arith, ground arith)

  -- An outage that starts on a sound manager with the breaker closed: however many requests come,
  -- Redis's state is not changed, the breaker is closed afterwards exactly if the failures counted
  -- before and the requests are fewer than three, and only the requests up to the third failure tried
  -- Redis (each try takes one member number; the numbers do not wrap here).
  pub outage-allow_all :
      (qs : List Request) (w : World r rate)
      → All IsCutOff qs
      → IsSound w.manager
      → w.manager.redis_healthy ≡ 1
      → w.manager.member_seq + (3 - w.manager.consec_failures) < 2 ^ 64
      → let w' = (allow_all qs w).0 in
        (w'.store ≡ w.store)
        × (is_redis_healthy w'.manager ≡ ltb (w.manager.consec_failures + length qs) 3)
        × (w'.manager.member_seq
            ≡ w.manager.member_seq + min (length qs) (3 - w.manager.consec_failures))
  unfolding allow_all is_redis_healthy
  outage-allow_all [] w cut v closed small = (refl, ground arith, ground arith)
  outage-allow_all (q ∷ qs) w cut v closed small =
      let w' = (allow r rate q.net q.client q.limit q.window_seconds w).0 in
      let (a, b, c, d) = allow-counts q w cut.0 v closed in
      let v' = allow-IsSound r rate q.net q.client q.limit q.window_seconds w v in
      elim (Bool-cases (ltb (w.manager.consec_failures + 1) 3)) [
        | inl below ↦
            let (a', b', c') =
              outage-allow_all qs w' cut.1 v' (ground arith) (ground (arith, v.below closed)) in
            (a' ∙ a, ground arith, ground (arith, v.below closed))
        | inr third ↦
            let (a', b', c') = allow_all-Untouched qs w' (ground arith) in
            (a' ∙ a, ground arith, ground (arith, v.below closed))
      ]
