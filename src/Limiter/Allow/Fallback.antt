-- ===== src/Limiter/Allow/Fallback.antt =====
-- The local token buckets of backend/internal/limiter/limiter.go, which decide while the breaker is
-- open, over the documented behaviour of golang.org/x/time/rate.
use text.Mathlib.TextPositions.{eq_refl}
use vegait.Prelude.{
  ℕ, ◌-◌, ◌≤◌, ◌<◌, ◌≡◌, ◌∙◌, refl, ap, true, false, inl, inr, List, [], ◌∷◌, none, some, String,
  arith, ltb, pos, eqb_ℤ_iff, All, Option-cases, length, count, eq_iff,
}
use Prim.Native.Nat.{min}
use vegait.Limiter.Redis.{Redis}
use vegait.Limiter.Manager.{
  Manager, LocalEntry, RateLib, create_local_entry, is_redis_healthy, load, store, local_entry,
  allow_local,
}
use vegait.Limiter.Allow.{World, allow}
use vegait.Limiter.Allow.Outage.{Request, allow_all, allow-open, allow-Untouched}

-- A limiter of a usual rate is a bucket of whole tokens: full at first, refilled with time, one token
-- for a call. The rate is the quotient of a limit by a window above 0, so it is finite and not negative;
-- it stays below the one call in a nanosecond that the library's clock can tell apart, and the window
-- within the time that a Duration can hold, since a bucket fills from the year 1 on.
pub record RateLaws (rate : RateLib) : Type 1 where
  pub IsUsual : rate.Limiter → Type 0
  pub tokens : ℕ → rate.Limiter → ℕ
  pub new_usual :
      (now b window : ℕ)
      → 0 < window
      → window ≤ 1_000_000_000
      → b < 1_000_000_000
      → let l = rate.new_limiter now (rate.quotient (pos b) (pos window)) (pos b) in
        IsUsual l × (tokens now l ≡ b)
  pub refills :
      (now later : ℕ) (l : rate.Limiter) → IsUsual l → now ≤ later → tokens now l ≤ tokens later l
  pub allow_usual : (now : ℕ) (l : rate.Limiter) → IsUsual l → IsUsual (rate.allow now l).0
  pub allow_decides :
      (now : ℕ) (l : rate.Limiter) → IsUsual l → (rate.allow now l).1 ≡ ltb 0 (tokens now l)
  pub allow_takes :
      (now : ℕ) (l : rate.Limiter) → IsUsual l → tokens now (rate.allow now l).0 ≡ tokens now l - 1

module _ {ℓ} {V : Type ℓ} where
  pub load-store : (k : String) (v : V) (m : List (String × V)) → load k (store k v m) ≡ some v
  unfolding load store
  load-store k v [] = rw (eq_refl k)
  load-store k v ((j, w) ∷ m) = ground (arith, eq_refl k, eq_iff j k, load-store k v m)

module _ (rate : RateLib) (laws : RateLaws rate) (client : String) (b window : ℕ)
    (some_window : 0 < window) (window_small : window ≤ 1_000_000_000)
    (limit_small : b < 1_000_000_000) where
  open laws use {IsUsual, tokens}

  -- How many tokens the client's next request meets: those of its entry, or a full bucket.
  abbrev available : ℕ → Manager rate.Limiter → ℕ
  available now m = tokens now (local_entry rate now client (pos b) (pos window) m).limiter

  -- The bucket that the client's next request meets, at any time, is one of a usual rate.
  abbrev Metered : Manager rate.Limiter → Type 0
  Metered m = (now : ℕ) → IsUsual (local_entry rate now client (pos b) (pos window) m).limiter

  local_entry-new :
      (now : ℕ) (m : Manager rate.Limiter)
      → load client m.local_limiters ≡ none
      → local_entry rate now client (pos b) (pos window) m
        ≡ create_local_entry rate now (pos b) (pos window)
  unfolding local_entry
  local_entry-new now m e = rw (e, local_entry) refl

  new-Metered : (m : Manager rate.Limiter) → load client m.local_limiters ≡ none → Metered m
  unfolding create_local_entry
  new-Metered m e now =
      rw (local_entry-new now m e)
        (laws.new_usual now b window some_window window_small limit_small).0

  available_new :
      (now : ℕ) (m : Manager rate.Limiter)
      → load client m.local_limiters ≡ none
      → available now m ≡ b
  unfolding create_local_entry
  available_new now m e =
      ap (λ x. tokens now x.limiter) (local_entry-new now m e)
      ∙ (laws.new_usual now b window some_window window_small limit_small).1

  local_entry_settings :
      (now : ℕ) (m : Manager rate.Limiter)
      → let e = local_entry rate now client (pos b) (pos window) m in
        (e.limit ≡ pos b) × (e.window_seconds ≡ pos window)
  unfolding local_entry
  local_entry_settings now m = elim (Option-cases (load client m.local_limiters)) [
    | inl absent ↦ rw (absent, local_entry) (refl, refl)
    | inr (e, found) ↦
        rw (found, local_entry)
          (ground (arith, eqb_ℤ_iff e.limit (pos b), eqb_ℤ_iff e.window_seconds (pos window)))
  ]

  local_entry-store :
      (now : ℕ) (e : LocalEntry rate.Limiter) (m : Manager rate.Limiter)
      → e.limit ≡ pos b
      → e.window_seconds ≡ pos window
      → local_entry rate now client
          (pos b)
          (pos window)
          (record m { local_limiters = store client e m.local_limiters })
        ≡ e
  unfolding local_entry
  local_entry-store now e m p q =
      rw (load-store client e m.local_limiters, local_entry)
        (ground (arith, eqb_ℤ_iff e.limit (pos b), eqb_ℤ_iff e.window_seconds (pos window)))

  -- A request is allowed exactly if it meets a token, and the next one meets one fewer, or more as
  -- time has passed.
  allow_local-available :
      (now later : ℕ) (m : Manager rate.Limiter)
      → Metered m
      → now ≤ later
      → let (m', a) = allow_local rate now client (pos b) (pos window) m in
        Metered m'
        × (a ≡ ltb 0 (available now m))
        × (available now m - 1 ≤ available later m')
        × (now ≡ later → available later m' ≡ available now m - 1)
  unfolding allow_local
  allow_local-available now later m usual h =
      let e = local_entry rate now client (pos b) (pos window) m in
      let (p, q) = local_entry_settings now m in
      let l' = (rate.allow now e.limiter).0 in
      let left : available later (allow_local rate now client (pos b) (pos window) m).0
          ≡ tokens later l' =
        ap (λ x. tokens later x.limiter)
          (local_entry-store later (record e { limiter = l'; last_accessed = now }) m p q) in
      let kept = laws.allow_usual now e.limiter (usual now) in
      let taken = laws.allow_takes now e.limiter (usual now) in
      (
        λ t. rw (local_entry-store t (record e { limiter = l'; last_accessed = now }) m p q) kept,
        laws.allow_decides now e.limiter (usual now),
        rw left (omega (arith, taken, laws.refills now later l' kept h)),
        λ same. rw (left, ← same) taken,
      )

  -- Requests of the one client with its settings, in the order of their times.
  abbrev pub Queued : ℕ → List Request → Type 0
  Queued t [] = Unit
  Queued t (q ∷ qs) =
      (t ≤ q.net.now_ns)
      × (q.client ≡ client)
      × (q.limit ≡ pos b)
      × (q.window_seconds ≡ pos window)
      × Queued q.net.now_ns qs

  -- Such requests, all at one instant.
  abbrev pub AtOnce : ℕ → List Request → Type 0
  AtOnce now = All (λ q.
      (q.net.now_ns ≡ now)
      × (q.client ≡ client)
      × (q.limit ≡ pos b)
      × (q.window_seconds ≡ pos window))

  module _ (r : Redis) where
    -- One request while the breaker is open.
    allow-available :
        (q : Request) (later : ℕ) (w : World r rate)
        → q.client ≡ client
        → q.limit ≡ pos b
        → q.window_seconds ≡ pos window
        → is_redis_healthy w.manager ≡ false
        → Metered w.manager
        → q.net.now_ns ≤ later
        → let (w', a) = allow r rate q.net q.client q.limit q.window_seconds w in
          Metered w'.manager
          × (a ≡ ltb 0 (available q.net.now_ns w.manager))
          × (available q.net.now_ns w.manager - 1 ≤ available later w'.manager)
          × (q.net.now_ns ≡ later
              → available later w'.manager ≡ available q.net.now_ns w.manager - 1)
    allow-available q later w ec el ew opened usual h =
        rw (allow-open r rate q w opened, ec, el, ew)
          (allow_local-available q.net.now_ns later w.manager usual h)

    still_open :
        (q : Request) (w : World r rate)
        → is_redis_healthy w.manager ≡ false
        → is_redis_healthy (allow r rate q.net q.client q.limit q.window_seconds w).0.manager
          ≡ false
    unfolding is_redis_healthy
    still_open q w opened = rw (allow-Untouched r rate q w opened).1 opened

    allow_all-served :
        (t : ℕ) (qs : List Request) (w : World r rate)
        → Queued t qs
        → is_redis_healthy w.manager ≡ false
        → Metered w.manager
        → ((later : ℕ) → t ≤ later → length qs ≤ available later w.manager)
        → All (λ a. a ≡ true) (allow_all r rate qs w).1
    unfolding allow_all
    allow_all-served t [] w o opened usual enough = tt
    allow_all-served t (q ∷ qs) w (late, ec, el, ew, o) opened usual enough =
        let w' = (allow r rate q.net q.client q.limit q.window_seconds w).0 in
        let step = λ (later : ℕ) (h : q.net.now_ns ≤ later).
          allow-available q later w ec el ew opened usual h in
        (
          (step q.net.now_ns (omega arith)).1 ∙ ground (arith, enough q.net.now_ns late),
          allow_all-served q.net.now_ns qs w' o (still_open q w opened)
              (step q.net.now_ns (omega arith)).0
              (λ later h. omega (arith, (step later h).2, enough q.net.now_ns late)),
        )

    -- While the breaker is open, a client without a bucket that asks at most `b` times with the limit
    -- `b`, one call after the other and at times in order, is allowed every time. The window is above 0
    -- and at most 10^9 seconds, and the limit below 10^9.
    pub allow_all-fallback_serves :
        (t : ℕ) (qs : List Request) (w : World r rate)
        → Queued t qs
        → is_redis_healthy w.manager ≡ false
        → load client w.manager.local_limiters ≡ none
        → length qs ≤ b
        → All (λ a. a ≡ true) (allow_all r rate qs w).1
    allow_all-fallback_serves t qs w o opened absent short =
        allow_all-served t qs w o opened (new-Metered w.manager absent)
          (λ later h. omega (arith, available_new later w.manager absent))

    allow_all-taken :
        (now : ℕ) (qs : List Request) (w : World r rate)
        → AtOnce now qs
        → is_redis_healthy w.manager ≡ false
        → Metered w.manager
        → count (λ a. a) (allow_all r rate qs w).1 ≡ min (length qs) (available now w.manager)
    unfolding allow_all
    allow_all-taken now [] w o opened usual = omega arith
    allow_all-taken now (q ∷ qs) w ((en, ec, el, ew), o) opened usual =
        let w' = (allow r rate q.net q.client q.limit q.window_seconds w).0 in
        let (usual', a, _, left) = allow-available q now w ec el ew opened usual (omega arith) in
        rw a (
          ground (
            arith,
            left en,
            allow_all-taken now qs w' o (still_open q w opened) usual',
            ap (λ x. available x w.manager) en,
          ))

    -- While the breaker is open, of calls one after the other, but at one instant, by a client without a
    -- bucket, all with the limit `b`, `b` are allowed, or all if there are fewer. Calls that overlap are
    -- not covered: two that both find no bucket make one each. The window is above 0 and at most 10^9
    -- seconds, and the limit below 10^9.
    pub allow_all-fallback_caps :
        (now : ℕ) (qs : List Request) (w : World r rate)
        → AtOnce now qs
        → is_redis_healthy w.manager ≡ false
        → load client w.manager.local_limiters ≡ none
        → count (λ a. a) (allow_all r rate qs w).1 ≡ min (length qs) b
    allow_all-fallback_caps now qs w o opened absent =
        allow_all-taken now qs w o opened (new-Metered w.manager absent)
        ∙ ap (min (length qs)) (available_new now w.manager absent)
