-- ===== src/Limiter/Allow/Sequence.antt =====
-- A run of Allow (backend/internal/limiter/limiter.go) on one gateway whose Redis calls arrive: its
-- script calls have members that differ, so the bound of the sliding window is the gateway's.
use vegait.Prelude.{
  ℕ, ◌+◌, ◌%◌, ◌^◌, ◌*◌, ◌≤◌, ◌<◌, ◌≡◌, refl, ap, Bool, true, false, inl, inr, List, [], ◌∷◌, map,
  String, arith, ◌==◌, ◌&&◌, ℤ, ◌*ℤ◌, wrap_int64_in_range, pos, pos_part, All, Bool-cases, length,
  keep, count, str_eq, eq_iff, if◌then◌else◌,
}
use Prim.Native.String
use text.Mathlib.TextLemmas.{append_cancel_left}
use vegait.Limiter.Redis.{Redis, RedisLaws, eq_bytes}
use vegait.Limiter.Member.{member, eq_bytes-member}
use vegait.Limiter.Script.{Call, sliding_window, run}
use vegait.Limiter.Script.Log.{admitted_times, answer_for}
use vegait.Limiter.Script.Bound.{Steady, within}
use vegait.Limiter.Script.Cluster.{SameSettings, DistinctMembers, run-le-limit}
use vegait.Limiter.Manager.{RateLib, is_redis_healthy}
use vegait.Limiter.Allow.{
  World, delivered, eval_script, to_window_ms, next_seq, now_ms, script_call, allow_redis, allow,
}
use vegait.Limiter.Allow.Outage.{Request, allow_all}

abbrev pub key_of : String → String
key_of client = String.◌++◌ "limiter:" client

key_of-injective : (x y : String) → key_of x ≡ key_of y → x ≡ y
key_of-injective x y e = append_cancel_left "limiter:" x y e

key_of-eq : (x y : String) → str_eq (key_of x) (key_of y) ≡ str_eq x y
key_of-eq x y = ground (arith, eq_iff x y, eq_iff (key_of x) (key_of y), key_of-injective x y)

-- The first call of Redis arrives.
abbrev pub Arrives : Request → Type 0
Arrives q = q.net.first ≡ delivered

module _ (r : Redis) where
  calls_of : ℕ → List Request → List Call
  calls_of seq [] = []
  calls_of seq (q ∷ qs) =
      script_call r q.net q.client q.limit q.window_seconds (next_seq seq)
      ∷ calls_of (next_seq seq) qs

  apart :
      (t s j : ℕ) (qs : List Request)
      → s < 2 ^ 64
      → j + length qs < 2 ^ 64
      → All (λ d. eq_bytes (member t s) d.member ≡ false) (calls_of ((s + j) % 2 ^ 64) qs)
  unfolding calls_of script_call
  apart t s j [] h k = tt
  apart t s j (q ∷ qs) h k =
      let same : next_seq ((s + j) % 2 ^ 64) ≡ (s + (j + 1)) % 2 ^ 64 = omega arith in
      rw same (
        eq_bytes-member t q.net.now_ns s ((s + (j + 1)) % 2 ^ 64) (omega arith),
        apart t s (j + 1) qs h (omega arith),
      )

  calls_of-DistinctMembers :
      (seq : ℕ) (qs : List Request) → length qs ≤ 2 ^ 64 → DistinctMembers (calls_of seq qs)
  unfolding calls_of script_call
  calls_of-DistinctMembers seq [] h = tt
  calls_of-DistinctMembers seq (q ∷ qs) h =
      let e : (next_seq seq + 0) % 2 ^ 64 ≡ next_seq seq = omega arith in
      (
        rw e at (apart q.net.now_ns (next_seq seq) 0 qs (omega arith) (omega arith)),
        calls_of-DistinctMembers (next_seq seq) qs (omega arith),
      )

-- The window of a number of seconds that fits an int64 in milliseconds.
pub to_window_ms_lem : (n : ℕ) → n * 1000 < 2 ^ 63 → to_window_ms (pos n) ≡ pos (n * 1000)
unfolding to_window_ms ◌*ℤ◌
to_window_ms_lem n h =
    let e : pos n *ℤ pos 1000 ≡ pos (n * 1000) = ground arith in
    rw e (wrap_int64_in_range (pos (n * 1000)) (omega arith) (omega arith))

-- The times, in milliseconds, of a client's requests that were allowed.
abbrev pub granted_times : String → List Request → List Bool → List ℕ
granted_times client [] answers = []
granted_times client (q ∷ qs) [] = []
granted_times client (q ∷ qs) (a ∷ answers) =
    let rest = granted_times client qs answers in
    if str_eq q.client client && a then now_ms q.net ∷ rest else rest

-- Redis gets to the requests in their order, none before its time `t`, and the delay from the
-- gateway's reading of the time to that, by Redis's clock, never grows; it is `t` less `u` at
-- first.
abbrev pub InOrder : ℕ → ℕ → List Request → Type 0
InOrder t u [] = Unit
InOrder t u (q ∷ qs) =
    (t ≤ q.net.redis_ms)
    × (q.net.redis_ms + u ≤ now_ms q.net + t)
    × InOrder q.net.redis_ms (now_ms q.net) qs

-- The client's requests all have one limit and one window.
abbrev pub SameQuota : String → ℤ → ℕ → List Request → Type 0
SameQuota client limit window =
    All (λ q. q.client ≡ client → (q.limit ≡ limit) × (q.window_seconds ≡ pos window))

module _ (r : Redis) (rate : RateLib) where
  allow-Arrives :
      (q : Request) (w : World r rate)
      → Arrives q
      → is_redis_healthy w.manager ≡ true
      → let seq = next_seq w.manager.member_seq in
        let (reply, s') =
          sliding_window r q.net.redis_ms
            (script_call r q.net q.client q.limit q.window_seconds seq)
            w.store in
        allow r rate q.net q.client q.limit q.window_seconds w ≡ (
          record {
            manager = record w.manager { member_seq = seq; consec_failures = 0 };
            store = s';
          },
          reply == 1,
        )
  unfolding allow allow_redis eval_script script_call
  allow-Arrives q w e closed = elim (Bool-cases (str_eq w.manager.lua_sha "")) [
    | inl none_loaded ↦ rw (closed, none_loaded, e)
    | inr loaded ↦ rw (closed, loaded, e)
  ]

  allow_all-run :
      (qs : List Request) (w : World r rate)
      → All Arrives qs
      → is_redis_healthy w.manager ≡ true
      → (allow_all r rate qs w).1
        ≡ map (λ p. p.1) (run r (calls_of r w.manager.member_seq qs) w.store)
  unfolding allow_all run calls_of script_call is_redis_healthy
  allow_all-run [] w h closed = refl
  allow_all-run (q ∷ qs) w h closed =
      let step = allow-Arrives q w h.0 closed in
      let w' = (allow r rate q.net q.client q.limit q.window_seconds w).0 in
      let c =
        script_call r q.net q.client q.limit q.window_seconds (next_seq w.manager.member_seq) in
      let reply = (sliding_window r c.at c w.store).0 in
      rw step (ap (◌∷◌ (reply == 1)) (rw step at (allow_all-run qs w' h.1 (rw step closed))))

  -- The answers to a list of calls, paired with the requests again.
  granted_times-run :
      (client : String) (qs : List Request) (seq : ℕ) (s : r.Store)
      → granted_times client qs (map (λ p. p.1) (run r (calls_of r seq qs) s))
        ≡ admitted_times (keep (answer_for (key_of client)) (run r (calls_of r seq qs) s))
  unfolding run calls_of script_call
  granted_times-run client [] seq s = refl
  granted_times-run client (q ∷ qs) seq s =
      let c = script_call r q.net q.client q.limit q.window_seconds (next_seq seq) in
      let (reply, s') = sliding_window r c.at c s in
      let same = key_of-eq q.client client in
      elim (Bool-cases (str_eq q.client client)) [
        | inl own ↦ rw (same, own, granted_times-run client qs (next_seq seq) s')
        | inr other ↦ rw (same, other) (granted_times-run client qs (next_seq seq) s')
      ]

  calls_of-Steady :
      (t u seq : ℕ) (qs : List Request) → InOrder t u qs → Steady t u (calls_of r seq qs)
  unfolding calls_of script_call
  calls_of-Steady t u seq [] o = tt
  calls_of-Steady t u seq (q ∷ qs) (late, lag, o) =
      (late, lag, calls_of-Steady q.net.redis_ms (now_ms q.net) (next_seq seq) qs o)

  calls_of-SameSettings :
      (client : String) (limit : ℤ) (window seq : ℕ) (qs : List Request)
      → window * 1000 < 2 ^ 63
      → SameQuota client limit window qs
      → SameSettings (key_of client) (window * 1000) limit (calls_of r seq qs)
  unfolding calls_of script_call
  calls_of-SameSettings client limit window seq [] h o = tt
  calls_of-SameSettings client limit window seq (q ∷ qs) h o = (
    λ e.
        let (p, p') = o.0 (key_of-injective q.client client e) in
        (rw p' (to_window_ms_lem window h), p),
    calls_of-SameSettings client limit window (next_seq seq) qs h o.1,
  )

  -- A gateway with a closed breaker, whose client has nothing in Redis yet, gets a list of requests of
  -- all its clients, at most 2 ^ 64 of them, and every Redis call arrives, in their order. The delay from
  -- the gateway's reading of the time to Redis's run of the script, by Redis's clock, is any but never
  -- grows. The client's requests have one limit and one window, which fits an int64 in milliseconds.
  -- Then Allow allows at most `limit` of the client's requests (none for a limit below 0) in any one
  -- stretch of the window's length, wherever it ends.
  pub allow_all-le-limit :
      (laws : RedisLaws r) (client : String) (limit : ℤ) (window t u stop : ℕ) (qs : List Request)
      (w : World r rate)
      → ((now : ℕ) → r.entries w.store now (key_of client) ≡ [])
      → is_redis_healthy w.manager ≡ true
      → All Arrives qs
      → InOrder t u qs
      → SameQuota client limit window qs
      → window * 1000 < 2 ^ 63
      → length qs ≤ 2 ^ 64
      → count (within (window * 1000) stop) (granted_times client qs (allow_all r rate qs w).1)
        ≤ pos_part limit
  allow_all-le-limit laws client limit window t u stop qs w fresh closed arrive o same fits few =
      let seq = w.manager.member_seq in
      rw (allow_all-run qs w arrive closed, granted_times-run client qs seq w.store)
        (run-le-limit r laws (key_of client) (window * 1000) limit t u stop (calls_of r seq qs)
          w.store fresh (calls_of-Steady t u seq qs o)
          (calls_of-SameSettings client limit window seq qs fits same)
          (calls_of-DistinctMembers r seq qs few))
