-- ===== src/Proxy/Runs.antt =====
-- A run of ServeHTTP (backend/internal/proxy/proxy.go) for the requests of all clients, one after the
-- other, on one gateway.
use vegait.Prelude.{
  ℕ, ◌≡◌, ◌≢◌, ◌≤◌, ◌*◌, ◌^◌, ◌<◌, refl, ap, Bool, true, false, not, ◌&&◌, List, [], ◌∷◌, none,
  some, String, str_eq, eq_iff, ◌==◌, ℤ, pos_part, All, count, length, arith, Bool-cases, inl, inr,
  if◌then◌else◌,
}
use vegait.Database.Limits.{get_client_limit}
use vegait.Limiter.Redis.{Redis, RedisLaws}
use vegait.Limiter.Manager.{RateLib, is_redis_healthy}
use vegait.Limiter.Allow.{World, allow, now_ms}
use vegait.Limiter.Script.Bound.{within}
use vegait.Limiter.Allow.Outage as Outage
use vegait.Limiter.Allow.Outage.{allow_all}
use vegait.Limiter.Allow.Sequence.{
  key_of, Arrives, InOrder, SameQuota, granted_times, allow_all-le-limit,
}
use vegait.Http.{Request, Response, Exchange, fresh, get}
use vegait.Http.Stack.Answers.{exchange}
use vegait.Http.Stack.ClientIds.{status}
use vegait.Proxy.{ProxyConfig, Outside, Gateway, settings, serve_http}
use vegait.Proxy.Records.{serve_http-IsServed, serve_http-limits}

pub record Arrival : Type 0 where
  pub outside : Outside
  pub request : Request

abbrev pub client_of : Arrival → String
client_of a = get "X-Client-ID" a.request.header

-- What the limiter is asked, in turn.
unfoldable pub asked : ProxyConfig → List Arrival → List Outage.Request
asked cfg [] = []
asked cfg (a ∷ more) =
    let rest = asked cfg more in
    let (limit, window_seconds) = settings cfg (get_client_limit (a.outside.query (client_of a))) in
    if str_eq (client_of a) ""
    then rest
    else record {
      net = a.outside.net;
      client = client_of a;
      limit = limit;
      window_seconds = window_seconds;
    }
      ∷ rest

-- The answer is not that the client is over its limit.
abbrev pub passed : Response → Bool
passed w = elim (status w) [ none ↦ true | some s ↦ not (s == 429) ]

-- The times, in milliseconds, of a client's requests that were not answered with 429.
abbrev pub passed_times : String → List Arrival → List Response → List ℕ
passed_times client [] ws = []
passed_times client (a ∷ more) [] = []
passed_times client (a ∷ more) (w ∷ ws) =
    let rest = passed_times client more ws in
    if str_eq (client_of a) client && passed w then now_ms a.outside.net ∷ rest else rest

foreign : (name client : String) → str_eq name "" ≡ true → client ≢ "" → str_eq name client ≡ false
foreign name client h d = ground (arith, eq_iff name "", eq_iff name client)

and_mono : (b c d : Bool) → (c ≡ true → d ≡ true) → (b && c) ≡ true → (b && d) ≡ true
and_mono b c d h k = ground arith

count-if_le :
    (p : ℕ → Bool) (b c : Bool) (x : ℕ) (xs ys : List ℕ)
    → (b ≡ true → c ≡ true)
    → count p xs ≤ count p ys
    → count p (if b then x ∷ xs else xs) ≤ count p (if c then x ∷ ys else ys)
count-if_le p b c x xs ys h k = ground arith

module _ {r : Redis} {rate : RateLib} {Conn : Type 0} (cfg : ProxyConfig) where
  unfoldable pub respond : Arrival → Gateway r rate Conn → Exchange (Gateway r rate Conn)
  respond a g =
      exchange
        (serve_http cfg a.outside a.request (record { response = fresh; lines = []; state = g }))

  -- Each request is served on a new connection's writer.
  unfoldable pub serve_all :
      List Arrival → Gateway r rate Conn → Gateway r rate Conn × List Response
  unfolding respond
  serve_all [] g = (g, [])
  serve_all (a ∷ more) g =
      let y = respond a g in let (g', ws) = serve_all more y.state in (g', y.response ∷ ws)

  abbrev decision : Arrival → Gateway r rate Conn → World r rate × Bool
  decision a g =
      let l = settings cfg (get_client_limit (a.outside.query (client_of a))) in
      allow r rate a.outside.net (client_of a) l.0 l.1 g.limits

  respond-limits :
      (a : Arrival) (g : Gateway r rate Conn)
      → str_eq (client_of a) "" ≡ false
      → (respond a g).state.limits ≡ (decision a g).0
  unfolding respond
  respond-limits a g named =
      ap (λ p. p.0) (serve_http-IsServed cfg a.outside a.request _ named refl).asked

  respond-passed :
      (a : Arrival) (g : Gateway r rate Conn)
      → str_eq (client_of a) "" ≡ false
      → passed (respond a g).response ≡ true
      → (decision a g).1 ≡ true
  unfolding respond
  respond-passed a g named through = elim (Bool-cases (decision a g).1) [
    | inl sure ↦ sure
    | inr refused ↦
        let over =
          (serve_http-limits cfg a.outside a.request
            (record { response = fresh; lines = []; state = g }) a.outside.upstream named refl
            refused).0 in
        absurd (ground (arith, over))
  ]

  respond-unnamed :
      (a : Arrival) (g : Gateway r rate Conn)
      → str_eq (client_of a) "" ≡ true
      → (respond a g).state ≡ g
  unfolding respond serve_http
  respond-unnamed a g unnamed = rw unnamed refl

  count-passed :
      (p : ℕ → Bool) (client : String)
      → client ≢ ""
      → (more : List Arrival) (g : Gateway r rate Conn)
      → count p (passed_times client more (serve_all more g).1)
        ≤ count p
            (granted_times client (asked cfg more) (allow_all r rate (asked cfg more) g.limits).1)
  unfolding serve_all asked allow_all
  count-passed p client d [] g = omega arith
  count-passed p client d (a ∷ more) g = elim (Bool-cases (str_eq (client_of a) "")) [
    | inl unnamed ↦
        let kept = ap (λ s. s.limits) (respond-unnamed a g unnamed) in
        rw (unnamed, foreign (client_of a) client unnamed d)
          (rw kept at (count-passed p client d more (respond a g).state))
    | inr named ↦
        let ih =
          rw (respond-limits a g named) at (count-passed p client d more (respond a g).state) in
        rw (named) (
          count-if_le p (str_eq (client_of a) client && passed (respond a g).response)
            (str_eq (client_of a) client && (decision a g).1) _ _ _
            (and_mono (str_eq (client_of a) client) _ _ (respond-passed a g named)) ih)
  ]

  -- A gateway with a closed breaker serves requests of all its clients one after the other, at most
  -- 2 ^ 64 of them, and every Redis call arrives. The delay from the gateway's reading of the time
  -- to Redis's run of the script, by Redis's clock, is any but never grows. One client has nothing
  -- in Redis yet, and its requests have one limit and one window, which fits an int64 in
  -- milliseconds. Then at most `limit` of the client's requests (none for a limit below 0) are
  -- answered with anything but 429 in any one stretch of the window's length, whatever the upstream
  -- and the logger do.
  pub serve_all-le-limit :
      (laws : RedisLaws r) (client : String) (limit : ℤ) (window t u stop : ℕ)
      (arrivals : List Arrival) (g : Gateway r rate Conn)
      → client ≢ ""
      → ((now : ℕ) → r.entries g.limits.store now (key_of client) ≡ [])
      → is_redis_healthy g.limits.manager ≡ true
      → All Arrives (asked cfg arrivals)
      → InOrder t u (asked cfg arrivals)
      → SameQuota client limit window (asked cfg arrivals)
      → window * 1000 < 2 ^ 63
      → length (asked cfg arrivals) ≤ 2 ^ 64
      → count (within (window * 1000) stop) (passed_times client arrivals (serve_all arrivals g).1)
        ≤ pos_part limit
  serve_all-le-limit laws client limit window t u stop arrivals g d empty closed arrive o same fits
        few =
      omega (
        arith,
        count-passed (within (window * 1000) stop) client d arrivals g,
        allow_all-le-limit r rate laws client limit window t u stop (asked cfg arrivals) g.limits
            empty closed arrive o same fits few,
      )
