-- ===== src/Proxy/Examples.antt =====
-- The theorems about backend/internal/proxy/proxy.go at concrete inputs.
use vegait.Prelude.{
  ℕ, ◌+◌, ◌*◌, ◌≤◌, true, arith, count, ◌≡◌, refl, false, List, [], ◌∷◌, none, some, str_eq, pos,
}
use vegait.Database.{LogEntry}
use vegait.Database.Limits.{found, get_client_limit}
use vegait.Limiter.Redis.Reference.{reference, reference-RedisLaws, empty_store}
use vegait.Limiter.Manager.{is_redis_healthy, new}
use vegait.Limiter.Script.{sliding_window, ceil_seconds}
use vegait.Limiter.Examples.{bucket, arriving}
use vegait.Limiter.Allow.{delivered, allow, eval, eval_script, script_call, allow_redis}
use vegait.Logger.Examples.{quiet}
use vegait.Http.{Request, Exchange, fresh, get, same_name}
use vegait.Http.Stack.Answers.{exchange}
use vegait.Http.Stack.ClientIds.{status, sent_header}
use vegait.Proxy.{
  ProxyConfig, Outside, unreadable, answered, Gateway, settings, serve_http, show_int,
}
use vegait.Limiter.Script.Bound.{within}
use vegait.Http.Middleware.{request_id_from_context}
use vegait.Http.Stack.{gateway, gateway_mux}
use vegait.Http.Stack.Answers.{AnswersWith}
use vegait.Proxy.Lines.{proxy-AnswersWith}
use vegait.Proxy.Runs.{Arrival, asked, passed_times, serve_all, serve_all-le-limit}
use vegait.Proxy.Records.{IsServed, serve_http-IsServed, serve_http-limits}

abbrev config : ProxyConfig
config = record {
  mock_api_url = "http://mock-api:9090";
  default_rate_limit = pos 60;
  default_window_secs = pos 60;
}

abbrev request : Request
request = record {
  method = "GET";
  path = "/a";
  header = ("X-Client-ID", "a") ∷ [];
  body = [];
  remote_addr = "10.0.0.1:80";
  request_id = none;
  random = [];
}

-- A client that may send nothing.
abbrev outside : Outside
outside = record {
  query = λ client. found (pos 0) (pos 10);
  net = record { now_ns = 7_000_000_000; redis_ms = 7003; first = delivered; second = delivered };
  now = 7_000_000_001;
  upstream = λ q. unreadable 200 [] "unexpected EOF";
  latency_ms = 5;
}

abbrev start : Exchange (Gateway reference bucket (List LogEntry))
start = record {
  response = fresh;
  lines = [];
  state = record {
    limits = record { manager = new (some "5f2a"); store = empty_store };
    calls = [];
    logger = quiet;
  };
}

named : str_eq (get "X-Client-ID" request.header) "" ≡ false
unfolding get same_name
named = refl

serve_http-IsServed_example :
    IsServed config outside request start
      (serve_http config outside request start)
      (get "X-Client-ID" request.header)
serve_http-IsServed_example = serve_http-IsServed config outside request start named refl

over :
    (allow reference bucket outside.net
      (get "X-Client-ID" request.header)
      (settings config (get_client_limit (outside.query (get "X-Client-ID" request.header)))).0
      (settings config (get_client_limit (outside.query (get "X-Client-ID" request.header)))).1
      start.state.limits).1
    ≡ false
unfolding get same_name settings get_client_limit allow is_redis_healthy allow_redis eval_script
    script_call eval sliding_window ceil_seconds new
over = refl

serve_http-limits_example :
    (status (exchange (serve_http config outside request start)).response ≡ some 429)
    × (sent_header "Retry-After" (exchange (serve_http config outside request start)).response
        ≡ show_int
            (settings config
              (get_client_limit (outside.query (get "X-Client-ID" request.header)))).1)
    × ((exchange (serve_http config outside request start)).state.calls ≡ start.state.calls)
    × (serve_http config (record outside { upstream = λ q. answered 200 [] [] }) request start
        ≡ serve_http config outside request start)
serve_http-limits_example =
    serve_http-limits config outside request start (λ q. answered 200 [] []) named refl over

-- Three requests of a client that may send two in ten seconds.
abbrev arrival : ℕ → Arrival
arrival ms = record {
  outside = record outside {
    query = λ client. found (pos 2) (pos 10);
    net = record {
      now_ns = ms * 1_000_000;
      redis_ms = ms + 3;
      first = delivered;
      second = delivered;
    };
  };
  request = request;
}

abbrev arrivals : List Arrival
arrivals = arrival 7000 ∷ arrival 7001 ∷ arrival 7002 ∷ []

asked_three : asked config arrivals ≡ arriving 7000 ∷ arriving 7001 ∷ arriving 7002 ∷ []
unfolding asked get same_name settings get_client_limit
asked_three = refl

healthy : is_redis_healthy start.state.limits.manager ≡ true
unfolding is_redis_healthy new
healthy = refl

serve_all-le-limit_example :
    count (within 10000 7002) (passed_times "a" arrivals (serve_all config arrivals start.state).1)
    ≤ 2
serve_all-le-limit_example =
    serve_all-le-limit config reference-RedisLaws "a" (pos 2) 10 3 0 7002 arrivals start.state
      (λ e. cc) (λ now. refl) healthy (rw asked_three (refl, (refl, (refl, tt))))
      (rw asked_three (omega arith)) (rw asked_three (ground arith)) (omega arith)
      (rw asked_three (omega arith))

proxy-AnswersWith_example :
    AnswersWith "unknown" []
      (gateway "gw-1" (gateway_mux (serve_http config outside)) request start)
unfolding request_id_from_context
proxy-AnswersWith_example = proxy-AnswersWith config outside "gw-1" request start

-- A client under its limit, and an upstream that answers with two bytes.
abbrev served : Outside
served = record (arrival 7000).outside { upstream = λ q. answered 200 [] (b'o' ∷ b'k' ∷ []) }
