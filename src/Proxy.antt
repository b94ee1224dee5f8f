-- ===== src/Proxy.antt =====
-- Handler of backend/internal/proxy/proxy.go, over the limiter and the logger. What a request meets
-- outside the process, its Outside, is an argument. The timeouts of contexts show in what is met.
-- Allow never returns an error, so the branch for one is left out, and so are log lines.
mod Forward
pub mod Records
pub mod Runs
pub mod Lines
pub mod Bodies
mod Examples
unfoldable pub use Forward.*
use Prim.Native.String
use Prim.Native.String.{slice}
use vegait.Prelude.{
  ℕ, zero, suc, ◌+◌, ◌-◌, Bool, true, false, not, List, [], ◌∷◌, ◌++◌, Option, none, some, String,
  str_eq, ℤ, pos, negsuc, if◌then◌else◌,
}
use vegait.Database.{LogEntry}
use vegait.Database.Limits.{Row, get_client_limit}
use vegait.Limiter.Redis.{Redis}
use vegait.Limiter.Member.{format_uint}
use vegait.Limiter.Manager.{RateLib}
use vegait.Limiter.Allow.{Result, ok, err, Net, World, allow}
use vegait.Logger.{Async, log}
use vegait.Http.{
  Header, get, set, Request, Response, json, bytes, Exchange, Outcome, returned, panicked, Handler,
  valid_code, set_header, add_header, write_header, write, write_json,
}
use vegait.Http.Middleware.{with_response}

-- fmt.Sprintf("%d", n)
abbrev pub text_of_digits : List ℕ → String
text_of_digits [] = ""
text_of_digits (d ∷ ds) = String.◌++◌ (slice "0123456789" (d - 48) (d - 48 + 1)) (text_of_digits ds)

unfoldable pub show_int : ℤ → String
show_int (pos n) = text_of_digits (format_uint n)
show_int (negsuc n) = String.◌++◌ "-" (text_of_digits (format_uint (suc n)))

-- The settings of a Config that the handler reads.
pub record ProxyConfig : Type 0 where
  pub mock_api_url : String
  pub default_rate_limit : ℤ
  pub default_window_secs : ℤ

pub record Outside : Type 0 where
  pub query : String → Row
  pub net : Net
  pub now : ℕ
  pub upstream : OutRequest → Upstream
  pub latency_ms : ℕ

-- `calls` are the requests that client.Do was given so far.
pub record Gateway (r : Redis) (rate : RateLib) (Conn : Type 0) : Type 0 where
  pub limits : World r rate
  pub calls : List OutRequest
  pub logger : Async Conn

unfoldable pub forward_request : Outside → Request → String → Forwarded
unfolding outbound forwarded
forward_request o r target_url = forwarded (o.upstream (outbound r target_url))

-- The limit and window that the limiter is asked with.
unfoldable pub settings : ProxyConfig → Result (ℤ × ℤ) → ℤ × ℤ
settings cfg (ok l) = l
settings cfg (err e) = (cfg.default_rate_limit, cfg.default_window_secs)

-- `for key, values := range respHeaders`
add_headers : Header → Response → Response
unfolding add_header
add_headers [] w = w
add_headers ((k, v) ∷ h) w = add_headers h (add_header k v w)

abbrev limit_headers : ℤ × ℤ → Response → Response
limit_headers (rate_limit, window_secs) w =
    set_header "X-RateLimit-Window" (String.◌++◌ (show_int window_secs) "s")
      (set_header "X-RateLimit-Limit" (show_int rate_limit) w)

-- The answer to a request over the limit.
unfoldable pub reject : String → ℤ × ℤ → Response → Response
unfolding set_header show_int write_json
reject client l w =
    write_json 429
      (json (
        ("error", "rate limit exceeded")
        ∷ ("client_id", client)
        ∷ (
          "limit",
          String.◌++◌ (show_int l.0)
              (String.◌++◌ " requests per " (String.◌++◌ (show_int l.1) " seconds")),
        )
        ∷ []))
      (set_header "Retry-After" (show_int l.1) (limit_headers l w))

-- The answer after forwardRequest, with the message of a panic: WriteHeader's, of an upstream's code that
-- it does not take.
unfoldable pub relay : ℤ × ℤ → ℕ → Forwarded → Response → Option String × Response
unfolding set_header show_int write_json write_header write add_headers
relay l latency f w = elim f.failure [
  | some e ↦
      (none, write_json 502 (json (("error", "upstream request failed") ∷ ("details", e) ∷ [])) w)
  | none ↦
      let w' =
        set_header "X-Upstream-Latency-Ms" (show_int (pos latency))
          (limit_headers l (add_headers f.header w)) in
      if valid_code f.status_code
      then (none, write (bytes f.body) (write_header f.status_code w'))
      else (some "invalid WriteHeader code", w')
]

unfoldable pub rejected_entry : Outside → String → String → LogEntry
rejected_entry o client target_url = record {
  client_id = client;
  endpoint = target_url;
  status_code = 429;
  latency_ms = 0;
  is_allowed = false;
  timestamp = o.now;
}

unfoldable pub forwarded_entry : Outside → String → String → Forwarded → LogEntry
forwarded_entry o client target_url f = record {
  client_id = client;
  endpoint = target_url;
  status_code = f.status_code;
  latency_ms = o.latency_ms;
  is_allowed = true;
  timestamp = o.now;
}

-- `targetURL`
unfoldable pub target_of : ProxyConfig → Request → String
target_of cfg req =
    let given = get "X-Target-URL" req.header in
    if str_eq given "" then String.◌++◌ cfg.mock_api_url req.path else given

module _ {r : Redis} {rate : RateLib} {Conn : Type 0} where
  -- `h.logger.Log(entry)`, on a channel that has a buffer or at which no worker waits.
  abbrev log_entry : LogEntry → Gateway r rate Conn → Gateway r rate Conn
  log_entry entry g = record g { logger = (log entry g.logger).0 }

  -- forwardRequest gets to client.Do unless http.NewRequest refuses the request.
  abbrev call : Upstream → OutRequest → Gateway r rate Conn → Gateway r rate Conn
  call (malformed e) q g = g
  call u q g = record g { calls = g.calls ++ q ∷ [] }

  abbrev relayed :
      Option String × Response → Exchange (Gateway r rate Conn) → Outcome (Gateway r rate Conn)
  relayed (none, w) x = returned (record x { response = w })
  relayed (some e, w) x = panicked e (record x { response = w })

  -- After the limiter.
  unfoldable pub finish :
      Outside
      → Request
      → String
      → String
      → ℤ × ℤ
      → Bool
      → Exchange (Gateway r rate Conn)
      → Outcome (Gateway r rate Conn)
  unfolding reject relay rejected_entry forwarded_entry forward_request
  finish o req client target_url l false x = returned (record x {
    response = reject client l x.response;
    state = log_entry (rejected_entry o client target_url) x.state;
  })
  finish o req client target_url l true x =
      let f = forward_request o req target_url in
      let q = outbound req target_url in
      relayed (relay l o.latency_ms f x.response) (record x {
        state = log_entry (forwarded_entry o client target_url f) (call (o.upstream q) q x.state);
      })

  unfoldable pub serve_client :
      ProxyConfig
      → Outside
      → Request
      → String
      → String
      → Exchange (Gateway r rate Conn)
      → Outcome (Gateway r rate Conn)
  unfolding settings get_client_limit finish
  serve_client cfg o req client target_url x =
      let l = settings cfg (get_client_limit (o.query client)) in
      let (limits', allowed) = allow r rate o.net client l.0 l.1 x.state.limits in
      finish o req client target_url l allowed
        (record x { state = record x.state { limits = limits' } })

  unfoldable pub serve_http : ProxyConfig → Outside → Handler (Gateway r rate Conn)
  unfolding serve_client target_of write_json
  serve_http cfg o req x =
      let client = get "X-Client-ID" req.header in
      if str_eq client ""
      then returned (
          with_response (write_json 400 (json (("error", "X-Client-ID header is required") ∷ [])))
            x)
      else serve_client cfg o req client (target_of cfg req) x
