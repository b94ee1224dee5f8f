-- ===== src/Proxy/Records.antt =====
-- What ServeHTTP of backend/internal/proxy/proxy.go tells the limiter, the logger and the client.
use mathlib.Core.List.{append-nil}
use vegait.Prelude.{
  ℕ, ◌≡◌, refl, sym, ◌∙◌, ◌⊎◌, inl, inr, Bool, true, false, List, [], ◌∷◌, ◌++◌, ap, Bool-cases,
  Option, none, some, if◌then◌else◌, String, str_eq, ℤ,
}
use vegait.Database.{LogEntry}
use vegait.Database.Limits.{get_client_limit}
use vegait.Limiter.Redis.{Redis}
use vegait.Limiter.Manager.{RateLib}
use vegait.Limiter.Allow.{World, allow}
use vegait.Logger.{log}
use vegait.Http.{
  Header, get, Request, Response, Exchange, Outcome, returned, panicked, valid_code, Piece, bytes,
  set_header, add_header, write_header, write, write_json, same_name,
}
use vegait.Http.Headers.{get-set, get-set_other}
use vegait.Http.Stack.Answers.{exchange}
use vegait.Http.Stack.ClientIds.{status, sent_header}
use vegait.Proxy.{
  ProxyConfig, OutRequest, Outside, Upstream, malformed, unreachable, unreadable, answered, Gateway,
  outbound, forwarded, forward_request, settings, reject, relay, add_headers, rejected_entry,
  forwarded_entry, log_entry, call, relayed, finish, serve_client, target_of, serve_http, show_int,
}

add_headers-sent : (h : Header) (w : Response) → (add_headers h w).sent ≡ w.sent
unfolding add_headers add_header
add_headers-sent [] w = refl
add_headers-sent ((k, v) ∷ h) w = add_headers-sent h _

-- The status on the wire is the one logged; or the upstream's body could not be read, its status is
-- logged, and the client gets 502; or the upstream's status is none that WriteHeader takes, it is logged,
-- and the handler panics with nothing sent.
abbrev pub StatusAgrees : {S : Type 0} → Upstream → LogEntry → Outcome S → Type 0
StatusAgrees u entry out =
    ((out ≡ returned (exchange out)) × (status (exchange out).response ≡ some entry.status_code))
    ⊎ (((s : ℕ) × (h : Header) × (e : String) × (u ≡ unreadable s h e)
          × (out ≡ returned (exchange out))
          × (status (exchange out).response ≡ some 502)
          × (entry.status_code ≡ s))
        ⊎ ((s : ℕ) × (h : Header) × (b : List ℕ) × (u ≡ answered s h b)
            × (valid_code s ≡ false)
            × (out ≡ panicked "invalid WriteHeader code" (exchange out))
            × ((exchange out).response.sent ≡ none)
            × (entry.status_code ≡ s)))

write-status :
    (s : ℕ) (b : Piece) (w : Response)
    → w.sent ≡ none
    → status (write b (write_header s w)) ≡ some s
unfolding write write_header
write-status s b w unsent = rw unsent refl

relay-StatusAgrees :
    {r : Redis} {rate : RateLib} {Conn : Type 0} (l : ℤ × ℤ) (o : Outside)
    (client target_url : String) (u : Upstream) (w : Response) (x : Exchange (Gateway r rate Conn))
    → w.sent ≡ none
    → StatusAgrees u
        (forwarded_entry o client target_url (forwarded u))
        (relayed (relay l o.latency_ms (forwarded u) w) x)
unfolding relay forwarded forwarded_entry write write_header set_header write_json
relay-StatusAgrees l o client target_url (malformed e) w x unsent = inl (refl, rw unsent refl)
relay-StatusAgrees l o client target_url (unreachable e) w x unsent = inl (refl, rw unsent refl)
relay-StatusAgrees l o client target_url (unreadable s h e) w x unsent =
    inr (inl (s, h, e, refl, refl, rw unsent refl, refl))
relay-StatusAgrees l o client target_url (answered s h b) w x unsent =
    elim (Bool-cases (valid_code s)) [
      | inl valid ↦ rw valid (
          inl (
            refl,
            write-status s (bytes (forwarded (answered s h b)).body) _
                (add_headers-sent h w ∙ unsent),
          ))
      | inr invalid ↦
          rw invalid (inr (inr (s, h, b, refl, invalid, refl, add_headers-sent h w ∙ unsent, refl)))
    ]

reject-status :
    (client : String) (l : ℤ × ℤ) (w : Response)
    → w.sent ≡ none
    → status (reject client l w) ≡ some 429
unfolding reject write write_header set_header write_json
reject-status client l w unsent = rw unsent refl

retry_apart : same_name "Content-Type" "Retry-After" ≡ false
unfolding same_name
retry_apart = refl

reject-retry_after :
    (client : String) (l : ℤ × ℤ) (w : Response)
    → w.sent ≡ none
    → sent_header "Retry-After" (reject client l w) ≡ show_int l.1
unfolding reject write write_header set_header write_json
reject-retry_after client l w unsent = rw unsent (
    get-set_other "Retry-After" "Content-Type" "application/json" _ retry_apart
    ∙ get-set "Retry-After" (show_int l.1) _)

-- The calls of the upstream for one request: one, unless http.NewRequest refuses it.
abbrev pub made : Upstream → OutRequest → List OutRequest
made (malformed e) q = []
made u q = q ∷ []

module _ {r : Redis} {rate : RateLib} {Conn : Type 0} where
  call-made :
      (u : Upstream) (q : OutRequest) (g : Gateway r rate Conn)
      → (call u q g).calls ≡ g.calls ++ made u q
  call-made (malformed e) q g = sym (append-nil g.calls)
  call-made (unreachable e) q g = refl
  call-made (unreadable s h e) q g = refl
  call-made (answered s h b) q g = refl

  call-others :
      (u : Upstream) (q : OutRequest) (g : Gateway r rate Conn)
      → ((call u q g).limits ≡ g.limits) × ((call u q g).logger ≡ g.logger)
  call-others (malformed e) q g = (refl, refl)
  call-others (unreachable e) q g = (refl, refl)
  call-others (unreadable s h e) q g = (refl, refl)
  call-others (answered s h b) q g = (refl, refl)

  relayed-state :
      (p : Option String × Response) (x : Exchange (Gateway r rate Conn))
      → (exchange (relayed p x)).state ≡ x.state
  relayed-state (none, w) x = refl
  relayed-state (some e, w) x = refl

  -- How a served request leaves the gateway: the limiter was asked once, with the client's settings; one
  -- entry went to the logger, with the limiter's decision; the upstream was called once exactly if that
  -- was to allow it; and the client's status agrees with the entry.
  pub record IsServed (cfg : ProxyConfig) (o : Outside) (req : Request)
      (x : Exchange (Gateway r rate Conn)) (out : Outcome (Gateway r rate Conn)) (client : String)
      : Type 0 where
    pub entry : LogEntry
    pub asked :
        ((exchange out).state.limits, entry.is_allowed)
        ≡ allow r rate o.net client
            (settings cfg (get_client_limit (o.query client))).0
            (settings cfg (get_client_limit (o.query client))).1
            x.state.limits
    pub logged : (exchange out).state.logger ≡ (log entry x.state.logger).0
    pub called :
        (exchange out).state.calls
        ≡ x.state.calls
          ++ (if entry.is_allowed
              then made
                  (o.upstream (outbound req (target_of cfg req)))
                  (outbound req (target_of cfg req))
              else [])
    pub entry_client : entry.client_id ≡ client
    pub entry_endpoint : entry.endpoint ≡ target_of cfg req
    pub agrees : StatusAgrees (o.upstream (outbound req (target_of cfg req))) entry out

  finish-IsServed :
      (cfg : ProxyConfig) (o : Outside) (req : Request) (client : String)
      (x : Exchange (Gateway r rate Conn)) (a : World r rate × Bool)
      → allow r rate o.net client
          (settings cfg (get_client_limit (o.query client))).0
          (settings cfg (get_client_limit (o.query client))).1
          x.state.limits
        ≡ a
      → x.response.sent ≡ none
      → IsServed cfg o req x
          (finish o req client
            (target_of cfg req)
            (settings cfg (get_client_limit (o.query client)))
            a.1
            (record x { state = record x.state { limits = a.0 } }))
          client
  unfolding finish rejected_entry forwarded_entry forward_request
  finish-IsServed cfg o req client x (limits', false) asked unsent = record {
    entry = rejected_entry o client (target_of cfg req);
    asked = sym asked;
    logged = refl;
    called = sym (append-nil x.state.calls);
    entry_client = refl;
    entry_endpoint = refl;
    agrees = inl (refl, reject-status client _ x.response unsent);
  }
  finish-IsServed cfg o req client x (limits', true) asked unsent =
      let l = settings cfg (get_client_limit (o.query client)) in
      let q = outbound req (target_of cfg req) in
      let f = forward_request o req (target_of cfg req) in
      let g : Gateway r rate Conn = record x.state { limits = limits' } in
      let y : Exchange (Gateway r rate Conn) = record x {
        state =
            log_entry (forwarded_entry o client (target_of cfg req) f) (call (o.upstream q) q g);
      } in
      let same = relayed-state (relay l o.latency_ms f x.response) y in
      let (limits_kept, logger_kept) = call-others (o.upstream q) q g in
      record {
        entry = forwarded_entry o client (target_of cfg req) f;
        asked = ap (λ s. (s.limits, true)) same ∙ ap (λ m. (m, true)) limits_kept ∙ sym asked;
        logged =
            ap (λ s. s.logger) same
            ∙ ap (λ m. (log (forwarded_entry o client (target_of cfg req) f) m).0) logger_kept;
        called = ap (λ s. s.calls) same ∙ call-made (o.upstream q) q g;
        entry_client = refl;
        entry_endpoint = refl;
        agrees =
            relay-StatusAgrees l o client (target_of cfg req) (o.upstream q) x.response y unsent;
      }

  -- A request with a client's identifier, to which nothing was sent yet, whatever the database, Redis and
  -- the upstream do: the limiter is asked once, with the client's limit and window or the defaults if
  -- they cannot be read; exactly one entry goes to the logger, with that decision, the client and the
  -- target; client.Do is called once if the decision was to allow the request and a request can be made of
  -- it, and else not; and the client is answered with the entry's status, but for two cases. If the
  -- upstream's body cannot be read the client gets 502 and the entry has the upstream's status. If the
  -- upstream's status is below 100 or above 999, it is logged and WriteHeader panics before anything is
  -- sent.
  pub serve_http-IsServed :
      (cfg : ProxyConfig) (o : Outside) (req : Request) (x : Exchange (Gateway r rate Conn))
      → str_eq (get "X-Client-ID" req.header) "" ≡ false
      → x.response.sent ≡ none
      → IsServed cfg o req x (serve_http cfg o req x) (get "X-Client-ID" req.header)
  unfolding serve_http serve_client
  serve_http-IsServed cfg o req x named unsent =
      rw named (finish-IsServed cfg o req _ x _ refl unsent)

  -- A request over the limit is answered with 429 and with the window's seconds in Retry-After, client.Do
  -- is not called for it, and the outcome is the same whatever the upstream would do. Nothing was
  -- sent to it before.
  pub serve_http-limits :
      (cfg : ProxyConfig) (o : Outside) (req : Request) (x : Exchange (Gateway r rate Conn))
      (upstream : OutRequest → Upstream)
      → str_eq (get "X-Client-ID" req.header) "" ≡ false
      → x.response.sent ≡ none
      → (allow r rate o.net
          (get "X-Client-ID" req.header)
          (settings cfg (get_client_limit (o.query (get "X-Client-ID" req.header)))).0
          (settings cfg (get_client_limit (o.query (get "X-Client-ID" req.header)))).1
          x.state.limits).1
        ≡ false
      → (status (exchange (serve_http cfg o req x)).response ≡ some 429)
        × (sent_header "Retry-After" (exchange (serve_http cfg o req x)).response
            ≡ show_int (settings cfg (get_client_limit (o.query (get "X-Client-ID" req.header)))).1)
        × ((exchange (serve_http cfg o req x)).state.calls ≡ x.state.calls)
        × (serve_http cfg (record o { upstream = upstream }) req x ≡ serve_http cfg o req x)
  unfolding serve_http serve_client finish
  serve_http-limits cfg o req x upstream named unsent over =
      rw (named, over)
        (
          reject-status (get "X-Client-ID" req.header) _ x.response unsent,
          reject-retry_after (get "X-Client-ID" req.header) _ x.response unsent,
          refl,
          refl,
        )
