-- ===== src/Http/Stack/ClientIds.antt =====
-- The requests that ClientID (backend/internal/middleware/middleware.go) turns away at the gateway.
use text.Mathlib.Text.{starts_with}
use vegait.Prelude.{ℕ, ◌≡◌, refl, true, ◌&&◌, Option, none, some, String, str_eq}
use vegait.Http.{get, Request, Response, Exchange, Handler, error, set_header, write_header, write}
use vegait.Http.Headers.{get-set_error}
use vegait.Http.Middleware.{
  recover, recovery, finish_access, access_log, request_id, instance_header, client_id,
}
use vegait.Http.Stack.{gateway}
use vegait.Http.Stack.Answers.{exchange, gateway-eq}

-- The status on the wire, and a header's value there.
abbrev pub status : Response → Option ℕ
status w = elim w.sent [ none ↦ none | some (s, h) ↦ some s ]

abbrev pub sent_header : String → Response → String
sent_header k w = elim w.sent [ none ↦ "" | some (s, h) ↦ get k h ]

module _ {ℓ} {S : Type ℓ} where
  -- A request under /proxy without a client's identifier gets status 400 with the header that names
  -- this gateway, and the handler inside never runs: the state behind it is as it was. No header was
  -- sent before.
  pub gateway-refuses :
      (instance_id : String) (mux : Handler S) (r : Request) (x : Exchange S)
      → (starts_with r.path "/proxy" && str_eq (get "X-Client-ID" r.header) "") ≡ true
      → x.response.sent ≡ none
      → ((exchange (gateway instance_id mux r x)).state ≡ x.state)
        × (status (exchange (gateway instance_id mux r x)).response ≡ some 400)
        × (sent_header "X-Gateway-Instance" (exchange (gateway instance_id mux r x)).response
            ≡ instance_id)
  unfolding recover recovery finish_access access_log request_id instance_header client_id error
      set_header write_header write
  gateway-refuses instance_id mux r x refused unsent =
      rw (gateway-eq instance_id mux, refused, unsent) (refl, refl, get-set_error _ _ _ _)
