-- ===== src/Http/Examples.antt =====
-- The theorems about backend/internal/middleware/middleware.go and the stacks of
-- backend/cmd/server/main.go at concrete inputs.
use vegait.Prelude.{ℕ, suc, ◌≡◌, refl, [], ◌∷◌, none, some}
use vegait.Http.{
  Request, Response, Line, panic_line, Exchange, returned, panicked, Handler, fresh, get, same_name,
}
use vegait.Http.Middleware.{chain, recovery, access_log, cors}
use vegait.Http.Middleware.Order.{nest, chain-eq-nest}
use vegait.Http.Stack.{gateway}
use vegait.Http.Stack.Answers.{exchange}
use vegait.Http.Stack.ClientIds.{status, sent_header, gateway-refuses}

abbrev request : Request
request = record {
  method = "GET";
  path = "/proxy/a";
  header = ("Accept", "text/html") ∷ [];
  body = [];
  remote_addr = "10.0.0.1:80";
  request_id = none;
  random = 1 ∷ 171 ∷ [];
}

-- Counts its runs, and panics.
abbrev counter : Handler ℕ
counter r x = panicked "nil map" (record x { state = suc x.state })

abbrev start : Exchange ℕ
start = record { response = fresh; lines = []; state = 0 }

chain-eq-nest_example :
    chain counter (recovery ∷ access_log ∷ cors ∷ [])
    ≡ nest counter (recovery ∷ access_log ∷ cors ∷ [])
chain-eq-nest_example = chain-eq-nest (recovery ∷ access_log ∷ cors ∷ []) counter

unnamed : vegait.Http.get "X-Client-ID" request.header ≡ ""
unfolding get same_name
unnamed = refl

gateway-refuses_example :
    ((exchange (gateway "gw-1" counter request start)).state ≡ 0)
    × (status (exchange (gateway "gw-1" counter request start)).response ≡ some 400)
    × (sent_header "X-Gateway-Instance" (exchange (gateway "gw-1" counter request start)).response
        ≡ "gw-1")
gateway-refuses_example = gateway-refuses "gw-1" counter request start (rw unnamed refl) refl
