-- ===== src/Proxy/Lines.antt =====
-- The gateway of backend/cmd/server/main.go with the proxy of backend/internal/proxy/proxy.go inside.
use text.Mathlib.Text.{starts_with}
use vegait.Prelude.{
  ◌≡◌, refl, ℤ, Bool, true, false, Option, none, some, String, str_eq, Bool-cases, inl, inr,
}
use vegait.Limiter.Redis.{Redis}
use vegait.Limiter.Manager.{RateLib}
use vegait.Http.{Response, Request, Handler, Exchange, get}
use vegait.Http.Middleware.{request_id_from_context}
use vegait.Http.Stack.{gateway_mux, gateway}
use vegait.Http.Stack.Answers.{KeepsLines, AnswersWith, gateway-AnswersWith, exchange}
use vegait.Proxy.{ProxyConfig, Outside, Gateway, relayed, finish, serve_client, serve_http}

gateway_mux-KeepsLines :
    {S : Type 0} (proxy : Handler S) → KeepsLines proxy → KeepsLines (gateway_mux proxy)
unfolding gateway_mux
gateway_mux-KeepsLines proxy k r x = elim (Bool-cases (str_eq r.path "/proxy")) [
  | inl exact ↦ rw exact (k r x)
  | inr longer ↦ elim (Bool-cases (starts_with r.path "/proxy/")) [
    | inl below ↦ rw (longer, below) (k _ x)
    | inr elsewhere ↦ rw (longer, elsewhere) refl
  ]
]

module _ {r : Redis} {rate : RateLib} {Conn : Type 0} where
  relayed-lines :
      (p : Option String × Response) (x : Exchange (Gateway r rate Conn))
      → (exchange (relayed p x)).lines ≡ x.lines
  relayed-lines (none, w) x = refl
  relayed-lines (some e, w) x = refl

  finish-lines :
      (o : Outside) (req : Request) (client target_url : String) (l : ℤ × ℤ) (allowed : Bool)
      (x : Exchange (Gateway r rate Conn))
      → (exchange (finish o req client target_url l allowed x)).lines ≡ x.lines
  unfolding finish
  finish-lines o req client target_url l false x = refl
  finish-lines o req client target_url l true x = relayed-lines _ _

  serve_http-KeepsLines :
      (cfg : ProxyConfig) (o : Outside)
      → KeepsLines (serve_http {r = r} {rate = rate} {Conn = Conn} cfg o)
  unfolding serve_http serve_client
  serve_http-KeepsLines cfg o req x = elim (Bool-cases (str_eq (get "X-Client-ID" req.header) "")) [
    | inl unnamed ↦ rw unnamed refl
    | inr named ↦ rw named (finish-lines o req _ _ _ _ _)
  ]

  -- The whole gateway, with its mux and the proxy inside, answers every request, whatever the
  -- database, Redis and the upstream do, and prints one line for it, with the identifier of the context
  -- outside RequestID: "unknown" for every request of a client.
  pub proxy-AnswersWith :
      (cfg : ProxyConfig) (o : Outside) (instance_id : String) (req : Request)
      (x : Exchange (Gateway r rate Conn))
      → AnswersWith
          (request_id_from_context req.request_id)
          x.lines
          (gateway instance_id (gateway_mux (serve_http cfg o)) req x)
  proxy-AnswersWith cfg o instance_id req x =
      gateway-AnswersWith instance_id (gateway_mux (serve_http cfg o))
        (gateway_mux-KeepsLines (serve_http cfg o) (serve_http-KeepsLines cfg o)) req x
