-- ===== src/Http/Stack/Keeps.antt =====
-- A property of the state behind the handlers that the middlewares of backend/cmd/server/main.go keep.
use text.Mathlib.Text.{starts_with}
use vegait.Prelude.{◌&&◌, [], ◌∷◌, String, str_eq, Bool-cases, inl, inr}
use vegait.Http.{get, Request, Exchange, Outcome, returned, panicked, Handler}
use vegait.Http.Middleware.{
  cors, recover, recovery, finish_access, access_log, request_id, instance_header, client_id,
}
use vegait.Http.Middleware.Order.{nest, chain-eq-nest}
use vegait.Http.Stack.{gateway_mux, gateway, admin}
use vegait.Http.Stack.Answers.{exchange, gateway-eq}

module _ {S : Type 0} (P : S → Type 0) where
  -- Whether the handler returns or panics, the property still holds.
  abbrev pub Keeps : Handler S → Type 0
  Keeps h = (r : Request) (x : Exchange S) → P x.state → P (exchange (h r x)).state

  recover-Keeps :
      (r : Request) (o : Outcome S)
      → P (exchange o).state
      → P (exchange (recover r (finish_access r o))).state
  unfolding recover finish_access
  recover-Keeps r (returned x) h = h
  recover-Keeps r (panicked e x) h = h

  logged-Keeps : (h : Handler S) → Keeps h → Keeps (recovery (access_log h))
  unfolding recovery access_log
  logged-Keeps h k r x p = recover-Keeps r _ (k r _ p)

  request_id-Keeps : (h : Handler S) → Keeps h → Keeps (request_id h)
  unfolding request_id
  request_id-Keeps h k r x p = k _ _ p

  instance_header-Keeps : (id : String) (h : Handler S) → Keeps h → Keeps (instance_header id h)
  unfolding instance_header
  instance_header-Keeps id h k r x p = k _ _ p

  client_id-Keeps : (h : Handler S) → Keeps h → Keeps (client_id h)
  unfolding client_id
  client_id-Keeps h k r x p =
      elim (Bool-cases (starts_with r.path "/proxy" && str_eq (get "X-Client-ID" r.header) "")) [
        | inl refused ↦ rw refused p
        | inr let_by ↦ rw let_by (k r x p)
      ]

  cors-Keeps : (h : Handler S) → Keeps h → Keeps (cors h)
  unfolding cors
  cors-Keeps h k r x p = elim (Bool-cases (str_eq r.method "OPTIONS")) [
    | inl preflight ↦ rw preflight p
    | inr other ↦ rw other (k r _ p)
  ]

  gateway_mux-Keeps : (proxy : Handler S) → Keeps proxy → Keeps (gateway_mux proxy)
  unfolding gateway_mux
  gateway_mux-Keeps proxy k r x p = elim (Bool-cases (str_eq r.path "/proxy")) [
    | inl exact ↦ rw exact (k r x p)
    | inr longer ↦ elim (Bool-cases (starts_with r.path "/proxy/")) [
      | inl below ↦ rw (longer, below) (k _ x p)
      | inr elsewhere ↦ rw (longer, elsewhere) p
    ]
  ]

  pub gateway-Keeps :
      (instance_id : String) (proxy : Handler S)
      → Keeps proxy
      → Keeps (gateway instance_id (gateway_mux proxy))
  gateway-Keeps instance_id proxy k r x p = rw (gateway-eq instance_id (gateway_mux proxy)) (
      logged-Keeps _
        (request_id-Keeps _
          (instance_header-Keeps instance_id _ (client_id-Keeps _ (gateway_mux-Keeps proxy k))))
        r x p)

  pub admin-Keeps :
      (instance_id : String) (mux : Handler S) → Keeps mux → Keeps (admin instance_id mux)
  unfolding admin nest
  admin-Keeps instance_id mux k r x p =
      rw
        (chain-eq-nest {S = S}
          (recovery ∷ access_log ∷ cors ∷ request_id ∷ instance_header instance_id ∷ []) mux)
        (logged-Keeps _
          (cors-Keeps _ (request_id-Keeps _ (instance_header-Keeps instance_id mux k))) r x p)
