-- ===== src/Http/Stack.antt =====
-- The handlers of backend/cmd/server/main.go: the middlewares around the gateway's mux and around the
-- admin's. `path.Clean`'s redirects of ServeMux are left out: `path` is clean.
pub mod Answers
pub mod ClientIds
pub mod Keeps
use Prim.Native.String.{slice, len}
use text.Mathlib.Text.{starts_with}
use vegait.Prelude.{List, [], ◌∷◌, String, str_eq, ◌||◌, if◌then◌else◌}
use vegait.Http.{Handler, Request, Exchange, returned, Line, Response, fresh, error}
use vegait.Http.Middleware.{
  recovery, access_log, request_id, instance_header, client_id, cors, chain, with_response,
}

module _ {ℓ} {S : Type ℓ} where
  -- http.StripPrefix("/proxy", handler), on a path with the prefix
  abbrev strip_prefix : Handler S → Handler S
  strip_prefix handler r x = handler (record r { path = slice r.path 6 (len r.path) }) x

  -- gatewayMux
  unfoldable pub gateway_mux : Handler S → Handler S
  unfolding error
  gateway_mux proxy r x =
      if str_eq r.path "/proxy"
      then proxy r x
      else if starts_with r.path "/proxy/"
      then strip_prefix proxy r x
      else returned (with_response (error "404 page not found" 404) x)

  -- The Handler of gatewayServer and the one of adminServer, around a mux.
  unfoldable pub gateway : String → Handler S → Handler S
  unfolding chain
  gateway instance_id mux =
      chain mux (recovery ∷ access_log ∷ request_id ∷ instance_header instance_id ∷ client_id ∷ [])

  unfoldable pub admin : String → Handler S → Handler S
  unfolding chain
  admin instance_id mux =
      chain mux (recovery ∷ access_log ∷ cors ∷ request_id ∷ instance_header instance_id ∷ [])
