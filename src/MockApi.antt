-- ===== src/MockApi.antt =====
-- The stub upstream of mock-api/main.go. What rand gives, the latency's text and the time are arguments.
use vegait.Prelude.{
  ℕ, ◌+◌, Bool, true, false, [], ◌∷◌, String, str_eq, pos, ◌≡◌, refl, ◌⊎◌, inl, inr, some, none,
  if◌then◌else◌, Bool-cases,
}
use vegait.Http.{
  Request, Response, Exchange, returned, Handler, json, object, string, number, set_header,
  write_header, write,
}
use vegait.Http.Middleware.{with_response}
use vegait.Http.Stack.Answers.{exchange}
use vegait.Http.Stack.ClientIds.{status}

-- What a request meets: `rand.Intn(190)`, whether `rand.Float64() < 0.05`, `fmt.Sprintf("%dms",
-- ...)` and the time.
pub record Meets : Type 0 where
  pub intn : ℕ
  pub fails : Bool
  pub show_ms : ℕ → String
  pub now : String

abbrev latency_ms : Meets → ℕ
latency_ms m = 10 + m.intn

abbrev mock_response : Meets → Request → Response → Response
mock_response m r w =
    let w' = set_header "Content-Type" "application/json" w in
    if m.fails
    then write
        (object (
          ("error", string "simulated upstream error")
          ∷ ("latency", string (m.show_ms (latency_ms m)))
          ∷ []))
        (write_header 500 w')
    else write
        (object (
          ("message", string "mock response")
          ∷ ("path", string r.path)
          ∷ ("method", string r.method)
          ∷ ("latency_ms", number (pos (latency_ms m)))
          ∷ ("timestamp", string m.now)
          ∷ []))
        (write_header 200 w')

module _ {S : Type 0} where
  unfoldable pub handle_mock : Meets → Handler S
  unfolding set_header write_header write
  handle_mock m r x = returned (with_response (mock_response m r) x)

  -- The mux of main: "/health", and handleMock for every other path.
  unfoldable pub mock_mux : Meets → Handler S
  unfolding handle_mock set_header write
  mock_mux m r x =
      if str_eq r.path "/health"
      then returned (
          with_response
            (λ w.
              write (json (("status", "ok") ∷ [])) (set_header "Content-Type" "application/json" w))
            x)
      else handle_mock m r x

  -- A request is answered with 200, or, outside "/health" and where it is to fail, with 500. Nothing was
  -- sent before.
  pub mock_mux-status :
      (m : Meets) (r : Request) (x : Exchange S)
      → x.response.sent ≡ none
      → (status (exchange (mock_mux m r x)).response ≡ some 200)
        ⊎ ((str_eq r.path "/health" ≡ false)
            × (m.fails ≡ true)
            × (status (exchange (mock_mux m r x)).response ≡ some 500))
  unfolding mock_mux handle_mock set_header write_header write
  mock_mux-status m r x unsent = elim (Bool-cases (str_eq r.path "/health")) [
    | inl health ↦ rw health (inl (rw unsent refl))
    | inr other ↦ elim (Bool-cases m.fails) [
      | inl fails ↦ rw (other, fails) (inr (refl, refl, rw unsent refl))
      | inr works ↦ rw (other, works) (inl (rw unsent refl))
    ]
  ]
