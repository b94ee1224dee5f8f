-- ===== src/Http/Stack/Answers.antt =====
-- What the middlewares of backend/cmd/server/main.go do for a request, whatever the handler inside
-- them does.
use text.Mathlib.Text.{starts_with}
use vegait.Prelude.{◌≡◌, refl, ◌&&◌, List, [], ◌∷◌, ◌++◌, String, str_eq, Bool-cases, inl, inr}
use vegait.Http.{
  get, Request, Line, panic_line, http_line, Exchange, Outcome, returned, panicked, Handler,
}
use vegait.Http.Middleware.{
  cors, request_id_from_context, recover, recovery, access_line, finish_access, access_log,
  request_id, instance_header, client_id,
}
use vegait.Http.Middleware.Order.{nest, chain-eq-nest}
use vegait.Http.Stack.{gateway, admin}

-- The identifier in a line of the log.
abbrev pub line_id : Line → String
line_id (panic_line id path e) = id
line_id (http_line id method path status remote) = id

module _ {ℓ} {S : Type ℓ} where
  abbrev pub exchange : Outcome S → Exchange S
  exchange (returned x) = x
  exchange (panicked e x) = x

  -- A handler that prints no line of the middlewares' own.
  abbrev pub KeepsLines : Handler S → Type ℓ
  KeepsLines h = (r : Request) (x : Exchange S) → (exchange (h r x)).lines ≡ x.lines

  -- The outcome is a response, with the lines so far and one more, of the identifier given.
  pub record AnswersWith (id : String) (lines : List Line) (o : Outcome S) : Type ℓ where
    pub answer : Exchange S
    pub is_returned : o ≡ returned answer
    pub line : Line
    pub lines_eq : answer.lines ≡ lines ++ line ∷ []
    pub line_id_eq : line_id line ≡ id

  recover-AnswersWith :
      (r : Request) (lines : List Line) (o : Outcome S)
      → (exchange o).lines ≡ lines
      → AnswersWith (request_id_from_context r.request_id) lines (recover r (finish_access r o))
  unfolding recover finish_access
  recover-AnswersWith r lines (returned x) h = record {
    answer = _;
    is_returned = refl;
    line = access_line r x.response;
    lines_eq = cc;
    line_id_eq = refl;
  }
  recover-AnswersWith r lines (panicked e x) h = record {
    answer = _;
    is_returned = refl;
    line = panic_line (request_id_from_context r.request_id) r.path e;
    lines_eq = cc;
    line_id_eq = refl;
  }

  request_id-KeepsLines : (h : Handler S) → KeepsLines h → KeepsLines (request_id h)
  unfolding request_id
  request_id-KeepsLines h k r x = k _ _

  instance_header-KeepsLines :
      (id : String) (h : Handler S) → KeepsLines h → KeepsLines (instance_header id h)
  unfolding instance_header
  instance_header-KeepsLines id h k r x = k _ _

  client_id-KeepsLines : (h : Handler S) → KeepsLines h → KeepsLines (client_id h)
  unfolding client_id
  client_id-KeepsLines h k r x =
      elim (Bool-cases (starts_with r.path "/proxy" && str_eq (get "X-Client-ID" r.header) "")) [
        | inl refused ↦ rw refused refl
        | inr let_by ↦ rw let_by (k r x)
      ]

  cors-KeepsLines : (h : Handler S) → KeepsLines h → KeepsLines (cors h)
  unfolding cors
  cors-KeepsLines h k r x = elim (Bool-cases (str_eq r.method "OPTIONS")) [
    | inl preflight ↦ rw preflight refl
    | inr other ↦ rw other (k r _)
  ]

  logged-AnswersWith :
      (h : Handler S)
      → KeepsLines h
      → (r : Request) (x : Exchange S)
      → AnswersWith (request_id_from_context r.request_id) x.lines (recovery (access_log h) r x)
  unfolding recovery access_log
  logged-AnswersWith h k r x = recover-AnswersWith r x.lines _ (k r _)

  pub gateway-eq :
      (instance_id : String) (mux : Handler S)
      → gateway instance_id mux
        ≡ recovery (access_log (request_id (instance_header instance_id (client_id mux))))
  unfolding gateway nest
  gateway-eq instance_id mux =
      chain-eq-nest
        (recovery ∷ access_log ∷ request_id ∷ instance_header instance_id ∷ client_id ∷ []) mux

  -- The gateway answers every request, also where the handler inside panics, and it prints one line for
  -- it. The identifier in that line is the one that the request's context had outside RequestID, not
  -- the one that RequestID gives the request: "unknown" for every request of a client. The handler
  -- inside is any that prints no such line itself.
  pub gateway-AnswersWith :
      (instance_id : String) (mux : Handler S)
      → KeepsLines mux
      → (r : Request) (x : Exchange S)
      → AnswersWith (request_id_from_context r.request_id) x.lines (gateway instance_id mux r x)
  gateway-AnswersWith instance_id mux k r x = rw (gateway-eq instance_id mux) (
      logged-AnswersWith _
        (request_id-KeepsLines _
          (instance_header-KeepsLines instance_id _ (client_id-KeepsLines mux k)))
        r x)

  -- So does the admin server, around its routes.
  pub admin-AnswersWith :
      (instance_id : String) (mux : Handler S)
      → KeepsLines mux
      → (r : Request) (x : Exchange S)
      → AnswersWith (request_id_from_context r.request_id) x.lines (admin instance_id mux r x)
  unfolding admin nest
  admin-AnswersWith instance_id mux k r x =
      rw
        (chain-eq-nest {S = S}
          (recovery ∷ access_log ∷ cors ∷ request_id ∷ instance_header instance_id ∷ []) mux)
        (logged-AnswersWith _
          (cors-KeepsLines _
            (request_id-KeepsLines _ (instance_header-KeepsLines instance_id mux k)))
          r x)
