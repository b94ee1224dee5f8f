-- ===== src/Http/Middleware.antt =====
-- backend/internal/middleware/middleware.go. A middleware is a function of handlers; the duration in
-- the access log's line is left out.
pub mod Order
use Prim.Native.Char.{code}
use Prim.Native.String
use Prim.Native.String.{slice}
use text.Mathlib.Text.{starts_with}
use vegait.Prelude.{
  ℕ, zero, suc, ◌+◌, ◌/◌, ◌%◌, ◌-◌, Bool, true, false, not, ◌&&◌, List, [], ◌∷◌, ◌++◌, Option, none,
  some, String, str_eq, length, if◌then◌else◌, ◌==◌, ◌||◌, leb,
}
use vegait.Http.{
  get, Request, Response, Line, panic_line, http_line, Exchange, Outcome, returned, panicked,
  Handler, set_header, write_header, error,
}

-- RequestIDFromContext
unfoldable pub request_id_from_context : Option String → String
request_id_from_context none = "unknown"
request_id_from_context (some id) = id

-- hex.EncodeToString
abbrev hex_digit : ℕ → String
hex_digit n = slice "0123456789abcdef" n (n + 1)

abbrev encode_hex : List ℕ → String
encode_hex [] = ""
encode_hex (b ∷ bs) =
    String.◌++◌ (hex_digit (b / 16)) (String.◌++◌ (hex_digit (b % 16)) (encode_hex bs))

-- rand.Read into n bytes of zero; what it does not fill stays zero, its error being ignored.
abbrev fill : ℕ → List ℕ → List ℕ
fill zero bs = []
fill (suc n) [] = 0 ∷ fill n []
fill (suc n) (b ∷ bs) = b ∷ fill n bs

unfoldable pub generate_request_id : List ℕ → String
generate_request_id random = encode_hex (fill 8 random)

abbrev allow_origin : String → Response → Response
allow_origin origin w = set_header "Access-Control-Max-Age" "86400" (
    set_header "Access-Control-Expose-Headers"
      "X-Request-ID, X-RateLimit-Remaining, X-RateLimit-Limit"
      (set_header "Access-Control-Allow-Headers"
        "Content-Type, Authorization, X-Client-ID, X-Target-URL, X-Request-ID"
        (set_header "Access-Control-Allow-Methods" "GET, POST, PUT, DELETE, OPTIONS"
          (set_header "Access-Control-Allow-Origin" origin w))))

module _ {ℓ} {S : Type ℓ} where
  abbrev pub with_response : (Response → Response) → Exchange S → Exchange S
  with_response f x = record x { response = f x.response }

  unfoldable pub request_id : Handler S → Handler S
  unfolding set_header generate_request_id
  request_id next r x =
      let given = get "X-Request-ID" r.header in
      let id = if str_eq given "" then generate_request_id r.random else given in
      next (record r { request_id = some id }) (with_response (set_header "X-Request-ID" id) x)

  unfoldable pub cors : Handler S → Handler S
  cors next r x =
      let given = get "Origin" r.header in
      let x' = with_response (allow_origin (if str_eq given "" then "*" else given)) x in
      if str_eq r.method "OPTIONS"
      then returned (with_response (write_header 204) x')
      else next r x'

  -- The deferred function of Recovery: a line, and a 500.
  unfoldable pub recover : Request → Outcome S → Outcome S
  recover r (returned x) = returned x
  recover r (panicked e x) = returned (record x {
    lines = x.lines ++ panic_line (request_id_from_context r.request_id) r.path e ∷ [];
    response = error "{\"error\": \"internal server error\"}" 500 x.response;
  })

  unfoldable pub recovery : Handler S → Handler S
  recovery next r x = recover r (next r x)

abbrev push_recorder : Response → Response
push_recorder w = record w { recorders = 200 ∷ w.recorders }

abbrev recorded : List ℕ → ℕ
recorded [] = 200
recorded (s ∷ rest) = s

abbrev outer : List ℕ → List ℕ
outer [] = []
outer (s ∷ rest) = rest

abbrev pop_recorder : Response → Response
pop_recorder w = record w { recorders = outer w.recorders }

-- strings.SplitN(xff, ",", 2)[0]
abbrev before_comma : String → String
before_comma String.[] = String.[]
before_comma (String.◌∷◌ c s) = if code c == b',' then String.[] else String.◌∷◌ c (before_comma s)

-- unicode.IsSpace
abbrev is_space : ℕ → Bool
is_space c =
    leb 9 c && leb c 13
    || c == 32
    || c == 133
    || c == 160
    || c == 5760
    || leb 8192 c && leb c 8202
    || c == 8232
    || c == 8233
    || c == 8239
    || c == 8287
    || c == 12288

abbrev trim_left : String → String
trim_left String.[] = String.[]
trim_left (String.◌∷◌ c s) = if is_space (code c) then trim_left s else String.◌∷◌ c s

abbrev trim_right : String → String
trim_right String.[] = String.[]
trim_right (String.◌∷◌ c s) =
    let rest = trim_right s in
    if is_space (code c) && str_eq rest "" then String.[] else String.◌∷◌ c rest

-- strings.TrimSpace
abbrev trim_space : String → String
trim_space s = trim_right (trim_left s)

unfoldable pub remote_ip : Request → String
remote_ip r =
    let xff = get "X-Forwarded-For" r.header in
    let xri = get "X-Real-IP" r.header in
    if not (str_eq xff "")
    then trim_space (before_comma xff)
    else if not (str_eq xri "")
    then xri
    else r.remote_addr

abbrev pub access_line : Request → Response → Line
access_line r w =
    http_line (request_id_from_context r.request_id) r.method r.path (recorded w.recorders)
      (remote_ip r)

module _ {ℓ} {S : Type ℓ} where
  -- The line is printed if the handler returns; a panic passes it by.
  unfoldable pub finish_access : Request → Outcome S → Outcome S
  finish_access r (returned x) = returned (record x {
    lines = x.lines ++ access_line r x.response ∷ [];
    response = pop_recorder x.response;
  })
  finish_access r (panicked e x) = panicked e (with_response pop_recorder x)

  unfoldable pub access_log : Handler S → Handler S
  access_log next r x = finish_access r (next r (with_response push_recorder x))

  unfoldable pub client_id : Handler S → Handler S
  client_id next r x =
      if starts_with r.path "/proxy" && str_eq (get "X-Client-ID" r.header) ""
      then returned (with_response (error "{\"error\": \"X-Client-ID header is required\"}" 400) x)
      else next r x

  unfoldable pub instance_header : String → Handler S → Handler S
  instance_header id next r x = next r (with_response (set_header "X-Gateway-Instance" id) x)

  -- mws[i], and its call.
  abbrev apply_at : ℕ → List (Handler S → Handler S) → Handler S → Handler S
  apply_at i [] handler = handler
  apply_at zero (mw ∷ mws) handler = mw handler
  apply_at (suc i) (mw ∷ mws) handler = apply_at i mws handler

  -- The loop of Chain, from index i - 1 down to 0.
  unfoldable pub chain_loop : ℕ → List (Handler S → Handler S) → Handler S → Handler S
  chain_loop zero mws handler = handler
  chain_loop (suc i) mws handler = chain_loop i mws (apply_at i mws handler)

  unfoldable pub chain : Handler S → List (Handler S → Handler S) → Handler S
  unfolding chain_loop
  chain handler mws = chain_loop (length mws) mws handler
