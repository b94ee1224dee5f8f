-- ===== src/Http.antt =====
-- What the gateway uses of Go's net/http: header maps, requests, the response writer, and handlers
-- that return or panic. backend/internal/middleware and backend/internal/proxy are written over it.
pub mod Headers
pub mod Middleware
pub mod Stack
mod Examples
use Prim.Native.Char.{code}
use Prim.Native.String
use vegait.Prelude.{
  ℕ, ◌+◌, ◌≡◌, refl, Bool, true, false, not, ◌&&◌, List, [], ◌∷◌, ◌++◌, Option, none, some, String,
  map, leb, keep, ℤ, if◌then◌else◌,
}
use vegait.Limiter.Redis.{eq_bytes}

abbrev pub codes : String → List ℕ
codes String.[] = []
codes (String.◌∷◌ c s) = code c ∷ codes s

abbrev pub to_lower : ℕ → ℕ
to_lower c = if leb b'A' c && leb c b'Z' then c + 32 else c

-- Header names are compared in their canonical form, in which the case of letters does not count.
unfoldable pub same_name : String → String → Bool
same_name a b = eq_bytes (map to_lower (codes a)) (map to_lower (codes b))

-- http.Header, as its pairs of a name and a value in the order they were added.
abbrev pub Header : Type 0
Header = List (String × String)

-- Header.Get: the first value, "" if there is none.
unfoldable pub get : String → Header → String
get k [] = ""
get k ((j, v) ∷ h) = if same_name j k then v else get k h

-- Header.Set and Header.Add.
unfoldable pub set : String → String → Header → Header
set k v h = keep (λ (e : String × String). not (same_name e.0 k)) h ++ (k, v) ∷ []

unfoldable pub add : String → String → Header → Header
add k v h = h ++ (k, v) ∷ []

-- `request_id` is the context's value for requestIDKey; `random` holds what rand.Read gives.
pub record Request : Type 0 where
  pub method : String
  pub path : String
  pub header : Header
  pub body : List ℕ
  pub remote_addr : String
  pub request_id : Option String
  pub random : List ℕ

-- A value in JSON.
pub data Value : Type 0 where
  string : String → Value
  number : ℤ → Value
  boolean : Bool → Value

-- A piece of a body: JSON of an object of strings, of an object, or of a list of objects; text; bytes.
pub data Piece : Type 0 where
  json : List (String × String) → Piece
  object : List (String × Value) → Piece
  array : List (List (String × Value)) → Piece
  text : String → Piece
  bytes : List ℕ → Piece

-- The response writer. `sent` is what WriteHeader put on the wire; a later change of the headers
-- comes too late. `recorders` holds the status of each statusRecorder around the writer, inner first.
pub record Response : Type 0 where
  pub header : Header
  pub sent : Option (ℕ × Header)
  pub body : List Piece
  pub recorders : List ℕ

-- What the middlewares print.
pub data Line : Type 0 where
  panic_line : String → String → String → Line
  http_line : String → String → String → ℕ → String → Line

-- The response, the lines printed and the state behind the handler.
pub record Exchange {ℓ} (S : Type ℓ) : Type ℓ where
  pub response : Response
  pub lines : List Line
  pub state : S

pub data Outcome {ℓ} (S : Type ℓ) : Type ℓ where
  returned : Exchange S → Outcome S
  panicked : String → Exchange S → Outcome S

abbrev pub Handler {ℓ} : Type ℓ → Type ℓ
Handler S = Request → Exchange S → Outcome S

unfoldable pub set_header : String → String → Response → Response
unfolding set
set_header k v w = record w { header = set k v w.header }

unfoldable pub add_header : String → String → Response → Response
unfolding add
add_header k v w = record w { header = add k v w.header }

-- net/http's own WriteHeader: a second call has no effect.
abbrev pub send : ℕ → Response → Response
send status w = elim w.sent [ none ↦ record w { sent = some (status, w.header) } | some s ↦ w ]

-- The codes that net/http's WriteHeader takes for a header that is not sent yet; it panics for another.
abbrev pub valid_code : ℕ → Bool
valid_code status = leb 100 status && leb status 999

-- WriteHeader through every statusRecorder, of a valid code: each stores the code, the first one or not.
unfoldable pub write_header : ℕ → Response → Response
write_header status w = record (send status w) { recorders = map (λ _. status) w.recorders }

-- Write: an unsent header is sent with 200, behind the recorders.
unfoldable pub write : Piece → Response → Response
write b w = let w' = send 200 w in record w' { body = w'.body ++ b ∷ [] }

-- http.Error
unfoldable pub error : String → ℕ → Response → Response
unfolding set_header write_header write
error message status w = write (text message) (
    write_header status (
      set_header "X-Content-Type-Options" "nosniff"
        (set_header "Content-Type" "text/plain; charset=utf-8" w)))

-- httputil.WriteJSON of backend/internal/httputil/response.go.
unfoldable pub write_json : ℕ → Piece → Response → Response
unfolding set_header write_header write
write_json status payload w =
    write payload (write_header status (set_header "Content-Type" "application/json" w))

-- Before a handler runs.
abbrev pub fresh : Response
fresh = record { header = []; sent = none; body = []; recorders = [] }
