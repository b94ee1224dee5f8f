-- ===== src/Proxy/Forward.antt =====
-- forwardRequest of backend/internal/proxy/proxy.go: the outbound request, and what is made of the
-- upstream's response.
use Prim.Native.String
use vegait.Prelude.{ℕ, zero, suc, List, [], ◌∷◌, Option, none, some, String, str_eq, if◌then◌else◌}
use vegait.Http.{Header, get, set, Request}

pub record OutRequest : Type 0 where
  pub method : String
  pub url : String
  pub header : Header
  pub body : List ℕ

-- What becomes of an outbound request: http.NewRequest refuses it, client.Do fails, the body cannot be
-- read, or a whole response comes. The client library passes on any code of three digits, below 100
-- too, but of 1xx only 101.
pub data Upstream : Type 0 where
  malformed unreachable : String → Upstream
  unreadable : ℕ → Header → String → Upstream
  answered : ℕ → Header → List ℕ → Upstream

-- The results of forwardRequest; none is nil.
pub record Forwarded : Type 0 where
  pub status_code : ℕ
  pub body : List ℕ
  pub header : Header
  pub failure : Option String

unfoldable pub take : ℕ → List ℕ → List ℕ
take zero bs = []
take (suc n) [] = []
take (suc n) (b ∷ bs) = b ∷ take n bs

-- The loop that copies four headers, those that are there.
copy_headers : List String → Header → Header → Header
copy_headers [] from to = to
copy_headers (k ∷ ks) from to =
    let v = get k from in copy_headers ks from (if str_eq v "" then to else set k v to)

unfoldable pub outbound : Request → String → OutRequest
unfolding copy_headers
outbound r target_url = record {
  method = r.method;
  url = target_url;
  header =
      copy_headers ("Content-Type" ∷ "Accept" ∷ "Authorization" ∷ "User-Agent" ∷ []) r.header [];
  body = r.body;
}

unfoldable pub forwarded : Upstream → Forwarded
unfolding take
forwarded (malformed e) = record {
  status_code = 502;
  body = [];
  header = [];
  failure = some (String.◌++◌ "failed to create outbound request: " e);
}
forwarded (unreachable e) = record {
  status_code = 502;
  body = [];
  header = [];
  failure = some (String.◌++◌ "upstream request failed: " e);
}
forwarded (unreadable status header e) = record {
  status_code = status;
  body = [];
  header = header;
  failure = some (String.◌++◌ "failed to read upstream body: " e);
}
forwarded (answered status header body) = record {
  status_code = status;
  body = take 10_485_760 body;
  header = header;
  failure = none;
}
