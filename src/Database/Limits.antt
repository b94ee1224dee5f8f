-- ===== src/Database/Limits.antt =====
-- GetClientLimit of backend/internal/database/database.go, and the client's row that it reads.
use vegait.Prelude.{List, Option, some, none, ℤ, pos, String}
use vegait.Limiter.Manager.{load}
use vegait.Limiter.Allow.{Result, ok, err}

-- What `QueryRowContext(...).Scan` gives: the row's limit and window, sql.ErrNoRows or another error.
pub data Row : Type 0 where
  found : ℤ → ℤ → Row
  no_rows : Row
  failed : String → Row

pub record ClientLimit : Type 0 where
  pub rate_limit : ℤ
  pub window_seconds : ℤ

-- The rows of client_limits, by their client_id.
abbrev pub Table : Type 0
Table = List (String × ClientLimit)

abbrev row_of : Option ClientLimit → Row
row_of none = no_rows
row_of (some l) = found l.rate_limit l.window_seconds

-- SELECT rate_limit, window_seconds FROM client_limits WHERE client_id = $1
unfoldable pub select : Table → String → Row
select t client = row_of (load client t)

-- The limit and the window's seconds.
unfoldable pub get_client_limit : Row → Result (ℤ × ℤ)
get_client_limit (found rate_limit window_seconds) = ok (rate_limit, window_seconds)
get_client_limit no_rows = ok (pos 60, pos 60)
get_client_limit (failed e) = err e
