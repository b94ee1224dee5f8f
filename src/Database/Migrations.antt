-- ===== src/Database/Migrations.antt =====
-- Init, runMigrations and Close of backend/internal/database/database.go. What PostgreSQL and Redis
-- answer is an argument; the SQL in one Exec takes effect as a whole or, with an error, not at all.
-- The indexes of request_logs and the sizes of the connection pools are left out.
use Prim.Native.String
use vegait.Prelude.{Bool, true, false, List, [], ◌∷◌, Option, none, some, String, pos}
use vegait.Database.{LogEntry}
use vegait.Database.Limits.{Table}
use vegait.Limiter.Allow.{Result, ok, err}

-- The tables, none where one is not created yet.
pub record Server : Type 0 where
  pub client_limits : Option Table
  pub request_logs : Option (List LogEntry)

-- What PostgreSQL answers to the Ping and the three statements of runMigrations.
pub record Answers : Type 0 where
  pub ping : Bool
  pub create_error : Option String
  pub count_error : Option String
  pub seed_error : Option String

abbrev pub created {ℓ} : {A : Type ℓ} → Option (List A) → Option (List A)
created none = some []
created (some rows) = some rows

-- CREATE TABLE IF NOT EXISTS, twice.
abbrev pub create_tables : Server → Server
create_tables s = record {
  client_limits = created s.client_limits;
  request_logs = created s.request_logs;
}

abbrev pub seeds : Table
seeds =
    ("client-alpha", record { rate_limit = pos 10; window_seconds = pos 10 })
    ∷ ("client-beta", record { rate_limit = pos 100; window_seconds = pos 60 })
    ∷ ("client-gamma", record { rate_limit = pos 5000; window_seconds = pos 60 })
    ∷ []

-- The INSERT of the seeds, whose error is ignored, where there is no row.
abbrev pub seed : Option String → Option Table → Option Table
seed e none = none
seed e (some (row ∷ rows)) = some (row ∷ rows)
seed none (some []) = some seeds
seed (some e) (some []) = some []

abbrev pub seed_unless : Option String → Option String → Server → Server
seed_unless none seed_error s = record s { client_limits = seed seed_error s.client_limits }
seed_unless (some e) seed_error s = s

abbrev pub after_create : Option String → Answers → Server → Server × Option String
after_create none a s = (seed_unless a.count_error a.seed_error (create_tables s), none)
after_create (some e) a s = (s, some e)

abbrev pub after_ping : Bool → Answers → Server → Server × Option String
after_ping false a s = (s, none)
after_ping true a s = after_create a.create_error a s

unfoldable pub run_migrations : Answers → Server → Server × Option String
run_migrations a s = after_ping a.ping a s

-- A pool of connections: open, or closed.
pub data Pool : Type 0 where
  opened closed : Pool

pub record Container : Type 0 where
  pub pg : Option Pool
  pub redis : Option Pool

abbrev pub migrated : Server × Option String → Server × Result Container
migrated (s, none) = (s, ok (record { pg = some opened; redis = some opened }))
migrated (s, some e) = (s, err (String.◌++◌ "failed to run database migrations: " e))

-- Init, given the error of sql.Open. The two pings at the start only print.
unfoldable pub init : Option String → Answers → Server → Server × Result Container
unfolding run_migrations
init (some e) a s = (s, err (String.◌++◌ "failed to open postgres: " e))
init none a s = migrated (run_migrations a s)

abbrev shut : Option Pool → Option Pool
shut none = none
shut (some p) = some closed

unfoldable pub close : Container → Container
close c = record { pg = shut c.pg; redis = shut c.redis }
