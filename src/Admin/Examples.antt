-- ===== src/Admin/Examples.antt =====
-- The theorems about backend/internal/handlers/handlers.go at concrete inputs.
use vegait.Prelude.{true, ℕ, ◌≡◌, refl, List, [], ◌∷◌, Option, none, some, pos, All, arith}
use vegait.Http.{Request, Exchange, returned, fresh}
use vegait.Http.Stack.Answers.{exchange}
use vegait.Database.Limits.{Table}
use vegait.Admin.{UpsertClientRequest, unconfirmed, upsert_client, query_int}
use vegait.Config.{atoi}
use vegait.Database.Migrations.{Server, Answers, run_migrations}
use vegait.Admin.Startup.{
  IsMigrated, all_answered, run_migrations-IsMigrated, run_migrations_settles,
}
use vegait.Admin.Clients.{IsPositive, Upserted, upsert_client-Upserted, upsert_client-positive}

abbrev post : Request
post = record {
  method = "POST";
  path = "/api/clients/upsert";
  header = [];
  body = b'{' ∷ b'}' ∷ [];
  remote_addr = "10.0.0.1:80";
  request_id = none;
  random = [];
}

-- A body's reading, whatever it is.
abbrev decode : List ℕ → Option UpsertClientRequest
decode body = some (record { client_id = "b"; rate_limit = pos 5; window_seconds = pos 10 })

abbrev start : Exchange Table
start = record {
  response = fresh;
  lines = [];
  state = ("a", record { rate_limit = pos 60; window_seconds = pos 60 }) ∷ [];
}

last_days : query_int "7" (pos 30) ≡ pos 7
unfolding query_int vegait.Config.atoi
last_days = refl

no_days : query_int "-7" (pos 30) ≡ pos 30
unfolding query_int vegait.Config.atoi
no_days = refl

upsert_client-Upserted_example :
    (y : Exchange Table) × (upsert_client decode
        (unconfirmed "context deadline exceeded")
        post
        start
      ≡ returned y)
    × Upserted (unconfirmed "context deadline exceeded") (decode post.body) start.state y
upsert_client-Upserted_example =
    upsert_client-Upserted decode (unconfirmed "context deadline exceeded") post start refl

start-IsPositive : All IsPositive start.state
start-IsPositive = ((λ e. cc, omega arith, omega arith), tt)

upsert_client-positive_example :
    All IsPositive
      (exchange (upsert_client decode (unconfirmed "context deadline exceeded") post start)).state
upsert_client-positive_example =
    upsert_client-positive decode (unconfirmed "context deadline exceeded") post start
      start-IsPositive

-- A server whose second table is not created yet, with a row set by hand.
abbrev half_created : Server
half_created = record {
  client_limits = some (("a", record { rate_limit = pos 60; window_seconds = pos 60 }) ∷ []);
  request_logs = none;
}

abbrev refused : Answers
refused = record {
  ping = true;
  create_error = none;
  count_error = some "timeout";
  seed_error = none;
}

run_migrations-IsMigrated_example : IsMigrated half_created (run_migrations refused half_created).0
run_migrations-IsMigrated_example = run_migrations-IsMigrated refused half_created

run_migrations_settles_example :
    (run_migrations refused (run_migrations all_answered half_created).0).0
    ≡ (run_migrations all_answered half_created).0
run_migrations_settles_example = run_migrations_settles refused half_created
