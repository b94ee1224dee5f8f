-- ===== src/Service/Positive.antt =====
-- The limits that the gateway of backend/cmd/server/main.go asks its limiter with, from the migrations of
-- backend/internal/database/database.go on, through every request to the admin server.
use vegait.Prelude.{Option, String, ℤ, All}
use vegait.Database.Limits.{Table, get_client_limit}
use vegait.Database.Migrations.{Answers}
use vegait.Limiter.Redis.{Redis}
use vegait.Limiter.Manager.{RateLib}
use vegait.Http.Stack.Keeps.{Keeps}
use vegait.Proxy.{ProxyConfig, settings}
use vegait.Admin.Clients.{IsPositive}
use vegait.Service.{State, query_row}

module _ (r : Redis) (rate : RateLib) (Conn : Type 0) where
  abbrev Positive : State r rate Conn → Type 0
  Positive s = All IsPositive s.table

-- The limit and the window that the proxy asks the limiter with for a client, where its query of the
-- table may fail.
abbrev pub limits_of : ProxyConfig → Option String → Table → String → ℤ × ℤ
limits_of cfg e t client = settings cfg (get_client_limit (query_row e t client))
