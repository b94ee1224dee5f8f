-- ===== src/Service.antt =====
-- The two servers of backend/cmd/server/main.go over the state that they share: the table client_limits,
-- the limiter and the logger.
pub mod Positive
pub mod Lines
pub mod Shutdown
mod Examples
use vegait.Prelude.{ℕ, Bool, List, [], ◌∷◌, Option, none, some, String, ℤ}
use vegait.Database.Limits.{Table, Row, failed, select}
use vegait.Database.Migrations.{Server, Answers, Container, init}
use vegait.Limiter.Allow.{Result, ok, err}
use vegait.Limiter.Redis.{Redis}
use vegait.Limiter.Manager.{Manager, RateLib}
use vegait.Logger.{Async}
use vegait.Http.{
  Request, Response, Exchange, Outcome, returned, panicked, Handler, text, fresh, set_header, write,
}
use vegait.Http.Middleware.{with_response}
use vegait.Http.Stack.{gateway_mux, gateway, admin}
use vegait.Http.Stack.Answers.{exchange}
use vegait.Proxy.{ProxyConfig, Outside, Gateway, serve_http}
use vegait.Admin.Routes.{Meets, Parts, on, register_routes, serve_mux}

pub record State (r : Redis) (rate : RateLib) (Conn : Type 0) : Type 0 where
  pub table : Table
  pub shared : Gateway r rate Conn

-- What a query for a client's row gives, where the database may fail.
unfoldable pub query_row : Option String → Table → String → Row
unfolding select
query_row none t client = select t client
query_row (some e) t client = failed e

module _ {r : Redis} {rate : RateLib} {Conn : Type 0} where
  abbrev parts : Parts (State r rate Conn) rate.Limiter Conn
  parts = record {
    table = λ s. s.table;
    put_table = λ t s. record s { table = t };
    manager = λ s. s.shared.limits.manager;
    put_manager = λ m s. record s {
      shared = record s.shared { limits = record s.shared.limits { manager = m } };
    };
    logger = λ s. s.shared.logger;
    put_logger = λ l s. record s { shared = record s.shared { logger = l } };
  }

  -- proxyHandler, whose query reads the table.
  unfoldable pub proxy_handler : ProxyConfig → Option String → Outside → Handler (State r rate Conn)
  unfolding serve_http query_row on
  proxy_handler cfg e o req x =
      on (λ (s : State r rate Conn). s.shared) (λ g s. record s { shared = g })
        (serve_http cfg (record o { query = query_row e x.state.table })) req x

  unfoldable pub gateway_server :
      ProxyConfig → String → Option String → Outside → Handler (State r rate Conn)
  unfolding gateway gateway_mux proxy_handler
  gateway_server cfg instance_id e o = gateway instance_id (gateway_mux (proxy_handler cfg e o))

  -- The handler of "/". Where the dashboard is built, it is http.FileServer, of which an argument says
  -- what it writes and whether it panics.
  abbrev served : Option String → Exchange (State r rate Conn) → Outcome (State r rate Conn)
  served none x = returned x
  served (some e) x = panicked e x

  abbrev root : Option (Request → Response → Option String × Response) → Handler (State r rate Conn)
  root none req x = returned (
      with_response
        (λ w.
          write (text "{\"service\":\"rate-limiter-admin\",\"dashboard\":\"not built\"}")
            (set_header "Content-Type" "application/json" w))
        x)
  root (some files) req x =
      let (panic, w) = files req x.response in served panic (with_response (λ _. w) x)

  unfoldable pub admin_server :
      Option (Request → Response → Option String × Response)
      → String
      → Meets
      → Handler (State r rate Conn)
  unfolding admin register_routes serve_mux
  admin_server dashboard instance_id m =
      admin instance_id (serve_mux (register_routes parts m) (root dashboard))

-- main's settings for the servers: the proxy's, the dashboard's files if it is built, and the instance.
pub record Setup : Type 0 where
  pub config : ProxyConfig
  pub dashboard : Option (Request → Response → Option String × Response)
  pub instance_id : String

-- A request to one of the servers, with what it meets.
pub data Arrival : Type 0 where
  to_gateway : Option String → Outside → Request → Arrival
  to_admin : Meets → Request → Arrival

-- The rows of client_limits; those of a table that is not created are none.
abbrev pub rows_of : Option Table → Table
rows_of none = []
rows_of (some t) = t

-- The state after database.Init, given the error of sql.Open, with a limiter and a logger that are
-- given. Where Init gives an error, main ends.
module _ {r : Redis} {rate : RateLib} {Conn : Type 0} where
  abbrev pub boot : Server × Result Container → Gateway r rate Conn → Option (State r rate Conn)
  boot (server, ok c) shared =
      some (record { table = rows_of server.client_limits; shared = shared })
  boot (server, err e) shared = none

  unfoldable pub started :
      Option String → Answers → Server → Gateway r rate Conn → Option (State r rate Conn)
  unfolding init
  started open_error a server shared = boot (init open_error a server) shared

module _ {r : Redis} {rate : RateLib} {Conn : Type 0} (setup : Setup) where
  unfoldable pub serve : Arrival → State r rate Conn → State r rate Conn
  unfolding gateway_server admin_server
  serve (to_gateway e o req) s =
      (exchange (
        gateway_server setup.config setup.instance_id e o req
          (record { response = fresh; lines = []; state = s }))).state
  serve (to_admin m req) s =
      (exchange (
        admin_server setup.dashboard setup.instance_id m req
          (record { response = fresh; lines = []; state = s }))).state

  unfoldable pub serve_all : List Arrival → State r rate Conn → State r rate Conn
  serve_all [] s = s
  serve_all (a ∷ more) s = serve_all more (serve a s)
