-- ===== src/Admin/Routes.antt =====
-- RegisterRoutes of backend/internal/handlers/handlers.go, with the ServeMux that it fills: a pattern that
-- does not end in a slash is a path.
use vegait.Prelude.{ℕ, Bool, List, [], ◌∷◌, Option, String, str_eq, ℤ, if◌then◌else◌}
use vegait.Database.Limits.{Table}
use vegait.Limiter.Manager.{Manager}
use vegait.Logger.{Async}
use vegait.Http.{Value, Outcome, returned, panicked, Handler}
use vegait.Admin.{
  UpsertClientRequest, Executed, upsert_client, list_clients, health_check, deep_health_check,
  logger_stats, get_analytics_summary, get_analytics_trend, get_live_timeseries,
}

-- What a request to the admin server meets outside the handlers' state: the time, whether PostgreSQL
-- answers a ping, the URL's parameters, the reading of the body, and what the statements give.
pub record Meets : Type 0 where
  pub now : String
  pub pg_ok : Bool
  pub query : String → String
  pub decode : List ℕ → Option UpsertClientRequest
  pub executed : Executed
  pub clients : Option (List (Option (String × ℤ × ℤ)))
  pub summary : String → ℤ → Option (List (String × Value))
  pub trend : String → ℤ → Option (List (List (String × Value)))
  pub live : String → ℤ → Option (List (List (String × Value)))

module _ {S T : Type 0} (part : S → T) (put : T → S → S) where
  abbrev pub put_back : S → Outcome T → Outcome S
  put_back s (returned x) =
      returned (record { response = x.response; lines = x.lines; state = put x.state s })
  put_back s (panicked e x) =
      panicked e (record { response = x.response; lines = x.lines; state = put x.state s })

  -- A handler that works on a part of the state.
  unfoldable pub on : Handler T → Handler S
  on h r x =
      put_back x.state
        (h r (record { response = x.response; lines = x.lines; state = part x.state }))

-- The parts of the state that Admin points to.
pub record Parts (S L Conn : Type 0) : Type 0 where
  pub table : S → Table
  pub put_table : Table → S → S
  pub manager : S → Manager L
  pub put_manager : Manager L → S → S
  pub logger : S → Async Conn
  pub put_logger : Async Conn → S → S

module _ {S L Conn : Type 0} (parts : Parts S L Conn) where
  unfoldable pub register_routes : Meets → List (String × Handler S)
  register_routes m =
      ("/health", on parts.manager parts.put_manager (health_check m.now))
      ∷ ("/health/deep", on parts.manager parts.put_manager (deep_health_check m.now m.pg_ok))
      ∷ ("/api/analytics/summary", get_analytics_summary m.summary m.query)
      ∷ ("/api/analytics/trend", get_analytics_trend m.trend m.query)
      ∷ ("/api/analytics/live", get_live_timeseries m.live m.query)
      ∷ ("/api/clients", on parts.table parts.put_table (list_clients m.clients))
      ∷ ("/api/clients/upsert", on parts.table parts.put_table (upsert_client m.decode m.executed))
      ∷ ("/api/logger/stats", on parts.logger parts.put_logger logger_stats)
      ∷ []

module _ {S : Type 0} where
  -- ServeMux, with the handler of "/" last.
  unfoldable pub serve_mux : List (String × Handler S) → Handler S → Handler S
  serve_mux [] root r x = root r x
  serve_mux ((path, h) ∷ routes) root r x =
      let rest = serve_mux routes root in if str_eq r.path path then h r x else rest r x
