-- ===== src/Admin.antt =====
-- Admin of backend/internal/handlers/handlers.go, over the table client_limits and the limiter's and
-- the logger's state. How a statement ends is an argument, as is what encoding/json
-- reads from a body. Log lines are left out; a query that fails stands for a timeout.
pub mod Clients
pub mod Startup
pub mod Queries
pub mod Routes
pub mod Keeps
pub mod Lines
mod Examples
use vegait.Prelude.{
  ℕ, Bool, true, false, not, ◌&&◌, ◌||◌, List, [], ◌∷◌, ◌++◌, Option, none, some, String, str_eq,
  map, ℤ, pos, leb_ℤ, if◌then◌else◌,
}
use vegait.Config.{atoi}
use vegait.Database.Limits.{ClientLimit, Table, Row, found, no_rows, failed}
use vegait.Limiter.Manager.{Manager, is_redis_healthy, load, store}
use vegait.Logger.{Async, stats}
use vegait.Http.{
  Request, Response, Value, string, number, boolean, json, object, array, Exchange, returned,
  Handler, write_json,
}
use vegait.Http.Middleware.{with_response}

-- INSERT … ON CONFLICT (client_id) DO UPDATE
unfoldable pub upsert : String → ℤ → ℤ → Table → Table
unfolding store
upsert client rate_limit window_seconds t =
    store client (record { rate_limit = rate_limit; window_seconds = window_seconds }) t

-- UpsertClientRequest, with the values that JSON leaves out at "" and 0.
pub record UpsertClientRequest : Type 0 where
  pub client_id : String
  pub rate_limit : ℤ
  pub window_seconds : ℤ

abbrev invalid : UpsertClientRequest → Bool
invalid q = str_eq q.client_id "" || leb_ℤ q.rate_limit (pos 0) || leb_ℤ q.window_seconds (pos 0)

abbrev with_table : (Table → Table) → Exchange Table → Exchange Table
with_table f x = record x { state = f x.state }

-- How the ExecContext of UpsertClient ends: it is done; it is not, and there is an error; or it is, and its
-- answer is lost or comes after the timeout, with an error too.
pub data Executed : Type 0 where
  done : Executed
  refused unconfirmed : String → Executed

-- The ExecContext of UpsertClient and the answer.
abbrev exec_upsert : Executed → UpsertClientRequest → Exchange Table → Exchange Table
exec_upsert (refused e) q x =
    with_response (write_json 500 (json (("error", "failed to upsert client") ∷ []))) x
exec_upsert (unconfirmed e) q x =
    with_response (write_json 500 (json (("error", "failed to upsert client") ∷ [])))
      (with_table (upsert q.client_id q.rate_limit q.window_seconds) x)
exec_upsert done q x =
    with_response (write_json 200 (json (("status", "ok") ∷ ("client_id", q.client_id) ∷ [])))
      (with_table (upsert q.client_id q.rate_limit q.window_seconds) x)

abbrev upsert_decoded : Executed → Option UpsertClientRequest → Exchange Table → Exchange Table
upsert_decoded e none x =
    with_response (write_json 400 (json (("error", "invalid JSON body") ∷ []))) x
upsert_decoded e (some q) x =
    if invalid q
    then with_response
        (write_json 400 (
          json
            (("error", "client_id, rate_limit (>0), and window_seconds (>0) are required") ∷ [])))
        x
    else exec_upsert e q x

unfoldable pub upsert_client : (List ℕ → Option UpsertClientRequest) → Executed → Handler Table
unfolding upsert write_json
upsert_client decode e r x =
    if not (str_eq r.method "POST")
    then returned (with_response (write_json 405 (json (("error", "method not allowed") ∷ []))) x)
    else returned (upsert_decoded e (decode r.body) x)

-- The rows of a SELECT as they are read: one that Scan cannot read is left out.
abbrev client_info : String × ℤ × ℤ → List (String × Value)
client_info (client, rate_limit, window_seconds) =
    ("client_id", string client)
    ∷ ("rate_limit", number rate_limit)
    ∷ ("window_seconds", number window_seconds)
    ∷ []

abbrev scanned : List (Option (String × ℤ × ℤ)) → List (List (String × Value))
scanned [] = []
scanned (none ∷ rows) = scanned rows
scanned (some c ∷ rows) = client_info c ∷ scanned rows

-- ListClients, given the query's rows, or none if it fails.
unfoldable pub list_clients : Option (List (Option (String × ℤ × ℤ))) → Handler Table
unfolding write_json
list_clients none r x =
    returned (with_response (write_json 500 (json (("error", "failed to query clients") ∷ []))) x)
list_clients (some rows) r x = returned (with_response (write_json 200 (array (scanned rows))) x)

-- HealthCheck and DeepHealthCheck, given the time's text and whether the ping succeeds.
unfoldable pub health_check : {L : Type 0} → String → Handler (Manager L)
unfolding write_json is_redis_healthy
health_check now r x = returned (
    with_response
      (write_json 200 (
        object (
          ("status", string "ok")
          ∷ ("redis_healthy", boolean (is_redis_healthy x.state))
          ∷ ("timestamp", string now)
          ∷ [])))
      x)

unfoldable pub deep_health_check : {L : Type 0} → String → Bool → Handler (Manager L)
unfolding write_json is_redis_healthy
deep_health_check now pg_ok r x =
    let redis_ok = is_redis_healthy x.state in
    let degraded = not pg_ok || not redis_ok in
    returned (
      with_response
        (write_json (if degraded then 503 else 200) (
          object (
            ("status", string (if degraded then "degraded" else "healthy"))
            ∷ ("postgres", boolean pg_ok)
            ∷ ("redis", boolean redis_ok)
            ∷ ("timestamp", string now)
            ∷ [])))
        x)

unfoldable pub logger_stats : {Conn : Type 0} → Handler (Async Conn)
unfolding write_json stats
logger_stats r x =
    let (logged, dropped, flush_errs) = stats x.state in
    returned (
      with_response
        (write_json 200 (
          object (
            ("total_logged", number (pos logged))
            ∷ ("total_dropped", number (pos dropped))
            ∷ ("total_flush_errors", number (pos flush_errs))
            ∷ [])))
        x)

-- httputil.QueryInt, given `r.URL.Query().Get(key)`.
unfoldable pub query_int : String → ℤ → ℤ
unfolding atoi
query_int v fallback =
    if str_eq v ""
    then fallback
    else elim (atoi v) [ none ↦ fallback | some n ↦ if leb_ℤ n (pos 0) then fallback else n ]

-- The shape of GetAnalyticsTrend and GetLiveTimeseries, and that of GetAnalyticsSummary: the query's
-- result, or a 500 with the handler's own message.
abbrev analytics :
    {S : Type 0} → String → Option (List (List (String × Value))) → Exchange S → Exchange S
analytics message none x = with_response (write_json 500 (json (("error", message) ∷ []))) x
analytics message (some points) x = with_response (write_json 200 (array points)) x

abbrev analytics_summary : {S : Type 0} → Option (List (String × Value)) → Exchange S → Exchange S
analytics_summary none x =
    with_response (write_json 500 (json (("error", "failed to fetch analytics") ∷ []))) x
analytics_summary (some summary) x = with_response (write_json 200 (object summary)) x

unfoldable pub get_analytics_summary :
    {S : Type 0} → (String → ℤ → Option (List (String × Value))) → (String → String) → Handler S
unfolding query_int write_json
get_analytics_summary fetch query r x =
    returned (analytics_summary (fetch (query "client_id") (query_int (query "days") (pos 30))) x)

unfoldable pub get_analytics_trend :
    {S : Type 0}
    → (String → ℤ → Option (List (List (String × Value))))
    → (String → String)
    → Handler S
unfolding query_int write_json
get_analytics_trend fetch query r x = returned (
    analytics "failed to fetch trend data"
      (fetch (query "client_id") (query_int (query "days") (pos 30))) x)

unfoldable pub get_live_timeseries :
    {S : Type 0}
    → (String → ℤ → Option (List (List (String × Value))))
    → (String → String)
    → Handler S
unfolding query_int write_json
get_live_timeseries fetch query r x = returned (
    analytics "failed to fetch live data"
      (fetch (query "client_id") (query_int (query "minutes") (pos 15))) x)
