-- ===== src/Admin/Lines.antt =====
-- The handlers of backend/internal/handlers/handlers.go print no line of the middlewares' own.
use vegait.Prelude.{
  ℕ, ◌≡◌, refl, List, Option, none, some, String, str_eq, ℤ, not, Bool-cases, inl, inr,
}
use vegait.Database.Limits.{Table}
use vegait.Http.{Exchange, Value}
use vegait.Http.Stack.Answers.{KeepsLines}
use vegait.Admin.{
  UpsertClientRequest, Executed, done, refused, unconfirmed, invalid, exec_upsert, upsert_decoded,
  upsert_client, list_clients, get_analytics_summary, get_analytics_trend, get_live_timeseries,
  analytics, analytics_summary,
}

pub list_clients-KeepsLines :
    (rows : Option (List (Option (String × ℤ × ℤ)))) → KeepsLines (list_clients rows)
unfolding list_clients
list_clients-KeepsLines none req x = refl
list_clients-KeepsLines (some rows) req x = refl

exec_upsert-lines :
    (e : Executed) (q : UpsertClientRequest) (x : Exchange Table)
    → (exec_upsert e q x).lines ≡ x.lines
exec_upsert-lines (refused e) q x = refl
exec_upsert-lines (unconfirmed e) q x = refl
exec_upsert-lines done q x = refl

upsert_decoded-lines :
    (e : Executed) (decoded : Option UpsertClientRequest) (x : Exchange Table)
    → (upsert_decoded e decoded x).lines ≡ x.lines
upsert_decoded-lines e none x = refl
upsert_decoded-lines e (some q) x = elim (Bool-cases (invalid q)) [
  | inl bad ↦ rw bad refl
  | inr good ↦ rw good (exec_upsert-lines e q x)
]

pub upsert_client-KeepsLines :
    (decode : List ℕ → Option UpsertClientRequest) (e : Executed)
    → KeepsLines (upsert_client decode e)
unfolding upsert_client
upsert_client-KeepsLines decode e req x = elim (Bool-cases (not (str_eq req.method "POST"))) [
  | inl other ↦ rw other refl
  | inr post ↦ rw post (upsert_decoded-lines e (decode req.body) x)
]

module _ {S : Type 0} where
  analytics-lines :
      (message : String) (points : Option (List (List (String × Value)))) (x : Exchange S)
      → (analytics message points x).lines ≡ x.lines
  analytics-lines message none x = refl
  analytics-lines message (some points) x = refl

  analytics_summary-lines :
      (summary : Option (List (String × Value))) (x : Exchange S)
      → (analytics_summary summary x).lines ≡ x.lines
  analytics_summary-lines none x = refl
  analytics_summary-lines (some summary) x = refl

  pub get_analytics_summary-KeepsLines :
      (fetch : String → ℤ → Option (List (String × Value))) (query : String → String)
      → KeepsLines (get_analytics_summary {S = S} fetch query)
  unfolding get_analytics_summary
  get_analytics_summary-KeepsLines fetch query req x = analytics_summary-lines _ x

  pub get_analytics_trend-KeepsLines :
      (fetch : String → ℤ → Option (List (List (String × Value)))) (query : String → String)
      → KeepsLines (get_analytics_trend {S = S} fetch query)
  unfolding get_analytics_trend
  get_analytics_trend-KeepsLines fetch query req x = analytics-lines _ _ x

  pub get_live_timeseries-KeepsLines :
      (fetch : String → ℤ → Option (List (List (String × Value)))) (query : String → String)
      → KeepsLines (get_live_timeseries {S = S} fetch query)
  unfolding get_live_timeseries
  get_live_timeseries-KeepsLines fetch query req x = analytics-lines _ _ x
