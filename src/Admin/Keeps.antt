-- ===== src/Admin/Keeps.antt =====
-- What the handlers and the routes of backend/internal/handlers/handlers.go keep of the state.
use vegait.Prelude.{List, [], ◌∷◌, Option, none, some, String, str_eq, ℤ, All, Bool-cases, inl, inr}
use vegait.Http.{Exchange, Outcome, returned, panicked, Handler, Value}
use vegait.Http.Stack.Answers.{exchange}
use vegait.Http.Stack.Keeps.{Keeps}
use vegait.Admin.{
  list_clients, get_analytics_summary, get_analytics_trend, get_live_timeseries, analytics,
  analytics_summary,
}
use vegait.Admin.Clients.{IsPositive}
use vegait.Admin.Routes.{put_back, on, serve_mux}

module _ {S T : Type 0} (P : S → Type 0) (Q : T → Type 0) (part : S → T) (put : T → S → S)
    (into : (s : S) → P s → Q (part s)) (back : (t : T) (s : S) → Q t → P s → P (put t s)) where
  put_back-Keeps :
      (s : S) (o : Outcome T)
      → P s
      → Q (exchange o).state
      → P (exchange (put_back part put s o)).state
  put_back-Keeps s (returned x) p q = back x.state s q p
  put_back-Keeps s (panicked e x) p q = back x.state s q p

  -- A handler on a part keeps a property of the whole if it keeps one of the part.
  pub on-Keeps : (h : Handler T) → Keeps Q h → Keeps P (on part put h)
  unfolding on
  on-Keeps h k r x p = put_back-Keeps x.state _ p (k r _ (into x.state p))

pub serve_mux-Keeps :
    {S : Type 0} (P : S → Type 0) (routes : List (String × Handler S)) (root : Handler S)
    → All (λ (e : String × Handler S). Keeps P e.1) routes
    → Keeps P root
    → Keeps P (serve_mux routes root)
unfolding serve_mux
serve_mux-Keeps P [] root ks k r x p = k r x p
serve_mux-Keeps P ((path, h) ∷ routes) root ks k r x p = elim (Bool-cases (str_eq r.path path)) [
  | inl here ↦ rw here (ks.0 r x p)
  | inr below ↦ rw below (serve_mux-Keeps P routes root ks.1 k r x p)
]

pub list_clients-Keeps :
    (rows : Option (List (Option (String × ℤ × ℤ)))) → Keeps (All IsPositive) (list_clients rows)
unfolding list_clients
list_clients-Keeps none req x p = p
list_clients-Keeps (some rows) req x p = p

module _ {S : Type 0} (P : S → Type 0) where
  analytics-Keeps :
      (message : String) (points : Option (List (List (String × Value)))) (x : Exchange S)
      → P x.state
      → P (analytics message points x).state
  analytics-Keeps message none x p = p
  analytics-Keeps message (some points) x p = p

  analytics_summary-Keeps :
      (summary : Option (List (String × Value))) (x : Exchange S)
      → P x.state
      → P (analytics_summary summary x).state
  analytics_summary-Keeps none x p = p
  analytics_summary-Keeps (some summary) x p = p

  pub get_analytics_summary-Keeps :
      (fetch : String → ℤ → Option (List (String × Value))) (query : String → String)
      → Keeps P (get_analytics_summary fetch query)
  unfolding get_analytics_summary
  get_analytics_summary-Keeps fetch query req x p = analytics_summary-Keeps _ x p

  pub get_analytics_trend-Keeps :
      (fetch : String → ℤ → Option (List (List (String × Value)))) (query : String → String)
      → Keeps P (get_analytics_trend fetch query)
  unfolding get_analytics_trend
  get_analytics_trend-Keeps fetch query req x p = analytics-Keeps _ _ x p

  pub get_live_timeseries-Keeps :
      (fetch : String → ℤ → Option (List (List (String × Value)))) (query : String → String)
      → Keeps P (get_live_timeseries fetch query)
  unfolding get_live_timeseries
  get_live_timeseries-Keeps fetch query req x p = analytics-Keeps _ _ x p
