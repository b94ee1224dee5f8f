-- ===== src/Service/Lines.antt =====
-- The lines that the admin server of backend/cmd/server/main.go logs, with its routes inside.
use vegait.Prelude.{
  ◌≡◌, refl, ◌∙◌, List, [], ◌∷◌, Option, none, some, String, str_eq, All, Bool-cases, inl, inr,
}
use vegait.Limiter.Redis.{Redis}
use vegait.Limiter.Manager.{RateLib}
use vegait.Http.{Request, Response, Exchange, Outcome, returned, panicked, Handler}
use vegait.Http.Middleware.{request_id_from_context}
use vegait.Http.Stack.Answers.{exchange, KeepsLines, AnswersWith, admin-AnswersWith}
use vegait.Admin.{upsert_client, list_clients, health_check, deep_health_check, logger_stats}
use vegait.Admin.Lines.{
  upsert_client-KeepsLines, list_clients-KeepsLines, get_analytics_summary-KeepsLines,
  get_analytics_trend-KeepsLines, get_live_timeseries-KeepsLines,
}
use vegait.Admin.Routes.{Meets, on, put_back, register_routes, serve_mux}
use vegait.Service.{State, parts, served, root, admin_server}

put_back-lines :
    {S T : Type 0} (part : S → T) (put : T → S → S) (s : S) (o : Outcome T)
    → (exchange (put_back part put s o)).lines ≡ (exchange o).lines
put_back-lines part put s (returned x) = refl
put_back-lines part put s (panicked e x) = refl

on-KeepsLines :
    {S T : Type 0} (part : S → T) (put : T → S → S) (h : Handler T)
    → KeepsLines h
    → KeepsLines (on part put h)
unfolding on
on-KeepsLines {S} {T} part put h k r x =
    let y : Exchange T = record { response = x.response; lines = x.lines; state = part x.state } in
    put_back-lines part put x.state (h r y) ∙ k r y

serve_mux-KeepsLines :
    {S : Type 0} (routes : List (String × Handler S)) (root : Handler S)
    → All (λ (e : String × Handler S). KeepsLines e.1) routes
    → KeepsLines root
    → KeepsLines (serve_mux routes root)
unfolding serve_mux
serve_mux-KeepsLines [] root ks k r x = k r x
serve_mux-KeepsLines ((path, h) ∷ routes) root ks k r x = elim (Bool-cases (str_eq r.path path)) [
  | inl here ↦ rw here (ks.0 r x)
  | inr below ↦ rw below (serve_mux-KeepsLines routes root ks.1 k r x)
]

module _ (r : Redis) (rate : RateLib) (Conn : Type 0) where
  served-lines :
      (panic : Option String) (x : Exchange (State r rate Conn))
      → (exchange (served panic x)).lines ≡ x.lines
  served-lines none x = refl
  served-lines (some e) x = refl

  root-KeepsLines :
      (dashboard : Option (Request → Response → Option String × Response))
      → KeepsLines (root {r = r} {rate = rate} {Conn = Conn} dashboard)
  root-KeepsLines none req x = refl
  root-KeepsLines (some files) req x = served-lines _ _

  register_routes-KeepsLines :
      (m : Meets)
      → All (λ (e : String × Handler (State r rate Conn)). KeepsLines e.1) (register_routes parts m)
  unfolding register_routes health_check deep_health_check logger_stats
  register_routes-KeepsLines m = (
    on-KeepsLines _ _ (health_check m.now) (λ req x. refl),
    (
      on-KeepsLines _ _ (deep_health_check m.now m.pg_ok) (λ req x. refl),
      (
        get_analytics_summary-KeepsLines m.summary m.query,
        (
          get_analytics_trend-KeepsLines m.trend m.query,
          (
            get_live_timeseries-KeepsLines m.live m.query,
            (
              on-KeepsLines _ _ (list_clients m.clients) (list_clients-KeepsLines m.clients),
              (
                on-KeepsLines _ _ (upsert_client m.decode m.executed)
                    (upsert_client-KeepsLines m.decode m.executed),
                (on-KeepsLines _ _ logger_stats (λ req x. refl), tt),
              ),
            ),
          ),
        ),
      ),
    ),
  )

  -- The whole admin server, with its routes and the dashboard or what stands for it, answers every
  -- request, preflights and unknown paths included, whatever the database gives and also where the file
  -- server of the dashboard panics, and prints one line for it, with the identifier of the context outside
  -- RequestID.
  pub admin_server-AnswersWith :
      (dashboard : Option (Request → Response → Option String × Response)) (instance_id : String)
      (m : Meets) (req : Request) (x : Exchange (State r rate Conn))
      → AnswersWith
          (request_id_from_context req.request_id)
          x.lines
          (admin_server dashboard instance_id m req x)
  unfolding admin_server
  admin_server-AnswersWith dashboard instance_id m req x =
      admin-AnswersWith instance_id (serve_mux (register_routes parts m) (root dashboard))
        (serve_mux-KeepsLines (register_routes parts m) (root dashboard)
          (register_routes-KeepsLines m) (root-KeepsLines dashboard))
        req x
