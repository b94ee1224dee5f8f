-- ===== src/Service/Examples.antt =====
-- The theorems about backend/cmd/server/main.go at concrete inputs.
use vegait.Prelude.{◌≡◌, ◌⊎◌, All, false, true, refl, pos, List, [], ◌∷◌, none, some}
use vegait.Database.{LogEntry}
use vegait.Database.Limits.{no_rows}
use vegait.Database.Migrations.{Server, Answers, Container, opened, close, seeds}
use vegait.Limiter.Redis.Reference.{reference, empty_store}
use vegait.Limiter.Manager.{new}
use vegait.Limiter.Examples.{bucket}
use vegait.Limiter.Allow.{delivered}
use vegait.Database.Reference.{table, entry}
use vegait.Logger.{Logger, running, stopped, works, quits, takes, Event, Fate, run}
use vegait.Logger.Examples.{quiet}
use vegait.Http.{Request, fresh}
use vegait.Http.Middleware.{request_id_from_context}
use vegait.Http.Stack.Answers.{AnswersWith}
use vegait.Proxy.{Outside, unreadable, Gateway}
use vegait.Admin.{done}
use vegait.Admin.Routes.{Meets}
use vegait.Service.{State, Setup, Arrival, to_gateway, to_admin, admin_server}
use vegait.Service.Lines.{admin_server-AnswersWith}
use vegait.Service.Shutdown.{waiting, second_panicked, all_stopped, shut_down, shut_down-panics}

abbrev setup : Setup
setup = record {
  config = record {
    mock_api_url = "http://mock-api:9090";
    default_rate_limit = pos 60;
    default_window_secs = pos 60;
  };
  dashboard = none;
  instance_id = "gw-1";
}

abbrev answers : Answers
answers = record { ping = true; create_error = none; count_error = none; seed_error = none }

abbrev empty : Server
empty = record { client_limits = none; request_logs = none }

abbrev shared : Gateway reference bucket (List LogEntry)
shared = record {
  limits = record { manager = new (some "5f2a"); store = empty_store };
  calls = [];
  logger = quiet;
}

abbrev upsert_request : Request
upsert_request = record {
  method = "POST";
  path = "/api/clients/upsert";
  header = [];
  body = b'{' ∷ b'}' ∷ [];
  remote_addr = "10.0.0.1:80";
  request_id = none;
  random = [];
}

abbrev proxy_request : Request
proxy_request = record upsert_request {
  method = "GET";
  path = "/proxy/a";
  header = ("X-Client-ID", "b") ∷ [];
}

abbrev meets : Meets
meets = record {
  now = "2026-01-01T00:00:00Z";
  pg_ok = true;
  query = λ key. "";
  decode = λ body. some (record { client_id = "b"; rate_limit = pos 5; window_seconds = pos 10 });
  executed = done;
  clients = none;
  summary = λ client days. none;
  trend = λ client days. none;
  live = λ client minutes. none;
}

abbrev outside : Outside
outside = record {
  query = λ client. no_rows;
  net = record { now_ns = 7_000_000_000; redis_ms = 7003; first = delivered; second = delivered };
  now = 7_000_000_001;
  upstream = λ q. unreadable 200 [] "unexpected EOF";
  latency_ms = 5;
}

abbrev arrivals : List Arrival
arrivals = to_admin meets upsert_request ∷ to_gateway none outside proxy_request ∷ []

abbrev seeded : State reference bucket (List LogEntry)
seeded = record { table = seeds; shared = shared }

abbrev index : Request
index = record upsert_request { method = "GET"; path = "/" }

admin_server-AnswersWith_example : AnswersWith "unknown" [] (
    admin_server
      (some (λ req w. (some "nil map", w)))
      "gw-1"
      meets
      index
      (record { response = fresh; lines = []; state = seeded }))
unfolding request_id_from_context
admin_server-AnswersWith_example =
    admin_server-AnswersWith reference bucket (List LogEntry) (some (λ req w. (some "nil map", w)))
      "gw-1" meets index (record { response = fresh; lines = []; state = seeded })

abbrev pools : Container
pools = record { pg = some opened; redis = some opened }

-- One worker, with an entry in the channel.
abbrev logging : Logger (List LogEntry)
logging = record { shared = record quiet { buffer = entry "a" ∷ [] }; workers = running [] ∷ [] }

-- The worker sees quit, takes the entry and flushes its batch.
abbrev winding_down : List Event
winding_down = works 0 quits ∷ works 0 takes ∷ works 0 takes ∷ []

shut_down-panics_example :
    (l' : Logger (List LogEntry)) × (fs : List Fate) × (run table winding_down
        (record logging { shared = record logging.shared { quit = true } })
      ≡ some (l', fs))
    × (((all_stopped l'.workers ≡ false) × (shut_down table winding_down logging pools ≡ waiting))
        ⊎ (All (λ w. w ≡ stopped) l'.workers
            × (shut_down table winding_down logging pools ≡ second_panicked l' fs (close pools))))
shut_down-panics_example =
    shut_down-panics table winding_down logging pools refl ((λ h. cc), ((λ h. cc), ((λ h. cc), tt)))
