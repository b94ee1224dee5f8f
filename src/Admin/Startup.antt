-- ===== src/Admin/Startup.antt =====
-- What the migrations of backend/internal/database/database.go leave of the tables, and the settings that
-- they bring.
use vegait.Prelude.{
  ◌≡◌, refl, Bool, true, false, List, [], ◌∷◌, Option, none, some, String, All, arith,
}
use vegait.Database.{LogEntry}
use vegait.Database.Limits.{Table}
use vegait.Database.Migrations.{
  Server, Answers, created, create_tables, seeds, seed, seed_unless, after_create, after_ping,
  run_migrations,
}
use vegait.Admin.Clients.{IsPositive}

-- Every row of client_limits that there is has a name and settings above 0.
abbrev pub IsPositiveTable : Option Table → Type 0
IsPositiveTable none = Unit
IsPositiveTable (some t) = All IsPositive t

-- What was in the one is in the other, and a table with rows in it has the same rows.
abbrev pub KeepsLogs : Option (List LogEntry) → Option (List LogEntry) → Type 0
KeepsLogs none after = Unit
KeepsLogs (some rows) after = after ≡ some rows

abbrev pub KeepsLimits : Option Table → Option Table → Type 0
KeepsLimits none after = Unit
KeepsLimits (some []) after = Unit
KeepsLimits (some (row ∷ rows)) after = after ≡ some (row ∷ rows)

seeds-IsPositive : All IsPositive seeds
seeds-IsPositive = (
  (λ e. cc, omega arith, omega arith),
  ((λ e. cc, omega arith, omega arith), ((λ e. cc, omega arith, omega arith), tt)),
)

KeepsLogs-refl : (l : Option (List LogEntry)) → KeepsLogs l l
KeepsLogs-refl none = tt
KeepsLogs-refl (some rows) = refl

KeepsLimits-refl : (t : Option Table) → KeepsLimits t t
KeepsLimits-refl none = tt
KeepsLimits-refl (some []) = tt
KeepsLimits-refl (some (row ∷ rows)) = refl

created-KeepsLogs : (l : Option (List LogEntry)) → KeepsLogs l (created l)
created-KeepsLogs none = tt
created-KeepsLogs (some rows) = refl

-- The tables after the migrations, against those before.
pub record IsMigrated (before after : Server) : Type 0 where
  pub logs_kept : KeepsLogs before.request_logs after.request_logs
  pub limits_kept : KeepsLimits before.client_limits after.client_limits
  pub stays_positive : IsPositiveTable before.client_limits → IsPositiveTable after.client_limits

unchanged-IsMigrated : (s : Server) → IsMigrated s s
unchanged-IsMigrated s = record {
  logs_kept = KeepsLogs-refl s.request_logs;
  limits_kept = KeepsLimits-refl s.client_limits;
  stays_positive = λ h. h;
}

seed-KeepsLimits : (e : Option String) (t : Option Table) → KeepsLimits t (seed e (created t))
seed-KeepsLimits e none = tt
seed-KeepsLimits e (some []) = tt
seed-KeepsLimits e (some (row ∷ rows)) = refl

seed-positive :
    (e : Option String) (t : Option Table)
    → IsPositiveTable t
    → IsPositiveTable (seed e (created t))
seed-positive none none h = seeds-IsPositive
seed-positive (some e) none h = tt
seed-positive none (some []) h = seeds-IsPositive
seed-positive (some e) (some []) h = tt
seed-positive e (some (row ∷ rows)) h = h

created-KeepsLimits : (t : Option Table) → KeepsLimits t (created t)
created-KeepsLimits none = tt
created-KeepsLimits (some []) = tt
created-KeepsLimits (some (row ∷ rows)) = refl

created-positive : (t : Option Table) → IsPositiveTable t → IsPositiveTable (created t)
created-positive none h = tt
created-positive (some t) h = h

seed_unless-IsMigrated :
    (count_error seed_error : Option String) (s : Server)
    → IsMigrated s (seed_unless count_error seed_error (create_tables s))
seed_unless-IsMigrated none seed_error s = record {
  logs_kept = created-KeepsLogs s.request_logs;
  limits_kept = seed-KeepsLimits seed_error s.client_limits;
  stays_positive = seed-positive seed_error s.client_limits;
}
seed_unless-IsMigrated (some e) seed_error s = record {
  logs_kept = created-KeepsLogs s.request_logs;
  limits_kept = created-KeepsLimits s.client_limits;
  stays_positive = created-positive s.client_limits;
}

after_create-IsMigrated :
    (create_error : Option String) (a : Answers) (s : Server)
    → IsMigrated s (after_create create_error a s).0
after_create-IsMigrated none a s = seed_unless-IsMigrated a.count_error a.seed_error s
after_create-IsMigrated (some e) a s = unchanged-IsMigrated s

after_ping-IsMigrated :
    (a : Answers) (s : Server) (ping : Bool) → IsMigrated s (after_ping ping a s).0
after_ping-IsMigrated a s false = unchanged-IsMigrated s
after_ping-IsMigrated a s true = after_create-IsMigrated a.create_error a s

-- Whatever PostgreSQL answers at the start of a gateway: no log is lost, no client's limits change if
-- there are any, and limits that were all above 0 still are, with the seeds if they are put in.
pub run_migrations-IsMigrated : (a : Answers) (s : Server) → IsMigrated s (run_migrations a s).0
unfolding run_migrations
run_migrations-IsMigrated a s = after_ping-IsMigrated a s a.ping

-- A start at which every statement succeeds.
abbrev pub all_answered : Answers
all_answered = record { ping = true; create_error = none; count_error = none; seed_error = none }

created-created {ℓ} : {A : Type ℓ} (t : Option (List A)) → created (created t) ≡ created t
created-created none = refl
created-created (some t) = refl

seed-seed :
    (e : Option String) (t : Option Table)
    → seed e (created (seed none (created t))) ≡ seed none (created t)
seed-seed e none = refl
seed-seed e (some []) = refl
seed-seed e (some (row ∷ rows)) = refl

created-seed : (t : Option Table) → created (seed none (created t)) ≡ seed none (created t)
created-seed none = refl
created-seed (some []) = refl
created-seed (some (row ∷ rows)) = refl

settled : Server → Server
settled s = (run_migrations all_answered s).0

seed_unless_settles :
    (count_error seed_error : Option String) (s : Server)
    → seed_unless count_error seed_error (create_tables (settled s)) ≡ settled s
unfolding settled run_migrations
seed_unless_settles none seed_error s =
    cc (seed-seed seed_error s.client_limits, created-created s.request_logs)
seed_unless_settles (some e) seed_error s =
    cc (created-seed s.client_limits, created-created s.request_logs)

after_create_settles :
    (create_error : Option String) (a : Answers) (s : Server)
    → (after_create create_error a (settled s)).0 ≡ settled s
after_create_settles none a s = seed_unless_settles a.count_error a.seed_error s
after_create_settles (some e) a s = refl

after_ping_settles :
    (ping : Bool) (a : Answers) (s : Server) → (after_ping ping a (settled s)).0 ≡ settled s
after_ping_settles false a s = refl
after_ping_settles true a s = after_create_settles a.create_error a s

-- After a start at which every statement succeeded the tables are settled: no later start, whatever it is
-- answered, changes them.
pub run_migrations_settles :
    (a : Answers) (s : Server)
    → (run_migrations a (run_migrations all_answered s).0).0 ≡ (run_migrations all_answered s).0
unfolding run_migrations settled
run_migrations_settles a s = after_ping_settles a.ping a s
