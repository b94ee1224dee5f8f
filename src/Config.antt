-- ===== src/Config.antt =====
-- backend/internal/config/config.go. The environment and the host's name are arguments; a Duration is
-- a number of nanoseconds; an int32 and an int64 are integers in their range.
pub mod Secrets
pub mod Numbers
mod Examples
use Prim.Native.String
use vegait.Prelude.{
  ℕ, zero, suc, ◌+◌, ◌-◌, ◌*◌, ◌%◌, ◌^◌, Bool, true, false, ◌&&◌, List, [], ◌∷◌, Option, none, some,
  String, str_eq, ltb, leb, ◌==◌, ℤ, pos, negsuc, ◌*ℤ◌, wrap_int64, if◌then◌else◌,
}
use vegait.Http.{codes}
use vegait.Logger.{LogConfig}
use vegait.Proxy.{ProxyConfig, show_int}

pub record Config : Type 0 where
  pub server_port : String
  pub admin_port : String
  pub read_timeout : ℤ
  pub write_timeout : ℤ
  pub instance_id : String
  pub postgres_host : String
  pub postgres_port : String
  pub postgres_user : String
  pub postgres_password : String
  pub postgres_db : String
  pub redis_addr : String
  pub redis_password : String
  pub default_rate_limit : ℤ
  pub default_window_secs : ℤ
  pub circuit_breaker_limit : ℤ
  pub log_buffer_size : ℤ
  pub log_flush_interval : ℤ
  pub log_batch_size : ℤ
  pub log_worker_count : ℤ
  pub mock_api_url : String

-- os.LookupEnv
abbrev pub Env : Type 0
Env = String → Option String

-- strconv.Atoi: a sign or none, digits, and a value in the range of int64.
abbrev digits_value : ℕ → List ℕ → Option ℕ
digits_value acc [] = some acc
digits_value acc (c ∷ cs) =
    let rest = digits_value (acc * 10 + (c - 48)) cs in if leb 48 c && leb c 57 then rest else none

abbrev unsigned : List ℕ → Option ℕ
unsigned [] = none
unsigned (c ∷ cs) = digits_value 0 (c ∷ cs)

-- The number of a sign and its digits, if they fit.
abbrev positive : Option ℕ → Option ℤ
positive none = none
positive (some n) = if ltb n (2 ^ 63) then some (pos n) else none

abbrev negate : ℕ → ℤ
negate zero = pos 0
negate (suc n) = negsuc n

abbrev negative : Option ℕ → Option ℤ
negative none = none
negative (some n) = if leb n (2 ^ 63) then some (negate n) else none

abbrev atoi_codes : List ℕ → Option ℤ
atoi_codes [] = none
atoi_codes (c ∷ cs) =
    if c == b'-'
    then negative (unsigned cs)
    else if c == b'+'
    then positive (unsigned cs)
    else positive (unsigned (c ∷ cs))

unfoldable pub atoi : String → Option ℤ
atoi s = atoi_codes (codes s)

abbrev pub or_else {ℓ} : {A : Type ℓ} → A → Option A → A
or_else fallback none = fallback
or_else fallback (some a) = a

unfoldable pub env_str : Env → String → String → String
env_str env key fallback = or_else fallback (env key)

unfoldable pub env_int : Env → String → ℤ → ℤ
env_int env key fallback = elim (env key) [ none ↦ fallback | some v ↦ or_else fallback (atoi v) ]

unfoldable pub env_duration : Env → String → ℤ → ℤ
unfolding env_int ◌*ℤ◌
env_duration env key fallback_ms = wrap_int64 (env_int env key fallback_ms *ℤ pos 1_000_000)

-- int32(n)
abbrev signed32 : ℕ → ℤ
signed32 b = if ltb b (2 ^ 31) then pos b else negsuc (2 ^ 32 - 1 - b)

unfoldable pub to_int32 : ℤ → ℤ
to_int32 (pos n) = signed32 (n % 2 ^ 32)
to_int32 (negsuc n) = signed32 (2 ^ 32 - 1 - n % 2 ^ 32)

-- `os.Hostname()`, none for an error
unfoldable pub default_hostname : Option String → String
default_hostname none = "gateway"
default_hostname (some h) = if str_eq h "" then "gateway" else h

unfoldable pub load : Env → Option String → Config
unfolding env_str env_int env_duration to_int32 default_hostname
load env hostname = record {
  server_port = env_str env "SERVER_PORT" "8080";
  admin_port = env_str env "ADMIN_PORT" "8081";
  read_timeout = env_duration env "READ_TIMEOUT_MS" (pos 5000);
  write_timeout = env_duration env "WRITE_TIMEOUT_MS" (pos 10_000);
  instance_id = env_str env "INSTANCE_ID" (default_hostname hostname);
  postgres_host = env_str env "POSTGRES_HOST" "localhost";
  postgres_port = env_str env "POSTGRES_PORT" "5432";
  postgres_user = env_str env "POSTGRES_USER" "postgres";
  postgres_password = env_str env "POSTGRES_PASSWORD" "password";
  postgres_db = env_str env "POSTGRES_DB" "ratelimiter";
  redis_addr = env_str env "REDIS_ADDR" "localhost:6379";
  redis_password = env_str env "REDIS_PASSWORD" "";
  default_rate_limit = env_int env "DEFAULT_RATE_LIMIT" (pos 60);
  default_window_secs = env_int env "DEFAULT_WINDOW_SECS" (pos 60);
  circuit_breaker_limit = to_int32 (env_int env "CIRCUIT_BREAKER_LIMIT" (pos 3));
  log_buffer_size = env_int env "LOG_BUFFER_SIZE" (pos 10_000);
  log_flush_interval = env_duration env "LOG_FLUSH_INTERVAL_MS" (pos 2000);
  log_batch_size = env_int env "LOG_BATCH_SIZE" (pos 500);
  log_worker_count = env_int env "LOG_WORKER_COUNT" (pos 4);
  mock_api_url = env_str env "MOCK_API_URL" "http://localhost:9090";
}

-- The texts of a format string and its arguments, in turn.
abbrev concat : List String → String
concat [] = ""
concat (s ∷ ss) = String.◌++◌ s (concat ss)

unfoldable pub dsn : Config → String
dsn c = concat (
    "host=" ∷ c.postgres_host ∷ " port=" ∷ c.postgres_port ∷ " user=" ∷ c.postgres_user
    ∷ " password=" ∷ c.postgres_password ∷ " dbname=" ∷ c.postgres_db ∷ " sslmode=disable" ∷ [])

unfoldable pub summary : Config → String
unfolding show_int
summary c = concat (
    "Config{ServerPort: "
    ∷ c.server_port
    ∷ ", AdminPort: "
    ∷ c.admin_port
    ∷ ", Redis: "
    ∷ c.redis_addr
    ∷ ", Postgres: "
    ∷ c.postgres_user
    ∷ "@"
    ∷ c.postgres_host
    ∷ ":"
    ∷ c.postgres_port
    ∷ "/"
    ∷ c.postgres_db
    ∷ ", LogBuffer: "
    ∷ show_int c.log_buffer_size
    ∷ ", LogWorkers: "
    ∷ show_int c.log_worker_count
    ∷ "}"
    ∷ [])

-- What logger.New and the proxy read of a Config.
abbrev pub log_config : Config → LogConfig
log_config c = record {
  log_buffer_size = c.log_buffer_size;
  log_flush_interval = c.log_flush_interval;
  log_batch_size = c.log_batch_size;
  log_worker_count = c.log_worker_count;
}

abbrev pub proxy_config : Config → ProxyConfig
proxy_config c = record {
  mock_api_url = c.mock_api_url;
  default_rate_limit = c.default_rate_limit;
  default_window_secs = c.default_window_secs;
}
