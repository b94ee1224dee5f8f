-- ===== src/Config/Secrets.antt =====
-- What the startup log of backend/internal/config/config.go tells, and how the defaults start the
-- logger.
use vegait.Prelude.{◌≡◌, refl, ◌≢◌, Option, none, some, String, ℤ, pos, ap}
use vegait.Config.{Env, load, summary, env_str, env_int, or_else, atoi}

-- The two environments differ at most in the passwords.
abbrev pub SameButPasswords : Env → Env → Type 0
SameButPasswords env env' =
    (key : String) → key ≢ "POSTGRES_PASSWORD" → key ≢ "REDIS_PASSWORD" → env key ≡ env' key

module _ (env env' : Env) (same : SameButPasswords env env') where
  env_str-same :
      (key fallback : String)
      → key ≢ "POSTGRES_PASSWORD"
      → key ≢ "REDIS_PASSWORD"
      → env_str env key fallback ≡ env_str env' key fallback
  unfolding env_str
  env_str-same key fallback p q = ap (or_else fallback) (same key p q)

  env_int-same :
      (key : String) (fallback : ℤ)
      → key ≢ "POSTGRES_PASSWORD"
      → key ≢ "REDIS_PASSWORD"
      → env_int env key fallback ≡ env_int env' key fallback
  unfolding env_int
  env_int-same key fallback p q =
      ap (λ (o : Option String). elim o [ none ↦ fallback | some v ↦ or_else fallback (atoi v) ])
        (same key p q)

  -- The summary that is logged at the start is the same for two environments that differ at most in the
  -- two passwords: it tells nothing of them.
  pub load-summary_same :
      (hostname : Option String) → summary (load env hostname) ≡ summary (load env' hostname)
  unfolding summary load
  load-summary_same hostname =
      rw
        (
          env_str-same "SERVER_PORT" "8080" (λ e. cc) (λ e. cc),
          env_str-same "ADMIN_PORT" "8081" (λ e. cc) (λ e. cc),
          env_str-same "REDIS_ADDR" "localhost:6379" (λ e. cc) (λ e. cc),
          env_str-same "POSTGRES_USER" "postgres" (λ e. cc) (λ e. cc),
          env_str-same "POSTGRES_HOST" "localhost" (λ e. cc) (λ e. cc),
          env_str-same "POSTGRES_PORT" "5432" (λ e. cc) (λ e. cc),
          env_str-same "POSTGRES_DB" "ratelimiter" (λ e. cc) (λ e. cc),
          env_int-same "LOG_BUFFER_SIZE" (pos 10_000) (λ e. cc) (λ e. cc),
          env_int-same "LOG_WORKER_COUNT" (pos 4) (λ e. cc) (λ e. cc),
        )
        refl
