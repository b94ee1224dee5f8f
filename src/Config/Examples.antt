-- ===== src/Config/Examples.antt =====
-- The theorems about backend/internal/config/config.go at concrete inputs.
use vegait.Prelude.{◌≡◌, refl, none, some, str_eq, pos, negsuc, if◌then◌else◌, arith, eq_iff}
use vegait.Config.{Env, load, summary, atoi, env_int}
use vegait.Config.Numbers.{env_int-show_int}
use vegait.Config.Secrets.{SameButPasswords, load-summary_same}

abbrev empty : Env
empty key = none

abbrev secret : Env
secret key = if str_eq key "REDIS_PASSWORD" then some "hunter2" else none

negative : atoi "-12" ≡ some (negsuc 11)
unfolding atoi
negative = refl

too_large : atoi "9223372036854775808" ≡ none
unfolding atoi
too_large = refl

secret-same : SameButPasswords empty secret
secret-same key p q = ground (arith, eq_iff key "REDIS_PASSWORD")

load-summary_same_example : summary (load empty (some "gw")) ≡ summary (load secret (some "gw"))
load-summary_same_example = load-summary_same empty secret secret-same (some "gw")

abbrev counted : Env
counted key = if str_eq key "LOG_WORKERS" then some "-12" else none

env_int-show_int_example : env_int counted "LOG_WORKERS" (pos 4) ≡ negsuc 11
unfolding vegait.Proxy.show_int vegait.Limiter.Member.format_uint
env_int-show_int_example =
    env_int-show_int counted "LOG_WORKERS" (negsuc 11) (pos 4) (omega arith) (omega arith) refl
