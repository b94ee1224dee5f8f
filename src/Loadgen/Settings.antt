-- ===== src/Loadgen/Settings.antt =====
-- The settings of backend/cmd/loadgen/main.go: its environment, its flags and what a request comes to.
-- fmt.Sscanf and the flag package's reading of the command line are arguments.
use Prim.Native.String
use vegait.Prelude.{ℕ, Bool, false, Option, none, some, String, str_eq, ℤ, pos, not, if◌then◌else◌}
use vegait.Loadgen.{Load, parse_flags, FireResult, failed, answered}

-- The environment, as os.LookupEnv gives it.
abbrev Env : Type 0
Env = String → Option String

abbrev env_str : Env → String → String → String
env_str env k def = elim (env k) [ none ↦ def | some v ↦ if str_eq v "" then def else v ]

abbrev env_int : (String → Option ℤ) → Env → String → ℤ → ℤ
env_int sscanf env k def = elim (env k) [
  | none ↦ def
  | some v ↦ elim (sscanf v) [ none ↦ def | some n ↦ n ]
]

abbrev no_color : Env → Bool
no_color env = elim (env "NO_COLOR") [ none ↦ false | some v ↦ not (str_eq v "") ]

-- The values of the flags.
pub record Flags : Type 0 where
  pub url : String
  pub path : String
  pub client : String
  pub n : ℤ
  pub c : ℤ
  pub timeout_ms : ℤ

abbrev default_flags : (String → Option ℤ) → Env → Flags
default_flags sscanf env = record {
  url = env_str env "GATEWAY_ADDR" "http://localhost:8080";
  path = "/proxy/loadtest";
  client = "client-gamma";
  n = env_int sscanf env "LOADGEN_TOTAL" (pos 12_000);
  c = env_int sscanf env "LOADGEN_CONCURRENCY" (pos 150);
  timeout_ms = pos 10_000;
}

-- parseFlags, given what flag.Parse makes of the defaults.
unfoldable pub settings :
    (String → Option ℤ) → Env → (Flags → Flags) → String × String × String × Load
unfolding parse_flags
settings sscanf env parse =
    let flags = parse (default_flags sscanf env) in
    (flags.url, flags.path, flags.client, parse_flags flags.n flags.c flags.timeout_ms)

-- What becomes of a request of fire: http.NewRequest refuses it, client.Do fails, or a response comes.
pub data Reached : Type 0 where
  malformed unreachable : Reached
  responded : ℕ → ℤ → Reached

unfoldable pub fire : (String → String → Reached) → String × String × String × Load → FireResult
fire send (base, path, client, load) = elim (send (String.◌++◌ base path) client) [
  | malformed ↦ failed
  | unreachable ↦ failed
  | responded status latency ↦ answered status latency
]
