-- ===== src/Loadgen.antt =====
-- The measuring part of backend/cmd/loadgen/main.go: the flags, the workers' counters and latencies, and
-- the percentiles and the mean of the report. A list of results with the worker of each stands for an
-- order in which the workers get them. The printing is left out.
pub mod Counting
pub mod Percentile
pub mod Jobs
pub mod Report
pub mod Settings
mod Examples
use vegait.Prelude.{
  ℕ, zero, suc, ◌+◌, ◌-◌, ◌/◌, ◌%◌, ◌^◌, Bool, true, false, List, [], ◌∷◌, ◌++◌, Option, none, some,
  ℤ, pos, negsuc, ◌+ℤ◌, ◌-ℤ◌, ◌*ℤ◌, ltb_ℤ, leb_ℤ, wrap_int64, ◌==◌, length, if◌then◌else◌,
}
use vegait.Logger.{add_int64}

-- The total, the concurrency and the timeout of a config, as they are read from the flags and set.
pub record Load : Type 0 where
  pub total : ℤ
  pub concurrency : ℤ
  pub timeout : ℤ

unfoldable pub parse_flags : ℤ → ℤ → ℤ → Load
unfolding ◌*ℤ◌
parse_flags total concurrency timeout_ms = record {
  total = if ltb_ℤ total (pos 1) then pos 1 else total;
  concurrency = if ltb_ℤ concurrency (pos 1) then pos 1 else concurrency;
  timeout = wrap_int64 (timeout_ms *ℤ pos 1_000_000);
}

-- The outcome of one request: a transport error, or a status and a latency in nanoseconds.
pub data FireResult : Type 0 where
  failed : FireResult
  answered : ℕ → ℤ → FireResult

-- The atomic counters, as the 64 bits of an int64, and the latencies of each worker.
pub record Tally : Type 0 where
  pub sent : ℕ
  pub allowed : ℕ
  pub blocked : ℕ
  pub errors : ℕ
  pub other_status : ℕ
  pub per_worker : List (List ℤ)

abbrev append_at : ℕ → ℤ → List (List ℤ) → List (List ℤ)
append_at i d [] = []
append_at zero d (lat ∷ lats) = (lat ++ d ∷ []) ∷ lats
append_at (suc i) d (lat ∷ lats) = lat ∷ append_at i d lats

-- The switch of a worker.
unfoldable pub tally : ℕ → FireResult → Tally → Tally
tally worker failed t = record t { sent = add_int64 t.sent 1; errors = add_int64 t.errors 1 }
tally worker (answered status latency) t =
    if status == 200
    then record t {
      sent = add_int64 t.sent 1;
      allowed = add_int64 t.allowed 1;
      per_worker = append_at worker latency t.per_worker;
    }
    else if status == 429
    then record t { sent = add_int64 t.sent 1; blocked = add_int64 t.blocked 1 }
    else record t { sent = add_int64 t.sent 1; other_status = add_int64 t.other_status 1 }

abbrev empty_lists : ℕ → List (List ℤ)
empty_lists zero = []
empty_lists (suc n) = [] ∷ empty_lists n

unfoldable pub start : ℕ → Tally
start concurrency = record {
  sent = 0;
  allowed = 0;
  blocked = 0;
  errors = 0;
  other_status = 0;
  per_worker = empty_lists concurrency;
}

unfoldable pub tally_all : List (ℕ × FireResult) → Tally → Tally
tally_all [] t = t
tally_all ((worker, result) ∷ more) t = tally_all more (tally worker result t)

-- The merge of the workers' latencies.
unfoldable pub merge : List (List ℤ) → List ℤ
merge [] = []
merge (s ∷ ss) = s ++ merge ss

-- sorted[i]; out of range it panics.
unfoldable pub at : ℕ → List ℤ → Option ℤ
at i [] = none
at zero (d ∷ ds) = some d
at (suc i) (d ∷ ds) = at i ds

-- idx, the two ifs and the read of pct, given `int(math.Ceil(p/100*float64(len(sorted))))`.
unfoldable pub clamp : ℤ → ℕ → ℕ
unfolding ◌-ℤ◌
clamp ceiled n = elim (ceiled -ℤ pos 1) [
  | negsuc k ↦ 0
  | pos i ↦ if leb_ℤ (pos n) (pos i) then n - 1 else i
]

unfoldable pub pct : ℤ → List ℤ → Option ℤ
unfolding at clamp
pct ceiled [] = some (pos 0)
pct ceiled (d ∷ ds) = at (clamp ceiled (length (d ∷ ds))) (d ∷ ds)
