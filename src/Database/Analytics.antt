-- ===== src/Database/Analytics.antt =====
-- The analytics queries of backend/internal/database/database.go over the rows of request_logs: the
-- WHERE, the aggregates, GROUP BY and ORDER BY of their SQL, and the loops that read the result. A time
-- is a number of nanoseconds since 1970, and days are those of UTC.
pub mod Groups
pub mod Live
pub mod Points
pub mod Totals
pub mod Orderless
use vegait.Prelude.{
  ℕ, zero, suc, ◌-◌, ◌%◌, ◌*◌, ◌≡◌, Bool, true, false, not, ◌&&◌, ◌||◌, List, [], ◌∷◌, ◌++◌, Perm,
  String, str_eq, map, ℤ, pos, negsuc, ◌-ℤ◌, ◌*ℤ◌, leb_ℤ, wrap_int64, length, count, keep,
  if◌then◌else◌,
}
use vegait.Database.{LogEntry}
use vegait.Limiter.Allow.{Result, ok, err}

-- What PostgreSQL computes of numbers: AVG and percentile_cont of a group that is not empty, as the
-- float64 that they are read into.
pub record Numeric : Type 1 where
  pub Float : Type 0
  pub nought : Float
  pub average : List ℕ → Float
  pub percentile : ℕ → List ℕ → Float

-- An aggregate does not depend on the order of the rows.
pub record NumericLaws (n : Numeric) : Type 0 where
  pub average_perm : (xs ys : List ℕ) → Perm xs ys → n.average xs ≡ n.average ys
  pub percentile_perm :
      (p : ℕ) (xs ys : List ℕ) → Perm xs ys → n.percentile p xs ≡ n.percentile p ys

-- The order and equality of the values that a query groups by.
pub record Order {ℓ} (K : Type ℓ) : Type ℓ where
  pub same : K → K → Bool
  pub before : K → K → Bool

-- What becomes of a query: its rows arrive; it is refused; a row cannot be scanned; or the connection
-- breaks after some rows, where rows.Next gives false, as at the end.
pub data Fetch : Type 0 where
  delivered : Fetch
  refused unscanned : String → Fetch
  cut : ℕ → String → Fetch

-- WHERE timestamp >= $1, and AND client_id = $2 if a client is given.
unfoldable pub matches : ℤ → String → LogEntry → Bool
matches since client e =
    leb_ℤ since (pos e.timestamp) && (str_eq client "" || str_eq e.client_id client)

-- SUM(CASE WHEN is_allowed THEN 1 ELSE 0 END), and the same with NOT.
abbrev pub is_allowed : LogEntry → Bool
is_allowed e = e.is_allowed

abbrev pub is_blocked : LogEntry → Bool
is_blocked e = not e.is_allowed

abbrev latency : LogEntry → ℕ
latency e = e.latency_ms

-- FILTER (WHERE is_allowed), on the latencies.
unfoldable pub allowed_latencies : List LogEntry → List ℕ
allowed_latencies rows = map latency (keep is_allowed rows)

-- `time.Now().AddDate(0, 0, -days)` and `time.Now().Add(-time.Duration(minutes) * time.Minute)`
unfoldable pub days_ago : ℕ → ℤ → ℤ
unfolding ◌-ℤ◌ ◌*ℤ◌
days_ago now days = pos now -ℤ days *ℤ pos 86_400_000_000_000

unfoldable pub minutes_ago : ℕ → ℤ → ℤ
unfolding ◌-ℤ◌ ◌*ℤ◌
minutes_ago now minutes = pos now -ℤ wrap_int64 (minutes *ℤ pos 60_000_000_000)

module _ {ℓ} {K : Type ℓ} (order : Order K) (key : LogEntry → K) where
  abbrev put_row : LogEntry → List (K × List LogEntry) → List (K × List LogEntry)
  put_row e [] = (key e, e ∷ []) ∷ []
  put_row e ((k, rows) ∷ groups) =
      if order.same (key e) k
      then (k, e ∷ rows) ∷ groups
      else if order.before (key e) k
      then (key e, e ∷ []) ∷ (k, rows) ∷ groups
      else (k, rows) ∷ put_row e groups

  -- GROUP BY key ORDER BY key ASC
  unfoldable pub group_by : List LogEntry → List (K × List LogEntry)
  group_by [] = []
  group_by (e ∷ rows) = put_row e (group_by rows)

module _ {ℓ} {A : Type ℓ} where
  abbrev pub take : ℕ → List A → List A
  take zero xs = []
  take (suc n) [] = []
  take (suc n) (x ∷ xs) = x ∷ take n xs

  -- The rows.Next loop. Neither trend nor live asks rows.Err() after it.
  unfoldable pub read_rows : Fetch → List A → Result (List A)
  read_rows delivered rows = ok rows
  read_rows (refused e) rows = err e
  read_rows (unscanned e) rows = err e
  read_rows (cut n e) rows = ok (take n rows)

  -- QueryRow(...).Scan, for the one row of aggregates.
  abbrev read_row : Fetch → A → Result A
  read_row delivered row = ok row
  read_row (refused e) row = err e
  read_row (unscanned e) row = err e
  read_row (cut n e) row = err e

module _ (n : Numeric) where
  open n use {Float, nought, average, percentile}

  -- COALESCE(..., 0)
  abbrev average_or_nought : List ℕ → Float
  average_or_nought [] = nought
  average_or_nought (x ∷ xs) = average (x ∷ xs)

  abbrev percentile_or_nought : ℕ → List ℕ → Float
  percentile_or_nought p [] = nought
  percentile_or_nought p (x ∷ xs) = percentile p (x ∷ xs)

  pub record AnalyticsSummary : Type 0 where
    pub total_requests : ℕ
    pub allowed_requests : ℕ
    pub blocked_requests : ℕ
    pub avg_latency : Float
    pub p50_latency : Float
    pub p95_latency : Float
    pub p99_latency : Float

  pub record TrendPoint (Label : Type 0) : Type 0 where
    pub label : Label
    pub total_requests : ℕ
    pub allowed_requests : ℕ
    pub blocked_requests : ℕ
    pub avg_latency : Float

  pub record TimeseriesPoint : Type 0 where
    pub bucket : String
    pub label : String
    pub total_requests : ℕ
    pub allowed_requests : ℕ
    pub blocked_requests : ℕ
    pub avg_latency : Float
    pub p95_latency : Float

  unfoldable pub summarize : List LogEntry → AnalyticsSummary
  unfolding allowed_latencies
  summarize rows = record {
    total_requests = length rows;
    allowed_requests = count is_allowed rows;
    blocked_requests = count is_blocked rows;
    avg_latency = average_or_nought (allowed_latencies rows);
    p50_latency = percentile_or_nought 50 (allowed_latencies rows);
    p95_latency = percentile_or_nought 95 (allowed_latencies rows);
    p99_latency = percentile_or_nought 99 (allowed_latencies rows);
  }

  unfoldable pub fetch_analytics_summary :
      Fetch → ℕ → List LogEntry → String → ℤ → Result AnalyticsSummary
  unfolding summarize matches days_ago
  fetch_analytics_summary fetch now table client days =
      read_row fetch (summarize (keep (matches (days_ago now days) client) table))

  -- One row of the trend. `to_char` is PostgreSQL's, in the session's time zone.
  unfoldable pub trend_point : {Label : Type 0} → Label × List LogEntry → TrendPoint Label
  unfolding allowed_latencies
  trend_point (label, rows) = record {
    label = label;
    total_requests = length rows;
    allowed_requests = count is_allowed rows;
    blocked_requests = count is_blocked rows;
    avg_latency = average_or_nought (allowed_latencies rows);
  }

  unfoldable pub fetch_analytics_trend :
      {Label : Type 0}
      → Order Label
      → (ℕ → Label)
      → Fetch
      → ℕ
      → List LogEntry
      → String
      → ℤ
      → Result (List (TrendPoint Label))
  unfolding group_by read_rows matches days_ago trend_point
  fetch_analytics_trend order to_char fetch now table client days = read_rows fetch (
      map trend_point (
        group_by order (λ (e : LogEntry). to_char e.timestamp)
          (keep (matches (days_ago now days) client) table)))
