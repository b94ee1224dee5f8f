-- ===== src/Database/Examples.antt =====
-- The theorems about backend/internal/database/database.go at concrete inputs.
use Prim.Native.Nat.{max}
use mathlib.Core.List.{Perm, Permᴰ}
use mathlib.Core.Logic.{∥∥₁_elim}
use native.Mathlib.Nat.{ℕ_set}
use vegait.Prelude.{
  ℕ, ◌+◌, ◌/◌, ◌≡◌, refl, ◌∙◌, Bool, true, false, List, [], ◌∷◌, String, pos, keep, length,
  length-Perm, arith,
}
use vegait.Database.{LogEntry}
use vegait.Limiter.Allow.{ok}
use vegait.Database.Analytics.{
  Numeric, NumericLaws, delivered, cut, matches, days_ago, trend_point, TrendPoint,
  fetch_analytics_trend, AnalyticsSummary, fetch_analytics_summary,
}
use vegait.Database.Analytics.Live.{number_order}
use vegait.Database.Analytics.Points.{
  Reports, Ends, number_order_laws, fetch_analytics_trend-Reports,
}
use vegait.Database.Analytics.Totals.{sum, totals, alloweds, blockeds, trend-summary_totals}
use vegait.Database.Analytics.Orderless.{summary_latencies}
use vegait.Database.Batch.{Atomic, insert_logs_batch, insert_logs_batch-Atomic}
use vegait.Database.Reference.{table, table-PostgresLaws, entry}

insert_logs_batch-Atomic_example :
    Atomic table table-PostgresLaws
      (entry "a" ∷ [])
      (entry "b" ∷ entry "bad" ∷ [])
      (insert_logs_batch table (entry "b" ∷ entry "bad" ∷ []) (entry "a" ∷ []))
insert_logs_batch-Atomic_example =
    insert_logs_batch-Atomic table table-PostgresLaws (entry "b" ∷ entry "bad" ∷ [])
      (entry "a" ∷ [])

-- Aggregates over the natural numbers: a rounded mean, and the largest for every percentile.
total : List ℕ → ℕ
total [] = 0
total (x ∷ xs) = x + total xs

largest : List ℕ → ℕ
largest [] = 0
largest (x ∷ xs) = max x (largest xs)

total-Permᴰ : {xs ys : List ℕ} → Permᴰ xs ys → total xs ≡ total ys
unfolding total
total-Permᴰ Permᴰ.nil = refl
total-Permᴰ (Permᴰ.cons e h) = omega (arith, e, total-Permᴰ h)
total-Permᴰ (Permᴰ.swap e f) = omega (arith, e, f)
total-Permᴰ (Permᴰ.trans h k) = total-Permᴰ h ∙ total-Permᴰ k

largest-Permᴰ : {xs ys : List ℕ} → Permᴰ xs ys → largest xs ≡ largest ys
unfolding largest
largest-Permᴰ Permᴰ.nil = refl
largest-Permᴰ (Permᴰ.cons e h) = omega (arith, e, largest-Permᴰ h)
largest-Permᴰ (Permᴰ.swap e f) = omega (arith, e, f)
largest-Permᴰ (Permᴰ.trans h k) = largest-Permᴰ h ∙ largest-Permᴰ k

abbrev numeric : Numeric
numeric = record {
  Float = ℕ;
  nought = 0;
  average = λ xs. total xs / length xs;
  percentile = λ p xs. largest xs;
}

average-Perm : (xs ys : List ℕ) → Perm xs ys → total xs / length xs ≡ total ys / length ys
average-Perm xs ys h =
    cc (∥∥₁_elim h (ℕ_set _ _) (λ (p : Permᴰ xs ys). total-Permᴰ p), length-Perm h)

largest-Perm : (xs ys : List ℕ) → Perm xs ys → largest xs ≡ largest ys
largest-Perm xs ys h = ∥∥₁_elim h (ℕ_set _ _) (λ (p : Permᴰ xs ys). largest-Permᴰ p)

numeric_laws : NumericLaws numeric
numeric_laws = record { average_perm = average-Perm; percentile_perm = λ p. largest-Perm }

-- Three requests of one minute and one of the next day, two of them blocked.
abbrev row : ℕ → ℕ → Bool → LogEntry
row timestamp latency allowed = record (entry "a") {
  timestamp = timestamp;
  latency_ms = latency;
  is_allowed = allowed;
}

abbrev rows : List LogEntry
rows =
    row 90_000_000_000_000 40 true
    ∷ row 7_000_000_000 20 true
    ∷ row 8_000_000_000 0 false
    ∷ row 9_000_000_000 0 false
    ∷ []

abbrev day : ℕ → ℕ
day t = t / 86_400_000_000_000

abbrev now : ℕ
now = 100_000_000_000_000

-- The first point is that of the day 0.
trend_runs :
    fetch_analytics_trend numeric number_order day delivered now rows "a" (pos 30)
    ≡ ok (
        record {
          label = 0;
          total_requests = 3;
          allowed_requests = 1;
          blocked_requests = 2;
          avg_latency = 20;
        }
        ∷ record {
          label = 1;
          total_requests = 1;
          allowed_requests = 1;
          blocked_requests = 0;
          avg_latency = 40;
        }
        ∷ [])
unfolding fetch_analytics_trend total
trend_runs = refl

fetch_analytics_trend-Reports_example :
    (points : List (TrendPoint numeric ℕ)) × Reports number_order number_order_laws
      (λ e. day e.timestamp)
      (keep (matches (days_ago now (pos 30)) "a") rows)
      (trend_point numeric)
      points
    × Ends
        (cut 1 "reset")
        points
        (fetch_analytics_trend numeric number_order day (cut 1 "reset") now rows "a" (pos 30))
fetch_analytics_trend-Reports_example =
    fetch_analytics_trend-Reports numeric number_order number_order_laws day (cut 1 "reset") now
      rows "a" (pos 30)

abbrev text : ℕ → String
text t = "1970-01-01T00:00:00Z"

trend-summary_totals_example :
    (points : List (TrendPoint numeric ℕ)) × (s : AnalyticsSummary numeric) × (fetch_analytics_trend
        numeric number_order day delivered now rows "a"
        (pos 30)
      ≡ ok points)
    × (fetch_analytics_summary numeric delivered now rows "a" (pos 30) ≡ ok s)
    × (s.allowed_requests + s.blocked_requests ≡ s.total_requests)
    × (sum (totals numeric number_order points) ≡ s.total_requests)
    × (sum (alloweds numeric number_order points) ≡ s.allowed_requests)
    × (sum (blockeds numeric number_order points) ≡ s.blocked_requests)
trend-summary_totals_example = trend-summary_totals numeric number_order day now rows "a" (pos 30)

-- The same allowed requests the other way round, and none blocked.
abbrev other_rows : List LogEntry
other_rows = row 7_000_000_000 20 true ∷ row 90_000_000_000_000 40 true ∷ []

abbrev summary_of : ℕ → ℕ → AnalyticsSummary numeric
summary_of total blocked = record {
  total_requests = total;
  allowed_requests = 2;
  blocked_requests = blocked;
  avg_latency = 30;
  p50_latency = 40;
  p95_latency = 40;
  p99_latency = 40;
}

summary_runs : fetch_analytics_summary numeric delivered now rows "a" (pos 30) ≡ ok (summary_of 4 2)
unfolding fetch_analytics_summary total largest
summary_runs = refl

other_summary_runs :
    fetch_analytics_summary numeric delivered now other_rows "a" (pos 30) ≡ ok (summary_of 2 0)
unfolding fetch_analytics_summary total largest
other_summary_runs = refl

summary_latencies_example :
    ((summary_of 4 2).avg_latency ≡ (summary_of 2 0).avg_latency)
    × ((summary_of 4 2).p50_latency ≡ (summary_of 2 0).p50_latency)
    × ((summary_of 4 2).p95_latency ≡ (summary_of 2 0).p95_latency)
    × ((summary_of 4 2).p99_latency ≡ (summary_of 2 0).p99_latency)
summary_latencies_example =
    summary_latencies numeric numeric_laws now rows other_rows "a" (pos 30)
      ∣ Permᴰ.swap refl refl ∣₁ (summary_of 4 2) (summary_of 2 0) summary_runs other_summary_runs
