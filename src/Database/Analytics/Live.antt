-- ===== src/Database/Analytics/Live.antt =====
-- FetchLiveTimeseries of backend/internal/database/database.go. The two texts that the time package
-- makes of a bucket are arguments: one of them is in the zone of the connection.
use vegait.Prelude.{
  ℕ, ◌-◌, ◌%◌, List, String, map, ℤ, pos, leb_ℤ, ltb, ◌==◌, length, count, keep, if◌then◌else◌,
}
use vegait.Database.{LogEntry}
use vegait.Limiter.Allow.{Result}
use vegait.Database.Analytics.{
  Numeric, Order, Fetch, matches, is_allowed, is_blocked, allowed_latencies, average_or_nought,
  percentile_or_nought, minutes_ago, group_by, read_rows, TimeseriesPoint,
}

abbrev pub number_order : Order ℕ
number_order = record { same = ◌==◌; before = ltb }

-- date_trunc('minute', timestamp)
unfoldable pub bucket_of : LogEntry → ℕ
bucket_of e = e.timestamp - e.timestamp % 60_000_000_000

module _ (n : Numeric) (rfc3339 clock : ℕ → String) where
  unfoldable pub timeseries_point : ℕ × List LogEntry → TimeseriesPoint n
  unfolding allowed_latencies
  timeseries_point (bucket, rows) = record {
    bucket = rfc3339 bucket;
    label = clock bucket;
    total_requests = length rows;
    allowed_requests = count is_allowed rows;
    blocked_requests = count is_blocked rows;
    avg_latency = average_or_nought n (allowed_latencies rows);
    p95_latency = percentile_or_nought n 95 (allowed_latencies rows);
  }

  unfoldable pub fetch_live_timeseries :
      Fetch → ℕ → List LogEntry → String → ℤ → Result (List (TimeseriesPoint n))
  unfolding group_by read_rows matches minutes_ago bucket_of timeseries_point
  fetch_live_timeseries fetch now table client minutes =
      let minutes' = if leb_ℤ minutes (pos 0) then pos 15 else minutes in
      read_rows fetch (
        map timeseries_point (
          group_by number_order bucket_of (keep (matches (minutes_ago now minutes') client) table)))
