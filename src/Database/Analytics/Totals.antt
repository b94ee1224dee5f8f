-- ===== src/Database/Analytics/Totals.antt =====
-- The numbers of the analytics queries of backend/internal/database/database.go agree with one another.
use vegait.Prelude.{
  ℕ, ◌+◌, ◌≡◌, refl, ◌∙◌, ap, Bool, inl, inr, List, [], ◌∷◌, String, map, ℤ, length, count, keep,
  arith, Bool-cases, if◌then◌else◌,
}
use vegait.Database.{LogEntry}
use vegait.Limiter.Allow.{ok}
use vegait.Database.Analytics.{
  Numeric, Order, delivered, read_rows, matches, is_allowed, is_blocked, days_ago, put_row,
  group_by, summarize, AnalyticsSummary, fetch_analytics_summary, TrendPoint, trend_point,
  fetch_analytics_trend,
}

abbrev pub sum : List ℕ → ℕ
sum [] = 0
sum (x ∷ xs) = x + sum xs

count-blocked : (rows : List LogEntry) → count is_allowed rows + count is_blocked rows ≡ length rows
count-blocked [] = refl
count-blocked (e ∷ rows) = ground (arith, count-blocked rows)

module _ {K : Type 0} (order : Order K) (key : LogEntry → K) (p : LogEntry → Bool) where
  -- The counts of all groups.
  abbrev counts : List (K × List LogEntry) → List ℕ
  counts gs = map (λ (g : K × List LogEntry). count p g.1) gs

  sum-put_row :
      (e : LogEntry) (gs : List (K × List LogEntry))
      → sum (counts (put_row order key e gs)) ≡ (if p e then 1 else 0) + sum (counts gs)
  sum-put_row e [] = omega arith
  sum-put_row e ((k, rows) ∷ gs) = elim (Bool-cases (order.same (key e) k)) [
    | inl same ↦ rw same (omega arith)
    | inr other ↦ elim (Bool-cases (order.before (key e) k)) [
      | inl first ↦ rw (other, first) (omega arith)
      | inr later ↦ rw (other, later) (omega (arith, sum-put_row e gs))
    ]
  ]

  sum-group_by : (rows : List LogEntry) → sum (counts (group_by order key rows)) ≡ count p rows
  unfolding group_by
  sum-group_by [] = refl
  sum-group_by (e ∷ rows) = sum-put_row e _ ∙ ap (◌+◌ _) (sum-group_by rows)

module _ (n : Numeric) {Label : Type 0} (order : Order Label) where
  abbrev pub totals : List (TrendPoint n Label) → List ℕ
  totals points = map (λ (p : TrendPoint n Label). p.total_requests) points

  abbrev pub alloweds : List (TrendPoint n Label) → List ℕ
  alloweds points = map (λ (p : TrendPoint n Label). p.allowed_requests) points

  abbrev pub blockeds : List (TrendPoint n Label) → List ℕ
  blockeds points = map (λ (p : TrendPoint n Label). p.blocked_requests) points

  allowed_points :
      (gs : List (Label × List LogEntry))
      → alloweds (map (trend_point n) gs)
        ≡ map (λ (g : Label × List LogEntry). count is_allowed g.1) gs
  unfolding trend_point
  allowed_points [] = refl
  allowed_points (g ∷ gs) = cc (allowed_points gs)

  blocked_points :
      (gs : List (Label × List LogEntry))
      → blockeds (map (trend_point n) gs)
        ≡ map (λ (g : Label × List LogEntry). count is_blocked g.1) gs
  unfolding trend_point
  blocked_points [] = refl
  blocked_points (g ∷ gs) = cc (blocked_points gs)

  total_points :
      (gs : List (Label × List LogEntry))
      → sum (totals (map (trend_point n) gs))
        ≡ sum (alloweds (map (trend_point n) gs)) + sum (blockeds (map (trend_point n) gs))
  unfolding trend_point
  total_points [] = refl
  total_points ((k, rows) ∷ gs) = omega (arith, total_points gs, count-blocked rows)

  -- For one table, client and number of days: the summary's total is its allowed and its blocked
  -- requests together, and over the points of the trend the totals, the allowed and the blocked
  -- requests each add up to the summary's. Both queries are answered in full.
  pub trend-summary_totals :
      (to_char : ℕ → Label) (now : ℕ) (table : List LogEntry) (client : String) (days : ℤ)
      → (points : List (TrendPoint n Label)) × (s : AnalyticsSummary n) × (fetch_analytics_trend n
            order to_char delivered now table client days
          ≡ ok points)
        × (fetch_analytics_summary n delivered now table client days ≡ ok s)
        × (s.allowed_requests + s.blocked_requests ≡ s.total_requests)
        × (sum (totals points) ≡ s.total_requests)
        × (sum (alloweds points) ≡ s.allowed_requests)
        × (sum (blockeds points) ≡ s.blocked_requests)
  unfolding fetch_analytics_trend fetch_analytics_summary summarize read_rows
  trend-summary_totals to_char now table client days =
      let rows = keep (matches (days_ago now days) client) table in
      let key : LogEntry → Label = λ e. to_char e.timestamp in
      let gs = group_by order key rows in
      let split = count-blocked rows in
      let allowed = ap sum (allowed_points gs) ∙ sum-group_by order key is_allowed rows in
      let blocked = ap sum (blocked_points gs) ∙ sum-group_by order key is_blocked rows in
      (_, _, refl, refl, split, omega (arith, total_points gs), allowed, blocked)
