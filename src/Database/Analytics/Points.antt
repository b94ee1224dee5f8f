-- ===== src/Database/Analytics/Points.antt =====
-- The points of FetchAnalyticsTrend and FetchLiveTimeseries (backend/internal/database/database.go)
-- against a reference: one point for each label that a matching row has, of exactly its rows.
use vegait.Prelude.{
  ℕ, ◌<◌, ◌≡◌, refl, sym, ◌∙◌, ap, false, inl, inr, List, [], ◌∷◌, String, map, ℤ, length, keep,
  All, arith, ==_iff, Bool-cases,
}
use vegait.Database.{LogEntry}
use vegait.Limiter.Allow.{Result, ok, err}
use vegait.Database.Analytics.{
  Numeric, Order, Fetch, delivered, refused, unscanned, cut, take, read_rows, matches, days_ago,
  put_row, group_by, TrendPoint, trend_point, fetch_analytics_trend,
}
use vegait.Database.Analytics.Live.{number_order}
use vegait.Database.Analytics.Groups.{
  OrderLaws, AscendingKeys, Ascending-keys, keys, contains, picked, rows_of, rows_of-group_by,
  rows_of-contains, group_by-Ascending, groups-eq,
}

module _ {K : Type 0} (order : Order K) (laws : OrderLaws order) (key : LogEntry → K) where
  put_row-nonempty :
      (e : LogEntry) (gs : List (K × List LogEntry))
      → All (λ g. 0 < length g.1) gs
      → All (λ g. 0 < length g.1) (put_row order key e gs)
  put_row-nonempty e [] h = (omega arith, tt)
  put_row-nonempty e ((j, rows) ∷ gs) h = elim (Bool-cases (order.same (key e) j)) [
    | inl same ↦ rw same (omega arith, h.1)
    | inr other ↦ elim (Bool-cases (order.before (key e) j)) [
      | inl first ↦ rw (other, first) (omega arith, h)
      | inr later ↦ rw (other, later) (h.0, put_row-nonempty e gs h.1)
    ]
  ]

  group_by-nonempty : (rows : List LogEntry) → All (λ g. 0 < length g.1) (group_by order key rows)
  unfolding group_by
  group_by-nonempty [] = tt
  group_by-nonempty (e ∷ rows) = put_row-nonempty e _ (group_by-nonempty rows)

  -- The points report the rows: `labels` are the labels of the rows in their order, each once, and each
  -- has the point that `point` makes of exactly its rows.
  pub record Reports {P : Type 0} (rows : List LogEntry) (point : K × List LogEntry → P)
      (points : List P) : Type 0 where
    pub labels : List K
    pub ascending : AscendingKeys order laws key labels
    pub points_eq : points ≡ map (λ k. point (k, picked order laws key k rows)) labels
    pub nonempty : All (λ k. 0 < length (picked order laws key k rows)) labels
    pub complete :
        (k : K) → contains order laws key k labels ≡ false → picked order laws key k rows ≡ []

  picked-map :
      (rows : List LogEntry) (ks : List K)
      → map {B = K × List LogEntry}
          (λ k. (k, rows_of order laws key k (group_by order key rows)))
          ks
        ≡ map (λ k. (k, picked order laws key k rows)) ks
  picked-map rows [] = refl
  picked-map rows (k ∷ ks) = cc (rows_of-group_by order laws key k rows, picked-map rows ks)

  group_by-eq :
      (rows : List LogEntry)
      → group_by order key rows
        ≡ map
            (λ k. (k, picked order laws key k rows))
            (keys order laws key (group_by order key rows))
  group_by-eq rows =
      sym (groups-eq order laws key _ (group_by-Ascending order laws key rows)) ∙ picked-map rows _

  map-group :
      {P : Type 0} (point : K × List LogEntry → P) (rows : List LogEntry) (ks : List K)
      → map point (map {B = K × List LogEntry} (λ k. (k, picked order laws key k rows)) ks)
        ≡ map (λ k. point (k, picked order laws key k rows)) ks
  map-group point rows [] = refl
  map-group point rows (k ∷ ks) = cc (map-group point rows ks)

  All-groups :
      (rows : List LogEntry) (ks : List K)
      → All
          (λ g. 0 < length g.1)
          (map {B = K × List LogEntry} (λ k. (k, picked order laws key k rows)) ks)
      → All (λ k. 0 < length (picked order laws key k rows)) ks
  All-groups rows [] h = tt
  All-groups rows (k ∷ ks) h = (h.0, All-groups rows ks h.1)

  group_by-Reports :
      {P : Type 0} (rows : List LogEntry) (point : K × List LogEntry → P)
      → Reports rows point (map point (group_by order key rows))
  group_by-Reports rows point =
      let labels = keys order laws key (group_by order key rows) in
      record {
        labels = labels;
        ascending = Ascending-keys order laws key _ (group_by-Ascending order laws key rows);
        points_eq = ap (map point) (group_by-eq rows) ∙ map-group point rows labels;
        nonempty = All-groups rows labels (rw (group_by-eq rows) at (group_by-nonempty rows));
        complete = λ k h.
            sym (rows_of-group_by order laws key k rows) ∙ rows_of-contains order laws key k _ h;
      }

-- How a query ends for its reader, given the points it has: a broken connection passes for the end.
abbrev pub Ends : {P : Type 0} → Fetch → List P → Result (List P) → Type 0
Ends delivered points r = r ≡ ok points
Ends (refused e) points r = r ≡ err e
Ends (unscanned e) points r = r ≡ err e
Ends (cut n e) points r = r ≡ ok (take n points)

read_rows-Ends :
    {P : Type 0} (fetch : Fetch) (points : List P) → Ends fetch points (read_rows fetch points)
unfolding read_rows
read_rows-Ends delivered points = refl
read_rows-Ends (refused e) points = refl
read_rows-Ends (unscanned e) points = refl
read_rows-Ends (cut n e) points = refl

module _ (n : Numeric) {Label : Type 0} (order : Order Label) (laws : OrderLaws order) where
  -- The trend has, for the rows of the client (or of all) since the day asked for, one point for each
  -- day's label among them, in order, and each point is the aggregate of exactly its label's rows. A
  -- refused query, and a row that cannot be scanned, give the error; a connection that breaks gives the
  -- points read so far and no error.
  pub fetch_analytics_trend-Reports :
      (to_char : ℕ → Label) (fetch : Fetch) (now : ℕ) (table : List LogEntry) (client : String)
      (days : ℤ)
      → (points : List (TrendPoint n Label)) × Reports order laws
          (λ e. to_char e.timestamp)
          (keep (matches (days_ago now days) client) table)
          (trend_point n)
          points
        × Ends fetch points (fetch_analytics_trend n order to_char fetch now table client days)
  unfolding fetch_analytics_trend
  fetch_analytics_trend-Reports to_char fetch now table client days = (
    _,
    group_by-Reports order laws (λ e. to_char e.timestamp) _ (trend_point n),
    read_rows-Ends fetch _,
  )

-- The numbers as the keys of the minutes.
pub number_order_laws : OrderLaws number_order
number_order_laws = record {
  same_iff = ==_iff;
  before_irrefl = λ a. ground arith;
  before_trans = λ a b c h k. ground arith;
  before_total = λ a b h k. ground arith;
}
