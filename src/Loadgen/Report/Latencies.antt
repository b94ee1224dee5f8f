-- ===== src/Loadgen/Report/Latencies.antt =====
-- What the seven latency rows of the report of backend/cmd/loadgen/main.go say of sorted latencies.
use native.Mathlib.Nat.{le-div_iff_mul-le, lt-div-mul-add}
use vegait.Prelude.{
  ℕ, zero, suc, ◌+◌, ◌-◌, ◌*◌, ◌/◌, ◌^◌, ◌≤◌, ◌<◌, ◌≡◌, ◌∙◌, ap, refl, List, [], ◌∷◌, map, some, ℤ,
  pos, ◌+ℤ◌, wrap_int64, wrap_int64_in_range, length, All, arith, ltb, leb, count,
}
use vegait.Loadgen.{at, pct}
use vegait.Loadgen.Percentile.{pct-in_range}
use vegait.Loadgen.Report.{sum_from, avg, all_there, report_rows, latency_rows}

abbrev pub IsSorted : List ℕ → Type 0
IsSorted [] = Unit
IsSorted (d ∷ ds) = All (λ e. d ≤ e) ds × IsSorted ds

-- The k-th least of a list, in whatever order it stands: `k` of its items at least are no greater, and
-- fewer than `k` are less.
abbrev pub IsRanked : List ℕ → ℕ → ℕ → Type 0
IsRanked ds k v = (k ≤ count (λ e. leb e v) ds) × (count (λ e. ltb e v) ds < k)

abbrev pub sum : List ℕ → ℕ
sum [] = 0
sum (d ∷ ds) = d + sum ds

-- The mean, cut to a whole number.
abbrev pub IsMean : List ℕ → ℕ → Type 0
IsMean ds v = (v * length ds ≤ sum ds) × (sum ds < (v + 1) * length ds)

length-map_pos : (ds : List ℕ) → length (map pos ds) ≡ length ds
length-map_pos [] = refl
length-map_pos (d ∷ ds) = omega (arith, length-map_pos ds)

count-none_less : (d : ℕ) (ds : List ℕ) → All (λ e. d ≤ e) ds → count (λ e. ltb e d) ds ≡ 0
count-none_less d [] h = refl
count-none_less d (e ∷ ds) (le, h) = ground (arith, count-none_less d ds h)

count-least : (d v : ℕ) (ds : List ℕ) → All (λ e. d ≤ e) ds → 0 < count (λ e. leb e v) ds → d ≤ v
count-least d v [] h k = absurd (omega arith)
count-least d v (e ∷ ds) (le, h) k = ground (arith, count-least d v ds h)

at-IsRanked :
    (i : ℕ) (ds : List ℕ)
    → IsSorted ds
    → i < length ds
    → (v : ℕ) × (at i (map pos ds) ≡ some (pos v)) × IsRanked ds (suc i) v
unfolding at
at-IsRanked i [] h k = absurd (omega arith)
at-IsRanked zero (d ∷ ds) (least, h) k =
    (d, refl, (ground arith, ground (arith, count-none_less d ds least)))
at-IsRanked (suc i) (d ∷ ds) (least, h) k =
    let (v, found, (low, high)) = at-IsRanked i ds h (omega arith) in
    let before = count-least d v ds least (omega (arith, low)) in
    (v, found, (ground (arith, low, before), ground (arith, high)))

pct-IsRanked :
    (rank : ℕ) (ds : List ℕ)
    → IsSorted ds
    → (0 < rank) × (rank ≤ length ds)
    → (v : ℕ) × (pct (pos rank) (map pos ds) ≡ some (pos v)) × IsRanked ds rank v
pct-IsRanked zero ds h (some_rank, within) = absurd (omega arith)
pct-IsRanked (suc i) ds h (some_rank, within) =
    let (v, found, ranked) = at-IsRanked i ds h (omega arith) in
    (
      v,
      (pct-in_range (pos (suc i)) (map pos ds)).1 i refl (omega (arith, length-map_pos ds)) ∙ found,
      ranked,
    )

add-kept : (s n : ℕ) → s + n < 2 ^ 63 → wrap_int64 (pos s +ℤ pos n) ≡ pos (s + n)
unfolding ◌+ℤ◌
add-kept s n h =
    let same : pos s +ℤ pos n ≡ pos (s + n) = ground arith in
    rw same (wrap_int64_in_range (pos (s + n)) h (omega arith))

sum_from-eq :
    (s : ℕ) (ds : List ℕ) → s + sum ds < 2 ^ 63 → sum_from (pos s) (map pos ds) ≡ pos (s + sum ds)
unfolding sum_from
sum_from-eq s [] h = ap pos (omega arith)
sum_from-eq s (d ∷ ds) h =
    rw (add-kept s d (omega arith), sum_from)
      (sum_from-eq (s + d) ds (omega arith) ∙ ap pos (omega arith))

avg-IsMean :
    (ds : List ℕ)
    → 0 < length ds
    → sum ds < 2 ^ 63
    → (v : ℕ) × (avg (map pos ds) ≡ some (pos v)) × IsMean ds v
unfolding avg
avg-IsMean [] some_item h = absurd (omega arith)
avg-IsMean (d ∷ ds) some_item h =
    let n = length (d ∷ ds) in
    let t = sum (d ∷ ds) in
    let summed : sum_from (pos 0) (map pos (d ∷ ds)) ≡ pos t =
      sum_from-eq 0 (d ∷ ds) (omega arith) ∙ ap pos (omega arith) in
    let high = lt-div-mul-add {a = t} {b = n} some_item in
    (
      t / n,
      rw (summed, length-map_pos ds) refl,
      ((le-div_iff_mul-le some_item).0 (omega arith), grind (arith, high)),
    )

-- The report's rows: what each figure is of the latencies.
pub record IsReported (rank : ℕ → ℕ) (ds : List ℕ) (min p50 p90 p95 p99 max avg : ℕ) : Type 0 where
  pub least : IsRanked ds 1 min
  pub half : IsRanked ds (rank 50) p50
  pub nine_tenths : IsRanked ds (rank 90) p90
  pub nineteen_twentieths : IsRanked ds (rank 95) p95
  pub all_but_one_percent : IsRanked ds (rank 99) p99
  pub greatest : IsRanked ds (length ds) max
  pub mean : IsMean ds avg

report_rows-all_there :
    (ceiled : ℕ → ℤ) (ds : List ℤ) {min p50 p90 p95 p99 max mean : ℤ}
    → at 0 ds ≡ some min
    → pct (ceiled 50) ds ≡ some p50
    → pct (ceiled 90) ds ≡ some p90
    → pct (ceiled 95) ds ≡ some p95
    → pct (ceiled 99) ds ≡ some p99
    → at (length ds - 1) ds ≡ some max
    → avg ds ≡ some mean
    → all_there (report_rows ceiled ds)
      ≡ some (
          ("min", min)
          ∷ ("p50", p50)
          ∷ ("p90", p90)
          ∷ ("p95", p95)
          ∷ ("p99", p99)
          ∷ ("max", max)
          ∷ ("avg", mean)
          ∷ [])
unfolding report_rows
report_rows-all_there ceiled ds e0 e50 e90 e95 e99 e1 e = rw (e0, e50, e90, e95, e99, e1, e) refl

-- Where some requests were allowed and their latencies are sorted, none is negative and their sum
-- is an int64, all seven rows are printed: min and max are the least and the greatest latency; each
-- percentile is the one of the rank that the floating-point product is rounded up to, as many
-- latencies being no greater and fewer being less, if that rank is from 1 to their number; and avg
-- is their mean, cut to whole nanoseconds.
pub latency_rows-IsReported :
    (rank : ℕ → ℕ) (d : ℕ) (ds : List ℕ)
    → IsSorted (d ∷ ds)
    → All (λ p. (0 < rank p) × (rank p ≤ length (d ∷ ds))) (50 ∷ 90 ∷ 95 ∷ 99 ∷ [])
    → sum (d ∷ ds) < 2 ^ 63
    → (min : ℕ) × (p50 : ℕ) × (p90 : ℕ) × (p95 : ℕ) × (p99 : ℕ) × (max : ℕ) × (avg : ℕ)
      × (latency_rows (λ p. pos (rank p)) (map pos (d ∷ ds))
          ≡ some (
              ("min", pos min)
              ∷ ("p50", pos p50)
              ∷ ("p90", pos p90)
              ∷ ("p95", pos p95)
              ∷ ("p99", pos p99)
              ∷ ("max", pos max)
              ∷ ("avg", pos avg)
              ∷ []))
      × IsReported rank (d ∷ ds) min p50 p90 p95 p99 max avg
unfolding latency_rows
latency_rows-IsReported rank d ds h (in50, (in90, (in95, (in99, _)))) small =
    let all = d ∷ ds in
    let (lo, lo_at, least) = at-IsRanked 0 all h (omega arith) in
    let (p50, at50, half) = pct-IsRanked (rank 50) all h in50 in
    let (p90, at90, most) = pct-IsRanked (rank 90) all h in90 in
    let (p95, at95, more) = pct-IsRanked (rank 95) all h in95 in
    let (p99, at99, nearly) = pct-IsRanked (rank 99) all h in99 in
    let (hi, hi_at, greatest) = at-IsRanked (length ds) all h (omega arith) in
    let max_at : at (length (map pos all) - 1) (map pos all) ≡ some (pos hi) =
      (ap (λ i. at i (map pos all)) (omega (arith, length-map_pos ds))) ∙ hi_at in
    let (m, mean_at, mean) = avg-IsMean all (omega arith) small in
    (
      lo,
      p50,
      p90,
      p95,
      p99,
      hi,
      m,
      report_rows-all_there (λ p. pos (rank p)) (map pos all) lo_at at50 at90 at95 at99 max_at
          mean_at,
      record {
        least = least;
        half = half;
        nine_tenths = most;
        nineteen_twentieths = more;
        all_but_one_percent = nearly;
        greatest = greatest;
        mean = mean;
      },
    )
