-- ===== src/Loadgen/Report.antt =====
-- The latencies of the report of backend/cmd/loadgen/main.go, and its bars and verdict. A product of
-- floating-point numbers that is cut to an int is an argument.
pub mod Latencies
use Prim.Native.String
use vegait.Prelude.{
  ℕ, zero, suc, ◌+◌, ◌-◌, ◌/◌, Bool, true, false, ◌&&◌, List, [], ◌∷◌, ◌++◌, Option, none, some,
  String, str_eq, ℤ, pos, negsuc, sub_ℕ, ◌+ℤ◌, ltb_ℤ, leb_ℤ, wrap_int64, ◌==◌, ltb, length,
  if◌then◌else◌,
}
use vegait.Loadgen.{pct, at}

-- The loop of avg, on an int64.
unfoldable pub sum_from : ℤ → List ℤ → ℤ
unfolding ◌+ℤ◌
sum_from sum [] = sum
sum_from sum (d ∷ ds) = sum_from (wrap_int64 (sum +ℤ d)) ds

-- Go's division by a length: toward 0, and a panic for 0.
abbrev divide : ℤ → ℕ → Option ℤ
divide sum zero = none
divide (pos n) (suc k) = some (pos (n / suc k))
divide (negsuc n) (suc k) = some (sub_ℕ 0 (suc n / suc k))

unfoldable pub avg : List ℤ → Option ℤ
unfolding sum_from
avg ds = divide (sum_from (pos 0) ds) (length ds)

-- Rows that are all there, or a panic.
abbrev all_there : List (String × Option ℤ) → Option (List (String × ℤ))
all_there [] = some []
all_there ((label, none) ∷ rows) = none
all_there ((label, some d) ∷ rows) = elim (all_there rows) [
  | none ↦ none
  | some ds ↦ some ((label, d) ∷ ds)
]

-- The rows of printReport on sorted latencies, where `ceiled p` is what pct cuts to an int for p; none
-- where there are no latencies.
unfoldable pub report_rows : (ℕ → ℤ) → List ℤ → List (String × Option ℤ)
unfolding pct at avg
report_rows ceiled sorted =
    ("min", at 0 sorted)
    ∷ ("p50", pct (ceiled 50) sorted)
    ∷ ("p90", pct (ceiled 90) sorted)
    ∷ ("p95", pct (ceiled 95) sorted)
    ∷ ("p99", pct (ceiled 99) sorted)
    ∷ ("max", at (length sorted - 1) sorted)
    ∷ ("avg", avg sorted)
    ∷ []

unfoldable pub latency_rows : (ℕ → ℤ) → List ℤ → Option (List (String × ℤ))
unfolding report_rows
latency_rows ceiled [] = some []
latency_rows ceiled (d ∷ ds) = all_there (report_rows ceiled (d ∷ ds))

-- One of the cells of progressBar, and its loop from cell i on, given `int(pct / 100 * float64(width))`.
abbrev cell : ℤ → ℕ → String
cell filled i = if ltb_ℤ (pos i) filled then "=" else if leb_ℤ (pos i) filled then ">" else " "

abbrev cells : ℤ → ℕ → ℕ → List String
cells filled i zero = []
cells filled i (suc more) = cell filled i ∷ cells filled (suc i) more

-- progressBar without its colors, as the texts that it puts together.
unfoldable pub progress_bar : ℤ → ℕ → List String
progress_bar filled width = "[" ∷ cells filled 0 width ++ "]" ∷ []

abbrev copies : ℕ → List String
copies zero = []
copies (suc n) = "▏" ∷ copies n

-- latBar, given `int(float64(d) / float64(max) * float64(width))`.
unfoldable pub lat_bar : ℤ → ℤ → List ℤ → Option (List String)
unfolding pct
lat_bar ceiled n sorted = elim (pct ceiled sorted) [
  | none ↦ none
  | some max ↦
      if leb_ℤ max (pos 0)
      then some []
      else some (elim n [ negsuc k ↦ [] | pos m ↦ if ltb 24 m then copies 24 else copies m ])
]

-- The last line of the report.
pub data Verdict : Type 0 where
  healthy with_errors no_success : Verdict

unfoldable pub verdict : ℤ → ℤ → Verdict
verdict allowed errors =
    if ltb_ℤ (pos 0) allowed && leb_ℤ errors (pos 0) && leb_ℤ (pos 0) errors
    then healthy
    else if ltb_ℤ (pos 0) allowed
    then with_errors
    else no_success
