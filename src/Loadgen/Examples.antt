-- ===== src/Loadgen/Examples.antt =====
-- The theorems about backend/cmd/loadgen/main.go at concrete inputs.
use vegait.Prelude.{
  ℕ, leb, if◌then◌else◌, Bool, wrap_int64, ◌+ℤ◌, leb_ℤ, ◌+◌, ◌*◌, ◌≡◌, ◌<◌, ◌⊎◌, refl, pos_part,
  negsuc, true, List, [], ◌∷◌, some, ℤ, pos, arith,
}
use vegait.Loadgen.{parse_flags, FireResult, failed, answered, tally, start, tally_all}
use vegait.Loadgen.Jobs.{
  finished, Dispatch, Move, send, close, take, answer, leave, ready, make, share, launch, Run, here,
  next,
}
use vegait.Loadgen.Jobs.Termination.{IsOver, launch_terminates}
use vegait.Loadgen.Report.{latency_rows}
use vegait.Loadgen.Report.Latencies.{IsReported, latency_rows-IsReported}
use vegait.Loadgen.Counting.{AddsUp, tally_all-AddsUp}

abbrev results : List (ℕ × FireResult)
results = (0, answered 200 (pos 5)) ∷ (1, answered 429 (pos 1)) ∷ (1, failed) ∷ []

tally_all-AddsUp_example : AddsUp 2 3 (tally_all results (start 2))
tally_all-AddsUp_example =
    tally_all-AddsUp 2 results (omega arith, (omega arith, (omega arith, tt))) (omega arith)

-- The nearest ranks of three latencies.
abbrev rank : ℕ → ℕ
rank p = if leb p 50 then 2 else 3

latency_rows-IsReported_example :
    (min : ℕ) × (p50 : ℕ) × (p90 : ℕ) × (p95 : ℕ) × (p99 : ℕ) × (max : ℕ) × (avg : ℕ)
    × (latency_rows (λ p. pos (rank p)) (pos 3 ∷ pos 5 ∷ pos 9 ∷ [])
        ≡ some (
            ("min", pos min)
            ∷ ("p50", pos p50)
            ∷ ("p90", pos p90)
            ∷ ("p95", pos p95)
            ∷ ("p99", pos p99)
            ∷ ("max", pos max)
            ∷ ("avg", pos avg)
            ∷ []))
    × IsReported rank (3 ∷ 5 ∷ 9 ∷ []) min p50 p90 p95 p99 max avg
latency_rows-IsReported_example =
    latency_rows-IsReported rank 3 (5 ∷ 9 ∷ [])
      ((omega arith, (omega arith, tt)), ((omega arith, tt), (tt, tt)))
      (
        (omega arith, omega arith),
        (
          (omega arith, omega arith),
          ((omega arith, omega arith), ((omega arith, omega arith), tt)),
        ),
      )
      (omega arith)

-- One request, asked for by flags below their least values, and its one worker.
abbrev one_request : Dispatch
one_request = ready (parse_flags (pos 0) (negsuc 2) (pos 10))

abbrev one_done : Dispatch
one_done = record {
  left = 0;
  jobs = 0;
  closed = true;
  phases = finished ∷ [];
  totals = tally 0 (answered 429 (pos 1)) (start 1);
}

one_done-Run : Run one_request 5 one_done
unfolding parse_flags
one_done-Run =
    let sent = next here (send 0 refl (omega arith) refl) in
    let taken = next sent (take [] [] 0 refl refl refl) in
    let shut = next taken (close refl refl refl) in
    let answers = next shut (answer [] [] (answered 429 (pos 1)) refl refl) in
    next answers (leave [] [] refl refl refl refl)

-- At most a thousand elements.
abbrev small : ℕ → ℤ → Bool
small bytes n = leb_ℤ n (pos 1000)

made : launch small (parse_flags (pos 0) (negsuc 2) (pos 10)) ≡ some one_request
unfolding launch make share parse_flags wrap_int64 ◌+ℤ◌
made = refl

launch_terminates_example :
    let load = parse_flags (pos 0) (negsuc 2) (pos 10) in
    let steps = 3 * pos_part load.total + pos_part load.concurrency + 1 in
    ((5 < steps) × (t : Dispatch) × Move one_done t)
    ⊎ ((5 ≡ steps) × IsOver (pos_part load.concurrency) (pos_part load.total) one_done)
launch_terminates_example =
    launch_terminates small (pos 0) (negsuc 2) (pos 10) one_request made (omega arith) one_done-Run
