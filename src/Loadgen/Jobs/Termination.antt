-- ===== src/Loadgen/Jobs/Termination.antt =====
-- The load generator's workers finish all jobs (backend/cmd/loadgen/main.go).
use vegait.Prelude.{
  ℕ, zero, suc, ◌+◌, ◌*◌, ◌^◌, ◌<◌, ◌≡◌, refl, ap, ◌⊎◌, inl, inr, List, [], ◌∷◌, ◌++◌, ℤ, pos_part,
  length, arith, Bool, Bool-cases, All, some,
}
use vegait.Loadgen.{Load, failed, parse_flags}
use vegait.Loadgen.Counting.{AddsUp, start-AddsUp}
use vegait.Loadgen.Jobs.{
  Phase, waiting, firing, finished, Dispatch, Move, send, close, take, answer, leave, workers,
  ready, launch, Run, here, next,
}
use vegait.Loadgen.Jobs.Pace.{
  sum_of, sum_of-append, steps_left, on_their_way, gone, open_steps, IsPaced, Move-IsPaced,
}

launch-IsPaced_workers :
    (crew : ℕ)
    → (length (workers crew) ≡ crew)
      × (sum_of on_their_way (workers crew) ≡ 0)
      × (sum_of gone (workers crew) ≡ 0)
      × (sum_of steps_left (workers crew) ≡ crew)
launch-IsPaced_workers zero = (refl, refl, refl, refl)
launch-IsPaced_workers (suc crew) =
    let (l, w, g, s) = launch-IsPaced_workers crew in
    (omega (arith, l), omega (arith, w), omega (arith, g), omega (arith, s))

launch-IsPaced :
    (load : Load) → IsPaced (pos_part load.concurrency) (pos_part load.total) 0 (ready load)
launch-IsPaced load =
    let (l, w, g, s) = launch-IsPaced_workers (pos_part load.concurrency) in
    record {
      done = 0;
      counted = start-AddsUp (pos_part load.concurrency);
      conserved = omega (arith, w);
      staffed = l;
      closed_last = λ c. absurd (cc);
      gone_last = λ k. absurd (omega (arith, g, k));
      paced = omega (arith, s);
    }

Run-IsPaced :
    (load : Load)
    → pos_part load.total < 2 ^ 63
    → {n : ℕ} {s : Dispatch} → Run (ready load) n s
    → IsPaced (pos_part load.concurrency) (pos_part load.total) n s
Run-IsPaced load h here = launch-IsPaced load
Run-IsPaced load h (next r m) =
    Move-IsPaced (pos_part load.concurrency) (pos_part load.total) h m (Run-IsPaced load h r)

-- A worker of a phase, with those before and after it.
abbrev Place : Phase → List Phase → Type 0
Place p ps = (before : List Phase) × (after : List Phase) × (ps ≡ before ++ p ∷ after)

further : (p : Phase) {ps : List Phase} → Place p ps → Place p (finished ∷ ps)
further p (before, after, at) = (finished ∷ before, after, ap (◌∷◌ finished) at)

-- Some worker still runs, or all have left.
locate :
    (ps : List Phase)
    → Place firing ps
      ⊎ (Place waiting ps ⊎ (sum_of gone ps ≡ length ps × All (λ p. p ≡ finished) ps))
locate [] = inr (inr (refl, tt))
locate (firing ∷ ps) = inl ([], ps, refl)
locate (waiting ∷ ps) = inr (inl ([], ps, refl))
locate (finished ∷ ps) = elim (locate ps) [
  | inl at ↦ inl (further firing at)
  | inr (inl at) ↦ inr (inl (further waiting at))
  | inr (inr (e, all)) ↦ inr (inr (omega (arith, e), (refl, all)))
]

ℕ-cases : (n : ℕ) → (n ≡ 0) ⊎ ((k : ℕ) × (n ≡ suc k))
ℕ-cases zero = inl refl
ℕ-cases (suc k) = inr (k, refl)

-- What a worker at the head of its loop makes possible.
waiting-moves :
    (s : Dispatch) → 0 < length s.phases → Place waiting s.phases → (t : Dispatch) × Move s t
waiting-moves s h (before, after, at) = elim (ℕ-cases s.jobs) [
  | inr (j, e) ↦ (_, take before after j at e refl)
  | inl none_in ↦ elim (ℕ-cases s.left) [
    | inr (m, e) ↦ (_, send m e (omega (arith, none_in, h)) refl)
    | inl none_left ↦ elim (Bool-cases s.closed) [
      | inl shut ↦ (_, leave before after at none_in shut refl)
      | inr opened ↦ (_, close none_left opened refl)
    ]
  ]
]

-- The workers have all left their loops, and every request is counted.
pub record IsOver (crew total : ℕ) (s : Dispatch) : Type 0 where
  pub all_finished : All (λ p. p ≡ finished) s.phases
  pub adds_up : AddsUp crew total s.totals

finished-IsOver :
    (crew total : ℕ) {n : ℕ} {s : Dispatch}
    → 0 < crew
    → IsPaced crew total n s
    → sum_of gone s.phases ≡ length s.phases
    → All (λ p. p ≡ finished) s.phases
    → sum_of steps_left s.phases ≡ 0
    → sum_of on_their_way s.phases ≡ 0
    → (n ≡ 3 * total + crew + 1) × IsOver crew total s
finished-IsOver crew total {n} {s} h v e all idle quiet =
    let (shut, none_in) = v.gone_last (omega (arith, v.staffed, e, h)) in
    let none_left = v.closed_last shut in
    let same : v.done ≡ total = omega (arith, v.conserved, none_in, none_left, quiet) in
    (
      omega (arith, v.paced, ap open_steps shut, none_in, none_left, idle),
      record { all_finished = all; adds_up = rw same at v.counted },
    )

finished-sums :
    (ps : List Phase)
    → All (λ p. p ≡ finished) ps
    → (sum_of steps_left ps ≡ 0) × (sum_of on_their_way ps ≡ 0)
finished-sums [] all = (refl, refl)
finished-sums (p ∷ ps) (e, all) =
    let (idle, quiet) = finished-sums ps all in
    (omega (arith, ap steps_left e, idle), omega (arith, ap on_their_way e, quiet))

parse_flags-positive :
    (total concurrency timeout_ms : ℤ)
    → (0 < pos_part (parse_flags total concurrency timeout_ms).concurrency)
      × (pos_part total < 2 ^ 63
          → pos_part (parse_flags total concurrency timeout_ms).total < 2 ^ 63)
unfolding parse_flags
parse_flags-positive total concurrency timeout_ms = ground arith

launch-eq-some :
    (fits : ℕ → ℤ → Bool) (load : Load) (s : Dispatch) → launch fits load ≡ some s → s ≡ ready load
unfolding launch
launch-eq-some fits load s h = ground arith

-- Whatever the flags are, wherever main's slices and its channel can be made, the load generator's
-- run comes to its end: however main and the workers take their steps, some step can be taken until
-- there are three for each request, one for each worker and one more; and after that many all
-- workers have left their loops, and the counters add up to the requests asked for. So no order of
-- steps blocks or goes on for ever. The number of requests is an int64.
pub launch_terminates :
    (fits : ℕ → ℤ → Bool) (total concurrency timeout_ms : ℤ) (first : Dispatch)
    → launch fits (parse_flags total concurrency timeout_ms) ≡ some first
    → pos_part total < 2 ^ 63
    → {n : ℕ} {s : Dispatch} → Run first n s
    → let load = parse_flags total concurrency timeout_ms in
      let steps = 3 * pos_part load.total + pos_part load.concurrency + 1 in
      ((n < steps) × (t : Dispatch) × Move s t)
      ⊎ ((n ≡ steps) × IsOver (pos_part load.concurrency) (pos_part load.total) s)
launch_terminates fits total concurrency timeout_ms first made h {n} {s} r =
    let load = parse_flags total concurrency timeout_ms in
    let (some_worker, bounded) = parse_flags-positive total concurrency timeout_ms in
    let at_start = launch-eq-some fits load first made in
    let v = Run-IsPaced load (bounded h) (rw at_start at r) in
    elim (locate s.phases) [
      | inl (before, after, at) ↦ inl (
        omega (
          arith,
          v.paced,
          ap (sum_of steps_left) at,
          sum_of-append steps_left before (firing ∷ after),
        ),
        _,
        answer before after failed at refl,
      )
      | inr (inl (before, after, at)) ↦
          let (t, m) =
            waiting-moves s (omega (arith, v.staffed, some_worker)) (before, after, at) in
          inl (
            omega (
              arith,
              v.paced,
              ap (sum_of steps_left) at,
              sum_of-append steps_left before (waiting ∷ after),
            ),
            t,
            m,
          )
      | inr (inr (e, all)) ↦
          let (idle, quiet) = finished-sums s.phases all in
          inr (
            finished-IsOver (pos_part load.concurrency) (pos_part load.total) some_worker v e all
              idle quiet)
    ]
