-- ===== src/Loadgen/Counting.antt =====
-- The counters of the load generator (backend/cmd/loadgen/main.go) add up.
use vegait.Prelude.{
  ℕ, zero, suc, ◌+◌, ◌^◌, ◌<◌, ◌≡◌, refl, List, [], ◌∷◌, ◌++◌, ℤ, length, length-append, All, arith,
}
use vegait.Loadgen.{Tally, FireResult, failed, answered, append_at, tally, start, tally_all, merge}

merge-append_at :
    (i : ℕ) (d : ℤ) (lats : List (List ℤ))
    → i < length lats
    → length (merge (append_at i d lats)) ≡ suc (length (merge lats))
unfolding merge
merge-append_at i d [] h = absurd (omega arith)
merge-append_at zero d (lat ∷ lats) h = omega (
  arith,
  length-append (lat ++ d ∷ []) (merge lats),
  length-append lat (d ∷ []),
  length-append lat (merge lats),
)
merge-append_at (suc i) d (lat ∷ lats) h = omega (
  arith,
  length-append lat (merge (append_at i d lats)),
  length-append lat (merge lats),
  merge-append_at i d lats (omega arith),
)

length-append_at :
    (i : ℕ) (d : ℤ) (lats : List (List ℤ)) → length (append_at i d lats) ≡ length lats
length-append_at i d [] = refl
length-append_at zero d (lat ∷ lats) = refl
length-append_at (suc i) d (lat ∷ lats) = omega (arith, length-append_at i d lats)

-- Every request sent is counted once more, as one of four kinds, and each allowed one has a latency.
pub record AddsUp (workers n : ℕ) (t : Tally) : Type 0 where
  pub all_sent : t.sent ≡ n
  pub kinds : t.allowed + t.blocked + t.errors + t.other_status ≡ n
  pub latencies : length (merge t.per_worker) ≡ t.allowed
  pub lists : length t.per_worker ≡ workers

pub tally-AddsUp :
    (workers n worker : ℕ) (result : FireResult) (t : Tally)
    → worker < workers
    → suc n < 2 ^ 64
    → AddsUp workers n t
    → AddsUp workers (suc n) (tally worker result t)
unfolding tally
tally-AddsUp workers n worker failed t h k a = ground arith
tally-AddsUp workers n worker (answered status latency) t h k a = ground (
  arith,
  merge-append_at worker latency t.per_worker,
  length-append_at worker latency t.per_worker,
)

pub start-AddsUp : (workers : ℕ) → AddsUp workers 0 (start workers)
unfolding start merge
start-AddsUp zero = record { all_sent = refl; kinds = refl; latencies = refl; lists = refl }
start-AddsUp (suc workers) =
    let ih = start-AddsUp workers in
    record {
      all_sent = refl;
      kinds = refl;
      latencies = ih.latencies;
      lists = omega (arith, ih.lists);
    }

+_zero : (n : ℕ) → n + 0 ≡ n
+_zero n = omega arith

tally_all-AddsUp_from :
    (workers n : ℕ) (results : List (ℕ × FireResult)) (t : Tally)
    → All (λ e. e.0 < workers) results
    → n + length results < 2 ^ 64
    → AddsUp workers n t
    → AddsUp workers (n + length results) (tally_all results t)
unfolding tally_all
tally_all-AddsUp_from workers n [] t h k a = rw (+_zero n) a
tally_all-AddsUp_from workers n ((worker, result) ∷ more) t h k a =
    let ih =
      tally_all-AddsUp_from workers (suc n) more (tally worker result t) h.1 (omega arith)
        (tally-AddsUp workers n worker result t h.0 (omega arith) a) in
    let same : suc n + length more ≡ n + suc (length more) = omega arith in rw same at ih

-- However the workers' results interleave, the report's counters add up: the requests sent are those
-- allowed, blocked, failed and answered with another status, and the merged latencies are one for each
-- allowed request. There are fewer than 2 ^ 64 results, each of a worker that exists.
pub tally_all-AddsUp :
    (workers : ℕ) (results : List (ℕ × FireResult))
    → All (λ e. e.0 < workers) results
    → length results < 2 ^ 64
    → AddsUp workers (length results) (tally_all results (start workers))
tally_all-AddsUp workers results h k =
    let same : 0 + length results ≡ length results = omega arith in
    rw same at (
      tally_all-AddsUp_from workers 0 results (start workers) h (omega arith)
        (start-AddsUp workers))
