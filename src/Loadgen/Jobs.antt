-- ===== src/Loadgen/Jobs.antt =====
-- The workers of backend/cmd/loadgen/main.go: main sends cfg.total jobs on a channel of
-- cfg.concurrency places and closes it; each worker takes jobs and fires requests until the channel
-- is closed and empty. The panics of main's `make`s are modelled, and an exhausted memory is not. A
-- step is one action of main or of one worker, in any order.
pub mod Pace
pub mod Termination
use vegait.Prelude.{
  ℕ, zero, suc, ◌+◌, ◌<◌, ◌≡◌, Bool, true, false, List, [], ◌∷◌, ◌++◌, pos_part, length, Option,
  none, some, ℤ, pos, ◌+ℤ◌, ◌/◌, ◌&&◌, ◌||◌, leb_ℤ, wrap_int64, if◌then◌else◌,
}
use vegait.Loadgen.{Load, FireResult, Tally, tally, start}

-- A worker at the head of its loop, in fire, or after its loop.
pub data Phase : Type 0 where
  waiting firing finished : Phase

-- The jobs that main has still to send, those in the channel, whether it is closed, the workers, and the
-- counters.
pub record Dispatch : Type 0 where
  pub left : ℕ
  pub jobs : ℕ
  pub closed : Bool
  pub phases : List Phase
  pub totals : Tally

-- What a step is taken by: main sends a job or closes the channel; a worker takes a job, gets the
-- result of its request, or leaves the loop.
pub data Move (s t : Dispatch) : Type 0 where
  send :
      (n : ℕ)
      → s.left ≡ suc n
      → s.jobs < length s.phases
      → t ≡ record s { left = n; jobs = s.jobs + 1 }
      → Move s t
  close : s.left ≡ 0 → s.closed ≡ false → t ≡ record s { closed = true } → Move s t
  take :
      (before after : List Phase) (j : ℕ)
      → s.phases ≡ before ++ waiting ∷ after
      → s.jobs ≡ suc j
      → t ≡ record s { jobs = j; phases = before ++ firing ∷ after }
      → Move s t
  answer :
      (before after : List Phase) (result : FireResult)
      → s.phases ≡ before ++ firing ∷ after
      → t ≡ record s {
        phases = before ++ waiting ∷ after;
        totals = tally (length before) result s.totals;
      }
      → Move s t
  leave :
      (before after : List Phase)
      → s.phases ≡ before ++ waiting ∷ after
      → s.jobs ≡ 0
      → s.closed ≡ true
      → t ≡ record s { phases = before ++ finished ∷ after }
      → Move s t

abbrev workers : ℕ → List Phase
workers zero = []
workers (suc n) = waiting ∷ workers n

-- The state before the first job is sent.
abbrev pub ready : Load → Dispatch
ready load = record {
  left = pos_part load.total;
  jobs = 0;
  closed = false;
  phases = workers (pos_part load.concurrency);
  totals = start (pos_part load.concurrency);
}

-- A `make` of so many elements of so many bytes, which panics if the number is negative or what it asks
-- for is above the runtime's limit; `fits` is what the runtime says of that.
unfoldable pub make : (ℕ → ℤ → Bool) → ℕ → ℤ → Bool
make fits bytes n = leb_ℤ (pos 0) n && fits bytes n

-- `cfg.total/cfg.concurrency+1` on int64, of flags that are not negative.
unfoldable pub share : Load → ℤ
share load = wrap_int64 (pos (pos_part load.total / pos_part load.concurrency) +ℤ pos 1)

-- main up to the first job: the table of the workers' latencies, the channel of the jobs, and a slice of
-- latencies for each worker; none if one of them cannot be made.
unfoldable pub launch : (ℕ → ℤ → Bool) → Load → Option Dispatch
unfolding make share
launch fits load =
    if make fits 24 load.concurrency
      && make fits 0 load.concurrency
      && (leb_ℤ load.concurrency (pos 0) || make fits 8 (share load))
    then some (ready load)
    else none

-- A run of a number of steps.
pub data Run (s : Dispatch) : ℕ → Dispatch → Type 0 where
  here : Run s 0 s
  next : {n : ℕ} {t u : Dispatch} → Run s n t → Move t u → Run s (suc n) u
