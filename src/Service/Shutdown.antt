-- ===== src/Service/Shutdown.antt =====
-- The end of main in backend/cmd/server/main.go, after a signal: the logger's Close, and then the
-- deferred calls in their order, the logger's Close again and the Close of the pools. Close of
-- backend/internal/logger/logger.go closes `quit` and waits until every worker has returned. The two
-- servers' Shutdown is left out: requests that they still serve may log while Close waits.
use vegait.Prelude.{
  ◌≡◌, refl, ap, sym, ◌∙◌, ◌⊎◌, inl, inr, Bool, true, false, Bool-cases, All, List, [], ◌∷◌, ◌++◌,
  Option, none, some, if◌then◌else◌,
}
use mathlib.Core.Option.{some-injective}
use vegait.Database.Batch.{Postgres}
use vegait.Database.Migrations.{Container, close}
use vegait.Logger.{
  Logger, Worker, running, draining, stopped, Fate, Event, logs, hands, works, closes, close_quit,
  step, run,
}
use vegait.Logger.Runs.{run-eq-some, run-cons}
use vegait.Logger.Shutdown.{step-quit}

-- How far the process has come: the first Close still waits; a panic of the first or of the second Close,
-- or none, each with the pools after the deferred calls; or a crash of another goroutine, after which
-- main's deferred calls do not run. The logger is as the second Close finds it.
pub data Ended (Conn : Type 0) : Type 0 where
  waiting crashed : Ended Conn
  first_panicked : Container → Ended Conn
  second_panicked : Logger Conn → List Fate → Container → Ended Conn
  exited : Logger Conn → List Fate → Container → Ended Conn

-- `wg.Wait()` returns.
unfoldable pub all_stopped : List Worker → Bool
all_stopped [] = true
all_stopped (stopped ∷ ws) = all_stopped ws
all_stopped (running batch ∷ ws) = false
all_stopped (draining batch ∷ ws) = false

all_stopped_lem : (ws : List Worker) → all_stopped ws ≡ true → All (λ w. w ≡ stopped) ws
unfolding all_stopped
all_stopped_lem [] h = tt
all_stopped_lem (stopped ∷ ws) h = (refl, all_stopped_lem ws h)
all_stopped_lem (running batch ∷ ws) h = absurd (cc)
all_stopped_lem (draining batch ∷ ws) h = absurd (cc)

module _ (pg : Postgres) where
  open pg use {Conn}

  abbrev second_close : Logger Conn → List Fate → Container → Ended Conn
  second_close l fs c = elim (close_quit l.shared) [
    | none ↦ second_panicked l fs (close c)
    | some al ↦ exited (record l { shared = al }) fs (close c)
  ]

  -- The first Close waits, and main goes on once all workers have returned.
  abbrev wait_all : Option (Logger Conn × List Fate) → Container → Ended Conn
  wait_all none c = crashed
  wait_all (some (l, fs)) c = if all_stopped l.workers then second_close l fs c else waiting

  -- `es` is what the workers and the requests still served do while the first Close waits.
  unfoldable pub shut_down : List Event → Logger Conn → Container → Ended Conn
  unfolding run close_quit close all_stopped
  shut_down es l c = elim (close_quit l.shared) [
    | none ↦ first_panicked (close c)
    | some al ↦ wait_all (run pg es (record l { shared = al })) c
  ]

  run-quit_kept :
      (es : List Event) (l l' : Logger Conn) (fs : List Fate)
      → l.shared.quit ≡ true
      → run pg es l ≡ some (l', fs)
      → l'.shared.quit ≡ true
  unfolding run
  run-quit_kept [] l l' fs q h = ap (λ o. o.0.shared.quit) (sym (some-injective _ _ h)) ∙ q
  run-quit_kept (e ∷ es) l l' fs q h =
      let (l1, gs, later, stepped, ran, joined) = run-eq-some pg e es l l' fs h in
      run-quit_kept es l1 l' later (step-quit pg e l l1 gs q stepped) ran

  step-returns :
      (e : Event) (l : Logger Conn)
      → ¬ (e ≡ closes)
      → (l' : Logger Conn) × (fs : List Fate) × (step pg e l ≡ some (l', fs))
  unfolding step
  step-returns (logs entry) l h = (_, _, refl)
  step-returns (hands i entry) l h = (_, _, refl)
  step-returns (works i e) l h = (_, _, refl)
  step-returns closes l h = absurd (h refl)

  run-returns :
      (es : List Event) (l : Logger Conn)
      → All (λ e. ¬ (e ≡ closes)) es
      → (l' : Logger Conn) × (fs : List Fate) × (run pg es l ≡ some (l', fs))
  unfolding run
  run-returns [] l h = (l, [], refl)
  run-returns (e ∷ es) l (open_left, h) =
      let (l1, fs, stepped) = step-returns e l open_left in
      let (l2, gs, ran) = run-returns es l1 h in (l2, fs ++ gs, run-cons pg e es l stepped ran)

  second_close_lem :
      (l : Logger Conn) (fs : List Fate) (c : Container)
      → l.shared.quit ≡ true
      → second_close l fs c ≡ second_panicked l fs (close c)
  unfolding close_quit
  second_close_lem l fs c h = rw h refl

  -- A logger that has not been closed, and that main alone closes: whatever its workers and the requests
  -- still served do while the first Close waits, either some worker has not returned yet and Close
  -- goes on waiting; or all have, and then the second Close, which main deferred, panics, with the state
  -- that the first one left, and the pools are closed all the same. So the first Close never panics, and
  -- no shutdown exits without a panic.
  pub shut_down-panics :
      (es : List Event) (l : Logger Conn) (c : Container)
      → l.shared.quit ≡ false
      → All (λ e. ¬ (e ≡ closes)) es
      → (l' : Logger Conn) × (fs : List Fate) × (run pg es
            (record l { shared = record l.shared { quit = true } })
          ≡ some (l', fs))
        × (((all_stopped l'.workers ≡ false) × (shut_down es l c ≡ waiting))
            ⊎ (All (λ w. w ≡ stopped) l'.workers
                × (shut_down es l c ≡ second_panicked l' fs (close c))))
  unfolding shut_down close_quit
  shut_down-panics es l c fresh only =
      let closed = record l { shared = record l.shared { quit = true } } in
      let (l', fs, ran) = run-returns es closed only in
      (
        l',
        fs,
        ran,
        elim (Bool-cases (all_stopped l'.workers)) [
          | inl all ↦ inr (
            all_stopped_lem l'.workers all,
            rw (fresh, ran, all)
                (second_close_lem l' fs c (run-quit_kept es closed l' fs refl ran)),
          )
          | inr left ↦ inl (left, rw (fresh, ran, left) refl)
        ],
      )
