-- ===== src/Logger/Runs.antt =====
-- The steps of a run of backend/internal/logger/logger.go, as the proofs by induction take them.
use vegait.Prelude.{◌≡◌, refl, arith, List, ◌∷◌, ◌++◌, Option, none, some}
use vegait.Database.Batch.{Postgres}
use vegait.Logger.{Fate, Event, Logger, step, run, more_fates}

module _ (pg : Postgres) where
  open pg use {Conn}

  more_fates-eq-some :
      (fs : List Fate) (m : Option (Logger Conn × List Fate)) {l : Logger Conn} {all : List Fate}
      → more_fates pg fs m ≡ some (l, all)
      → (later : List Fate) × (m ≡ some (l, later)) × (all ≡ fs ++ later)
  more_fates-eq-some fs none h = cc
  more_fates-eq-some fs (some (l', later)) h = (later, ground arith, ground arith)

  abbrev run_on : List Event → Option (Logger Conn × List Fate) → Option (Logger Conn × List Fate)
  run_on es none = none
  run_on es (some (l, fates)) = more_fates pg fates (run pg es l)

  run_on-eq-some :
      (es : List Event) (m : Option (Logger Conn × List Fate)) {l' : Logger Conn} {all : List Fate}
      → run_on es m ≡ some (l', all)
      → (l1 : Logger Conn) × (fs : List Fate) × (later : List Fate) × (m ≡ some (l1, fs))
        × (run pg es l1 ≡ some (l', later))
        × (all ≡ fs ++ later)
  run_on-eq-some es none h = cc
  run_on-eq-some es (some (l1, fs)) h =
      let (later, ran, joined) = more_fates-eq-some fs (run pg es l1) h in
      (l1, fs, later, refl, ran, joined)

  -- A run that ends without a panic is a step and a run.
  pub run-eq-some :
      (e : Event) (es : List Event) (l l' : Logger Conn) (all : List Fate)
      → run pg (e ∷ es) l ≡ some (l', all)
      → (l1 : Logger Conn) × (fs : List Fate) × (later : List Fate) × (step pg e l ≡ some (l1, fs))
        × (run pg es l1 ≡ some (l', later))
        × (all ≡ fs ++ later)
  unfolding run
  run-eq-some e es l l' all h = run_on-eq-some es (step pg e l) h

  pub run-cons :
      (e : Event) (es : List Event) (l : Logger Conn) {l1 l2 : Logger Conn} {fs gs : List Fate}
      → step pg e l ≡ some (l1, fs)
      → run pg es l1 ≡ some (l2, gs)
      → run pg (e ∷ es) l ≡ some (l2, fs ++ gs)
  unfolding run
  run-cons e es l stepped ran = rw (stepped, run) (rw ran)
