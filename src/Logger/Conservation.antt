-- ===== src/Logger/Conservation.antt =====
-- No entry is lost from sight in backend/internal/logger/logger.go: for every interleaving of Log, of
-- the workers' selects and of Close, and whatever the database does.
use vegait.Prelude.{
  ℕ, zero, suc, ◌+◌, ◌≡◌, refl, ap, inl, inr, Bool, List, [], ◌∷◌, ◌++◌, some, ltb, arith, length,
  count, count-append, length-append, Bool-cases, ◌==◌, ◌&&◌,
}
use mathlib.Core.Path.{subst}
use mathlib.Core.Option.{some-injective}
use vegait.Database.{LogEntry}
use vegait.Database.Batch.{Postgres, PostgresLaws}
use vegait.Logger.{
  Async, Worker, running, draining, Fate, written, unwritten, dropped, Logger, log, close_quit,
  receive, drain_round, work, work_at, WorkerEvent, takes, ticks, quits, Event, logs, hands, works,
  closes, hand, waits, step, run,
}
use vegait.Logger.Runs.{run-eq-some}
use vegait.Logger.Accounts.{
  Accounts, batch_of, batches, written_entries, unwritten_entries, dropped_entries, failures, fated,
  flush-Accounts, take_entry-Accounts,
}

-- The entries that the events hand to Log.
abbrev pub logged_by : Event → List LogEntry
logged_by (logs entry) = entry ∷ []
logged_by (hands i entry) = entry ∷ []
logged_by _ = []

abbrev pub submitted : List Event → List LogEntry
submitted [] = []
submitted (e ∷ es) = logged_by e ++ submitted es

module _ (p : LogEntry → Bool) where
  fated-append : (fs gs : List Fate) → fated p (fs ++ gs) ≡ fated p fs + fated p gs
  fated-append [] gs = omega arith
  fated-append (written b ∷ fs) gs = omega (
    arith,
    fated-append fs gs,
    count-append p b (written_entries fs),
    count-append p b (written_entries (fs ++ gs)),
  )
  fated-append (unwritten b ∷ fs) gs = omega (
    arith,
    fated-append fs gs,
    count-append p b (unwritten_entries fs),
    count-append p b (unwritten_entries (fs ++ gs)),
  )
  fated-append (dropped e ∷ fs) gs = omega (arith, fated-append fs gs)

  written-append :
      (fs gs : List Fate)
      → count p (written_entries (fs ++ gs))
        ≡ count p (written_entries fs) + count p (written_entries gs)
  written-append [] gs = omega arith
  written-append (written b ∷ fs) gs = omega (
    arith,
    written-append fs gs,
    count-append p b (written_entries fs),
    count-append p b (written_entries (fs ++ gs)),
  )
  written-append (unwritten b ∷ fs) gs = written-append fs gs
  written-append (dropped e ∷ fs) gs = written-append fs gs

  unwritten-append :
      (fs gs : List Fate)
      → count p (unwritten_entries (fs ++ gs))
        ≡ count p (unwritten_entries fs) + count p (unwritten_entries gs)
  unwritten-append [] gs = omega arith
  unwritten-append (written b ∷ fs) gs = unwritten-append fs gs
  unwritten-append (unwritten b ∷ fs) gs = omega (
    arith,
    unwritten-append fs gs,
    count-append p b (unwritten_entries fs),
    count-append p b (unwritten_entries (fs ++ gs)),
  )
  unwritten-append (dropped e ∷ fs) gs = unwritten-append fs gs

lengths-append :
    (fs gs : List Fate)
    → (length (written_entries (fs ++ gs))
        ≡ length (written_entries fs) + length (written_entries gs))
      × (length (dropped_entries (fs ++ gs))
          ≡ length (dropped_entries fs) + length (dropped_entries gs))
      × (failures (fs ++ gs) ≡ failures fs + failures gs)
lengths-append [] gs = omega arith
lengths-append (written b ∷ fs) gs = omega (
  arith,
  lengths-append fs gs,
  length-append b (written_entries fs),
  length-append b (written_entries (fs ++ gs)),
)
lengths-append (unwritten b ∷ fs) gs = omega (arith, lengths-append fs gs)
lengths-append (dropped e ∷ fs) gs = omega (arith, lengths-append fs gs)

module _ (pg : Postgres) (laws : PostgresLaws pg) (p : LogEntry → Bool) where
  open pg use {Conn, rows}

  abbrev WorkAccounts : Worker → Async Conn → Worker × Async Conn × List Fate → Type 0
  WorkAccounts w al (w', al', fs) =
      Accounts pg p 0 (count p (batch_of w)) al (count p (batch_of w')) al' fs

  receive-Accounts :
      (batch xs : List LogEntry) (al : Async Conn)
      → al.buffer ≡ xs
      → WorkAccounts (running batch) al (receive pg batch xs al)
  unfolding receive
  receive-Accounts batch [] al e = omega arith
  receive-Accounts batch (x ∷ xs) al e =
      omega
        (arith, ap (count p) e, take_entry-Accounts pg laws p batch x (record al { buffer = xs }))

  drain_round-Accounts :
      (batch xs : List LogEntry) (al : Async Conn)
      → al.buffer ≡ xs
      → WorkAccounts (draining batch) al (drain_round pg batch xs al)
  unfolding drain_round
  drain_round-Accounts batch [] al e = omega (arith, flush-Accounts pg laws p batch al)
  drain_round-Accounts batch (x ∷ xs) al e =
      omega
        (arith, ap (count p) e, take_entry-Accounts pg laws p batch x (record al { buffer = xs }))

  same_batch : (w : Worker) (al : Async Conn) → WorkAccounts w al (w, al, [])
  same_batch w al = omega arith

  work-Accounts :
      (e : WorkerEvent) (w : Worker) (al : Async Conn) → WorkAccounts w al (work pg e w al)
  unfolding work
  work-Accounts takes (running batch) al = receive-Accounts batch al.buffer al refl
  work-Accounts ticks (running batch) al = flush-Accounts pg laws p batch al
  work-Accounts quits (running batch) al = ground arith
  work-Accounts takes (draining batch) al = drain_round-Accounts batch al.buffer al refl
  work-Accounts _ w al = same_batch w al

  work_at-Accounts :
      (i : ℕ) (e : WorkerEvent) (ws : List Worker) (al : Async Conn)
      → let (ws', al', fs) = work_at pg i e ws al in
        Accounts pg p 0 (count p (batches ws)) al (count p (batches ws')) al' fs
  unfolding work_at
  work_at-Accounts i e [] al = omega arith
  work_at-Accounts zero e (w ∷ ws) al = omega (
    arith,
    work-Accounts e w al,
    count-append p (batch_of w) (batches ws),
    count-append p (batch_of (work pg e w al).0) (batches ws),
  )
  work_at-Accounts (suc i) e (w ∷ ws) al = omega (
    arith,
    work_at-Accounts i e ws al,
    count-append p (batch_of w) (batches ws),
    count-append p (batch_of w) (batches (work_at pg i e ws al).0),
  )

  log-Accounts :
      (entry : LogEntry) (n : ℕ) (al : Async Conn)
      → let (al', fs) = log entry al in Accounts pg p (count p (entry ∷ [])) n al n al' fs
  unfolding log
  log-Accounts entry n al = elim (Bool-cases (ltb (length al.buffer) al.buffer_size)) [
    | inl room ↦ rw room (omega (arith, count-append p al.buffer (entry ∷ [])))
    | inr full ↦ rw full (omega arith)
  ]

  abbrev StepAccounts : ℕ → Logger Conn → Logger Conn × List Fate → Type 0
  StepAccounts n l (l', fs) =
      Accounts pg p n (count p (batches l.workers)) l.shared (count p (batches l'.workers))
        l'.shared fs

  hand-Accounts :
      (i : ℕ) (entry : LogEntry) (l : Logger Conn)
      → StepAccounts (count p (entry ∷ [])) l (hand pg i entry l)
  unfolding hand
  hand-Accounts i entry l = elim (Bool-cases (l.shared.buffer_size == 0 && waits pg i l.workers)) [
    | inl direct ↦ rw direct (
        omega (
          arith,
          work_at-Accounts i takes l.workers (record l.shared { buffer = entry ∷ l.shared.buffer }),
        ))
    | inr offered ↦ rw offered (log-Accounts entry _ l.shared)
  ]

  step-Accounts :
      (e : Event) (l : Logger Conn) (o : Logger Conn × List Fate)
      → step pg e l ≡ some o
      → StepAccounts (count p (logged_by e)) l o
  unfolding step close_quit
  step-Accounts (logs entry) l o h =
      subst (StepAccounts _ l) (some-injective _ _ h) (log-Accounts entry _ l.shared)
  step-Accounts (hands i entry) l o h =
      subst (StepAccounts _ l) (some-injective _ _ h) (hand-Accounts i entry l)
  step-Accounts (works i e) l o h =
      subst (StepAccounts _ l) (some-injective _ _ h) (work_at-Accounts i e l.workers l.shared)
  step-Accounts closes l o h = elim (Bool-cases l.shared.quit) [
    | inl again ↦ absurd (cc)
    | inr first ↦ subst (StepAccounts 0 l) (some-injective _ _ (rw first at h)) (omega arith)
  ]

  -- Two stretches of events one after the other.
  append-Accounts :
      (m n : ℕ) (l : Logger Conn) (fs : List Fate) (l' : Logger Conn) (o : Logger Conn × List Fate)
      → StepAccounts m l (l', fs)
      → StepAccounts n l' o
      → StepAccounts (m + n) l (o.0, fs ++ o.1)
  append-Accounts m n l fs l' (l'', gs) a b =
      let (w, d, f) = lengths-append fs gs in
      record {
        entries = omega (arith, a.entries, b.entries, fated-append p fs gs);
        logged = omega (arith, a.logged, b.logged, w);
        drops = omega (arith, a.drops, b.drops, d);
        errors = omega (arith, a.errors, b.errors, f);
        rows_low = omega (arith, a.rows_low, b.rows_low, written-append p fs gs);
        rows_high =
            omega
              (arith, a.rows_high, b.rows_high, written-append p fs gs, unwritten-append p fs gs);
      }

  -- Whatever the goroutines' interleaving, unless the process panics: of the entries that pass any
  -- test, those in the channel and in the workers' batches, those written, those in batches that
  -- failed and those dropped make up the ones held before and the ones given to Log. The counters
  -- count, as int64 words, the entries written, the entries dropped and the batches that failed. And
  -- the table has gained at least the entries written, and at most those and the ones that failed.
  pub run-Accounts :
      (es : List Event) (l l' : Logger Conn) (fs : List Fate)
      → run pg es l ≡ some (l', fs)
      → Accounts pg p
          (count p (submitted es))
          (count p (batches l.workers))
          l.shared
          (count p (batches l'.workers))
          l'.shared
          fs
  unfolding run
  run-Accounts [] l l' fs h = subst (StepAccounts 0 l) (some-injective _ _ h) (omega arith)
  run-Accounts (e ∷ es) l l' fs h =
      let (l1, fs1, fs2, stepped, ran, joined) = run-eq-some pg e es l l' fs h in
      let a = step-Accounts e l (l1, fs1) stepped in
      let b = run-Accounts es l1 l' fs2 ran in
      rw (joined, count-append p (logged_by e) (submitted es))
        (append-Accounts _ _ l fs1 l1 (l', fs2) a b)
