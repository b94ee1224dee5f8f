-- ===== src/Logger/Shutdown.antt =====
-- Close of backend/internal/logger/logger.go: a worker that sees the closed channel drains the buffer
-- and returns.
use mathlib.Core.List.{append-nil, append_assoc}
use mathlib.Core.Option.{some-injective}
use vegait.Logger.Bounds.{work_at-Keeps}
use vegait.Prelude.{
  ◌==◌, ◌&&◌, ℕ, String, zero, suc, ◌≡◌, refl, ap, sym, ◌∙◌, inl, inr, true, List, [], ◌∷◌, ◌++◌,
  Option, none, some, leb, arith, length, Bool-cases,
}
use vegait.Database.{LogEntry}
use vegait.Database.Batch.{Postgres, insert_logs_batch}
use vegait.Logger.{
  Async, Worker, running, draining, stopped, Fate, written, unwritten, dropped, Logger, log,
  close_quit, flush, flushed, take_entry, drain_round, work, work_at, WorkerEvent, takes, quits,
  Event, logs, hands, works, closes, hand, waits, step, run,
}
use vegait.Logger.Runs.{run-cons}

-- The entries that were sent to the database, in their order.
abbrev pub attempts : List Fate → List LogEntry
attempts [] = []
attempts (written b ∷ fs) = b ++ attempts fs
attempts (unwritten b ∷ fs) = b ++ attempts fs
attempts (dropped e ∷ fs) = attempts fs

attempts-append : (fs gs : List Fate) → attempts (fs ++ gs) ≡ attempts fs ++ attempts gs
attempts-append [] gs = refl
attempts-append (written b ∷ fs) gs = rw (attempts-append fs gs, append_assoc)
attempts-append (unwritten b ∷ fs) gs = rw (attempts-append fs gs, append_assoc)
attempts-append (dropped e ∷ fs) gs = attempts-append fs gs

-- The same event several times.
abbrev pub repeat : ℕ → Event → List Event
repeat zero e = []
repeat (suc n) e = e ∷ repeat n e

module _ (pg : Postgres) where
  open pg use {Conn}

  flushed-attempts :
      (b : List LogEntry) (al : Async Conn) (o : Conn × Option String)
      → ((flushed pg b al o).0.buffer ≡ al.buffer) × (attempts (flushed pg b al o).1 ≡ b)
  flushed-attempts b al (db', none) = (refl, append-nil b)
  flushed-attempts b al (db', some e) = (refl, append-nil b)

  flush-attempts :
      (b : List LogEntry) (al : Async Conn)
      → ((flush pg b al).0.buffer ≡ al.buffer) × (attempts (flush pg b al).1 ≡ b)
  unfolding flush
  flush-attempts [] al = (refl, refl)
  flush-attempts (x ∷ xs) al = flushed-attempts (x ∷ xs) al (insert_logs_batch pg (x ∷ xs) al.db)

  take_entry-attempts :
      (b : List LogEntry) (x : LogEntry) (al : Async Conn)
      → let (b', al', fs) = take_entry pg b x al in
        (al'.buffer ≡ al.buffer) × (attempts fs ++ b' ≡ b ++ x ∷ [])
  unfolding take_entry
  take_entry-attempts b x al = elim (Bool-cases (leb al.batch_size (length (b ++ x ∷ [])))) [
    | inl full ↦
        let (same, all) = flush-attempts (b ++ x ∷ []) al in rw full (same, append-nil _ ∙ all)
    | inr room ↦ rw room (refl, refl)
  ]

  -- An event for the worker behind `pre`.
  work_at-append :
      (e : WorkerEvent) (pre post : List Worker) (w : Worker) (al : Async Conn)
      → let (w', al', fs) = work pg e w al in
        work_at pg (length pre) e (pre ++ w ∷ post) al ≡ (pre ++ w' ∷ post, al', fs)
  unfolding work_at
  work_at-append e [] post w al = refl
  work_at-append e (v ∷ pre) post w al = rw (work_at-append e pre post w al)

  abbrev pub logger_with : List Worker → Worker → List Worker → Async Conn → Logger Conn
  logger_with pre w post al = record { shared = al; workers = pre ++ w ∷ post }

  -- What the rounds of a draining worker come to.
  abbrev pub Drains :
      List Worker → List Worker → List LogEntry → Option (Logger Conn × List Fate) → Type 0
  Drains pre post pending o =
      (al' : Async Conn) × (fs : List Fate) × (o ≡ some (logger_with pre stopped post al', fs))
      × (al'.buffer ≡ [])
      × (attempts fs ≡ pending)

  step-works :
      (e : WorkerEvent) (pre post : List Worker) (w w' : Worker) (al al' : Async Conn)
      (fs : List Fate)
      → work pg e w al ≡ (w', al', fs)
      → step pg (works (length pre) e) (logger_with pre w post al)
        ≡ some (logger_with pre w' post al', fs)
  unfolding step
  step-works e pre post w w' al al' fs h =
      rw (work_at-append e pre post w al) (ap (λ o. some (logger_with pre o.0 post o.1, o.2)) h)

  drain_round-work :
      (batch xs : List LogEntry) (al : Async Conn)
      → al.buffer ≡ xs
      → work pg takes (draining batch) al ≡ drain_round pg batch xs al
  unfolding work
  drain_round-work batch xs al e = ap (λ b. drain_round pg batch b al) e

  run-Drains :
      (pre post : List Worker) (batch xs : List LogEntry) (al : Async Conn)
      → al.buffer ≡ xs
      → Drains pre post (batch ++ xs) (
          run pg
            (repeat (suc (length xs)) (works (length pre) takes))
            (logger_with pre (draining batch) post al))
  unfolding drain_round
  run-Drains pre post batch [] al e =
      let (same, all) = flush-attempts batch al in
      let (al', fs) = flush pg batch al in
      let stepped =
        step-works takes pre post (draining batch) stopped al al' fs
          (drain_round-work batch [] al e) in
      (
        al',
        fs ++ [],
        run-cons pg _ [] _ stepped (unfold run in refl),
        same ∙ e,
        (rw (append-nil fs) all) ∙ sym (append-nil batch),
      )
  run-Drains pre post batch (x ∷ xs) al e =
      let al0 : Async Conn = record al { buffer = xs } in
      let (batch1, al1, fs1) = take_entry pg batch x al0 in
      let (same, kept) = take_entry-attempts batch x al0 in
      let stepped =
        step-works takes pre post (draining batch) (draining batch1) al al1 fs1
          (drain_round-work batch (x ∷ xs) al e) in
      let (al', fs, ran, empty, all) = run-Drains pre post batch1 xs al1 same in
      (
        al',
        fs1 ++ fs,
        run-cons pg _ (repeat (suc (length xs)) (works (length pre) takes)) _ stepped ran,
        empty,
        attempts-append fs1 fs
            ∙ ap (◌++◌ (attempts fs1)) all
            ∙ sym (append_assoc (attempts fs1) batch1 xs)
            ∙ ap (λ ys. ys ++ xs) kept
            ∙ append_assoc batch (x ∷ []) xs,
      )

  -- When the quit channel is closed and nothing more is logged, one worker alone empties the logger:
  -- from the moment it sees the quit channel it needs one round for each entry in the channel and one
  -- more, and then it has returned, the channel is empty, and its batch followed by the channel's
  -- entries has been sent to the database in that order.
  pub quits-Drains :
      (pre post : List Worker) (batch : List LogEntry) (al : Async Conn)
      → al.quit ≡ true
      → Drains pre post (batch ++ al.buffer) (
          run pg
            (works (length pre) quits ∷ repeat (suc (length al.buffer)) (works (length pre) takes))
            (logger_with pre (running batch) post al))
  unfolding work
  quits-Drains pre post batch al closed =
      let seen = step-works quits pre post (running batch) (draining batch) al al [] (rw closed) in
      let (al', fs, ran, empty, all) = run-Drains pre post batch al.buffer al refl in
      (al', fs, run-cons pg _ _ _ seen ran, empty, all)

  hand-quit :
      (i : ℕ) (entry : LogEntry) (l : Logger Conn)
      → (hand pg i entry l).0.shared.quit ≡ l.shared.quit
  unfolding hand log
  hand-quit i entry l = elim (Bool-cases (l.shared.buffer_size == 0 && waits pg i l.workers)) [
    | inl direct ↦
        rw direct
          (work_at-Keeps pg i takes l.workers
            (record l.shared { buffer = entry ∷ l.shared.buffer })).0.quit_kept
    | inr offered ↦ rw offered (ground arith)
  ]

  -- The quit channel stays closed.
  pub step-quit :
      (e : Event) (l l' : Logger Conn) (fs : List Fate)
      → l.shared.quit ≡ true
      → step pg e l ≡ some (l', fs)
      → l'.shared.quit ≡ true
  unfolding step log close_quit
  step-quit (logs entry) l l' fs q h = ground arith
  step-quit (hands i entry) l l' fs q h =
      ap (λ o. o.0.shared.quit) (sym (some-injective _ _ h)) ∙ hand-quit i entry l ∙ q
  step-quit (works i e) l l' fs q h =
      let (k, _) = work_at-Keeps pg i e l.workers l.shared in
      ap (λ o. o.0.shared.quit) (sym (some-injective _ _ h)) ∙ k.quit_kept ∙ q
  step-quit closes l l' fs q h = ground arith
