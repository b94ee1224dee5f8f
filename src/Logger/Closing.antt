-- ===== src/Logger/Closing.antt =====
-- What Close of backend/internal/logger/logger.go waits for: all workers have returned, whatever the order
-- in which they drain the channel.
use vegait.Prelude.{
  ℕ, zero, suc, ◌+◌, ◌≤◌, ◌<◌, ◌≡◌, refl, ap, ◌∙◌, ◌⊎◌, inl, inr, Bool, true, false, List, [], ◌∷◌,
  ◌++◌, Option, none, some, String, leb, arith, length, count, All, Bool-cases,
}
use mathlib.Core.Path.{subst}
use mathlib.Core.Option.{some-injective}
use vegait.Database.{LogEntry}
use vegait.Database.Batch.{Postgres, PostgresLaws, insert_logs_batch}
use vegait.Logger.{
  Async, Worker, running, draining, stopped, Fate, written, unwritten, dropped, Logger, close_quit,
  flush, flushed, take_entry, receive, drain_round, work, work_at, WorkerEvent, takes, ticks, quits,
  Event, logs, hands, works, closes, step, run,
}
use vegait.Logger.Accounts.{batches, written_entries, unwritten_entries, dropped_entries}
use vegait.Logger.Conservation.{logged_by, submitted, run-Accounts}
use vegait.Logger.Bounds.{work_at-Keeps}
use vegait.Logger.Hand.{flush-buffer}
use vegait.Logger.Runs.{run-eq-some}

abbrev pub is_stopped : Worker → Bool
is_stopped stopped = true
is_stopped _ = false

dropped-append :
    (fs gs : List Fate) → dropped_entries (fs ++ gs) ≡ dropped_entries fs ++ dropped_entries gs
dropped-append [] gs = refl
dropped-append (written b ∷ fs) gs = dropped-append fs gs
dropped-append (unwritten b ∷ fs) gs = dropped-append fs gs
dropped-append (dropped e ∷ fs) gs = ap (◌∷◌ e) (dropped-append fs gs)

module _ (pg : Postgres) where
  open pg use {Conn}

  flushed-no_drops :
      (b : List LogEntry) (al : Async Conn) (o : Conn × Option String)
      → dropped_entries (flushed pg b al o).1 ≡ []
  flushed-no_drops b al (db', none) = refl
  flushed-no_drops b al (db', some e) = refl

  flush-no_drops : (b : List LogEntry) (al : Async Conn) → dropped_entries (flush pg b al).1 ≡ []
  unfolding flush
  flush-no_drops [] al = refl
  flush-no_drops (x ∷ xs) al = flushed-no_drops (x ∷ xs) al (insert_logs_batch pg (x ∷ xs) al.db)

  take_entry-no_drops :
      (b : List LogEntry) (x : LogEntry) (al : Async Conn)
      → dropped_entries (take_entry pg b x al).2 ≡ []
  unfolding take_entry
  take_entry-no_drops b x al = elim (Bool-cases (leb al.batch_size (length (b ++ x ∷ [])))) [
    | inl full ↦ rw full (flush-no_drops (b ++ x ∷ []) al)
    | inr room ↦ rw room refl
  ]

  -- A worker drops nothing, and returns only where the channel is empty.
  abbrev ReturnsEmpty : Worker → Worker × Async Conn × List Fate → Type 0
  ReturnsEmpty w (w', al', fs) =
      (dropped_entries fs ≡ [])
      × ((count is_stopped (w' ∷ []) ≤ count is_stopped (w ∷ [])) ⊎ (al'.buffer ≡ []))

  receive-ReturnsEmpty :
      (b xs : List LogEntry) (al : Async Conn) → ReturnsEmpty (running b) (receive pg b xs al)
  unfolding receive
  receive-ReturnsEmpty b [] al = (refl, inl (omega arith))
  receive-ReturnsEmpty b (x ∷ xs) al =
      (take_entry-no_drops b x (record al { buffer = xs }), inl (omega arith))

  drain_round-ReturnsEmpty :
      (b xs : List LogEntry) (al : Async Conn)
      → al.buffer ≡ xs
      → ReturnsEmpty (draining b) (drain_round pg b xs al)
  unfolding drain_round
  drain_round-ReturnsEmpty b [] al e = (flush-no_drops b al, inr (flush-buffer pg b al ∙ e))
  drain_round-ReturnsEmpty b (x ∷ xs) al e =
      (take_entry-no_drops b x (record al { buffer = xs }), inl (omega arith))

  work-ReturnsEmpty :
      (e : WorkerEvent) (w : Worker) (al : Async Conn) → ReturnsEmpty w (work pg e w al)
  unfolding work
  work-ReturnsEmpty takes (running b) al = receive-ReturnsEmpty b al.buffer al
  work-ReturnsEmpty ticks (running b) al = (flush-no_drops b al, inl (omega arith))
  work-ReturnsEmpty quits (running b) al = (refl, inl (ground arith))
  work-ReturnsEmpty takes (draining b) al = drain_round-ReturnsEmpty b al.buffer al refl
  work-ReturnsEmpty _ w al = (refl, inl (omega arith))

  work_at-ReturnsEmpty :
      (i : ℕ) (e : WorkerEvent) (ws : List Worker) (al : Async Conn)
      → let (ws', al', fs) = work_at pg i e ws al in
        (dropped_entries fs ≡ [])
        × (length ws' ≡ length ws)
        × ((count is_stopped ws' ≤ count is_stopped ws) ⊎ (al'.buffer ≡ []))
  unfolding work_at
  work_at-ReturnsEmpty i e [] al = (refl, refl, inl (omega arith))
  work_at-ReturnsEmpty zero e (w ∷ ws) al =
      let (none_dropped, empty) = work-ReturnsEmpty e w al in
      (
        none_dropped,
        refl,
        elim empty [ inl fewer ↦ inl (omega (arith, fewer)) | inr all ↦ inr all ],
      )
  work_at-ReturnsEmpty (suc i) e (w ∷ ws) al =
      let (none_dropped, same, empty) = work_at-ReturnsEmpty i e ws al in
      (
        none_dropped,
        omega (arith, same),
        elim empty [ inl fewer ↦ inl (omega (arith, fewer)) | inr all ↦ inr all ],
      )

  -- Where a worker has returned, the channel is empty.
  abbrev IsQuiet : Logger Conn → Type 0
  IsQuiet l = 0 < count is_stopped l.workers → length l.shared.buffer ≡ 0

  abbrev StepQuiet : Logger Conn → Logger Conn × List Fate → Type 0
  StepQuiet l (l', fs) = (dropped_entries fs ≡ []) × (IsQuiet l → IsQuiet l')

  empty-length : {xs : List LogEntry} → xs ≡ [] → length xs ≡ 0
  empty-length e = ap length e

  step-IsQuiet :
      (e : Event) (l : Logger Conn) (o : Logger Conn × List Fate)
      → logged_by e ≡ []
      → step pg e l ≡ some o
      → StepQuiet l o
  unfolding step close_quit
  step-IsQuiet (logs entry) l o none_logged h = absurd cc
  step-IsQuiet (hands i entry) l o none_logged h = absurd cc
  step-IsQuiet (works i e) l o none_logged h =
      let (k, _) = work_at-Keeps pg i e l.workers l.shared in
      let (none_dropped, same, empty) = work_at-ReturnsEmpty i e l.workers l.shared in
      subst (StepQuiet l) (some-injective _ _ h) (
        none_dropped,
        λ q some_stopped. elim empty [
          | inl fewer ↦ omega (arith, k.channel, q (omega (arith, fewer, some_stopped)))
          | inr all ↦ empty-length all
        ],
      )
  step-IsQuiet closes l o none_logged h = elim (Bool-cases l.shared.quit) [
    | inl again ↦ absurd cc
    | inr first ↦ subst (StepQuiet l) (some-injective _ _ (rw first at h)) (refl, λ q. q)
  ]

  append-empty : (xs ys : List LogEntry) → xs ++ ys ≡ [] → (xs ≡ []) × (ys ≡ [])
  append-empty [] ys h = (refl, h)
  append-empty (x ∷ xs) ys h = absurd cc

  run-IsQuiet :
      (es : List Event) (l l' : Logger Conn) (fs : List Fate)
      → submitted es ≡ []
      → run pg es l ≡ some (l', fs)
      → StepQuiet l (l', fs)
  unfolding run
  run-IsQuiet [] l l' fs n h = subst (StepQuiet l) (some-injective _ _ h) (refl, λ q. q)
  run-IsQuiet (e ∷ es) l l' fs n h =
      let (n0, n1) = append-empty (logged_by e) (submitted es) n in
      let (l1, gs, later, stepped, ran, joined) = run-eq-some pg e es l l' fs h in
      let (d, q) = step-IsQuiet e l (l1, gs) n0 stepped in
      let (d', q') = run-IsQuiet es l1 l' later n1 ran in
      (rw joined (dropped-append gs later ∙ rw (d, d') refl), λ p. q' (q p))

length-empty : (xs : List LogEntry) → length xs ≡ 0 → xs ≡ []
length-empty [] h = refl
length-empty (x ∷ xs) h = absurd (omega arith)

stopped-is_stopped :
    (ws : List Worker)
    → All (λ w. w ≡ stopped) ws
    → (count is_stopped ws ≡ length ws) × (batches ws ≡ [])
stopped-is_stopped [] h = (refl, refl)
stopped-is_stopped (w ∷ ws) (e, all) =
    let (n, b) = stopped-is_stopped ws all in (rw e (omega (arith, n)), rw e b)

module _ (pg : Postgres) (laws : PostgresLaws pg) where
  open pg use {Conn}

  -- Close returns only when nothing is left behind: take any state in which no worker has returned
  -- yet, and any order of the workers' steps after which all have, while nothing more is logged.
  -- Then the channel is empty, and of the entries that were in it or in a batch each has been sent
  -- to the database, in a batch that was written or in one that was refused: for every test of
  -- entries as many pass it. There is at least one worker.
  pub run-Flushes :
      (p : LogEntry → Bool) (es : List Event) (l l' : Logger Conn) (fs : List Fate)
      → submitted es ≡ []
      → count is_stopped l.workers ≡ 0
      → run pg es l ≡ some (l', fs)
      → 0 < length l'.workers
      → All (λ w. w ≡ stopped) l'.workers
      → (l'.shared.buffer ≡ [])
        × (count p (written_entries fs) + count p (unwritten_entries fs)
            ≡ count p l.shared.buffer + count p (batches l.workers))
  run-Flushes p es l l' fs n fresh h k all =
      let (d, q) = run-IsQuiet pg es l l' fs n h in
      let (stops, none_held) = stopped-is_stopped l'.workers all in
      let empty =
        length-empty l'.shared.buffer
          (q (λ s. absurd (omega (arith, fresh, s))) (omega (arith, stops, k))) in
      let a = run-Accounts pg laws p es l l' fs h in
      (
        empty,
        omega (
          arith,
          a.entries,
          ap (count p) empty,
          ap (count p) none_held,
          ap (count p) d,
          ap (count p) n,
        ),
      )
