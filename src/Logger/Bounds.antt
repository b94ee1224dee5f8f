-- ===== src/Logger/Bounds.antt =====
-- The sizes that backend/internal/logger/logger.go keeps: of the channel, of the workers' batches and
-- of what is sent to the database.
use vegait.Prelude.{
  ℕ, String, zero, suc, ◌≤◌, ◌<◌, ◌≡◌, refl, ap, sym, ◌∙◌, inl, inr, List, [], ◌∷◌, ◌++◌, Option,
  none, some, ltb, leb, arith, length, length-append, Bool-cases, All, ◌==◌, ◌&&◌, ap,
}
use Prim.Native.Nat.{max}
use mathlib.Core.Path.{subst}
use mathlib.Core.Option.{some-injective}
use vegait.Database.{LogEntry}
use vegait.Database.Batch.{Postgres, insert_logs_batch}
use vegait.Logger.{
  Async, Worker, running, draining, Fate, written, unwritten, dropped, Logger, log, close_quit,
  flush, take_entry, receive, drain_round, work, work_at, with_shared, flushed, WorkerEvent, takes,
  ticks, quits, Event, logs, hands, works, closes, hand, waits, step, run,
}
use vegait.Logger.Runs.{run-eq-some}
use vegait.Logger.Hand.{work_at-handed}
use vegait.Logger.Accounts.{batch_of}

-- The most entries of a batch: the batch size, or one for a batch size of 0.
abbrev pub most : ℕ → ℕ
most batch_size = max 1 batch_size

abbrev pub FitsIn : ℕ → Fate → Type 0
FitsIn n (written b) = length b ≤ most n
FitsIn n (unwritten b) = length b ≤ most n
FitsIn n (dropped e) = Unit {0}

abbrev pub IsShort : ℕ → Worker → Type 0
IsShort n w = length (batch_of w) < most n

-- What the workers leave alone: the settings, the quit channel, and no more in the channel.
pub record Keeps {Conn : Type 0} (al al' : Async Conn) : Type 0 where
  pub size : al'.batch_size ≡ al.batch_size
  pub room : al'.buffer_size ≡ al.buffer_size
  pub channel : length al'.buffer ≤ length al.buffer
  pub quit_kept : al'.quit ≡ al.quit

module _ (pg : Postgres) where
  open pg use {Conn}

  flushed-Keeps :
      (batch : List LogEntry) (al : Async Conn) (o : Conn × Option String)
      → let (al', fs) = flushed pg batch al o in
        Keeps al al' × (length batch ≤ most al.batch_size → All (FitsIn al.batch_size) fs)
  flushed-Keeps batch al (db', none) = (ground arith, λ h. (h, tt))
  flushed-Keeps batch al (db', some e) = (ground arith, λ h. (h, tt))

  flush-Keeps :
      (batch : List LogEntry) (al : Async Conn)
      → let (al', fs) = flush pg batch al in
        Keeps al al' × (length batch ≤ most al.batch_size → All (FitsIn al.batch_size) fs)
  unfolding flush
  flush-Keeps [] al = (ground arith, λ h. tt)
  flush-Keeps (x ∷ xs) al = flushed-Keeps (x ∷ xs) al (insert_logs_batch pg (x ∷ xs) al.db)

  take_entry-Keeps :
      (batch : List LogEntry) (entry : LogEntry) (al : Async Conn)
      → let (batch', al', fs) = take_entry pg batch entry al in
        Keeps al al'
        × (length batch < most al.batch_size
            → (length batch' < most al.batch_size) × All (FitsIn al.batch_size) fs)
  unfolding take_entry
  take_entry-Keeps batch entry al =
      let n = length-append batch (entry ∷ []) in
      let (k, fits) = flush-Keeps (batch ++ entry ∷ []) al in
      elim (Bool-cases (leb al.batch_size (length (batch ++ entry ∷ [])))) [
        | inl full ↦ rw full (k, λ h. (omega arith, fits (omega (arith, n))))
        | inr room ↦ rw room (ground arith, λ h. (ground (arith, n), tt))
      ]

  abbrev WorkKeeps : Worker → Async Conn → Worker × Async Conn × List Fate → Type 0
  WorkKeeps w al (w', al', fs) =
      Keeps al al'
      × (IsShort al.batch_size w → IsShort al.batch_size w' × All (FitsIn al.batch_size) fs)

  receive-Keeps :
      (batch xs : List LogEntry) (al : Async Conn)
      → al.buffer ≡ xs
      → WorkKeeps (running batch) al (receive pg batch xs al)
  unfolding receive
  receive-Keeps batch [] al e = (ground arith, λ h. (h, tt))
  receive-Keeps batch (x ∷ xs) al e =
      let (k, short) = take_entry-Keeps batch x (record al { buffer = xs }) in
      (ground (arith, k, ap length e), short)

  drain_round-Keeps :
      (batch xs : List LogEntry) (al : Async Conn)
      → al.buffer ≡ xs
      → WorkKeeps (draining batch) al (drain_round pg batch xs al)
  unfolding drain_round
  drain_round-Keeps batch [] al e =
      let (k, fits) = flush-Keeps batch al in (k, λ h. (omega arith, fits (omega arith)))
  drain_round-Keeps batch (x ∷ xs) al e =
      let (k, short) = take_entry-Keeps batch x (record al { buffer = xs }) in
      (ground (arith, k, ap length e), short)

  work-Keeps : (e : WorkerEvent) (w : Worker) (al : Async Conn) → WorkKeeps w al (work pg e w al)
  unfolding work
  work-Keeps takes (running batch) al = receive-Keeps batch al.buffer al refl
  work-Keeps ticks (running batch) al =
      let (k, fits) = flush-Keeps batch al in (k, λ h. (omega arith, fits (omega arith)))
  work-Keeps quits (running batch) al = (ground arith, λ h. (ground arith, tt))
  work-Keeps takes (draining batch) al = drain_round-Keeps batch al.buffer al refl
  work-Keeps _ w al = (ground arith, λ h. (h, tt))

  pub work_at-Keeps :
      (i : ℕ) (e : WorkerEvent) (ws : List Worker) (al : Async Conn)
      → let (ws', al', fs) = work_at pg i e ws al in
        Keeps al al'
        × (All (IsShort al.batch_size) ws
            → All (IsShort al.batch_size) ws' × All (FitsIn al.batch_size) fs)
  unfolding work_at
  work_at-Keeps i e [] al = (ground arith, λ h. (tt, tt))
  work_at-Keeps zero e (w ∷ ws) al =
      let (k, short) = work-Keeps e w al in (k, λ h. (((short h.0).0, h.1), (short h.0).1))
  work_at-Keeps (suc i) e (w ∷ ws) al =
      let (k, short) = work_at-Keeps i e ws al in (k, λ h. ((h.0, (short h.1).0), (short h.1).1))

  -- The channel holds no more than its size, and no batch has reached the most.
  pub record IsBounded (size n : ℕ) (l : Logger Conn) : Type 0 where
    pub size_kept : l.shared.buffer_size ≡ size
    pub most_kept : l.shared.batch_size ≡ n
    pub channel : length l.shared.buffer ≤ size
    pub short : All (IsShort n) l.workers

  abbrev StepBounded : ℕ → ℕ → Logger Conn × List Fate → Type 0
  StepBounded size n (l, fs) = IsBounded size n l × All (FitsIn n) fs

  log-IsBounded :
      (size n : ℕ) (entry : LogEntry) (l : Logger Conn)
      → IsBounded size n l
      → StepBounded size n (with_shared pg l (log entry l.shared))
  unfolding log
  log-IsBounded size n entry l b =
      elim (Bool-cases (ltb (length l.shared.buffer) l.shared.buffer_size)) [
        | inl room ↦ rw room (
          record {
            size_kept = b.size_kept;
            most_kept = b.most_kept;
            channel = ground (arith, length-append l.shared.buffer (entry ∷ []), b.size_kept);
            short = b.short;
          },
          tt,
        )
        | inr full ↦ rw full (
          record {
            size_kept = b.size_kept;
            most_kept = b.most_kept;
            channel = b.channel;
            short = b.short;
          },
          (tt, tt),
        )
      ]

  hand-IsBounded :
      (size n i : ℕ) (entry : LogEntry) (l : Logger Conn)
      → IsBounded size n l
      → StepBounded size n (hand pg i entry l)
  unfolding hand
  hand-IsBounded size n i entry l b =
      elim (Bool-cases (l.shared.buffer_size == 0 && waits pg i l.workers)) [
        | inl direct ↦
            let given = record l.shared { buffer = entry ∷ l.shared.buffer } in
            let out = work_at pg i takes l.workers given in
            let short' = subst (λ m. All (IsShort m) l.workers) (sym b.most_kept) b.short in
            let (k, still) = work_at-Keeps i takes l.workers given in
            let (short, fits) = still short' in
            let gone = work_at-handed pg i entry l.workers l.shared (ground (arith, direct)) in
            rw direct (
              record {
                size_kept = k.room ∙ b.size_kept;
                most_kept = k.size ∙ b.most_kept;
                channel = omega (arith, ap length gone, b.channel);
                short = subst (λ m. All (IsShort m) out.0) b.most_kept short;
              },
              subst (λ m. All (FitsIn m) out.2) b.most_kept fits,
            )
        | inr offered ↦ rw offered (log-IsBounded size n entry l b)
      ]

  step-IsBounded :
      (size n : ℕ) (e : Event) (l : Logger Conn) (o : Logger Conn × List Fate)
      → IsBounded size n l
      → step pg e l ≡ some o
      → StepBounded size n o
  unfolding step close_quit log
  step-IsBounded size n (logs entry) l o b h =
      subst (StepBounded size n) (some-injective _ _ h) (log-IsBounded size n entry l b)
  step-IsBounded size n (hands i entry) l o b h =
      subst (StepBounded size n) (some-injective _ _ h) (hand-IsBounded size n i entry l b)
  step-IsBounded size n (works i e) l o b h =
      let out = work_at pg i e l.workers l.shared in
      let short' = subst (λ m. All (IsShort m) l.workers) (sym b.most_kept) b.short in
      let (k, still) = work_at-Keeps i e l.workers l.shared in
      let (short, fits) = still short' in
      subst (StepBounded size n) (some-injective _ _ h) (
        record {
          size_kept = k.room ∙ b.size_kept;
          most_kept = k.size ∙ b.most_kept;
          channel = omega (arith, k, b.channel);
          short = subst (λ m. All (IsShort m) out.0) b.most_kept short;
        },
        subst (λ m. All (FitsIn m) out.2) b.most_kept fits,
      )
  step-IsBounded size n closes l o b h = elim (Bool-cases l.shared.quit) [
    | inl again ↦ absurd (ground arith)
    | inr first ↦ subst (StepBounded size n) (some-injective _ _ (rw first at h)) (
      record {
        size_kept = b.size_kept;
        most_kept = b.most_kept;
        channel = b.channel;
        short = b.short;
      },
      tt,
    )
  ]

  All-append :
      (n : ℕ) (fs gs : List Fate)
      → All (FitsIn n) fs
      → All (FitsIn n) gs
      → All (FitsIn n) (fs ++ gs)
  All-append n [] gs h k = k
  All-append n (f ∷ fs) gs h k = (h.0, All-append n fs gs h.1 k)

  -- From a state in which the channel and the batches keep to their sizes, whatever the
  -- interleaving, unless the process panics: the channel never holds more entries than its size,
  -- every worker's batch stays below the batch size (below one for a batch size of 0), and no batch
  -- that goes to the database has more entries than the batch size (than one for 0).
  pub run-IsBounded :
      (size n : ℕ) (es : List Event) (l l' : Logger Conn) (fs : List Fate)
      → IsBounded size n l
      → run pg es l ≡ some (l', fs)
      → IsBounded size n l' × All (FitsIn n) fs
  unfolding run
  run-IsBounded size n [] l l' fs b h = subst (StepBounded size n) (some-injective _ _ h) (b, tt)
  run-IsBounded size n (e ∷ es) l l' fs b h =
      let (l1, fs1, fs2, stepped, ran, joined) = run-eq-some pg e es l l' fs h in
      let (b1, fits1) = step-IsBounded size n e l (l1, fs1) b stepped in
      let (b2, fits2) = run-IsBounded size n es l1 l' fs2 b1 ran in
      (b2, rw joined (All-append n fs1 fs2 fits1 fits2))
