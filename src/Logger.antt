-- ===== src/Logger.antt =====
-- Async of backend/internal/logger/logger.go: a bounded channel, the workers that batch what they
-- take from it, and the counters. Each select of a worker is one event, so that a list of events is
-- one interleaving of the goroutines; `step` gives the new state, or none where the process panics.
-- The channel is never closed, so the branches for a closed one are left out, and so are the log
-- lines. A channel of size 0 hands an entry to a worker that waits for one, which is an event of its
-- own.
pub mod Accounts
pub mod Hand
pub mod Conservation
pub mod Bounds
pub mod Shutdown
pub mod Closing
pub mod Runs
pub mod Examples
use vegait.Prelude.{
  ℕ, zero, suc, ◌+◌, ◌%◌, ◌^◌, ◌≡◌, refl, arith, Bool, true, false, ◌&&◌, List, [], ◌∷◌, ◌++◌,
  Option, none, some, String, ltb, leb, ℤ, pos, negsuc, length, if◌then◌else◌, pos_part, ltb_ℤ,
  ◌||◌, not, ◌==◌,
}
use vegait.Database.{LogEntry}
use vegait.Database.Batch.{Postgres, insert_logs_batch}

-- `flush_interval` is a time.Duration. The counters are the 64 bits of an int64.
pub record Async (Conn : Type 0) : Type 0 where
  pub db : Conn
  pub buffer : List LogEntry
  pub buffer_size : ℕ
  pub flush_interval : ℤ
  pub batch_size : ℕ
  pub quit : Bool
  pub total_logged : ℕ
  pub total_dropped : ℕ
  pub total_flush_errs : ℕ

-- Where a worker is: in its loop, in drainAndFlush, or returned.
pub data Worker : Type 0 where
  running draining : List LogEntry → Worker
  stopped : Worker

-- What becomes of an entry that leaves the logger.
pub data Fate : Type 0 where
  written unwritten : List LogEntry → Fate
  dropped : LogEntry → Fate

pub record Logger (Conn : Type 0) : Type 0 where
  pub shared : Async Conn
  pub workers : List Worker

abbrev pub add_int64 : ℕ → ℕ → ℕ
add_int64 a b = (a + b) % 2 ^ 64

pub data WorkerEvent : Type 0 where
  -- The channel is ready, or the drain loop comes round; the ticker fires; quit is seen closed.
  takes ticks quits : WorkerEvent

pub data Event : Type 0 where
  -- Log; and Log while the worker of that number waits in its select.
  logs : LogEntry → Event
  hands : ℕ → LogEntry → Event
  works : ℕ → WorkerEvent → Event
  closes : Event

-- The settings of a Config that New reads.
pub record LogConfig : Type 0 where
  pub log_buffer_size : ℤ
  pub log_flush_interval : ℤ
  pub log_batch_size : ℤ
  pub log_worker_count : ℤ

spawn : ℕ → List Worker
spawn zero = []
spawn (suc n) = running [] ∷ spawn n

module _ {Conn : Type 0} where
  -- New. A channel of a negative size panics, and so does the worker's `make` or NewTicker.
  unfoldable pub new : Conn → LogConfig → Option (Logger Conn)
  unfolding spawn
  new db cfg =
      if ltb_ℤ cfg.log_buffer_size (pos 0)
      then none
      else if ltb_ℤ (pos 0) cfg.log_worker_count
          && (ltb_ℤ cfg.log_batch_size (pos 0) || not (ltb_ℤ (pos 0) cfg.log_flush_interval))
      then none
      else some (record {
        shared = record {
          db = db;
          buffer = [];
          buffer_size = pos_part cfg.log_buffer_size;
          flush_interval = cfg.log_flush_interval;
          batch_size = pos_part cfg.log_batch_size;
          quit = false;
          total_logged = 0;
          total_dropped = 0;
          total_flush_errs = 0;
        };
        workers = spawn (pos_part cfg.log_worker_count);
      })

  -- Log where no worker waits at the channel, or the channel has a buffer: a full one drops the entry.
  unfoldable pub log : LogEntry → Async Conn → Async Conn × List Fate
  log entry al =
      if ltb (length al.buffer) al.buffer_size
      then (record al { buffer = al.buffer ++ entry ∷ [] }, [])
      else (record al { total_dropped = add_int64 al.total_dropped 1 }, dropped entry ∷ [])

  unfoldable pub stats : Async Conn → ℕ × ℕ × ℕ
  stats al = (al.total_logged, al.total_dropped, al.total_flush_errs)

  -- `close(al.quit)`, which panics on a closed channel.
  unfoldable pub close_quit : Async Conn → Option (Async Conn)
  close_quit al = if al.quit then none else some (record al { quit = true })

module _ (pg : Postgres) where
  open pg use {Conn}

  abbrev flushed : List LogEntry → Async Conn → Conn × Option String → Async Conn × List Fate
  flushed batch al (db', none) = (
    record al { db = db'; total_logged = add_int64 al.total_logged (length batch) },
    written batch ∷ [],
  )
  flushed batch al (db', some e) = (
    record al { db = db'; total_flush_errs = add_int64 al.total_flush_errs 1 },
    unwritten batch ∷ [],
  )

  unfoldable pub flush : List LogEntry → Async Conn → Async Conn × List Fate
  flush [] al = (al, [])
  flush (x ∷ xs) al = flushed (x ∷ xs) al (insert_logs_batch pg (x ∷ xs) al.db)

  -- `batch = append(batch, entry)`, and the flush of a full batch.
  unfoldable pub take_entry :
      List LogEntry → LogEntry → Async Conn → List LogEntry × Async Conn × List Fate
  take_entry batch entry al =
      let grown = batch ++ entry ∷ [] in
      if leb al.batch_size (length grown)
      then (let (al', fates) = flush grown al in ([], al', fates))
      else (grown, al, [])

  abbrev taken :
      (List LogEntry → Worker)
      → List LogEntry × Async Conn × List Fate
      → Worker × Async Conn × List Fate
  taken w (batch, al, fates) = (w batch, al, fates)

  -- drainAndFlush: one round of its loop, given the channel.
  drain_round : List LogEntry → List LogEntry → Async Conn → Worker × Async Conn × List Fate
  drain_round existing [] al = let (al', fates) = flush existing al in (stopped, al', fates)
  drain_round existing (entry ∷ rest) al =
      taken draining (take_entry existing entry (record al { buffer = rest }))

  receive : List LogEntry → List LogEntry → Async Conn → Worker × Async Conn × List Fate
  receive batch [] al = (running batch, al, [])
  receive batch (entry ∷ rest) al =
      taken running (take_entry batch entry (record al { buffer = rest }))

  -- What a worker does at an event; an event that it does not wait for changes nothing.
  unfoldable pub work : WorkerEvent → Worker → Async Conn → Worker × Async Conn × List Fate
  unfolding drain_round receive
  work takes (running batch) al = receive batch al.buffer al
  work ticks (running batch) al = let (al', fates) = flush batch al in (running [], al', fates)
  work quits (running batch) al = ((if al.quit then draining batch else running batch), al, [])
  work takes (draining existing) al = drain_round existing al.buffer al
  work _ w al = (w, al, [])

  unfoldable pub work_at :
      ℕ → WorkerEvent → List Worker → Async Conn → List Worker × Async Conn × List Fate
  work_at i e [] al = ([], al, [])
  work_at zero e (w ∷ ws) al = let (w', al', fates) = work e w al in (w' ∷ ws, al', fates)
  work_at (suc i) e (w ∷ ws) al = let (ws', al', fates) = work_at i e ws al in (w ∷ ws', al', fates)

  abbrev pub with_shared : Logger Conn → Async Conn × List Fate → Logger Conn × List Fate
  with_shared l (al, fates) = (record l { shared = al }, fates)

  -- Worker i waits in the select of its loop.
  unfoldable pub waits : ℕ → List Worker → Bool
  waits i [] = false
  waits zero (running batch ∷ ws) = true
  waits zero (draining batch ∷ ws) = false
  waits zero (stopped ∷ ws) = false
  waits (suc i) (w ∷ ws) = waits i ws

  abbrev with_workers : List Worker × Async Conn × List Fate → Logger Conn × List Fate
  with_workers (ws, al, fates) = (record { shared = al; workers = ws }, fates)

  -- Log while worker i waits: a channel without a buffer hands it the entry, and one with a buffer
  -- takes the entry as ever.
  unfoldable pub hand : ℕ → LogEntry → Logger Conn → Logger Conn × List Fate
  unfolding waits
  hand i entry l =
      if l.shared.buffer_size == 0 && waits i l.workers
      then with_workers
          (work_at i takes l.workers (record l.shared { buffer = entry ∷ l.shared.buffer }))
      else with_shared l (log entry l.shared)

  unfoldable pub step : Event → Logger Conn → Option (Logger Conn × List Fate)
  step (logs entry) l = some (with_shared l (log entry l.shared))
  step (hands i entry) l = some (hand i entry l)
  step (works i e) l =
      let (ws, al, fates) = work_at i e l.workers l.shared in
      some (record { shared = al; workers = ws }, fates)
  step closes l = elim (close_quit l.shared) [
    | none ↦ none
    | some al ↦ some (record l { shared = al }, [])
  ]

  abbrev pub more_fates :
      List Fate → Option (Logger Conn × List Fate) → Option (Logger Conn × List Fate)
  more_fates fates none = none
  more_fates fates (some (l, later)) = some (l, fates ++ later)

  unfoldable pub run : List Event → Logger Conn → Option (Logger Conn × List Fate)
  run [] l = some (l, [])
  run (e ∷ es) l = elim (step e l) [ none ↦ none | some (l', fates) ↦ more_fates fates (run es l') ]
