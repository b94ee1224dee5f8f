-- ===== src/Logger/Examples.antt =====
-- The theorems about backend/internal/logger/logger.go at concrete inputs, over the small database.
use vegait.Prelude.{◌+◌, ◌≡◌, refl, true, false, List, [], ◌∷◌, some, pos, count, arith, All}
use vegait.Database.{LogEntry}
use vegait.Database.Batch.{insert_logs_batch}
use vegait.Database.Reference.{table, table-PostgresLaws, entry}
use vegait.Logger.{
  Async, Logger, running, stopped, Fate, written, unwritten, Event, logs, works, takes, ticks,
  quits, run, step, work_at, log, work, take_entry, flush,
}
use vegait.Logger.Accounts.{Accounts, batches, written_entries, unwritten_entries}
use vegait.Logger.Closing.{run-Flushes}
use vegait.Logger.Conservation.{submitted, run-Accounts}
use vegait.Logger.Bounds.{IsBounded, FitsIn, run-IsBounded}
use vegait.Logger.Shutdown.{Drains, repeat, quits-Drains}

-- Two workers, batches of two, room for three entries.
abbrev pub quiet : Async (List LogEntry)
quiet = record {
  db = [];
  buffer = [];
  buffer_size = 3;
  flush_interval = pos 2000;
  batch_size = 2;
  quit = false;
  total_logged = 0;
  total_dropped = 0;
  total_flush_errs = 0;
}

abbrev start : Logger (List LogEntry)
start = record { shared = quiet; workers = running [] ∷ running [] ∷ [] }

-- The second worker writes a full batch, and the first fails to write its own at a tick.
abbrev events : List Event
events =
    logs (entry "a")
    ∷ logs (entry "b")
    ∷ logs (entry "bad")
    ∷ logs (entry "c")
    ∷ works 1 takes
    ∷ works 1 takes
    ∷ works 0 takes
    ∷ works 0 ticks
    ∷ []

abbrev finish : Logger (List LogEntry)
finish = record start {
  shared = record quiet {
    db = entry "a" ∷ entry "b" ∷ [];
    total_logged = 2;
    total_dropped = 1;
    total_flush_errs = 1;
  };
}

abbrev fates : List Fate
fates =
    Fate.dropped (entry "c")
    ∷ written (entry "a" ∷ entry "b" ∷ [])
    ∷ unwritten (entry "bad" ∷ [])
    ∷ []

events-run : run table events start ≡ some (finish, fates)
unfolding run step work_at log work take_entry flush insert_logs_batch
events-run = refl

run-Accounts_example :
    Accounts table
      (λ e. e.is_allowed)
      (count (λ e. e.is_allowed) (submitted events))
      0
      start.shared
      0
      finish.shared
      fates
run-Accounts_example =
    run-Accounts table table-PostgresLaws (λ e. e.is_allowed) events start finish fates events-run

start-IsBounded : IsBounded table 3 2 start
start-IsBounded = omega arith

run-IsBounded_example : IsBounded table 3 2 finish × All (FitsIn 2) fates
run-IsBounded_example = run-IsBounded table 3 2 events start finish fates start-IsBounded events-run

abbrev closing : Async (List LogEntry)
closing = record quiet { buffer = entry "b" ∷ entry "c" ∷ []; quit = true }

quits-Drains_example : Drains table (running [] ∷ []) [] (entry "a" ∷ entry "b" ∷ entry "c" ∷ []) (
    run table
      (works 1 quits ∷ repeat 3 (works 1 takes))
      (record { shared = closing; workers = running [] ∷ running (entry "a" ∷ []) ∷ [] }))
quits-Drains_example = quits-Drains table (running [] ∷ []) [] (entry "a" ∷ []) closing refl

abbrev two_workers : Logger (List LogEntry)
two_workers = record { shared = closing; workers = running (entry "a" ∷ []) ∷ running [] ∷ [] }

-- Both workers drain, in turn.
abbrev draining_events : List Event
draining_events =
    works 0 quits
    ∷ works 1 quits
    ∷ works 1 takes
    ∷ works 0 takes
    ∷ works 0 takes
    ∷ works 1 takes
    ∷ []

abbrev drained : Logger (List LogEntry)
drained = record {
  shared = record closing {
    db = entry "a" ∷ entry "c" ∷ entry "b" ∷ [];
    buffer = [];
    total_logged = 3;
  };
  workers = stopped ∷ stopped ∷ [];
}

abbrev drained_fates : List Fate
drained_fates = written (entry "a" ∷ entry "c" ∷ []) ∷ written (entry "b" ∷ []) ∷ []

draining_events-run : run table draining_events two_workers ≡ some (drained, drained_fates)
unfolding run step work_at work take_entry flush insert_logs_batch
draining_events-run = refl

run-Flushes_example :
    (drained.shared.buffer ≡ [])
    × (count (λ e. e.is_allowed) (written_entries drained_fates)
          + count (λ e. e.is_allowed) (unwritten_entries drained_fates)
        ≡ count (λ e. e.is_allowed) two_workers.shared.buffer
          + count (λ e. e.is_allowed) (batches two_workers.workers))
run-Flushes_example =
    run-Flushes table table-PostgresLaws (λ e. e.is_allowed) draining_events two_workers drained
      drained_fates refl refl draining_events-run (omega arith) (refl, (refl, tt))
