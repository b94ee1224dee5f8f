-- ===== src/Logger/Accounts.antt =====
-- How the workers of backend/internal/logger/logger.go account for entries: between an event's state
-- and the next one, every entry is in the channel, in a batch, or has a fate.
use vegait.Prelude.{
  ℕ, suc, ◌+◌, ◌%◌, ◌^◌, ◌≤◌, ◌≡◌, refl, ap, ◌⊎◌, inl, inr, Bool, List, [], ◌∷◌, ◌++◌, Option, none,
  some, String, leb, arith, length, count, count-append, length-append, Bool-cases,
}
use vegait.Database.{LogEntry}
use vegait.Database.Batch.{Postgres, PostgresLaws, Atomic, insert_logs_batch-Atomic}
use vegait.Logger.{
  Async, Worker, running, draining, stopped, Fate, written, unwritten, dropped, flush, flushed,
  take_entry,
}

abbrev pub batch_of : Worker → List LogEntry
batch_of (running b) = b
batch_of (draining b) = b
batch_of stopped = []

abbrev pub batches : List Worker → List LogEntry
batches [] = []
batches (w ∷ ws) = batch_of w ++ batches ws

abbrev pub written_entries : List Fate → List LogEntry
written_entries [] = []
written_entries (written b ∷ fs) = b ++ written_entries fs
written_entries (unwritten b ∷ fs) = written_entries fs
written_entries (dropped e ∷ fs) = written_entries fs

abbrev pub unwritten_entries : List Fate → List LogEntry
unwritten_entries [] = []
unwritten_entries (written b ∷ fs) = unwritten_entries fs
unwritten_entries (unwritten b ∷ fs) = b ++ unwritten_entries fs
unwritten_entries (dropped e ∷ fs) = unwritten_entries fs

abbrev pub dropped_entries : List Fate → List LogEntry
dropped_entries [] = []
dropped_entries (written b ∷ fs) = dropped_entries fs
dropped_entries (unwritten b ∷ fs) = dropped_entries fs
dropped_entries (dropped e ∷ fs) = e ∷ dropped_entries fs

-- How many flushes failed.
abbrev pub failures : List Fate → ℕ
failures [] = 0
failures (written b ∷ fs) = failures fs
failures (unwritten b ∷ fs) = suc (failures fs)
failures (dropped e ∷ fs) = failures fs

-- The entries that pass a test, in the fates.
abbrev pub fated : (LogEntry → Bool) → List Fate → ℕ
fated p fs =
    count p (written_entries fs) + count p (unwritten_entries fs) + count p (dropped_entries fs)

module _ (pg : Postgres) (p : LogEntry → Bool) where
  open pg use {Conn, rows}

  -- From `al` with `before` such entries in batches, and `new` that come in, to `al'` with `after`.
  pub record Accounts (new before : ℕ) (al : Async Conn) (after : ℕ) (al' : Async Conn)
      (fs : List Fate) : Type 0 where
    pub entries : count p al'.buffer + after + fated p fs ≡ count p al.buffer + before + new
    pub logged :
        al'.total_logged % 2 ^ 64 ≡ (al.total_logged + length (written_entries fs)) % 2 ^ 64
    pub drops :
        al'.total_dropped % 2 ^ 64 ≡ (al.total_dropped + length (dropped_entries fs)) % 2 ^ 64
    pub errors : al'.total_flush_errs % 2 ^ 64 ≡ (al.total_flush_errs + failures fs) % 2 ^ 64
    pub rows_low : count p (rows al.db) + count p (written_entries fs) ≤ count p (rows al'.db)
    pub rows_high :
        count p (rows al'.db)
        ≤ count p (rows al.db) + count p (written_entries fs) + count p (unwritten_entries fs)

module _ (pg : Postgres) (laws : PostgresLaws pg) (p : LogEntry → Bool) where
  open pg use {Conn, rows}

  flushed-Accounts :
      (batch : List LogEntry) (al : Async Conn) (o : Conn × Option String)
      → Atomic pg laws (rows al.db) batch o
      → let (al', fs) = flushed pg batch al o in Accounts pg p 0 (count p batch) al 0 al' fs
  flushed-Accounts batch al (db', none) (whole, either) =
      let n = count-append p (rows al.db) batch in
      let m = count-append p batch [] in
      let r = ap (count p) (whole refl) in
      record {
        entries = omega (arith, m);
        logged = omega (arith, length-append batch []);
        drops = omega arith;
        errors = omega arith;
        rows_low = omega (arith, n, m, r);
        rows_high = omega (arith, n, m, r);
      }
  flushed-Accounts batch al (db', some e) (whole, either) =
      let n = count-append p (rows al.db) batch in
      let m = count-append p batch [] in
      let r = Or-count either in
      record {
        entries = omega (arith, m);
        logged = omega arith;
        drops = omega arith;
        errors = omega arith;
        rows_low = omega (arith, n, r);
        rows_high = omega (arith, n, m, r);
      }
    where
      Or-count :
          (rows db' ≡ rows al.db) ⊎ (rows db' ≡ rows al.db ++ batch)
          → (count p (rows db') ≡ count p (rows al.db))
            ⊎ (count p (rows db') ≡ count p (rows al.db ++ batch))
      Or-count (inl q) = inl (ap (count p) q)
      Or-count (inr q) = inr (ap (count p) q)

  pub flush-Accounts :
      (batch : List LogEntry) (al : Async Conn)
      → let (al', fs) = flush pg batch al in Accounts pg p 0 (count p batch) al 0 al' fs
  unfolding flush
  flush-Accounts [] al = omega arith
  flush-Accounts (x ∷ xs) al =
      flushed-Accounts (x ∷ xs) al _ (insert_logs_batch-Atomic pg laws (x ∷ xs) al.db)

  -- An entry moves from the channel to the batch, and perhaps on.
  pub take_entry-Accounts :
      (batch : List LogEntry) (entry : LogEntry) (al : Async Conn)
      → let (batch', al', fs) = take_entry pg batch entry al in
        Accounts pg p (count p (entry ∷ [])) (count p batch) al (count p batch') al' fs
  unfolding take_entry
  take_entry-Accounts batch entry al =
      let n = count-append p batch (entry ∷ []) in
      let a = flush-Accounts (batch ++ entry ∷ []) al in
      elim (Bool-cases (leb al.batch_size (length (batch ++ entry ∷ [])))) [
        | inl full ↦ rw full (omega (arith, n, a))
        | inr room ↦ rw room (omega (arith, n))
      ]
