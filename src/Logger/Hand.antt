-- ===== src/Logger/Hand.antt =====
-- What the channel of backend/internal/logger/logger.go holds after a flush, and after an entry that a
-- waiting worker is handed.
use vegait.Prelude.{
  ℕ, zero, suc, ◌≡◌, refl, inl, inr, true, List, [], ◌∷◌, ◌++◌, Option, none, some, String, leb,
  length, Bool-cases,
}
use vegait.Database.{LogEntry}
use vegait.Database.Batch.{Postgres, insert_logs_batch}
use vegait.Logger.{
  Async, Worker, running, draining, stopped, flush, flushed, take_entry, receive, work, work_at,
  takes, waits,
}

module _ (pg : Postgres) where
  open pg use {Conn}

  flushed-buffer :
      (b : List LogEntry) (al : Async Conn) (o : Conn × Option String)
      → (flushed pg b al o).0.buffer ≡ al.buffer
  flushed-buffer b al (db', none) = refl
  flushed-buffer b al (db', some e) = refl

  pub flush-buffer : (b : List LogEntry) (al : Async Conn) → (flush pg b al).0.buffer ≡ al.buffer
  unfolding flush
  flush-buffer [] al = refl
  flush-buffer (x ∷ xs) al = flushed-buffer (x ∷ xs) al (insert_logs_batch pg (x ∷ xs) al.db)

  take_entry-buffer :
      (b : List LogEntry) (x : LogEntry) (al : Async Conn)
      → (take_entry pg b x al).1.buffer ≡ al.buffer
  unfolding take_entry
  take_entry-buffer b x al = elim (Bool-cases (leb al.batch_size (length (b ++ x ∷ [])))) [
    | inl full ↦ rw full (flush-buffer (b ++ x ∷ []) al)
    | inr room ↦ rw room refl
  ]

  -- A worker that waits takes the entry that it is handed.
  pub work_at-handed :
      (i : ℕ) (entry : LogEntry) (ws : List Worker) (al : Async Conn)
      → waits pg i ws ≡ true
      → (work_at pg i takes ws (record al { buffer = entry ∷ al.buffer })).1.buffer ≡ al.buffer
  unfolding work_at work receive waits
  work_at-handed i entry [] al h = absurd (cc)
  work_at-handed zero entry (running b ∷ ws) al h = take_entry-buffer b entry al
  work_at-handed zero entry (draining b ∷ ws) al h = absurd (cc)
  work_at-handed zero entry (stopped ∷ ws) al h = absurd (cc)
  work_at-handed (suc i) entry (w ∷ ws) al h = work_at-handed i entry ws al h
