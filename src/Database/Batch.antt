-- ===== src/Database/Batch.antt =====
-- InsertLogsBatch of backend/internal/database/database.go, over the transactions of the PostgreSQL
-- server, which the repository does not contain: the calls are operations of an interface, and what
-- the server promises of them are its laws.
use vegait.Prelude.{
  ◌≡◌, ◌⊎◌, inl, inr, refl, ◌∙◌, sym, List, [], ◌∷◌, ◌++◌, Option, none, some, String, Option-cases,
}
use mathlib.Core.List.{append-nil, append_assoc}
use vegait.Database.{LogEntry}

-- BeginTx gives a transaction, or an error.
pub data Begun (Conn Tx : Type 0) : Type 0 where
  begun : Tx → Begun Conn Tx
  refused : Conn → String → Begun Conn Tx

pub record Postgres : Type 1 where
  pub Conn : Type 0
  pub Tx : Type 0
  pub begin_tx : Conn → Begun Conn Tx
  pub prepare : Tx → Tx × Option String
  pub exec : LogEntry → Tx → Tx × Option String
  pub commit : Tx → Conn × Option String
  pub rollback : Tx → Conn
  -- The rows of request_logs; those that a transaction started from; those that it has added.
  pub rows : Conn → List LogEntry
  pub base : Tx → List LogEntry
  pub staged : Tx → List LogEntry

-- Of a commit that fails the client cannot tell whether it took effect, but it took effect whole or
-- not at all.
pub record PostgresLaws (pg : Postgres) : Type 0 where
  pub begun_base :
      (c : pg.Conn) (tx : pg.Tx)
      → pg.begin_tx c ≡ begun tx
      → (pg.base tx ≡ pg.rows c) × (pg.staged tx ≡ [])
  pub refused_rows :
      (c c' : pg.Conn) (e : String) → pg.begin_tx c ≡ refused c' e → pg.rows c' ≡ pg.rows c
  pub prepare_keeps :
      (tx : pg.Tx)
      → (pg.base (pg.prepare tx).0 ≡ pg.base tx) × (pg.staged (pg.prepare tx).0 ≡ pg.staged tx)
  pub exec_base : (x : LogEntry) (tx : pg.Tx) → pg.base (pg.exec x tx).0 ≡ pg.base tx
  pub exec_staged :
      (x : LogEntry) (tx : pg.Tx)
      → (pg.exec x tx).1 ≡ none
      → pg.staged (pg.exec x tx).0 ≡ pg.staged tx ++ x ∷ []
  pub commit_done :
      (tx : pg.Tx) → (pg.commit tx).1 ≡ none → pg.rows (pg.commit tx).0 ≡ pg.base tx ++ pg.staged tx
  pub commit_whole :
      (tx : pg.Tx)
      → (pg.rows (pg.commit tx).0 ≡ pg.base tx)
        ⊎ (pg.rows (pg.commit tx).0 ≡ pg.base tx ++ pg.staged tx)
  pub rollback_rows : (tx : pg.Tx) → pg.rows (pg.rollback tx) ≡ pg.base tx

module _ (pg : Postgres) where
  open pg use {Conn, Tx, begin_tx, prepare, exec, commit, rollback, rows, base, staged}

  -- `return err`, which runs the deferred Rollback.
  abbrev abort : Tx → String → Conn × Option String
  abort tx e = (rollback tx, some e)

  -- The loop over the entries and the Commit. After a Commit the deferred Rollback does nothing.
  exec_all : List LogEntry → Tx → Conn × Option String
  exec_all [] tx = commit tx
  exec_all (x ∷ xs) tx =
      let rest = exec_all xs (exec x tx).0 in
      elim (exec x tx).1 [ some e ↦ abort (exec x tx).0 e | none ↦ rest ]

  abbrev after_prepare : List LogEntry → Tx × Option String → Conn × Option String
  after_prepare entries (tx, some e) = abort tx e
  after_prepare entries (tx, none) = exec_all entries tx

  abbrev after_begin : List LogEntry → Begun Conn Tx → Conn × Option String
  after_begin entries (refused c e) = (c, some e)
  after_begin entries (begun tx) = after_prepare entries (prepare tx)

  unfoldable pub insert_logs_batch : List LogEntry → Conn → Conn × Option String
  unfolding exec_all
  insert_logs_batch [] c = (c, none)
  insert_logs_batch (x ∷ xs) c = after_begin (x ∷ xs) (begin_tx c)

module _ (pg : Postgres) (laws : PostgresLaws pg) where
  open pg use {Conn, Tx, begin_tx, prepare, exec, commit, rollback, rows, base, staged}

  -- All of the entries are in the table or none is, and all are if there is no error.
  abbrev pub Atomic : List LogEntry → List LogEntry → Conn × Option String → Type 0
  Atomic before entries o =
      (o.1 ≡ none → rows o.0 ≡ before ++ entries)
      × ((rows o.0 ≡ before) ⊎ (rows o.0 ≡ before ++ entries))

  exec_all-Atomic :
      (xs : List LogEntry) (tx : Tx) → Atomic (base tx) (staged tx ++ xs) (exec_all pg xs tx)
  unfolding exec_all
  exec_all-Atomic [] tx = rw append-nil (laws.commit_done tx, laws.commit_whole tx)
  exec_all-Atomic (x ∷ xs) tx = elim (Option-cases (exec x tx).1) [
    | inl done ↦
        rw (done, exec_all)
          (rw (laws.exec_base x tx, laws.exec_staged x tx done, append_assoc) at
            (exec_all-Atomic xs (exec x tx).0))
    | inr (e, failed) ↦
        rw (failed, exec_all) (λ h. cc, inl (laws.rollback_rows _ ∙ laws.exec_base x tx))
  ]

  after_prepare-Atomic :
      (entries : List LogEntry) (o : Tx × Option String)
      → staged o.0 ≡ []
      → Atomic (base o.0) entries (after_prepare pg entries o)
  after_prepare-Atomic entries (tx, some e) h = (λ p. cc, inl (laws.rollback_rows tx))
  after_prepare-Atomic entries (tx, none) h = rw h at (exec_all-Atomic entries tx)

  after_begin-Atomic :
      (entries : List LogEntry) (c : Conn) (o : Begun Conn Tx)
      → begin_tx c ≡ o
      → Atomic (rows c) entries (after_begin pg entries o)
  after_begin-Atomic entries c (refused c' e) h = (λ p. cc, inl (laws.refused_rows c c' e h))
  after_begin-Atomic entries c (begun tx) h =
      let (b, s) = laws.begun_base c tx h in
      let (b', s') = laws.prepare_keeps tx in
      rw (b', b) at (after_prepare-Atomic entries (prepare tx) (s' ∙ s))

  -- A batch is written whole or not at all, and with no error it is written: wherever the transaction
  -- fails, at its beginning, at an entry or at the commit, the table holds what it held before,
  -- followed by all entries in their order or by none.
  pub insert_logs_batch-Atomic :
      (entries : List LogEntry) (c : Conn)
      → Atomic (rows c) entries (insert_logs_batch pg entries c)
  unfolding insert_logs_batch
  insert_logs_batch-Atomic [] c = (λ h. sym (append-nil (rows c)), inl refl)
  insert_logs_batch-Atomic (x ∷ xs) c = after_begin-Atomic (x ∷ xs) c (begin_tx c) refl
