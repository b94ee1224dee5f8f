-- ===== src/Database/Reference.antt =====
-- A small database: a table that is a list, whose transactions fail at a client named "bad". It meets
-- the laws that Database/Batch asks of PostgreSQL.
use vegait.Prelude.{
  arith, refl, inr, true, List, [], ◌∷◌, ◌++◌, none, some, String, str_eq, if◌then◌else◌,
}
use vegait.Database.{LogEntry}
use vegait.Database.Batch.{Postgres, PostgresLaws, begun}

pub record Transaction : Type 0 where
  pub before : List LogEntry
  pub added : List LogEntry

abbrev pub table : Postgres
table = record {
  Conn = List LogEntry;
  Tx = Transaction;
  begin_tx = λ c. begun (record { before = c; added = [] });
  prepare = λ tx. (tx, none);
  exec = λ x tx.
      if str_eq x.client_id "bad"
      then (tx, some "value too long")
      else (record tx { added = tx.added ++ x ∷ [] }, none);
  commit = λ tx. (tx.before ++ tx.added, none);
  rollback = λ tx. tx.before;
  rows = λ c. c;
  base = λ tx. tx.before;
  staged = λ tx. tx.added;
}

pub table-PostgresLaws : PostgresLaws table
table-PostgresLaws = record {
  begun_base = λ c tx h. ground arith;
  refused_rows = λ c c' e h. cc;
  prepare_keeps = λ tx. (refl, refl);
  exec_base = λ x tx. ground arith;
  exec_staged = λ x tx h. ground arith;
  commit_done = λ tx h. refl;
  commit_whole = λ tx. inr refl;
  rollback_rows = λ tx. refl;
}

abbrev pub entry : String → LogEntry
entry client = record {
  client_id = client;
  endpoint = "/test";
  status_code = 200;
  latency_ms = 12;
  is_allowed = true;
  timestamp = 5;
}
