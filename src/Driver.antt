-- ===== src/Driver.antt =====
-- driver/sqlite.go and driver/sqlite_utils.go: the SQLite driver. The database is a parameter: what it
-- answers to a statement and how its state changes. A Go error of `database/sql` is its message.
pub mod Sql
pub mod Apply
pub mod Diff
pub mod Dump
pub mod Schemas
pub mod Tables
use go_geodiff.Common.{ℕ, List, Bytes, Option}
use go_geodiff.Result.{Result, ok, err, sql_error}
use go_geodiff.Schema.{TableSchema}

-- What a call of `database/sql` answers.
pub data Answer (A : Type 0) : Type 0 where
  failed : Bytes → Answer A
  answered : A → Answer A

-- The arguments of a statement, and the values of a row: what Go passes as `any`.
pub data Argument : Type 0 where
  nil_value : Argument
  int64_value float64_value : ℕ → Argument
  string_value bytes_value : Bytes → Argument

-- `ExecContext` with the number of rows affected, the rows of `sqlite_master` that list the triggers
-- (none where the row cannot be scanned into two strings), and the reader of table schemas.
pub record Database (S : Type 0) : Type 0 where
  pub exec : Bytes → List Argument → S → Answer ℕ × S
  pub trigger_rows : S → Answer (List (Option (Bytes × Bytes)))
  pub table_schema : Bytes → S → Answer TableSchema

-- Steps on the state of a database; an error keeps the state that it was met in.
abbrev pub Step : Type 0 → Type 0 → Type 0
Step S A = S → Result A × S

module _ {S A B : Type 0} where
  abbrev pub continue : Result A → (A → Step S B) → Step S B
  continue (ok a) f s = f a s
  continue (err e) f s = (err e, s)

  infixl 5 ◌>>=◌ ◌>>◌
  abbrev pub ◌>>=◌ : Step S A → (A → Step S B) → Step S B
  ◌>>=◌ m f s = continue (m s).0 f (m s).1

  abbrev pub ◌>>◌ : Step S A → Step S B → Step S B
  m >> k = m >>= λ _. k

module _ {S A : Type 0} where
  abbrev pub pure : A → Step S A
  pure a s = (ok a, s)

  -- A computation on values alone.
  abbrev pub lift : Result A → Step S A
  lift r s = (r, s)

-- An answer whose failure is returned as an error.
abbrev pub required : {A : Type 0} → Answer A → Result A
required (failed msg) = err (sql_error msg)
required (answered a) = ok a
