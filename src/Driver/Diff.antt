-- ===== src/Driver/Diff.antt =====
-- driver/sqlite.go: `CreateChangeset`, which writes what it takes from one database to another. The
-- databases are a parameter, which does not change: the rows that queries answer and the schemas.
pub mod Correct
pub mod Compatible
use go_geodiff.Common.{
  ℕ, zero, suc, ◌+◌, ◌*◌, ◌==◌, Bool, true, false, not, ◌&&◌, ◌||◌, List, [], ◌∷◌, ◌++◌,
  if◌then◌else◌, Bytes, codes, equal_bytes, length, take, drop, map, Option, none, some,
}
use go_geodiff.Common.Text.{has_prefix}
use go_geodiff.Result.{
  Result, ok, err, sql_error, modified_not_open, no_modified_database, table_names_not_matching,
  schemas_not_the_same, wrong_number_of_values,
}
use go_geodiff.Result
use go_geodiff.Changeset.Types.{
  Value, undefined, text, null, equal, insert, update, delete, empty_table, ChangesetTable,
  ChangesetEntry,
}
use go_geodiff.Changeset.Writer.{Writer, Write, begin_table, write_entry}
use go_geodiff.Schema.{
  base_datetime, same_base, TableColumnInfo, TableSchema, has_primary_key, key_flags,
  compare_with_base_types,
}
use go_geodiff.Schema
use go_geodiff.Driver.{
  Answer, failed, answered, Argument, nil_value, string_value, Step, continue, ◌>>=◌, ◌>>◌, pure,
  lift, required,
}
use go_geodiff.Driver.Sql.{skip_gpkg_table, changeset_value}
use go_geodiff.Driver.Sql.Queries.{sql_find_inserted, sql_find_modified}

pub data Side : Type 0 where
  base_side modified_side : Side

-- What a query answers: its rows, and the error that ended them, if one did.
pub record Rows (R : Type 0) : Type 0 where
  pub rows : List R
  pub ended_by : Option Bytes

-- The open databases. A name of a table is `none` where it cannot be scanned; `query_int` answers
-- `none` where the query or the scan of its one number fails.
pub record Source : Type 0 where
  pub has_modified : Bool
  pub table_names : Bytes → Answer (Rows (Option Bytes))
  pub schema_of : Bytes → Side → Answer TableSchema
  pub query : Bytes → Answer (Rows (List Argument))
  pub query_int : Bytes → List Argument → Option ℕ

abbrev pub ending : Option Bytes → Result (Unit {0})
ending none = ok tt
ending (some msg) = err (sql_error msg)

pub record TableWriter : Type 0 where
  pub writer : Writer
  pub first : Bool

-- A method of the writer that is shared.
abbrev pub on_writer : Write → Step TableWriter (Unit {0})
on_writer m tw = let (r, w) = m tw.writer in (r, record tw { writer = w })

unfoldable pub begin_table_if_needed : ChangesetTable → Step TableWriter (Unit {0})
begin_table_if_needed t tw =
    if not tw.first then (ok tt, tw) else on_writer (begin_table t) (record tw { first = false })

-- A table writer of its own around the writer that is shared.
abbrev pub with_table_writer : Step TableWriter (Unit {0}) → Step Writer (Unit {0})
with_table_writer m w = let (r, tw) = m (record { writer = w; first = true }) in (r, tw.writer)

abbrev pub schema_to_changeset_table : Bytes → TableSchema → ChangesetTable
schema_to_changeset_table name tbl = record { name = name; primary_keys = key_flags tbl.columns }

unfoldable pub scan_row_values : ℕ → List Argument → Result (List Value)
scan_row_values n row =
    if length row == n then ok (map changeset_value row) else err wrong_number_of_values

unfoldable pub database_name : Bool → Side → Result Bytes
database_name true modified_side = ok (codes "main")
database_name true base_side = ok (codes "aux")
database_name false modified_side = err modified_not_open
database_name false base_side = ok (codes "main")

unfoldable pub user_tables : List (Option Bytes) → List Bytes
user_tables [] = []
user_tables (none ∷ names) = user_tables names
user_tables (some name ∷ names) =
    let rest = user_tables names in
    if length name == 0
    then rest
    else if skip_gpkg_table name
    then rest
    else if has_prefix name (codes "rtree_")
    then rest
    else if equal_bytes name (codes "sqlite_sequence")
    then rest
    else name ∷ rest

abbrev pub listed_tables : Rows (Option Bytes) → Result (List Bytes)
listed_tables found = Result.◌>>=◌ (ending found.ended_by) (λ _. ok (user_tables found.rows))

-- An entry as the driver makes it, which names no table.
abbrev pub inserted_entry : Bool → List Value → ChangesetEntry
inserted_entry true vals = record {
  op = delete;
  old_values = vals;
  new_values = [];
  table = empty_table;
}
inserted_entry false vals = record {
  op = insert;
  old_values = [];
  new_values = vals;
  table = empty_table;
}

unfoldable pub write_inserted :
    ChangesetTable → Bool → List (List Argument) → Step TableWriter (Unit {0})
write_inserted t reverse [] = pure tt
write_inserted t reverse (row ∷ rows) = do
  begin_table_if_needed t
  on_writer (write_entry (inserted_entry reverse (map changeset_value row)))
  write_inserted t reverse rows

unfoldable pub same_tables : List Bytes → List Bytes → Bool
same_tables [] [] = true
same_tables (a ∷ as') (b ∷ bs) =
    let rest = same_tables as' bs in if equal_bytes a b then rest else false
same_tables _ _ = false

abbrev pub datetime_query : Bytes
datetime_query =
    codes "SELECT STRFTIME('%Y-%m-%d %H:%M:%f', ?1) IS NOT STRFTIME('%Y-%m-%d %H:%M:%f', ?2)"

-- What a value gives the query on times; only NULL and text do.
unfoldable pub datetime_argument : Value → Option Argument
datetime_argument null = some nil_value
datetime_argument (text s) = some (string_value s)
datetime_argument _ = none

abbrev pub differs : Option ℕ → Bool
differs none = true
differs (some result) = not (result == 0)

module _ (src : Source) where
  unfoldable pub list_tables : Side → Result (List Bytes)
  list_tables side =
      Result.◌>>=◌ (database_name src.has_modified side)
        (λ db_name. Result.◌>>=◌ (required (src.table_names db_name)) listed_tables)

  unfoldable pub check_datetime_arguments : Option Argument → Option Argument → Bool
  check_datetime_arguments (some a) (some b) = differs (src.query_int datetime_query (a ∷ b ∷ []))
  check_datetime_arguments _ _ = true

  unfoldable pub check_datetime_diff : Value → Value → Bool
  check_datetime_diff v1 v2 = check_datetime_arguments (datetime_argument v1) (datetime_argument v2)

  -- Whether a column was updated, from its old value and its new one.
  unfoldable pub is_updated : TableColumnInfo → Value → Value → Bool
  is_updated c old new =
      if not (equal old new) && same_base c.type.base_type base_datetime
      then check_datetime_diff old new
      else not (equal old new)

  -- The loop over the columns: whether there are updates, and the values of the entry.
  unfoldable pub diff_columns :
      List TableColumnInfo → List Value → List Value → Bool × List Value × List Value
  diff_columns (c ∷ cs) (new ∷ news) (old ∷ olds) =
      let rest = diff_columns cs news olds in
      let updated = is_updated c old new in
      (
        updated || rest.0,
        (if c.is_primary_key || updated then old else undefined) ∷ rest.1,
        (if updated then new else undefined) ∷ rest.2,
      )
  diff_columns _ _ _ = (false, [], [])

  -- A row holds the columns of `main`, then those of `aux`.
  unfoldable pub update_entry : TableSchema → List Value → Bool × ChangesetEntry
  update_entry tbl vals =
      let half = length tbl.columns in
      let diff = diff_columns tbl.columns (take half vals) (drop half vals) in
      (
        diff.0,
        record { op = update; old_values = diff.1; new_values = diff.2; table = empty_table },
      )

  abbrev write_update : ChangesetTable → Bool × ChangesetEntry → Step TableWriter (Unit {0})
  write_update t (false, e) = pure tt
  write_update t (true, e) = do begin_table_if_needed t; on_writer (write_entry e)

  unfoldable pub write_updated :
      Bytes → TableSchema → List (List Argument) → Step TableWriter (Unit {0})
  write_updated name tbl [] = pure tt
  write_updated name tbl (row ∷ rows) = do
    vals ← lift (scan_row_values (length tbl.columns * 2) row)
    write_update (schema_to_changeset_table name tbl) (update_entry tbl vals)
    write_updated name tbl rows

module _ (src : Source) (to_upper : Bytes → Bytes) where
  unfoldable pub handle_inserted : Bytes → TableSchema → Bool → Step TableWriter (Unit {0})
  handle_inserted name tbl reverse = do
    found ← lift (required (src.query (sql_find_inserted to_upper name tbl reverse)))
    write_inserted (schema_to_changeset_table name tbl) reverse found.rows
    lift (ending found.ended_by)

  unfoldable pub handle_updated : Bytes → TableSchema → Step TableWriter (Unit {0})
  handle_updated name tbl = do
    found ← lift (required (src.query (sql_find_modified to_upper name tbl)))
    write_updated src name tbl found.rows
    lift (ending found.ended_by)

  unfoldable pub diff_rows : Bytes → TableSchema → Step TableWriter (Unit {0})
  diff_rows name tbl = do
    handle_inserted name tbl false
    handle_inserted name tbl true
    handle_updated name tbl

  unfoldable pub compare_table : Bytes → TableSchema → TableSchema → Step Writer (Unit {0})
  compare_table name tbl tbl_new =
      if not (Schema.equal tbl tbl_new) && not (compare_with_base_types tbl tbl_new)
      then lift (err schemas_not_the_same)
      else if not (has_primary_key tbl)
      then pure tt
      else with_table_writer (diff_rows name tbl)

  unfoldable pub diff_table : Bytes → Step Writer (Unit {0})
  diff_table name = do
    tbl ← lift (required (src.schema_of name base_side))
    tbl_new ← lift (required (src.schema_of name modified_side))
    compare_table name tbl tbl_new

  unfoldable pub diff_tables : List Bytes → Step Writer (Unit {0})
  diff_tables [] = pure tt
  diff_tables (name ∷ names) = do diff_table name; diff_tables names

  unfoldable pub diff_same_tables : List Bytes → List Bytes → Step Writer (Unit {0})
  diff_same_tables tables_base tables_modified =
      if not (same_tables tables_base tables_modified)
      then lift (err table_names_not_matching)
      else diff_tables tables_base

  unfoldable pub create_changeset : Step Writer (Unit {0})
  create_changeset = if not src.has_modified then lift (err no_modified_database) else (do
    tables_base ← lift (list_tables src base_side)
    tables_modified ← lift (list_tables src modified_side)
    diff_same_tables tables_base tables_modified)
