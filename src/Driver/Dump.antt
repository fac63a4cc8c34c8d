-- ===== src/Driver/Dump.antt =====
-- driver/sqlite.go: `DumpData`, which writes every row of a database as an INSERT. An error that a query
-- answers and one that ends its rows are both wrapped in one message.
pub mod Groups
use go_geodiff.Common.{
  ℕ, Bool, true, false, not, List, [], ◌∷◌, ◌++◌, if◌then◌else◌, Bytes, codes, length,
}
use go_geodiff.Result.{Result, ok, err}
use go_geodiff.Changeset.Types.{ChangesetTable}
use go_geodiff.Changeset.Writer.{Writer, write_entry}
use go_geodiff.Schema.{TableSchema, has_primary_key}
use go_geodiff.Driver.{Argument, Step, continue, ◌>>=◌, ◌>>◌, pure, lift, required}
use go_geodiff.Driver.Sql.{quote_ident}
use go_geodiff.Driver.Sql.Queries.{sql_value_projection}
use go_geodiff.Driver.Diff.{
  Side, Source, TableWriter, on_writer, begin_table_if_needed, schema_to_changeset_table,
  scan_row_values, inserted_entry, database_name, list_tables, ending, with_table_writer,
}

unfoldable pub write_dumped :
    ChangesetTable → ℕ → List (List Argument) → Step TableWriter (Unit {0})
write_dumped t n [] = pure tt
write_dumped t n (row ∷ rows) = do
  begin_table_if_needed t
  vals ← lift (scan_row_values n row)
  on_writer (write_entry (inserted_entry false vals))
  write_dumped t n rows

module _ (src : Source) (to_upper : Bytes → Bytes) where
  unfoldable pub dump_query : Bytes → Bytes → TableSchema → Bytes
  dump_query db_name name tbl =
      codes "SELECT "
      ++ (sql_value_projection to_upper db_name name tbl
          ++ (codes " FROM \"" ++ (db_name ++ (codes "\"." ++ quote_ident name))))

  unfoldable pub dump_rows : Bytes → Bytes → TableSchema → Step TableWriter (Unit {0})
  dump_rows db_name name tbl = do
    found ← lift (required (src.query (dump_query db_name name tbl)))
    write_dumped (schema_to_changeset_table name tbl) (length tbl.columns) found.rows
    lift (ending found.ended_by)

  abbrev pub dump_keyed : Bytes → Bytes → TableSchema → Bool → Step Writer (Unit {0})
  dump_keyed db_name name tbl false = pure tt
  dump_keyed db_name name tbl true = with_table_writer (dump_rows db_name name tbl)

  unfoldable pub dump_tables : Bytes → Side → List Bytes → Step Writer (Unit {0})
  dump_tables db_name side [] = pure tt
  dump_tables db_name side (name ∷ names) = do
    tbl ← lift (required (src.schema_of name side))
    dump_keyed db_name name tbl (has_primary_key tbl)
    dump_tables db_name side names

  unfoldable pub dump_data : Side → Step Writer (Unit {0})
  dump_data side = do
    db_name ← lift (database_name src.has_modified side)
    tables ← lift (list_tables src side)
    dump_tables db_name side tables
