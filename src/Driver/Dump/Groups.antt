-- ===== src/Driver/Dump/Groups.antt =====
-- What `DumpData` writes, table by table.
use go_geodiff.Common.{ℕ, ◌⊎◌, ◌≡◌, true, false, List, [], ◌∷◌, map, Bytes, length, none}
use go_geodiff.Result.{Result}
use go_geodiff.Changeset.Types.{ChangesetTable, ChangesetEntry}
use go_geodiff.Changeset.Writer.{Writer, write_entry}
use go_geodiff.Changeset.Writer
use go_geodiff.Changeset.Stream.{Group}
use go_geodiff.Schema.{TableSchema, has_primary_key}
use go_geodiff.Driver.{Argument, answered, Step, ◌>>=◌, ◌>>◌, lift}
use go_geodiff.Driver.Sql.{changeset_value}
use go_geodiff.Driver.Diff.{
  Side, Source, TableWriter, on_writer, schema_to_changeset_table, scan_row_values, inserted_entry,
}
use go_geodiff.Driver.Dump.{write_dumped, dump_query}

abbrev pub row_entry : List Argument → ChangesetEntry
row_entry row = inserted_entry false (map changeset_value row)

abbrev pub AllLength : ℕ → List (List Argument) → Type 0
AllLength n [] = Unit {0}
AllLength n (row ∷ rows) = (length row ≡ n) × AllLength n rows

abbrev row_entries : List (List Argument) → List ChangesetEntry
row_entries [] = []
row_entries (row ∷ rows) = row_entry row ∷ row_entries rows

-- A writer whose table has begun, around the writer that is shared.
abbrev begun : Result (Unit {0}) × Writer → Result (Unit {0}) × TableWriter
begun (r, w) = (r, record { writer = w; first = false })

-- The writer that a table writer leaves.
abbrev shared : Result (Unit {0}) × TableWriter → Result (Unit {0}) × Writer
shared (r, tw) = (r, tw.writer)

-- A row behind the header.
abbrev row_step :
    ChangesetTable → ℕ → List Argument → List (List Argument) → Step TableWriter (Unit {0})
row_step t n row rows = lift (scan_row_values n row) >>= λ vals.
    on_writer (write_entry (inserted_entry false vals)) >> write_dumped t n rows

module _ (src : Source) (to_upper : Bytes → Bytes) where
  -- The groups of some tables: one for each table with a key, with an INSERT for each of its rows.
  abbrev pub Dumps : Bytes → Side → List Bytes → List Group → Type 0
  Dumps db_name side [] [] = Unit {0}
  Dumps db_name side [] (g ∷ gs) = ⊥
  Dumps db_name side (name ∷ names) gs =
      (tbl : TableSchema) × (src.schema_of name side ≡ answered tbl)
      × (((has_primary_key tbl ≡ false) × Dumps db_name side names gs)
          ⊎ ((has_primary_key tbl ≡ true)
              × (rows : List (List Argument)) × (rest : List Group) × (src.query
                    (dump_query src to_upper db_name name tbl)
                  ≡ answered (record { rows = rows; ended_by = none }))
              × AllLength (length tbl.columns) rows
              × (gs ≡ (schema_to_changeset_table name tbl, row_entries rows) ∷ rest)
              × Dumps db_name side names rest))
