-- ===== src/Tests/Diffs.antt =====
-- `CreateChangeset` on two small databases.
use go_geodiff.Common.{
  ℕ, ◌≡◌, refl, inl, arith, Bool, true, false, not, List, [], ◌∷◌, if◌then◌else◌, Bytes, codes,
  equal_bytes, Option, none, some,
}
use go_geodiff.Result.{ok}
use go_geodiff.Changeset.Types.{int, text, equal}
use go_geodiff.Changeset.Effect.{Row}
use go_geodiff.Changeset.Writer.{Writer, new_writer}
use go_geodiff.Schema.{TableSchema, key_flags}
use go_geodiff.Driver.{Answer, failed, answered, Argument, int64_value, string_value}
use go_geodiff.Driver.Sql.Queries.{sql_find_inserted}
use go_geodiff.Changeset.Stream.{Group}
use go_geodiff.Schema.{any_primary_key}
use go_geodiff.Driver.Diff.{schema_to_changeset_table}
use go_geodiff.Driver.Dump.Groups.{row_entry}
use go_geodiff.Driver.Diff.{base_side, modified_side, Rows, Source, list_tables, create_changeset}
use go_geodiff.Driver.Diff.Compatible.{Compatible, create_changeset-Compatible}
use go_geodiff.Tests.Schemas.{fid, note, wgs84}

abbrev notes : TableSchema
notes = record { name = codes "notes"; columns = fid ∷ note ∷ []; crs = wgs84 [] }

abbrev no_rows : Rows (List Argument)
no_rows = record { rows = []; ended_by = none }

abbrev one_row : Rows (List Argument)
one_row = record { rows = (int64_value 1 ∷ string_value (codes "a") ∷ []) ∷ []; ended_by = none }

-- One table, in which the modified database has one row more.
abbrev databases : Source
databases = record {
  has_modified = true;
  table_names = λ db_name. answered (record {
    rows = some (codes "notes") ∷ some (codes "gpkg_contents") ∷ none ∷ [];
    ended_by = none;
  });
  schema_of = λ name side. answered notes;
  query = λ q. answered (
      if equal_bytes q (sql_find_inserted (λ s. s) (codes "notes") notes false)
      then one_row
      else no_rows);
  query_int = λ q args. none;
}

abbrev old_row : Row
old_row = int 1 ∷ text (codes "a") ∷ []

abbrev new_row : Row
new_row = int 1 ∷ text (codes "b") ∷ []

databases-differ : (create_changeset databases (λ s. s) new_writer).0 ≡ ok tt
unfolding create_changeset list_tables go_geodiff.Driver.Diff.database_name
    go_geodiff.Driver.Diff.diff_same_tables go_geodiff.Driver.Diff.same_tables
    go_geodiff.Driver.Diff.user_tables go_geodiff.Driver.Diff.diff_tables
    go_geodiff.Driver.Diff.diff_table go_geodiff.Driver.Diff.compare_table
    go_geodiff.Driver.Diff.begin_table_if_needed go_geodiff.Driver.Diff.diff_rows
    go_geodiff.Driver.Diff.handle_inserted go_geodiff.Driver.Diff.handle_updated
    go_geodiff.Driver.Diff.write_inserted go_geodiff.Driver.Diff.write_updated
    go_geodiff.Driver.Sql.skip_gpkg_table go_geodiff.Common.Text.has_prefix equal_bytes
    go_geodiff.Schema.equal go_geodiff.Schema.equal_crs go_geodiff.Schema.all_columns
    go_geodiff.Schema.equal_column go_geodiff.Schema.same_details go_geodiff.Schema.any_primary_key
    key_flags go_geodiff.Changeset.Writer.begin_table go_geodiff.Changeset.Writer.write_bytes
    go_geodiff.Changeset.Writer.write_flags go_geodiff.Changeset.Writer.write_null_terminated_string
    go_geodiff.Changeset.Writer.write_body go_geodiff.Changeset.Writer.write_row_values
    go_geodiff.Changeset.Writer.write_values go_geodiff.Changeset.Writer.write_payload
    go_geodiff.Changeset.Writer.write_entry go_geodiff.Common.Text.is_one_of
    go_geodiff.Common.Text.replace_byte sql_find_inserted go_geodiff.Driver.Sql.changeset_value
    go_geodiff.Driver.Sql.quote_ident go_geodiff.Varint.put_varint go_geodiff.Varint.put_varint64
    go_geodiff.Driver.Sql.Queries.compare_columns go_geodiff.Driver.Sql.Queries.join
    go_geodiff.Driver.Sql.Queries.key_tests go_geodiff.Driver.Sql.Queries.other_tests
    go_geodiff.Driver.Sql.Queries.projected_columns go_geodiff.Driver.Sql.Queries.sql_find_modified
    go_geodiff.Driver.Sql.Queries.sql_value_projection
databases-differ = refl

create_changeset-Compatible_example :
    (databases.has_modified ≡ true)
    × (names : List Bytes) × (list_tables databases base_side ≡ ok names)
    × (list_tables databases modified_side ≡ ok names)
    × Compatible databases names
create_changeset-Compatible_example =
    create_changeset-Compatible databases (λ s. s) new_writer databases-differ

-- The same table, with one row.
abbrev dumped : Source
dumped = record databases { query = λ q. answered one_row }

abbrev dumped_groups : List Group
dumped_groups =
    (
      schema_to_changeset_table (codes "notes") notes,
      row_entry (int64_value 1 ∷ string_value (codes "a") ∷ []) ∷ [],
    )
    ∷ []
