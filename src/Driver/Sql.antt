-- ===== src/Driver/Sql.antt =====
-- driver/sqlite.go: the text of the SQL statements, and the values that go with them.
pub mod Quoting
pub mod Queries
use go_geodiff.Common.{
  ℕ, zero, suc, ◌==◌, Bool, true, false, not, ◌&&◌, ◌||◌, List, [], ◌∷◌, ◌++◌, if◌then◌else◌, Bytes,
  codes, equal_bytes, length, Option, none, some,
}
use go_geodiff.Common.Text.{has_prefix, is_one_of, has_infix_of, replace_byte}
use go_geodiff.Result.{Result, ok, err, index_panic, ◌>>=◌}
use go_geodiff.Changeset.Types.{
  Value, undefined, int, double, text, blob, null, as_int, as_double, as_text, as_blob,
  is_undefined,
}
use go_geodiff.Schema.{base_datetime, same_base, TableColumnInfo, TableSchema}
use go_geodiff.Driver.{Argument, nil_value, int64_value, float64_value, string_value, bytes_value}

abbrev pub double_quote : ℕ
double_quote = 34

unfoldable pub quote_ident : Bytes → Bytes
quote_ident s =
    (double_quote ∷ [])
    ++ (replace_byte double_quote (double_quote ∷ double_quote ∷ []) s ++ (double_quote ∷ []))

unfoldable pub skip_gpkg_table : Bytes → Bool
skip_gpkg_table name =
    has_prefix name (codes "gpkg_") && not (equal_bytes name (codes "gpkg_data_columns"))

unfoldable pub is_constraint_error : Bytes → Bool
is_constraint_error msg = has_infix_of msg (
    codes "UNIQUE constraint"
    ∷ codes "FOREIGN KEY constraint"
    ∷ codes "NOT NULL constraint"
    ∷ codes "CHECK constraint"
    ∷ codes "PRIMARY KEY constraint"
    ∷ [])

unfoldable pub convert_value_to_interface : Value → Argument
convert_value_to_interface undefined = nil_value
convert_value_to_interface null = nil_value
convert_value_to_interface (int n) = int64_value (as_int (int n)).0
convert_value_to_interface (double f) = float64_value (as_double (double f)).0
convert_value_to_interface (text s) = string_value (as_text (text s)).0
convert_value_to_interface (blob b) = bytes_value (as_blob (blob b)).0

unfoldable pub changeset_value : Argument → Value
changeset_value nil_value = null
changeset_value (int64_value n) = int n
changeset_value (float64_value f) = double f
changeset_value (string_value s) = text s
changeset_value (bytes_value b) = blob b

-- `WriteString` of a clause onto a builder, behind a separator unless the builder is empty.
abbrev pub with_clause : Bytes → Bytes → Bytes → Bytes
with_clause sep sofar clause = if length sofar == 0 then clause else sofar ++ (sep ++ clause)

-- Clauses for the columns, in order, onto a builder, with their arguments.
unfoldable pub clauses :
    (Bytes → TableColumnInfo → Value → Bytes × List Argument)
    → Bytes
    → List TableColumnInfo
    → List Value
    → Result (Bytes × List Argument)
clauses clause sofar [] vs = ok (sofar, [])
clauses clause sofar (c ∷ cs) [] = err index_panic
clauses clause sofar (c ∷ cs) (v ∷ vs) = do
  rest ← clauses clause (clause sofar c v).0 cs vs
  ok (rest.0, (clause sofar c v).1 ++ rest.1)

unfoldable pub set_clause : Bytes → TableColumnInfo → Value → Bytes × List Argument
set_clause sofar c v =
    if not (is_undefined v)
    then (
      with_clause (codes ", ") sofar (quote_ident c.name ++ codes " = ?"),
      convert_value_to_interface v ∷ [],
    )
    else (sofar, [])

abbrev pub datetime_test : TableColumnInfo → Bytes
datetime_test c =
    codes "STRFTIME('%Y-%m-%d %H:%M:%f', "
    ++ (quote_ident c.name ++ codes ") IS STRFTIME('%Y-%m-%d %H:%M:%f', ?)")

unfoldable pub where_clause : Bytes → TableColumnInfo → Value → Bytes × List Argument
where_clause sofar c v =
    if c.is_primary_key
    then (
      with_clause (codes " AND ") sofar (quote_ident c.name ++ codes " = ?"),
      convert_value_to_interface v ∷ [],
    )
    else if is_undefined v
    then (sofar, [])
    else if same_base c.type.base_type base_datetime
    then (with_clause (codes " AND ") sofar (datetime_test c), convert_value_to_interface v ∷ [])
    else (
      with_clause (codes " AND ") sofar (quote_ident c.name ++ codes " IS ?"),
      convert_value_to_interface v ∷ [],
    )

-- The column names, the placeholders and the arguments of an INSERT.
unfoldable pub insert_clauses :
    Bool → List TableColumnInfo → List Value → Result (Bytes × Bytes × List Argument)
insert_clauses first [] vs = ok ([], [], [])
insert_clauses first (c ∷ cs) [] = err index_panic
insert_clauses first (c ∷ cs) (v ∷ vs) = do
  rest ← insert_clauses false cs vs
  ok (
    (if first then [] else codes ", ") ++ (quote_ident c.name ++ rest.0),
    (if first then [] else codes ", ") ++ (codes "?" ++ rest.1),
    convert_value_to_interface v ∷ rest.2,
  )

unfoldable pub insert_statement : Bytes → Bytes → Bytes → Bytes
insert_statement table cols placeholders =
    codes "INSERT INTO "
    ++ (quote_ident table
        ++ (codes " (" ++ (cols ++ (codes ") VALUES (" ++ (placeholders ++ codes ")")))))

unfoldable pub update_statement : Bytes → Bytes → Bytes → Bytes
update_statement table sets tests =
    codes "UPDATE "
    ++ (quote_ident table ++ (codes " SET " ++ (sets ++ (codes " WHERE " ++ tests))))

unfoldable pub delete_statement : Bytes → Bytes → Bytes
delete_statement table tests =
    codes "DELETE FROM " ++ (quote_ident table ++ (codes " WHERE " ++ tests))

unfoldable pub drop_trigger_statement : Bytes → Bytes
drop_trigger_statement name = codes "DROP TRIGGER " ++ quote_ident name
