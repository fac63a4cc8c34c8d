-- ===== src/Driver/Schemas.antt =====
-- driver/sqlite.go: `TableSchema`, which reads the schema of a table from the database's own tables. What
-- the queries answer is a parameter. A number of an `int` column is its bit pattern.
pub mod Columns
pub mod Scanned
use go_geodiff.Common.{
  ℕ, zero, suc, ◌+◌, ◌-◌, ◌^◌, ◌==◌, leb, Bool, true, false, not, ◌&&◌, ◌||◌, List, [], ◌∷◌, ◌++◌,
  if◌then◌else◌, Bytes, codes, equal_bytes, length, map, Option, none, some,
}
use go_geodiff.Common.Maps.{Map, lookup, insert, bytes_key}
use go_geodiff.Common.Text.{replace_byte}
use go_geodiff.Result.{
  Result, ok, err, ◌>>=◌, no_such_table, row_not_scanned, empty_column_name, empty_type_name,
  geometry_column_missing, no_such_crs, empty_auth_name, empty_definition,
}
use go_geodiff.Schema.{
  base_text, TableColumnType, TableColumnInfo, CrsDefinition, TableSchema, first_column,
  set_geometry,
}
use go_geodiff.Schema.ColumnTypes.{column_type, driver_sqlite}
use go_geodiff.Driver.{Answer, failed, answered, required}
use go_geodiff.Driver.Diff.{Side, Rows, ending, database_name}

-- A row of `table_info`, of `gpkg_geometry_columns` and of `gpkg_spatial_ref_sys`, as they are scanned.
pub record InfoRow : Type 0 where
  pub name : Bytes
  pub col_type : Bytes
  pub not_null : ℕ
  pub pk : ℕ

pub record GeometryRow : Type 0 where
  pub column_name : Bytes
  pub geometry_type_name : Bytes
  pub srs_id : ℕ
  pub z : ℕ
  pub m : ℕ

pub record CrsRow : Type 0 where
  pub organization : Option Bytes
  pub organization_coordsys_id : ℕ
  pub definition : Option Bytes

-- What the database answers to a query; a row is `none` where it cannot be scanned.
pub record Catalog : Type 0 where
  pub has_modified : Bool
  pub names : Bytes → Answer (Rows (Unit {0}))
  pub table_info : Bytes → Answer (Rows (Option InfoRow))
  pub geometry_columns : Bytes → Answer (Rows (Option GeometryRow))
  pub spatial_ref_sys : Bytes → Answer (Rows (Option CrsRow))

-- `strings.ReplaceAll(name, "'", "''")`, between quotes.
abbrev pub quote : ℕ
quote = 39

unfoldable pub in_quotes : Bytes → Bytes
in_quotes s = quote ∷ (replace_byte quote (quote ∷ quote ∷ []) s ++ (quote ∷ []))

abbrev pub first_found : Rows (Unit {0}) → Result Bool
first_found found = elim found.rows [
  | [] ↦ ending found.ended_by >>= λ u. ok false
  | r ∷ rs ↦ ok true
]

abbrev pub blank_column : InfoRow → TableColumnInfo
blank_column r = record {
  name = r.name;
  type = record { base_type = base_text; db_type = [] };
  is_primary_key = not (r.pk == 0);
  is_not_null = not (r.not_null == 0);
  is_auto_increment = false;
  is_geometry = false;
  geom_type = [];
  geom_srs_id = 0;
  geom_has_z = false;
  geom_has_m = false;
}

-- The columns, and the types by the columns' names.
abbrev pub Scan : Type 0
Scan = List TableColumnInfo × Map Bytes Bytes

unfoldable pub scan_columns : List (Option InfoRow) → Scan → Result Scan
scan_columns [] s = ok s
scan_columns (none ∷ rows) s = err row_not_scanned
scan_columns (some r ∷ rows) s =
    let rest = scan_columns rows (s.0 ++ (blank_column r ∷ []), insert r.name r.col_type s.1) in
    if length r.name == 0 then err empty_column_name else rest

unfoldable pub modify_at :
    ℕ → (TableColumnInfo → TableColumnInfo) → List TableColumnInfo → List TableColumnInfo
modify_at i g [] = []
modify_at zero g (c ∷ cs) = g c ∷ cs
modify_at (suc i) g (c ∷ cs) = c ∷ modify_at i g cs

-- -1 stands for no SRS.
abbrev pub no_srs : ℕ
no_srs = 2 ^ 64 - 1

abbrev pub mark_geometry :
    Option ℕ → GeometryRow → List TableColumnInfo → Result (List TableColumnInfo)
mark_geometry none r cs = err geometry_column_missing
mark_geometry (some i) r cs =
    ok (
      modify_at i (set_geometry r.geometry_type_name r.srs_id (not (r.m == 0)) (not (r.z == 0))) cs)

-- The SRS of the last row, and the columns.
unfoldable pub scan_geometries :
    List (Option GeometryRow) → ℕ × List TableColumnInfo → Result (ℕ × List TableColumnInfo)
scan_geometries [] s = ok s
scan_geometries (none ∷ rows) s = err row_not_scanned
scan_geometries (some r ∷ rows) s =
    if length r.column_name == 0
    then err empty_column_name
    else if length r.geometry_type_name == 0
    then err empty_type_name
    else mark_geometry (first_column (λ c. equal_bytes c.name r.column_name) s.1) r s.1 >>= λ cs.
        scan_geometries rows (r.srs_id, cs)

-- A query that fails leaves the columns as they are.
unfoldable pub geometries_of :
    Answer (Rows (Option GeometryRow)) → List TableColumnInfo → Result (ℕ × List TableColumnInfo)
geometries_of (failed msg) cs = ok (no_srs, cs)
geometries_of (answered found) cs =
    scan_geometries found.rows (no_srs, cs) >>= λ s. ending found.ended_by >>= λ u. ok s

-- `sql.NullString`
abbrev pub or_empty : Option Bytes → Bytes
or_empty none = []
or_empty (some s) = s

abbrev pub crs_of : ℕ → List (Option CrsRow) → Result CrsDefinition
crs_of srs [] = err no_such_crs
crs_of srs (none ∷ rows) = err row_not_scanned
crs_of srs (some r ∷ rows) =
    if length (or_empty r.organization) == 0
    then err empty_auth_name
    else if length (or_empty r.definition) == 0
    then err empty_definition
    else ok (record {
      srs_id = srs;
      auth_name = or_empty r.organization;
      auth_code = r.organization_coordsys_id;
      wkt = or_empty r.definition;
    })

abbrev pub blank_crs : CrsDefinition
blank_crs = record { srs_id = 0; auth_name = []; auth_code = 0; wkt = [] }

-- `strings.EqualFold(dbType, "integer")`: no letter of the word folds to one beyond ASCII.
abbrev pub lowered : ℕ → ℕ
lowered b = if leb 65 b && leb b 90 then b + 32 else b

abbrev pub is_integer_type : Bytes → Bool
is_integer_type db_type = equal_bytes (map lowered db_type) (codes "integer")

module _ (to_lower : Bytes → Bytes) where
  unfoldable pub typed_column : Map Bytes Bytes → TableColumnInfo → TableColumnInfo
  typed_column types c =
      let db_type = or_empty (lookup c.name types) in
      record c {
        type = (column_type to_lower false db_type driver_sqlite c.is_geometry).0;
        is_auto_increment =
            if c.is_primary_key && is_integer_type db_type then true else c.is_auto_increment;
      }

  module _ (db : Catalog) (decimal : ℕ → Bytes) where
    unfoldable pub table_exists : Bytes → Bytes → Result Bool
    table_exists table_name db_name =
        required (
          db.names (
            codes "SELECT name FROM "
            ++ (db_name
                ++ (codes ".sqlite_master WHERE type='table' AND name=" ++ in_quotes table_name))))
        >>= first_found

    -- An error here counts as no.
    abbrev pub surely : Result Bool → Bool
    surely (err e) = false
    surely (ok b) = b

    unfoldable pub marked_columns :
        Bytes → Bytes → List TableColumnInfo → Result (ℕ × List TableColumnInfo)
    marked_columns table_name db_name cs =
        if surely (table_exists (codes "gpkg_geometry_columns") db_name)
        then geometries_of
            (db.geometry_columns (
              codes "SELECT * FROM "
              ++ (db_name
                  ++ (codes ".gpkg_geometry_columns WHERE table_name = " ++ in_quotes table_name))))
            cs
        else ok (no_srs, cs)

    unfoldable pub read_crs : Bytes → ℕ → Result CrsDefinition
    read_crs db_name srs =
        if srs == no_srs
        then ok blank_crs
        else required (
            db.spatial_ref_sys (
              codes
                "SELECT srs_name,srs_id,organization,organization_coordsys_id,definition,description FROM "
              ++ (db_name ++ (codes ".gpkg_spatial_ref_sys WHERE srs_id = " ++ decimal srs))))
          >>= λ found. crs_of srs found.rows

    abbrev pub with_crs :
        Bytes → Bytes → Map Bytes Bytes → ℕ × List TableColumnInfo → Result TableSchema
    with_crs table_name db_name types s = read_crs db_name s.0 >>= λ crs.
        ok (record { name = table_name; columns = map (typed_column types) s.1; crs = crs })

    abbrev pub with_rows : Bytes → Bytes → Rows (Option InfoRow) → Result TableSchema
    with_rows table_name db_name found = scan_columns found.rows ([], []) >>= λ s.
        ending found.ended_by >>= λ u.
        marked_columns table_name db_name s.0 >>= with_crs table_name db_name s.1

    abbrev pub info_query : Bytes → Bytes → Bytes
    info_query table_name db_name =
        codes "PRAGMA '"
        ++ (db_name ++ (codes "'.table_info(" ++ (in_quotes table_name ++ codes ")")))

    unfoldable pub scanned_schema : Bytes → Bytes → Result TableSchema
    scanned_schema table_name db_name =
        required (db.table_info (info_query table_name db_name)) >>= with_rows table_name db_name

    unfoldable pub read_table_schema : Bytes → Side → Result TableSchema
    read_table_schema table_name side = do
      db_name ← database_name db.has_modified side
      exists ← table_exists table_name db_name
      if exists then scanned_schema table_name db_name else err no_such_table
