-- ===== src/Json/Schemas.antt =====
-- The JSON of a database's schema: `Schema` of geodiff/api.go, from the schemas of the tables on, up to
-- `MarshalIndent` and the output file.
use go_geodiff.Common.{ℕ, Bool, List, [], ◌∷◌, ◌==◌, map, if◌then◌else◌, Bytes, Option, none, some}
use go_geodiff.Result.{Result, ok, ◌>>=◌}
use go_geodiff.Schema.{TableColumnInfo, CrsDefinition, TableSchema, base_type_string}

pub record GeometryJson : Type 0 where
  pub type : Bytes
  pub srs_id : Bytes
  pub has_z : Bool
  pub has_m : Bool

-- A Boolean that is false is left out by `omitempty`.
pub record ColumnJson : Type 0 where
  pub name : Bytes
  pub type : Bytes
  pub type_db : Bytes
  pub primary_key : Bool
  pub not_null : Bool
  pub auto_increment : Bool
  pub geometry : Option GeometryJson

pub record TableJson : Type 0 where
  pub table : Bytes
  pub columns : List ColumnJson
  pub crs : Option CrsDefinition

module _ (decimal : ℕ → Bytes) where
  unfoldable pub geometry_json : TableColumnInfo → Option GeometryJson
  geometry_json col =
      if col.is_geometry
      then some (record {
        type = col.geom_type;
        srs_id = decimal col.geom_srs_id;
        has_z = col.geom_has_z;
        has_m = col.geom_has_m;
      })
      else none

  unfoldable pub column_json : TableColumnInfo → ColumnJson
  column_json col = record {
    name = col.name;
    type = base_type_string col.type.base_type;
    type_db = col.type.db_type;
    primary_key = col.is_primary_key;
    not_null = col.is_not_null;
    auto_increment = col.is_auto_increment;
    geometry = geometry_json col;
  }

  unfoldable pub table_json : Bytes → TableSchema → TableJson
  table_json name tbl = record {
    table = name;
    columns = map column_json tbl.columns;
    crs = if tbl.crs.srs_id == 0 then none else some tbl.crs;
  }

  -- The loop over the names, which ends at the first schema that cannot be read.
  unfoldable pub tables_json : (Bytes → Result TableSchema) → List Bytes → Result (List TableJson)
  tables_json schema_of [] = ok []
  tables_json schema_of (name ∷ names) = do
    tbl ← schema_of name
    rest ← tables_json schema_of names
    ok (table_json name tbl ∷ rest)
