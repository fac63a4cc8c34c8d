-- ===== src/Tests/Schemas.antt =====
-- schema/ on concrete tables.
use go_geodiff.Common.{◌≡◌, refl, true, false, ◌||◌, ◌↔◌, [], ◌∷◌, Bytes, codes, equal_bytes}
use go_geodiff.Schema.{
  base_integer, base_text, TableColumnInfo, CrsDefinition, TableSchema, set_geometry, equal,
  compare_with_base_types, column_from_name, geometry_column, equal_crs, all_columns, equal_column,
  same_details, compare_column,
}
use go_geodiff.Schema.Compare.{
  forget_wkt, forget_types, IsFirst, equal_iff, compare_with_base_types-equal,
  column_search-IsFirst,
}
use go_geodiff.Schema.ColumnTypes.{driver_sqlite, driver_postgres, column_type}
use go_geodiff.Schema.ColumnTypes.Mapping.{Converts, column_type-Converts}

abbrev pub fid : TableColumnInfo
fid = record {
  name = codes "fid";
  type = record { base_type = base_integer; db_type = codes "INTEGER" };
  is_primary_key = true;
  is_not_null = true;
  is_auto_increment = true;
  is_geometry = false;
  geom_type = [];
  geom_srs_id = 0;
  geom_has_z = false;
  geom_has_m = false;
}

abbrev pub note : TableColumnInfo
note = record {
  name = codes "note";
  type = record { base_type = base_text; db_type = codes "TEXT" };
  is_primary_key = false;
  is_not_null = false;
  is_auto_increment = false;
  is_geometry = false;
  geom_type = [];
  geom_srs_id = 0;
  geom_has_z = false;
  geom_has_m = false;
}

abbrev geom : TableColumnInfo
geom = set_geometry (codes "POINT") 4326 false true (record note { name = codes "geom" })

abbrev pub wgs84 : Bytes → CrsDefinition
wgs84 text = record { srs_id = 4326; auth_name = codes "EPSG"; auth_code = 4326; wkt = text }

abbrev trees : TableSchema
trees = record {
  name = codes "trees";
  columns = fid ∷ geom ∷ note ∷ [];
  crs = wgs84 (codes "GEOGCS");
}

abbrev same_trees : TableSchema
same_trees = record trees { crs = wgs84 (codes "GEOGCRS") }

abbrev typed_trees : TableSchema
typed_trees = record trees {
  columns =
      fid
      ∷ geom
      ∷ record note { type = record { base_type = base_text; db_type = codes "VARCHAR(9)" } }
      ∷ [];
}

trees_compare :
    (equal trees same_trees ≡ true)
    × (equal trees typed_trees ≡ false)
    × (compare_with_base_types trees typed_trees ≡ true)
unfolding equal compare_with_base_types equal_bytes equal_crs all_columns equal_column same_details
    set_geometry compare_column
trees_compare = (refl, refl, refl)

equal_iff_example : (equal trees typed_trees ≡ true) ↔ (forget_wkt trees ≡ forget_wkt typed_trees)
equal_iff_example = equal_iff trees typed_trees

compare_with_base_types-equal_example :
    compare_with_base_types trees typed_trees
    ≡ equal (forget_types trees) (forget_types typed_trees)
compare_with_base_types-equal_example = compare_with_base_types-equal trees typed_trees

column_search-IsFirst_example :
    IsFirst
      (λ c. equal_bytes c.name (codes "note"))
      trees.columns
      (column_from_name trees (codes "note"))
    × IsFirst (λ c. c.is_geometry) trees.columns (geometry_column trees)
column_search-IsFirst_example = column_search-IsFirst trees (codes "note")

column_type-Converts_example :
    Converts true
      (codes "varchar(20)")
      (equal_bytes (codes "sqlite") driver_sqlite || equal_bytes (codes "sqlite") driver_postgres)
      false
      (column_type (λ s. s) true (codes "varchar(20)") (codes "sqlite") false)
column_type-Converts_example =
    column_type-Converts (λ s. s) true (codes "varchar(20)") (codes "sqlite") false
