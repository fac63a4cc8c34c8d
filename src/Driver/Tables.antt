-- ===== src/Driver/Tables.antt =====
-- driver/sqlite.go: `CreateTables` with the metadata of a GeoPackage. The statements are the source's, byte
-- for byte.
use go_geodiff.Common.{
  ℕ, zero, suc, ltb, Bool, true, false, List, [], ◌∷◌, ◌++◌, if◌then◌else◌, Bytes, codes, length,
  Option, none, some,
}
use go_geodiff.Result.{Result, ok, err, index_panic, not_spatial}
use go_geodiff.Schema.{TableColumnInfo, CrsDefinition, TableSchema, geometry_column}
use go_geodiff.Driver.{
  Answer, Argument, int64_value, string_value, Step, ◌>>=◌, ◌>>◌, pure, lift, required,
}
use go_geodiff.Driver.Sql.{quote_ident, skip_gpkg_table}

-- The parts of the statements that make the metadata tables.
abbrev pub crs_ddl : Bytes
crs_ddl =
    codes "CREATE TABLE IF NOT EXISTS gpkg_spatial_ref_sys (\n"
    ++ (codes "\t\t\tsrs_name TEXT NOT NULL,\n"
        ++ (codes "\t\t\tsrs_id INTEGER NOT NULL PRIMARY KEY,\n"
            ++ (codes "\t\t\torganization TEXT NOT NULL,\n"
                ++ (codes "\t\t\torganization_coordsys_id INTEGER NOT NULL,\n"
                    ++ (codes "\t\t\tdefinition TEXT NOT NULL,\n"
                        ++ (codes "\t\t\tdescription TEXT\n" ++ (codes "\t\t)")))))))

abbrev pub contents_ddl : Bytes
contents_ddl =
    codes "CREATE TABLE IF NOT EXISTS gpkg_contents (\n"
    ++ (codes "\t\t\ttable_name TEXT NOT NULL PRIMARY KEY,\n"
        ++ (codes "\t\t\tdata_type TEXT NOT NULL,\n"
            ++ (codes "\t\t\tidentifier TEXT UNIQUE,\n"
                ++ (codes "\t\t\tdescription TEXT DEFAULT '',\n"
                    ++ (codes
                          "\t\t\tlast_change DATETIME NOT NULL DEFAULT (strftime('%Y-%m-%dT%H:%M:%fZ','now')),\n"
                        ++ (codes "\t\t\tmin_x DOUBLE,\n"
                            ++ (codes "\t\t\tmin_y DOUBLE,\n"
                                ++ (codes "\t\t\tmax_x DOUBLE,\n"
                                    ++ (codes "\t\t\tmax_y DOUBLE,\n"
                                        ++ (codes "\t\t\tsrs_id INTEGER,\n"
                                            ++ (codes
                                                  "\t\t\tCONSTRAINT fk_gc_r_srs_id FOREIGN KEY (srs_id) REFERENCES gpkg_spatial_ref_sys(srs_id)\n"
                                                ++ (codes "\t\t)"))))))))))))

abbrev pub geometry_columns_ddl : Bytes
geometry_columns_ddl =
    codes "CREATE TABLE IF NOT EXISTS gpkg_geometry_columns (\n"
    ++ (codes "\t\t\ttable_name TEXT NOT NULL,\n"
        ++ (codes "\t\t\tcolumn_name TEXT NOT NULL,\n"
            ++ (codes "\t\t\tgeometry_type_name TEXT NOT NULL,\n"
                ++ (codes "\t\t\tsrs_id INTEGER NOT NULL,\n"
                    ++ (codes "\t\t\tz TINYINT NOT NULL,\n"
                        ++ (codes "\t\t\tm TINYINT NOT NULL,\n"
                            ++ (codes
                                  "\t\t\tCONSTRAINT pk_geom_cols PRIMARY KEY (table_name, column_name),\n"
                                ++ (codes
                                      "\t\t\tCONSTRAINT fk_gc_tn FOREIGN KEY (table_name) REFERENCES gpkg_contents(table_name),\n"
                                    ++ (codes
                                          "\t\t\tCONSTRAINT fk_gc_srs FOREIGN KEY (srs_id) REFERENCES gpkg_spatial_ref_sys(srs_id)\n"
                                        ++ (codes "\t\t)"))))))))))

abbrev pub tile_matrix_set_ddl : Bytes
tile_matrix_set_ddl =
    codes "CREATE TABLE IF NOT EXISTS gpkg_tile_matrix_set (\n"
    ++ (codes "\t\t\ttable_name TEXT NOT NULL PRIMARY KEY,\n"
        ++ (codes "\t\t\tsrs_id INTEGER NOT NULL,\n"
            ++ (codes "\t\t\tmin_x DOUBLE NOT NULL,\n"
                ++ (codes "\t\t\tmin_y DOUBLE NOT NULL,\n"
                    ++ (codes "\t\t\tmax_x DOUBLE NOT NULL,\n"
                        ++ (codes "\t\t\tmax_y DOUBLE NOT NULL,\n"
                            ++ (codes
                                  "\t\t\tCONSTRAINT fk_gtms_srs FOREIGN KEY (srs_id) REFERENCES gpkg_spatial_ref_sys(srs_id)\n"
                                ++ (codes "\t\t)"))))))))

abbrev pub tile_matrix_ddl : Bytes
tile_matrix_ddl =
    codes "CREATE TABLE IF NOT EXISTS gpkg_tile_matrix (\n"
    ++ (codes "\t\t\ttable_name TEXT NOT NULL,\n"
        ++ (codes "\t\t\tzoom_level INTEGER NOT NULL,\n"
            ++ (codes "\t\t\tmatrix_width INTEGER NOT NULL,\n"
                ++ (codes "\t\t\tmatrix_height INTEGER NOT NULL,\n"
                    ++ (codes "\t\t\ttile_width INTEGER NOT NULL,\n"
                        ++ (codes "\t\t\ttile_height INTEGER NOT NULL,\n"
                            ++ (codes "\t\t\tpixel_x_size DOUBLE NOT NULL,\n"
                                ++ (codes "\t\t\tpixel_y_size DOUBLE NOT NULL,\n"
                                    ++ (codes
                                          "\t\t\tCONSTRAINT pk_ttm PRIMARY KEY (table_name, zoom_level),\n"
                                        ++ (codes
                                              "\t\t\tCONSTRAINT fk_tm_tms FOREIGN KEY (table_name) REFERENCES gpkg_tile_matrix_set(table_name)\n"
                                            ++ (codes "\t\t)")))))))))))

abbrev pub metadata_ddl : List Bytes
metadata_ddl =
    crs_ddl ∷ contents_ddl ∷ geometry_columns_ddl ∷ tile_matrix_set_ddl ∷ tile_matrix_ddl ∷ []

-- The definition of WGS 84.
abbrev pub wgs_84 : CrsDefinition
wgs_84 = record {
  srs_id = 4326;
  auth_name = codes "EPSG";
  auth_code = 4326;
  wkt =
      codes
        "GEOGCS[\"WGS 84\",DATUM[\"WGS_1984\",SPHEROID[\"WGS 84\",6378137,298.257223563]],PRIMEM[\"Greenwich\",0],UNIT[\"degree\",0.0174532925199433]]";
}

-- The clauses of `CREATE TABLE`: the columns and the key columns.
abbrev pub separated : Bytes → Bytes → Bytes
separated sofar next = if ltb 0 (length sofar) then sofar ++ (codes ", " ++ next) else sofar ++ next

abbrev pub column_clause : TableColumnInfo → Bytes
column_clause c =
    quote_ident c.name
    ++ (codes " " ++ (c.type.db_type ++ (if c.is_not_null then codes " NOT NULL" else [])))

unfoldable pub table_clauses : Bytes → Bytes → List TableColumnInfo → Bytes × Bytes
table_clauses columns pkeys [] = (columns, pkeys)
table_clauses columns pkeys (c ∷ cs) =
    table_clauses (separated columns (column_clause c))
      (if c.is_primary_key then separated pkeys (quote_ident c.name) else pkeys) cs

unfoldable pub create_table_statement : TableSchema → Bytes
create_table_statement tbl =
    let (columns, pkeys) = table_clauses [] [] tbl.columns in
    codes "CREATE TABLE \"main\"."
    ++ (quote_ident tbl.name
        ++ (codes " ("
            ++ (columns
                ++ ((if ltb 0 (length pkeys)
                      then codes ", PRIMARY KEY (" ++ (pkeys ++ codes ")")
                      else [])
                    ++ codes ");"))))

abbrev pub column_at : ℕ → List TableColumnInfo → Result TableColumnInfo
column_at i [] = err index_panic
column_at zero (c ∷ cs) = ok c
column_at (suc i) (c ∷ cs) = column_at i cs

-- What the open database answers: a statement, the query for `InitSpatialMetadata`, which may change it, and
-- the number of definitions with an SRS id.
pub record Creator (S : Type 0) : Type 0 where
  pub exec : Bytes → List Argument → S → Answer ℕ × S
  pub init_spatial_metadata : S → Bool × S
  pub count_crs : ℕ → S → Answer ℕ

abbrev pub unit_of : {A : Type 0} → Result A → Result (Unit {0})
unit_of (ok a) = ok tt
unit_of (err e) = err e

module _ {S : Type 0} (db : Creator S) (decimal : ℕ → Bytes) where
  abbrev pub execute : Bytes → List Argument → Step S (Unit {0})
  execute sql arguments s = let (a, s') = db.exec sql arguments s in (unit_of (required a), s')

  abbrev pub insert_crs : Bool → CrsDefinition → Step S (Unit {0})
  insert_crs true crs = pure tt
  insert_crs false crs =
      execute (codes "INSERT INTO gpkg_spatial_ref_sys VALUES (?, ?, ?, ?, ?, '')") (
        string_value (crs.auth_name ++ (codes ":" ++ decimal crs.auth_code))
        ∷ int64_value crs.srs_id
        ∷ string_value crs.auth_name
        ∷ int64_value crs.auth_code
        ∷ string_value crs.wkt
        ∷ [])

  unfoldable pub add_gpkg_crs_definition : CrsDefinition → Step S (Unit {0})
  add_gpkg_crs_definition crs = do
    count ← λ s. (required (db.count_crs crs.srs_id s), s)
    insert_crs (ltb 0 count) crs

  abbrev pub geometry_arguments : TableSchema → TableColumnInfo → List Argument
  geometry_arguments tbl col =
      string_value tbl.name
      ∷ string_value col.name
      ∷ string_value col.geom_type
      ∷ int64_value col.geom_srs_id
      ∷ int64_value (if col.geom_has_z then 1 else 0)
      ∷ int64_value (if col.geom_has_m then 1 else 0)
      ∷ []

  unfoldable pub add_gpkg_spatial_table : TableSchema → Step S (Unit {0})
  add_gpkg_spatial_table tbl = elim (geometry_column tbl) [
    | none ↦ lift (err not_spatial)
    | some i ↦ (do
      col ← lift (column_at i tbl.columns)
      execute
          (codes
            "INSERT INTO gpkg_contents (table_name, data_type, identifier, min_x, min_y, max_x, max_y, srs_id) VALUES (?, 'features', ?, 0, 0, 0, 0, ?)")
          (string_value tbl.name ∷ string_value tbl.name ∷ int64_value col.geom_srs_id ∷ [])
      execute (codes "INSERT INTO gpkg_geometry_columns VALUES (?, ?, ?, ?, ?, ?)")
          (geometry_arguments tbl col))
  ]

  unfoldable pub run_all : List Bytes → Step S (Unit {0})
  run_all [] = pure tt
  run_all (sql ∷ rest) = do execute sql []; run_all rest

  -- The error of the last step is dropped.
  abbrev pub ignoring : Step S (Unit {0}) → Step S (Unit {0})
  ignoring m s = (ok tt, (m s).1)

  abbrev pub unless_done : Bool → Step S (Unit {0})
  unless_done true = pure tt
  unless_done false = do run_all metadata_ddl; ignoring (add_gpkg_crs_definition wgs_84)

  unfoldable pub init_spatial : Step S (Unit {0})
  init_spatial s = let (finished, s') = db.init_spatial_metadata s in unless_done finished s'

  abbrev pub is_spatial : Option ℕ → Bool
  is_spatial none = false
  is_spatial (some i) = true

  unfoldable pub create_table : TableSchema → Step S (Unit {0})
  create_table tbl = if skip_gpkg_table tbl.name then pure tt else (do
    if is_spatial (geometry_column tbl)
        then (do add_gpkg_crs_definition tbl.crs; add_gpkg_spatial_table tbl)
        else pure tt
    execute (create_table_statement tbl) [])

  unfoldable pub create_each : List TableSchema → Step S (Unit {0})
  create_each [] = pure tt
  create_each (tbl ∷ tables) = do create_table tbl; create_each tables

  unfoldable pub create_tables : List TableSchema → Step S (Unit {0})
  create_tables tables = do init_spatial; create_each tables
