-- ===== src/Tests/Catalogs.antt =====
-- Reading the schema of a table, and making one, on concrete databases.
use go_geodiff.Common.{ℕ, ◌≡◌, refl, true, false, [], ◌∷◌, Bytes, codes, none, some}
use go_geodiff.Schema.{TableColumnInfo, TableSchema, base_integer}
use go_geodiff.Driver.{answered}
use go_geodiff.Driver.Schemas.{InfoRow, Catalog}
use go_geodiff.Driver.Tables.{table_clauses, create_table_statement}
use go_geodiff.Driver.Sql.{quote_ident}
use go_geodiff.Common.Text.{replace_byte}

abbrev same_letters : Bytes → Bytes
same_letters s = s

abbrev digits : ℕ → Bytes
digits n = n ∷ []

abbrev fid_row : InfoRow
fid_row = record { name = codes "fid"; col_type = codes "integer"; not_null = 1; pk = 1 }

-- A table without geometries.
abbrev catalog : Catalog
catalog = record {
  has_modified = false;
  names = λ query. answered (record { rows = tt ∷ []; ended_by = none });
  table_info = λ query. answered (record { rows = some fid_row ∷ []; ended_by = none });
  geometry_columns = λ query. answered (record { rows = []; ended_by = none });
  spatial_ref_sys = λ query. answered (record { rows = []; ended_by = none });
}

abbrev fid_column : TableColumnInfo
fid_column = record {
  name = codes "fid";
  type = record { base_type = base_integer; db_type = codes "integer" };
  is_primary_key = true;
  is_not_null = true;
  is_auto_increment = true;
  is_geometry = false;
  geom_type = [];
  geom_srs_id = 0;
  geom_has_z = false;
  geom_has_m = false;
}

abbrev fid_table : TableSchema
fid_table = record {
  name = codes "t";
  columns = fid_column ∷ [];
  crs = record { srs_id = 0; auth_name = []; auth_code = 0; wkt = [] };
}

fid_table_made :
    create_table_statement fid_table
    ≡ codes "CREATE TABLE \"main\".\"t\" (\"fid\" integer NOT NULL, PRIMARY KEY (\"fid\"));"
unfolding create_table_statement table_clauses quote_ident replace_byte
fid_table_made = refl
