-- ===== src/Schema.antt =====
-- schema/table.go: columns, coordinate systems and tables. The Go methods return -1 for a column that
-- is not found; the model returns `none`. An SRS id is a number, compared and passed on only.
pub mod Compare
pub mod ColumnTypes
use go_geodiff.Common.{
  ℕ, zero, suc, ◌==◌, Bool, true, false, not, ◌&&◌, ◌||◌, List, [], ◌∷◌, if◌then◌else◌, Bytes,
  codes, equal_bytes, length, Option, none, some, map,
}

pub data BaseType : Type 0 where
  base_text base_integer base_double base_boolean base_blob base_geometry base_date base_datetime :
      BaseType

-- The number of the constant.
abbrev pub base_number : BaseType → ℕ
base_number base_text = 0
base_number base_integer = 1
base_number base_double = 2
base_number base_boolean = 3
base_number base_blob = 4
base_number base_geometry = 5
base_number base_date = 6
base_number base_datetime = 7

-- `==` on base types.
abbrev pub same_base : BaseType → BaseType → Bool
same_base s t = base_number s == base_number t

abbrev pub base_type_string : BaseType → Bytes
base_type_string base_text = codes "text"
base_type_string base_integer = codes "integer"
base_type_string base_double = codes "double"
base_type_string base_boolean = codes "boolean"
base_type_string base_blob = codes "blob"
base_type_string base_geometry = codes "geometry"
base_type_string base_date = codes "date"
base_type_string base_datetime = codes "datetime"

pub record TableColumnType : Type 0 where
  pub base_type : BaseType
  pub db_type : Bytes

pub record TableColumnInfo : Type 0 where
  pub name : Bytes
  pub type : TableColumnType
  pub is_primary_key : Bool
  pub is_not_null : Bool
  pub is_auto_increment : Bool
  pub is_geometry : Bool
  pub geom_type : Bytes
  pub geom_srs_id : ℕ
  pub geom_has_z : Bool
  pub geom_has_m : Bool

-- `==` on Booleans.
abbrev pub same_bool : Bool → Bool → Bool
same_bool true b = b
same_bool false b = not b

-- What the two comparisons of columns share.
unfoldable pub same_details : TableColumnInfo → TableColumnInfo → Bool
same_details a b =
    same_bool a.is_primary_key b.is_primary_key
    && (same_bool a.is_not_null b.is_not_null
        && (same_bool a.is_auto_increment b.is_auto_increment
            && (same_bool a.is_geometry b.is_geometry
                && (equal_bytes a.geom_type b.geom_type
                    && (a.geom_srs_id == b.geom_srs_id
                        && (same_bool a.geom_has_z b.geom_has_z
                            && same_bool a.geom_has_m b.geom_has_m))))))

-- `TableColumnInfo.CompareWithBaseTypes`
unfoldable pub compare_column : TableColumnInfo → TableColumnInfo → Bool
compare_column a b =
    equal_bytes a.name b.name && (same_base a.type.base_type b.type.base_type && same_details a b)

-- The test in the loop of `TableSchema.Equal`, with both parts of the type.
unfoldable pub equal_column : TableColumnInfo → TableColumnInfo → Bool
equal_column a b =
    equal_bytes a.name b.name
    && ((same_base a.type.base_type b.type.base_type && equal_bytes a.type.db_type b.type.db_type)
        && same_details a b)

unfoldable pub set_geometry : Bytes → ℕ → Bool → Bool → TableColumnInfo → TableColumnInfo
set_geometry geom_type_name srs_id has_m has_z c = record c {
  type = record c.type { base_type = base_geometry };
  is_geometry = true;
  geom_type = geom_type_name;
  geom_srs_id = srs_id;
  geom_has_m = has_m;
  geom_has_z = has_z;
}

pub record CrsDefinition : Type 0 where
  pub srs_id : ℕ
  pub auth_name : Bytes
  pub auth_code : ℕ
  pub wkt : Bytes

-- `CrsDefinition.Equal` leaves the WKT out.
unfoldable pub equal_crs : CrsDefinition → CrsDefinition → Bool
equal_crs a b =
    a.srs_id == b.srs_id && (equal_bytes a.auth_name b.auth_name && a.auth_code == b.auth_code)

pub record TableSchema : Type 0 where
  pub name : Bytes
  pub columns : List TableColumnInfo
  pub crs : CrsDefinition

unfoldable pub any_primary_key : List TableColumnInfo → Bool
any_primary_key [] = false
any_primary_key (c ∷ cs) = let rest = any_primary_key cs in if c.is_primary_key then true else rest

abbrev pub has_primary_key : TableSchema → Bool
has_primary_key t = any_primary_key t.columns

-- The index of the first column that a test accepts.
unfoldable pub first_column : (TableColumnInfo → Bool) → List TableColumnInfo → Option ℕ
first_column test [] = none
first_column test (c ∷ cs) =
    let rest = first_column test cs in
    if test c then some 0 else elim rest [ none ↦ none | some i ↦ some (suc i) ]

abbrev pub column_from_name : TableSchema → Bytes → Option ℕ
column_from_name t name = first_column (λ c. equal_bytes c.name name) t.columns

abbrev pub geometry_column : TableSchema → Option ℕ
geometry_column t = first_column (λ c. c.is_geometry) t.columns

-- The loop over two column lists of one length.
unfoldable pub all_columns :
    (TableColumnInfo → TableColumnInfo → Bool) → List TableColumnInfo → List TableColumnInfo → Bool
all_columns test (a ∷ as') (b ∷ bs) =
    let rest = all_columns test as' bs in if test a b then rest else false
all_columns test _ _ = true

abbrev pub compare_tables :
    (TableColumnInfo → TableColumnInfo → Bool) → TableSchema → TableSchema → Bool
compare_tables test s t =
    if not (equal_bytes s.name t.name)
      || (not (equal_crs s.crs t.crs) || not (length s.columns == length t.columns))
    then false
    else all_columns test s.columns t.columns

unfoldable pub equal : TableSchema → TableSchema → Bool
equal s t = compare_tables equal_column s t

unfoldable pub compare_with_base_types : TableSchema → TableSchema → Bool
compare_with_base_types s t = compare_tables compare_column s t

-- driver/sqlite.go
unfoldable pub key_flags : List TableColumnInfo → List Bool
key_flags [] = []
key_flags (c ∷ cs) = c.is_primary_key ∷ key_flags cs
