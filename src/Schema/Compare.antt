-- ===== src/Schema/Compare.antt =====
-- The comparisons of schemas.
use go_geodiff.Common.{
  ℕ, zero, suc, ◌<◌, ◌≡◌, ◌↔◌, refl, ap, inl, inr, arith, ◌==◌, ==_iff, Bool, true, false, ◌&&◌,
  List, [], ◌∷◌, Bytes, equal_bytes, equal_bytes_iff, equal_bytes_refl, length, get_elem?, Option,
  none, some, Bool-cases, map,
}
use go_geodiff.Schema.{
  BaseType, base_number, same_base, TableColumnInfo, same_bool, same_details, compare_column,
  equal_column, equal_crs, TableSchema, first_column, column_from_name, geometry_column,
  all_columns, equal, compare_with_base_types,
}

-- A table without its columns' database types, and without its WKT.
abbrev pub forget_column : TableColumnInfo → TableColumnInfo
forget_column c = record c { type = record c.type { db_type = [] } }

abbrev pub forget_types : TableSchema → TableSchema
forget_types t = record t { columns = map forget_column t.columns }

abbrev pub forget_wkt : TableSchema → TableSchema
forget_wkt t = record t { crs = record t.crs { wkt = [] } }

base_number-inj : (s t : BaseType) → base_number s ≡ base_number t → s ≡ t
base_number-inj s t h = ground arith

same_bool→eq : (a b : Bool) → same_bool a b ≡ true → a ≡ b
same_bool→eq a b h = ground arith

same_bool_refl : (a : Bool) → same_bool a a ≡ true
same_bool_refl a = ground arith

and-true : (b : Bool) → (b && true) ≡ b
and-true b = ground arith

compare_column-equal :
    (a b : TableColumnInfo) → compare_column a b ≡ equal_column (forget_column a) (forget_column b)
unfolding compare_column equal_column same_details equal_bytes
compare_column-equal a b = rw and-true refl

both : (a b : Bool) → (a && b) ≡ true → (a ≡ true) × (b ≡ true)
both a b h = ground arith

same_base→eq : (s t : BaseType) → same_base s t ≡ true → s ≡ t
same_base→eq s t h = base_number-inj s t (ground arith)

same_details→eq :
    (a b : TableColumnInfo)
    → same_details a b ≡ true
    → (a.is_primary_key ≡ b.is_primary_key)
      × (a.is_not_null ≡ b.is_not_null)
      × (a.is_auto_increment ≡ b.is_auto_increment)
      × (a.is_geometry ≡ b.is_geometry)
      × (a.geom_type ≡ b.geom_type)
      × (a.geom_srs_id ≡ b.geom_srs_id)
      × (a.geom_has_z ≡ b.geom_has_z)
      × (a.geom_has_m ≡ b.geom_has_m)
unfolding same_details
same_details→eq a b h =
    let (h_pk, r3) = both (same_bool a.is_primary_key b.is_primary_key) _ h in
    let (h_null, r4) = both (same_bool a.is_not_null b.is_not_null) _ r3 in
    let (h_auto, r5) = both (same_bool a.is_auto_increment b.is_auto_increment) _ r4 in
    let (h_geom, r6) = both (same_bool a.is_geometry b.is_geometry) _ r5 in
    let (h_type, r7) = both (equal_bytes a.geom_type b.geom_type) _ r6 in
    let (h_srs, r8) = both (a.geom_srs_id == b.geom_srs_id) _ r7 in
    let (h_z, h_m) =
      both (same_bool a.geom_has_z b.geom_has_z) (same_bool a.geom_has_m b.geom_has_m) r8 in
    (
      same_bool→eq a.is_primary_key b.is_primary_key h_pk,
      same_bool→eq a.is_not_null b.is_not_null h_null,
      same_bool→eq a.is_auto_increment b.is_auto_increment h_auto,
      same_bool→eq a.is_geometry b.is_geometry h_geom,
      (equal_bytes_iff a.geom_type b.geom_type).0 h_type,
      (==_iff a.geom_srs_id b.geom_srs_id).0 h_srs,
      same_bool→eq a.geom_has_z b.geom_has_z h_z,
      same_bool→eq a.geom_has_m b.geom_has_m h_m,
    )

equal_column→eq : (a b : TableColumnInfo) → equal_column a b ≡ true → a ≡ b
unfolding equal_column
equal_column→eq a b h =
    let (h_name, r1) = both (equal_bytes a.name b.name) _ h in
    let (h_types, r2) =
      both
        (same_base a.type.base_type b.type.base_type && equal_bytes a.type.db_type b.type.db_type)
        (same_details a b) r1 in
    let (h_base, h_db) =
      both (same_base a.type.base_type b.type.base_type) (equal_bytes a.type.db_type b.type.db_type)
        h_types in
    let (e_pk, e_null, e_auto, e_geom, e_type, e_srs, e_z, e_m) = same_details→eq a b r2 in
    λ i. record {
      name = (equal_bytes_iff a.name b.name).0 h_name i;
      type = record {
        base_type = same_base→eq a.type.base_type b.type.base_type h_base i;
        db_type = (equal_bytes_iff a.type.db_type b.type.db_type).0 h_db i;
      };
      is_primary_key = e_pk i;
      is_not_null = e_null i;
      is_auto_increment = e_auto i;
      is_geometry = e_geom i;
      geom_type = e_type i;
      geom_srs_id = e_srs i;
      geom_has_z = e_z i;
      geom_has_m = e_m i;
    }

equal_column_refl : (a : TableColumnInfo) → equal_column a a ≡ true
unfolding equal_column same_details
equal_column_refl a = ground (
  arith,
  equal_bytes_refl a.name,
  equal_bytes_refl a.type.db_type,
  equal_bytes_refl a.geom_type,
  same_bool_refl a.is_primary_key,
  same_bool_refl a.is_not_null,
  same_bool_refl a.is_auto_increment,
  same_bool_refl a.is_geometry,
  same_bool_refl a.geom_has_z,
  same_bool_refl a.geom_has_m,
)

columns→eq :
    (as' bs : List TableColumnInfo)
    → length as' ≡ length bs
    → all_columns equal_column as' bs ≡ true
    → as' ≡ bs
unfolding all_columns
columns→eq [] [] l h = refl
columns→eq (a ∷ as') (b ∷ bs) l h = ground (arith, equal_column→eq a b, columns→eq as' bs)
columns→eq _ _ l h = ground arith

columns_refl : (as' : List TableColumnInfo) → all_columns equal_column as' as' ≡ true
unfolding all_columns
columns_refl [] = refl
columns_refl (a ∷ as') = ground (arith, equal_column_refl a, columns_refl as')

equal→eq_but_wkt : (s t : TableSchema) → equal s t ≡ true → forget_wkt s ≡ forget_wkt t
unfolding equal equal_crs
equal→eq_but_wkt s t h = ground (
  arith,
  equal_bytes_iff s.name t.name,
  equal_bytes_iff s.crs.auth_name t.crs.auth_name,
  columns→eq s.columns t.columns,
)

eq_but_wkt→equal : (s t : TableSchema) → forget_wkt s ≡ forget_wkt t → equal s t ≡ true
unfolding equal equal_crs
eq_but_wkt→equal s t h =
    let en : s.name ≡ t.name = ap (λ (r : TableSchema). r.name) h in
    let ec : s.columns ≡ t.columns = ap (λ (r : TableSchema). r.columns) h in
    let e1 : s.crs.srs_id ≡ t.crs.srs_id = ap (λ (r : TableSchema). r.crs.srs_id) h in
    let e2 : s.crs.auth_name ≡ t.crs.auth_name = ap (λ (r : TableSchema). r.crs.auth_name) h in
    let e3 : s.crs.auth_code ≡ t.crs.auth_code = ap (λ (r : TableSchema). r.crs.auth_code) h in
    ground (
      arith,
      equal_bytes_iff s.name t.name,
      equal_bytes_iff s.crs.auth_name t.crs.auth_name,
      columns_refl t.columns,
    )

-- `TableSchema.Equal` holds exactly for tables that are the same up to the WKT of their coordinate
-- systems.
pub equal_iff : (s t : TableSchema) → (equal s t ≡ true) ↔ (forget_wkt s ≡ forget_wkt t)
equal_iff s t = (equal→eq_but_wkt s t, eq_but_wkt→equal s t)

length-map : (as' : List TableColumnInfo) → length (map forget_column as') ≡ length as'
length-map [] = refl
length-map (a ∷ as') = omega (arith, length-map as')

all_columns-forget :
    (as' bs : List TableColumnInfo)
    → all_columns compare_column as' bs
      ≡ all_columns equal_column (map forget_column as') (map forget_column bs)
unfolding all_columns
all_columns-forget [] bs = refl
all_columns-forget (a ∷ as') [] = refl
all_columns-forget (a ∷ as') (b ∷ bs) =
    rw (compare_column-equal a b, all_columns-forget as' bs) refl

-- `TableSchema.CompareWithBaseTypes` is `TableSchema.Equal` after the database's own names of the column
-- types are forgotten.
pub compare_with_base_types-equal :
    (s t : TableSchema) → compare_with_base_types s t ≡ equal (forget_types s) (forget_types t)
unfolding equal compare_with_base_types
compare_with_base_types-equal s t =
    rw (length-map s.columns, length-map t.columns, all_columns-forget s.columns t.columns) refl

-- What the search for a column answers: the first index at which the test holds.
abbrev pub IsFirst : (TableColumnInfo → Bool) → List TableColumnInfo → Option ℕ → Type 0
IsFirst test cs none = (i : ℕ) (c : TableColumnInfo) → get_elem? cs i ≡ some c → test c ≡ false
IsFirst test cs (some i) =
    ((c : TableColumnInfo) × (get_elem? cs i ≡ some c) × (test c ≡ true))
    × ((j : ℕ) (c : TableColumnInfo) → j < i → get_elem? cs j ≡ some c → test c ≡ false)

later :
    (test : TableColumnInfo → Bool) (c : TableColumnInfo) (cs : List TableColumnInfo) (o : Option ℕ)
    → test c ≡ false
    → IsFirst test cs o
    → IsFirst test (c ∷ cs) (elim o [ none ↦ none | some i ↦ some (suc i) ])
later test c cs none e h = absent
  where
    absent : (i : ℕ) (d : TableColumnInfo) → get_elem? (c ∷ cs) i ≡ some d → test d ≡ false
    absent zero d g = ground (arith, e)
    absent (suc i) d g = h i d g
later test c cs (some k) e (found, before) = (found, earlier)
  where
    earlier :
        (j : ℕ) (d : TableColumnInfo) → j < suc k → get_elem? (c ∷ cs) j ≡ some d → test d ≡ false
    earlier zero d lt g = ground (arith, e)
    earlier (suc j) d lt g = before j d (omega arith) g

first_column-IsFirst :
    (test : TableColumnInfo → Bool) (cs : List TableColumnInfo)
    → IsFirst test cs (first_column test cs)
unfolding first_column
first_column-IsFirst test [] = λ i c h. cc
first_column-IsFirst test (c ∷ cs) = elim (Bool-cases (test c)) [
  | inl e ↦ rw e ((c, refl, e), λ j c' lt h. absurd (omega arith))
  | inr e ↦ rw e (later test c cs (first_column test cs) e (first_column-IsFirst test cs))
]

-- `ColumnFromName` answers the first column of that name, and says that there is none only where there
-- is none; `GeometryColumn` does the same for geometry columns.
pub column_search-IsFirst :
    (t : TableSchema) (name : Bytes)
    → IsFirst (λ c. equal_bytes c.name name) t.columns (column_from_name t name)
      × IsFirst (λ c. c.is_geometry) t.columns (geometry_column t)
column_search-IsFirst t name = (
  first_column-IsFirst (λ c. equal_bytes c.name name) t.columns,
  first_column-IsFirst (λ c. c.is_geometry) t.columns,
)
