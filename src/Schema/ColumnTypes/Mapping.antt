-- ===== src/Schema/ColumnTypes/Mapping.antt =====
-- What `ColumnType` answers for any type, driver and logger.
use go_geodiff.Common.{
  ◌≡◌, ◌≢◌, refl, inl, inr, arith, Bool, true, false, ◌||◌, [], Bytes, equal_bytes, codes,
  if◌then◌else◌, Bool-cases,
}
use go_geodiff.Schema.{
  BaseType, base_text, base_integer, base_double, base_boolean, base_blob, base_date, base_datetime,
  base_geometry, TableColumnType,
}
use go_geodiff.Schema.ColumnTypes.{
  LogLevel, info, warning, Messages, driver_sqlite, driver_postgres, sqlite_base, postgres_base,
  to_base_column, sqlite_to_base_column, postgres_to_base_column, column_type,
}

-- A switch never answers a geometry, and what no case fits is a text.
abbrev IsPlain : BaseType × Bool → Type 0
IsPlain r = (r.0 ≢ base_geometry) × (r.1 ≡ true → r.0 ≡ base_text)

case-IsPlain :
    (b : Bool) (t : BaseType) (r : BaseType × Bool)
    → t ≢ base_geometry
    → IsPlain r
    → IsPlain (if b then (t, false) else r)
case-IsPlain true t r h hr = (h, λ e. cc)
case-IsPlain false t r h hr = hr

sqlite_base-IsPlain : (db : Bytes) → IsPlain (sqlite_base db)
unfolding sqlite_base
sqlite_base-IsPlain db =
    case-IsPlain _ base_integer _ (λ e. cc)
      (case-IsPlain _ base_double _ (λ e. cc)
        (case-IsPlain _ base_boolean _ (λ e. cc)
          (case-IsPlain _ base_text _ (λ e. cc)
            (case-IsPlain _ base_blob _ (λ e. cc)
              (case-IsPlain _ base_datetime _ (λ e. cc)
                (case-IsPlain _ base_date _ (λ e. cc) (((λ e. cc), λ _. refl))))))))

postgres_base-IsPlain : (db : Bytes) → IsPlain (postgres_base db)
unfolding postgres_base
postgres_base-IsPlain db =
    case-IsPlain _ base_integer _ (λ e. cc)
      (case-IsPlain _ base_double _ (λ e. cc)
        (case-IsPlain _ base_boolean _ (λ e. cc)
          (case-IsPlain _ base_text _ (λ e. cc)
            (case-IsPlain _ base_blob _ (λ e. cc)
              (case-IsPlain _ base_datetime _ (λ e. cc)
                (case-IsPlain _ base_date _ (λ e. cc) (((λ e. cc), λ _. refl))))))))

-- What is promised of the type and the messages.
abbrev pub Converts : Bool → Bytes → Bool → Bool → TableColumnType × Messages → Type 0
Converts has_logger type known is_geometry r =
    (r.0.db_type ≡ type)
    × (has_logger ≡ false → r.1 ≡ [])
    × (is_geometry ≡ false → r.0.base_type ≢ base_geometry)
    × (known ≡ true → is_geometry ≡ true → (r.0.base_type ≡ base_geometry) × (r.1 ≡ []))
    × (r.1 ≢ [] → r.0.base_type ≡ base_text)

to_base_column-Converts :
    (to_lower : Bytes → Bytes) (switch : Bytes → BaseType × Bool) (level : LogLevel)
    (product type : Bytes) (has_logger is_geometry : Bool)
    → ((db : Bytes) → IsPlain (switch db))
    → Converts has_logger type true is_geometry
        (to_base_column to_lower switch level product has_logger type is_geometry)
to_base_column-Converts to_lower switch level product type has_logger true plain =
    (refl, (λ _. refl), (λ e. cc), (λ _ _. (refl, refl)), λ h. absurd (h refl))
to_base_column-Converts to_lower switch level product type has_logger false plain =
    let (ng, text) = plain (to_lower type) in
    (refl, ground arith, (λ _. ng), (λ _ e. cc), ground (arith, text))

-- The type that `ColumnType` answers keeps the database's name of the type. Without a logger nothing is
-- said. Only a column that is marked as a geometry becomes one, and for a known driver each such column
-- does, silently. Where a message is logged the answer is text.
pub column_type-Converts :
    (to_lower : Bytes → Bytes) (has_logger : Bool) (type driver_name : Bytes) (is_geometry : Bool)
    → Converts has_logger type
        (equal_bytes driver_name driver_sqlite || equal_bytes driver_name driver_postgres)
        is_geometry
        (column_type to_lower has_logger type driver_name is_geometry)
unfolding column_type sqlite_to_base_column postgres_to_base_column
column_type-Converts to_lower has_logger type driver_name is_geometry =
    elim (Bool-cases (equal_bytes driver_name driver_sqlite)) [
      | inl e ↦ rw e (
          to_base_column-Converts to_lower sqlite_base info (codes "GeoPackage") type has_logger
            is_geometry sqlite_base-IsPlain)
      | inr e ↦ elim (Bool-cases (equal_bytes driver_name driver_postgres)) [
        | inl e' ↦
            rw (e, e')
              (to_base_column-Converts to_lower postgres_base warning (codes "PostgreSQL") type
                has_logger is_geometry postgres_base-IsPlain)
        | inr e' ↦ rw (e, e') (refl, ground arith, (λ _ h. cc), (λ h. cc), λ _. refl)
      ]
    ]
