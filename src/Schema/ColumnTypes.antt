-- ===== src/Schema/ColumnTypes.antt =====
-- schema/table.go: from a database's column type to a base type. `strings.ToLower` is a parameter, and
-- a logger's messages are answered beside the type; with no logger there are none.
pub mod Mapping
use go_geodiff.Common.{
  Bool, true, false, ◌||◌, List, [], ◌∷◌, ◌++◌, if◌then◌else◌, Bytes, codes, equal_bytes,
}
use go_geodiff.Common.Text.{is_one_of, has_one_of}
use go_geodiff.Schema.{
  BaseType, base_text, base_integer, base_double, base_boolean, base_blob, base_geometry, base_date,
  base_datetime, TableColumnType,
}

pub data LogLevel : Type 0 where
  info warning error : LogLevel

abbrev pub Messages : Type 0
Messages = List (LogLevel × Bytes)

abbrev pub logged : Bool → LogLevel → Bytes → Messages
logged has_logger level msg = if has_logger then (level, msg) ∷ [] else []

abbrev pub driver_sqlite : Bytes
driver_sqlite = codes "sqlite"

abbrev pub driver_postgres : Bytes
driver_postgres = codes "postgres"

-- The two switches; the flag says that no case fits.
unfoldable pub sqlite_base : Bytes → BaseType × Bool
sqlite_base db =
    if is_one_of db (
      codes "int"
      ∷ codes "integer"
      ∷ codes "smallint"
      ∷ codes "mediumint"
      ∷ codes "bigint"
      ∷ codes "tinyint"
      ∷ [])
    then (base_integer, false)
    else if is_one_of db
        (codes "double" ∷ codes "real" ∷ codes "double precision" ∷ codes "float" ∷ [])
    then (base_double, false)
    else if is_one_of db (codes "bool" ∷ codes "boolean" ∷ [])
    then (base_boolean, false)
    else if is_one_of db (codes "text" ∷ [])
        || has_one_of db (codes "text(" ∷ codes "varchar(" ∷ [])
    then (base_text, false)
    else if is_one_of db (codes "blob" ∷ [])
    then (base_blob, false)
    else if is_one_of db (codes "datetime" ∷ [])
    then (base_datetime, false)
    else if is_one_of db (codes "date" ∷ [])
    then (base_date, false)
    else (base_text, true)

unfoldable pub postgres_base : Bytes → BaseType × Bool
postgres_base db =
    if is_one_of db (codes "integer" ∷ codes "smallint" ∷ codes "bigint" ∷ [])
    then (base_integer, false)
    else if is_one_of db (codes "double precision" ∷ codes "real" ∷ [])
        || has_one_of db (codes "numeric" ∷ codes "decimal" ∷ [])
    then (base_double, false)
    else if is_one_of db (codes "boolean" ∷ [])
    then (base_boolean, false)
    else if is_one_of db (
          codes "text"
          ∷ codes "varchar"
          ∷ codes "character varying"
          ∷ codes "char"
          ∷ codes "citetext"
          ∷ codes "uuid"
          ∷ [])
        || has_one_of db (
            codes "text("
            ∷ codes "varchar("
            ∷ codes "character varying("
            ∷ codes "char("
            ∷ codes "character("
            ∷ [])
    then (base_text, false)
    else if is_one_of db (codes "bytea" ∷ [])
    then (base_blob, false)
    else if is_one_of db (codes "timestamp without time zone" ∷ [])
    then (base_datetime, false)
    else if is_one_of db (codes "date" ∷ [])
    then (base_date, false)
    else (base_text, true)

module _ (to_lower : Bytes → Bytes) where
  -- What both parsers do around their switch.
  abbrev pub to_base_column :
      (Bytes → BaseType × Bool)
      → LogLevel
      → Bytes
      → Bool
      → Bytes
      → Bool
      → TableColumnType × Messages
  to_base_column switch level product has_logger column_type true =
      (record { base_type = base_geometry; db_type = column_type }, [])
  to_base_column switch level product has_logger column_type false =
      let (base, unknown) = switch (to_lower column_type) in
      (
        record { base_type = base; db_type = column_type },
        if unknown
            then logged has_logger level (
                codes "Converting "
                ++ (product
                    ++ (codes " type "
                        ++ (column_type ++ codes " to base type unsuccessful, using text."))))
            else [],
      )

  unfoldable pub sqlite_to_base_column : Bool → Bytes → Bool → TableColumnType × Messages
  sqlite_to_base_column = to_base_column sqlite_base info (codes "GeoPackage")

  unfoldable pub postgres_to_base_column : Bool → Bytes → Bool → TableColumnType × Messages
  postgres_to_base_column = to_base_column postgres_base warning (codes "PostgreSQL")

  unfoldable pub column_type : Bool → Bytes → Bytes → Bool → TableColumnType × Messages
  unfolding sqlite_to_base_column postgres_to_base_column
  column_type has_logger type driver_name is_geometry =
      if equal_bytes driver_name driver_sqlite
      then sqlite_to_base_column has_logger type is_geometry
      else if equal_bytes driver_name driver_postgres
      then postgres_to_base_column has_logger type is_geometry
      else (
        record { base_type = base_text; db_type = type },
        logged has_logger error (
            codes "Unknown driver name "
            ++ (driver_name ++ codes " in ColumnType, using text fallback")),
      )
