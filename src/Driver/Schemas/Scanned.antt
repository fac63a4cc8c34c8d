-- ===== src/Driver/Schemas/Scanned.antt =====
-- What `TableSchema` answers, against the rows that the database gives it.
use go_geodiff.Common.{
  ◌==◌, length, All, ℕ, ◌≡◌, ◌∷◌, ◌++◌, true, false, [], Bytes, codes, Option, none, some,
}
use go_geodiff.Common.Text.{replace_byte}
use go_geodiff.Common.Maps.{bytes_key}
use go_geodiff.Result.{Result, ok, err}
use go_geodiff.Result
use go_geodiff.Schema.{TableSchema}
use go_geodiff.Driver.{answered}
use go_geodiff.Driver.Diff.{Side, Rows, database_name}
use go_geodiff.Driver.Schemas.{InfoRow, Catalog, surely, table_exists}
use go_geodiff.Driver.Schemas.Columns.{AreColumns}

module _ (to_lower : Bytes → Bytes) (db : Catalog) (decimal : ℕ → Bytes) where
  -- The statement that lists the columns of a table, with the quotes of its name doubled.
  abbrev columns_of : Bytes → Bytes → Bytes
  columns_of db_name table_name =
      codes "PRAGMA '"
      ++ (db_name
          ++ (codes "'.table_info('" ++ (replace_byte 39 (39 ∷ 39 ∷ []) table_name ++ codes "')")))

  -- The schema that is answered, against the rows that the database of the side gives for the table.
  abbrev Lists : Bytes → Side → Result TableSchema → Type 0
  Lists table_name side (err e) = Unit {0}
  Lists table_name side (ok tbl) =
      (db_name : Bytes) × (database_name db.has_modified side ≡ ok db_name)
      × (found : Rows (Option InfoRow)) × (db.table_info (columns_of db_name table_name)
          ≡ answered found)
      × (found.ended_by ≡ none)
      × (tbl.name ≡ table_name)
      × AreColumns found.rows tbl.columns

  -- A row that was scanned and has a name.
  abbrev Named : Option InfoRow → Type 0
  Named none = ⊥
  Named (some r) = (length r.name == 0) ≡ false

  -- The database of the side is open, has the table and lists its columns to the end, each with a name; and
  -- it has no geometry columns.
  abbrev pub IsPlain : Bytes → Side → Type 0
  IsPlain table_name side =
      (db_name : Bytes) × (database_name db.has_modified side ≡ ok db_name)
      × (table_exists to_lower db decimal table_name db_name ≡ ok true)
      × (surely to_lower db decimal
            (table_exists to_lower db decimal (codes "gpkg_geometry_columns") db_name)
          ≡ false)
      × (found : Rows (Option InfoRow)) × (db.table_info (columns_of db_name table_name)
          ≡ answered found)
      × All Named found.rows
      × (found.ended_by ≡ none)

  abbrev pub IsScanned : Bytes → Side → Result TableSchema → Type 0
  IsScanned table_name side (err e) = ¬ IsPlain table_name side
  IsScanned table_name side (ok tbl) = Lists table_name side (ok tbl)
