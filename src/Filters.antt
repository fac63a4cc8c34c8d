-- ===== src/Filters.antt =====
-- geodiff/context.go: which tables an operation leaves aside. The context's lock makes each method one
-- step; its logger is not modelled. A Go set of names is a list.
pub mod Modes
use go_geodiff.Common.{Bool, true, false, not, List, [], ◌∷◌, Bytes}
use go_geodiff.Common.Maps.{contains, add, bytes_key}
use go_geodiff.Result.{Result, ok, err, tables_to_include_set, tables_to_skip_set}

pub data TablesFilterMode : Type 0 where
  filter_none filter_included filter_skipped : TablesFilterMode

pub record Context : Type 0 where
  pub filter_mode : TablesFilterMode
  pub tables_to_skip : List Bytes
  pub tables_to_include : List Bytes

abbrev pub new_context : Context
new_context = record { filter_mode = filter_none; tables_to_skip = []; tables_to_include = [] }

unfoldable pub set_of : List Bytes → List Bytes
set_of [] = []
set_of (t ∷ ts) = add t (set_of ts)

-- The rest of both setters: an empty list resets the filter.
abbrev pub skip_these : List Bytes → Context → Context
skip_these [] c = new_context
skip_these (t ∷ ts) c = record {
  filter_mode = filter_skipped;
  tables_to_skip = set_of (t ∷ ts);
  tables_to_include = [];
}

abbrev pub include_these : List Bytes → Context → Context
include_these [] c = new_context
include_these (t ∷ ts) c = record {
  filter_mode = filter_included;
  tables_to_skip = [];
  tables_to_include = set_of (t ∷ ts);
}

abbrev pub unless_included : TablesFilterMode → List Bytes → Context → Result (Unit {0}) × Context
unless_included filter_included tables c = (err tables_to_include_set, c)
unless_included _ tables c = (ok tt, skip_these tables c)

abbrev pub unless_skipped : TablesFilterMode → List Bytes → Context → Result (Unit {0}) × Context
unless_skipped filter_skipped tables c = (err tables_to_skip_set, c)
unless_skipped _ tables c = (ok tt, include_these tables c)

unfoldable pub set_tables_to_skip : List Bytes → Context → Result (Unit {0}) × Context
set_tables_to_skip tables c = unless_included c.filter_mode tables c

unfoldable pub set_tables_to_include : List Bytes → Context → Result (Unit {0}) × Context
set_tables_to_include tables c = unless_skipped c.filter_mode tables c

abbrev pub skipped_in : TablesFilterMode → Bytes → Context → Bool
skipped_in filter_included name c = not (contains name c.tables_to_include)
skipped_in filter_skipped name c = contains name c.tables_to_skip
skipped_in filter_none name c = false

unfoldable pub is_table_skipped : Bytes → Context → Bool
is_table_skipped name c = skipped_in c.filter_mode name c
