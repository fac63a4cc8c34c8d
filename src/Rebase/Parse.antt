-- ===== src/Rebase/Parse.antt =====
-- driver/rebase.go: `parseOldChangeset`, which records the changes of theirs by table and primary key.
-- Its loop is the one around `NextEntry`; the table's record is shared with the map in Go, and is put
-- back into it here.
pub mod Records
use go_geodiff.Common.{ℕ, List, [], Option, none, some, Bytes}
use go_geodiff.Common.Maps.{Map, lookup, insert, add, nat_key, bytes_key}
use go_geodiff.Result.{Result, ok, err}
use go_geodiff.Changeset.Types.{OperationType, ChangesetEntry}
use go_geodiff.Changeset.Types
use go_geodiff.Changeset.Reader.{Reader, for_each}
use go_geodiff.Rebase.{TableRebaseInfo, DatabaseRebaseInfo, get_primary_key}

abbrev pub new_info : TableRebaseInfo
new_info = record { inserted = []; deleted = []; updated = [] }

abbrev pub info_or_new : Option TableRebaseInfo → TableRebaseInfo
info_or_new none = new_info
info_or_new (some info) = info

-- The switch on the operation.
abbrev pub record_change : OperationType → ℕ → ChangesetEntry → TableRebaseInfo → TableRebaseInfo
record_change Types.insert pk e info = record info { inserted = add pk info.inserted }
record_change Types.delete pk e info = record info { deleted = add pk info.deleted }
record_change Types.update pk e info = record info { updated = insert pk e.new_values info.updated }
record_change (Types.other b) pk e info = info

-- A table is entered before its key is looked at, so an error leaves it in the map.
abbrev pub record_keyed :
    Result ℕ
    → ChangesetEntry
    → TableRebaseInfo
    → DatabaseRebaseInfo
    → Result (Unit {0}) × DatabaseRebaseInfo
record_keyed (err x) e info db = (err x, insert e.table.name info db)
record_keyed (ok pk) e info db = (ok tt, insert e.table.name (record_change e.op pk e info) db)

unfoldable pub parse_old_entry :
    ChangesetEntry → DatabaseRebaseInfo → Result (Unit {0}) × DatabaseRebaseInfo
parse_old_entry e db = record_keyed (get_primary_key e) e (info_or_new (lookup e.table.name db)) db

unfoldable pub parse_old_changeset :
    Reader → DatabaseRebaseInfo → Result (Unit {0}) × DatabaseRebaseInfo
parse_old_changeset reader db = for_each parse_old_entry reader db
