-- ===== src/Rebase/Driver.antt =====
-- driver/rebase.go: `prepareNewChangeset` and `Rebase`, from the bytes of the two changesets to those
-- of the rebased one. The output file is the list of its bytes; after an error there is none.
use go_geodiff.Common.{ℕ, false, List, [], ◌∷◌, ◌++◌, if◌then◌else◌, Bytes, Option, none, some}
use go_geodiff.Common.Maps.{Map, lookup, insert, bytes_key}
use go_geodiff.Result.{Result, ok, err, index_panic, succeeded, ◌>>=◌}
use go_geodiff.Changeset.Types.{OperationType, ChangesetTable, ChangesetEntry, empty_table}
use go_geodiff.Changeset.Types
use go_geodiff.Changeset.Reader.{Reader, new_reader, is_empty, rewind, for_each}
use go_geodiff.Changeset.Writer.{new_writer}
use go_geodiff.Changeset.Stream.{Group, write_groups}
use go_geodiff.Rebase.{TableRebaseInfo, DatabaseRebaseInfo, RebaseMapping}
use go_geodiff.Rebase.Parse.{parse_old_changeset}
use go_geodiff.Rebase.Mapping.{find_mapping}
use go_geodiff.Rebase.Handlers.{
  Handled, ConflictFeature, handle_insert, handle_delete, handle_update,
}

pub record Prepared : Type 0 where
  pub table_definitions : Map Bytes ChangesetTable
  pub table_changes : Map Bytes (List ChangesetEntry)
  pub table_order : List Bytes
  pub conflicts : List ConflictFeature

abbrev pub define : ChangesetTable → Option ChangesetTable → Prepared → Prepared
define t (some u) s = s
define t none s = record s {
  table_definitions = insert t.name t s.table_definitions;
  table_order = s.table_order ++ (t.name ∷ []);
}

abbrev pub changes_or_empty : Option (List ChangesetEntry) → List ChangesetEntry
changes_or_empty none = []
changes_or_empty (some es) = es

-- `append(tableChanges[tableName], entry)`
unfoldable pub append_change : Bytes → ChangesetEntry → Prepared → Prepared
append_change table e s = record s {
  table_changes =
      insert table (changes_or_empty (lookup table s.table_changes) ++ (e ∷ [])) s.table_changes;
}

-- The zero value of the Go struct, which the handlers fill.
abbrev pub blank_entry : ChangesetEntry
blank_entry = record { op = Types.other 0; old_values = []; new_values = []; table = empty_table }

unfoldable pub handle_entry :
    OperationType
    → ChangesetEntry
    → RebaseMapping
    → TableRebaseInfo
    → List ConflictFeature
    → Result Handled
handle_entry Types.update e m info conflicts = handle_update e m info blank_entry conflicts
handle_entry Types.insert e m info conflicts = handle_insert e m blank_entry conflicts
handle_entry Types.delete e m info conflicts = handle_delete e m info blank_entry conflicts
handle_entry (Types.other b) e m info conflicts =
    ok (record { write = false; out = blank_entry; conflicts = conflicts })

abbrev pub keep_handled : ChangesetEntry → Result Handled → Prepared → Result (Unit {0}) × Prepared
keep_handled e (err x) s = (err x, s)
keep_handled e (ok h) s =
    let s' = record s { conflicts = h.conflicts } in
    (
      ok tt,
      if h.write then append_change e.table.name (record h.out { table = e.table }) s' else s',
    )

-- A table that theirs did not change keeps its entries.
abbrev pub prepare_in :
    RebaseMapping
    → ChangesetEntry
    → Option TableRebaseInfo
    → Prepared
    → Result (Unit {0}) × Prepared
prepare_in m e none s = (ok tt, append_change e.table.name e s)
prepare_in m e (some info) s = keep_handled e (handle_entry e.op e m info s.conflicts) s

unfoldable pub prepare_entry :
    RebaseMapping → DatabaseRebaseInfo → ChangesetEntry → Prepared → Result (Unit {0}) × Prepared
prepare_entry m db e s =
    prepare_in m e (lookup e.table.name db)
      (define e.table (lookup e.table.name s.table_definitions) s)

-- The tables with their changes, in the order of their first entries. Each name in it has a definition.
unfoldable pub groups_of : List Bytes → Prepared → Result (List Group)
groups_of [] s = ok []
groups_of (table ∷ tables) s = do
  t ← elim (lookup table s.table_definitions) [ none ↦ err index_panic | some t ↦ ok t ]
  rest ← groups_of tables s
  ok ((t, changes_or_empty (lookup table s.table_changes)) ∷ rest)

abbrev pub write_prepared : Result (Unit {0}) × Prepared → Result (Bytes × List ConflictFeature)
write_prepared (err x, s) = err x
write_prepared (ok u, s) = do
  gs ← groups_of s.table_order s
  writer ← succeeded (write_groups gs new_writer)
  ok (writer.out, s.conflicts)

unfoldable pub prepare_new_changeset :
    Reader → RebaseMapping → DatabaseRebaseInfo → Result (Bytes × List ConflictFeature)
prepare_new_changeset reader m db = write_prepared (
    for_each (prepare_entry m db) reader
      (record { table_definitions = []; table_changes = []; table_order = []; conflicts = [] }))

module _ (order : List ℕ → List ℕ) where
  unfoldable pub rebase : Bytes → Bytes → Result (Bytes × List ConflictFeature)
  rebase base_theirs base_ours =
      if is_empty (new_reader base_theirs)
      then ok (base_ours, [])
      else if is_empty (new_reader base_ours)
      then ok (base_theirs, [])
      else (do
        db ← succeeded (parse_old_changeset (new_reader base_theirs) [])
        search ← succeeded (find_mapping order (new_reader base_ours) db)
        prepare_new_changeset (rewind (new_reader base_ours)) search.mapping db)
