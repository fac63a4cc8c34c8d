-- ===== src/Tests/Apis.antt =====
-- geodiff/ and the geometry headers on concrete inputs.
use go_geodiff.Common.{◌≡◌, arith, ltb, true, false, List, [], ◌∷◌, ◌++◌, Bytes, codes, length}
use go_geodiff.Result.{ok}
use go_geodiff.Changeset.Types.{int, text, insert, ChangesetTable, ChangesetEntry}
use go_geodiff.Changeset.Stream.{Group, stored_entries}
use go_geodiff.Changeset.Stream.RoundTrip.{written}
use go_geodiff.Filters.{new_context}
use go_geodiff.Filters.Modes.{
  Call, to_skip, to_include, call, started, called, IsConsistent, reachable-IsConsistent, Filters,
  call-Filters,
}
use go_geodiff.Geometry.{read_gpkg_header, create_wkb_from_gpkg_header}
use go_geodiff.Geometry.Header.{Strips, header_readers-Strips}
use go_geodiff.Api.{has_changes, changes_count}
use go_geodiff.Api.Counting.{changes_count-written}

abbrev skip_notes : Call
skip_notes = to_skip (codes "notes" ∷ [])

abbrev only_trees : Call
only_trees = to_include (codes "trees" ∷ [])

-- The second call is refused.
reachable-IsConsistent_example : IsConsistent (call only_trees (call skip_notes new_context).1).1
reachable-IsConsistent_example =
    reachable-IsConsistent (call only_trees (call skip_notes new_context).1).1
      (called only_trees (call skip_notes new_context).1 (called skip_notes new_context started))

call-Filters_example : Filters (codes "trees") only_trees new_context (call only_trees new_context)
call-Filters_example = call-Filters (codes "trees") only_trees new_context

-- A header without an envelope, and a body of one byte.
abbrev blob : Bytes
blob = codes "GP" ++ (0 ∷ 1 ∷ 0 ∷ 0 ∷ 0 ∷ 0 ∷ 7 ∷ [])

header_readers-Strips_example :
    Strips blob (read_gpkg_header blob) (create_wkb_from_gpkg_header blob)
header_readers-Strips_example = header_readers-Strips blob

abbrev points : ChangesetTable
points = record { name = codes "points"; primary_keys = true ∷ false ∷ [] }

abbrev add_row : ChangesetEntry
add_row = record {
  op = insert;
  old_values = [];
  new_values = int 1 ∷ text (codes "a") ∷ [];
  table = points;
}

abbrev groups : List Group
groups = (points, add_row ∷ []) ∷ []

changes_count-written_example :
    (changes_count (written groups) ≡ ok (length (stored_entries groups)))
    × (has_changes (written groups) ≡ ltb 0 (length (stored_entries groups)))
changes_count-written_example = changes_count-written groups (ground arith)
