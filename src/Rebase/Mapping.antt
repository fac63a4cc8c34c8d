-- ===== src/Rebase/Mapping.antt =====
-- driver/rebase.go: `findMappingForNewChangeset`, which chooses new keys for our inserts. The keys of a
-- Go map come in no fixed order: `order` is the order in which the last loop meets the inserts that are
-- left. The loop over the tables needs none, since the tables are apart.
pub mod Keys
pub mod Apart
use go_geodiff.Common.{
  ℕ, Bool, true, false, ◌==◌, List, [], ◌∷◌, if◌then◌else◌, Bytes, Option, none, some,
}
use go_geodiff.Common.Maps.{Map, lookup, insert, contains, add, nat_key, bytes_key}
use go_geodiff.Result.{Result, ok, err, free_index_missing}
use go_geodiff.Changeset.Types.{OperationType, ChangesetEntry}
use go_geodiff.Changeset.Types
use go_geodiff.Changeset.Reader.{Reader, for_each}
use go_geodiff.Rebase.{
  TableRebaseInfo, DatabaseRebaseInfo, RebaseMapping, invalid_fid, greater, next_int64, ids_of,
  add_pkey_mapping, get_primary_key,
}

pub record Search : Type 0 where
  pub mapping : RebaseMapping
  pub free_indices : Map Bytes ℕ

unfoldable pub max_pk : ℕ → List ℕ → ℕ
max_pk best [] = best
max_pk best (pk ∷ pks) = max_pk (if greater pk best then pk else best) pks

abbrev pub has_any : List ℕ → Bool
has_any [] = false
has_any (pk ∷ pks) = true

-- A table has a free index unless theirs inserted nothing in it.
unfoldable pub initial_free_indices : DatabaseRebaseInfo → Map Bytes ℕ
initial_free_indices [] = []
initial_free_indices ((name, info) ∷ db) =
    let rest = initial_free_indices db in
    if has_any info.inserted then (name, next_int64 (max_pk 0 info.inserted)) ∷ rest else rest

abbrev pub Step : Type 0
Step = Result (Unit {0}) × Search

-- The next free index of a table for a key of ours.
unfoldable pub take_free_index : Bytes → ℕ → Search → Step
take_free_index table pk s = elim (lookup table s.free_indices) [
  | none ↦ (err free_index_missing, s)
  | some free ↦ (
    ok tt,
    record {
      mapping = add_pkey_mapping table pk free s.mapping;
      free_indices = insert table (next_int64 free) s.free_indices;
    },
  )
]

abbrev pub ids_or_empty : Option (List ℕ) → List ℕ
ids_or_empty none = []
ids_or_empty (some ids) = ids

unfoldable pub add_unmapped : Bytes → ℕ → RebaseMapping → RebaseMapping
add_unmapped table pk m = record m {
  unmapped_insert_ids =
      insert table (add pk (ids_or_empty (lookup table m.unmapped_insert_ids)))
        m.unmapped_insert_ids;
}

unfoldable pub map_deleted : Bytes → ℕ → TableRebaseInfo → Search → Step
map_deleted table pk info s =
    if contains pk info.deleted
    then (ok tt, record s { mapping = add_pkey_mapping table pk invalid_fid s.mapping })
    else (ok tt, s)

unfoldable pub map_change : OperationType → Bytes → Result ℕ → TableRebaseInfo → Search → Step
map_change (Types.other b) table key info s = (ok tt, s)
map_change op table (err x) info s = (err x, s)
map_change Types.insert table (ok pk) info s =
    if contains pk info.inserted
    then take_free_index table pk s
    else (ok tt, record s { mapping = add_unmapped table pk s.mapping })
map_change op table (ok pk) info s = map_deleted table pk info s

-- The first loop; a table that theirs did not change is passed over.
unfoldable pub map_entry : DatabaseRebaseInfo → ChangesetEntry → Search → Step
map_entry db e s = elim (lookup e.table.name db) [
  | none ↦ (ok tt, s)
  | some info ↦ map_change e.op e.table.name (get_primary_key e) info s
]

-- The new keys in use, without the mark of a deleted row.
unfoldable pub used_new_pks : Map ℕ ℕ → List ℕ
used_new_pks [] = []
used_new_pks ((old_pk, new_pk) ∷ ids) =
    let rest = used_new_pks ids in if new_pk == invalid_fid then rest else add new_pk rest

-- The last loop, over the inserts of one table that are left.
unfoldable pub remap : Bytes → List ℕ → List ℕ → Search → Step
remap table used [] s = (ok tt, s)
remap table used (pk ∷ pks) s =
    if contains pk used
    then elim (lookup table s.free_indices) [
      | none ↦ (err free_index_missing, s)
      | some free ↦ remap table (add free used) pks (take_free_index table pk s).1
    ]
    else remap table used pks s

abbrev pub and_then : Step → (Search → Step) → Step
and_then (ok u, s) k = k s
and_then (err x, s) k = (err x, s)

module _ (order : List ℕ → List ℕ) where
  unfoldable pub remap_tables : Map Bytes (List ℕ) → Search → Step
  remap_tables [] s = (ok tt, s)
  remap_tables ((table, pks) ∷ tables) s =
      and_then (remap table (used_new_pks (ids_of s.mapping table)) (order pks) s)
        (remap_tables tables)

  unfoldable pub find_mapping : Reader → DatabaseRebaseInfo → Step
  find_mapping reader db =
      and_then
        (for_each (map_entry db) reader (record {
          mapping = record { map_ids = []; unmapped_insert_ids = [] };
          free_indices = initial_free_indices db;
        }))
        (λ s. remap_tables s.mapping.unmapped_insert_ids s)
