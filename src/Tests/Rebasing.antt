-- ===== src/Tests/Rebasing.antt =====
-- driver/rebase.go on concrete changes.
use go_geodiff.Common.{
  ℕ, ◌≡◌, refl, inr, arith, true, false, List, [], ◌∷◌, codes, equal_bytes, none, some, All,
}
use go_geodiff.Common.Maps.{lookup, insert, contains, add, nat_key, bytes_key}
use go_geodiff.Result.{ok}
use go_geodiff.Changeset.Types.{
  Value, undefined, int, text, update, delete, ChangesetTable, ChangesetEntry,
}
use go_geodiff.Changeset.Effect.{Row, RowColumns, Applies}
use go_geodiff.Rebase.{
  RebaseMapping, TableRebaseInfo, has_old_pkey, get_primary_key, key_int, invalid_fid,
}
use go_geodiff.Changeset.Reader.{new_reader}
use go_geodiff.Changeset.Stream.{Group, stored_entries}
use go_geodiff.Changeset.Stream.RoundTrip.{written}
use go_geodiff.Rebase.Parse.{parse_old_changeset}
use go_geodiff.Rebase.Parse.Records.{IsRecorded, parse_old_changeset-IsRecorded}
use go_geodiff.Rebase.Mapping.{Search, remap, take_free_index}
use go_geodiff.Rebase.Mapping.Apart.{Keyed, Distinct, remap-Distinct}
use go_geodiff.Rebase.{add_pkey_mapping}
use go_geodiff.Rebase.Handlers.{Handled, rebased_pkey, handle_delete}
use go_geodiff.Rebase.Handlers.Deletes.{handle_delete-Applies}

abbrev table : ChangesetTable
table = record { name = codes "t"; primary_keys = true ∷ false ∷ false ∷ [] }

abbrev base : Row
base = int 7 ∷ text (codes "a") ∷ int 1 ∷ []

abbrev theirs : Row
theirs = int 7 ∷ text (codes "b") ∷ int 1 ∷ []

abbrev ours : Row
ours = int 7 ∷ text (codes "c") ∷ int 2 ∷ []

abbrev their_olds : List Value
their_olds = int 7 ∷ text (codes "a") ∷ undefined ∷ []

abbrev their_news : List Value
their_news = undefined ∷ text (codes "b") ∷ undefined ∷ []

abbrev our_update : ChangesetEntry
our_update = record {
  op = update;
  old_values = base;
  new_values = undefined ∷ text (codes "c") ∷ int 2 ∷ [];
  table = table;
}

abbrev our_delete : ChangesetEntry
our_delete = record { op = delete; old_values = base; new_values = []; table = table }

abbrev out : ChangesetEntry
out = record { op = delete; old_values = []; new_values = []; table = table }

abbrev info : TableRebaseInfo
info = record { inserted = []; deleted = []; updated = (7, their_news) ∷ [] }

abbrev unmapped : RebaseMapping
unmapped = record { map_ids = []; unmapped_insert_ids = [] }

-- Theirs deleted row 7.
abbrev deleted : RebaseMapping
deleted = record { map_ids = (codes "t", (7, invalid_fid) ∷ []) ∷ []; unmapped_insert_ids = [] }

handle_delete-Applies_example :
    (h : Handled) × (handle_delete our_delete unmapped info out [] ≡ ok h)
    × (h.write ≡ true)
    × RowColumns table.primary_keys h.out.old_values
    × Applies h.out (some theirs) none
    × (h.conflicts ≡ [])
handle_delete-Applies_example =
    handle_delete-Applies our_delete unmapped info out [] 7 their_olds their_news base theirs
      (unfold get_primary_key key_int in refl) (unfold has_old_pkey lookup in refl)
      (unfold lookup in refl) (ground arith) (refl, (refl, (refl, tt))) (ground arith)
      (inr refl, (inr refl, (inr refl, tt))) (ground arith)

abbrev their_update : ChangesetEntry
their_update = record {
  op = update;
  old_values = their_olds;
  new_values = their_news;
  table = table;
}

abbrev their_groups : List Group
their_groups = (table, our_update ∷ their_update ∷ []) ∷ []

parse_old_changeset-IsRecorded_example :
    ((parse_old_changeset (new_reader (written their_groups)) []).0 ≡ ok tt)
    × IsRecorded their_update (parse_old_changeset (new_reader (written their_groups)) []).1
parse_old_changeset-IsRecorded_example =
    parse_old_changeset-IsRecorded their_groups (our_update ∷ []) [] their_update (ground arith)
      (unfold stored_entries in refl)
      (
        (7, unfold get_primary_key key_int in refl),
        ((7, unfold get_primary_key key_int in refl), tt),
      )
      tt

-- Theirs inserted 4 and ours 4, 5 and 6: row 4 has become row 5, and 6 is the next free key.
abbrev search : Search
search = record {
  mapping = record {
    map_ids = (codes "t", (4, 5) ∷ []) ∷ [];
    unmapped_insert_ids = (codes "t", 5 ∷ 6 ∷ []) ∷ [];
  };
  free_indices = (codes "t", 6) ∷ [];
}

-- In ascending order all three keys differ.
ascending_order :
    (remap (codes "t") (5 ∷ []) (5 ∷ 6 ∷ []) search).1.mapping.map_ids
    ≡ (codes "t", (4, 5) ∷ (5, 6) ∷ (6, 7) ∷ []) ∷ []
unfolding remap take_free_index add_pkey_mapping contains add lookup insert equal_bytes
ascending_order = refl

-- In the other order 5 becomes 6, and 6 stays.
descending_order :
    (remap (codes "t") (5 ∷ []) (6 ∷ 5 ∷ []) search).1.mapping.map_ids
    ≡ (codes "t", (4, 5) ∷ (5, 6) ∷ []) ∷ []
unfolding remap take_free_index add_pkey_mapping contains add lookup insert equal_bytes
descending_order = refl

-- Theirs and ours inserted 5, which gets 6; then ours' own 6 gets 7.
abbrev searching : Search
searching = record {
  mapping = record { map_ids = []; unmapped_insert_ids = [] };
  free_indices = (codes "t", 6) ∷ [];
}

remap-Distinct_example :
    (s' : Search) × (ks : List ℕ) × (remap (codes "t") (5 ∷ []) (5 ∷ 6 ∷ []) searching
      ≡ (ok tt, s'))
    × Keyed s'.mapping (codes "t") (5 ∷ 6 ∷ []) ks
    × Distinct ks
    × All (λ k. contains k (5 ∷ []) ≡ false) ks
remap-Distinct_example =
    remap-Distinct (codes "t") (5 ∷ 6 ∷ []) (5 ∷ []) searching 6 (unfold lookup equal_bytes in refl)
      (omega arith, tt) ((omega arith, tt), (tt, tt))
      (unfold rebased_pkey has_old_pkey lookup in (refl, (refl, tt))) (omega arith)
