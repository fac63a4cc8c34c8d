-- ===== src/Tests/Changes.antt =====
-- changeset/ on concrete changesets.
use go_geodiff.Common.{
  ℕ, suc, ◌≡◌, refl, inl, inr, arith, true, false, List, [], ◌∷◌, codes, some, equal_bytes,
}
use go_geodiff.Result.{Result, ok}
use go_geodiff.Changeset.Types.{
  undefined, int, double, text, null, equal, equal_double, insert, update, ChangesetTable,
  ChangesetEntry,
}
use go_geodiff.Changeset.Types.Equal.{equal→eq}
use go_geodiff.Changeset.Effect.{Row, Applies, IsWellFormed}
use go_geodiff.Changeset.Merge.{merge_entries}
use go_geodiff.Changeset.Merge.Correct.{Combines, merge_entries-Combines}
use go_geodiff.Changeset.Invert.{invert_entry}
use go_geodiff.Changeset.Invert.Files.{inverted, invert_changeset_twice}
use go_geodiff.Changeset.Invert.Opposites.{Inverts}
use go_geodiff.Changeset.Invert.Effects.{invert_entry_undoes}
use go_geodiff.Changeset.Writer.{new_writer}
use go_geodiff.Changeset.Reader.{new_reader, for_each}
use go_geodiff.Changeset.Stream.{Group, write_groups, stored_entries, each}
use go_geodiff.Changeset.Stream.RoundTrip.{written, for_each-write_groups}

abbrev points : ChangesetTable
points = record { name = codes "points"; primary_keys = true ∷ false ∷ false ∷ [] }

abbrev row_one : Row
row_one = int 1 ∷ text (codes "a") ∷ double 0 ∷ []

abbrev row_two : Row
row_two = int 1 ∷ text (codes "b") ∷ double 0 ∷ []

abbrev row_three : Row
row_three = int 1 ∷ text (codes "b") ∷ null ∷ []

-- The first two rows, and the last two.
abbrev rename : ChangesetEntry
rename = record {
  op = update;
  old_values = int 1 ∷ text (codes "a") ∷ undefined ∷ [];
  new_values = undefined ∷ text (codes "b") ∷ undefined ∷ [];
  table = points;
}

abbrev clear : ChangesetEntry
clear = record {
  op = update;
  old_values = int 1 ∷ undefined ∷ double 0 ∷ [];
  new_values = undefined ∷ undefined ∷ null ∷ [];
  table = points;
}

abbrev create : ChangesetEntry
create = record { op = insert; old_values = []; new_values = row_one; table = points }

rename-IsWellFormed : IsWellFormed rename
rename-IsWellFormed = ground arith

clear-IsWellFormed : IsWellFormed clear
clear-IsWellFormed = ground arith

rename-Applies : Applies rename (some row_one) (some row_two)
rename-Applies = (
  row_one,
  row_two,
  refl,
  refl,
  (inr refl, (inr refl, (inl refl, tt))),
  (refl, (refl, (refl, tt))),
)

clear-Applies : Applies clear (some row_two) (some row_three)
clear-Applies = (
  row_two,
  row_three,
  refl,
  refl,
  (inr refl, (inl refl, (inr refl, tt))),
  (refl, (refl, (refl, tt))),
)

merge_entries-Combines_example :
    Combines rename (some row_one) (some row_three) (merge_entries rename clear)
merge_entries-Combines_example =
    merge_entries-Combines rename clear (some row_one) (some row_two) (some row_three) refl
      rename-IsWellFormed clear-IsWellFormed (unfold go_geodiff.Changeset.Effect.key_values in refl)
      rename-Applies clear-Applies

invert_entry_undoes_example :
    (e' : ChangesetEntry) × (invert_entry rename ≡ ok e')
    × (e'.table ≡ points)
    × Applies e' (some row_two) (some row_one)
invert_entry_undoes_example =
    invert_entry_undoes rename (some row_one) (some row_two) rename-IsWellFormed rename-Applies

equal→eq_example : double 7 ≡ double 7
equal→eq_example =
    equal→eq (double 7) (double 7) (ground arith) (ground arith) (unfold equal equal_double in refl)

abbrev groups : List Group
groups =
    (points, create ∷ rename ∷ []) ∷ (record { name = codes "empty"; primary_keys = [] }, []) ∷ []

-- Counts the entries.
abbrev count : ChangesetEntry → ℕ → Result (Unit {0}) × ℕ
count e n = (ok tt, suc n)

for_each-write_groups_example :
    ((write_groups groups new_writer).0 ≡ ok tt)
    × (for_each count (new_reader (written groups)) 0 ≡ each count (stored_entries groups) 0)
for_each-write_groups_example = for_each-write_groups count groups 0 (ground arith)

invert_changeset_twice_example :
    (gs' : List Group) × Inverts [] groups gs'
    × (inverted (written groups) ≡ ok (written gs'))
    × (inverted (written gs') ≡ ok (written groups))
invert_changeset_twice_example =
    invert_changeset_twice groups (ground arith) (ground arith) (unfold equal_bytes in (refl, tt))
