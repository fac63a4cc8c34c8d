-- ===== src/Tests/Concats.antt =====
-- changeset/concat.go on two files that change one row twice, and the reader on a file of one byte.
use go_geodiff.Common.{
  ℕ, suc, ◌≡◌, ◌≢◌, refl, inl, inr, arith, Bool, true, false, List, [], ◌∷◌, ◌++◌, ◌&&◌,
  if◌then◌else◌, Bytes, codes, equal_bytes, sym, ap, ◌∙◌, Option, none, some, map,
}
use go_geodiff.Result.{Result, ok, err, out_of_fuel}
use go_geodiff.Changeset.Types.{
  Value, undefined, equal, int, text, insert, update, ChangesetTable, ChangesetEntry,
}
use go_geodiff.Changeset.Effect.{Row, Applies, IsWellFormed, key_of, key_values}
use go_geodiff.Changeset.Merge.Effective.{IsEffective}
use go_geodiff.Changeset.Reader.{Reader, new_reader, next_entry, for_each}
use go_geodiff.Changeset.Reader.Total.{Answers, next_entry-Answers, for_each-Ends}
use go_geodiff.Changeset.Stream.{Group, stored_entries}
use go_geodiff.Changeset.Stream.RoundTrip.{written}
use go_geodiff.Changeset.Concat.{key_part, key_parts, pk_key, concat_files}
use go_geodiff.Changeset.Concat.Tracks.{Rows, Changes, FilesChange, Tracked, concat_files-Tracked}

abbrev cut_short : Reader
cut_short = new_reader (18 ∷ [])

next_entry-Answers_example : Answers cut_short (next_entry cut_short)
next_entry-Answers_example = next_entry-Answers cut_short

abbrev count : ChangesetEntry → ℕ → Result (Unit {0}) × ℕ
count e n = (ok tt, suc n)

for_each-Ends_example : (for_each count cut_short 0).0 ≢ err out_of_fuel
for_each-Ends_example = for_each-Ends count (λ e n q. cc) cut_short 0

abbrev points : ChangesetTable
points = record { name = codes "points"; primary_keys = true ∷ false ∷ [] }

-- A row is added, and renamed by the second file.
abbrev add_row : ChangesetEntry
add_row = record {
  op = insert;
  old_values = [];
  new_values = int 1 ∷ text (codes "a") ∷ [];
  table = points;
}

abbrev rename : ChangesetEntry
rename = record {
  op = update;
  old_values = int 1 ∷ text (codes "a") ∷ [];
  new_values = undefined ∷ text (codes "b") ∷ [];
  table = points;
}

abbrev files : List (List Group)
files = ((points, add_row ∷ []) ∷ []) ∷ ((points, rename ∷ []) ∷ []) ∷ []

abbrev show_number : ℕ → Bytes
show_number n = n ∷ []

abbrev key_one : Bytes
key_one = codes "[I:" ++ (1 ∷ codes "]")

-- The database that holds that one row.
abbrev with_row : Option Row → Rows
with_row r n j = if equal_bytes points.name n && equal_bytes key_one j then r else none

abbrev keys_of : Bytes → List Bool
keys_of n = true ∷ false ∷ []

abbrev key_named : Bytes → Bytes → List Value
key_named n j = int 1 ∷ []

elsewhere :
    (here : Bool) (r r' : Option Row)
    → here ≡ false
    → (if here then r else none) ≡ (if here then r' else none)
elsewhere here r r' h = rw h refl

-- One of the two changes, if it names the row and fits the table.
one_row-Changes :
    (e : ChangesetEntry) (r r' : Option Row)
    → pk_key show_number show_number (λ b. b) e ≡ ok key_one
    → e.table ≡ points
    → key_of e ≡ int 1 ∷ []
    → IsWellFormed e
    → IsEffective e
    → Applies e r r'
    → Changes show_number show_number (λ b. b) keys_of key_named e (with_row r) (with_row r')
unfolding equal_bytes
one_row-Changes e r r' keyed t stands fits effective applies = record {
  key = key_one;
  keyed = keyed;
  stands = stands;
  flags = rw t refl;
  fits = fits;
  effective = effective;
  applies = rw t applies;
  others = λ n j h.
      elsewhere (equal_bytes points.name n && equal_bytes key_one j) r' r
        (ap (λ (u : ChangesetTable). equal_bytes u.name n && equal_bytes key_one j) (sym t) ∙ h);
}

add_row-key : pk_key show_number show_number (λ b. b) add_row ≡ ok key_one
unfolding pk_key key_parts key_part
add_row-key = refl

rename-key : pk_key show_number show_number (λ b. b) rename ≡ ok key_one
unfolding pk_key key_parts key_part
rename-key = refl

add_row-IsEffective : IsEffective add_row
unfolding equal equal_bytes
add_row-IsEffective = (tt, (refl, (refl, tt)), tt)

apart : true ≡ false → ⊥
apart h = cc

rename-IsEffective : IsEffective rename
unfolding equal equal_bytes
rename-IsEffective = (
  (refl, (refl, tt)),
  (refl, (refl, tt)),
  (
    (tt, (refl, tt)),
    inr (inl (refl, refl, λ q. apart (ap (λ (v : Value). equal v (text (codes "a"))) q))),
  ),
)

abbrev renamed : Row
renamed = int 1 ∷ text (codes "b") ∷ []

files-Change :
    FilesChange show_number show_number
      (λ b. b)
      keys_of
      key_named
      files
      (with_row none)
      (with_row (some renamed))
unfolding stored_entries key_values
files-Change = (
  with_row (some add_row.new_values),
  ground arith,
  (
    with_row (some add_row.new_values),
    one_row-Changes add_row none (some add_row.new_values) add_row-key refl refl (ground arith)
        add_row-IsEffective (refl, refl),
    λ n j. refl,
  ),
  (
    with_row (some renamed),
    ground arith,
    (
      with_row (some renamed),
      one_row-Changes rename (some add_row.new_values) (some renamed) rename-key refl refl
          (ground arith) rename-IsEffective
          (add_row.new_values, renamed, refl, refl, (inr refl, (inr refl, tt)), (refl, (refl, tt))),
      λ n j. refl,
    ),
    λ n j. refl,
  ),
)

concat_files-Tracked_example :
    Tracked show_number show_number
      (λ b. b)
      keys_of
      key_named
      (concat_files show_number show_number (λ b. b) (map written files) [])
      (with_row none)
      (with_row (some renamed))
concat_files-Tracked_example =
    concat_files-Tracked show_number show_number (λ b. b) keys_of key_named files (with_row none)
      (with_row (some renamed)) files-Change
