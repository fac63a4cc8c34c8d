-- ===== src/Driver/Diff/Correct.antt =====
-- The UPDATE that the driver writes for a row that both databases have, against the effect of a change.
use go_geodiff.Common.{◌≡◌, ◌⊎◌, Bool, true, false, ◌||◌, List, [], ◌∷◌, if◌then◌else◌}
use go_geodiff.Changeset.Types.{Value, undefined, is_undefined, equal}
use go_geodiff.Changeset.Types.Equal.{IsExact}
use go_geodiff.Changeset.Effect.{Row, Matches, Updates, ColumnOk, UpdateColumns}
use go_geodiff.Schema.{base_datetime, same_base, TableColumnInfo, key_flags}
use go_geodiff.Driver.Diff.{Source, check_datetime_diff, is_updated}

-- The two rows of one key: a cell for each column, each given, exact doubles, and keys
-- that `Equal` joins.
abbrev pub RowPair : List TableColumnInfo → Row → Row → Type 0
RowPair [] [] [] = Unit {0}
RowPair (c ∷ cs) (o ∷ olds) (n ∷ news) =
    (is_undefined o ≡ false)
    × (is_undefined n ≡ false)
    × IsExact o
    × IsExact n
    × (c.is_primary_key ≡ true → equal o n ≡ true)
    × RowPair cs olds news
RowPair _ _ _ = ⊥

-- A row that has the new cells, save that a time may have the old cell where the database says that the
-- two stand for one time.
abbrev pub Agrees : Source → List TableColumnInfo → Row → Row → Row → Type 0
Agrees src [] [] [] [] = Unit {0}
Agrees src (c ∷ cs) (o ∷ olds) (n ∷ news) (d ∷ row) =
    ((d ≡ n)
      ⊎ ((same_base c.type.base_type base_datetime ≡ true)
          × (check_datetime_diff src o n ≡ false)
          × (d ≡ o)))
    × Agrees src cs olds news row
Agrees src _ _ _ _ = ⊥

-- The row that the entry leads to.
abbrev updated_row : Source → List TableColumnInfo → Row → Row → Row
updated_row src (c ∷ cs) (o ∷ olds) (n ∷ news) =
    (if is_updated src c o n then n else o) ∷ updated_row src cs olds news
updated_row src _ _ _ = []

-- One column, with the answers of the two tests: the values of the entry fit the column, the OLD value
-- matches, the NEW value leads to the cell, and the cell agrees with the new one.
abbrev Column : Source → TableColumnInfo → Value → Value → Bool → Bool → Type 0
Column src c o n pk b =
    ColumnOk pk (if pk || b then o else undefined) (if b then n else undefined)
    × (((if pk || b then o else undefined) ≡ undefined) ⊎ ((if pk || b then o else undefined) ≡ o))
    × ((if b then n else o)
        ≡ (if is_undefined (if b then n else undefined) then o else (if b then n else undefined)))
    × (((if b then n else o) ≡ n)
        ⊎ ((same_base c.type.base_type base_datetime ≡ true)
            × (check_datetime_diff src o n ≡ false)
            × ((if b then n else o) ≡ o)))
    × (b ≡ false → (if b then n else o) ≡ o)

-- The columns together.
abbrev Diffs :
    Source → List TableColumnInfo → Row → Row → Row → Bool × List Value × List Value → Type 0
Diffs src cs olds news row r =
    UpdateColumns (key_flags cs) r.1 r.2
    × Matches r.1 olds
    × Updates r.2 olds row
    × Agrees src cs olds news row
    × (r.0 ≡ false → row ≡ olds)
