-- ===== src/Rebase/Handlers/Specification.antt =====
-- What rebasing an entry is meant to give, in terms of the rows that the base, theirs and ours hold.
use go_geodiff.Common.{
  ℕ, suc, ◌≡◌, Bool, true, false, ◌||◌, List, [], ◌∷◌, ◌++◌, if◌then◌else◌, Bytes,
}
use go_geodiff.Changeset.Types.{Value, undefined, int, is_undefined, equal}
use go_geodiff.Changeset.Effect.{Row}
use go_geodiff.Rebase.Handlers.{ConflictItem, is_timestamp}

-- The merged row: theirs' cell where theirs set one, and ours elsewhere.
unfoldable pub resolve : List Value → Row → Row → Row
resolve (p ∷ patched) (t ∷ theirs) (o ∷ ours) =
    (if is_undefined p then o else t) ∷ resolve patched theirs ours
resolve _ _ _ = []

-- One column: both sides set it, to values that differ, and it is not the time stamp.
abbrev pub clash : Bytes → ℕ → Value → Value → Value → Value → Value → List ConflictItem
clash table column p n b t o =
    if is_undefined p || is_undefined n || equal t o || is_timestamp table column
    then []
    else record { column = column; base = b; theirs = t; ours = o } ∷ []

-- The conflicts of the columns from `column` on, given the NEW values of theirs and of ours and the
-- rows of the base, theirs and ours.
unfoldable pub clashes : Bytes → ℕ → List Value → List Value → Row → Row → Row → List ConflictItem
clashes table column (p ∷ patched) (n ∷ news) (b ∷ base) (t ∷ theirs) (o ∷ ours) =
    clash table column p n b t o ++ clashes table (suc column) patched news base theirs ours
clashes table column _ _ _ _ _ = []

-- The cells of the key columns are one integer.
abbrev pub HasKey : List Bool → ℕ → List Value → Type 0
HasKey [] pk [] = Unit {0}
HasKey (true ∷ pks) pk (v ∷ vs) = (v ≡ int pk) × HasKey pks pk vs
HasKey (false ∷ pks) pk (v ∷ vs) = HasKey pks pk vs
HasKey _ _ _ = ⊥

-- What a DELETE by theirs loses of our UPDATE: the columns that we set, the time stamp excepted.
abbrev pub lost_cell : Bytes → ℕ → Value → Value → Value → List ConflictItem
lost_cell table column n b o =
    if is_undefined n || is_timestamp table column
    then []
    else record { column = column; base = b; theirs = undefined; ours = o } ∷ []

unfoldable pub lost : Bytes → ℕ → List Value → Row → Row → List ConflictItem
lost table column (n ∷ news) (b ∷ base) (o ∷ ours) =
    lost_cell table column n b o ++ lost table (suc column) news base ours
lost table column _ _ _ = []
