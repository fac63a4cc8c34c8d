-- ===== src/Changeset/Effect.antt =====
-- What a change is meant to do to the row that it names, written down apart from the code: a row is
-- absent or a list of cells, and a change leads from one such state to another. The theorems on
-- merging, inverting and rebasing are stated against this.
use go_geodiff.Common.{
  ◌≡◌, ◌⊎◌, Bool, true, false, List, [], ◌∷◌, if◌then◌else◌, Option, none, some,
}
use go_geodiff.Changeset.Types.{
  Value, undefined, is_undefined, OperationType, insert, update, delete, other, ChangesetEntry,
}
use go_geodiff.Changeset.Types.Equal.{IsExact}

abbrev pub Row : Type 0
Row = List Value

-- Every OLD value that is given is the cell's.
abbrev pub Matches : List Value → Row → Type 0
Matches [] [] = Unit {0}
Matches (o ∷ os) (c ∷ cs) = ((o ≡ undefined) ⊎ (o ≡ c)) × Matches os cs
Matches _ _ = ⊥

-- Every NEW value that is given is the new cell; the other cells stay.
abbrev pub Updates : List Value → Row → Row → Type 0
Updates [] [] [] = Unit {0}
Updates (n ∷ ns) (c ∷ cs) (d ∷ ds) = (d ≡ (if is_undefined n then c else n)) × Updates ns cs ds
Updates _ _ _ = ⊥

abbrev pub Effect : OperationType → List Value → List Value → Option Row → Option Row → Type 0
Effect insert olds news s s' = (s ≡ none) × (s' ≡ some news)
Effect delete olds news s s' = (row : Row) × (s ≡ some row) × (s' ≡ none) × Matches olds row
Effect update olds news s s' =
    (row row' : Row) × (s ≡ some row) × (s' ≡ some row') × Matches olds row × Updates news row row'
Effect (other b) olds news s s' = ⊥

abbrev pub Applies : ChangesetEntry → Option Row → Option Row → Type 0
Applies e = Effect e.op e.old_values e.new_values

-- The columns of a whole row: as many as the table has, each given.
abbrev pub RowColumns : List Bool → List Value → Type 0
RowColumns [] [] = Unit {0}
RowColumns (pk ∷ pks) (v ∷ vs) = (is_undefined v ≡ false) × IsExact v × RowColumns pks vs
RowColumns _ _ = ⊥

-- One column of an UPDATE: a key column has its OLD value only; elsewhere NEW comes with OLD.
abbrev pub ColumnOk : Bool → Value → Value → Type 0
ColumnOk true o n = (is_undefined o ≡ false) × (n ≡ undefined) × IsExact o
ColumnOk false o n = ((is_undefined o ≡ false) ⊎ (n ≡ undefined)) × IsExact o × IsExact n

abbrev pub UpdateColumns : List Bool → List Value → List Value → Type 0
UpdateColumns [] [] [] = Unit {0}
UpdateColumns (pk ∷ pks) (o ∷ os) (n ∷ ns) = ColumnOk pk o n × UpdateColumns pks os ns
UpdateColumns _ _ _ = ⊥

abbrev pub Columns : OperationType → List Bool → List Value → List Value → Type 0
Columns insert pks olds news = RowColumns pks news
Columns delete pks olds news = RowColumns pks olds
Columns update pks olds news = UpdateColumns pks olds news
Columns (other b) pks olds news = ⊥

-- The values of an entry fit its table the way that the session extension writes them, and no double is the
-- negative zero, which `Equal` takes for the positive one.
abbrev pub IsWellFormed : ChangesetEntry → Type 0
IsWellFormed e = Columns e.op e.table.primary_keys e.old_values e.new_values

-- The values of the key columns.
unfoldable pub key_values : List Bool → List Value → List Value
key_values (true ∷ pks) (v ∷ vs) = v ∷ key_values pks vs
key_values (false ∷ pks) (v ∷ vs) = key_values pks vs
key_values _ _ = []

abbrev pub key_source : OperationType → List Value → List Value → List Value
key_source insert olds news = news
key_source _ olds news = olds

-- The key of the row that an entry names: INSERT has it in NEW, the others in OLD.
abbrev pub key_of : ChangesetEntry → List Value
key_of e = key_values e.table.primary_keys (key_source e.op e.old_values e.new_values)
