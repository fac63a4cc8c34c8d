-- ===== src/Rebase/Handlers.antt =====
-- driver/rebase.go: the handlers that rewrite one entry of BASE→OURS, and the conflicts of
-- changeset/utils.go. A loop over the columns runs over the primary-key flags; a slice that it
-- indexes is consumed from the front, and an index past its end is Go's panic. The handlers fill the
-- `outEntry` that they are given and answer whether to write it; a conflict is appended.
pub mod Specification
pub mod Updates
pub mod Deletes
pub mod Deleted
use go_geodiff.Common.{
  ℕ, suc, ◌+◌, Bool, true, false, not, ◌&&◌, ◌||◌, List, [], ◌∷◌, ◌++◌, ◌==◌, if◌then◌else◌, Bytes,
  codes, equal_bytes, length, replicate, Option, none, some,
}
use go_geodiff.Common.Maps.{lookup, nat_key}
use go_geodiff.Result.{Result, ok, err, ◌>>=◌, index_panic}
use go_geodiff.Changeset.Types.{
  Value, undefined, int, is_undefined, equal, OperationType, ChangesetEntry, column_count,
}
use go_geodiff.Changeset.Types
use go_geodiff.Rebase.{
  RebaseMapping, TableRebaseInfo, has_old_pkey, get_new_pkey, get_primary_key, invalid_fid,
}

pub record ConflictItem : Type 0 where
  pub column : ℕ
  pub base : Value
  pub theirs : Value
  pub ours : Value

pub record ConflictFeature : Type 0 where
  pub pk : ℕ
  pub table_name : Bytes
  pub items : List ConflictItem

abbrev pub is_valid : ConflictFeature → Bool
is_valid cf = elim cf.items [ [] ↦ false | _ ∷ _ ↦ true ]

pub record Handled : Type 0 where
  pub write : Bool
  pub out : ChangesetEntry
  pub conflicts : List ConflictFeature

abbrev pub value_at : List Value → Result Value
value_at [] = err index_panic
value_at (v ∷ vs) = ok v

abbrev pub remaining : List Value → List Value
remaining [] = []
remaining (v ∷ vs) = vs

-- The key that an entry has after the rebase.
unfoldable pub rebased_pkey : RebaseMapping → Bytes → ℕ → Result ℕ
rebased_pkey m table pk = if has_old_pkey m table pk then get_new_pkey m table pk else ok pk

-- `make([]Value, numColumns)` unless the row was updated and is not renumbered.
abbrev pub updated_or_blank : ℕ → Bool → Option (List Value) → List Value
updated_or_blank columns renumbered none = replicate columns undefined
updated_or_blank columns renumbered (some values) =
    if renumbered then replicate columns undefined else values

-- The values of theirs' UPDATE of the row. A renumbered key is our own row, not theirs'.
unfoldable pub patched_values : TableRebaseInfo → ℕ → ℕ → ℕ → List Value
patched_values info columns pk new_pk =
    updated_or_blank columns (not (new_pk == pk)) (lookup pk info.updated)

unfoldable pub insert_columns : List Bool → ℕ → List Value → Result (List Value)
insert_columns [] new_pk news = ok []
insert_columns (true ∷ pks) new_pk news = do
  rest ← insert_columns pks new_pk (remaining news)
  ok (int new_pk ∷ rest)
insert_columns (false ∷ pks) new_pk news = do
  n ← value_at news
  rest ← insert_columns pks new_pk (remaining news)
  ok (n ∷ rest)

unfoldable pub handle_insert :
    ChangesetEntry → RebaseMapping → ChangesetEntry → List ConflictFeature → Result Handled
handle_insert e m out conflicts = do
  pk ← get_primary_key e
  new_pk ← rebased_pkey m e.table.name pk
  news ← insert_columns e.table.primary_keys new_pk e.new_values
  ok (record {
    write = true;
    out = record out { op = Types.insert; new_values = news };
    conflicts = conflicts;
  })

unfoldable pub delete_columns : List Bool → ℕ → List Value → List Value → Result (List Value)
delete_columns [] new_pk patched olds = ok []
delete_columns (true ∷ pks) new_pk patched olds = do
  rest ← delete_columns pks new_pk (remaining patched) (remaining olds)
  ok (int new_pk ∷ rest)
delete_columns (false ∷ pks) new_pk patched olds = do
  p ← value_at patched
  o ← if is_undefined p then value_at olds else ok p
  rest ← delete_columns pks new_pk (remaining patched) (remaining olds)
  ok (o ∷ rest)

-- With the key in the rebased database: -1 for a row that theirs deleted too.
unfoldable pub delete_with :
    ChangesetEntry
    → RebaseMapping
    → TableRebaseInfo
    → ChangesetEntry
    → List ConflictFeature
    → ℕ
    → ℕ
    → Result Handled
delete_with e m info out conflicts pk new_pk =
    if has_old_pkey m e.table.name pk && new_pk == invalid_fid
    then ok (record {
      write = false;
      out = record out {
        op = Types.delete;
        old_values = replicate (column_count e.table) undefined;
      };
      conflicts = conflicts;
    })
    else (do
      olds ←
          delete_columns e.table.primary_keys new_pk
            (patched_values info (column_count e.table) pk new_pk) e.old_values
      ok (record {
        write = true;
        out = record out { op = Types.delete; old_values = olds };
        conflicts = conflicts;
      }))

unfoldable pub handle_delete :
    ChangesetEntry
    → RebaseMapping
    → TableRebaseInfo
    → ChangesetEntry
    → List ConflictFeature
    → Result Handled
handle_delete e m info out conflicts = do
  pk ← get_primary_key e
  new_pk ← rebased_pkey m e.table.name pk
  delete_with e m info out conflicts pk new_pk

-- Column 4 of gpkg_contents is a time stamp.
abbrev pub is_timestamp : Bytes → ℕ → Bool
is_timestamp table column = equal_bytes table (codes "gpkg_contents") && column == 4

-- What `addConflictItem` appends to the items.
unfoldable pub conflict_item : Bytes → ℕ → Value → Value → Value → List ConflictItem
conflict_item table column b t o =
    if is_timestamp table column
    then []
    else record { column = column; base = b; theirs = t; ours = o } ∷ []

unfoldable pub add_conflict : ConflictFeature → List ConflictFeature → List ConflictFeature
add_conflict cf conflicts = if is_valid cf then conflicts ++ (cf ∷ []) else conflicts

-- Our UPDATE of a row that theirs deleted: an item for each column that we set.
unfoldable pub deleted_items :
    Bytes → ℕ → List Bool → List Value → List Value → Result (List ConflictItem)
deleted_items table column [] olds news = ok []
deleted_items table column (_ ∷ pks) olds news = do
  n ← value_at news
  item ←
      if is_undefined n
      then ok []
      else (do o ← value_at olds; ok (conflict_item table column o undefined n))
  rest ← deleted_items table (suc column) pks (remaining olds) (remaining news)
  ok (item ++ rest)

-- The loop of `handleUpdate`: OLD and NEW values, whether there are changes, and the conflict items.
pub record Columns : Type 0 where
  pub olds : List Value
  pub news : List Value
  pub has_changes : Bool
  pub items : List ConflictItem

abbrev pub skip_column : List ConflictItem → Columns
skip_column items = record {
  olds = undefined ∷ [];
  news = undefined ∷ [];
  has_changes = false;
  items = items;
}

-- One column: theirs' value, and what is left of ours.
unfoldable pub update_column : Bytes → ℕ → Value → List Value → List Value → Result Columns
update_column table column p olds news =
    if is_undefined p
    then (do
      o ← value_at olds
      n ← value_at news
      ok (record { olds = o ∷ []; news = n ∷ []; has_changes = not (is_undefined n); items = [] }))
    else (do
      n ← value_at news
      if is_undefined n
          then ok (skip_column [])
          else if equal p n
          then ok (skip_column [])
          else (do o ← value_at olds; ok (skip_column (conflict_item table column o p n))))

abbrev pub join_columns : Columns → Columns → Columns
join_columns c cs = record {
  olds = c.olds ++ cs.olds;
  news = c.news ++ cs.news;
  has_changes = c.has_changes || cs.has_changes;
  items = c.items ++ cs.items;
}

unfoldable pub update_columns :
    Bytes → ℕ → List Bool → List Value → List Value → List Value → Result Columns
update_columns table column [] patched olds news =
    ok (record { olds = []; news = []; has_changes = false; items = [] })
update_columns table column (_ ∷ pks) patched olds news = do
  p ← value_at patched
  c ← update_column table column p olds news
  cs ← update_columns table (suc column) pks (remaining patched) (remaining olds) (remaining news)
  ok (join_columns c cs)

-- The second loop: the OLD values of the keys, when the row is renumbered.
unfoldable pub renumber : List Bool → ℕ → List Value → List Value
renumber (pk ∷ pks) new_pk (o ∷ olds) = (if pk then int new_pk else o) ∷ renumber pks new_pk olds
renumber _ new_pk olds = olds

abbrev feature : ChangesetEntry → ℕ → List ConflictItem → ConflictFeature
feature e pk items = record { pk = pk; table_name = e.table.name; items = items }

unfoldable pub update_with :
    ChangesetEntry
    → RebaseMapping
    → TableRebaseInfo
    → ChangesetEntry
    → List ConflictFeature
    → ℕ
    → ℕ
    → Result Handled
update_with e m info out conflicts pk new_pk =
    if has_old_pkey m e.table.name pk && new_pk == invalid_fid
    then (do
      items ← deleted_items e.table.name 0 e.table.primary_keys e.old_values e.new_values
      ok (record {
        write = false;
        out = record out {
          op = Types.update;
          old_values = replicate (column_count e.table) undefined;
          new_values = replicate (column_count e.table) undefined;
        };
        conflicts = add_conflict (feature e pk items) conflicts;
      }))
    else (do
      cs ←
          update_columns e.table.name 0 e.table.primary_keys
            (patched_values info (column_count e.table) pk new_pk) e.old_values e.new_values
      ok (record {
        write = cs.has_changes;
        out = record out {
          op = Types.update;
          old_values =
              if not (new_pk == pk) then renumber e.table.primary_keys new_pk cs.olds else cs.olds;
          new_values = cs.news;
        };
        conflicts = add_conflict (feature e pk cs.items) conflicts;
      }))

unfoldable pub handle_update :
    ChangesetEntry
    → RebaseMapping
    → TableRebaseInfo
    → ChangesetEntry
    → List ConflictFeature
    → Result Handled
handle_update e m info out conflicts = do
  pk ← get_primary_key e
  new_pk ← rebased_pkey m e.table.name pk
  update_with e m info out conflicts pk new_pk
