-- ===== src/Changeset/Merge.antt =====
-- changeset/concat.go: merging two changes of one row. The loops over the columns run over the
-- primary-key flags and consume the value slices from the front, so `values[i]` is the head of what
-- is left, and a slice that is too short is Go's index panic.
pub mod Columns
pub mod Correct
pub mod Keys
pub mod Effective
pub mod Kept
use go_geodiff.Common.{
  Bool, true, false, ◌||◌, ◌&&◌, not, List, [], ◌∷◌, if◌then◌else◌, Option, none, some,
}
use go_geodiff.Result.{Result, ok, err, index_panic, ◌>>=◌}
use go_geodiff.Changeset.Types.{
  Value, undefined, is_undefined, equal, OperationType, insert, update, delete, other,
  ChangesetEntry,
}

pub uncons : List Value → Result (Value × List Value)
uncons [] = err index_panic
uncons (v ∷ vs) = ok (v, vs)

-- `len(values) > 0`, or the zero value of `Value` for every column.
abbrev nonempty : List Value → Option (List Value)
nonempty [] = none
nonempty (v ∷ vs) = some (v ∷ vs)

pub uncons_optional : Option (List Value) → Result (Value × Option (List Value))
unfolding uncons
uncons_optional none = ok (undefined, none)
uncons_optional (some vs) = do (v, rest) ← uncons vs; ok (v, some rest)

pub merge_value : Value → Value → Value
merge_value v_one v_two = if is_undefined v_two then v_one else v_two

-- What one column adds to the merged OLD and NEW values, and whether it requires the update.
abbrev pub out_old : Bool → Value → Value → Value
out_old pk v_old v_new = if pk || not (equal v_old v_new) then v_old else undefined

abbrev pub out_new : Bool → Value → Value → Value
out_new pk v_old v_new = if pk || equal v_old v_new then undefined else v_new

abbrev pub requires : Bool → Value → Value → Bool
requires pk v_old v_new = not (equal v_old v_new) && not pk

pub merge_columns :
    List Bool
    → List Value
    → Option (List Value)
    → List Value
    → Option (List Value)
    → Result (Bool × List Value × List Value)
unfolding uncons uncons_optional merge_value
merge_columns [] olds1 olds2 news1 news2 = ok (false, [], [])
merge_columns (pk ∷ pks) olds1 olds2 news1 news2 = do
  (v_old2, olds2') ← uncons_optional olds2
  (v_new2, news2') ← uncons_optional news2
  (v_old1, olds1') ← uncons olds1
  (v_new1, news1') ← uncons news1
  let v_old = merge_value v_old1 v_old2
  let v_new = merge_value v_new1 v_new2
  (required, olds, news) ← merge_columns pks olds1' olds2' news1' news2'
  ok (
    requires pk v_old v_new || required,
    out_old pk v_old v_new ∷ olds,
    out_new pk v_old v_new ∷ news,
  )

-- `mergeUpdate`: whether the merged update is required, and its OLD and NEW values.
pub merge_update :
    List Bool
    → List Value
    → List Value
    → List Value
    → List Value
    → Result (Bool × List Value × List Value)
merge_update pks olds1 olds2 news1 news2 =
    merge_columns pks olds1 (nonempty olds2) news1 (nonempty news2)

-- INSERT + UPDATE: `e1.NewValues[i] = e2.NewValues[i]` where the latter is defined.
pub overlay : List Bool → List Value → List Value → Result (List Value)
overlay [] news1 news2 = ok news1
overlay (pk ∷ pks) news1 [] = err index_panic
overlay (pk ∷ pks) [] (v ∷ news2) =
    let rest = overlay pks [] news2 in if is_undefined v then rest else err index_panic
overlay (pk ∷ pks) (w ∷ news1) (v ∷ news2) = do
  rest ← overlay pks news1 news2
  ok ((if is_undefined v then w else v) ∷ rest)

-- UPDATE + DELETE: `e1.OldValues[i] = e2.OldValues[i]` where the former is undefined.
pub backfill : List Bool → List Value → List Value → Result (List Value)
backfill [] olds1 olds2 = ok olds1
backfill (pk ∷ pks) [] olds2 = err index_panic
backfill (pk ∷ pks) (w ∷ olds1) [] =
    let rest = backfill pks olds1 [] in
    if is_undefined w then err index_panic else (do ws ← rest; ok (w ∷ ws))
backfill (pk ∷ pks) (w ∷ olds1) (v ∷ olds2) = do
  rest ← backfill pks olds1 olds2
  ok ((if is_undefined w then v else w) ∷ rest)

-- The Go function changes `e1` in place and says which of the three holds.
pub data MergeResult : Type 0 where
  modified : ChangesetEntry → MergeResult
  removed unsupported : MergeResult

abbrev if_required : ChangesetEntry → Bool × List Value × List Value → MergeResult
if_required e (required, olds, news) =
    if required
    then modified (record e { op = update; old_values = olds; new_values = news })
    else removed

pub merge_ops : OperationType → OperationType → ChangesetEntry → ChangesetEntry → Result MergeResult
unfolding merge_update
merge_ops insert insert e1 e2 = ok unsupported
merge_ops update insert e1 e2 = ok unsupported
merge_ops delete update e1 e2 = ok unsupported
merge_ops delete delete e1 e2 = ok unsupported
merge_ops insert delete e1 e2 = ok removed
merge_ops insert update e1 e2 = do
  news ← overlay e1.table.primary_keys e1.new_values e2.new_values
  ok (modified (record e1 { new_values = news }))
merge_ops update update e1 e2 = do
  merged ←
      merge_update e1.table.primary_keys e2.old_values e1.old_values e1.new_values e2.new_values
  ok (if_required e1 merged)
merge_ops update delete e1 e2 = do
  olds ← backfill e1.table.primary_keys e1.old_values e2.old_values
  ok (modified (record e1 { op = delete; old_values = olds }))
merge_ops delete insert e1 e2 = do
  merged ← merge_update e1.table.primary_keys e1.old_values [] e2.new_values []
  ok (if_required e1 merged)
merge_ops _ _ e1 e2 = ok unsupported

-- `mergeEntriesForRow`
unfoldable pub merge_entries : ChangesetEntry → ChangesetEntry → Result MergeResult
unfolding merge_ops
merge_entries e1 e2 = merge_ops e1.op e2.op e1 e2
