-- ===== src/Changeset/Merge/Kept.antt =====
-- What `mergeEntriesForRow` keeps of two changes that alter the row.
use go_geodiff.Common.{◌≡◌, refl, arith, Bool, true, false, List, [], ◌∷◌, if◌then◌else◌, All}
use go_geodiff.Result.{Result, ok, err, ◌>>=◌}
use go_geodiff.Changeset.Types.{
  Value, is_undefined, OperationType, insert, update, delete, other, ChangesetTable, ChangesetEntry,
}
use go_geodiff.Changeset.Effect.{IsWellFormed, Columns}
use go_geodiff.Changeset.Merge.{
  merge_columns, merge_update, overlay, backfill, if_required, MergeResult, modified, merge_ops,
  merge_entries,
}
use go_geodiff.Changeset.Merge.Effective.{
  IsRegular, Paired, Alters, IsEffective, EffectiveColumns, merge_columns-Effective,
  merge_columns-EffectiveRows,
}

-- The values of a list, where there is one, are regular.
abbrev RegularList : Result (List Value) → Type 0
RegularList (err e) = Unit {0}
RegularList (ok vs) = All IsRegular vs

cons-RegularList :
    (v : Value) (r : Result (List Value))
    → IsRegular v
    → RegularList r
    → RegularList (r >>= λ vs. ok (v ∷ vs))
cons-RegularList v (err e) a h = tt
cons-RegularList v (ok vs) a h = (a, h)

either-IsRegular :
    (b : Bool) (v w : Value) → IsRegular v → IsRegular w → IsRegular (if b then v else w)
either-IsRegular true v w a b = a
either-IsRegular false v w a b = b

either-RegularList :
    (b : Bool) (r r' : Result (List Value))
    → RegularList r
    → RegularList r'
    → RegularList (if b then r else r')
either-RegularList true r r' a b = a
either-RegularList false r r' a b = b

overlay-RegularList :
    (pks : List Bool) (news1 news2 : List Value)
    → All IsRegular news1
    → All IsRegular news2
    → RegularList (overlay pks news1 news2)
unfolding overlay
overlay-RegularList [] news1 news2 a b = a
overlay-RegularList (pk ∷ pks) news1 [] a b = tt
overlay-RegularList (pk ∷ pks) [] (v ∷ news2) a b =
    either-RegularList (is_undefined v) _ _ (overlay-RegularList pks [] news2 tt b.1) tt
overlay-RegularList (pk ∷ pks) (w ∷ news1) (v ∷ news2) a b =
    cons-RegularList _ _ (either-IsRegular (is_undefined v) w v a.0 b.0)
      (overlay-RegularList pks news1 news2 a.1 b.1)

backfill-RegularList :
    (pks : List Bool) (olds1 olds2 : List Value)
    → All IsRegular olds1
    → All IsRegular olds2
    → RegularList (backfill pks olds1 olds2)
unfolding backfill
backfill-RegularList [] olds1 olds2 a b = a
backfill-RegularList (pk ∷ pks) [] olds2 a b = tt
backfill-RegularList (pk ∷ pks) (w ∷ olds1) [] a b =
    either-RegularList (is_undefined w) (err _) _ tt
      (cons-RegularList w _ a.0 (backfill-RegularList pks olds1 [] a.1 tt))
backfill-RegularList (pk ∷ pks) (w ∷ olds1) (v ∷ olds2) a b =
    cons-RegularList _ _ (either-IsRegular (is_undefined w) v w b.0 a.0)
      (backfill-RegularList pks olds1 olds2 a.1 b.1)

-- What is kept, if anything is.
abbrev pub KeepsEffective : Result MergeResult → Type 0
KeepsEffective (ok (modified m)) = IsEffective m
KeepsEffective _ = Unit {0}

if_required-KeepsEffective :
    (e : ChangesetEntry) (r : Result (Bool × List Value × List Value))
    → EffectiveColumns e.table.primary_keys r
    → KeepsEffective (r >>= λ merged. ok (if_required e merged))
if_required-KeepsEffective e (err x) h = tt
if_required-KeepsEffective e (ok (true, olds, news)) (a, b, p, d) = (a, b, (p, d refl))
if_required-KeepsEffective e (ok (false, olds, news)) h = tt

merge_update-Effective :
    (pks : List Bool) (olds1 news1 olds2 news2 : List Value)
    → Paired pks olds1 news1
    → Paired pks olds2 news2
    → All IsRegular olds1
    → All IsRegular news1
    → All IsRegular olds2
    → All IsRegular news2
    → EffectiveColumns pks (merge_update pks olds2 olds1 news1 news2)
unfolding merge_update
merge_update-Effective [] [] [] [] [] p q a b c d = unfold merge_columns in (tt, tt, tt, λ h. cc)
merge_update-Effective (pk ∷ pks) (o1 ∷ olds1) (n1 ∷ news1) (o2 ∷ olds2) (n2 ∷ news2) p q a b c d =
    merge_columns-Effective (pk ∷ pks) (o1 ∷ olds1) (n1 ∷ news1) (o2 ∷ olds2) (n2 ∷ news2) p q a b c
      d
merge_update-Effective _ _ _ _ _ p q a b c d = ground arith

abbrev entry : OperationType → List Value → List Value → ChangesetTable → ChangesetEntry
entry op olds news t = record { op = op; old_values = olds; new_values = news; table = t }

with_news-KeepsEffective :
    (e : ChangesetEntry) (r : Result (List Value))
    → e.op ≡ insert
    → All IsRegular e.old_values
    → RegularList r
    → KeepsEffective (r >>= λ news. ok (modified (record e { new_values = news })))
with_news-KeepsEffective e (err x) i a h = tt
with_news-KeepsEffective e (ok news) i a h = (a, h, rw i tt)

with_olds-KeepsEffective :
    (e : ChangesetEntry) (r : Result (List Value))
    → All IsRegular e.new_values
    → RegularList r
    → KeepsEffective (r >>= λ olds. ok (modified (record e { op = delete; old_values = olds })))
with_olds-KeepsEffective e (err x) b h = tt
with_olds-KeepsEffective e (ok olds) b h = (h, b, tt)

merge_ops-KeepsEffective :
    (op1 op2 : OperationType) (olds1 news1 olds2 news2 : List Value) (t t2 : ChangesetTable)
    → Columns op1 t.primary_keys olds1 news1
    → Columns op2 t.primary_keys olds2 news2
    → All IsRegular olds1 × All IsRegular news1 × Alters op1 t.primary_keys olds1 news1
    → All IsRegular olds2 × All IsRegular news2 × Alters op2 t.primary_keys olds2 news2
    → KeepsEffective (merge_ops op1 op2 (entry op1 olds1 news1 t) (entry op2 olds2 news2 t2))
unfolding merge_ops
merge_ops-KeepsEffective insert insert olds1 news1 olds2 news2 t t2 w1 w2 a b = tt
merge_ops-KeepsEffective update insert olds1 news1 olds2 news2 t t2 w1 w2 a b = tt
merge_ops-KeepsEffective delete update olds1 news1 olds2 news2 t t2 w1 w2 a b = tt
merge_ops-KeepsEffective delete delete olds1 news1 olds2 news2 t t2 w1 w2 a b = tt
merge_ops-KeepsEffective insert delete olds1 news1 olds2 news2 t t2 w1 w2 a b = tt
merge_ops-KeepsEffective insert update olds1 news1 olds2 news2 t t2 w1 w2 a b =
    with_news-KeepsEffective (entry insert olds1 news1 t) _ refl a.0
      (overlay-RegularList t.primary_keys news1 news2 a.1 b.1)
merge_ops-KeepsEffective update update olds1 news1 olds2 news2 t t2 w1 w2 a b =
    if_required-KeepsEffective (entry update olds1 news1 t) _
      (merge_update-Effective t.primary_keys olds1 news1 olds2 news2 a.2.0 b.2.0 a.0 a.1 b.0 b.1)
merge_ops-KeepsEffective update delete olds1 news1 olds2 news2 t t2 w1 w2 a b =
    with_olds-KeepsEffective (entry update olds1 news1 t) _ a.1
      (backfill-RegularList t.primary_keys olds1 olds2 a.0 b.0)
merge_ops-KeepsEffective delete insert olds1 news1 olds2 news2 t t2 w1 w2 a b =
    if_required-KeepsEffective (entry delete olds1 news1 t) _
      (unfold merge_update in merge_columns-EffectiveRows t.primary_keys olds1 news2 w1 w2 a.0 b.1)
merge_ops-KeepsEffective (other c) _ olds1 news1 olds2 news2 t t2 w1 w2 a b = absurd w1
merge_ops-KeepsEffective _ (other c) olds1 news1 olds2 news2 t t2 w1 w2 a b = absurd w2

-- Of two well-formed changes of one table that each change a row, merging keeps a change that does.
pub merge_entries-KeepsEffective :
    (e1 e2 : ChangesetEntry)
    → e2.table.primary_keys ≡ e1.table.primary_keys
    → IsWellFormed e1
    → IsWellFormed e2
    → IsEffective e1
    → IsEffective e2
    → KeepsEffective (merge_entries e1 e2)
unfolding merge_entries
merge_entries-KeepsEffective e1 e2 same w1 w2 a b =
    merge_ops-KeepsEffective e1.op e2.op e1.old_values e1.new_values e2.old_values e2.new_values
      e1.table e2.table w1 (rw same at w2) a (rw same at b)
