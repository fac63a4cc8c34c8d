-- ===== src/Changeset/Merge/Correct.antt =====
-- `mergeEntriesForRow` against the effect of the two changes, one after the other.
use go_geodiff.Common.{◌≡◌, refl, ap, arith, Bool, true, false, List, [], ◌∷◌, Option, some}
use go_geodiff.Result.{Result, ok, err, ◌>>=◌}
use go_geodiff.Changeset.Types.{
  Value, OperationType, insert, update, delete, other, ChangesetTable, ChangesetEntry,
}
use go_geodiff.Changeset.Effect.{
  Row, Matches, Updates, RowColumns, UpdateColumns, Effect, Applies, Columns, IsWellFormed,
  key_values, key_source, key_of,
}
use go_geodiff.Changeset.Merge.{
  merge_columns, merge_update, if_required, MergeResult, modified, removed, unsupported, merge_ops,
  merge_entries,
}
use go_geodiff.Changeset.Merge.Columns.{
  Merged, merge_columns-Updates, merge_columns-replaced, backfill_lem, overlay_lem,
}

-- What merging must answer for changes that lead from `s` to `s'`.
abbrev pub Combines : ChangesetEntry → Option Row → Option Row → Result MergeResult → Type 0
Combines e1 s s' (ok (modified e)) = Applies e s s' × IsWellFormed e × (e.table ≡ e1.table)
Combines e1 s s' (ok removed) = s' ≡ s
Combines e1 s s' (ok unsupported) = ⊥
Combines e1 s s' (err x) = ⊥

if_required-Combines :
    (e : ChangesetEntry) (row row' : Row) (r : Result (Bool × List Value × List Value))
    → Merged e.table.primary_keys row row' r
    → Combines e (some row) (some row') (r >>= λ merged. ok (if_required e merged))
if_required-Combines e row row' (err x) h = h
if_required-Combines e row row' (ok (true, olds, news)) (w, m, u, k) =
    ((row, row', refl, refl, m, u), w, refl)
if_required-Combines e row row' (ok (false, olds, news)) (w, m, u, k) = ap some (k refl)

merge_update-Updates :
    (pks : List Bool) (olds1 news1 olds2 news2 row mid row' : List Value)
    → UpdateColumns pks olds1 news1
    → UpdateColumns pks olds2 news2
    → Matches olds1 row
    → Updates news1 row mid
    → Matches olds2 mid
    → Updates news2 mid row'
    → Merged pks row row' (merge_update pks olds2 olds1 news1 news2)
unfolding merge_update
merge_update-Updates [] [] [] [] [] [] [] [] w1 w2 m1 u1 m2 u2 =
    unfold merge_columns in (tt, tt, tt, λ _. refl)
merge_update-Updates (pk ∷ pks) (o1 ∷ olds1) (n1 ∷ news1) (o2 ∷ olds2) (n2 ∷ news2) row mid row' w1
      w2 m1 u1 m2 u2 =
    merge_columns-Updates (pk ∷ pks) (o1 ∷ olds1) (n1 ∷ news1) (o2 ∷ olds2) (n2 ∷ news2) row mid
      row' w1 w2 m1 u1 m2 u2
merge_update-Updates _ _ _ _ _ _ _ _ w1 w2 m1 u1 m2 u2 = ground arith

merge_update-replaced :
    (pks : List Bool) (olds news row : List Value)
    → RowColumns pks olds
    → RowColumns pks news
    → Matches olds row
    → key_values pks olds ≡ key_values pks news
    → Merged pks row news (merge_update pks olds [] news [])
unfolding merge_update
merge_update-replaced pks olds news row r1 r2 m k =
    merge_columns-replaced pks olds news row r1 r2 m k

abbrev entry : OperationType → List Value → List Value → ChangesetTable → ChangesetEntry
entry op olds news t = record { op = op; old_values = olds; new_values = news; table = t }

merge_ops-Combines :
    (op1 op2 : OperationType) (olds1 news1 olds2 news2 : List Value) (t t2 : ChangesetTable)
    (s s' s'' : Option Row)
    → Columns op1 t.primary_keys olds1 news1
    → Columns op2 t.primary_keys olds2 news2
    → key_values t.primary_keys (key_source op1 olds1 news1)
      ≡ key_values t.primary_keys (key_source op2 olds2 news2)
    → Effect op1 olds1 news1 s s'
    → Effect op2 olds2 news2 s' s''
    → Combines
        (entry op1 olds1 news1 t)
        s
        s''
        (merge_ops op1 op2 (entry op1 olds1 news1 t) (entry op2 olds2 news2 t2))
unfolding merge_ops
merge_ops-Combines insert insert olds1 news1 olds2 news2 t t2 s s' s'' w1 w2 k f1 f2 = cc
merge_ops-Combines update insert olds1 news1 olds2 news2 t t2 s s' s'' w1 w2 k f1 f2 =
    cc (f1.3, f2.0)
merge_ops-Combines delete update olds1 news1 olds2 news2 t t2 s s' s'' w1 w2 k f1 f2 =
    cc (f1.2, f2.2)
merge_ops-Combines delete delete olds1 news1 olds2 news2 t t2 s s' s'' w1 w2 k f1 f2 =
    cc (f1.2, f2.1)
merge_ops-Combines insert delete olds1 news1 olds2 news2 t t2 s s' s'' w1 w2 k f1 f2 =
    cc (f1.0, f2.2)
merge_ops-Combines insert update olds1 news1 olds2 news2 t t2 s s' s'' w1 w2 k f1 f2 =
    let (row, row', h, h', m, u) = f2 in
    let same : row ≡ news1 = cc (f1.1, h) in
    let (e, whole) = overlay_lem t.primary_keys news1 olds2 news2 row' w1 w2 (rw same at u) in
    rw e ((f1.0, h'), whole, refl)
merge_ops-Combines update update olds1 news1 olds2 news2 t t2 s s' s'' w1 w2 k f1 f2 =
    let (row, mid, h, hm, m, u) = f1 in
    let (mid2, row', hm2, h', m2, u2) = f2 in
    let same : mid2 ≡ mid = cc (hm, hm2) in
    rw (h, h')
      (if_required-Combines (entry update olds1 news1 t) row row' _ (
        merge_update-Updates t.primary_keys olds1 news1 olds2 news2 row mid row' w1 w2 m u
          (rw same at m2) (rw same at u2)))
merge_ops-Combines update delete olds1 news1 olds2 news2 t t2 s s' s'' w1 w2 k f1 f2 =
    let (row, mid, h, hm, m, u) = f1 in
    let (mid2, hm2, h', m2) = f2 in
    let same : mid2 ≡ mid = cc (hm, hm2) in
    let (olds, e, whole, fits) =
      backfill_lem t.primary_keys olds1 news1 olds2 row mid w1 w2 m u (rw same at m2) in
    rw e ((row, h, h', fits), whole, refl)
merge_ops-Combines delete insert olds1 news1 olds2 news2 t t2 s s' s'' w1 w2 k f1 f2 =
    let (row, h, gone, m) = f1 in
    rw (h, f2.1)
      (if_required-Combines (entry delete olds1 news1 t) row news2 _
        (merge_update-replaced t.primary_keys olds1 news2 row w1 w2 m k))
merge_ops-Combines (other b) _ olds1 news1 olds2 news2 t t2 s s' s'' w1 w2 k f1 f2 = absurd w1
merge_ops-Combines _ (other b) olds1 news1 olds2 news2 t t2 s s' s'' w1 w2 k f1 f2 = absurd w2

-- Two well-formed changes of the same row of one table, without a negative zero, that can be applied one
-- after the other, from any row, are merged into one change with the effect of both, which is well-formed for the
-- same table; or they are dropped, and then they leave the row as it was. The merge never calls
-- them unsupported and never indexes out of range.
pub merge_entries-Combines :
    (e1 e2 : ChangesetEntry) (s s' s'' : Option Row)
    → e2.table.primary_keys ≡ e1.table.primary_keys
    → IsWellFormed e1
    → IsWellFormed e2
    → key_of e1 ≡ key_of e2
    → Applies e1 s s'
    → Applies e2 s' s''
    → Combines e1 s s'' (merge_entries e1 e2)
unfolding merge_entries
merge_entries-Combines e1 e2 s s' s'' same w1 w2 k f1 f2 =
    merge_ops-Combines e1.op e2.op e1.old_values e1.new_values e2.old_values e2.new_values e1.table
      e2.table s s' s'' w1 (rw same at w2) (rw same at k) f1 f2
