-- ===== src/Changeset/Concat/Refines.antt =====
-- `ConcatChangesets` against the rows that the changes lead to. The rows are a function of the table's
-- name and the key string; `key_named` and `keys_of` say which key values a string stands for and which
-- key columns a table has.
use go_geodiff.Common.{
  ◌≡◌, ◌≢◌, refl, sym, ap, ◌∙◌, Bool, false, List, Bytes, equal_bytes, equal_bytes_refl, Option,
  none, some,
}
use go_geodiff.Common.Maps.{lookup, insert, lookup-insert, lookup-remove, bytes_key}
use go_geodiff.Result.{Result, ok, err, ◌>>=◌}
use go_geodiff.Changeset.Types.{Value, ChangesetTable, ChangesetEntry}
use go_geodiff.Changeset.Effect.{Row, Applies, IsWellFormed, key_of}
use go_geodiff.Changeset.Merge.{MergeResult, modified, removed, unsupported, merge_entries}
use go_geodiff.Changeset.Merge.Correct.{Combines, merge_entries-Combines}
use go_geodiff.Changeset.Merge.Effective.{IsEffective, IsEffective-changes}
use go_geodiff.Changeset.Merge.Kept.{KeepsEffective, merge_entries-KeepsEffective}
use go_geodiff.Changeset.Merge.Keys.{merged-key_of}
use go_geodiff.Changeset.Concat.{ConcatTable, owned, store, concat_row}

-- What is kept for one key: nothing if the row is as it was, or else an entry that leads from the row
-- as it was to the row as it is, which is another.
abbrev pub Follows :
    List Bool → List Value → Option ChangesetEntry → Option Row → Option Row → Type 0
Follows pks key none s s' = s' ≡ s
Follows pks key (some e) s s' =
    Applies e s s'
    × IsWellFormed e
    × (e.table.primary_keys ≡ pks)
    × (key_of e ≡ key)
    × IsEffective e
    × (s' ≢ s)

-- The merge of what is kept with one more change.
store-Follows :
    (pks : List Bool) (key : Bytes) (values : List Value) (existing e : ChangesetEntry)
    (ct : ConcatTable) (s s' s'' : Option Row) (m : MergeResult)
    → existing.table.primary_keys ≡ pks
    → e.table.primary_keys ≡ pks
    → IsWellFormed existing
    → IsWellFormed e
    → key_of existing ≡ values
    → Applies existing s s'
    → Applies e s' s''
    → Combines existing s s'' (ok m)
    → KeepsEffective (ok m)
    → Follows pks values (lookup key (store key m ct).entries) s s''
store-Follows pks key values existing e ct s s' s'' unsupported p1 p2 w1 w2 k f1 f2 c i = absurd c
store-Follows pks key values existing e ct s s' s'' removed p1 p2 w1 w2 k f1 f2 c i =
    rw (lookup-remove key key, equal_bytes_refl key) c
store-Follows pks key values existing e ct s s' s'' (modified m) p1 p2 w1 w2 k f1 f2 (f, w, t) i =
    rw (lookup-insert key key, equal_bytes_refl key)
      (
        f,
        w,
        ap (λ (u : ChangesetTable). u.primary_keys) t ∙ p1,
        merged-key_of existing e m s s' s'' (p2 ∙ sym p1) w1 w2 w t f1 f2 f ∙ k,
        i,
        IsEffective-changes m s s'' i f,
      )

-- Other keys are left alone.
store-others :
    (key j : Bytes) (m : MergeResult) (ct : ConcatTable)
    → equal_bytes key j ≡ false
    → lookup j (store key m ct).entries ≡ lookup j ct.entries
store-others key j (modified e) ct h = rw (lookup-insert key j, h) refl
store-others key j removed ct h = rw (lookup-remove key j, h) refl
store-others key j unsupported ct h = rw (lookup-remove key j, h) refl

-- One entry into the accumulator of its table.
abbrev pub Accumulates :
    List Bool
    → Bytes
    → List Value
    → ConcatTable
    → Option Row
    → Option Row
    → Result ConcatTable
    → Type 0
Accumulates pks key values ct s s'' (err x) = ⊥
Accumulates pks key values ct s s'' (ok ct') =
    Follows pks values (lookup key ct'.entries) s s''
    × ((j : Bytes) → equal_bytes key j ≡ false → lookup j ct'.entries ≡ lookup j ct.entries)
    × (ct'.table ≡ ct.table)

store_table : (key : Bytes) (m : MergeResult) (ct : ConcatTable) → (store key m ct).table ≡ ct.table
store_table key (modified e) ct = refl
store_table key removed ct = refl
store_table key unsupported ct = refl

merged-Accumulates :
    (pks : List Bool) (key : Bytes) (values : List Value) (existing e : ChangesetEntry)
    (ct : ConcatTable) (s s' s'' : Option Row) (r : Result MergeResult)
    → existing.table.primary_keys ≡ pks
    → e.table.primary_keys ≡ pks
    → IsWellFormed existing
    → IsWellFormed e
    → key_of existing ≡ values
    → Applies existing s s'
    → Applies e s' s''
    → Combines existing s s'' r
    → KeepsEffective r
    → Accumulates pks key values ct s s'' (do merged ← r; ok (store key merged ct))
merged-Accumulates pks key values existing e ct s s' s'' (err x) p1 p2 w1 w2 k f1 f2 c i = absurd c
merged-Accumulates pks key values existing e ct s s' s'' (ok m) p1 p2 w1 w2 k f1 f2 c i = (
  store-Follows pks key values existing e ct s s' s'' m p1 p2 w1 w2 k f1 f2 c i,
  λ j h. store-others key j m ct h,
  store_table key m ct,
)

pub concat_row-Accumulates :
    (pks : List Bool) (key : Bytes) (values : List Value) (e : ChangesetEntry) (ct : ConcatTable)
    (s s' s'' : Option Row)
    → ct.table.primary_keys ≡ pks
    → e.table.primary_keys ≡ pks
    → IsWellFormed e
    → IsEffective e
    → key_of e ≡ values
    → Follows pks values (lookup key ct.entries) s s'
    → Applies e s' s''
    → Accumulates pks key values ct s s'' (concat_row key e ct)
unfolding concat_row
concat_row-Accumulates pks key values e ct s s' s'' pt p2 w i k h f = go (lookup key ct.entries) h
  where
    same : ct.table.primary_keys ≡ e.table.primary_keys
    same = pt ∙ sym p2

    go :
        (o : Option ChangesetEntry)
        → Follows pks values o s s'
        → Accumulates pks key values ct s s'' (elim o [
          | none ↦ ok (record ct { entries = insert key (owned ct.table e) ct.entries })
          | some existing ↦ (do merged ← merge_entries existing e; ok (store key merged ct))
        ])
    go none h' = (
      rw (lookup-insert key key, equal_bytes_refl key)
          (
            rw h' at f,
            rw same w,
            pt,
            rw same k,
            rw same i,
            IsEffective-changes e s s'' i (rw h' at f),
          ),
      (λ j d. rw (lookup-insert key j, d) refl),
      refl,
    )
    go (some existing) (f1, w1, p1, k1, i1, _) =
        merged-Accumulates pks key values existing e ct s s' s'' (merge_entries existing e) p1 p2 w1
          w k1 f1 f
          (merge_entries-Combines existing e s s' s'' (p2 ∙ sym p1) w1 w (k1 ∙ sym k) f1 f)
          (merge_entries-KeepsEffective existing e (p2 ∙ sym p1) w1 w i1 i)
