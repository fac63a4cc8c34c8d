-- ===== src/Changeset/Merge/Keys.antt =====
-- The key of the row that an entry names, before and after a merge.
use go_geodiff.Common.{
  ◌≡◌, ◌≢◌, refl, sym, ap, ◌∙◌, arith, Bool, true, false, List, [], ◌∷◌, Option, none, some,
}
use go_geodiff.Changeset.Types.{
  Value, OperationType, insert, update, delete, other, ChangesetTable, ChangesetEntry,
}
use go_geodiff.Changeset.Effect.{
  Row, Matches, Updates, RowColumns, UpdateColumns, Effect, Applies, Columns, IsWellFormed,
  key_values, key_source, key_of,
}

row_key :
    (pks : List Bool) (olds row : List Value)
    → RowColumns pks olds
    → Matches olds row
    → key_values pks olds ≡ key_values pks row
unfolding key_values
row_key [] [] [] w m = refl
row_key (true ∷ pks) (o ∷ olds) (c ∷ row) w m = ground (arith, row_key pks olds row)
row_key (false ∷ pks) (o ∷ olds) (c ∷ row) w m = row_key pks olds row w.2 m.1
row_key _ _ _ w m = ground arith

update_key :
    (pks : List Bool) (olds news row : List Value)
    → UpdateColumns pks olds news
    → Matches olds row
    → key_values pks olds ≡ key_values pks row
unfolding key_values
update_key [] [] [] [] w m = refl
update_key (true ∷ pks) (o ∷ olds) (n ∷ news) (c ∷ row) w m =
    ground (arith, update_key pks olds news row)
update_key (false ∷ pks) (o ∷ olds) (n ∷ news) (c ∷ row) w m = update_key pks olds news row w.1 m.1
update_key _ _ _ _ w m = ground arith

-- An UPDATE leaves the key of the row alone.
key_kept :
    (pks : List Bool) (olds news row row' : List Value)
    → UpdateColumns pks olds news
    → Updates news row row'
    → key_values pks row' ≡ key_values pks row
unfolding key_values
key_kept [] [] [] [] [] w u = refl
key_kept (true ∷ pks) (o ∷ olds) (n ∷ news) (c ∷ row) (d ∷ row') w u =
    ground (arith, key_kept pks olds news row row')
key_kept (false ∷ pks) (o ∷ olds) (n ∷ news) (c ∷ row) (d ∷ row') w u =
    key_kept pks olds news row row' w.1 u.1
key_kept _ _ _ _ _ w u = ground arith

-- Where there is a row, an entry that applies to it has its key.
key_at :
    (op : OperationType) (pks : List Bool) (olds news row : List Value) (s' : Option Row)
    → Columns op pks olds news
    → Effect op olds news (some row) s'
    → key_values pks (key_source op olds news) ≡ key_values pks row
key_at insert pks olds news row s' w f = absurd (ground (arith, f.0))
key_at delete pks olds news row s' w (r, e, gone, m) = row_key pks olds row w (ground arith)
key_at update pks olds news row s' w (r, r', e, e', m, u) =
    update_key pks olds news row w (ground arith)
key_at (other b) pks olds news row s' w f = absurd w

-- Where there is none, it is an INSERT, with the key of the new row.
key_new :
    (op : OperationType) (pks : List Bool) (olds news row' : List Value)
    → Effect op olds news none (some row')
    → key_values pks (key_source op olds news) ≡ key_values pks row'
key_new insert pks olds news row' f = ground (arith, f.1)
key_new delete pks olds news row' (r, e, gone, m) = cc
key_new update pks olds news row' (r, r', e, e', m, u) = cc
key_new (other b) pks olds news row' f = absurd f

-- A change of a row that stays keeps its key.
key_across :
    (op : OperationType) (pks : List Bool) (olds news row row' : List Value)
    → Columns op pks olds news
    → Effect op olds news (some row) (some row')
    → key_values pks row' ≡ key_values pks row
key_across insert pks olds news row row' w f = absurd (ground (arith, f.0))
key_across delete pks olds news row row' w (r, e, gone, m) = cc
key_across update pks olds news row row' w (r, r', e, e', m, u) =
    key_kept pks olds news row row' w (ground arith)
key_across (other b) pks olds news row row' w f = absurd w

from_none :
    (op : OperationType) (olds news : List Value) (s' : Option Row)
    → Effect op olds news none s'
    → s' ≢ none
from_none insert olds news s' f = λ q. ground (arith, f.1, q)
from_none delete olds news s' (r, e, gone, m) = λ q. cc
from_none update olds news s' (r, r', e, e', m, u) = λ q. cc
from_none (other b) olds news s' f = λ q. f

merged_key :
    (op1 op2 op : OperationType) (pks : List Bool) (olds1 news1 olds2 news2 olds news : List Value)
    (s s' s'' : Option Row)
    → Columns op1 pks olds1 news1
    → Columns op2 pks olds2 news2
    → Columns op pks olds news
    → Effect op1 olds1 news1 s s'
    → Effect op2 olds2 news2 s' s''
    → Effect op olds news s s''
    → key_values pks (key_source op olds news) ≡ key_values pks (key_source op1 olds1 news1)
merged_key op1 op2 op pks olds1 news1 olds2 news2 olds news (some row) s' s'' w1 w2 w f1 f2 f =
    key_at op pks olds news row s'' w f ∙ sym (key_at op1 pks olds1 news1 row s' w1 f1)
merged_key op1 op2 op pks olds1 news1 olds2 news2 olds news none (some row') (some row'') w1 w2 w f1
      f2 f =
    key_new op pks olds news row'' f
    ∙ key_across op2 pks olds2 news2 row' row'' w2 f2
    ∙ sym (key_new op1 pks olds1 news1 row' f1)
merged_key op1 op2 op pks olds1 news1 olds2 news2 olds news none (some row') none w1 w2 w f1 f2 f =
    absurd (from_none op olds news none f refl)
merged_key op1 op2 op pks olds1 news1 olds2 news2 olds news none none s'' w1 w2 w f1 f2 f =
    absurd (from_none op1 olds1 news1 none f1 refl)

-- Two changes in a row and one with the effect of both name the same row.
pub merged-key_of :
    (e1 e2 e : ChangesetEntry) (s s' s'' : Option Row)
    → e2.table.primary_keys ≡ e1.table.primary_keys
    → IsWellFormed e1
    → IsWellFormed e2
    → IsWellFormed e
    → e.table ≡ e1.table
    → Applies e1 s s'
    → Applies e2 s' s''
    → Applies e s s''
    → key_of e ≡ key_of e1
merged-key_of e1 e2 e s s' s'' same w1 w2 w t f1 f2 f =
    let pks : e.table.primary_keys ≡ e1.table.primary_keys =
      ap (λ (u : ChangesetTable). u.primary_keys) t in
    ap (λ p. key_values p (key_source e.op e.old_values e.new_values)) pks
    ∙ merged_key e1.op e2.op e.op e1.table.primary_keys e1.old_values e1.new_values e2.old_values
        e2.new_values e.old_values e.new_values s s' s'' w1 (rw same at w2) (rw pks at w) f1 f2 f
