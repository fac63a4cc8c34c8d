-- ===== src/Changeset/Merge/Columns.antt =====
-- The loops of changeset/concat.go over the columns, against the cells of a row.
use go_geodiff.Common.{
  ◌≡◌, refl, ◌⊎◌, inl, inr, arith, Bool, true, false, ◌||◌, List, [], ◌∷◌, if◌then◌else◌, none,
  some, Bool-cases,
}
use go_geodiff.Result.{Result, ok, err, ◌>>=◌}
use go_geodiff.Changeset.Types.{
  Value, undefined, int, double, text, blob, null, is_undefined, equal,
}
use go_geodiff.Changeset.Types.Equal.{IsExact, equal→eq}
use go_geodiff.Changeset.Effect.{
  Row, Matches, Updates, RowColumns, ColumnOk, UpdateColumns, key_values,
}
use go_geodiff.Changeset.Merge.{
  merge_value, out_old, out_new, requires, merge_columns, overlay, backfill,
}

is_undefined→eq : (v : Value) → is_undefined v ≡ true → v ≡ undefined
is_undefined→eq undefined h = refl
is_undefined→eq (int n) h = cc
is_undefined→eq (double n) h = cc
is_undefined→eq (text n) h = cc
is_undefined→eq (blob n) h = cc
is_undefined→eq null h = cc

-- An INSERT and an UPDATE of the row that it made.
pub overlay_lem :
    (pks : List Bool) (news1 olds2 news2 row : List Value)
    → RowColumns pks news1
    → UpdateColumns pks olds2 news2
    → Updates news2 news1 row
    → (overlay pks news1 news2 ≡ ok row) × RowColumns pks row
unfolding overlay
overlay_lem [] [] [] [] [] r u d = (refl, tt)
overlay_lem (pk ∷ pks) (w ∷ news1) (o ∷ olds2) (v ∷ news2) (c ∷ row) r u d =
    ground (arith, overlay_lem pks news1 olds2 news2 row)
overlay_lem _ _ _ _ _ r u d = ground arith

-- What the loop answers for two UPDATEs of a row that they take from `row` over `mid` to `row'`.
abbrev pub Merged : List Bool → Row → Row → Result (Bool × List Value × List Value) → Type 0
Merged pks row row' (err e) = ⊥
Merged pks row row' (ok (required, olds, news)) =
    UpdateColumns pks olds news
    × Matches olds row
    × Updates news row row'
    × (required ≡ false → row' ≡ row)

-- One column of it.
abbrev MergedColumn : Bool → Value → Value → Value → Value → Type 0
MergedColumn pk c e v_old v_new =
    ColumnOk pk (out_old pk v_old v_new) (out_new pk v_old v_new)
    × ((out_old pk v_old v_new ≡ undefined) ⊎ (out_old pk v_old v_new ≡ c))
    × (e ≡ (if is_undefined (out_new pk v_old v_new) then c else out_new pk v_old v_new))
    × (requires pk v_old v_new ≡ false → e ≡ c)

key_column :
    (c e v_old v_new : Value)
    → is_undefined v_old ≡ false
    → IsExact v_old
    → v_old ≡ c
    → e ≡ c
    → MergedColumn true c e v_old v_new
key_column c e v_old v_new defined exact m u = ((defined, refl, exact), inr m, u, λ _. u)

data_column :
    (c e v_old v_new : Value)
    → IsExact v_old
    → IsExact v_new
    → (v_old ≡ undefined) ⊎ (v_old ≡ c)
    → (is_undefined v_old ≡ false) ⊎ (v_new ≡ undefined)
    → e ≡ (if is_undefined v_new then c else v_new)
    → MergedColumn false c e v_old v_new
data_column c e v_old v_new x_old x_new m k u = elim (Bool-cases (equal v_old v_new)) [
  | inl same ↦ rw same (
      let together : v_old ≡ v_new = equal→eq v_old v_new x_old x_new same in
      let kept : e ≡ c = ground arith in (ground arith, ground arith, kept, λ _. kept))
  | inr differ ↦ rw differ (ground arith, m, u, λ h. cc)
]

merged_column :
    (pk : Bool) (o1 n1 o2 n2 c d e : Value)
    → ColumnOk pk o1 n1
    → ColumnOk pk o2 n2
    → (o1 ≡ undefined) ⊎ (o1 ≡ c)
    → d ≡ (if is_undefined n1 then c else n1)
    → (o2 ≡ undefined) ⊎ (o2 ≡ d)
    → e ≡ (if is_undefined n2 then d else n2)
    → MergedColumn pk c e (merge_value o2 o1) (merge_value n1 n2)
unfolding merge_value
merged_column true o1 n1 o2 n2 c d e k1 k2 m1 u1 m2 u2 =
    key_column c e _ _ (ground arith) (ground arith) (ground arith) (ground arith)
merged_column false o1 n1 o2 n2 c d e k1 k2 m1 u1 m2 u2 =
    data_column c e _ _ (ground arith) (ground arith) (ground arith) (ground arith) (ground arith)

-- The loop over the remaining columns, and the answer for one more in front.
Merged-cons :
    (pk : Bool) (pks : List Bool) (c e v_old v_new : Value) (row row' : Row)
    (r : Result (Bool × List Value × List Value))
    → MergedColumn pk c e v_old v_new
    → Merged pks row row' r
    → Merged (pk ∷ pks) (c ∷ row) (e ∷ row') (
        r >>= λ (required, olds, news). ok (
          requires pk v_old v_new || required,
          out_old pk v_old v_new ∷ olds,
          out_new pk v_old v_new ∷ news,
        ))
Merged-cons pk pks c e v_old v_new row row' (err x) m rest = rest
Merged-cons pk pks c e v_old v_new row row' (ok (required, olds, news)) m rest =
    ((m.0, rest.0), (m.1, rest.1), (m.2, rest.2), λ h. ground (arith, m.3, rest.3))

-- Two UPDATEs.
pub merge_columns-Updates :
    (pks : List Bool) (olds1 news1 olds2 news2 row mid row' : List Value)
    → UpdateColumns pks olds1 news1
    → UpdateColumns pks olds2 news2
    → Matches olds1 row
    → Updates news1 row mid
    → Matches olds2 mid
    → Updates news2 mid row'
    → Merged pks row row' (merge_columns pks olds2 (some olds1) news1 (some news2))
unfolding merge_columns
merge_columns-Updates [] [] [] [] [] [] [] [] w1 w2 m1 u1 m2 u2 = (tt, tt, tt, λ _. refl)
merge_columns-Updates (pk ∷ pks) (o1 ∷ olds1) (n1 ∷ news1) (o2 ∷ olds2) (n2 ∷ news2) (c ∷ row)
      (d ∷ mid) (e ∷ row') w1 w2 m1 u1 m2 u2 =
    Merged-cons pk pks c e (merge_value o2 o1) (merge_value n1 n2) row row' _
      (merged_column pk o1 n1 o2 n2 c d e w1.0 w2.0 m1.0 u1.0 m2.0 u2.0)
      (merge_columns-Updates pks olds1 news1 olds2 news2 row mid row' w1.1 w2.1 m1.1 u1.1 m2.1 u2.1)
merge_columns-Updates _ _ _ _ _ _ _ _ w1 w2 m1 u1 m2 u2 = ground arith

-- A DELETE of a whole row and an INSERT under the same key.
pub merge_columns-replaced :
    (pks : List Bool) (olds news row : List Value)
    → RowColumns pks olds
    → RowColumns pks news
    → Matches olds row
    → key_values pks olds ≡ key_values pks news
    → Merged pks row news (merge_columns pks olds none news none)
unfolding merge_columns key_values
merge_columns-replaced [] [] [] [] r1 r2 m k = (tt, tt, tt, λ _. refl)
merge_columns-replaced (true ∷ pks) (o ∷ olds) (n ∷ news) (c ∷ row) r1 r2 m k =
    Merged-cons true pks c n (merge_value o undefined) (merge_value n undefined) row news _
      (unfold merge_value in
        key_column c n o n (ground arith) (ground arith) (ground arith) (ground arith))
      (merge_columns-replaced pks olds news row (ground arith) (ground arith) (ground arith)
        (ground arith))
merge_columns-replaced (false ∷ pks) (o ∷ olds) (n ∷ news) (c ∷ row) r1 r2 m k =
    Merged-cons false pks c n (merge_value o undefined) (merge_value n undefined) row news _
      (unfold merge_value in
        data_column c n o n (ground arith) (ground arith) (ground arith) (ground arith)
          (ground arith))
      (merge_columns-replaced pks olds news row (ground arith) (ground arith) (ground arith) k)
merge_columns-replaced _ _ _ _ r1 r2 m k = ground arith

backfill_column :
    (pk : Bool) (o1 n1 o2 c d : Value)
    → ColumnOk pk o1 n1
    → is_undefined o2 ≡ false
    → IsExact o2
    → (o1 ≡ undefined) ⊎ (o1 ≡ c)
    → d ≡ (if is_undefined n1 then c else n1)
    → (o2 ≡ undefined) ⊎ (o2 ≡ d)
    → (is_undefined (if is_undefined o1 then o2 else o1) ≡ false)
      × IsExact (if is_undefined o1 then o2 else o1)
      × (((if is_undefined o1 then o2 else o1) ≡ undefined)
          ⊎ ((if is_undefined o1 then o2 else o1) ≡ c))
backfill_column true o1 n1 o2 c d k def exact m1 u m2 = ground arith
backfill_column false o1 n1 o2 c d k def exact m1 u m2 = ground arith

-- An UPDATE and a DELETE of the row that it left.
pub backfill_lem :
    (pks : List Bool) (olds1 news1 olds2 row mid : List Value)
    → UpdateColumns pks olds1 news1
    → RowColumns pks olds2
    → Matches olds1 row
    → Updates news1 row mid
    → Matches olds2 mid
    → (olds : List Value) × (backfill pks olds1 olds2 ≡ ok olds)
      × RowColumns pks olds
      × Matches olds row
unfolding backfill
backfill_lem [] [] [] [] [] [] w r m1 u m2 = ([], refl, tt, tt)
backfill_lem (pk ∷ pks) (o1 ∷ olds1) (n1 ∷ news1) (o2 ∷ olds2) (c ∷ row) (d ∷ mid) w r m1 u m2 =
    let (olds, e, whole, m) =
      backfill_lem pks olds1 news1 olds2 row mid w.1 (ground arith) m1.1 u.1 m2.1 in
    let (def, exact, fits) = backfill_column pk o1 n1 o2 c d w.0 r.0 r.1 m1.0 u.0 m2.0 in
    ((if is_undefined o1 then o2 else o1) ∷ olds, rw e, (def, exact, whole), (fits, m))
backfill_lem _ _ _ _ _ _ w r m1 u m2 = ground arith
