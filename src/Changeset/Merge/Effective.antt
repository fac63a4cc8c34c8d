-- ===== src/Changeset/Merge/Effective.antt =====
-- The loops of changeset/concat.go over the columns, for changes that alter the row.
use go_geodiff.Common.{
  ◌≡◌, ◌≢◌, refl, sym, ◌∙◌, ◌⊎◌, inl, inr, arith, Bool, true, false, ◌||◌, List, [], ◌∷◌,
  if◌then◌else◌, Option, none, some, Bool-cases, All,
}
use go_geodiff.Result.{Result, ok, err, ◌>>=◌}
use go_geodiff.Changeset.Types.{
  Value, undefined, int, double, text, blob, null, is_undefined, equal, OperationType, insert,
  update, delete, other, ChangesetEntry,
}
use go_geodiff.Changeset.Effect.{Row, Matches, Updates, RowColumns, Effect, Applies}
use go_geodiff.Changeset.Merge.{merge_value, out_old, out_new, requires, merge_columns}

-- A value that `Equal` joins with itself: any but a NaN.
abbrev pub IsRegular : Value → Type 0
IsRegular v = equal v v ≡ true

-- Beside its key columns an UPDATE gives a column both values or none.
abbrev pub ColumnPaired : Bool → Value → Value → Type 0
ColumnPaired true o n = Unit {0}
ColumnPaired false o n = is_undefined o ≡ is_undefined n

abbrev pub Paired : List Bool → List Value → List Value → Type 0
Paired [] [] [] = Unit {0}
Paired (pk ∷ pks) (o ∷ os) (n ∷ ns) = ColumnPaired pk o n × Paired pks os ns
Paired _ _ _ = ⊥

-- Some column gets another value than it had.
abbrev pub Differs : List Value → List Value → Type 0
Differs (o ∷ os) (n ∷ ns) =
    ((is_undefined o ≡ false) × (is_undefined n ≡ false) × (o ≢ n)) ⊎ Differs os ns
Differs _ _ = ⊥

abbrev pub Alters : OperationType → List Bool → List Value → List Value → Type 0
Alters update pks olds news = Paired pks olds news × Differs olds news
Alters _ pks olds news = Unit {0}

-- A change without a NaN that, if it is an UPDATE, alters a column, and gives no column beside the key
-- only one of its values.
abbrev pub IsEffective : ChangesetEntry → Type 0
IsEffective e =
    All IsRegular e.old_values
    × All IsRegular e.new_values
    × Alters e.op e.table.primary_keys e.old_values e.new_values

cell_changes :
    (o n c d : Value)
    → is_undefined o ≡ false
    → is_undefined n ≡ false
    → o ≢ n
    → (o ≡ undefined) ⊎ (o ≡ c)
    → d ≡ (if is_undefined n then c else n)
    → d ≢ c
cell_changes o n c d p q ne (inl h) u e = ground (arith, p, h)
cell_changes o n c d p q ne (inr h) u e = (let new : d ≡ n = rw q at u in ne (cc (h, new, e)))

Differs-changes :
    (olds news row row' : List Value)
    → Matches olds row
    → Updates news row row'
    → Differs olds news
    → row' ≢ row
Differs-changes (o ∷ os) (n ∷ ns) (c ∷ cs) (d ∷ ds) m u (inl (p, q, ne)) e =
    cell_changes o n c d p q ne m.0 u.0 (cc e)
Differs-changes (o ∷ os) (n ∷ ns) (c ∷ cs) (d ∷ ds) m u (inr later) e =
    Differs-changes os ns cs ds m.1 u.1 later (cc e)
Differs-changes _ _ _ _ m u h e = ground arith

Alters-changes :
    (op : OperationType) (pks : List Bool) (olds news : List Value) (s s' : Option Row)
    → Alters op pks olds news
    → Effect op olds news s s'
    → s' ≢ s
Alters-changes insert pks olds news s s' a (gone, there) e = cc (gone, there, e)
Alters-changes delete pks olds news s s' a (row, there, gone, m) e = cc (there, gone, e)
Alters-changes update pks olds news s s' a (row, row', h, h', m, u) e =
    Differs-changes olds news row row' m u a.1 (cc (h, h', e))
Alters-changes (other b) pks olds news s s' a f e = absurd f

-- An effective change changes the row.
pub IsEffective-changes :
    (e : ChangesetEntry) (s s' : Option Row) → IsEffective e → Applies e s s' → s' ≢ s
IsEffective-changes e s s' w f =
    Alters-changes e.op e.table.primary_keys e.old_values e.new_values s s' w.2 f

-- What the loop over the columns adds up to.
abbrev pub EffectiveColumns : List Bool → Result (Bool × List Value × List Value) → Type 0
EffectiveColumns pks (err e) = Unit {0}
EffectiveColumns pks (ok (required, olds, news)) =
    All IsRegular olds
    × All IsRegular news
    × Paired pks olds news
    × (required ≡ true → Differs olds news)

blank-IsRegular : IsRegular undefined
unfolding equal
blank-IsRegular = refl

is_undefined→eq : (v : Value) → is_undefined v ≡ true → v ≡ undefined
is_undefined→eq undefined h = refl
is_undefined→eq (int n) h = cc
is_undefined→eq (double n) h = cc
is_undefined→eq (text n) h = cc
is_undefined→eq (blob n) h = cc
is_undefined→eq null h = cc

-- Paired values that differ for `Equal` are given, and differ.
given_apart :
    (o n : Value)
    → IsRegular o
    → is_undefined o ≡ is_undefined n
    → equal o n ≡ false
    → (is_undefined o ≡ false) × (is_undefined n ≡ false) × (o ≢ n)
given_apart o n r p h = elim (Bool-cases (is_undefined o)) [
  | inl e ↦ absurd (
      let same : o ≡ undefined = is_undefined→eq o e in
      let same' : n ≡ undefined = is_undefined→eq n (sym p ∙ e) in
      let apart : equal undefined undefined ≡ false = rw (same, same') at h in apart_blank apart)
  | inr e ↦ (e, sym p ∙ e, λ q. (let here : equal o o ≡ false = rw (sym q) at h in cc (here, r)))
]
  where
    apart_blank : equal undefined undefined ≡ false → ⊥
    apart_blank h = cc (h, blank-IsRegular)

Effective-cons :
    (pk : Bool) (pks : List Bool) (v_old v_new : Value)
    (r : Result (Bool × List Value × List Value))
    → IsRegular v_old
    → IsRegular v_new
    → ColumnPaired pk v_old v_new
    → EffectiveColumns pks r
    → EffectiveColumns (pk ∷ pks) (
        r >>= λ (required, olds, news). ok (
          requires pk v_old v_new || required,
          out_old pk v_old v_new ∷ olds,
          out_new pk v_old v_new ∷ news,
        ))
Effective-cons pk pks v_old v_new (err x) a b p rest = tt
Effective-cons true pks v_old v_new (ok (required, olds, news)) a b p (c, d, q, f) =
    ((a, c), (blank-IsRegular, d), (tt, q), λ h. inr (f (ground (arith, h))))
Effective-cons false pks v_old v_new (ok (required, olds, news)) a b p (c, d, q, f) =
    elim (Bool-cases (equal v_old v_new)) [
      | inl e ↦ rw e ((blank-IsRegular, c), (blank-IsRegular, d), (refl, q), λ h. inr (f h))
      | inr e ↦ rw e ((a, c), (b, d), (p, q), λ h. inl (given_apart v_old v_new a p e))
    ]

merge_value-IsRegular : (v w : Value) → IsRegular v → IsRegular w → IsRegular (merge_value v w)
unfolding merge_value
merge_value-IsRegular v w a b = elim (Bool-cases (is_undefined w)) [
  | inl e ↦ rw e a
  | inr e ↦ rw e b
]

merge_value-ColumnPaired :
    (pk : Bool) (o1 n1 o2 n2 : Value)
    → ColumnPaired pk o1 n1
    → ColumnPaired pk o2 n2
    → ColumnPaired pk (merge_value o2 o1) (merge_value n1 n2)
unfolding merge_value
merge_value-ColumnPaired true o1 n1 o2 n2 p q = tt
merge_value-ColumnPaired false o1 n1 o2 n2 p q = ground arith

pub merge_columns-Effective :
    (pks : List Bool) (olds1 news1 olds2 news2 : List Value)
    → Paired pks olds1 news1
    → Paired pks olds2 news2
    → All IsRegular olds1
    → All IsRegular news1
    → All IsRegular olds2
    → All IsRegular news2
    → EffectiveColumns pks (merge_columns pks olds2 (some olds1) news1 (some news2))
unfolding merge_columns
merge_columns-Effective [] [] [] [] [] p q a b c d = (tt, tt, tt, λ h. cc)
merge_columns-Effective (pk ∷ pks) (o1 ∷ olds1) (n1 ∷ news1) (o2 ∷ olds2) (n2 ∷ news2) p q a b c d =
    Effective-cons pk pks (merge_value o2 o1) (merge_value n1 n2) _
      (merge_value-IsRegular o2 o1 c.0 a.0) (merge_value-IsRegular n1 n2 b.0 d.0)
      (merge_value-ColumnPaired pk o1 n1 o2 n2 p.0 q.0)
      (merge_columns-Effective pks olds1 news1 olds2 news2 p.1 q.1 a.1 b.1 c.1 d.1)
merge_columns-Effective _ _ _ _ _ p q a b c d = ground arith

blank-ColumnPaired :
    (pk : Bool) (o n : Value)
    → is_undefined o ≡ false
    → is_undefined n ≡ false
    → ColumnPaired pk (merge_value o undefined) (merge_value n undefined)
unfolding merge_value
blank-ColumnPaired true o n p q = tt
blank-ColumnPaired false o n p q = p ∙ sym q

pub merge_columns-EffectiveRows :
    (pks : List Bool) (olds news : List Value)
    → RowColumns pks olds
    → RowColumns pks news
    → All IsRegular olds
    → All IsRegular news
    → EffectiveColumns pks (merge_columns pks olds none news none)
unfolding merge_columns
merge_columns-EffectiveRows [] [] [] r1 r2 a b = (tt, tt, tt, λ h. cc)
merge_columns-EffectiveRows (pk ∷ pks) (o ∷ olds) (n ∷ news) r1 r2 a b =
    Effective-cons pk pks (merge_value o undefined) (merge_value n undefined) _
      (merge_value-IsRegular o undefined a.0 blank-IsRegular)
      (merge_value-IsRegular n undefined b.0 blank-IsRegular) (blank-ColumnPaired pk o n r1.0 r2.0)
      (merge_columns-EffectiveRows pks olds news r1.2 r2.2 a.1 b.1)
merge_columns-EffectiveRows _ _ _ r1 r2 a b = ground arith
