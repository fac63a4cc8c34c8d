-- ===== src/Changeset/Invert/Effects.antt =====
-- The inverse of an entry against the effect of the entry.
use go_geodiff.Common.{
  ◌≡◌, refl, sym, ap, ◌⊎◌, inr, arith, Bool, true, false, List, [], ◌∷◌, if◌then◌else◌, Option, All,
  length,
}
use go_geodiff.Result.{ok}
use go_geodiff.Changeset.Types.{
  Value, undefined, is_undefined, OperationType, insert, update, delete, other, ChangesetTable,
  ChangesetEntry,
}
use go_geodiff.Changeset.Effect.{
  Row, Matches, Updates, RowColumns, ColumnOk, UpdateColumns, Columns, Effect, Applies,
  IsWellFormed,
}
use go_geodiff.Changeset.Invert.{reverse_keys, invert_op, invert_entry}

-- The inverse of one UPDATE column.
abbrev back_old : Bool → Value → Value → Value
back_old pk o n = if pk then o else n

abbrev back_new : Bool → Value → Value → Value
back_new pk o n = if pk then undefined else o

reverse_keys-cons :
    (pk : Bool) (pks : List Bool) (o n : Value) (olds news os ns : List Value)
    → ColumnOk pk o n
    → reverse_keys pks news olds ≡ ok (os, ns)
    → reverse_keys (pk ∷ pks) (n ∷ news) (o ∷ olds)
      ≡ ok (back_old pk o n ∷ os, back_new pk o n ∷ ns)
unfolding reverse_keys
reverse_keys-cons true pks o n olds news os ns k e = rw e (ground arith)
reverse_keys-cons false pks o n olds news os ns k e = rw e refl

undoes_column :
    (pk : Bool) (o n c d : Value)
    → ColumnOk pk o n
    → (o ≡ undefined) ⊎ (o ≡ c)
    → d ≡ (if is_undefined n then c else n)
    → ((back_old pk o n ≡ undefined) ⊎ (back_old pk o n ≡ d))
      × (c ≡ (if is_undefined (back_new pk o n) then d else back_new pk o n))
undoes_column true o n c d k m u = ground arith
undoes_column false o n c d k m u = ground arith

reverse_keys_undo :
    (pks : List Bool) (olds news row row' : List Value)
    → UpdateColumns pks olds news
    → Matches olds row
    → Updates news row row'
    → (os ns : List Value) × (reverse_keys pks news olds ≡ ok (os, ns))
      × Matches os row'
      × Updates ns row' row
reverse_keys_undo [] [] [] [] [] w m u = ([], [], unfold reverse_keys in refl, tt, tt)
reverse_keys_undo (pk ∷ pks) (o ∷ olds) (n ∷ news) (c ∷ row) (d ∷ row') w m u =
    let (os, ns, e, m', u') = reverse_keys_undo pks olds news row row' w.1 m.1 u.1 in
    let (mc, uc) = undoes_column pk o n c d w.0 m.0 u.0 in
    (
      back_old pk o n ∷ os,
      back_new pk o n ∷ ns,
      reverse_keys-cons pk pks o n olds news os ns w.0 e,
      (mc, m'),
      (uc, u'),
    )
reverse_keys_undo _ _ _ _ _ w m u = ground arith

Matches-self : (vs : List Value) → Matches vs vs
Matches-self [] = tt
Matches-self (v ∷ vs) = (inr refl, Matches-self vs)

-- OLD values that are all given are the row.
whole-Matches :
    (pks : List Bool) (olds row : List Value) → RowColumns pks olds → Matches olds row → row ≡ olds
whole-Matches [] [] [] r m = refl
whole-Matches (pk ∷ pks) (o ∷ olds) (c ∷ row) r m = ground (arith, whole-Matches pks olds row)
whole-Matches _ _ _ r m = ground arith

invert_op_undoes :
    (op : OperationType) (olds news : List Value) (t : ChangesetTable) (s s' : Option Row)
    → Columns op t.primary_keys olds news
    → Effect op olds news s s'
    → (e' : ChangesetEntry) × (invert_op op
          (record { op = op; old_values = olds; new_values = news; table = t })
        ≡ ok e')
      × (e'.table ≡ t)
      × Applies e' s' s
unfolding invert_op
invert_op_undoes insert olds news t s s' w f = (_, refl, refl, (news, f.1, f.0, Matches-self news))
invert_op_undoes delete olds news t s s' w f =
    let (row, present, gone, m) = f in
    (_, refl, refl, (gone, rw (whole-Matches t.primary_keys olds row w m) at present))
invert_op_undoes update olds news t s s' w f =
    let (row, row', before, after, m, u) = f in
    let (os, ns, e, m', u') = reverse_keys_undo t.primary_keys olds news row row' w m u in
    (
      record { op = update; old_values = os; new_values = ns; table = t },
      rw e,
      refl,
      (row', row, after, before, m', u'),
    )
invert_op_undoes (other b) olds news t s s' w f = absurd w

-- The inverse of a well-formed change, without a negative zero, exists, is a change of the same table, and takes every row
-- that the change leads to back to the row that it came from.
pub invert_entry_undoes :
    (e : ChangesetEntry) (s s' : Option Row)
    → IsWellFormed e
    → Applies e s s'
    → (e' : ChangesetEntry) × (invert_entry e ≡ ok e') × (e'.table ≡ e.table) × Applies e' s' s
unfolding invert_entry
invert_entry_undoes e s s' w f = invert_op_undoes e.op e.old_values e.new_values e.table s s' w f

restores_column :
    (pk : Bool) (pks : List Bool) (o n : Value) (olds news os ns : List Value)
    → ColumnOk pk o n
    → reverse_keys pks ns os ≡ ok (olds, news)
    → reverse_keys (pk ∷ pks) (back_new pk o n ∷ ns) (back_old pk o n ∷ os)
      ≡ ok (o ∷ olds, n ∷ news)
unfolding reverse_keys
restores_column true pks o n olds news os ns k e = rw (e, k.1)
restores_column false pks o n olds news os ns k e = rw e refl

-- What the values of an inverted UPDATE inherit: they are as many, and have what the values had, if the
-- undefined value has it.
abbrev pub Inherits : List Bool → List Value → List Value → List Value → List Value → Type 1
Inherits pks olds news os ns =
    (length os ≡ length pks)
    × (length ns ≡ length pks)
    × ((P : Value → Type 0) → P undefined → All P olds → All P news → All P os × All P ns)

inherits_column :
    (pk : Bool) (o n : Value) (os ns : List Value) (P : Value → Type 0)
    → P undefined
    → P o
    → P n
    → All P os × All P ns
    → All P (back_old pk o n ∷ os) × All P (back_new pk o n ∷ ns)
inherits_column true o n os ns P u p q r = ((p, r.0), (u, r.1))
inherits_column false o n os ns P u p q r = ((q, r.0), (p, r.1))

pub restores_keys :
    (pks : List Bool) (olds news : List Value)
    → UpdateColumns pks olds news
    → (os ns : List Value) × (reverse_keys pks news olds ≡ ok (os, ns))
      × (reverse_keys pks ns os ≡ ok (olds, news))
      × Inherits pks olds news os ns
restores_keys [] [] [] w = (
  [],
  [],
  unfold reverse_keys in refl,
  unfold reverse_keys in refl,
  (refl, refl, λ P u p q. (tt, tt)),
)
restores_keys (pk ∷ pks) (o ∷ olds) (n ∷ news) w =
    let (os, ns, there, back, k) = restores_keys pks olds news w.1 in
    (
      back_old pk o n ∷ os,
      back_new pk o n ∷ ns,
      reverse_keys-cons pk pks o n olds news os ns w.0 there,
      restores_column pk pks o n olds news os ns w.0 back,
      (
        omega (arith, k.0),
        omega (arith, k.1),
        λ P u p q. inherits_column pk o n os ns P u p.0 q.0 (k.2 P u p.1 q.1),
      ),
    )
restores_keys _ _ _ w = absurd (ground arith)

-- The slice that an operation does not use is empty, as a reader leaves it.
abbrev pub UnusedEmpty : OperationType → List Value → List Value → Type 0
UnusedEmpty insert olds news = olds ≡ []
UnusedEmpty delete olds news = news ≡ []
UnusedEmpty op olds news = Unit {0}

invert_op_twice :
    (op : OperationType) (olds news : List Value) (t : ChangesetTable)
    → Columns op t.primary_keys olds news
    → UnusedEmpty op olds news
    → (e' : ChangesetEntry) × (invert_op op
          (record { op = op; old_values = olds; new_values = news; table = t })
        ≡ ok e')
      × (invert_entry e' ≡ ok (record { op = op; old_values = olds; new_values = news; table = t }))
unfolding invert_op invert_entry
invert_op_twice insert olds news t w u = (
  _,
  refl,
  ap (λ os. ok (record { op = insert; old_values = os; new_values = news; table = t })) (sym u),
)
invert_op_twice delete olds news t w u = (
  _,
  refl,
  ap (λ ns. ok (record { op = delete; old_values = olds; new_values = ns; table = t })) (sym u),
)
invert_op_twice update olds news t w u =
    let (os, ns, there, back, k) = restores_keys t.primary_keys olds news w in
    (record { op = update; old_values = os; new_values = ns; table = t }, rw there, rw back)
invert_op_twice (other b) olds news t w u = absurd w

-- Inverting a well-formed entry, as a reader returns it, twice gives the entry back.
pub invert_entry_twice :
    (e : ChangesetEntry)
    → IsWellFormed e
    → UnusedEmpty e.op e.old_values e.new_values
    → (e' : ChangesetEntry) × (invert_entry e ≡ ok e') × (invert_entry e' ≡ ok e)
unfolding invert_entry
invert_entry_twice e w u = invert_op_twice e.op e.old_values e.new_values e.table w u
