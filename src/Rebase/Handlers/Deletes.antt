-- ===== src/Rebase/Handlers/Deletes.antt =====
-- driver/rebase.go: `handleDelete` on a row that theirs updated.
use go_geodiff.Common.{
  ℕ, ◌≡◌, refl, ◌⊎◌, inl, inr, arith, Bool, true, false, List, [], ◌∷◌, ◌==◌, if◌then◌else◌, none,
  some, Bool-cases,
}
use go_geodiff.Common.Maps.{lookup, nat_key}
use go_geodiff.Result.{ok}
use go_geodiff.Changeset.Types.{Value, undefined, int, is_undefined, delete, ChangesetEntry}
use go_geodiff.Changeset.Types.Equal.{IsExact}
use go_geodiff.Changeset.Effect.{
  Row, Matches, Updates, RowColumns, ColumnOk, UpdateColumns, Applies,
}
use go_geodiff.Rebase.{RebaseMapping, TableRebaseInfo, has_old_pkey, get_primary_key}
use go_geodiff.Rebase.Handlers.{
  ConflictFeature, Handled, rebased_pkey, patched_values, delete_columns, delete_with,
  handle_delete,
}
use go_geodiff.Rebase.Handlers.Specification.{HasKey}

delete_column :
    (w p o b t : Value)
    → ColumnOk false w p
    → is_undefined o ≡ false
    → IsExact o
    → t ≡ (if is_undefined p then b else p)
    → (o ≡ undefined) ⊎ (o ≡ b)
    → (d : Value) × ((if is_undefined p then ok o else ok p) ≡ ok d)
      × (is_undefined d ≡ false)
      × IsExact d
      × ((d ≡ undefined) ⊎ (d ≡ t))
delete_column w p o b t kt def exact ut m = elim (Bool-cases (is_undefined p)) [
  | inl up ↦ (o, rw up, def, exact, ground arith)
  | inr dp ↦ (p, rw dp, dp, kt.2, ground arith)
]

delete_columns-Matches :
    (pks : List Bool) (pk : ℕ) (w_olds patched olds base theirs : List Value)
    → UpdateColumns pks w_olds patched
    → Updates patched base theirs
    → RowColumns pks olds
    → Matches olds base
    → HasKey pks pk olds
    → (ds : List Value) × (delete_columns pks pk patched olds ≡ ok ds)
      × RowColumns pks ds
      × Matches ds theirs
unfolding delete_columns
delete_columns-Matches [] pk [] [] [] [] [] wt ut w m k = ([], refl, tt, tt)
delete_columns-Matches (true ∷ pks) pk (x ∷ w_olds) (p ∷ patched) (o ∷ olds) (b ∷ base) (t ∷ theirs)
      wt ut w m k =
    let (ds, ed, wd, md) =
      delete_columns-Matches pks pk w_olds patched olds base theirs wt.1 ut.1 w.2 m.1 k.1 in
    (int pk ∷ ds, rw ed, (refl, tt, wd), (ground arith, md))
delete_columns-Matches (false ∷ pks) pk (x ∷ w_olds) (p ∷ patched) (o ∷ olds) (b ∷ base)
      (t ∷ theirs) wt ut w m k =
    let (ds, ed, wd, md) =
      delete_columns-Matches pks pk w_olds patched olds base theirs wt.1 ut.1 w.2 m.1 k in
    let (d, e, def, exact, fits) = delete_column x p o b t wt.0 w.0 w.1 ut.0 m.0 in
    (d ∷ ds, rw (e, ed), (def, exact, wd), (fits, md))
delete_columns-Matches _ _ _ _ _ _ _ wt ut w m k = ground arith

-- Our DELETE of a row that theirs updated: theirs' NEW values are recorded under the key of our entry,
-- the mapping does not have that key, theirs' UPDATE fits the table, and our DELETE names a whole row.
-- When both changes start from the row `base`, and the cells
-- of its key columns are the integer key, the handler answers with a DELETE, to be written, that names
-- a whole row and applies to theirs' row, and reports no conflict.
pub handle_delete-Applies :
    (e : ChangesetEntry) (m : RebaseMapping) (info : TableRebaseInfo) (out : ChangesetEntry)
    (conflicts : List ConflictFeature) (pk : ℕ) (their_olds their_news : List Value)
    (base theirs : Row)
    → get_primary_key e ≡ ok pk
    → has_old_pkey m e.table.name pk ≡ false
    → lookup pk info.updated ≡ some their_news
    → UpdateColumns e.table.primary_keys their_olds their_news
    → Updates their_news base theirs
    → RowColumns e.table.primary_keys e.old_values
    → Matches e.old_values base
    → HasKey e.table.primary_keys pk e.old_values
    → (h : Handled) × (handle_delete e m info out conflicts ≡ ok h)
      × (h.write ≡ true)
      × RowColumns e.table.primary_keys h.out.old_values
      × Applies h.out (some theirs) none
      × (h.conflicts ≡ conflicts)
unfolding handle_delete rebased_pkey patched_values delete_with
handle_delete-Applies e m info out conflicts pk their_olds their_news base theirs key nm
      theirs_updated wt ut w mo k =
    let same : (pk == pk) ≡ true = ground arith in
    let (ds, ed, wd, md) =
      delete_columns-Matches e.table.primary_keys pk their_olds their_news e.old_values base theirs
        wt ut w mo k in
    (
      record {
        write = true;
        out = record out { op = delete; old_values = ds };
        conflicts = conflicts;
      },
      rw (key, nm, theirs_updated, same, ed),
      refl,
      wd,
      (theirs, refl, refl, md),
      refl,
    )
