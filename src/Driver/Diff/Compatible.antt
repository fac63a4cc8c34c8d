-- ===== src/Driver/Diff/Compatible.antt =====
-- What `CreateChangeset` requires of the two databases.
use go_geodiff.Common.{
  ◌≡◌, refl, sym, ◌∙◌, ap, arith, ◌⊎◌, inl, inr, Bool, true, false, not, ◌&&◌, List, [], ◌∷◌,
  if◌then◌else◌, Bytes, equal_bytes_iff, Bool-cases,
}
use go_geodiff.Result.{Error, Result, ok, err}
use go_geodiff.Changeset.Writer.{Writer}
use go_geodiff.Schema.{TableSchema, equal, compare_with_base_types}
use go_geodiff.Driver.{Answer, failed, answered, Step, continue, required, lift}
use go_geodiff.Driver.Diff.{
  base_side, modified_side, Source, same_tables, list_tables, compare_table, diff_table,
  diff_tables, diff_same_tables, create_changeset,
}

-- Each table, with the schema of either side.
abbrev pub Compatible : Source → List Bytes → Type 0
Compatible src [] = Unit {0}
Compatible src (name ∷ names) =
    ((old new : TableSchema) × (src.schema_of name base_side ≡ answered old)
      × (src.schema_of name modified_side ≡ answered new)
      × ((equal old new ≡ true) ⊎ (compare_with_base_types old new ≡ true)))
    × Compatible src names

same_tables_lem : (as' bs : List Bytes) → same_tables as' bs ≡ true → as' ≡ bs
unfolding same_tables
same_tables_lem [] [] h = refl
same_tables_lem (a ∷ as') (b ∷ bs) h = ground (arith, equal_bytes_iff a b, same_tables_lem as' bs)
same_tables_lem [] (b ∷ bs) h = cc
same_tables_lem (a ∷ as') [] h = cc

module _ (src : Source) (to_upper : Bytes → Bytes) where
  -- A step that succeeded did so after its first part did.
  continue_ok :
      {S A B : Type 0} (r : Result A) (f : A → Step S B) (s : S) (b : B)
      → (continue r f s).0 ≡ ok b
      → (a : A) × (r ≡ ok a) × ((f a s).0 ≡ ok b)
  continue_ok (ok a) f s b h = (a, refl, h)
  continue_ok (err e) f s b h = cc

  required_ok : {A : Type 0} (r : Answer A) (a : A) → required r ≡ ok a → r ≡ answered a
  required_ok (failed msg) a h = cc
  required_ok (answered x) a h = ground (arith, h)

  -- A check that refuses let it pass.
  check_ok :
      {S B : Type 0} (refused : Bool) (x : Error) (m : Step S B) (s : S) (b : B)
      → ((if refused then lift (err x) else m) s).0 ≡ ok b
      → (refused ≡ false) × ((m s).0 ≡ ok b)
  check_ok true x m s b h = cc
  check_ok false x m s b h = (refl, h)

  compare_table_ok :
      (name : Bytes) (old new : TableSchema) (w : Writer)
      → (compare_table src to_upper name old new w).0 ≡ ok tt
      → (equal old new ≡ true) ⊎ (compare_with_base_types old new ≡ true)
  unfolding compare_table
  compare_table_ok name old new w h =
      let (passed, rest) =
        check_ok (not (equal old new) && not (compare_with_base_types old new)) _ _ w tt h in
      elim (Bool-cases (equal old new)) [ inl e ↦ inl e | inr e ↦ inr (ground (arith, e, passed)) ]

  diff_tables-Compatible :
      (names : List Bytes) (w : Writer)
      → (diff_tables src to_upper names w).0 ≡ ok tt
      → Compatible src names
  unfolding diff_tables diff_table
  diff_tables-Compatible [] w h = tt
  diff_tables-Compatible (name ∷ names) w h =
      let (u, hd, hrest) =
        continue_ok (diff_table src to_upper name w).0 (λ _. diff_tables src to_upper names)
          (diff_table src to_upper name w).1 tt h in
      let (old, h1, h2) = continue_ok (required (src.schema_of name base_side)) _ w tt hd in
      let (new, h3, h4) = continue_ok (required (src.schema_of name modified_side)) _ w tt h2 in
      (
        (old, new, required_ok _ old h1, required_ok _ new h3, compare_table_ok name old new w h4),
        diff_tables-Compatible names (diff_table src to_upper name w).1 hrest,
      )

  -- `CreateChangeset` succeeds only where a modified database is open, both databases list the same
  -- tables in the same order, and each table has on both sides a schema that is equal, or equal but for
  -- the database's names of the column types.
  pub create_changeset-Compatible :
      (w : Writer)
      → (create_changeset src to_upper w).0 ≡ ok tt
      → (src.has_modified ≡ true)
        × (names : List Bytes) × (list_tables src base_side ≡ ok names)
        × (list_tables src modified_side ≡ ok names)
        × Compatible src names
  unfolding create_changeset diff_same_tables
  create_changeset-Compatible w h =
      let (opened, h1) = check_ok (not src.has_modified) _ _ w tt h in
      let (old, e1, h2) = continue_ok (list_tables src base_side) _ w tt h1 in
      let (new, e2, h3) = continue_ok (list_tables src modified_side) _ w tt h2 in
      let (same, h4) = check_ok (not (same_tables old new)) _ _ w tt h3 in
      let eq : old ≡ new = same_tables_lem old new (ground (arith, same)) in
      (
        ground (arith, opened),
        old,
        e1,
        e2 ∙ ap (λ t. ok t) (sym eq),
        diff_tables-Compatible old w h4,
      )
