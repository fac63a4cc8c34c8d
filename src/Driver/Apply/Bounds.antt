-- ===== src/Driver/Apply/Bounds.antt =====
-- The change of one entry and the indices of its values.
use go_geodiff.Common.{
  ℕ, equal_bytes_refl, ◌≤◌, ◌≡◌, ◌≢◌, refl, arith, not, ◌==◌, Bool, true, false, List, [], ◌∷◌,
  if◌then◌else◌, Bytes, length, Option, none, some,
}
use go_geodiff.Common.Maps.{lookup, lookup-insert, bytes_key}
use go_geodiff.Result.{
  Error, Result, ok, err, index_panic, unexpected_operation, wrong_number_of_columns,
  mismatch_of_primary_keys,
}
use go_geodiff.Result
use go_geodiff.Changeset.Types.{
  Value, OperationType, update, delete, other, ChangesetTable, column_count, ChangesetEntry,
}
use go_geodiff.Changeset.Types
use go_geodiff.Schema.{TableColumnInfo, TableSchema}
use go_geodiff.Driver.{
  Answer, failed, answered, Argument, Database, Step, continue, ◌>>=◌, pure, required,
}
use go_geodiff.Driver.Sql.{
  skip_gpkg_table, is_constraint_error, clauses, where_clause, set_clause, insert_clauses,
}
use go_geodiff.Driver.Apply.{
  ChangeApplyResult, apply_skipped, after_exec, one_inserted, any_affected, same_key_columns,
  check_table, Cache, count_exec, apply_insert, apply_sets, apply_update, apply_delete, find_table,
  apply_op, apply_change,
}

-- An answer that is no panic, of which something holds if it is no error.
abbrev Holds : {A : Type 0} → (A → Type 0) → Result A → Type 0
Holds P (ok a) = P a
Holds P (err e) = e ≢ index_panic

abbrev Any : {A : Type 0} → A → Type 0
Any a = Unit {0}

holds_lem : {A : Type 0} (P : A → Type 0) (r : Result A) → Holds P r → r ≢ err index_panic
holds_lem P (ok a) h = λ q. cc
holds_lem P (err e) h = λ q. h (ground (arith, q))

mapped-Holds :
    {A B : Type 0} (r : Result A) (f : A → B)
    → Holds Any r
    → Holds Any (Result.◌>>=◌ r (λ a. ok (f a)))
mapped-Holds (ok a) f h = tt
mapped-Holds (err e) f h = h

if-Holds :
    {A : Type 0} (P : A → Type 0) (b : Bool) (r t : Result A)
    → Holds P r
    → Holds P t
    → Holds P (if b then r else t)
if-Holds P true r t h k = h
if-Holds P false r t h k = k

answer-Holds : {A : Type 0} (a : Answer A) → Holds Any (required a)
answer-Holds (failed msg) = λ q. cc
answer-Holds (answered a) = tt

-- As many values as columns at least: no index is out of range.
clauses-Holds :
    (clause : Bytes → TableColumnInfo → Value → Bytes × List Argument) (sofar : Bytes)
    (cs : List TableColumnInfo) (vs : List Value)
    → length cs ≤ length vs
    → Holds Any (clauses clause sofar cs vs)
unfolding clauses
clauses-Holds clause sofar [] vs le = tt
clauses-Holds clause sofar (c ∷ cs) [] le = absurd (omega (arith, le))
clauses-Holds clause sofar (c ∷ cs) (v ∷ vs) le =
    mapped-Holds (clauses clause (clause sofar c v).0 cs vs) _
      (clauses-Holds clause (clause sofar c v).0 cs vs (omega (arith, le)))

inserts-Holds :
    (first : Bool) (cs : List TableColumnInfo) (vs : List Value)
    → length cs ≤ length vs
    → Holds Any (insert_clauses first cs vs)
unfolding insert_clauses
inserts-Holds first [] vs le = tt
inserts-Holds first (c ∷ cs) [] le = absurd (omega (arith, le))
inserts-Holds first (c ∷ cs) (v ∷ vs) le =
    mapped-Holds (insert_clauses false cs vs) _ (inserts-Holds false cs vs (omega (arith, le)))

exec-Holds :
    (count : ℕ → Result ChangeApplyResult) (a : Answer ℕ)
    → ((n : ℕ) → Holds Any (count n))
    → Holds Any (after_exec count a)
exec-Holds count (failed msg) h = if-Holds Any (is_constraint_error msg) _ _ tt (λ q. cc)
exec-Holds count (answered n) h = h n

one_inserted-Holds : (n : ℕ) → Holds Any (one_inserted n)
one_inserted-Holds n = if-Holds Any (not (n == 1)) _ _ (λ q. cc) tt

any_affected-Holds : (n : ℕ) → Holds Any (any_affected n)
any_affected-Holds n = if-Holds Any (n == 0) _ _ tt tt

-- A table that passes the check has the columns of the entry's table.
check_table-Holds :
    (tbl : TableSchema) (t : ChangesetTable)
    → Holds (λ found. length found.columns ≡ column_count t) (check_table tbl t)
unfolding check_table
check_table-Holds tbl t =
    if-Holds (λ found. length found.columns ≡ column_count t) (length tbl.columns == 0) _ _
      (λ q. cc) (go (length tbl.columns == length t.primary_keys) refl)
  where
    go :
        (b : Bool)
        → (length tbl.columns == length t.primary_keys) ≡ b
        → Holds
            (λ (found : TableSchema). length found.columns ≡ column_count t)
            (if not b
              then err wrong_number_of_columns
              else if same_key_columns tbl.columns t.primary_keys
              then ok tbl
              else err mismatch_of_primary_keys)
    go false e = λ q. cc
    go true e =
        if-Holds (λ found. length found.columns ≡ column_count t)
          (same_key_columns tbl.columns t.primary_keys) _ _ (ground (arith, e)) (λ q. cc)

-- The values that the operation reads are as many as the columns at least.
abbrev pub Counted : OperationType → ℕ → List Value → List Value → Type 0
Counted Types.insert n olds news = n ≤ length news
Counted update n olds news = (n ≤ length olds) × (n ≤ length news)
Counted delete n olds news = n ≤ length olds
Counted (other b) n olds news = Unit {0}

-- The table that is kept under a name, if one is, has the columns of an entry's table of that name.
abbrev pub Fits : ChangesetTable → Option TableSchema → Type 0
Fits t none = Unit {0}
Fits t (some tbl) = length tbl.columns ≡ column_count t

continue-Holds :
    {S A B : Type 0} (P : A → Type 0) (R : B → Type 0) (r : Result A) (f : A → Step S B) (s : S)
    → Holds P r
    → ((a : A) (s' : S) → P a → Holds R (f a s').0)
    → Holds R (continue r f s).0
continue-Holds P R (ok a) f s h k = k a s h
continue-Holds P R (err e) f s h k = h

module _ {S : Type 0} (db : Database S) where
  count-Holds :
      (count : ℕ → Result ChangeApplyResult) (q : Bytes) (args : List Argument) (s : S)
      → ((n : ℕ) → Holds Any (count n))
      → Holds Any (count_exec db count q args s).0
  count-Holds count q args s h = exec-Holds count (db.exec q args s).0 h

  sets-Holds :
      (table : Bytes) (tbl : TableSchema) (e : ChangesetEntry) (sets : Bytes × List Argument)
      (s : S)
      → length tbl.columns ≤ length e.old_values
      → Holds Any (apply_sets db table tbl e sets s).0
  unfolding apply_sets
  sets-Holds table tbl e ([], args) s le = tt
  sets-Holds table tbl e (b ∷ sets, args) s le =
      continue-Holds Any Any (clauses where_clause [] tbl.columns e.old_values) _ s
        (clauses-Holds where_clause [] tbl.columns e.old_values le)
        (λ tests s' _. count-Holds any_affected _ _ s' any_affected-Holds)

  op-Holds :
      (op : OperationType) (table : Bytes) (tbl : TableSchema) (e : ChangesetEntry) (s : S)
      → Counted op (length tbl.columns) e.old_values e.new_values
      → Holds Any (apply_op db op table tbl e s).0
  unfolding apply_op apply_insert apply_update apply_delete
  op-Holds Types.insert table tbl e s le =
      continue-Holds Any Any (insert_clauses true tbl.columns e.new_values) _ s
        (inserts-Holds true tbl.columns e.new_values le)
        (λ parts s' _. count-Holds one_inserted _ _ s' one_inserted-Holds)
  op-Holds update table tbl e s le =
      continue-Holds Any Any (clauses set_clause [] tbl.columns e.new_values) _ s
        (clauses-Holds set_clause [] tbl.columns e.new_values le.1)
        (λ sets s' _. sets-Holds table tbl e sets s' le.0)
  op-Holds delete table tbl e s le =
      continue-Holds Any Any (clauses where_clause [] tbl.columns e.old_values) _ s
        (clauses-Holds where_clause [] tbl.columns e.old_values le)
        (λ tests s' _. count-Holds any_affected _ _ s' any_affected-Holds)
  op-Holds (other b) table tbl e s le = λ q. cc

  -- The table that is found fits, and is kept.
  abbrev Found : ChangesetTable → TableSchema × Cache → Type 0
  Found t r = (length r.0.columns ≡ column_count t) × Fits t (lookup t.name r.1)

  find-Holds :
      (t : ChangesetTable) (cache : Cache) (s : S)
      → Fits t (lookup t.name cache)
      → Holds (Found t) (find_table db t cache (lookup t.name cache) s).0
  unfolding find_table
  find-Holds t cache s h = go (lookup t.name cache) refl h
    where
      go :
          (o : Option TableSchema)
          → lookup t.name cache ≡ o
          → Fits t o
          → Holds (Found t) (find_table db t cache o s).0
      go (some tbl) e h' = (h', rw e h')
      go none e h' =
          continue-Holds Any (Found t) (required (db.table_schema t.name s)) _ s
            (answer-Holds (db.table_schema t.name s))
            (λ found s' _.
              continue-Holds (λ tbl. length tbl.columns ≡ column_count t) (Found t)
                (check_table found t) _ s' (check_table-Holds found t)
                (λ tbl s2 k.
                  (k, rw (lookup-insert t.name t.name tbl cache, equal_bytes_refl t.name) k)))

  -- An entry with as many values as its table has columns, where the table that is kept under its name,
  -- if one is, has as many: `applyChange` never indexes out of range, whatever the database answers; and
  -- when it succeeds, the table that is then kept under the name still has as many columns.
  pub apply_change-Fits :
      (cache : Cache) (e : ChangesetEntry) (s : S)
      → Counted e.op (column_count e.table) e.old_values e.new_values
      → Fits e.table (lookup e.table.name cache)
      → ((apply_change db cache e s).0 ≢ err index_panic)
        × ((result : ChangeApplyResult × Cache)
            → (apply_change db cache e s).0 ≡ ok result
            → Fits e.table (lookup e.table.name result.1))
  unfolding apply_change
  apply_change-Fits cache e s counted fits =
      let all = applied (skip_gpkg_table e.table.name) in (holds_lem Kept _ all, kept_lem _ all)
    where
      Kept : ChangeApplyResult × Cache → Type 0
      Kept r = Fits e.table (lookup e.table.name r.1)

      kept_lem :
          (r : Result (ChangeApplyResult × Cache))
          → Holds Kept r
          → (result : ChangeApplyResult × Cache) → r ≡ ok result
          → Fits e.table (lookup e.table.name result.1)
      kept_lem (ok a) h result q = (let same : result ≡ a = ground (arith, q) in rw same h)
      kept_lem (err x) h result q = cc

      applied :
          (b : Bool)
          → Holds Kept
              ((if b then pure (apply_skipped, cache) else (do
                found ← find_table db e.table cache (lookup e.table.name cache)
                result ← apply_op db e.op e.table.name found.0 e
                pure (result, found.1)))
                s).0
      applied true = fits
      applied false =
          continue-Holds (Found e.table) Kept
            (find_table db e.table cache (lookup e.table.name cache) s).0 _
            (find_table db e.table cache (lookup e.table.name cache) s).1
            (find-Holds e.table cache s fits)
            (λ found s' k.
              continue-Holds Any Kept (apply_op db e.op e.table.name found.0 e s').0 _
                (apply_op db e.op e.table.name found.0 e s').1
                (op-Holds e.op e.table.name found.0 e s' (rw k.0 counted)) (λ result s2 _. k.1))
