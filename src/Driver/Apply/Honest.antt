-- ===== src/Driver/Apply/Honest.antt =====
-- The change of one entry, and the error that only the model has: it never comes up.
use go_geodiff.Common.{
  ℕ, ◌≢◌, arith, not, ◌==◌, Bool, true, false, List, [], ◌∷◌, ◌++◌, if◌then◌else◌, Bytes, length,
  Option, none, some,
}
use go_geodiff.Common.Maps.{lookup, bytes_key}
use go_geodiff.Result.{
  Error, Result, ok, err, sql_error, conflicts_encountered, could_not_resolve_dependencies,
  out_of_fuel, unexpected_operation,
}
use go_geodiff.Result
use go_geodiff.Changeset.Types.{
  Value, OperationType, insert, update, delete, other, ChangesetTable, ChangesetEntry,
}
use go_geodiff.Schema.{TableColumnInfo, TableSchema}
use go_geodiff.Driver.{
  Answer, failed, answered, Argument, Database, Step, continue, ◌>>=◌, pure, lift, required,
}
use go_geodiff.Driver.Sql.{
  skip_gpkg_table, is_constraint_error, clauses, where_clause, set_clause, insert_clauses,
}
use go_geodiff.Driver.Apply.{
  ChangeApplyResult, after_exec, one_inserted, any_affected, same_key_columns, check_table, Cache,
  must_exec, count_exec, apply_insert, apply_sets, apply_update, apply_delete, find_table, apply_op,
  apply_change,
}

-- No answer of the model's own: an error is one of the code's.
abbrev pub IsHonest : {A : Type 0} → Result A → Type 0
IsHonest (ok a) = Unit {0}
IsHonest (err e) = e ≢ out_of_fuel

pub honest_lem : {A : Type 0} (r : Result A) → IsHonest r → r ≢ err out_of_fuel
honest_lem (ok a) h = λ q. cc
honest_lem (err e) h = λ q. h (ground (arith, q))

pub required-IsHonest : {A : Type 0} (a : Answer A) → IsHonest (required a)
required-IsHonest (failed msg) = λ q. cc
required-IsHonest (answered a) = tt

-- A result that is passed on, after something was done with it.
mapped-IsHonest :
    {A B : Type 0} (r : Result A) (f : A → B)
    → IsHonest r
    → IsHonest (Result.◌>>=◌ r (λ a. ok (f a)))
mapped-IsHonest (ok a) f h = tt
mapped-IsHonest (err e) f h = h

clauses-IsHonest :
    (clause : Bytes → TableColumnInfo → Value → Bytes × List Argument) (sofar : Bytes)
    (cs : List TableColumnInfo) (vs : List Value)
    → IsHonest (clauses clause sofar cs vs)
unfolding clauses
clauses-IsHonest clause sofar [] vs = tt
clauses-IsHonest clause sofar (c ∷ cs) [] = λ q. cc
clauses-IsHonest clause sofar (c ∷ cs) (v ∷ vs) =
    mapped-IsHonest (clauses clause (clause sofar c v).0 cs vs) _
      (clauses-IsHonest clause (clause sofar c v).0 cs vs)

inserts-IsHonest :
    (first : Bool) (cs : List TableColumnInfo) (vs : List Value)
    → IsHonest (insert_clauses first cs vs)
unfolding insert_clauses
inserts-IsHonest first [] vs = tt
inserts-IsHonest first (c ∷ cs) [] = λ q. cc
inserts-IsHonest first (c ∷ cs) (v ∷ vs) =
    mapped-IsHonest (insert_clauses false cs vs) _ (inserts-IsHonest false cs vs)

if-IsHonest :
    {A : Type 0} (b : Bool) (r t : Result A)
    → IsHonest r
    → IsHonest t
    → IsHonest (if b then r else t)
if-IsHonest true r t h k = h
if-IsHonest false r t h k = k

exec-IsHonest :
    (count : ℕ → Result ChangeApplyResult) (a : Answer ℕ)
    → ((n : ℕ) → IsHonest (count n))
    → IsHonest (after_exec count a)
exec-IsHonest count (failed msg) h = if-IsHonest (is_constraint_error msg) _ _ tt (λ q. cc)
exec-IsHonest count (answered n) h = h n

check-IsHonest : (tbl : TableSchema) (t : ChangesetTable) → IsHonest (check_table tbl t)
unfolding check_table
check-IsHonest tbl t =
    if-IsHonest (length tbl.columns == 0) _ _ (λ q. cc)
      (if-IsHonest (not (length tbl.columns == length t.primary_keys)) _ _ (λ q. cc)
        (if-IsHonest (same_key_columns tbl.columns t.primary_keys) _ _ tt (λ q. cc)))

module _ {S : Type 0} where
  pub record Ends {A : Type 0} (m : Step S A) : Type 0 where
    pub runs : (s : S) → IsHonest (m s).0

module _ {S : Type 0} {A B : Type 0} where
  pub continue-IsHonest :
      (r : Result A) (f : A → Step S B) (s : S)
      → IsHonest r
      → ((a : A) → Ends (f a))
      → IsHonest (continue r f s).0
  continue-IsHonest (ok a) f s h k = (k a).runs s
  continue-IsHonest (err e) f s h k = h

  pub bind-Ends :
      (m : Step S A) (f : A → Step S B) → Ends m → ((a : A) → Ends (f a)) → Ends (m >>= f)
  bind-Ends m f hm hf = record { runs = λ s. continue-IsHonest (m s).0 f (m s).1 (hm.runs s) hf }

module _ {S : Type 0} {A : Type 0} where
  pub lift-Ends : (r : Result A) → IsHonest r → Ends (lift {S = S} r)
  lift-Ends r h = record { runs = λ s. h }

  pub if-Ends : (b : Bool) (m n : Step S A) → Ends m → Ends n → Ends (if b then m else n)
  if-Ends true m n h k = h
  if-Ends false m n h k = k

module _ {S : Type 0} (db : Database S) where
  count-Ends :
      (count : ℕ → Result ChangeApplyResult) (q : Bytes) (args : List Argument)
      → ((n : ℕ) → IsHonest (count n))
      → Ends (count_exec db count q args)
  count-Ends count q args h = record { runs = λ s. exec-IsHonest count (db.exec q args s).0 h }

  pub must-Ends : (q : Bytes) → Ends (must_exec db q)
  unfolding must_exec
  must-Ends q = record {
    runs = λ s.
        continue-IsHonest (required (db.exec q [] s).0) (λ n. pure tt) (db.exec q [] s).1
          (required-IsHonest (db.exec q [] s).0) (λ n. lift-Ends (ok tt) tt);
  }

  one_inserted-IsHonest : (n : ℕ) → IsHonest (one_inserted n)
  one_inserted-IsHonest n = if-IsHonest (not (n == 1)) _ _ (λ q. cc) tt

  any_affected-IsHonest : (n : ℕ) → IsHonest (any_affected n)
  any_affected-IsHonest n = if-IsHonest (n == 0) _ _ tt tt

  sets-Ends :
      (table : Bytes) (tbl : TableSchema) (e : ChangesetEntry) (sets : Bytes × List Argument)
      → Ends (apply_sets db table tbl e sets)
  unfolding apply_sets
  sets-Ends table tbl e ([], args) = lift-Ends (ok _) tt
  sets-Ends table tbl e (b ∷ sets, args) =
      bind-Ends _ _ (lift-Ends _ (clauses-IsHonest where_clause [] tbl.columns e.old_values))
        (λ tests. count-Ends any_affected _ (args ++ tests.1) any_affected-IsHonest)

  pub op-Ends :
      (op : OperationType) (table : Bytes) (tbl : TableSchema) (e : ChangesetEntry)
      → Ends (apply_op db op table tbl e)
  unfolding apply_op apply_insert apply_update apply_delete
  op-Ends insert table tbl e =
      bind-Ends _ _ (lift-Ends _ (inserts-IsHonest true tbl.columns e.new_values))
        (λ parts. count-Ends one_inserted _ parts.2 one_inserted-IsHonest)
  op-Ends update table tbl e =
      bind-Ends _ _ (lift-Ends _ (clauses-IsHonest set_clause [] tbl.columns e.new_values))
        (sets-Ends table tbl e)
  op-Ends delete table tbl e =
      bind-Ends _ _ (lift-Ends _ (clauses-IsHonest where_clause [] tbl.columns e.old_values))
        (λ tests. count-Ends any_affected _ tests.1 any_affected-IsHonest)
  op-Ends (other b) table tbl e = lift-Ends (err unexpected_operation) (λ q. cc)

  find-Ends :
      (t : ChangesetTable) (cache : Cache) (o : Option TableSchema) → Ends (find_table db t cache o)
  unfolding find_table
  find-Ends t cache (some tbl) = lift-Ends (ok _) tt
  find-Ends t cache none =
      bind-Ends _ _ (record { runs = λ s. required-IsHonest (db.table_schema t.name s) })
        (λ found. bind-Ends _ _ (lift-Ends _ (check-IsHonest found t)) (λ tbl. lift-Ends (ok _) tt))

  pub change-Ends : (cache : Cache) (e : ChangesetEntry) → Ends (apply_change db cache e)
  unfolding apply_change
  change-Ends cache e = if-Ends (skip_gpkg_table e.table.name) _ _ (lift-Ends (ok _) tt) (
      bind-Ends _ _ (find-Ends e.table cache (lookup e.table.name cache)) (λ found.
        bind-Ends _ _ (op-Ends e.op e.table.name found.0 e) (λ result. lift-Ends (ok _) tt)))
