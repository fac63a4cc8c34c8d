-- ===== src/Driver/Apply.antt =====
-- driver/sqlite.go: `ApplyChangeset` with the change of one entry, and the triggers of
-- driver/sqlite_utils.go that it drops and creates again. The context of a call is not modelled.
pub mod Inside
pub mod Kept
pub mod Rollback
pub mod Honest
pub mod Ends
pub mod Bounds
use go_geodiff.Common.{
  ℕ, zero, suc, ◌+◌, ◌==◌, ltb, Bool, true, false, not, ◌&&◌, ◌||◌, List, [], ◌∷◌, ◌++◌,
  if◌then◌else◌, Bytes, codes, length, Option, none, some,
}
use go_geodiff.Common.Maps.{Map, lookup, insert, bytes_key}
use go_geodiff.Common.Text.{has_one_of}
use go_geodiff.Result.{
  Error, Result, ok, err, is_panic, index_panic, out_of_fuel, sql_error, nothing_inserted,
  no_such_table, wrong_number_of_columns, mismatch_of_primary_keys, unexpected_operation,
  could_not_resolve_dependencies, conflicts_encountered,
}
use go_geodiff.Changeset.Types.{
  Value, OperationType, update, delete, other, ChangesetTable, ChangesetEntry, clone_entry,
}
use go_geodiff.Changeset.Types
use go_geodiff.Changeset.Reader.{Reader, for_each}
use go_geodiff.Schema.{TableColumnInfo, TableSchema, same_bool}
use go_geodiff.Driver.{
  Answer, failed, answered, Argument, Database, Step, continue, ◌>>=◌, ◌>>◌, pure, lift, required,
}
use go_geodiff.Driver.Sql.{
  skip_gpkg_table, is_constraint_error, clauses, set_clause, where_clause, insert_clauses,
  insert_statement, update_statement, delete_statement, drop_trigger_statement,
}

pub data ChangeApplyResult : Type 0 where
  apply_applied apply_skipped apply_constraint_conflict apply_no_change : ChangeApplyResult

-- What a statement's answer means: an error that is no violated constraint is returned.
abbrev pub after_exec : (ℕ → Result ChangeApplyResult) → Answer ℕ → Result ChangeApplyResult
after_exec count (failed msg) =
    if is_constraint_error msg then ok apply_constraint_conflict else err (sql_error msg)
after_exec count (answered n) = count n

abbrev pub one_inserted : ℕ → Result ChangeApplyResult
one_inserted n = if not (n == 1) then err nothing_inserted else ok apply_applied

abbrev pub any_affected : ℕ → Result ChangeApplyResult
any_affected n = if n == 0 then ok apply_no_change else ok apply_applied

-- The comparison of the key columns, on lists of one length.
unfoldable pub same_key_columns : List TableColumnInfo → List Bool → Bool
same_key_columns (c ∷ cs) (pk ∷ pks) =
    let rest = same_key_columns cs pks in
    if not (same_bool c.is_primary_key pk) then false else rest
same_key_columns _ _ = true

unfoldable pub check_table : TableSchema → ChangesetTable → Result TableSchema
check_table tbl t =
    if length tbl.columns == 0
    then err no_such_table
    else if not (length tbl.columns == length t.primary_keys)
    then err wrong_number_of_columns
    else if same_key_columns tbl.columns t.primary_keys
    then ok tbl
    else err mismatch_of_primary_keys

-- The triggers that are dropped and created again: the names and the commands.
abbrev pub system_triggers : List Bytes
system_triggers =
    codes "gpkg_"
    ∷ codes "rtree_"
    ∷ codes "trigger_insert_feature_count_"
    ∷ codes "trigger_delete_feature_count_"
    ∷ []

unfoldable pub user_triggers : List (Option (Bytes × Bytes)) → List (Bytes × Bytes)
user_triggers [] = []
user_triggers (none ∷ rows) = user_triggers rows
user_triggers (some (name, cmd) ∷ rows) =
    let rest = user_triggers rows in
    if length name == 0 || length cmd == 0
    then rest
    else if has_one_of name system_triggers
    then rest
    else (name, cmd) ∷ rest

-- The variables of `ApplyChangeset`.
pub record Progress : Type 0 where
  pub state : Map Bytes TableSchema
  pub table_copies : Map Bytes ChangesetTable
  pub conflicting : List ChangesetEntry
  pub unrecoverable : ℕ

abbrev pub started : Progress
started = record { state = []; table_copies = []; conflicting = []; unrecoverable = 0 }

abbrev pub copy_or : ChangesetTable → Option ChangesetTable → ChangesetTable
copy_or t none = t
copy_or t (some copy) = copy

-- The entry that is kept for a later try, with the first table of its name that was kept.
unfoldable pub keep_conflict : ChangesetEntry → Progress → Progress
keep_conflict e p =
    let copy = copy_or e.table (lookup e.table.name p.table_copies) in
    record p {
      table_copies = insert e.table.name copy p.table_copies;
      conflicting = p.conflicting ++ (record (clone_entry e) { table = copy } ∷ []);
    }

unfoldable pub tally : ChangesetEntry → ChangeApplyResult → Progress → Progress
tally e apply_applied p = p
tally e apply_skipped p = p
tally e apply_constraint_conflict p = keep_conflict e p
tally e apply_no_change p = record p { unrecoverable = p.unrecoverable + 1 }

-- In a later round: the entries that conflict once more, and the count.
abbrev pub tally_again :
    ChangesetEntry → ChangeApplyResult → List ChangesetEntry × ℕ → List ChangesetEntry × ℕ
tally_again e apply_applied r = r
tally_again e apply_skipped r = r
tally_again e apply_constraint_conflict r = (r.0 ++ (e ∷ []), r.1)
tally_again e apply_no_change r = (r.0, r.1 + 1)

abbrev pub savepoint : Bytes
savepoint = codes "SAVEPOINT changeset_apply"

abbrev pub rollback : Bytes
rollback = codes "ROLLBACK TO changeset_apply"

abbrev pub release : Bytes
release = codes "RELEASE changeset_apply"

abbrev pub defer_foreign_keys : Bytes
defer_foreign_keys = codes "PRAGMA defer_foreign_keys = 1"

abbrev pub Cache : Type 0
Cache = Map Bytes TableSchema

module _ {S : Type 0} (db : Database S) where
  -- A statement whose failure is returned.
  unfoldable pub must_exec : Bytes → Step S (Unit {0})
  must_exec query s = let (a, s') = db.exec query [] s in (continue (required a) (λ n. pure tt) s')

  abbrev pub count_exec :
      (ℕ → Result ChangeApplyResult) → Bytes → List Argument → Step S ChangeApplyResult
  count_exec count query args s = let (a, s') = db.exec query args s in (after_exec count a, s')

  unfoldable pub apply_insert : Bytes → TableSchema → ChangesetEntry → Step S ChangeApplyResult
  apply_insert table tbl e = do
    parts ← lift (insert_clauses true tbl.columns e.new_values)
    count_exec one_inserted (insert_statement table parts.0 parts.1) parts.2

  -- What follows the SET clauses of an UPDATE; an empty text is the end.
  unfoldable pub apply_sets :
      Bytes → TableSchema → ChangesetEntry → Bytes × List Argument → Step S ChangeApplyResult
  apply_sets table tbl e ([], args) = pure apply_no_change
  apply_sets table tbl e (b ∷ sets, args) = do
    tests ← lift (clauses where_clause [] tbl.columns e.old_values)
    count_exec any_affected (update_statement table (b ∷ sets) tests.0) (args ++ tests.1)

  unfoldable pub apply_update : Bytes → TableSchema → ChangesetEntry → Step S ChangeApplyResult
  apply_update table tbl e = do
    sets ← lift (clauses set_clause [] tbl.columns e.new_values)
    apply_sets table tbl e sets

  unfoldable pub apply_delete : Bytes → TableSchema → ChangesetEntry → Step S ChangeApplyResult
  apply_delete table tbl e = do
    tests ← lift (clauses where_clause [] tbl.columns e.old_values)
    count_exec any_affected (delete_statement table tests.0) tests.1

  -- The table of an entry: the one that is kept, or what the database says, checked and kept.
  unfoldable pub find_table :
      ChangesetTable → Cache → Option TableSchema → Step S (TableSchema × Cache)
  find_table t cache (some tbl) = pure (tbl, cache)
  find_table t cache none = do
    found ← (λ s. (required (db.table_schema t.name s), s))
    tbl ← lift (check_table found t)
    pure (tbl, insert t.name tbl cache)

  unfoldable pub apply_op :
      OperationType → Bytes → TableSchema → ChangesetEntry → Step S ChangeApplyResult
  apply_op Types.insert = apply_insert
  apply_op update = apply_update
  apply_op delete = apply_delete
  apply_op (other b) = λ table tbl e. lift (err unexpected_operation)

  unfoldable pub apply_change : Cache → ChangesetEntry → Step S (ChangeApplyResult × Cache)
  apply_change cache e = if skip_gpkg_table e.table.name then pure (apply_skipped, cache) else (do
    found ← find_table e.table cache (lookup e.table.name cache)
    result ← apply_op e.op e.table.name found.0 e
    pure (result, found.1))

  unfoldable pub drop_triggers : List (Bytes × Bytes) → Step S (Unit {0})
  drop_triggers [] = pure tt
  drop_triggers (t ∷ ts) = do must_exec (drop_trigger_statement t.0); drop_triggers ts

  unfoldable pub create_triggers : List (Bytes × Bytes) → Step S (Unit {0})
  create_triggers [] = pure tt
  create_triggers (t ∷ ts) = do must_exec t.1; create_triggers ts

  abbrev pub counted :
      ChangesetEntry
      → Progress
      → Result (ChangeApplyResult × Cache) × S
      → Result (Unit {0}) × (S × Progress)
  counted e p (err x, s) = (err x, (s, p))
  counted e p (ok (result, state), s) = (ok tt, (s, tally e result (record p { state = state })))

  -- The body of the loop around `NextEntry`.
  unfoldable pub apply_entry : ChangesetEntry → S × Progress → Result (Unit {0}) × (S × Progress)
  apply_entry e (s, p) = counted e p (apply_change p.state e s)

  -- One round over the entries that conflicted: those that conflict again, the count and the tables.
  unfoldable pub retry_round :
      List ChangesetEntry
      → Cache
      → List ChangesetEntry × ℕ
      → Step S (Cache × (List ChangesetEntry × ℕ))
  retry_round [] cache r = pure (cache, r)
  retry_round (e ∷ es) cache r = do
    done ← apply_change cache e
    retry_round es done.1 (tally_again e done.0 r)

  -- Rounds until none conflicts or a round resolves nothing; the count is answered.
  unfoldable pub retry : ℕ → List ChangesetEntry → Cache → ℕ → Step S ℕ
  retry fuel [] cache total = pure total
  retry zero (e ∷ es) cache total = lift (err out_of_fuel)
  retry (suc fuel) (e ∷ es) cache total = do
    round ← retry_round (e ∷ es) cache ([], total)
    elim (length round.1.0 == length (e ∷ es)) [
      | true ↦ lift (err could_not_resolve_dependencies)
      | false ↦ retry fuel round.1.0 round.0 round.1.1
    ]

  -- An error in the loops: the triggers are created, and what that answers is ignored. A panic goes past it.
  abbrev pub or_restore : {A : Type 0} → List (Bytes × Bytes) → Result A × S → Result A × S
  or_restore triggers (ok a, s) = (ok a, s)
  or_restore triggers (err e, s) =
      (err e, elim (is_panic e) [ true ↦ s | false ↦ (create_triggers triggers s).1 ])

  unfoldable pub apply_entries : Reader → Step S Progress
  apply_entries reader s =
      let (r, (s', p)) = for_each apply_entry reader (s, started) in (continue r (λ _. pure p) s')

  -- The loops and what follows them, up to the release of the savepoint.
  unfoldable pub apply_with_triggers : Reader → List (Bytes × Bytes) → Step S (Unit {0})
  apply_with_triggers reader triggers = do
    drop_triggers triggers
    p ← (λ s. or_restore triggers (apply_entries reader s))
    total ← (λ s.
        or_restore triggers
          (retry (suc (length p.conflicting)) p.conflicting p.state p.unrecoverable s))
    create_triggers triggers
    (if ltb 0 total then lift (err (conflicts_encountered total)) else must_exec release)

  unfoldable pub apply_inside : Reader → Step S (Unit {0})
  apply_inside reader = do
    must_exec defer_foreign_keys
    rows ← (λ s. (required (db.trigger_rows s), s))
    apply_with_triggers reader (user_triggers rows)

  -- The deferred function: nothing is committed on an error.
  abbrev pub or_rollback : Result (Unit {0}) × S → Result (Unit {0}) × S
  or_rollback (ok u, s) = (ok u, s)
  or_rollback (err e, s) = (err e, (db.exec release [] (db.exec rollback [] s).1).1)

  unfoldable pub apply_changeset : Reader → Step S (Unit {0})
  apply_changeset reader = do must_exec savepoint; λ s. or_rollback (apply_inside reader s)
