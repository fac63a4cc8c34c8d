-- ===== src/Driver/Apply/Kept.antt =====
-- The steps of an apply that stay inside the savepoint.
use go_geodiff.Common.{
  ℕ, zero, suc, ◌≡◌, refl, ◌==◌, Bool, true, false, List, [], ◌∷◌, ◌++◌, Bytes, length, Option,
  none, some,
}
use go_geodiff.Common.Maps.{lookup, bytes_key}
use go_geodiff.Common.Text.{has_prefix, has_one_of}
use go_geodiff.Result.{
  Result, ok, err, could_not_resolve_dependencies, out_of_fuel, unexpected_operation,
}
use go_geodiff.Changeset.Types.{
  OperationType, insert, update, delete, other, ChangesetTable, ChangesetEntry,
}
use go_geodiff.Changeset.Reader.{Reader, for_each}
use go_geodiff.Changeset.Reader.Invariant.{for_each-keeps}
use go_geodiff.Schema.{TableSchema}
use go_geodiff.Driver.{Argument, Database, Step, pure, lift, required}
use go_geodiff.Driver.Sql.{
  skip_gpkg_table, clauses, where_clause, set_clause, insert_clauses, insert_statement,
  update_statement, delete_statement,
}
use go_geodiff.Driver.Apply.{
  ChangeApplyResult, one_inserted, any_affected, check_table, Progress, started, tally_again, Cache,
  must_exec, count_exec, apply_insert, apply_sets, apply_update, apply_delete, find_table, apply_op,
  apply_change, counted, apply_entry, retry_round, retry, apply_entries,
}
use go_geodiff.Driver.Apply.Inside.{
  is_change, Savepoints, Keeps, continue-Keeps, bind-Keeps, lift-Keeps, if-Keeps,
}

module _ {S : Type 0} (db : Database S) (Inside : S → S → Type 0)
    (laws : Savepoints db Inside) where
  count-Keeps :
      (count : ℕ → Result ChangeApplyResult) (q : Bytes) (args : List Argument)
      → is_change q ≡ true
      → Keeps Inside (count_exec db count q args)
  count-Keeps count q args h = record { runs = λ s0 s i. laws.kept q args s0 s h i }

  pub must-Keeps : (q : Bytes) → is_change q ≡ true → Keeps Inside (must_exec db q)
  unfolding must_exec
  must-Keeps q h = record {
    runs = λ s0 s i.
        continue-Keeps {Inside = Inside} (required (db.exec q [] s).0) (λ n. pure tt) s0
          (db.exec q [] s).1 (laws.kept q [] s0 s h i) (λ n. lift-Keeps (ok tt));
  }

  insert-Keeps :
      (table : Bytes) (tbl : TableSchema) (e : ChangesetEntry)
      → Keeps Inside (apply_insert db table tbl e)
  unfolding apply_insert
  insert-Keeps table tbl e =
      bind-Keeps _ _ (lift-Keeps (insert_clauses true tbl.columns e.new_values)) (λ parts.
        count-Keeps one_inserted (insert_statement table parts.0 parts.1) parts.2
          (unfold is_change has_one_of has_prefix insert_statement in refl))

  sets-Keeps :
      (table : Bytes) (tbl : TableSchema) (e : ChangesetEntry) (sets : Bytes × List Argument)
      → Keeps Inside (apply_sets db table tbl e sets)
  unfolding apply_sets
  sets-Keeps table tbl e ([], args) = lift-Keeps (ok _)
  sets-Keeps table tbl e (b ∷ sets, args) =
      bind-Keeps _ _ (lift-Keeps (clauses where_clause [] tbl.columns e.old_values)) (λ tests.
        count-Keeps any_affected (update_statement table (b ∷ sets) tests.0) (args ++ tests.1)
          (unfold is_change has_one_of has_prefix update_statement in refl))

  update-Keeps :
      (table : Bytes) (tbl : TableSchema) (e : ChangesetEntry)
      → Keeps Inside (apply_update db table tbl e)
  unfolding apply_update
  update-Keeps table tbl e =
      bind-Keeps _ _ (lift-Keeps (clauses set_clause [] tbl.columns e.new_values))
        (sets-Keeps table tbl e)

  delete-Keeps :
      (table : Bytes) (tbl : TableSchema) (e : ChangesetEntry)
      → Keeps Inside (apply_delete db table tbl e)
  unfolding apply_delete
  delete-Keeps table tbl e =
      bind-Keeps _ _ (lift-Keeps (clauses where_clause [] tbl.columns e.old_values)) (λ tests.
        count-Keeps any_affected (delete_statement table tests.0) tests.1
          (unfold is_change has_one_of has_prefix delete_statement in refl))

  op-Keeps :
      (op : OperationType) (table : Bytes) (tbl : TableSchema) (e : ChangesetEntry)
      → Keeps Inside (apply_op db op table tbl e)
  unfolding apply_op
  op-Keeps insert = insert-Keeps
  op-Keeps update = update-Keeps
  op-Keeps delete = delete-Keeps
  op-Keeps (other b) = λ table tbl e. lift-Keeps (err unexpected_operation)

  find-Keeps :
      (t : ChangesetTable) (cache : Cache) (o : Option TableSchema)
      → Keeps Inside (find_table db t cache o)
  unfolding find_table
  find-Keeps t cache (some tbl) = lift-Keeps (ok _)
  find-Keeps t cache none =
      bind-Keeps _ _ (record { runs = λ s0 s h. h })
        (λ found. bind-Keeps _ _ (lift-Keeps (check_table found t)) (λ tbl. lift-Keeps (ok _)))

  change-Keeps : (cache : Cache) (e : ChangesetEntry) → Keeps Inside (apply_change db cache e)
  unfolding apply_change
  change-Keeps cache e = if-Keeps (skip_gpkg_table e.table.name) _ _ (lift-Keeps (ok _)) (
      bind-Keeps _ _ (find-Keeps e.table cache (lookup e.table.name cache)) (λ found.
        bind-Keeps _ _ (op-Keeps e.op e.table.name found.0 e) (λ result. lift-Keeps (ok _))))

  counted-keeps :
      (e : ChangesetEntry) (p : Progress) (s0 : S) (m : Result (ChangeApplyResult × Cache) × S)
      → Inside s0 m.1
      → Inside s0 (counted db e p m).1.0
  counted-keeps e p s0 (err x, s) h = h
  counted-keeps e p s0 (ok (result, state), s) h = h

  pub entries-Keeps : (reader : Reader) → Keeps Inside (apply_entries db reader)
  unfolding apply_entries apply_entry
  entries-Keeps reader = record {
    runs = λ s0 s h.
        (let all =
            for_each-keeps (λ (v : S × Progress). Inside s0 v.0) (apply_entry db)
              (λ e v i.
                counted-keeps e v.1 s0 (apply_change db v.1.state e v.0)
                  ((change-Keeps v.1.state e).runs s0 v.0 i))
              reader (s, started) h in
          continue-Keeps {Inside = Inside} (for_each (apply_entry db) reader (s, started)).0
            (λ _. pure (for_each (apply_entry db) reader (s, started)).1.1) s0
            (for_each (apply_entry db) reader (s, started)).1.0 all (λ _. lift-Keeps (ok _)));
  }

  round-Keeps :
      (es : List ChangesetEntry) (cache : Cache) (r : List ChangesetEntry × ℕ)
      → Keeps Inside (retry_round db es cache r)
  unfolding retry_round
  round-Keeps [] cache r = lift-Keeps (ok _)
  round-Keeps (e ∷ es) cache r =
      bind-Keeps _ _ (change-Keeps cache e) (λ done. round-Keeps es done.1 (tally_again e done.0 r))

  pub retry-Keeps :
      (fuel : ℕ) (es : List ChangesetEntry) (cache : Cache) (total : ℕ)
      → Keeps Inside (retry db fuel es cache total)
  unfolding retry
  retry-Keeps fuel [] cache total = lift-Keeps (ok _)
  retry-Keeps zero (e ∷ es) cache total = lift-Keeps (err out_of_fuel)
  retry-Keeps (suc fuel) (e ∷ es) cache total =
      bind-Keeps _ _ (round-Keeps (e ∷ es) cache ([], total)) (λ round.
        next (retry db fuel round.1.0 round.0 round.1.1)
          (retry-Keeps fuel round.1.0 round.0 round.1.1) (length round.1.0 == length (e ∷ es)))
    where
      next :
          (again : Step S ℕ)
          → Keeps Inside again
          → (b : Bool)
          → Keeps Inside {A = ℕ}
              (elim b [ true ↦ lift (err could_not_resolve_dependencies) | false ↦ again ])
      next again h true = lift-Keeps (err could_not_resolve_dependencies)
      next again h false = h
