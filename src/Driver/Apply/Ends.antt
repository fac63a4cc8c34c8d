-- ===== src/Driver/Apply/Ends.antt =====
-- The loops of `ApplyChangeset` end: the rounds of the retry loop have enough fuel.
use go_geodiff.Common.{
  ℕ, zero, suc, ◌+◌, ◌≤◌, ◌<◌, ◌≡◌, ◌≢◌, refl, ap, arith, ltb, ◌==◌, Bool, true, false, List, [],
  ◌∷◌, Bytes, length, length-append,
}
use go_geodiff.Common.Maps.{bytes_key}
use go_geodiff.Result.{Result, ok, err, could_not_resolve_dependencies, out_of_fuel}
use go_geodiff.Changeset.Types.{ChangesetEntry}
use go_geodiff.Changeset.Reader.{Reader, for_each}
use go_geodiff.Changeset.Reader.Total.{for_each-Ends}
use go_geodiff.Driver.{Database, Step, continue, pure, lift}
use go_geodiff.Driver.Sql.{drop_trigger_statement}
use go_geodiff.Driver.Apply.{
  ChangeApplyResult, apply_applied, apply_skipped, apply_constraint_conflict, apply_no_change,
  user_triggers, Progress, started, tally_again, savepoint, release, defer_foreign_keys, Cache,
  must_exec, apply_change, drop_triggers, create_triggers, counted, apply_entry, retry_round, retry,
  or_restore, apply_entries, apply_with_triggers, apply_inside, or_rollback, apply_changeset,
}
use go_geodiff.Driver.Apply.Honest.{
  IsHonest, Ends, honest_lem, required-IsHonest, continue-IsHonest, bind-Ends, lift-Ends, if-Ends,
  must-Ends, change-Ends,
}

module _ {S : Type 0} (db : Database S) where
  -- One round leaves no more entries than it was given.
  abbrev Shorter : ℕ → Result (Cache × (List ChangesetEntry × ℕ)) → Type 0
  Shorter n (ok round) = length round.1.0 ≤ n
  Shorter n (err e) = e ≢ out_of_fuel

  length-tally_again :
      (e : ChangesetEntry) (a : ChangeApplyResult) (r : List ChangesetEntry × ℕ)
      → length (tally_again e a r).0 ≤ suc (length r.0)
  length-tally_again e apply_applied r = omega arith
  length-tally_again e apply_skipped r = omega arith
  length-tally_again e apply_constraint_conflict r = omega (arith, length-append r.0 (e ∷ []))
  length-tally_again e apply_no_change r = omega arith

  weaker :
      (n k : ℕ) (m : Result (Cache × (List ChangesetEntry × ℕ))) → n ≤ k → Shorter n m → Shorter k m
  weaker n k (ok round) le h = omega (arith, h, le)
  weaker n k (err e) le h = h

  retry_round-Shorter :
      (es : List ChangesetEntry) (cache : Cache) (r : List ChangesetEntry × ℕ) (s : S)
      → Shorter (length es + length r.0) (retry_round db es cache r s).0
  unfolding retry_round
  retry_round-Shorter [] cache r s = omega arith
  retry_round-Shorter (e ∷ es) cache r s =
      go (apply_change db cache e s).0 (apply_change db cache e s).1
        ((change-Ends db cache e).runs s)
        (λ done s'.
          weaker _ _ (retry_round db es done.1 (tally_again e done.0 r) s').0
            (omega (arith, length-tally_again e done.0 r))
            (retry_round-Shorter es done.1 (tally_again e done.0 r) s'))
    where
      go :
          (a : Result (ChangeApplyResult × Cache)) (s' : S)
          → IsHonest a
          → ((done : ChangeApplyResult × Cache) (s1 : S)
              → Shorter
                  (length (e ∷ es) + length r.0)
                  (retry_round db es done.1 (tally_again e done.0 r) s1).0)
          → Shorter
              (length (e ∷ es) + length r.0)
              (continue a (λ done. retry_round db es done.1 (tally_again e done.0 r)) s').0
      go (ok done) s' h k = k done s'
      go (err x) s' h k = h

  -- A round that does not resolve all that it was given, but some.
  next_round :
      (fuel n : ℕ) (m : Result (Cache × (List ChangesetEntry × ℕ))) (s : S)
      → n < suc fuel
      → Shorter n m
      → ((es : List ChangesetEntry) (cache : Cache) (total : ℕ) (s' : S)
          → length es < fuel
          → IsHonest (retry db fuel es cache total s').0)
      → IsHonest
          (continue m
            (λ round. elim (length round.1.0 == n) [
              | true ↦ lift (err could_not_resolve_dependencies)
              | false ↦ retry db fuel round.1.0 round.0 round.1.1
            ])
            s).0
  next_round fuel n (err x) s lt h k = h
  next_round fuel n (ok round) s lt h k = go (length round.1.0 == n) refl
    where
      go :
          (b : Bool)
          → (length round.1.0 == n) ≡ b
          → IsHonest {A = ℕ}
              ((elim b as (λ x. Step S ℕ) [
                | true ↦ lift (err could_not_resolve_dependencies)
                | false ↦ retry db fuel round.1.0 round.0 round.1.1
              ])
                s).0
      go true q = λ p. cc
      go false q = k round.1.0 round.0 round.1.1 s (ground arith)

  retry-IsHonest :
      (fuel : ℕ) (es : List ChangesetEntry) (cache : Cache) (total : ℕ) (s : S)
      → length es < fuel
      → IsHonest (retry db fuel es cache total s).0
  unfolding retry
  retry-IsHonest fuel [] cache total s lt = tt
  retry-IsHonest zero (e ∷ es) cache total s lt = absurd (omega arith)
  retry-IsHonest (suc fuel) (e ∷ es) cache total s lt =
      next_round fuel (length (e ∷ es)) (retry_round db (e ∷ es) cache ([], total) s).0
        (retry_round db (e ∷ es) cache ([], total) s).1 lt
        (weaker _ _ (retry_round db (e ∷ es) cache ([], total) s).0 (omega arith)
          (retry_round-Shorter (e ∷ es) cache ([], total) s))
        (retry-IsHonest fuel)

  counted-IsHonest :
      (e : ChangesetEntry) (p : Progress) (m : Result (ChangeApplyResult × Cache) × S)
      → IsHonest m.0
      → IsHonest (counted db e p m).0
  counted-IsHonest e p (err x, s) h = h
  counted-IsHonest e p (ok (result, state), s) h = tt

  not_out : {A : Type 0} (r : Result A) → r ≢ err out_of_fuel → IsHonest r
  not_out (ok a) h = tt
  not_out (err e) h = λ q. h (ap (λ x. err x) q)

  entries-Ends : (reader : Reader) → Ends (apply_entries db reader)
  unfolding apply_entries apply_entry
  entries-Ends reader = record {
    runs = λ s.
        (let all = for_each (apply_entry db) reader (s, started) in
          continue-IsHonest all.0 (λ _. pure all.1.1) all.1.0
            (not_out all.0 (
              for_each-Ends (apply_entry db)
                (λ e v. honest_lem (apply_entry db e v).0 (
                  counted-IsHonest e v.1 (apply_change db v.1.state e v.0)
                    ((change-Ends db v.1.state e).runs v.0)))
                reader (s, started)))
            (λ _. lift-Ends (ok _) tt));
  }

  drop-Ends : (ts : List (Bytes × Bytes)) → Ends (drop_triggers db ts)
  unfolding drop_triggers
  drop-Ends [] = lift-Ends (ok tt) tt
  drop-Ends (t ∷ ts) = bind-Ends _ _ (must-Ends db (drop_trigger_statement t.0)) (λ u. drop-Ends ts)

  create-Ends : (ts : List (Bytes × Bytes)) → Ends (create_triggers db ts)
  unfolding create_triggers
  create-Ends [] = lift-Ends (ok tt) tt
  create-Ends (t ∷ ts) = bind-Ends _ _ (must-Ends db t.1) (λ u. create-Ends ts)

  restore-Ends :
      {A : Type 0} (ts : List (Bytes × Bytes)) (m : Step S A)
      → Ends m
      → Ends (λ s. or_restore db ts (m s))
  restore-Ends {A = A} ts m h = record { runs = λ s. go (m s) (h.runs s) }
    where
      go : (r : Result A × S) → IsHonest r.0 → IsHonest (or_restore db ts r).0
      go (ok a, s) i = tt
      go (err e, s) i = i

  body-Ends : (reader : Reader) → Ends (apply_inside db reader)
  unfolding apply_inside apply_with_triggers
  body-Ends reader = bind-Ends _ _ (must-Ends db defer_foreign_keys) (λ _.
      bind-Ends _ _ (record { runs = λ s. required-IsHonest (db.trigger_rows s) })
        (λ rows. bind-Ends _ _ (drop-Ends (user_triggers rows)) (λ _.
          bind-Ends _ _ (restore-Ends (user_triggers rows) _ (entries-Ends reader)) (λ p.
            bind-Ends _ _
              (restore-Ends (user_triggers rows) _ (record {
                runs = λ s.
                    retry-IsHonest (suc (length p.conflicting)) p.conflicting p.state
                      p.unrecoverable s (omega arith);
              }))
              (λ total.
                bind-Ends _ _ (create-Ends (user_triggers rows)) (λ _.
                  if-Ends (ltb 0 total) _ _ (lift-Ends _ (λ q. cc)) (must-Ends db release)))))))

  rolled-IsHonest : (m : Result (Unit {0}) × S) → IsHonest m.0 → IsHonest (or_rollback db m).0
  rolled-IsHonest (ok u, s) h = h
  rolled-IsHonest (err e, s) h = h

  -- `ApplyChangeset` ends, on every changeset and whatever the database answers: its loop over the
  -- entries reaches the end of the changeset or an error, and its rounds over the entries that violated a
  -- constraint end as well, for each leaves fewer of them or gives up.
  pub apply_changeset-Ends :
      (reader : Reader) (s : S) → (apply_changeset db reader s).0 ≢ err out_of_fuel
  unfolding apply_changeset
  apply_changeset-Ends reader s = honest_lem (apply_changeset db reader s).0 (
      continue-IsHonest (must_exec db savepoint s).0
        (λ _ s'. or_rollback db (apply_inside db reader s')) (must_exec db savepoint s).1
        ((must-Ends db savepoint).runs s)
        (λ _. record {
          runs = λ s'. rolled-IsHonest (apply_inside db reader s') ((body-Ends reader).runs s');
        }))
