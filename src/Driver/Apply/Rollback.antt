-- ===== src/Driver/Apply/Rollback.antt =====
-- `ApplyChangeset` against SQLite's savepoints: what it leaves behind when it fails.
use go_geodiff.Common.{
  Bool-cases, inl, inr, ℕ, suc, ◌≡◌, refl, arith, ltb, ◌==◌, Bool, true, false, List, [], ◌∷◌, ◌||◌,
  if◌then◌else◌, Bytes, length, Option, none, some,
}
use go_geodiff.Common.Maps.{bytes_key}
use go_geodiff.Common.Text.{has_prefix, has_one_of}
use go_geodiff.Result.{is_panic, Error, Result, ok, err, conflicts_encountered}
use go_geodiff.Changeset.Reader.{Reader}
use go_geodiff.Driver.{Answer, failed, answered, Database, Step, continue, pure, required}
use go_geodiff.Driver.Sql.{drop_trigger_statement}
use go_geodiff.Driver.Apply.{
  user_triggers, system_triggers, savepoint, release, defer_foreign_keys, must_exec, drop_triggers,
  create_triggers, or_restore, apply_entries, apply_with_triggers, apply_inside, or_rollback,
  apply_changeset,
}
use go_geodiff.Driver.Apply.Inside.{
  is_change, AllCreate, Savepoints, Keeps, Guarded, bind-Keeps, bind-Guarded, lift-Keeps,
  Keeps→Guarded, if-Guarded,
}
use go_geodiff.Driver.Apply.Kept.{must-Keeps, entries-Keeps, retry-Keeps}

module _ {S : Type 0} (db : Database S) (Inside : S → S → Type 0)
    (laws : Savepoints db Inside) where
  -- Commands that create triggers.
  abbrev Creates : List (Bytes × Bytes) → Type 0
  Creates [] = Unit {0}
  Creates ((name, cmd) ∷ ts) = (is_change cmd ≡ true) × Creates ts

  skipped-Creates :
      (b c : Bool) (t : Bytes × Bytes) (ts : List (Bytes × Bytes))
      → is_change t.1 ≡ true
      → Creates ts
      → Creates (if b then ts else if c then ts else t ∷ ts)
  skipped-Creates true c t ts h k = k
  skipped-Creates false true t ts h k = k
  skipped-Creates false false t ts h k = (h, k)

  user_triggers-Creates :
      (rows : List (Option (Bytes × Bytes))) → AllCreate rows → Creates (user_triggers rows)
  unfolding user_triggers
  user_triggers-Creates [] h = tt
  user_triggers-Creates (none ∷ rows) h = user_triggers-Creates rows h
  user_triggers-Creates (some (name, cmd) ∷ rows) h =
      skipped-Creates (length name == 0 || length cmd == 0) (has_one_of name system_triggers)
        (name, cmd) (user_triggers rows) h.0 (user_triggers-Creates rows h.1)

  drop-Keeps : (ts : List (Bytes × Bytes)) → Keeps Inside (drop_triggers db ts)
  unfolding drop_triggers
  drop-Keeps [] = lift-Keeps (ok tt)
  drop-Keeps (t ∷ ts) =
      bind-Keeps _ _
        (must-Keeps db Inside laws (drop_trigger_statement t.0)
          (unfold is_change has_one_of has_prefix drop_trigger_statement in refl))
        (λ u. drop-Keeps ts)

  create-Keeps : (ts : List (Bytes × Bytes)) → Creates ts → Keeps Inside (create_triggers db ts)
  unfolding create_triggers
  create-Keeps [] h = lift-Keeps (ok tt)
  create-Keeps (t ∷ ts) h =
      bind-Keeps _ _ (must-Keeps db Inside laws t.1 h.0) (λ u. create-Keeps ts h.1)

  restore-Keeps :
      {A : Type 0} (ts : List (Bytes × Bytes)) (m : Step S A)
      → Creates ts
      → Keeps Inside m
      → Keeps Inside (λ s. or_restore db ts (m s))
  restore-Keeps {A = A} ts m c h = record { runs = λ s0 s i. go s0 (m s) (h.runs s0 s i) }
    where
      go : (s0 : S) (r : Result A × S) → Inside s0 r.1 → Inside s0 (or_restore db ts r).1
      go s0 (ok a, s) i = i
      go s0 (err e, s) i = elim (Bool-cases (is_panic e)) [
        | inl h ↦ rw (or_restore, h) i
        | inr h ↦ rw (or_restore, h) ((create-Keeps ts c).runs s0 s i)
      ]

  -- The release, which stays inside the savepoint only where it fails.
  release-Guarded : Guarded Inside (must_exec db release)
  unfolding must_exec
  release-Guarded = record { runs = λ s0 s e i q. go s0 s (db.exec release [] s).0 refl e i q }
    where
      go :
          (s0 s : S) (a : Answer ℕ)
          → (db.exec release [] s).0 ≡ a
          → (e : Error) → Inside s0 s
          → (continue (required a) (λ n. pure tt) (db.exec release [] s).1).0 ≡ err e
          → Inside s0 (continue (required a) (λ n. pure tt) (db.exec release [] s).1).1
      go s0 s (failed msg) same e i q = laws.unreleased s0 s msg i same
      go s0 s (answered n) same e i q = absurd (ground (arith, q))

  triggers-Guarded :
      (reader : Reader) (ts : List (Bytes × Bytes))
      → Creates ts
      → Guarded Inside (apply_with_triggers db reader ts)
  unfolding apply_with_triggers
  triggers-Guarded reader ts c = bind-Guarded _ _ (drop-Keeps ts) (λ _.
      bind-Guarded _ _
        (restore-Keeps ts (apply_entries db reader) c (entries-Keeps db Inside laws reader))
        (λ p.
          bind-Guarded _ _
            (restore-Keeps ts _ c (
              retry-Keeps db Inside laws (suc (length p.conflicting)) p.conflicting p.state
                p.unrecoverable))
            (λ total. bind-Guarded _ _ (create-Keeps ts c) (λ _.
              if-Guarded (ltb 0 total) _ _
                (Keeps→Guarded _ (lift-Keeps (err (conflicts_encountered total))))
                release-Guarded))))

  listed-Guarded :
      (reader : Reader)
      → Guarded Inside (λ s.
        continue
          (required (db.trigger_rows s))
          (λ rows. apply_with_triggers db reader (user_triggers rows))
          s)
  listed-Guarded reader = record { runs = λ s0 s e i q. go s0 s (db.trigger_rows s) refl e i q }
    where
      go :
          (s0 s : S) (a : Answer (List (Option (Bytes × Bytes))))
          → db.trigger_rows s ≡ a
          → (e : Error) → Inside s0 s
          → (continue (required a) (λ rows. apply_with_triggers db reader (user_triggers rows)) s).0
            ≡ err e
          → Inside s0
              (continue
                (required a)
                (λ rows. apply_with_triggers db reader (user_triggers rows))
                s).1
      go s0 s (failed msg) same e i q = i
      go s0 s (answered rows) same e i q =
          (triggers-Guarded reader (user_triggers rows)
              (user_triggers-Creates rows (laws.listed s rows same))).runs
            s0 s e i q

  body-Guarded : (reader : Reader) → Guarded Inside (apply_inside db reader)
  unfolding apply_inside
  body-Guarded reader =
      bind-Guarded _ _
        (must-Keeps db Inside laws defer_foreign_keys
          (unfold is_change has_one_of has_prefix in refl))
        (λ _. listed-Guarded reader)

  rolled_back :
      (s0 : S) (m : Result (Unit {0}) × S) (e : Error)
      → (m.0 ≡ err e → Inside s0 m.1)
      → (or_rollback db m).0 ≡ err e
      → (or_rollback db m).1 ≡ s0
  rolled_back s0 (ok u, s) e h q = absurd (ground (arith, q))
  rolled_back s0 (err x, s) e h q = laws.restored s0 s (h q)

  -- When `ApplyChangeset` answers an error, at whatever step and whatever the changeset holds, the
  -- database is in the state that it was called in.
  pub apply_changeset_rolls_back :
      (reader : Reader) (s : S) (e : Error)
      → (apply_changeset db reader s).0 ≡ err e
      → (apply_changeset db reader s).1 ≡ s
  unfolding apply_changeset must_exec
  apply_changeset_rolls_back reader s e q = go (db.exec savepoint [] s).0 refl q
    where
      go :
          (a : Answer ℕ)
          → (db.exec savepoint [] s).0 ≡ a
          → (continue
              (continue (required a) (λ n. pure tt) (db.exec savepoint [] s).1).0
              (λ _ s'. or_rollback db (apply_inside db reader s'))
              (continue (required a) (λ n. pure tt) (db.exec savepoint [] s).1).1).0
            ≡ err e
          → (continue
              (continue (required a) (λ n. pure tt) (db.exec savepoint [] s).1).0
              (λ _ s'. or_rollback db (apply_inside db reader s'))
              (continue (required a) (λ n. pure tt) (db.exec savepoint [] s).1).1).1
            ≡ s
      go (failed msg) same q' = laws.unset s msg same
      go (answered n) same q' =
          let s1 = (db.exec savepoint [] s).1 in
          rolled_back s (apply_inside db reader s1) e
            (λ p. (body-Guarded reader).runs s s1 e (laws.set s n same) p) q'
