-- ===== src/Tests/Drivers.antt =====
-- driver/ on a small database: a number that every change raises, and the number at the savepoint.
use go_geodiff.Common.{
  ℕ, suc, ◌≡◌, ◌≢◌, refl, ap, arith, true, false, [], ◌∷◌, ◌++◌, if◌then◌else◌, Bytes, codes,
  equal_bytes, equal_bytes_iff, Bool-cases, inl, inr, Option, none, some,
}
use go_geodiff.Common.Text.{has_prefix, has_one_of}
use go_geodiff.Changeset.Types.{int, text, insert, ChangesetTable, ChangesetEntry}
use go_geodiff.Common.Maps.{lookup, bytes_key}
use go_geodiff.Tests.Schemas.{fid, note, wgs84}
use go_geodiff.Driver.Apply.Bounds.{Fits, apply_change-Fits}
use go_geodiff.Result.{Error, ok, err, out_of_fuel, index_panic, read_past_end}
use go_geodiff.Changeset.Reader.{
  Reader, new_reader, for_each, for_each_loop, next_entry, next_loop, read_byte, read_record,
  read_entry,
}
use go_geodiff.Driver.{Answer, failed, answered, Database}
use go_geodiff.Driver.Sql.{quote_ident, drop_trigger_statement}
use go_geodiff.Driver.Sql.Quoting.{scan_identifier, scan_identifier-quote_ident}
use go_geodiff.Driver.Apply.{
  ChangeApplyResult, Cache, apply_change, savepoint, rollback, release, must_exec, apply_inside,
  apply_with_triggers, drop_triggers, user_triggers, apply_entries, apply_changeset,
}
use go_geodiff.Driver.Apply.Inside.{is_change, Savepoints}
use go_geodiff.Driver.Apply.Rollback.{apply_changeset_rolls_back}
use go_geodiff.Driver.Apply.Ends.{apply_changeset-Ends}

scan_identifier-quote_ident_example :
    scan_identifier (quote_ident (codes "my" ++ (34 ∷ codes "table")) ++ codes " WHERE")
    ≡ some (codes "my" ++ (34 ∷ codes "table"), codes " WHERE")
scan_identifier-quote_ident_example =
    scan_identifier-quote_ident (codes "my" ++ (34 ∷ codes "table")) (codes " WHERE") refl

-- The number, and the number at the savepoint if one is set.
abbrev Counter : Type 0
Counter = ℕ × Option ℕ

abbrev set_savepoint : Counter → Answer ℕ × Counter
set_savepoint (n, none) = (answered 0, (n, some n))
set_savepoint (n, some k) = (failed (codes "busy"), (n, some k))

abbrev back : Counter → Answer ℕ × Counter
back (n, none) = (failed (codes "no such savepoint"), (n, none))
back (n, some k) = (answered 0, (k, some k))

abbrev drop_savepoint : Counter → Answer ℕ × Counter
drop_savepoint (n, none) = (failed (codes "no such savepoint"), (n, none))
drop_savepoint (n, some k) = (answered 0, (n, none))

abbrev run : Bytes → Counter → Answer ℕ × Counter
run q c =
    if equal_bytes q savepoint
    then set_savepoint c
    else if equal_bytes q rollback
    then back c
    else if equal_bytes q release
    then drop_savepoint c
    else (answered 1, (suc c.0, c.1))

abbrev counter : Database Counter
counter = record {
  exec = λ q args c. run q c;
  trigger_rows = λ c. answered (some (codes "on_add", codes "CREATE TRIGGER on_add") ∷ none ∷ []);
  table_schema = λ n c. failed (codes "no such table");
}

abbrev Inside : Counter → Counter → Type 0
Inside s0 s = (s0.1 ≡ none) × (s.1 ≡ some s0.0)

counter-set :
    (s : Counter) (n : ℕ) → (run savepoint s).0 ≡ answered n → Inside s (run savepoint s).1
unfolding equal_bytes
counter-set (k, none) n h = (refl, refl)
counter-set (k, some j) n h = cc

counter-unset :
    (s : Counter) (msg : Bytes) → (run savepoint s).0 ≡ failed msg → (run savepoint s).1 ≡ s
unfolding equal_bytes
counter-unset (k, none) msg h = cc
counter-unset (k, some j) msg h = refl

counter-restored : (s0 s : Counter) → Inside s0 s → (run release (run rollback s).1).1 ≡ s0
unfolding equal_bytes
counter-restored (k0, o0) (k, none) h = cc
counter-restored (k0, o0) (k, some j) h = ground (arith, h)

excluded : (q w : Bytes) → is_change w ≡ false → is_change q ≡ true → equal_bytes q w ≡ false
excluded q w hw hq = elim (Bool-cases (equal_bytes q w)) [
  | inl e ↦
      absurd
        (let same : q ≡ w = (equal_bytes_iff q w).0 e in ground (arith, ap is_change same, hw, hq))
  | inr e ↦ e
]

counter-kept :
    (q : Bytes) (s0 s : Counter) → is_change q ≡ true → Inside s0 s → Inside s0 (run q s).1
counter-kept q s0 s c h =
    rw
      (
        excluded q savepoint (unfold is_change has_one_of has_prefix in refl) c,
        excluded q rollback (unfold is_change has_one_of has_prefix in refl) c,
        excluded q release (unfold is_change has_one_of has_prefix in refl) c,
      )
      h

counter-unreleased :
    (s0 s : Counter) (msg : Bytes)
    → Inside s0 s
    → (run release s).0 ≡ failed msg
    → Inside s0 (run release s).1
unfolding equal_bytes
counter-unreleased s0 (k, none) msg h q = h
counter-unreleased s0 (k, some j) msg h q = cc

counter-Savepoints : Savepoints counter Inside
unfolding is_change has_one_of has_prefix
counter-Savepoints = record {
  set = counter-set;
  unset = counter-unset;
  kept = λ q args. counter-kept q;
  unreleased = counter-unreleased;
  restored = counter-restored;
  listed = λ s rows h.
      (let same : rows ≡ some (codes "on_add", codes "CREATE TRIGGER on_add") ∷ none ∷ [] =
          ground (arith, h) in
        rw same (refl, tt));
}

-- Theirs is cut short: the error comes up inside the savepoint.
abbrev cut_short : Reader
cut_short = new_reader (18 ∷ [])

cut_short-fails : (e : Error) × ((apply_changeset counter cut_short (7, none)).0 ≡ err e)
unfolding apply_changeset must_exec equal_bytes apply_inside apply_with_triggers drop_triggers
    user_triggers has_one_of has_prefix drop_trigger_statement apply_entries for_each for_each_loop
    next_entry next_loop read_byte read_record read_entry
cut_short-fails = (read_past_end 1, refl)

apply_changeset_rolls_back_example : (apply_changeset counter cut_short (7, none)).1 ≡ (7, none)
apply_changeset_rolls_back_example =
    apply_changeset_rolls_back counter Inside counter-Savepoints cut_short (7, none)
      cut_short-fails.0 cut_short-fails.1

apply_changeset-Ends_example : (apply_changeset counter cut_short (7, none)).0 ≢ err out_of_fuel
apply_changeset-Ends_example = apply_changeset-Ends counter cut_short (7, none)

abbrev points : ChangesetTable
points = record { name = codes "points"; primary_keys = true ∷ false ∷ [] }

abbrev add_row : ChangesetEntry
add_row = record {
  op = insert;
  old_values = [];
  new_values = int 1 ∷ text (codes "a") ∷ [];
  table = points;
}

-- The schema is known from an earlier entry.
abbrev known : Cache
known =
    (codes "points", record { name = codes "points"; columns = fid ∷ note ∷ []; crs = wgs84 [] })
    ∷ []

apply_change-Fits_example :
    ((apply_change counter known add_row (7, none)).0 ≢ err index_panic)
    × ((result : ChangeApplyResult × Cache)
        → (apply_change counter known add_row (7, none)).0 ≡ ok result
        → Fits points (lookup (codes "points") result.1))
apply_change-Fits_example =
    apply_change-Fits counter known add_row (7, none) (ground arith)
      (unfold lookup equal_bytes in refl)
