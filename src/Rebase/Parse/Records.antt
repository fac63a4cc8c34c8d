-- ===== src/Rebase/Parse/Records.antt =====
-- What `parseOldChangeset` leaves in its tables.
use go_geodiff.Common.{
  ℕ, ◌≡◌, ◌≢◌, refl, sym, ap, ◌∙◌, inl, inr, arith, true, List, [], ◌∷◌, ◌++◌, All, Option, none,
  some, Bytes, Bool-cases, equal_bytes, equal_bytes_iff, equal_bytes_refl,
}
use mathlib.Core.Path.{ap₂}
use go_geodiff.Common.Maps.{
  lookup, insert, lookup-insert, contains, contains-add, nat_key, bytes_key,
}
use go_geodiff.Result.{Result, ok}
use go_geodiff.Changeset.Types.{Value, OperationType, ChangesetEntry}
use go_geodiff.Changeset.Types
use go_geodiff.Changeset.Reader.{new_reader}
use go_geodiff.Changeset.Stream.{Group, stored_entries, each}
use go_geodiff.Changeset.Stream.RoundTrip.{AllStorable, written, for_each-write_groups}
use go_geodiff.Rebase.{TableRebaseInfo, DatabaseRebaseInfo, get_primary_key}
use go_geodiff.Rebase.Parse.{info_or_new, record_change, parse_old_entry, parse_old_changeset}

-- The table's record has the change of the row.
abbrev pub Has : OperationType → ℕ → List Value → Option TableRebaseInfo → Type 0
Has op pk news none = ⊥
Has Types.insert pk news (some info) = contains pk info.inserted ≡ true
Has Types.delete pk news (some info) = contains pk info.deleted ≡ true
Has Types.update pk news (some info) = lookup pk info.updated ≡ some news
Has (Types.other b) pk news (some info) = Unit {0}

-- A key is found, and the change is recorded under it.
abbrev pub IsRecorded : ChangesetEntry → DatabaseRebaseInfo → Type 0
IsRecorded e db =
    (pk : ℕ) × (get_primary_key e ≡ ok pk) × Has e.op pk e.new_values (lookup e.table.name db)

abbrev pub HasPrimaryKey : ChangesetEntry → Type 0
HasPrimaryKey e = (pk : ℕ) × (get_primary_key e ≡ ok pk)

-- The row that an entry is about, as a rebase tells rows apart.
abbrev pub row_of : ChangesetEntry → Bytes × Result ℕ
row_of e = (e.table.name, get_primary_key e)

record_change-Has :
    (op : OperationType) (pk : ℕ) (e : ChangesetEntry) (info : TableRebaseInfo)
    → Has op pk e.new_values (some (record_change op pk e info))
record_change-Has Types.insert pk e info = ground (arith, contains-add pk pk info.inserted)
record_change-Has Types.delete pk e info = ground (arith, contains-add pk pk info.deleted)
record_change-Has Types.update pk e info =
    ground (arith, lookup-insert pk pk e.new_values info.updated)
record_change-Has (Types.other b) pk e info = tt

record_change-keeps :
    (op op' : OperationType) (pk pk' : ℕ) (news : List Value) (e' : ChangesetEntry)
    (info : TableRebaseInfo)
    → pk' ≢ pk
    → Has op pk news (some info)
    → Has op pk news (some (record_change op' pk' e' info))
record_change-keeps Types.insert Types.insert pk pk' news e' info ne h =
    ground (arith, contains-add pk' pk info.inserted)
record_change-keeps Types.delete Types.delete pk pk' news e' info ne h =
    ground (arith, contains-add pk' pk info.deleted)
record_change-keeps Types.update Types.update pk pk' news e' info ne h =
    ground (arith, lookup-insert pk' pk e'.new_values info.updated)
record_change-keeps _ _ pk pk' news e' info ne h = h

table_keeps :
    (op op' : OperationType) (pk pk' : ℕ) (news : List Value) (e' : ChangesetEntry)
    (o : Option TableRebaseInfo)
    → pk' ≢ pk
    → Has op pk news o
    → Has op pk news (some (record_change op' pk' e' (info_or_new o)))
table_keeps op op' pk pk' news e' none ne h = absurd h
table_keeps op op' pk pk' news e' (some info) ne h =
    record_change-keeps op op' pk pk' news e' info ne h

parse_old_entry-ok :
    (e : ChangesetEntry) (db : DatabaseRebaseInfo) (k : HasPrimaryKey e)
    → parse_old_entry e db ≡ (
      ok tt,
      insert e.table.name (record_change e.op k.0 e (info_or_new (lookup e.table.name db))) db,
    )
unfolding parse_old_entry
parse_old_entry-ok e db (pk, key) = rw key refl

parse_old_entry-records :
    (e : ChangesetEntry) (db : DatabaseRebaseInfo)
    → HasPrimaryKey e
    → IsRecorded e (parse_old_entry e db).1
parse_old_entry-records e db (pk, key) = (
  pk,
  key,
  rw
      (
        parse_old_entry-ok e db (pk, key),
        lookup-insert e.table.name e.table.name,
        equal_bytes_refl e.table.name,
      )
      (record_change-Has e.op pk e (info_or_new (lookup e.table.name db))),
)

-- A change of another row leaves a record alone.
parse_old_entry-keeps :
    (e e' : ChangesetEntry) (db : DatabaseRebaseInfo)
    → HasPrimaryKey e'
    → row_of e' ≢ row_of e
    → IsRecorded e db
    → IsRecorded e (parse_old_entry e' db).1
parse_old_entry-keeps e e' db (pk', key') ne (pk, key, h) = (
  pk,
  key,
  rw (parse_old_entry-ok e' db (pk', key'), lookup-insert e'.table.name e.table.name)
      (elim (Bool-cases (equal_bytes e'.table.name e.table.name)) [
        | inl same ↦ rw same (at_table ((equal_bytes_iff _ _).0 same))
        | inr differ ↦ rw differ h
      ]),
)
  where
    at_table :
        e'.table.name ≡ e.table.name
        → Has e.op pk e.new_values
            (some (record_change e'.op pk' e' (info_or_new (lookup e'.table.name db))))
    at_table same = rw (ap (λ n. lookup n db) same) (
        table_keeps e.op e'.op pk pk' e.new_values e' (lookup e.table.name db)
          (λ q. ne (ap₂ (λ n k. (n, k)) same (key' ∙ ap ok q ∙ sym key))) h)

each-parsed :
    (e : ChangesetEntry) (es : List ChangesetEntry) (db : DatabaseRebaseInfo)
    → HasPrimaryKey e
    → each parse_old_entry (e ∷ es) db ≡ each parse_old_entry es (parse_old_entry e db).1
unfolding each
each-parsed e es db k = rw (parse_old_entry-ok e db k) refl

-- The loop succeeds, and the change is recorded at its end.
abbrev Ends : ChangesetEntry → Result (Unit {0}) × DatabaseRebaseInfo → Type 0
Ends e (r, db) = (r ≡ ok tt) × IsRecorded e db

abbrev pub AllKeyed : List ChangesetEntry → Type 0
AllKeyed es = All HasPrimaryKey es

abbrev pub OtherRows : ChangesetEntry → List ChangesetEntry → Type 0
OtherRows e es = All (λ e'. row_of e' ≢ row_of e) es

after_it :
    (e : ChangesetEntry) (es : List ChangesetEntry) (db : DatabaseRebaseInfo)
    → AllKeyed es
    → OtherRows e es
    → IsRecorded e db
    → Ends e (each parse_old_entry es db)
after_it e [] db k o r = unfold each in (refl, r)
after_it e (e' ∷ es) db k o r =
    rw (each-parsed e' es db k.0)
      (after_it e es _ k.1 o.1 (parse_old_entry-keeps e e' db k.0 o.0 r))

before_it :
    (e : ChangesetEntry) (before after : List ChangesetEntry) (db : DatabaseRebaseInfo)
    → AllKeyed (before ++ (e ∷ after))
    → OtherRows e after
    → Ends e (each parse_old_entry (before ++ (e ∷ after)) db)
before_it e [] after db k o =
    rw (each-parsed e after db k.0) (after_it e after _ k.1 o (parse_old_entry-records e db k.0))
before_it e (b ∷ before) after db k o =
    rw (each-parsed b (before ++ (e ∷ after)) db k.0) (before_it e before after _ k.1 o)

-- Parsing a written changeset whose entries all have a primary key succeeds, and records each of its
-- entries that no later one follows for the same table and key: an INSERT and a DELETE in the set of
-- the table, an UPDATE with its NEW values.
pub parse_old_changeset-IsRecorded :
    (gs : List Group) (before after : List ChangesetEntry) (e : ChangesetEntry)
    → AllStorable gs
    → stored_entries gs ≡ before ++ (e ∷ after)
    → AllKeyed (before ++ (e ∷ after))
    → OtherRows e after
    → ((parse_old_changeset (new_reader (written gs)) []).0 ≡ ok tt)
      × IsRecorded e (parse_old_changeset (new_reader (written gs)) []).1
unfolding parse_old_changeset
parse_old_changeset-IsRecorded gs before after e h split k o =
    rw ((for_each-write_groups parse_old_entry gs [] h).1, split) (before_it e before after [] k o)
