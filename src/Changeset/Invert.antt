-- ===== src/Changeset/Invert.antt =====
-- changeset/utils.go: `InvertChangeset`. `cloneValues` copies a slice, and a list is its own copy.
pub mod Effects
pub mod Opposites
pub mod Files
use go_geodiff.Common.{
  Bool, true, false, ◌&&◌, not, List, [], ◌∷◌, if◌then◌else◌, Bytes, equal_bytes,
}
use go_geodiff.Result.{Result, ok, err, index_panic, unknown_operation, ◌>>=◌}
use go_geodiff.Changeset.Types.{
  Value, undefined, is_undefined, OperationType, insert, update, delete, other, ChangesetEntry,
}
use go_geodiff.Changeset.Writer.{Writer, begin_table, write_entry}
use go_geodiff.Changeset.Reader.{Reader, for_each}

-- The loop over the key columns of an inverted UPDATE. A column that is no key is not indexed, so a
-- slice that is too short is only found at a key.
pub reverse_keys : List Bool → List Value → List Value → Result (List Value × List Value)
reverse_keys [] olds news = ok (olds, news)
reverse_keys (pk ∷ pks) [] [] =
    let rest = reverse_keys pks [] [] in if pk then err index_panic else rest
reverse_keys (pk ∷ pks) [] (n ∷ news) =
    let rest = reverse_keys pks [] news in
    if pk then err index_panic else (do (os, ns) ← rest; ok (os, n ∷ ns))
reverse_keys (pk ∷ pks) (o ∷ olds) [] =
    let rest = reverse_keys pks olds [] in
    if pk && is_undefined o then err index_panic else (do (os, ns) ← rest; ok (o ∷ os, ns))
reverse_keys (pk ∷ pks) (o ∷ olds) (n ∷ news) = do
  (os, ns) ← reverse_keys pks olds news
  ok (if pk && is_undefined o then (n ∷ os, undefined ∷ ns) else (o ∷ os, n ∷ ns))

-- The inverse entry, by operation.
pub invert_op : OperationType → ChangesetEntry → Result ChangesetEntry
invert_op insert e = ok (record e { op = delete; old_values = e.new_values; new_values = [] })
invert_op delete e = ok (record e { op = insert; old_values = []; new_values = e.old_values })
invert_op update e = do
  (olds, news) ← reverse_keys e.table.primary_keys e.new_values e.old_values
  ok (record e { op = update; old_values = olds; new_values = news })
invert_op (other b) e = err (unknown_operation b)

unfoldable pub invert_entry : ChangesetEntry → Result ChangesetEntry
invert_entry e = invert_op e.op e

-- The writer, and the name of the table whose header was written last.
pub record Inverter : Type 0 where
  pub writer : Writer
  pub current_name : Bytes

abbrev pub Step : Type 0
Step = Inverter → Result (Unit {0}) × Inverter

abbrev pub after_write : Inverter → Result (Unit {0}) × Writer → Result (Unit {0}) × Inverter
after_write s (res, w) = (res, record s { writer = w })

abbrev pub and_then : Result (Unit {0}) × Inverter → Step → Result (Unit {0}) × Inverter
and_then (ok u, s) k = k s
and_then (err e, s) k = (err e, s)

-- `BeginTable` when the name changes; the name is remembered only if it succeeds.
unfoldable pub change_table : ChangesetEntry → Step
change_table e s =
    if equal_bytes e.table.name s.current_name
    then (ok tt, s)
    else and_then (after_write s (begin_table e.table s.writer))
        (λ s'. (ok tt, record s' { current_name = e.table.name }))

unfoldable pub write_inverse : Result ChangesetEntry → Step
write_inverse (err x) s = (err x, s)
write_inverse (ok e) s = after_write s (write_entry e s.writer)

unfoldable pub invert_body : ChangesetEntry → Step
invert_body e s = and_then (change_table e s) (write_inverse (invert_entry e))

unfoldable pub invert_changeset : Reader → Writer → Result (Unit {0}) × Inverter
invert_changeset reader writer =
    for_each invert_body reader (record { writer = writer; current_name = [] })
