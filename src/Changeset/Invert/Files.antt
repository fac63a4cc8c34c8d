-- ===== src/Changeset/Invert/Files.antt =====
-- The inverse of a whole changeset.
use go_geodiff.Common.{
  ◌≡◌, refl, sym, ap, ◌∙◌, arith, false, List, [], ◌∷◌, ◌++◌, map, Bytes, equal_bytes,
  equal_bytes_refl, append_assoc, append-nil,
}
use go_geodiff.Result.{Result, ok, err}
use go_geodiff.Changeset.Types.{
  Value, OperationType, insert, update, delete, other, ChangesetTable, column_count, ChangesetEntry,
}
use go_geodiff.Changeset.Writer.{new_writer, write_entry}
use go_geodiff.Changeset.Writer.Encoding.{
  table_bytes, row_bytes, entry_bytes, Counted, begin_table-appends, write_entry-appends,
}
use go_geodiff.Changeset.Reader.{new_reader}
use go_geodiff.Changeset.Reader.Records.{stored_entry}
use go_geodiff.Changeset.Stream.{Group, stored_entries, each}
use go_geodiff.Changeset.Stream.RoundTrip.{
  IsStorable, AllStorable, entries_bytes, groups_bytes, write_groups-appends, written,
  for_each-write_groups,
}
use go_geodiff.Changeset.Invert.{
  Inverter, invert_body, invert_changeset, change_table, write_inverse,
}
use go_geodiff.Changeset.Invert.Opposites.{
  IsInverse, InverseEntries, Inverts, no_group, no_entry, a_group, Inverts-sym, Inverts-Storable,
  AllFitTables, NamesChange, opposite_groups,
}

-- The inverter inside a table.
abbrev at_table : Bytes → ChangesetTable → Inverter
at_table out t = record { writer = record { out = out; current_table = t }; current_name = t.name }

stored_op :
    (t : ChangesetTable) (op : OperationType) (olds news : List Value)
    → Counted (column_count t) op olds news
    → let e =
        stored_entry t (record { op = op; old_values = olds; new_values = news; table = t }) in
      (entry_bytes e
        ≡ entry_bytes (record { op = op; old_values = olds; new_values = news; table = t }))
      × Counted (column_count t) e.op e.old_values e.new_values
      × (e.table ≡ t)
unfolding entry_bytes row_bytes
stored_op t insert olds news c = (refl, c, refl)
stored_op t delete olds news c = (refl, c, refl)
stored_op t update olds news c = (refl, c, refl)
stored_op t (other b) olds news c = absurd c

write_stored :
    (t : ChangesetTable) (e : ChangesetEntry) (out : Bytes)
    → IsStorable t e
    → (write_entry (stored_entry t e) (record { out = out; current_table = t })
        ≡ (ok tt, record { out = out ++ entry_bytes e; current_table = t }))
      × ((stored_entry t e).table ≡ t)
unfolding entry_bytes
write_stored t e out h =
    let (same, c, k) = stored_op t e.op e.old_values e.new_values h.0 in
    (
      write_entry-appends (stored_entry t e) (record { out = out; current_table = t }) c
          ∙ ap (λ bs. (ok tt, record { out = out ++ bs; current_table = t })) same,
      k,
    )

invert_body_in_table :
    (t : ChangesetTable) (e e' : ChangesetEntry) (out : Bytes)
    → IsInverse t e e'
    → invert_body (stored_entry t e) (at_table out t) ≡ (ok tt, at_table (out ++ entry_bytes e') t)
unfolding invert_body change_table write_inverse
invert_body_in_table t e e' out i =
    rw
      (
        i.there,
        (write_stored t e out i.storable).1,
        equal_bytes_refl t.name,
        (write_stored t e' out i.storable').0,
      )
      refl

invert_body_begins :
    (t : ChangesetTable) (e e' : ChangesetEntry) (s : Inverter)
    → equal_bytes t.name s.current_name ≡ false
    → IsInverse t e e'
    → invert_body (stored_entry t e) s
      ≡ (ok tt, at_table ((s.writer.out ++ table_bytes t) ++ entry_bytes e') t)
unfolding invert_body change_table write_inverse
invert_body_begins t e e' s n i =
    rw
      (
        i.there,
        (write_stored t e s.writer.out i.storable).1,
        n,
        begin_table-appends t s.writer,
        (write_stored t e' (s.writer.out ++ table_bytes t) i.storable').0,
      )
      refl

abbrev pub Run : Type 0
Run = Inverter → Result (Unit {0}) × Inverter

each_in_table :
    (t : ChangesetTable) (es es' rest : List ChangesetEntry) (out : Bytes)
    → InverseEntries t es es'
    → each invert_body (map (stored_entry t) es ++ rest) (at_table out t)
      ≡ each invert_body rest (at_table (out ++ entries_bytes es') t)
unfolding each entries_bytes
each_in_table t [] [] rest out h =
    ap (λ bs. each invert_body rest (at_table bs t)) (sym (append-nil out))
each_in_table t (e ∷ es) (e' ∷ es') rest out h = rw (invert_body_in_table t e e' out h.0) (
    each_in_table t es es' rest (out ++ entry_bytes e') h.1
    ∙ ap (λ bs. each invert_body rest (at_table bs t))
        (append_assoc out (entry_bytes e') (entries_bytes es')))
each_in_table t _ _ rest out h = absurd (ground arith)

-- Running over the groups from any state writes what their inverses are written as.
each_groups :
    {n : Bytes} {gs gs' : List Group}
    → Inverts n gs gs'
    → (s : Inverter) → s.current_name ≡ n
    → (s' : Inverter) × (each invert_body (stored_entries gs) s ≡ (ok tt, s'))
      × (s'.writer.out ≡ s.writer.out ++ groups_bytes gs')
unfolding each stored_entries groups_bytes entries_bytes
each_groups no_group s q = (s, refl, sym (append-nil s.writer.out))
each_groups (no_entry t r h) s q = each_groups h s q
each_groups (a_group t e e' es es' r n i is h) s q =
    let begun = s.writer.out ++ table_bytes t in
    let inside = (begun ++ entry_bytes e') ++ entries_bytes es' in
    let (s', runs, out) = each_groups h (at_table inside t) refl in
    (
      s',
      rw (invert_body_begins t e e' s (ap (equal_bytes t.name) q ∙ n) i)
          (each_in_table t es es' _ (begun ++ entry_bytes e') is ∙ runs),
      rw out (simp append_assoc),
    )

abbrev pub bytes_of : Result (Unit {0}) × Inverter → Result Bytes
bytes_of (ok u, s) = ok s.writer.out
bytes_of (err e, s) = err e

-- The file that the inverter leaves for a file of these bytes.
abbrev pub inverted : Bytes → Result Bytes
inverted bs = bytes_of (invert_changeset (new_reader bs) new_writer)

written-Inverts :
    {gs gs' : List Group} → Inverts [] gs gs' → inverted (written gs) ≡ ok (written gs')
unfolding invert_changeset
written-Inverts {gs} {gs'} h =
    let s0 : Inverter = record { writer = new_writer; current_name = [] } in
    let (s', runs, out) = each_groups h s0 refl in
    ap bytes_of ((for_each-write_groups invert_body gs s0 (Inverts-Storable h)).1 ∙ runs)
    ∙ ap ok (
        out
        ∙ sym (
            ap (λ p. p.1.out)
              (write_groups-appends gs' new_writer (Inverts-Storable (Inverts-sym h)))))

-- A written file of storable, well-formed changes, without a negative zero, in which two tables that follow each other have
-- different names and the first has one: inverting it succeeds, and writes the file of the inverse
-- changes, table by table and in the same order; inverting that file succeeds and writes the first
-- file, byte by byte.
pub invert_changeset_twice :
    (gs : List Group)
    → AllStorable gs
    → AllFitTables gs
    → NamesChange [] gs
    → (gs' : List Group) × Inverts [] gs gs'
      × (inverted (written gs) ≡ ok (written gs'))
      × (inverted (written gs') ≡ ok (written gs))
invert_changeset_twice gs st w c =
    let (gs', h) = opposite_groups [] gs st w c in
    (gs', h, written-Inverts h, written-Inverts (Inverts-sym h))
