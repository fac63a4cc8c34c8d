-- ===== src/Changeset/Stream/RoundTrip.antt =====
-- Reading back a whole changeset.
use go_geodiff.Common.{
  ℕ, zero, suc, ◌+◌, ◌-◌, ◌≤◌, ◌<◌, ◌≡◌, refl, ap, ◌∙◌, arith, List, [], ◌∷◌, ◌++◌, Bytes, map,
  length, length-append, length-drop, append-nil, append_assoc, All, Option, none, some,
}
use mathlib.Core.Path.{fun_ext}
use go_geodiff.Result.{Result, ok}
use go_geodiff.Changeset.Types.{ChangesetTable, column_count, ChangesetEntry}
use go_geodiff.Changeset.Writer.{Writer, new_writer}
use go_geodiff.Changeset.Writer.Encoding.{
  appended, table_bytes, entry_bytes, IsCounted, begin_table-appends, write_entry-appends,
}
use go_geodiff.Changeset.Reader.{
  Reader, new_reader, next_loop, next_entry, for_each_loop, for_each, after_body, after_entry,
}
use go_geodiff.Changeset.Reader.Steps.{At, At-advance, advance}
use go_geodiff.Changeset.Reader.Records.{
  IsReadable, AllFit, stored_entry, next_loop-table, next_loop-entry, next_loop-end,
}
use go_geodiff.Changeset.Stream.{Group, write_entries, write_groups, stored_entries, each}

-- An entry that the format can hold under its table.
abbrev pub IsStorable : ChangesetTable → ChangesetEntry → Type 0
IsStorable t e = IsCounted (column_count t) e × AllFit e.op e.old_values e.new_values

abbrev pub AllStorable : List Group → Type 0
AllStorable [] = Unit {0}
AllStorable ((t, es) ∷ gs) = IsReadable t × All (IsStorable t) es × AllStorable gs

unfoldable pub entries_bytes : List ChangesetEntry → Bytes
entries_bytes [] = []
entries_bytes (e ∷ es) = entry_bytes e ++ entries_bytes es

unfoldable pub groups_bytes : List Group → Bytes
groups_bytes [] = []
groups_bytes ((t, []) ∷ gs) = groups_bytes gs
groups_bytes ((t, e ∷ es) ∷ gs) = table_bytes t ++ (entries_bytes (e ∷ es) ++ groups_bytes gs)

write_entries-appends :
    (es : List ChangesetEntry) (w : Writer)
    → All (IsStorable w.current_table) es
    → write_entries es w ≡ appended w (entries_bytes es)
unfolding write_entries entries_bytes
write_entries-appends [] w h = rw append-nil
write_entries-appends (e ∷ es) w h = rw (
  write_entry-appends e w h.0.0,
  write_entries-appends es (record w { out = w.out ++ entry_bytes e }) h.1,
  append_assoc,
)

-- The table that is current after the groups.
unfoldable pub last_table : ChangesetTable → List Group → ChangesetTable
last_table t [] = t
last_table t ((u, []) ∷ gs) = last_table t gs
last_table t ((u, e ∷ es) ∷ gs) = last_table u gs

pub write_groups-appends :
    (gs : List Group) (w : Writer)
    → AllStorable gs
    → write_groups gs w ≡ (
      ok tt,
      record { out = w.out ++ groups_bytes gs; current_table = last_table w.current_table gs },
    )
unfolding write_groups groups_bytes last_table
write_groups-appends [] w h = rw append-nil
write_groups-appends ((t, []) ∷ gs) w h = write_groups-appends gs w h.2
write_groups-appends ((t, e ∷ es) ∷ gs) w h =
    let begun : Writer = record { out = w.out ++ table_bytes t; current_table = t } in
    rw
      (
        begin_table-appends t w,
        write_entries-appends (e ∷ es) begun h.1,
        write_groups-appends gs (record begun { out = begun.out ++ entries_bytes (e ∷ es) }) h.2,
      )
      (simp append_assoc)

-- What the reader does from here on, round by round: it passes over table records, returns the
-- entries of the list, and meets the end.
data Delivers : Reader → List ChangesetEntry → Type 0 where
  at_end : (r : Reader) → ((fuel : ℕ) → next_loop (suc fuel) r ≡ (ok none, r)) → Delivers r []
  skips :
      (r r' : Reader) (es : List ChangesetEntry)
      → r'.buf ≡ r.buf
      → r.offset < r'.offset
      → r'.offset ≤ length r.buf
      → ((fuel : ℕ) → next_loop (suc fuel) r ≡ next_loop fuel r')
      → Delivers r' es
      → Delivers r es
  returns :
      (r r' : Reader) (e : ChangesetEntry) (es : List ChangesetEntry)
      → r'.buf ≡ r.buf
      → ((fuel : ℕ) → next_loop (suc fuel) r ≡ (ok (some e), r'))
      → Delivers r' es
      → Delivers r (e ∷ es)

-- The first answer, with more fuel than bytes left.
First : ℕ → Reader → List ChangesetEntry → Type 0
First fuel r [] = (r' : Reader) × (next_loop fuel r ≡ (ok none, r'))
First fuel r (e ∷ es) =
    (r' : Reader) × (next_loop fuel r ≡ (ok (some e), r')) × (r'.buf ≡ r.buf) × Delivers r' es

skip-First :
    (fuel : ℕ) (r r' : Reader) (es : List ChangesetEntry)
    → r'.buf ≡ r.buf
    → next_loop (suc fuel) r ≡ next_loop fuel r'
    → First fuel r' es
    → First (suc fuel) r es
unfolding First
skip-First fuel r r' [] b e (r2, h) = (r2, e ∙ h)
skip-First fuel r r' (x ∷ es) b e (r2, h, b2, d) = (r2, e ∙ h, b2 ∙ b, d)

Delivers-First :
    {r : Reader} {es : List ChangesetEntry} (fuel : ℕ)
    → Delivers r es
    → length r.buf - r.offset < fuel
    → First fuel r es
Delivers-First zero d h = absurd (omega arith)
Delivers-First (suc fuel) (at_end r e) h = unfold First in (r, e fuel)
Delivers-First (suc fuel) (returns r r' e es b f d) h = unfold First in (r', f fuel, b, d)
Delivers-First (suc fuel) (skips r r' es b l i e d) h =
    skip-First fuel r r' es b (e fuel)
      (Delivers-First fuel d (omega (arith, ap (length {A = ℕ}) b)))

next_entry_first :
    (r r' : Reader) (o : Option ChangesetEntry)
    → next_loop (suc (length r.buf)) r ≡ (ok o, r')
    → next_entry r ≡ (ok o, r')
unfolding next_entry
next_entry_first r r' o e = e

module _ {S : Type 0} (body : ChangesetEntry → S → Result (Unit {0}) × S) where
  for_each_loop-Delivers :
      (es : List ChangesetEntry) (fuel : ℕ) (r : Reader) (s : S)
      → length es < fuel
      → Delivers r es
      → for_each_loop body fuel r s ≡ each body es s
  unfolding for_each_loop each First
  for_each_loop-Delivers es zero r s h d = absurd (omega arith)
  for_each_loop-Delivers [] (suc fuel) r s h d =
      let (r', e) = Delivers-First (suc (length r.buf)) d (omega arith) in
      ap (λ a. after_entry body a s (for_each_loop body fuel)) (next_entry_first r r' none e)
  for_each_loop-Delivers (x ∷ es) (suc fuel) r s h d =
      let (r', e, b, d') = Delivers-First (suc (length r.buf)) d (omega arith) in
      ap (λ a. after_entry body a s (for_each_loop body fuel)) (next_entry_first r r' (some x) e)
      ∙ ap (after_body (body x s))
          (fun_ext λ s'. for_each_loop-Delivers es fuel r' s' (omega arith) d')

room : (r : Reader) (bs rest : Bytes) → At r (bs ++ rest) → r.offset + length bs ≤ length r.buf
room r bs rest a = omega (
  arith,
  length-drop r.offset r.buf,
  ap (length {A = ℕ}) a.ahead,
  length-append bs rest,
  a.inside,
)

entries_deliver :
    (es more : List ChangesetEntry) (r : Reader) (rest : Bytes)
    → All (IsStorable r.current_table) es
    → At r (entries_bytes es ++ rest)
    → ((n : ℕ) → At (record r { offset = n }) rest → Delivers (record r { offset = n }) more)
    → Delivers r (map (stored_entry r.current_table) es ++ more)
unfolding entries_bytes
entries_deliver [] more r rest h a k = k r.offset a
entries_deliver (e ∷ es) more r rest h a k =
    let a' = rw append_assoc at a in
    returns r (advance r (length (entry_bytes e))) _ _ refl
      (λ fuel. next_loop-entry fuel e r _ h.0.0 h.0.1 a')
      (entries_deliver es more (advance r (length (entry_bytes e))) rest h.1 (At-advance r _ _ a')
        k)

groups_deliver :
    (gs : List Group) (r : Reader)
    → AllStorable gs
    → At r (groups_bytes gs)
    → Delivers r (stored_entries gs)
unfolding groups_bytes stored_entries
groups_deliver [] r h a = at_end r (λ fuel. next_loop-end fuel r a)
groups_deliver ((t, []) ∷ gs) r h a = groups_deliver gs r h.2 a
groups_deliver ((t, e ∷ es) ∷ gs) r h a =
    let begun : Reader = record {
      buf = r.buf;
      offset = r.offset + length (table_bytes t);
      current_table = t;
    } in
    let moved = At-advance r (table_bytes t) _ a in
    skips r begun _ refl (grows t r.offset) (room r (table_bytes t) _ a)
      (λ fuel. next_loop-table fuel t r _ h.0 a)
      (entries_deliver (e ∷ es) (stored_entries gs) begun (groups_bytes gs) h.1
        (record { inside = moved.inside; ahead = moved.ahead })
        (λ n a'. groups_deliver gs (record begun { offset = n }) h.2 a'))
  where
    grows : (t : ChangesetTable) (n : ℕ) → n < n + length (table_bytes t)
    grows t n = unfold table_bytes in omega arith

length-map_stored :
    (t : ChangesetTable) (es : List ChangesetEntry)
    → length (map (stored_entry t) es) ≤ length (entries_bytes es)
unfolding entries_bytes entry_bytes
length-map_stored t [] = omega arith
length-map_stored t (e ∷ es) =
    omega (arith, length-map_stored t es, length-append (entry_bytes e) (entries_bytes es))

length-stored_entries : (gs : List Group) → length (stored_entries gs) ≤ length (groups_bytes gs)
unfolding stored_entries groups_bytes
length-stored_entries [] = omega arith
length-stored_entries ((t, []) ∷ gs) = length-stored_entries gs
length-stored_entries ((t, e ∷ es) ∷ gs) = omega (
  arith,
  length-stored_entries gs,
  length-map_stored t (e ∷ es),
  length-append (map (stored_entry t) (e ∷ es)) (stored_entries gs),
  length-append (entries_bytes (e ∷ es)) (groups_bytes gs),
  length-append (table_bytes t) (entries_bytes (e ∷ es) ++ groups_bytes gs),
)

-- The bytes that are written for groups of storable entries.
abbrev pub written : List Group → Bytes
written gs = (write_groups gs new_writer).1.out

-- Groups of storable entries are written without an error, and any loop around `NextEntry` over the
-- file runs its body on exactly those entries, in order, each with its table, and ends at its end.
pub for_each-write_groups :
    {S : Type 0} (body : ChangesetEntry → S → Result (Unit {0}) × S) (gs : List Group) (s : S)
    → AllStorable gs
    → ((write_groups gs new_writer).0 ≡ ok tt)
      × (for_each body (new_reader (written gs)) s ≡ each body (stored_entries gs) s)
unfolding for_each
for_each-write_groups body gs s h =
    let whole = write_groups-appends gs new_writer h in
    (
      ap (λ p. p.0) whole,
      ap (λ p. for_each body (new_reader p.1.out) s) whole
          ∙ for_each_loop-Delivers body (stored_entries gs) (suc (length (groups_bytes gs)))
              (new_reader (groups_bytes gs)) s (omega (arith, length-stored_entries gs))
              (groups_deliver gs (new_reader (groups_bytes gs)) h
                (record { inside = omega arith; ahead = refl })),
    )

no_bytes : (gs : List Group) → length (stored_entries gs) ≡ 0 → length (groups_bytes gs) ≡ 0
unfolding stored_entries groups_bytes
no_bytes [] h = refl
no_bytes ((t, []) ∷ gs) h = no_bytes gs h
no_bytes ((t, e ∷ es) ∷ gs) h = absurd (omega (arith, h))

-- Nothing is written exactly where there is no entry.
pub length-written :
    (gs : List Group)
    → AllStorable gs
    → (length (stored_entries gs) ≤ length (written gs))
      × (length (stored_entries gs) ≡ 0 → length (written gs) ≡ 0)
length-written gs h =
    let same : length (written gs) ≡ length (groups_bytes gs) =
      ap (λ (p : Result (Unit {0}) × Writer). length p.1.out)
        (write_groups-appends gs new_writer h) in
    (omega (arith, same, length-stored_entries gs), λ e. same ∙ no_bytes gs e)
