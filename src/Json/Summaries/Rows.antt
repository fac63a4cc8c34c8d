-- ===== src/Json/Summaries/Rows.antt =====
-- The rows of the summary listing of geodiff/api.go against counts of the entries.
use go_geodiff.Common.{
  ◌≡◌, refl, sym, ap, ◌∙◌, arith, Bool, true, false, ◌||◌, List, [], ◌∷◌, ◌++◌, if◌then◌else◌, map,
  Bytes, equal_bytes, equal_bytes_iff, Option, none, some,
}
use mathlib.Core.Path.{fun_ext}
use go_geodiff.Common.Maps.{bytes_key, lookup, insert as put, lookup-insert, contains}
use go_geodiff.Result.{ok}
use go_geodiff.Changeset.Types.{OperationType, ChangesetEntry}
use go_geodiff.Changeset.Reader.{new_reader}
use go_geodiff.Changeset.Stream.{Group, stored_entries, each}
use go_geodiff.Changeset.Stream.RoundTrip.{AllStorable, written, for_each-write_groups}
use go_geodiff.Json.{TableSummary, summary_or_new, Summaries, summarize_entry}
use go_geodiff.Json.Listing.{
  JsonSummary, Summarizer, note_table, summarize, summary_row, summary_rows,
}
use go_geodiff.Json.Summaries.{
  is_insert, is_update, is_delete, count_of, mentions, counts, summarized, each_summary,
  from_nothing, summary_of,
}

abbrev pub Distinct : List Bytes → Type 0
Distinct [] = Unit {0}
Distinct (n ∷ ns) = (contains n ns ≡ false) × Distinct ns

contains-append :
    (n name : Bytes) (ns : List Bytes)
    → contains n (ns ++ (name ∷ [])) ≡ (contains n ns || equal_bytes name n)
unfolding contains
contains-append n name [] = ground arith
contains-append n name (m ∷ ns) = ground (arith, contains-append n name ns)

Distinct-append :
    (name : Bytes) (ns : List Bytes)
    → contains name ns ≡ false
    → Distinct ns
    → Distinct (ns ++ (name ∷ []))
unfolding contains
Distinct-append name [] h d = (refl, tt)
Distinct-append name (m ∷ ns) h d = (
  ground (arith, contains-append m name ns, d.0, h, equal_bytes_iff m name, equal_bytes_iff name m),
  Distinct-append name ns (ground (arith, h)) d.1,
)

abbrev is_kept : Option TableSummary → Bool
is_kept none = false
is_kept (some s) = true

-- The tables in the order are those of the map, each once.
record IsOrdered (s : Summarizer) : Type 0 where
  same : (name : Bytes) → contains name s.table_order ≡ is_kept (lookup name s.summaries)
  distinct : Distinct s.table_order

kept_after :
    (name n : Bytes) (t : TableSummary) (m : Summaries)
    → is_kept (lookup n (put name t m)) ≡ (equal_bytes name n || is_kept (lookup n m))
kept_after name n t m = ap is_kept (lookup-insert name n t m) ∙ by_test (equal_bytes name n)
  where
    by_test : (b : Bool) → is_kept (if b then some t else lookup n m) ≡ (b || is_kept (lookup n m))
    by_test true = refl
    by_test false = refl

IsOrdered-noted :
    (name : Bytes) (t : TableSummary) (s : Summarizer)
    → IsOrdered s
    → IsOrdered (record {
      summaries = put name t s.summaries;
      table_order = (note_table name s).table_order;
    })
unfolding note_table
IsOrdered-noted name t s i = go (lookup name s.summaries) refl
  where
    noted : Option TableSummary → Summarizer
    noted o = elim o [
      | none ↦ record { summaries = s.summaries; table_order = s.table_order ++ (name ∷ []) }
      | some t ↦ s
    ]

    go :
        (o : Option TableSummary)
        → lookup name s.summaries ≡ o
        → IsOrdered
            (record { summaries = put name t s.summaries; table_order = (noted o).table_order })
    go none h = record {
      same = λ n.
          ground (
            arith,
            contains-append n name s.table_order,
            kept_after name n t s.summaries,
            i.same n,
          );
      distinct = Distinct-append name s.table_order (i.same name ∙ ap is_kept h) i.distinct;
    }
    go (some u) h = record {
      same = λ n. i.same n ∙ known n ∙ sym (kept_after name n t s.summaries);
      distinct = i.distinct;
    }
      where
        kept : is_kept (lookup name s.summaries) ≡ true
        kept = ap is_kept h

        known :
            (n : Bytes)
            → is_kept (lookup n s.summaries)
              ≡ (equal_bytes name n || is_kept (lookup n s.summaries))
        known n = by_test (equal_bytes name n) refl
          where
            by_test :
                (b : Bool)
                → equal_bytes name n ≡ b
                → is_kept (lookup n s.summaries) ≡ (b || is_kept (lookup n s.summaries))
            by_test true e =
                ap (λ k. is_kept (lookup k s.summaries)) (sym ((equal_bytes_iff name n).0 e)) ∙ kept
            by_test false e = refl

-- The two bodies keep the same map.
summarized-by : ChangesetEntry → Summarizer → Summarizer
summarized-by e s = record {
  summaries = summarized e s.summaries;
  table_order = (note_table e.table.name s).table_order;
}

each-summarize :
    (es : List ChangesetEntry) (s : Summarizer)
    → IsOrdered s
    → (s' : Summarizer) × (each summarize es s ≡ (ok tt, s'))
      × IsOrdered s'
      × (each summarize_entry es s.summaries ≡ (ok tt, s'.summaries))
unfolding each summarize summarize_entry summarized-by summarized
each-summarize [] s i = (s, refl, i, refl)
each-summarize (e ∷ es) s i =
    each-summarize es (summarized-by e s) (IsOrdered-noted e.table.name _ s i)

-- The row of a table, counted.
abbrev pub counted_row : List ChangesetEntry → Bytes → JsonSummary
counted_row es name = record {
  table = name;
  insert_count = count_of is_insert name es;
  update_count = count_of is_update name es;
  delete_count = count_of is_delete name es;
}

not_counted :
    (kind : OperationType → Bool) (name : Bytes) (es : List ChangesetEntry)
    → mentions name es ≡ false
    → count_of kind name es ≡ 0
unfolding count_of mentions
not_counted kind name [] h = refl
not_counted kind name (e ∷ es) h = ground (arith, not_counted kind name es)

abbrev row_of : TableSummary → Bytes → JsonSummary
row_of s name = record {
  table = name;
  insert_count = s.inserts;
  update_count = s.updates;
  delete_count = s.deletes;
}

summary_row-counts :
    (m : Summaries) (name : Bytes) (es : List ChangesetEntry)
    → lookup name m ≡ summary_of name es
    → summary_row m name ≡ counted_row es name
unfolding summary_row
summary_row-counts m name es h = rw h (by_test (mentions name es) refl)
  where
    by_test :
        (b : Bool)
        → mentions name es ≡ b
        → row_of (summary_or_new (if b then some (counts name es) else none)) name
          ≡ counted_row es name
    by_test true e = refl
    by_test false e =
        rw
          (
            not_counted is_insert name es e,
            not_counted is_update name es e,
            not_counted is_delete name es e,
          )
          refl

kept_test : (b : Bool) (t : TableSummary) → is_kept (if b then some t else none) ≡ b
kept_test true t = refl
kept_test false t = refl

-- The summary listing of a written changeset names each table of an entry exactly once, and no other, with
-- the numbers of its INSERT, UPDATE and DELETE entries.
pub summary_rows-written :
    (gs : List Group)
    → AllStorable gs
    → (names : List Bytes) × Distinct names
      × ((name : Bytes) → contains name names ≡ mentions name (stored_entries gs))
      × (summary_rows (new_reader (written gs)) ≡ ok (map (counted_row (stored_entries gs)) names))
unfolding summary_rows lookup contains
summary_rows-written gs st =
    let es = stored_entries gs in
    let start : Summarizer = record { summaries = []; table_order = [] } in
    let (s, runs, i, same) = each-summarize es start (record { same = λ n. refl; distinct = tt }) in
    let (m, runs', says) = each_summary es [] in
    let maps : s.summaries ≡ m = ap (λ p. p.1) (sym same ∙ runs') in
    let found : (name : Bytes) → lookup name s.summaries ≡ summary_of name es =
      λ name. ap (lookup name) maps ∙ says name ∙ from_nothing name es in
    (
      s.table_order,
      i.distinct,
      λ name. i.same name ∙ ap is_kept (found name) ∙ kept_test (mentions name es) (counts name es),
      rw ((for_each-write_groups summarize gs start st).1 ∙ runs) (
          ap (λ f. ok (map f s.table_order))
            (fun_ext λ name. summary_row-counts s.summaries name es (found name))),
    )
