-- ===== src/Json/Summaries.antt =====
-- The summary of changeset/utils.go against counts of its entries.
pub mod Rows
use go_geodiff.Common.{
  ℕ, zero, suc, ◌+◌, ◌≡◌, refl, sym, ap, ◌∙◌, arith, Bool, true, false, ◌&&◌, ◌||◌, not, List, [],
  ◌∷◌, ◌++◌, ◌==◌, if◌then◌else◌, map, Bytes, equal_bytes, equal_bytes_iff, Bool-cases, inl, inr,
  Option, none, some,
}
use mathlib.Core.Path.{fun_ext}
use go_geodiff.Common.Maps.{Map, bytes_key, lookup, insert as put, lookup-insert, contains}
use go_geodiff.Result.{Result, ok, err, succeeded}
use go_geodiff.Changeset.Types.{OperationType, insert, update, delete, other, ChangesetEntry}
use go_geodiff.Changeset.Reader.{new_reader}
use go_geodiff.Changeset.Stream.{Group, stored_entries, each}
use go_geodiff.Changeset.Stream.RoundTrip.{AllStorable, written, for_each-write_groups}
use go_geodiff.Json.{
  TableSummary, blank_summary, tallied, summary_or_new, Summaries, summarize_entry,
  changeset_to_json_summary,
}
use go_geodiff.Json.Listing.{
  JsonSummary, Summarizer, note_table, summarize, summary_row, summary_rows,
}

abbrev pub is_insert : OperationType → Bool
is_insert insert = true
is_insert _ = false

abbrev pub is_update : OperationType → Bool
is_update update = true
is_update _ = false

abbrev pub is_delete : OperationType → Bool
is_delete delete = true
is_delete _ = false

-- How many entries of the table `name` have an operation of the kind.
unfoldable pub count_of : (OperationType → Bool) → Bytes → List ChangesetEntry → ℕ
count_of kind name [] = 0
count_of kind name (e ∷ es) =
    let rest = count_of kind name es in
    if equal_bytes e.table.name name && kind e.op then suc rest else rest

-- Some entry is one of the table.
unfoldable pub mentions : Bytes → List ChangesetEntry → Bool
mentions name [] = false
mentions name (e ∷ es) = equal_bytes e.table.name name || mentions name es

abbrev pub counts : Bytes → List ChangesetEntry → TableSummary
counts name es = record {
  inserts = count_of is_insert name es;
  updates = count_of is_update name es;
  deletes = count_of is_delete name es;
}

-- The counts of a table with those of the entries added.
abbrev plus : TableSummary → Bytes → List ChangesetEntry → TableSummary
plus s name es = record {
  inserts = s.inserts + count_of is_insert name es;
  updates = s.updates + count_of is_update name es;
  deletes = s.deletes + count_of is_delete name es;
}

abbrev pub extended : Option TableSummary → Bytes → List ChangesetEntry → Option TableSummary
extended none name es = if mentions name es then some (plus blank_summary name es) else none
extended (some s) name es = some (plus s name es)

same_summary :
    {a b c : ℕ} (s : TableSummary)
    → s.inserts ≡ a
    → s.updates ≡ b
    → s.deletes ≡ c
    → s ≡ record { inserts = a; updates = b; deletes = c }
same_summary s p q r = rw (← p, ← q, ← r) refl

-- One field of the sum, with an entry of the table in front.
one_more :
    (b k : Bool) (m n : ℕ)
    → b ≡ true
    → (if k then suc m else m) + n ≡ m + (if b && k then suc n else n)
one_more b k m n h = ground (arith, h)

by_kind :
    (op : OperationType) (s : TableSummary)
    → tallied op s ≡ record {
      inserts = if is_insert op then suc s.inserts else s.inserts;
      updates = if is_update op then suc s.updates else s.updates;
      deletes = if is_delete op then suc s.deletes else s.deletes;
    }
unfolding tallied
by_kind insert s = refl
by_kind update s = refl
by_kind delete s = refl
by_kind (other b) s = refl

tallied-plus :
    (e : ChangesetEntry) (es : List ChangesetEntry) (s : TableSummary) (name : Bytes)
    → equal_bytes e.table.name name ≡ true
    → plus (tallied e.op s) name es ≡ plus s name (e ∷ es)
unfolding count_of
tallied-plus e es s name h =
    let b = equal_bytes e.table.name name in
    rw
      (
        by_kind e.op s,
        one_more b (is_insert e.op) s.inserts (count_of is_insert name es) h,
        one_more b (is_update e.op) s.updates (count_of is_update name es) h,
        one_more b (is_delete e.op) s.deletes (count_of is_delete name es) h,
      )
      refl

other_table :
    (e : ChangesetEntry) (es : List ChangesetEntry) (s : Option TableSummary) (name : Bytes)
    → equal_bytes e.table.name name ≡ false
    → extended s name (e ∷ es) ≡ extended s name es
unfolding count_of mentions
other_table e es none name h = rw h refl
other_table e es (some s) name h = rw h refl

this_table :
    (e : ChangesetEntry) (es : List ChangesetEntry) (s : Option TableSummary) (name : Bytes)
    → equal_bytes e.table.name name ≡ true
    → extended (some (tallied e.op (summary_or_new s))) name es ≡ extended s name (e ∷ es)
unfolding mentions
this_table e es none name h = rw (tallied-plus e es blank_summary name h, h) refl
this_table e es (some s) name h = ap some (tallied-plus e es s name h)

-- The map after an entry.
unfoldable pub summarized : ChangesetEntry → Summaries → Summaries
summarized e m = put e.table.name (tallied e.op (summary_or_new (lookup e.table.name m))) m

lookup-summarized :
    (e : ChangesetEntry) (es : List ChangesetEntry) (m : Summaries) (name : Bytes)
    → extended (lookup name (summarized e m)) name es ≡ extended (lookup name m) name (e ∷ es)
unfolding summarized
lookup-summarized e es m name =
    let put_in = some (tallied e.op (summary_or_new (lookup e.table.name m))) in
    let found : (b : Bool)
        → equal_bytes e.table.name name ≡ b
        → lookup name (summarized e m) ≡ (if b then put_in else lookup name m) =
      λ b h.
        lookup-insert e.table.name name (tallied e.op (summary_or_new (lookup e.table.name m))) m
        ∙ ap (λ c. if c then put_in else lookup name m) h in
    elim (Bool-cases (equal_bytes e.table.name name)) [
      | inl h ↦
          ap (λ o. extended o name es) (found true h)
          ∙ ap (λ k. extended (some (tallied e.op (summary_or_new (lookup k m)))) name es)
              ((equal_bytes_iff e.table.name name).0 h)
          ∙ this_table e es (lookup name m) name h
      | inr h ↦
          ap (λ o. extended o name es) (found false h)
          ∙ sym (other_table e es (lookup name m) name h)
    ]

pub each_summary :
    (es : List ChangesetEntry) (m : Summaries)
    → (m' : Summaries) × (each summarize_entry es m ≡ (ok tt, m'))
      × ((name : Bytes) → lookup name m' ≡ extended (lookup name m) name es)
unfolding each summarize_entry summarized
each_summary [] m = (m, refl, nothing)
  where
    nothing : (name : Bytes) → lookup name m ≡ extended (lookup name m) name []
    nothing name = go (lookup name m)
      where
        go : (o : Option TableSummary) → o ≡ extended o name []
        go none = unfold mentions in refl
        go (some s) =
            unfold count_of in ap some (same_summary s (omega arith) (omega arith) (omega arith))
each_summary (e ∷ es) m =
    let (m', runs, says) = each_summary es (summarized e m) in
    (m', runs, λ name. says name ∙ lookup-summarized e es m name)

-- What the map of a summary holds for a table: its counts, if an entry is one of the table.
abbrev pub summary_of : Bytes → List ChangesetEntry → Option TableSummary
summary_of name es = if mentions name es then some (counts name es) else none

pub from_nothing :
    (name : Bytes) (es : List ChangesetEntry) → extended none name es ≡ summary_of name es
from_nothing name es =
    ap (λ s. if mentions name es then some s else none)
      (sym (same_summary (counts name es) (omega arith) (omega arith) (omega arith)))

-- The summary of a written changeset: for each table that an entry names, and for no other, the numbers of
-- its INSERT, UPDATE and DELETE entries. The rows are marshalled in the order in which Go meets the map.
pub changeset_to_json_summary-written :
    (iterate : Summaries → List (Bytes × TableSummary))
    (marshal : List (Bytes × TableSummary) → Result Bytes) (gs : List Group)
    → AllStorable gs
    → (m : Summaries) × ((name : Bytes) → lookup name m ≡ summary_of name (stored_entries gs))
      × (changeset_to_json_summary iterate marshal (new_reader (written gs)) ≡ marshal (iterate m))
unfolding changeset_to_json_summary lookup
changeset_to_json_summary-written iterate marshal gs st =
    let (m, runs, says) = each_summary (stored_entries gs) [] in
    (
      m,
      λ name. says name ∙ from_nothing name (stored_entries gs),
      rw ((for_each-write_groups summarize_entry gs [] st).1 ∙ runs) refl,
    )
