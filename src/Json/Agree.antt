-- ===== src/Json/Agree.antt =====
-- The two views of a changeset, of changeset/utils.go and of geodiff/api.go, side by side.
use go_geodiff.Common.{
  ℕ, ◌≡◌, refl, sym, ap, ◌∙◌, arith, true, List, [], ◌∷◌, ◌++◌, ◌==◌, map, Bytes, length,
  append_assoc, append-nil, All,
}
use go_geodiff.Result.{Result, ok, err}
use go_geodiff.Changeset.Types.{
  Value, OperationType, insert, update, delete, other, ChangesetTable, column_count, ChangesetEntry,
}
use go_geodiff.Changeset.Writer.Encoding.{Counted, IsCounted}
use go_geodiff.Changeset.Reader.{new_reader}
use go_geodiff.Changeset.Reader.Records.{stored_entry}
use go_geodiff.Changeset.Stream.{Group, stored_entries, each}
use go_geodiff.Changeset.Stream.RoundTrip.{IsStorable, AllStorable, written, for_each-write_groups}
use go_geodiff.Json.{
  Slice, nil, made, JsonEntry, status_of, changeset_entry_to_json, json_body, changeset_to_json,
}
use go_geodiff.Json.Listing.{appended, list_columns, list_entry, list_body, listed_entries}
use go_geodiff.Json.Meaning.{old_cells, new_cells, Describes}
use go_geodiff.Json.Printing.{IsPrintable, inserted_agree, deleted_agree, updated_agree}
use go_geodiff.Json.Views.{changeset_entry_to_json-Describes}

-- The values of an entry can be printed.
abbrev pub IsShown : ChangesetEntry → Type 0
IsShown e = All IsPrintable (old_cells e) × All IsPrintable (new_cells e)

-- A list as a slice, with nil in place of a list without elements.
abbrev pub nil_if_empty : {A : Type 0} → List A → Slice A
nil_if_empty [] = nil
nil_if_empty (x ∷ xs) = made (x ∷ xs)

appended-nil_if_empty : {A : Type 0} (xs : List A) → appended xs ≡ nil_if_empty xs
unfolding appended
appended-nil_if_empty [] = refl
appended-nil_if_empty (x ∷ xs) = refl

-- An object with nil in place of an empty slice of changes.
abbrev pub as_appended : JsonEntry → JsonEntry
as_appended j = record j { changes = elim j.changes [ nil ↦ nil | made cs ↦ nil_if_empty cs ] }

abbrev as_listed : Result JsonEntry → Result JsonEntry
as_listed (ok j) = ok (as_appended j)
as_listed (err e) = err e

module _ (base64 : Bytes → Bytes) where
  agree_op :
      (format : ℕ → Bytes) (op : OperationType) (olds news : List Value) (t : ChangesetTable)
      → Counted (column_count t) op olds news
      → let e : ChangesetEntry = record {
        op = op;
        old_values = olds;
        new_values = news;
        table = t;
      } in
        All IsPrintable (old_cells e)
        → All IsPrintable (new_cells e)
        → list_entry base64 format e ≡ as_listed (changeset_entry_to_json base64 e)
  unfolding list_entry list_columns changeset_entry_to_json status_of
  agree_op format insert olds news t c p q =
      let same : (column_count t == length news) ≡ true = ground arith in
      rw (same, inserted_agree base64 news 0 q, c, appended-nil_if_empty) refl
  agree_op format update olds news t c p q =
      let same : (column_count t == length news) ≡ true = ground arith in
      let same' : (column_count t == length olds) ≡ true = ground arith in
      rw
        (
          same,
          same',
          updated_agree base64 olds news 0 (omega (arith, c.0, c.1)) p q,
          appended-nil_if_empty,
        )
        refl
  agree_op format delete olds news t c p q =
      let same : (column_count t == length olds) ≡ true = ground arith in
      rw (same, deleted_agree base64 olds 0 p, c, appended-nil_if_empty) refl
  agree_op format (other b) olds news t c p q = absurd c

  -- Where an entry has as many values as its table has columns, and no double that JSON cannot
  -- print, the listing of geodiff/api.go and the view of changeset/utils.go are the same, but that the
  -- first has nil in place of an empty slice.
  list_entry-changeset_entry_to_json :
      (format : ℕ → Bytes) (e : ChangesetEntry)
      → IsCounted (column_count e.table) e
      → IsShown e
      → list_entry base64 format e ≡ as_listed (changeset_entry_to_json base64 e)
  list_entry-changeset_entry_to_json format e c p =
      agree_op format e.op e.old_values e.new_values e.table c p.0 p.1

  -- One object for each entry.
  abbrev pub Exports : List ChangesetEntry → List JsonEntry → Type 0
  Exports [] [] = Unit {0}
  Exports (e ∷ es) (j ∷ js) =
      ((changeset_entry_to_json base64 e ≡ ok j) × Describes base64 e j) × Exports es js
  Exports _ _ = ⊥

  abbrev IsPlain : ChangesetEntry → Type 0
  IsPlain e = IsCounted (column_count e.table) e × IsShown e

  exports :
      (format : ℕ → Bytes) (es : List ChangesetEntry) (done : List JsonEntry)
      → All IsPlain es
      → (js : List JsonEntry) × Exports es js
        × (each (json_body base64) es done ≡ (ok tt, done ++ js))
        × ((listed : List JsonEntry)
            → each (list_body base64 format) es listed ≡ (ok tt, listed ++ map as_appended js))
  unfolding each json_body list_body
  exports format [] done p = (
    [],
    tt,
    ap (λ l. (ok tt, l)) (sym (append-nil done)),
    λ listed. ap (λ l. (ok tt, l)) (sym (append-nil listed)),
  )
  exports format (e ∷ es) done p =
      let (j, here, describes) = changeset_entry_to_json-Describes base64 e p.0.0 in
      let (js, x, a, b) = exports format es (done ++ (j ∷ [])) p.1 in
      (
        j ∷ js,
        ((here, describes), x),
        rw here (a ∙ ap (λ l. (ok tt, l)) (append_assoc done (j ∷ []) js)),
        λ listed.
            rw (list_entry-changeset_entry_to_json format e p.0.0 p.0.1, here)
              (b (listed ++ (as_appended j ∷ []))
                ∙ ap (λ l. (ok tt, l))
                    (append_assoc listed (as_appended j ∷ []) (map as_appended js))),
      )

stored_entry-Counted :
    (t : ChangesetTable) (op : OperationType) (olds news : List Value)
    → Counted (column_count t) op olds news
    → let e =
        stored_entry t (record { op = op; old_values = olds; new_values = news; table = t }) in
      Counted (column_count e.table) e.op e.old_values e.new_values
stored_entry-Counted t insert olds news c = c
stored_entry-Counted t update olds news c = c
stored_entry-Counted t delete olds news c = c
stored_entry-Counted t (other b) olds news c = absurd c

module _ (base64 : Bytes → Bytes) where
  group-IsPlain :
      (t : ChangesetTable) (es rest : List ChangesetEntry)
      → All (IsStorable t) es
      → All (IsShown) (map (stored_entry t) es ++ rest)
      → (All (IsShown) rest → All (IsPlain base64) rest)
      → All (IsPlain base64) (map (stored_entry t) es ++ rest)
  group-IsPlain t [] rest st p k = k p
  group-IsPlain t (e ∷ es) rest st p k = (
    (stored_entry-Counted t e.op e.old_values e.new_values st.0.0, p.0),
    group-IsPlain t es rest st.1 p.1 k,
  )

  groups-IsPlain :
      (gs : List Group)
      → AllStorable gs
      → All (IsShown) (stored_entries gs)
      → All (IsPlain base64) (stored_entries gs)
  unfolding stored_entries
  groups-IsPlain [] st p = tt
  groups-IsPlain ((t, es) ∷ gs) st p =
      group-IsPlain t es (stored_entries gs) st.1 p (groups-IsPlain gs st.2)

  -- For a written changeset without a double that JSON cannot print, there is one list of objects, one for
  -- each entry, in order, of its table, its operation and exactly the values that it gives.
  -- ChangesetToJSON of changeset/utils.go gives its marshaller this list, and ListChanges of geodiff/api.go
  -- the same, but that a list without elements, of entries or of an entry's changes, is a nil slice there.
  pub changeset_to_json-listed_entries :
      (format : ℕ → Bytes) (gs : List Group)
      → AllStorable gs
      → All (IsShown) (stored_entries gs)
      → (js : List JsonEntry) × Exports base64 (stored_entries gs) js
        × (listed_entries base64 format (new_reader (written gs))
            ≡ ok (nil_if_empty (map as_appended js)))
        × ((marshal : Slice JsonEntry → Result Bytes)
            → changeset_to_json base64 marshal (new_reader (written gs)) ≡ marshal (made js))
  unfolding changeset_to_json listed_entries
  changeset_to_json-listed_entries format gs st p =
      let (js, x, a, b) = exports base64 format (stored_entries gs) [] (groups-IsPlain gs st p) in
      (
        js,
        x,
        rw
            (
              (for_each-write_groups (list_body base64 format) gs [] st).1 ∙ b [],
              appended-nil_if_empty,
            )
            refl,
        λ marshal. rw ((for_each-write_groups (json_body base64) gs [] st).1 ∙ a) refl,
      )
