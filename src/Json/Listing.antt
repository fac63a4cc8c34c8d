-- ===== src/Json/Listing.antt =====
-- The JSON listings of geodiff/api.go: `ListChanges` and `ListChangesSummary`, up to `MarshalIndent` and
-- the output file, which are parameters.
use go_geodiff.Common.{
  ℕ, suc, Bool, ◌&&◌, not, List, [], ◌∷◌, ◌++◌, ◌==◌, map, ◌/◌, ◌%◌, ◌^◌, if◌then◌else◌, Bytes,
  length, Option, none, some,
}
use go_geodiff.Common.Maps.{Map, bytes_key, lookup, insert as put}
use go_geodiff.Result.{Result, ok, err, index_panic, output_missing, ◌>>=◌, succeeded}
use go_geodiff.Changeset.Types.{
  Value, undefined, int, double, text, blob, null, is_undefined, OperationType, insert, update,
  delete, other, op_name, ChangesetEntry,
}
use go_geodiff.Changeset.Reader.{Reader, for_each}
use go_geodiff.Json.{
  JsonValue, json_null, json_int, json_double, json_string, Slice, nil, made, JsonChange, JsonEntry,
  TableSummary, tallied, summary_or_new,
}

-- `json.Marshal` refuses an infinity and a NaN, whose exponent bits are all set; the listing drops that error
-- and with it the value.
abbrev pub is_finite : ℕ → Bool
is_finite f = not (f / 2 ^ 52 % 2048 == 2047)

-- A slice that is declared without a value, once these elements are appended to it: nil without any.
unfoldable pub appended : {A : Type 0} → List A → Slice A
appended [] = nil
appended (x ∷ xs) = made (x ∷ xs)

-- The structs that `MarshalIndent` is given.
pub record JsonSummary : Type 0 where
  pub table : Bytes
  pub insert_count : ℕ
  pub update_count : ℕ
  pub delete_count : ℕ

pub record Summarizer : Type 0 where
  pub summaries : Map Bytes TableSummary
  pub table_order : List Bytes

unfoldable pub note_table : Bytes → Summarizer → Summarizer
note_table name s = elim (lookup name s.summaries) [
  | none ↦ record { summaries = s.summaries; table_order = s.table_order ++ (name ∷ []) }
  | some t ↦ s
]

unfoldable pub summarize : ChangesetEntry → Summarizer → Result (Unit {0}) × Summarizer
summarize e s =
    let noted = note_table e.table.name s in
    let old = summary_or_new (lookup e.table.name s.summaries) in
    (ok tt, record noted { summaries = put e.table.name (tallied e.op old) s.summaries })

unfoldable pub summary_row : Map Bytes TableSummary → Bytes → JsonSummary
summary_row m name =
    let s = summary_or_new (lookup name m) in
    record {
      table = name;
      insert_count = s.inserts;
      update_count = s.updates;
      delete_count = s.deletes;
    }

-- The rows that are appended to `out`.
unfoldable pub summary_rows : Reader → Result (List JsonSummary)
summary_rows reader = do
  s ← succeeded (for_each summarize reader (record { summaries = []; table_order = [] }))
  ok (map (summary_row s.summaries) s.table_order)

module _ (base64 : Bytes → Bytes) where
  -- `none` is an empty `json.RawMessage`, which `omitempty` leaves out.
  unfoldable pub raw_value : Value → Option JsonValue
  raw_value undefined = some json_null
  raw_value null = some json_null
  raw_value (int n) = some (json_int n)
  raw_value (double f) = if is_finite f then some (json_double f) else none
  raw_value (text s) = some (json_string s)
  raw_value (blob b) = some (json_string (base64 b))

  abbrev pub given : Value → Option JsonValue
  given v = if is_undefined v then none else raw_value v

  unfoldable pub inserted_columns : ℕ → List Value → List JsonChange
  inserted_columns i [] = []
  inserted_columns i (v ∷ vs) =
      let rest = inserted_columns (suc i) vs in
      if is_undefined v then rest else record { column = i; old = none; new = raw_value v } ∷ rest

  unfoldable pub deleted_columns : ℕ → List Value → List JsonChange
  deleted_columns i [] = []
  deleted_columns i (v ∷ vs) =
      let rest = deleted_columns (suc i) vs in
      if is_undefined v then rest else record { column = i; old = raw_value v; new = none } ∷ rest

  -- The loop is over the NEW values, and indexes the OLD ones.
  unfoldable pub updated_columns : ℕ → List Value → List Value → Result (List JsonChange)
  updated_columns i olds [] = ok []
  updated_columns i [] (n ∷ news) = err index_panic
  updated_columns i (o ∷ olds) (n ∷ news) = do
    rest ← updated_columns (suc i) olds news
    ok (
        if is_undefined n && is_undefined o
        then rest
        else record { column = i; old = given o; new = given n } ∷ rest)

  unfoldable pub list_columns : OperationType → List Value → List Value → Result (List JsonChange)
  list_columns insert olds news = ok (inserted_columns 0 news)
  list_columns delete olds news = ok (deleted_columns 0 olds)
  list_columns update olds news = updated_columns 0 olds news
  list_columns (other b) olds news = ok []

  module _ (format : ℕ → Bytes) where
    unfoldable pub list_entry : ChangesetEntry → Result JsonEntry
    list_entry e = do
      changes ← list_columns e.op e.old_values e.new_values
      ok (record { table = e.table.name; type = op_name format e.op; changes = appended changes })

    abbrev pub keep_listed : Result JsonEntry → List JsonEntry → Result (Unit {0}) × List JsonEntry
    keep_listed (ok je) entries = (ok tt, entries ++ (je ∷ []))
    keep_listed (err e) entries = (err e, entries)

    unfoldable pub list_body : ChangesetEntry → List JsonEntry → Result (Unit {0}) × List JsonEntry
    list_body e entries = keep_listed (list_entry e) entries

    unfoldable pub listed_entries : Reader → Result (Slice JsonEntry)
    listed_entries reader = do
      entries ← succeeded (for_each list_body reader [])
      ok (appended entries)

    -- What is written to the output file, or the error. The file is asked for only after the changeset was
    -- read.
    unfoldable pub list_changes_json :
        (Slice JsonEntry → Result Bytes)
        → (Slice JsonSummary → Result Bytes)
        → Bool
        → Bytes
        → Reader
        → Result Bytes
    list_changes_json marshal marshal_summary only_summary jsonfile reader = do
      res ←
          if only_summary
          then (do rows ← summary_rows reader; marshal_summary (appended rows))
          else (do entries ← listed_entries reader; marshal entries)
      if length jsonfile == 0 then err output_missing else ok res
