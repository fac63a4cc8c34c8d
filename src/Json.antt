-- ===== src/Json.antt =====
-- The JSON views of changeset/utils.go: `changesetEntryToJSON`, `ChangesetToJSON`,
-- `ChangesetToJSONSummary`, `conflictToJSON` and `ConflictsToJSON`. A Go map with the keys that the code
-- sets is a record, a key that may be missing an option. `json.Marshal`, base64, the printing of
-- numbers and the order in which Go meets the keys of a map are parameters.
pub mod Listing
pub mod Meaning
pub mod Columns
pub mod Views
pub mod Printing
pub mod Agree
pub mod Typed
pub mod Conflicts
pub mod Schemas
pub mod Summaries
use go_geodiff.Common.{
  ℕ, suc, ◌+◌, Bool, true, false, ◌&&◌, ◌||◌, not, List, [], ◌∷◌, ◌++◌, ◌==◌, map, codes,
  if◌then◌else◌, Bytes, length, replicate, Option, none, some,
}
use go_geodiff.Common.Maps.{Map, bytes_key, lookup, insert as put}
use go_geodiff.Result.{
  Result, ok, err, unknown_operation, new_count_mismatch, old_count_mismatch, ◌>>=◌, succeeded,
}
use go_geodiff.Changeset.Types.{
  Value, undefined, int, double, text, blob, null, is_undefined, OperationType, insert, update,
  delete, other, column_count, ChangesetEntry,
}
use go_geodiff.Changeset.Reader.{Reader, for_each}
use go_geodiff.Rebase.Handlers.{ConflictItem, ConflictFeature}

-- A Go slice that is marshalled: nil is printed as null, any other as an array.
pub data Slice (A : Type 0) : Type 0 where
  nil : Slice A
  made : List A → Slice A

-- The Go values that are put under a key.
pub data JsonValue : Type 0 where
  json_null : JsonValue
  json_int json_double : ℕ → JsonValue
  json_string : Bytes → JsonValue

pub record JsonChange : Type 0 where
  pub column : ℕ
  pub old : Option JsonValue
  pub new : Option JsonValue

pub record JsonEntry : Type 0 where
  pub table : Bytes
  pub type : Bytes
  pub changes : Slice JsonChange

pub record TableSummary : Type 0 where
  pub inserts : ℕ
  pub updates : ℕ
  pub deletes : ℕ

pub record JsonConflictChange : Type 0 where
  pub column : ℕ
  pub base : Option JsonValue
  pub theirs : Option JsonValue
  pub ours : Option JsonValue

pub record JsonConflict : Type 0 where
  pub table : Bytes
  pub type : Bytes
  pub fid : Bytes
  pub changes : List JsonConflictChange

abbrev pub uses_new : OperationType → Bool
uses_new insert = true
uses_new update = true
uses_new _ = false

abbrev pub uses_old : OperationType → Bool
uses_old update = true
uses_old delete = true
uses_old _ = false

unfoldable pub status_of : OperationType → Result Bytes
status_of insert = ok (codes "insert")
status_of update = ok (codes "update")
status_of delete = ok (codes "delete")
status_of (other b) = err (unknown_operation b)

abbrev pub blank_summary : TableSummary
blank_summary = record { inserts = 0; updates = 0; deletes = 0 }

unfoldable pub tallied : OperationType → TableSummary → TableSummary
tallied insert s = record s { inserts = suc s.inserts }
tallied update s = record s { updates = suc s.updates }
tallied delete s = record s { deletes = suc s.deletes }
tallied (other b) s = s

abbrev pub summary_or_new : Option TableSummary → TableSummary
summary_or_new none = blank_summary
summary_or_new (some s) = s

abbrev pub Summaries : Type 0
Summaries = Map Bytes TableSummary

-- The map keeps a pointer that the switch writes through.
unfoldable pub summarize_entry : ChangesetEntry → Summaries → Result (Unit {0}) × Summaries
summarize_entry e m =
    (ok tt, put e.table.name (tallied e.op (summary_or_new (lookup e.table.name m))) m)

unfoldable pub changeset_to_json_summary :
    (Summaries → List (Bytes × TableSummary))
    → (List (Bytes × TableSummary) → Result Bytes)
    → Reader
    → Result Bytes
changeset_to_json_summary iterate marshal reader = do
  summary ← succeeded (for_each summarize_entry reader [])
  marshal (iterate summary)

module _ (base64 : Bytes → Bytes) where
  -- `none` where the value is not to be included.
  unfoldable pub value_to_json : Value → Option JsonValue
  value_to_json undefined = none
  value_to_json null = some json_null
  value_to_json (int n) = some (json_int n)
  value_to_json (double f) = some (json_double f)
  value_to_json (text s) = some (json_string s)
  value_to_json (blob b) = some (json_string (base64 b))

  -- The loop over the columns from `i` on. A slice that the operation does not use stands as undefined
  -- values, and the checks before the loop made both slices as long as the table.
  unfoldable pub json_changes : ℕ → List Value → List Value → List JsonChange
  json_changes i (o ∷ olds) (n ∷ news) =
      let rest = json_changes (suc i) olds news in
      if is_undefined n && is_undefined o
      then rest
      else record { column = i; old = value_to_json o; new = value_to_json n } ∷ rest
  json_changes i _ _ = []

  unfoldable pub changeset_entry_to_json : ChangesetEntry → Result JsonEntry
  changeset_entry_to_json e = do
    status ← status_of e.op
    let columns = column_count e.table in
        if uses_new e.op && not (columns == length e.new_values)
        then err new_count_mismatch
        else if uses_old e.op && not (columns == length e.old_values)
        then err old_count_mismatch
        else ok (record {
          table = e.table.name;
          type = status;
          changes = made (
              json_changes 0 (if uses_old e.op then e.old_values else replicate columns undefined)
                (if uses_new e.op then e.new_values else replicate columns undefined));
        })

  abbrev pub keep_entry : Result JsonEntry → List JsonEntry → Result (Unit {0}) × List JsonEntry
  keep_entry (ok msg) entries = (ok tt, entries ++ (msg ∷ []))
  keep_entry (err e) entries = (err e, entries)

  unfoldable pub json_body : ChangesetEntry → List JsonEntry → Result (Unit {0}) × List JsonEntry
  json_body e entries = keep_entry (changeset_entry_to_json e) entries

  unfoldable pub changeset_to_json : (Slice JsonEntry → Result Bytes) → Reader → Result Bytes
  changeset_to_json marshal reader = do
    entries ← succeeded (for_each json_body reader [])
    marshal (made entries)

  conflict_change : ConflictItem → JsonConflictChange
  conflict_change item = record {
    column = item.column;
    base = value_to_json item.base;
    theirs = value_to_json item.theirs;
    ours = value_to_json item.ours;
  }

  conflict_to_json : (ℕ → Bytes) → ConflictFeature → JsonConflict
  conflict_to_json format cf = record {
    table = cf.table_name;
    type = codes "conflict";
    fid = format cf.pk;
    changes = map conflict_change cf.items;
  }

  pub conflicts_to_json :
      (ℕ → Bytes) → (List JsonConflict → Result Bytes) → List ConflictFeature → Result Bytes
  conflicts_to_json format marshal conflicts = marshal (map (conflict_to_json format) conflicts)
