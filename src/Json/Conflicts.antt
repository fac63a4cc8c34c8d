-- ===== src/Json/Conflicts.antt =====
-- The conflict file of driver/rebase.go: its `valueToJSON`, `MarshalConflicts` and `writeConflictFile`. The
-- file system is a path and the bytes that are written there, or none.
use go_geodiff.Common.{
  ℕ, List, [], ◌∷◌, ◌++◌, ◌==◌, map, codes, if◌then◌else◌, Bytes, equal_bytes, length, Option, none,
  some,
}
use go_geodiff.Result.{Result, ok, ◌>>=◌}
use go_geodiff.Changeset.Types.{Value, undefined, int, double, text, blob, null}
use go_geodiff.Rebase.Handlers.{ConflictItem, ConflictFeature, is_valid}
use go_geodiff.Json.{JsonValue, json_int, json_double, json_string}

-- `conflictItemJSON`: nil is `none`, which `omitempty` leaves out.
pub record ConflictItemJson : Type 0 where
  pub column : ℕ
  pub base : Option JsonValue
  pub old : Option JsonValue
  pub new : Option JsonValue

pub record ConflictFeatureJson : Type 0 where
  pub table : Bytes
  pub type : Bytes
  pub fid : Bytes
  pub changes : List ConflictItemJson

abbrev pub no_conflicts : Bytes
no_conflicts = codes "{\"geodiff\":[]}"

module _ (base64 : Bytes → Bytes) where
  -- An undefined value and a NULL are both nil.
  unfoldable pub sidecar_value : Value → Option JsonValue
  sidecar_value undefined = none
  sidecar_value null = none
  sidecar_value (int n) = some (json_int n)
  sidecar_value (double f) = some (json_double f)
  sidecar_value (text s) = some (json_string s)
  sidecar_value (blob b) = some (json_string (base64 b))

  unfoldable pub item_json : ConflictItem → ConflictItemJson
  item_json item = record {
    column = item.column;
    base = sidecar_value item.base;
    old = sidecar_value item.theirs;
    new = sidecar_value item.ours;
  }

  module _ (format : ℕ → Bytes) where
    unfoldable pub feature_json : ConflictFeature → ConflictFeatureJson
    feature_json cf = record {
      table = cf.table_name;
      type = codes "conflict";
      fid = format cf.pk;
      changes = map item_json cf.items;
    }

    unfoldable pub valid_features : List ConflictFeature → List ConflictFeatureJson
    valid_features [] = []
    valid_features (cf ∷ cfs) =
        let rest = valid_features cfs in if is_valid cf then feature_json cf ∷ rest else rest

    unfoldable pub marshal_conflicts :
        (List ConflictFeatureJson → Result Bytes) → List ConflictFeature → Result Bytes
    marshal_conflicts marshal conflicts =
        let entries = valid_features conflicts in
        if length entries == 0 then ok no_conflicts else marshal entries

    -- What is written, if anything is.
    unfoldable pub write_conflict_file :
        (List ConflictFeatureJson → Result Bytes)
        → Bytes
        → List ConflictFeature
        → Result (Option Bytes)
    write_conflict_file marshal path conflicts = if length path == 0 then ok none else (do
      data' ← marshal_conflicts marshal conflicts
      ok (if equal_bytes data' no_conflicts then none else some (data' ++ (10 ∷ []))))
