-- ===== src/Json/Meaning.antt =====
-- What a JSON object says of an entry, written without the code that makes it.
use go_geodiff.Common.{
  ℕ, zero, suc, ◌≤◌, ◌≡◌, ◌≢◌, ◌⊎◌, List, [], ◌∷◌, ◌==◌, if◌then◌else◌, codes, Bytes, Option, none,
  some, All,
}
use go_geodiff.Changeset.Types.{
  Value, undefined, int, double, text, blob, null, OperationType, insert, update, delete, other,
  ChangesetEntry,
}
use go_geodiff.Json.{
  JsonValue, json_null, json_int, json_double, json_string, JsonChange, JsonEntry, made,
}

-- What a list of changes says of column `k`: of its old value and of its new one.
unfoldable pub said : ℕ → List JsonChange → Option JsonValue × Option JsonValue
said k [] = (none, none)
said k (c ∷ cs) = if c.column == k then (c.old, c.new) else said k cs

-- The value in a column, undefined where there is none.
abbrev pub cell : ℕ → List Value → Value
cell k [] = undefined
cell zero (v ∷ vs) = v
cell (suc k) (v ∷ vs) = cell k vs

-- The values of an entry: an INSERT has no old ones, and a DELETE no new ones.
abbrev pub old_cells : ChangesetEntry → List Value
old_cells e = elim e.op [
  | insert ↦ []
  | update ↦ e.old_values
  | delete ↦ e.old_values
  | other b ↦ []
]

abbrev pub new_cells : ChangesetEntry → List Value
new_cells e = elim e.op [
  | insert ↦ e.new_values
  | update ↦ e.new_values
  | delete ↦ []
  | other b ↦ []
]

-- The JSON of a value: nothing of an undefined one, null of NULL, a number or a string of the others, a blob
-- in base64.
abbrev pub Represents : (Bytes → Bytes) → Value → Option JsonValue → Type 0
Represents base64 undefined j = j ≡ none
Represents base64 null j = j ≡ some json_null
Represents base64 (int n) j = j ≡ some (json_int n)
Represents base64 (double f) j = j ≡ some (json_double f)
Represents base64 (text s) j = j ≡ some (json_string s)
Represents base64 (blob b) j = j ≡ some (json_string (base64 b))

abbrev pub IsLabel : OperationType → Bytes → Type 0
IsLabel insert t = t ≡ codes "insert"
IsLabel update t = t ≡ codes "update"
IsLabel delete t = t ≡ codes "delete"
IsLabel (other b) t = ⊥

-- The columns ascend from `i` on, so that none is listed twice.
abbrev pub Ascending : ℕ → List JsonChange → Type 0
Ascending i [] = Unit {0}
Ascending i (c ∷ cs) = (i ≤ c.column) × Ascending (suc c.column) cs

-- A change that says something.
abbrev pub Tells : JsonChange → Type 0
Tells c = (c.old ≢ none) ⊎ (c.new ≢ none)

-- A list of changes says of every column exactly the values that the entry gives.
abbrev pub Shows : (Bytes → Bytes) → ChangesetEntry → List JsonChange → Type 0
Shows base64 e cs =
    ((k : ℕ)
      → Represents base64 (cell k (old_cells e)) (said k cs).0
        × Represents base64 (cell k (new_cells e)) (said k cs).1)
    × Ascending 0 cs
    × All Tells cs

-- The object of an entry: its table, the name of its operation, and its changes in a slice that is not nil.
abbrev pub Describes : (Bytes → Bytes) → ChangesetEntry → JsonEntry → Type 0
Describes base64 e j =
    (j.table ≡ e.table.name)
    × IsLabel e.op j.type
    × ((cs : List JsonChange) × (j.changes ≡ made cs) × Shows base64 e cs)
