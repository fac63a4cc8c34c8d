-- ===== src/Changeset/Types.antt =====
-- changeset/types.go: values, operations, tables and entries.
-- An int64 is its two's complement bit pattern and a float64 its IEEE 754 bit pattern, numbers below
-- 2 ^ 64; a string or a blob is the list of its bytes. The fields of `Value` are private and its
-- constructors set exactly one of them, so a value is one of six constructors.
pub mod Equal
use go_geodiff.Common.{
  codes, ◌++◌, ℕ, ◌+◌, ◌*◌, ◌/◌, ◌%◌, ◌^◌, Bool, true, false, ◌&&◌, ◌||◌, not, List, [], ◌∷◌, ◌==◌,
  ltb, Bytes, length, equal_bytes, Option, none, some,
}

pub data ValueType : Type 0 where
  type_undefined type_int type_double type_text type_blob type_null : ValueType

pub data Value : Type 0 where
  undefined : Value
  int : ℕ → Value
  double : ℕ → Value
  text : Bytes → Value
  blob : Bytes → Value
  null : Value

abbrev pub type_of : Value → ValueType
type_of undefined = type_undefined
type_of (int n) = type_int
type_of (double f) = type_double
type_of (text s) = type_text
type_of (blob b) = type_blob
type_of null = type_null

-- The byte that stands for a type in a changeset.
abbrev pub type_byte : ValueType → ℕ
type_byte type_undefined = 0
type_byte type_int = 1
type_byte type_double = 2
type_byte type_text = 3
type_byte type_blob = 4
type_byte type_null = 5

abbrev pub is_undefined : Value → Bool
is_undefined undefined = true
is_undefined _ = false

abbrev pub is_null : Value → Bool
is_null null = true
is_null _ = false

-- The accessors return a Go pair: the value, and the error "called on this type" if there is one.
-- `AsText` and `AsBlob` accept both types, and read the field that the other constructor left empty.
abbrev pub as_int : Value → ℕ × Option ValueType
as_int (int n) = (n, none)
as_int v = (0, some (type_of v))

abbrev pub as_double : Value → ℕ × Option ValueType
as_double (double f) = (f, none)
as_double v = (0, some (type_of v))

abbrev pub as_text : Value → Bytes × Option ValueType
as_text (text s) = (s, none)
as_text (blob b) = ([], none)
as_text v = ([], some (type_of v))

abbrev pub as_blob : Value → Bytes × Option ValueType
as_blob (text s) = ([], none)
as_blob (blob b) = (b, none)
as_blob v = ([], some (type_of v))

-- Go's `==` on float64: no NaN equals anything, and the two zeros are equal.
abbrev is_nan : ℕ → Bool
is_nan f = ltb (0x7ff * 2 ^ 52) (f % 2 ^ 63)

abbrev is_zero : ℕ → Bool
is_zero f = f % 2 ^ 63 == 0

unfoldable pub equal_double : ℕ → ℕ → Bool
equal_double f g = not (is_nan f) && not (is_nan g) && (f == g || (is_zero f && is_zero g))

-- `Value.Equal`
unfoldable pub equal : Value → Value → Bool
unfolding equal_double equal_bytes
equal undefined undefined = true
equal null null = true
equal (int m) (int n) = m == n
equal (double f) (double g) = equal_double f g
equal (text s) (text t) = equal_bytes s t
equal (blob a) (blob b) = equal_bytes a b
equal _ _ = false

-- `OperationType` is a byte; `other` is a byte that is none of the three.
pub data OperationType : Type 0 where
  insert update delete : OperationType
  other : ℕ → OperationType

abbrev pub op_byte : OperationType → ℕ
op_byte insert = 18
op_byte update = 23
op_byte delete = 9
op_byte (other b) = b

pub record ChangesetTable : Type 0 where
  pub name : Bytes
  pub primary_keys : List Bool

abbrev pub column_count : ChangesetTable → ℕ
column_count t = length t.primary_keys

-- The zero value of the Go struct.
abbrev pub empty_table : ChangesetTable
empty_table = record { name = []; primary_keys = [] }

pub record ChangesetEntry : Type 0 where
  pub op : OperationType
  pub old_values : List Value
  pub new_values : List Value
  pub table : ChangesetTable

-- `String` of a type and of an operation; `format` prints the number of an unknown one.
abbrev pub type_name : ValueType → Bytes
type_name type_undefined = codes "undefined"
type_name type_int = codes "int"
type_name type_double = codes "double"
type_name type_text = codes "text"
type_name type_blob = codes "blob"
type_name type_null = codes "null"

abbrev pub op_name : (ℕ → Bytes) → OperationType → Bytes
op_name format insert = codes "insert"
op_name format update = codes "update"
op_name format delete = codes "delete"
op_name format (other b) = codes "unknown(" ++ (format b ++ codes ")")

-- `Clone` copies the slices, and a list is its own copy.
abbrev pub clone_table : ChangesetTable → ChangesetTable
clone_table t = record { name = t.name; primary_keys = t.primary_keys }

abbrev pub clone_entry : ChangesetEntry → ChangesetEntry
clone_entry e = record {
  op = e.op;
  old_values = e.old_values;
  new_values = e.new_values;
  table = e.table;
}
