-- ===== src/Json/Typed.antt =====
-- A value's own JSON form, `MarshalJSON` and `UnmarshalJSON` of changeset/types.go, and its `String`. The
-- object is its two fields, the second one the text of a JSON value; encoding/json on numbers and
-- strings, base64 and the printing of values are an interface.
use go_geodiff.Common.{
  ℕ, ◌≡◌, refl, true, [], ◌++◌, codes, if◌then◌else◌, Bytes, equal_bytes, length, Option, none,
  some,
}
use go_geodiff.Result.{Result, ok, err, not_unmarshalled, not_marshalled}
use go_geodiff.Changeset.Types.{Value, undefined, int, double, text, blob, null, type_of, type_name}
use go_geodiff.Json.Listing.{is_finite}

-- What encoding/json and encoding/base64 make of a number, a string and bytes, and what they read back. A
-- string is printed with its invalid UTF-8 replaced.
pub record Codec : Type 0 where
  pub print_int : ℕ → Bytes
  pub print_double : ℕ → Bytes
  pub print_string : Bytes → Bytes
  pub base64 : Bytes → Bytes
  pub parse_int : Bytes → Option ℕ
  pub parse_double : Bytes → Option ℕ
  pub parse_string : Bytes → Option Bytes
  pub from_base64 : Bytes → Option Bytes
  pub replaced : Bytes → Bytes

-- What the packages document of them: what was printed is read back, an int64 as it was, a finite float64
-- as it was, a string with its invalid UTF-8 replaced, where base64 has none.
pub record IsCodec (c : Codec) : Type 0 where
  pub int_back : (n : ℕ) → c.parse_int (c.print_int n) ≡ some n
  pub double_back : (f : ℕ) → is_finite f ≡ true → c.parse_double (c.print_double f) ≡ some f
  pub string_back : (s : Bytes) → c.parse_string (c.print_string s) ≡ some (c.replaced s)
  pub ascii : (b : Bytes) → c.replaced (c.base64 b) ≡ c.base64 b
  pub base64_back : (b : Bytes) → c.from_base64 (c.base64 b) ≡ some b

-- The `type` and the `value` of the object; an object without a value has an empty text there.
pub record TypedObject : Type 0 where
  pub type : Bytes
  pub value : Bytes

module _ (c : Codec) where
  unfoldable pub marshal_value : Value → Result TypedObject
  marshal_value undefined = ok (record { type = codes "undefined"; value = [] })
  marshal_value null = ok (record { type = codes "null"; value = [] })
  marshal_value (int n) = ok (record { type = codes "int"; value = c.print_int n })
  marshal_value (double f) =
      if is_finite f
      then ok (record { type = codes "double"; value = c.print_double f })
      else err not_marshalled
  marshal_value (text s) = ok (record { type = codes "text"; value = c.print_string s })
  marshal_value (blob b) = ok (record { type = codes "blob"; value = c.print_string (c.base64 b) })

  abbrev pub read_as {ℓ} : {A : Type ℓ} → (A → Value) → Option A → Result Value
  read_as make none = err not_unmarshalled
  read_as make (some a) = ok (make a)

  abbrev pub read_blob : Option Bytes → Result Value
  read_blob none = err not_unmarshalled
  read_blob (some s) = read_as blob (c.from_base64 s)

  -- The switch over the type.
  unfoldable pub unmarshal_value : TypedObject → Result Value
  unmarshal_value head =
      if equal_bytes head.type (codes "undefined")
      then ok undefined
      else if equal_bytes head.type (codes "null")
      then ok null
      else if equal_bytes head.type (codes "int")
      then read_as int (c.parse_int head.value)
      else if equal_bytes head.type (codes "double")
      then read_as double (c.parse_double head.value)
      else if equal_bytes head.type (codes "text")
      then read_as text (c.parse_string head.value)
      else if equal_bytes head.type (codes "blob")
      then read_blob (c.parse_string head.value)
      else err not_unmarshalled

-- `Value.String`: `int(%d)`, `double(%g)`, `text(%q)` and `blob(%d bytes)`.
abbrev pub wrapped : Bytes → Bytes → Bytes
wrapped name inner = name ++ (codes "(" ++ (inner ++ codes ")"))

pub value_string : (ℕ → Bytes) → (ℕ → Bytes) → (Bytes → Bytes) → Value → Bytes
value_string decimal general quoted (int n) = wrapped (codes "int") (decimal n)
value_string decimal general quoted (double f) = wrapped (codes "double") (general f)
value_string decimal general quoted (text s) = wrapped (codes "text") (quoted s)
value_string decimal general quoted (blob b) =
    wrapped (codes "blob") (decimal (length b) ++ codes " bytes")
value_string decimal general quoted v = type_name (type_of v)

-- A value that JSON holds: a double that is finite, a text that is UTF-8.
abbrev pub IsHeld : Codec → Value → Type 0
IsHeld c (double f) = is_finite f ≡ true
IsHeld c (text s) = c.replaced s ≡ s
IsHeld c v = Unit {0}

-- A value is read back from its JSON form as it was, if its double is finite and its text UTF-8.
pub unmarshal_value-marshal_value :
    (c : Codec) (v : Value)
    → IsCodec c
    → IsHeld c v
    → (t : TypedObject) × (marshal_value c v ≡ ok t) × (unmarshal_value c t ≡ ok v)
unfolding marshal_value unmarshal_value equal_bytes
unmarshal_value-marshal_value c undefined k h = (_, refl, refl)
unmarshal_value-marshal_value c null k h = (_, refl, refl)
unmarshal_value-marshal_value c (int n) k h = (_, refl, rw (k.int_back n) refl)
unmarshal_value-marshal_value c (double f) k h = (
  record { type = codes "double"; value = c.print_double f },
  rw h refl,
  rw (k.double_back f h) refl,
)
unmarshal_value-marshal_value c (text s) k h = (_, refl, rw (k.string_back s, h) refl)
unmarshal_value-marshal_value c (blob b) k h =
    (_, refl, rw (k.string_back (c.base64 b), k.ascii b, k.base64_back b) refl)
