-- ===== src/Tests/Views.antt =====
-- The JSON views and the envelopes on concrete inputs.
use go_geodiff.Common.{
  ℕ, ◌≡◌, refl, arith, true, false, List, [], ◌∷◌, ◌++◌, Bytes, codes, map, Option, none, some,
}
use go_geodiff.Common.Maps.{bytes_key, contains}
use go_geodiff.Result.{Result, ok}
use go_geodiff.Changeset.Types.{
  undefined, int, double, text, blob, insert, update, ChangesetTable, ChangesetEntry,
}
use go_geodiff.Changeset.Reader.{new_reader}
use go_geodiff.Changeset.Stream.{Group, stored_entries}
use go_geodiff.Changeset.Stream.RoundTrip.{written}
use go_geodiff.Json.{Slice, made, JsonEntry, changeset_entry_to_json, changeset_to_json}
use go_geodiff.Json.Listing.{listed_entries, summary_rows}
use go_geodiff.Json.Meaning.{Describes}
use go_geodiff.Json.Views.{changeset_entry_to_json-Describes}
use go_geodiff.Json.Agree.{nil_if_empty, as_appended, Exports, changeset_to_json-listed_entries}
use go_geodiff.Json.Summaries.{mentions}
use go_geodiff.Json.Summaries.Rows.{Distinct, counted_row, summary_rows-written}
use go_geodiff.Json.Typed.{
  Codec, IsCodec, TypedObject, marshal_value, unmarshal_value, unmarshal_value-marshal_value,
}
use go_geodiff.Geometry.{
  GpkgEnvelope, read_gpkg_header, doubles, envelope_at, little_endian, uint64, sliced, double_at,
}
use go_geodiff.Geometry.Floats.{Floats, less, rank, negated}
use go_geodiff.Geometry.Arcs.{new_gpkg_envelope, add_point}
use go_geodiff.Geometry.Wkb.{
  Wkb, geometry, envelope_func, gpkg_blob_envelope, read_code, read_u32, uint32, checked, dispatch,
  read_points, read_ordinates, read_f64,
}
use go_geodiff.Geometry.Wkb.{points as wkb_points}
use go_geodiff.Geometry.Wkb.Steps.{Good, Any}
use go_geodiff.Geometry.Wkb.Total.{geometry-Widens}

abbrev points : ChangesetTable
points = record { name = codes "points"; primary_keys = true ∷ false ∷ [] }

abbrev add_row : ChangesetEntry
add_row = record {
  op = insert;
  old_values = [];
  new_values = int 1 ∷ text (codes "a") ∷ [];
  table = points;
}

abbrev move_row : ChangesetEntry
move_row = record {
  op = update;
  old_values = int 1 ∷ text (codes "a") ∷ [];
  new_values = undefined ∷ double 0x4000000000000000 ∷ [];
  table = points;
}

abbrev groups : List Group
groups = (points, add_row ∷ move_row ∷ []) ∷ []

-- Base64 that leaves the bytes as they are.
abbrev plain : Bytes → Bytes
plain b = b

abbrev format : ℕ → Bytes
format n = n ∷ []

changeset_entry_to_json-Describes_example :
    (j : JsonEntry) × (changeset_entry_to_json plain move_row ≡ ok j) × Describes plain move_row j
changeset_entry_to_json-Describes_example =
    changeset_entry_to_json-Describes plain move_row (ground arith)

changeset_to_json-listed_entries_example :
    (js : List JsonEntry) × Exports plain (stored_entries groups) js
    × (listed_entries plain format (new_reader (written groups))
        ≡ ok (nil_if_empty (map as_appended js)))
    × ((marshal : Slice JsonEntry → Result Bytes)
        → changeset_to_json plain marshal (new_reader (written groups)) ≡ marshal (made js))
changeset_to_json-listed_entries_example =
    changeset_to_json-listed_entries plain format groups (ground arith)
      (unfold stored_entries in ground arith)

summary_rows-written_example :
    (names : List Bytes) × Distinct names
    × ((name : Bytes) → contains name names ≡ mentions name (stored_entries groups))
    × (summary_rows (new_reader (written groups))
        ≡ ok (map (counted_row (stored_entries groups)) names))
summary_rows-written_example = summary_rows-written groups (ground arith)

abbrev first_of : Bytes → Option ℕ
first_of [] = none
first_of (n ∷ rest) = some n

abbrev codec : Codec
codec = record {
  print_int = λ n. n ∷ [];
  print_double = λ f. f ∷ [];
  print_string = λ s. s;
  base64 = λ b. b;
  parse_int = first_of;
  parse_double = first_of;
  parse_string = some;
  from_base64 = some;
  replaced = λ s. s;
}

codec-IsCodec : IsCodec codec
codec-IsCodec = record {
  int_back = λ n. refl;
  double_back = λ f h. refl;
  string_back = λ s. refl;
  ascii = λ b. refl;
  base64_back = λ b. refl;
}

unmarshal_value-marshal_value_example :
    (t : TypedObject) × (marshal_value codec (blob (1 ∷ 2 ∷ [])) ≡ ok t)
    × (unmarshal_value codec t ≡ ok (blob (1 ∷ 2 ∷ [])))
unmarshal_value-marshal_value_example =
    unmarshal_value-marshal_value codec (blob (1 ∷ 2 ∷ [])) codec-IsCodec tt

-- Arithmetic that answers its first argument.
abbrev floats : Floats
floats = record {
  add = λ x y. x;
  sub = λ x y. x;
  mul = λ x y. x;
  div = λ x y. x;
  least = λ x y. x;
  greatest = λ x y. x;
  hypot = λ x y. x;
  atan2 = λ x y. x;
}

-- A point, little endian.
abbrev point : Bytes
point = 1 ∷ 1 ∷ 0 ∷ 0 ∷ 0 ∷ 0 ∷ 0 ∷ 0 ∷ 0 ∷ 0 ∷ 0 ∷ 0 ∷ 64 ∷ 0 ∷ 0 ∷ 0 ∷ 0 ∷ 0 ∷ 0 ∷ 8 ∷ 64 ∷ []

abbrev at_point : Wkb
at_point = record { buf = point; little = false; bounds = new_gpkg_envelope }

geometry-Widens_example : Good Any 21 new_gpkg_envelope (geometry floats 22 none none at_point)
geometry-Widens_example = geometry-Widens floats none none at_point

abbrev pick_min_x : GpkgEnvelope → ℕ
pick_min_x e = e.min_x

abbrev point_blob : Bytes
point_blob = codes "GP" ++ (0 ∷ 1 ∷ 0 ∷ 0 ∷ 0 ∷ 0 ∷ point)

-- What the reader makes of the point.
point_read :
    envelope_func floats pick_min_x (codes "GP" ++ (0 ∷ 1 ∷ 0 ∷ 0 ∷ 0 ∷ 0 ∷ point))
    ≡ ok (some 0x4000000000000000)
unfolding envelope_func gpkg_blob_envelope read_gpkg_header doubles envelope_at geometry read_code
    read_u32 uint32 sliced double_at checked little_endian dispatch wkb_points read_points
    read_ordinates read_f64 uint64 add_point less rank negated
point_read = refl
