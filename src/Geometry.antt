-- ===== src/Geometry.antt =====
-- The header of a GeoPackage geometry, as driver/gpkg_functions.go reads it for the SQL functions and
-- as geodiff/api.go strips it. A float64 is its bit pattern.
pub mod Header
pub mod Floats
pub mod Arcs
pub mod Wkb
use go_geodiff.Common.{
  ℕ, zero, suc, ◌+◌, ◌*◌, ◌/◌, ◌%◌, ◌==◌, ltb, Bool, true, false, not, ◌&&◌, ◌||◌, List, [], ◌∷◌,
  if◌then◌else◌, Bytes, length, take, drop, Option, none, some,
}
use go_geodiff.Result.{
  Result, ok, err, invalid_geometry_blob, incorrect_magic_number, incorrect_version,
  incorrect_envelope, gpkg_wkb_too_short, missing_magic_bytes, unknown_envelope_indicator,
  too_short_for_header, index_panic, ◌>>=◌,
}
use go_geodiff.Changeset.Reader.{big_endian}

pub record GpkgEnvelope : Type 0 where
  pub min_x : ℕ
  pub max_x : ℕ
  pub min_y : ℕ
  pub max_y : ℕ

-- The envelope is there when the header carries one.
pub record GpkgHeader : Type 0 where
  pub empty : Bool
  pub env : Option GpkgEnvelope
  pub size : ℕ

unfoldable pub little_endian : Bytes → ℕ
little_endian [] = 0
little_endian (b ∷ bs) = b + 256 * little_endian bs

-- `bs[n:]`, which panics behind the end.
unfoldable pub sliced : ℕ → Bytes → Result Bytes
sliced n bs = if ltb (length bs) n then err index_panic else ok (drop n bs)

-- `order.Uint64`, which panics on fewer than eight bytes.
unfoldable pub uint64 : Bool → Bytes → Result ℕ
uint64 little bs =
    if ltb (length bs) 8
    then err index_panic
    else ok (if little then little_endian (take 8 bs) else big_endian 0 (take 8 bs))

-- `d(i)`
unfoldable pub double_at : Bool → Bytes → ℕ → Result ℕ
double_at little blob i = sliced (8 + 8 * i) blob >>= uint64 little

-- The number of doubles of an envelope; others are not known.
unfoldable pub doubles : ℕ → Option ℕ
doubles envelope =
    if envelope == 0
    then some 0
    else if envelope == 1
    then some 4
    else if envelope == 2
    then some 6
    else if envelope == 3
    then some 8
    else if envelope == 4
    then some 6
    else none

unfoldable pub envelope_at : Bool → Bytes → ℕ → Result (Option GpkgEnvelope)
envelope_at little blob n =
    if ltb 0 n
    then (do
      min_x ← double_at little blob 0
      max_x ← double_at little blob 1
      min_y ← double_at little blob 2
      max_y ← double_at little blob 3
      ok (some (record { min_x = min_x; max_x = max_x; min_y = min_y; max_y = max_y })))
    else ok none

-- From the number of doubles on.
abbrev pub sized_header : Bytes → ℕ → Option ℕ → Result GpkgHeader
sized_header blob flags none = err (incorrect_envelope (flags / 2 % 8))
sized_header blob flags (some n) =
    if ltb (length blob) (8 + 8 * n)
    then err invalid_geometry_blob
    else envelope_at (flags % 2 == 1) blob n >>= λ env.
        ok (record { empty = flags / 16 % 2 == 1; env = env; size = 8 + 8 * n })

unfoldable pub read_gpkg_header : Bytes → Result GpkgHeader
read_gpkg_header (g ∷ p ∷ version ∷ flags ∷ b4 ∷ b5 ∷ b6 ∷ b7 ∷ rest) =
    if not (g == b'G') || not (p == b'P')
    then err incorrect_magic_number
    else if not (version == 0)
    then err (incorrect_version version)
    else sized_header (g ∷ p ∷ version ∷ flags ∷ b4 ∷ b5 ∷ b6 ∷ b7 ∷ rest) flags
        (doubles (flags / 2 % 8))
read_gpkg_header _ = err invalid_geometry_blob

-- `ST_IsEmpty`, with SQL's NULL for an empty argument.
unfoldable pub st_is_empty : Bytes → Result (Option ℕ)
st_is_empty blob =
    if length blob == 0
    then ok none
    else read_gpkg_header blob >>= λ h. ok (some (if h.empty then 1 else 0))

-- The lengths of a header.
unfoldable pub header_size : ℕ → Option ℕ
header_size indicator =
    if indicator == 0
    then some 8
    else if indicator == 1
    then some 40
    else if indicator == 2
    then some 56
    else if indicator == 3
    then some 72
    else if indicator == 4
    then some 56
    else none

abbrev pub stripped : Bytes → ℕ → Option ℕ → Result Bytes
stripped blob indicator none = err (unknown_envelope_indicator indicator)
stripped blob indicator (some size) =
    if ltb (length blob) size
    then err (too_short_for_header size (length blob))
    else ok (drop size blob)

unfoldable pub create_wkb_from_gpkg_header : Bytes → Result Bytes
create_wkb_from_gpkg_header (g ∷ p ∷ version ∷ flags ∷ b4 ∷ b5 ∷ b6 ∷ b7 ∷ rest) =
    if not (g == b'G') || not (p == b'P')
    then err missing_magic_bytes
    else stripped (g ∷ p ∷ version ∷ flags ∷ b4 ∷ b5 ∷ b6 ∷ b7 ∷ rest) (flags / 2 % 8)
        (header_size (flags / 2 % 8))
create_wkb_from_gpkg_header _ = err gpkg_wkb_too_short
