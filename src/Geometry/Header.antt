-- ===== src/Geometry/Header.antt =====
-- The two readers of a GeoPackage geometry header, one against the other.
use go_geodiff.Common.{
  ℕ, ◌⊎◌, inl, inr, length-drop, take, ◌+◌, ◌*◌, ◌/◌, ◌%◌, ◌==◌, ltb, ◌≤◌, ◌≡◌, refl, arith, Bool,
  true, false, not, ◌||◌, ◌∷◌, if◌then◌else◌, Bytes, length, drop, get_elem?, Option, none, some,
}
use go_geodiff.Changeset.Reader.{big_endian}
use go_geodiff.Result.{
  Result, ok, err, incorrect_magic_number, incorrect_version, missing_magic_bytes,
  invalid_geometry_blob, too_short_for_header, ◌>>=◌,
}
use go_geodiff.Geometry.{
  GpkgEnvelope, GpkgHeader, little_endian, sliced, uint64, double_at, doubles, envelope_at,
  sized_header, read_gpkg_header, header_size, stripped, create_wkb_from_gpkg_header,
}

-- What one reader's answer says of the other's: the header that is read is the one that is stripped,
-- and lies in the blob.
abbrev pub Strips : Bytes → Result GpkgHeader → Result Bytes → Type 0
Strips blob (ok h) body = (body ≡ ok (drop h.size blob)) × (h.size ≤ length blob)
Strips blob (err e) (ok body) =
    (version : ℕ) × (get_elem? blob 2 ≡ some version) × ((version == 0) ≡ false)
Strips blob (err e) (err e') = Unit {0}

abbrev size_of : Option ℕ → Option ℕ
size_of none = none
size_of (some n) = some (8 + 8 * n)

header_size-doubles : (e : ℕ) → header_size e ≡ size_of (doubles e)
unfolding header_size doubles
header_size-doubles e = ground arith

-- What lies in a slice can be read.
pub sliced-there : (n : ℕ) (bs : Bytes) → n ≤ length bs → sliced n bs ≡ ok (drop n bs)
unfolding sliced
sliced-there n bs h = ground arith

pub long_enough : (n k : ℕ) → k ≤ n → ltb n k ≡ false
long_enough n k h = ground (arith, h)

pub uint64-there :
    (little : Bool) (bs : Bytes) → 8 ≤ length bs → (v : ℕ) × (uint64 little bs ≡ ok v)
unfolding uint64
uint64-there little bs h = (
  if little then little_endian (take 8 bs) else big_endian 0 (take 8 bs),
  rw (long_enough (length bs) 8 h) refl,
)

double_at-there :
    (little : Bool) (blob : Bytes) (i : ℕ)
    → 16 + 8 * i ≤ length blob
    → (v : ℕ) × (double_at little blob i ≡ ok v)
unfolding double_at
double_at-there little blob i h =
    let (v, e) =
      uint64-there little (drop (8 + 8 * i) blob)
        (omega (arith, length-drop (8 + 8 * i) blob, h)) in
    (v, rw (sliced-there (8 + 8 * i) blob (omega (arith, h))) e)

-- An envelope has the four doubles of X and Y, or none.
abbrev pub IsPlanar : Option ℕ → Type 0
IsPlanar none = Unit {0}
IsPlanar (some n) = (n ≡ 0) ⊎ (4 ≤ n)

pub doubles-IsPlanar : (e : ℕ) → IsPlanar (doubles e)
unfolding doubles
doubles-IsPlanar e = by_test (e == 0) (e == 1) (e == 2) (e == 3) (e == 4)
  where
    by_test :
        (a b c d f : Bool)
        → IsPlanar (
            if a
            then some 0
            else if b
            then some 4
            else if c
            then some 6
            else if d
            then some 8
            else if f
            then some 6
            else none)
    by_test true b c d f = inl refl
    by_test false true c d f = inr (omega arith)
    by_test false false true d f = inr (omega arith)
    by_test false false false true f = inr (omega arith)
    by_test false false false false true = inr (omega arith)
    by_test false false false false false = tt

pub envelope_at-there :
    (little : Bool) (blob : Bytes) (n : ℕ)
    → (n ≡ 0) ⊎ (4 ≤ n)
    → 8 + 8 * n ≤ length blob
    → (env : Option GpkgEnvelope) × (envelope_at little blob n ≡ ok env)
unfolding envelope_at
envelope_at-there little blob n (inl e) h = (none, rw e refl)
envelope_at-there little blob n (inr l) h =
    let some_there : ltb 0 n ≡ true = ground (arith, l) in
    let (a, ea) = double_at-there little blob 0 (omega (arith, l, h)) in
    let (b, eb) = double_at-there little blob 1 (omega (arith, l, h)) in
    let (c, ec) = double_at-there little blob 2 (omega (arith, l, h)) in
    let (d, ed) = double_at-there little blob 3 (omega (arith, l, h)) in
    (
      some (record { min_x = a; max_x = b; min_y = c; max_y = d }),
      rw (some_there, ea, eb, ec, ed) refl,
    )

sized-Strips :
    (blob : Bytes) (flags : ℕ) (n : Option ℕ)
    → IsPlanar n
    → Strips blob (sized_header blob flags n) (stripped blob (flags / 2 % 8) (size_of n))
sized-Strips blob flags none planar = tt
sized-Strips blob flags (some n) planar = go (ltb (length blob) (8 + 8 * n)) refl
  where
    go :
        (b : Bool)
        → ltb (length blob) (8 + 8 * n) ≡ b
        → Strips blob
            (if b
              then err invalid_geometry_blob
              else envelope_at (flags % 2 == 1) blob n >>= λ env.
                  ok (record { empty = flags / 16 % 2 == 1; env = env; size = 8 + 8 * n }))
            (if b
              then err (too_short_for_header (8 + 8 * n) (length blob))
              else ok (drop (8 + 8 * n) blob))
    go true e = tt
    go false e =
        let (env, there) = envelope_at-there (flags % 2 == 1) blob n planar (ground (arith, e)) in
        rw there (refl, ground (arith, e))

version-Strips :
    (blob : Bytes) (flags version : ℕ) (b : Bool)
    → get_elem? blob 2 ≡ some version
    → not (version == 0) ≡ b
    → Strips blob
        (if b
          then err (incorrect_version version)
          else sized_header blob flags (doubles (flags / 2 % 8)))
        (stripped blob (flags / 2 % 8) (size_of (doubles (flags / 2 % 8))))
version-Strips blob flags version true h q =
    refused (stripped blob (flags / 2 % 8) (size_of (doubles (flags / 2 % 8))))
  where
    refused : (r : Result Bytes) → Strips blob (err (incorrect_version version)) r
    refused (ok body) = (version, h, ground (arith, q))
    refused (err e) = tt
version-Strips blob flags version false h q =
    sized-Strips blob flags (doubles (flags / 2 % 8)) (doubles-IsPlanar (flags / 2 % 8))

magic-Strips :
    (blob : Bytes) (flags version : ℕ) (b : Bool)
    → get_elem? blob 2 ≡ some version
    → Strips blob
        (if b
          then err incorrect_magic_number
          else if not (version == 0)
          then err (incorrect_version version)
          else sized_header blob flags (doubles (flags / 2 % 8)))
        (if b
          then err missing_magic_bytes
          else stripped blob (flags / 2 % 8) (size_of (doubles (flags / 2 % 8))))
magic-Strips blob flags version true h = tt
magic-Strips blob flags version false h =
    version-Strips blob flags version (not (version == 0)) h refl

-- On any blob, `CreateWkbFromGpkgHeader` drops exactly the header that `readGpkgHeader` reads, which lies
-- in the blob; and it answers a body where the other answers an error only for a version other than 0.
pub header_readers-Strips :
    (blob : Bytes) → Strips blob (read_gpkg_header blob) (create_wkb_from_gpkg_header blob)
unfolding read_gpkg_header create_wkb_from_gpkg_header
header_readers-Strips (g ∷ p ∷ version ∷ flags ∷ b4 ∷ b5 ∷ b6 ∷ b7 ∷ rest) =
    rw (header_size-doubles (flags / 2 % 8)) (
      magic-Strips (g ∷ p ∷ version ∷ flags ∷ b4 ∷ b5 ∷ b6 ∷ b7 ∷ rest) flags version
        (not (g == b'G') || not (p == b'P')) refl)
header_readers-Strips _ = tt
