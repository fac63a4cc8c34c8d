-- ===== src/Geometry/Wkb.antt =====
-- The envelope of an ISO WKB body: `wkbEnvelopeReader` and `gpkgBlobEnvelope` of driver/gpkg_functions.go.
-- The recursion over the members of a geometry runs on fuel, more than the body has bytes.
pub mod Steps
pub mod Points
pub mod Total
pub mod Envelopes
use go_geodiff.Common.{
  ℕ, zero, suc, ◌+◌, ◌-◌, ◌*◌, ◌/◌, ◌%◌, ◌==◌, ltb, leb, Bool, true, false, not, ◌&&◌, ◌||◌, List,
  [], ◌∷◌, if◌then◌else◌, Bytes, length, take, drop, Option, none, some,
}
use go_geodiff.Result
use go_geodiff.Result.{
  is_panic, Error, Result, ok, err, invalid_geometry_blob, wkb_too_short, unreadable_geometry_type,
  wrong_circular_string, unsupported_modifier, unsupported_geometry_type, index_panic, out_of_fuel,
}
use go_geodiff.Changeset.Reader.{big_endian}
use go_geodiff.Geometry.{GpkgEnvelope, GpkgHeader, little_endian, sliced, uint64, read_gpkg_header}
use go_geodiff.Geometry.Floats.{Floats, not_a_number}
use go_geodiff.Geometry.Arcs.{Point, Bounds, new_gpkg_envelope, add_point, arc_bounds}

-- The reader and the envelope that its methods widen. After an error neither is used.
pub record Wkb : Type 0 where
  pub buf : Bytes
  pub little : Bool
  pub bounds : Bounds

abbrev pub Parse : Type 0 → Type 0
Parse A = Wkb → Result (A × Wkb)

module _ {A B : Type 0} where
  abbrev pub next : Result (A × Wkb) → (A → Parse B) → Result (B × Wkb)
  next (ok (a, s)) k = k a s
  next (err e) k = err e

  infixl 5 ◌>>=◌ ◌>>◌
  abbrev pub ◌>>=◌ : Parse A → (A → Parse B) → Parse B
  ◌>>=◌ m k s = next (m s) k

  abbrev pub ◌>>◌ : Parse A → Parse B → Parse B
  m >> k = m >>= λ _. k

abbrev pub pure : {A : Type 0} → A → Parse A
pure a s = ok (a, s)

abbrev pub fails : {A : Type 0} → Error → Parse A
fails e s = err e

-- `order.Uint32`, which panics on fewer than four bytes.
unfoldable pub uint32 : Bool → Bytes → Result ℕ
uint32 little bs =
    if ltb (length bs) 4
    then err index_panic
    else ok (if little then little_endian (take 4 bs) else big_endian 0 (take 4 bs))

-- The number that was read, and `r.buf = r.buf[n:]`.
abbrev pub advance : ℕ → Wkb → Result ℕ → Result (ℕ × Wkb)
advance n s v =
    Result.◌>>=◌ v (λ a. Result.◌>>=◌ (sliced n s.buf) (λ rest. ok (a, record s { buf = rest })))

unfoldable pub read_u32 : Parse ℕ
read_u32 s = if ltb (length s.buf) 4 then err wkb_too_short else advance 4 s (uint32 s.little s.buf)

unfoldable pub read_f64 : Parse ℕ
read_f64 s = if ltb (length s.buf) 8 then err wkb_too_short else advance 8 s (uint64 s.little s.buf)

-- `p[j], _ = r.f64()`: the error is dropped, and then the number is 0. A panic is no error.
abbrev pub or_zero : Wkb → Result (ℕ × Wkb) → Result (ℕ × Wkb)
or_zero s (ok a) = ok a
or_zero s (err e) = elim (is_panic e) [ true ↦ err e | false ↦ ok (0, s) ]

unfoldable pub read_ordinates : ℕ → Parse (List ℕ)
read_ordinates zero s = ok ([], s)
read_ordinates (suc n) s =
    next (or_zero s (read_f64 s)) (λ v s'. next (read_ordinates n s') (λ vs. pure (v ∷ vs)))

unfoldable pub read_points : ℕ → ℕ → Parse (List (List ℕ))
read_points zero coords s = ok ([], s)
read_points (suc n) coords s =
    next (read_ordinates coords s) (λ p s'. next (read_points n coords s') (λ ps. pure (p ∷ ps)))

-- `points`; the product of the two counts fits the uint64.
unfoldable pub points : ℕ → ℕ → Parse (List (List ℕ))
points n coords s =
    if ltb (length s.buf) (n * coords * 8) then err wkb_too_short else read_points n coords s

-- `p[0]` and `p[1]`
abbrev pub point_of : List ℕ → Result Point
point_of (x ∷ y ∷ rest) = ok (record { x = x; y = y })
point_of _ = err index_panic

abbrev pub widen : (Bounds → Bounds) → Parse (Unit {0})
widen g s = ok (tt, record s { bounds = g s.bounds })

abbrev pub add_to : Result Point → Parse (Unit {0})
add_to (ok p) s = widen (add_point p.x p.y) s
add_to (err e) s = err e

unfoldable pub add_points : List (List ℕ) → Parse (Unit {0})
add_points [] = pure tt
add_points (p ∷ ps) = add_to (point_of p) >> add_points ps

abbrev pub any_number : List ℕ → Bool
any_number [] = false
any_number (v ∷ vs) = not (not_a_number v) || any_number vs

-- A point is added unless every ordinate is NaN.
abbrev pub add_single : List (List ℕ) → Parse (Unit {0})
add_single [] s = err index_panic
add_single (p ∷ ps) s = if any_number p then add_to (point_of p) s else pure tt s

abbrev pub coords_of : ℕ → ℕ
coords_of modifier = if modifier == 1 || modifier == 2 then 3 else if modifier == 3 then 4 else 2

abbrev pub contains_type : List ℕ → ℕ → Bool
contains_type [] t = false
contains_type (v ∷ types) t = v == t || contains_type types t

abbrev pub refuses : Option (List ℕ) → ℕ → Bool
refuses none typ = false
refuses (some allowed) typ = not (contains_type allowed typ)

abbrev pub other_dims : Option ℕ → ℕ → Bool
other_dims none modifier = false
other_dims (some dims) modifier = not (modifier == dims)

unfoldable pub repeat : ℕ → Parse (Unit {0}) → Parse (Unit {0})
repeat zero m = pure tt
repeat (suc n) m = m >> repeat n m

abbrev pub or_unreadable : Result (ℕ × Wkb) → Result (ℕ × Wkb)
or_unreadable (ok a) = ok a
or_unreadable (err e) = elim (is_panic e) [ true ↦ err e | false ↦ err unreadable_geometry_type ]

abbrev pub code_from : Bytes → Parse ℕ
code_from [] s = err wkb_too_short
code_from (b ∷ rest) s = or_unreadable (read_u32 (record s { buf = rest; little = not (b == 0) }))

-- The byte order and the code of a geometry.
unfoldable pub read_code : Parse ℕ
read_code s = code_from s.buf s

abbrev pub bounds_of : Result (Unit {0} × Wkb) → Result Bounds
bounds_of (err e) = err e
bounds_of (ok (u, s)) = ok s.bounds

abbrev pub picked : Result Bounds → (GpkgEnvelope → ℕ) → Result (Option ℕ)
picked (err e) pick = err e
picked (ok b) pick = ok (if b.added then some (pick b.env) else none)

module _ (f : Floats) where
  abbrev pub add_arc : Result Point → Result Point → Result Point → Parse (Unit {0})
  add_arc (ok p) (ok q) (ok r) s = widen (arc_bounds f p q r) s
  add_arc (err e) q r s = err e
  add_arc (ok p) (err e) r s = err e
  add_arc (ok p) (ok q) (err e) s = err e

  -- Each arc ends where the next one starts.
  unfoldable pub arc_points : List (List ℕ) → Parse (Unit {0})
  arc_points (p ∷ q ∷ r ∷ rest) =
      add_arc (point_of p) (point_of q) (point_of r) >> arc_points (r ∷ rest)
  arc_points _ = pure tt

  unfoldable pub point_list : ℕ → Bool → Parse (Unit {0})
  point_list coords arcs = read_u32 >>= λ n.
      if arcs && (not (n == 0) && (ltb n 3 || not ((n - 3) % 2 == 0)))
      then fails wrong_circular_string
      else points n coords >>= λ pts. if arcs then arc_points pts else add_points pts

  -- The switch over the type, `sub` reading a member.
  unfoldable pub dispatch :
      (Option ℕ → Option (List ℕ) → Parse (Unit {0})) → ℕ → ℕ → Parse (Unit {0})
  dispatch sub modifier typ =
      let coords = coords_of modifier in
      let member : Option (List ℕ) → Parse (Unit {0}) =
        λ allowed. read_u32 >>= λ n. repeat n (sub (some modifier) allowed) in
      if typ == 1
      then (points 1 coords >>= add_single)
      else if typ == 2
      then point_list coords false
      else if typ == 8
      then point_list coords true
      else if typ == 3
      then (read_u32 >>= λ rings. repeat rings (point_list coords false))
      else if typ == 4
      then member (some (1 ∷ []))
      else if typ == 5
      then member (some (2 ∷ []))
      else if typ == 6
      then member (some (3 ∷ []))
      else if typ == 7
      then member none
      else if typ == 9
      then member (some (2 ∷ 8 ∷ []))
      else if typ == 10
      then member (some (2 ∷ 8 ∷ 9 ∷ []))
      else pure tt

  unfoldable pub checked :
      (Option ℕ → Option (List ℕ) → Parse (Unit {0}))
      → Option ℕ
      → Option (List ℕ)
      → ℕ
      → Parse (Unit {0})
  checked sub dims allowed code =
      let modifier = code / 1000 in
      let typ = code % 1000 in
      if ltb 3 modifier
      then fails (unsupported_modifier (modifier * 1000))
      else if ltb typ 1 || ltb 10 typ
      then fails (unsupported_geometry_type typ)
      else if other_dims dims modifier || refuses allowed typ
      then fails invalid_geometry_blob
      else dispatch sub modifier typ

  unfoldable pub geometry : ℕ → Option ℕ → Option (List ℕ) → Parse (Unit {0})
  geometry zero dims allowed s = err out_of_fuel
  geometry (suc fuel) dims allowed s = next (read_code s) (checked (geometry fuel) dims allowed)

  -- From the start of a body.
  abbrev pub body_bounds : Bytes → Result Bounds
  body_bounds body = bounds_of (
      geometry (suc (length body)) none none
        (record { buf = body; little = false; bounds = new_gpkg_envelope }))

  abbrev pub header_or_body : Bytes → GpkgHeader → Option GpkgEnvelope → Result Bounds
  header_or_body blob h (some env) = ok (record { added = true; env = env })
  header_or_body blob h none = Result.◌>>=◌ (sliced h.size blob) body_bounds

  unfoldable pub gpkg_blob_envelope : Bytes → Result Bounds
  gpkg_blob_envelope blob = elim (read_gpkg_header blob) [
    | err e ↦ err e
    | ok h ↦ header_or_body blob h h.env
  ]

  -- `ST_MinX`, `ST_MaxX`, `ST_MinY` and `ST_MaxY`, by what they pick; `none` is NULL.
  unfoldable pub envelope_func : (GpkgEnvelope → ℕ) → Bytes → Result (Option ℕ)
  envelope_func pick blob =
      if length blob == 0 then ok none else picked (gpkg_blob_envelope blob) pick
