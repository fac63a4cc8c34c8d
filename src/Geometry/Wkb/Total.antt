-- ===== src/Geometry/Wkb/Total.antt =====
-- Reading a WKB body, from its code to the members of a geometry.
use go_geodiff.Common.{
  ℕ, ◌≡◌, refl, zero, suc, ◌+◌, ◌*◌, ◌/◌, ◌%◌, ◌≤◌, ◌<◌, arith, Bool, true, false, ◌||◌, not, List,
  [], ◌∷◌, ◌==◌, ltb, if◌then◌else◌, Bytes, length, Option, none, some,
}
use go_geodiff.Result.{
  ◌>>=◌, is_panic, unreadable_geometry_type, Result, ok, err, invalid_geometry_blob,
  incorrect_magic_number, incorrect_version,
}
use go_geodiff.Geometry.{GpkgHeader, envelope_at, doubles, sized_header, read_gpkg_header}
use go_geodiff.Geometry.Header.{IsPlanar, doubles-IsPlanar, envelope_at-there}
use go_geodiff.Geometry.Floats.{Floats}
use go_geodiff.Geometry.Arcs.{Bounds, new_gpkg_envelope}
use go_geodiff.Geometry.Wkb.{
  Wkb, Parse, next, read_u32, points, repeat, point_list, coords_of, dispatch, checked, other_dims,
  refuses, read_code, code_from, or_unreadable, geometry, bounds_of, body_bounds,
}
use go_geodiff.Geometry.Wkb.Steps.{
  IsAnswered, Wider-refl, Good, Sound, Any, Good-next, Good-weaken, Sound-next, Sound-repeat,
  Sound-test, Sound-u32, HasPoints, Sound-points,
}
use go_geodiff.Geometry.Wkb.Points.{Sound-fails, add_single-Sound, point_list-Sound}

module _ (f : Floats) where
  module _ (k : ℕ) (sub : Option ℕ → Option (List ℕ) → Parse (Unit {0}))
      (sub-Sound : (dims : Option ℕ) (allowed : Option (List ℕ))
        → Sound k Any (sub dims allowed)) where
    two_coords : (modifier : ℕ) → 2 ≤ coords_of modifier
    two_coords modifier = ground arith

    members-Sound :
        (modifier : ℕ) (allowed : Option (List ℕ))
        → Sound k Any (λ s. next (read_u32 s) (λ n. repeat n (sub (some modifier) allowed)))
    members-Sound modifier allowed =
        Sound-next k Any Any read_u32 _ (Sound-u32 k) (λ n u.
          Sound-repeat k n (sub (some modifier) allowed) (sub-Sound (some modifier) allowed))

    dispatch-Sound : (modifier typ : ℕ) → Sound k Any (dispatch f sub modifier typ)
    unfolding dispatch
    dispatch-Sound modifier typ =
        let coords = coords_of modifier in
        let enough = two_coords modifier in
        Sound-test k Any (typ == 1) _ _
          (λ e.
            Sound-next k (HasPoints 1 coords) Any (points 1 coords) _ (Sound-points k 1 coords)
              (λ ps g. add_single-Sound k coords ps enough g))
          (λ e.
            Sound-test k Any (typ == 2) _ _ (λ e. point_list-Sound f k coords false enough)
              (λ e.
                Sound-test k Any (typ == 8) _ _ (λ e. point_list-Sound f k coords true enough)
                  (λ e.
                    Sound-test k Any (typ == 3) _ _
                      (λ e. Sound-next k Any Any read_u32 _ (Sound-u32 k) (λ n u.
                        Sound-repeat k n (point_list f coords false)
                          (point_list-Sound f k coords false enough)))
                      (λ e.
                        Sound-test k Any (typ == 4) _ _ (λ e. members-Sound modifier _)
                          (λ e.
                            Sound-test k Any (typ == 5) _ _ (λ e. members-Sound modifier _)
                              (λ e.
                                Sound-test k Any (typ == 6) _ _ (λ e. members-Sound modifier _)
                                  (λ e.
                                    Sound-test k Any (typ == 7) _ _ (λ e. members-Sound modifier _)
                                      (λ e.
                                        Sound-test k Any (typ == 9) _ _
                                          (λ e. members-Sound modifier _)
                                          (λ e.
                                            Sound-test k Any (typ == 10) _ _
                                              (λ e. members-Sound modifier _)
                                              (λ e s b.
                                                (omega arith, Wider-refl s.bounds, tt)))))))))))

    checked-Sound :
        (dims : Option ℕ) (allowed : Option (List ℕ)) (code : ℕ)
        → Sound k Any (checked f sub dims allowed code)
    unfolding checked
    checked-Sound dims allowed code =
        Sound-test k Any (ltb 3 (code / 1000)) _ _
          (λ e. Sound-fails {A = Unit {0}} k Any _ (cc, cc))
          (λ e.
            Sound-test k Any (ltb (code % 1000) 1 || ltb 10 (code % 1000)) _ _
              (λ e. Sound-fails {A = Unit {0}} k Any _ (cc, cc))
              (λ e.
                Sound-test k Any (other_dims dims (code / 1000) || refuses allowed (code % 1000)) _
                  _ (λ e. Sound-fails {A = Unit {0}} k Any _ (cc, cc))
                  (λ e. dispatch-Sound (code / 1000) (code % 1000))))

or_unreadable-Good :
    (n : ℕ) (b : Bounds) (r : Result (ℕ × Wkb)) → Good Any n b r → Good Any n b (or_unreadable r)
or_unreadable-Good n b (err e) g = by_test (is_panic e)
  where
    by_test :
        (c : Bool)
        → Good {A = ℕ} Any n b (elim c [ true ↦ err e | false ↦ err unreadable_geometry_type ])
    by_test true = g
    by_test false = (cc, cc)
or_unreadable-Good n b (ok (code, s)) g = g

-- With more fuel than bytes left, for the code of a geometry takes a byte at least.
geometry-Sound :
    (f : Floats) (fuel : ℕ) (dims : Option ℕ) (allowed : Option (List ℕ))
    → Sound fuel Any (geometry f fuel dims allowed)
unfolding geometry read_code
geometry-Sound f zero dims allowed s l = absurd (omega arith)
geometry-Sound f (suc fuel) dims allowed s l = go (geometry-Sound f fuel) s.buf l
  where
    go :
        ((dims : Option ℕ) (allowed : Option (List ℕ))
          → Sound fuel Any (geometry f fuel dims allowed))
        → (bs : Bytes) → length bs < suc fuel
        → Good Any
            (length bs)
            s.bounds
            (next (code_from bs s) (checked f (geometry f fuel) dims allowed))
    go ih [] h = (cc, cc)
    go ih (b ∷ rest) h =
        let here : Wkb = record s { buf = rest; little = not (b == 0) } in
        Good-weaken Any (suc (length rest)) (length rest) s.bounds s.bounds _ (omega arith)
          (Wider-refl s.bounds)
          (Good-next fuel Any Any (length rest) s.bounds (or_unreadable (read_u32 here)) _
            (omega (arith, h))
            (or_unreadable-Good (length rest) s.bounds (read_u32 here)
              (Sound-u32 fuel here (omega (arith, h))))
            (λ code u. checked-Sound f fuel (geometry f fuel) ih dims allowed code))

-- Reading a WKB geometry, whatever the bytes, the arithmetic of the arcs and what is asked of the geometry,
-- ends, with an error that the code answers and never a panic, or with an envelope that reaches as far as the
-- one before it on every side.
pub geometry-Widens :
    (f : Floats) (dims : Option ℕ) (allowed : Option (List ℕ)) (s : Wkb)
    → Good Any (length s.buf) s.bounds (geometry f (suc (length s.buf)) dims allowed s)
geometry-Widens f dims allowed s =
    geometry-Sound f (suc (length s.buf)) dims allowed s (omega arith)

-- An error of the code, where there is one.
abbrev pub IsEnded : {A : Type 0} → Result A → Type 0
IsEnded (err e) = IsAnswered e
IsEnded (ok b) = Unit {0}

IsEnded-test :
    {A : Type 0} (c : Bool) (r r' : Result A)
    → IsEnded r
    → IsEnded r'
    → IsEnded (if c then r else r')
IsEnded-test true r r' g g' = g
IsEnded-test false r r' g g' = g'

sized_header-IsEnded :
    (blob : Bytes) (flags : ℕ) (n : Option ℕ) → IsPlanar n → IsEnded (sized_header blob flags n)
sized_header-IsEnded blob flags none planar = (cc, cc)
sized_header-IsEnded blob flags (some n) planar = go (ltb (length blob) (8 + 8 * n)) refl
  where
    go :
        (b : Bool)
        → ltb (length blob) (8 + 8 * n) ≡ b
        → IsEnded {A = GpkgHeader} (
            if b
            then err invalid_geometry_blob
            else envelope_at (flags % 2 == 1) blob n >>= λ env.
                ok (record { empty = flags / 16 % 2 == 1; env = env; size = 8 + 8 * n }))
    go true e = (cc, cc)
    go false e =
        let (env, there) = envelope_at-there (flags % 2 == 1) blob n planar (ground (arith, e)) in
        rw there tt

pub read_gpkg_header-IsEnded : (blob : Bytes) → IsEnded (read_gpkg_header blob)
unfolding read_gpkg_header
read_gpkg_header-IsEnded (g ∷ p ∷ version ∷ flags ∷ b4 ∷ b5 ∷ b6 ∷ b7 ∷ rest) =
    IsEnded-test (not (g == b'G') || not (p == b'P')) (err incorrect_magic_number) _ (cc, cc)
      (IsEnded-test (not (version == 0)) (err (incorrect_version version)) _ (cc, cc)
        (sized_header-IsEnded (g ∷ p ∷ version ∷ flags ∷ b4 ∷ b5 ∷ b6 ∷ b7 ∷ rest) flags
          (doubles (flags / 2 % 8)) (doubles-IsPlanar (flags / 2 % 8))))
read_gpkg_header-IsEnded _ = (cc, cc)

bounds_of-IsEnded :
    (n : ℕ) (b : Bounds) (r : Result (Unit {0} × Wkb)) → Good Any n b r → IsEnded (bounds_of r)
bounds_of-IsEnded n b (err e) g = g
bounds_of-IsEnded n b (ok (u, s)) g = tt

pub body_bounds-IsEnded : (f : Floats) (body : Bytes) → IsEnded (body_bounds f body)
body_bounds-IsEnded f body = bounds_of-IsEnded (length body) new_gpkg_envelope _ (
    geometry-Widens f none none (record { buf = body; little = false; bounds = new_gpkg_envelope }))
