-- ===== src/Geometry/Wkb/Points.antt =====
-- The steps that read points, lists of points and arcs.
use go_geodiff.Common.{
  ℕ, ◌-◌, ◌%◌, ◌≤◌, ◌≡◌, refl, arith, Bool, ◌&&◌, ◌||◌, not, List, [], ◌∷◌, ◌==◌, ltb, length, All,
}
use go_geodiff.Result.{Error, ok, wrong_circular_string}
use go_geodiff.Geometry.Floats.{Floats}
use go_geodiff.Geometry.Arcs.{Point}
use go_geodiff.Geometry.Wkb.{
  fails, add_to, point_of, read_u32, points, add_points, add_single, any_number, add_arc,
  arc_points, point_list,
}
use go_geodiff.Geometry.Wkb.Steps.{
  IsAnswered, Wider-refl, add_point-Wider, arc_bounds-Wider, Sound, Any, Sound-next, Good-test,
  Sound-test, Sound-u32, Has, HasPoints, Sound-points,
}

pub Sound-fails :
    {A : Type 0} (k : ℕ) (P : A → Type 0) (e : Error) → IsAnswered e → Sound k P (fails e)
Sound-fails k P e h s l = h

-- A point with two ordinates or more is there.
point_there :
    (p : List ℕ) (coords : ℕ) → 2 ≤ coords → Has coords p → (q : Point) × (point_of p ≡ ok q)
point_there [] coords h l = absurd (omega (arith, h, l))
point_there (x ∷ []) coords h l = absurd (omega (arith, h, l))
point_there (x ∷ y ∷ rest) coords h l = (_, refl)

add_to-Sound :
    (k coords : ℕ) (p : List ℕ) → 2 ≤ coords → Has coords p → Sound k Any (add_to (point_of p))
add_to-Sound k coords p h l s b =
    let (q, e) = point_there p coords h l in
    rw e (omega arith, add_point-Wider q.x q.y s.bounds, tt)

add_points-Sound :
    (k coords : ℕ) (ps : List (List ℕ))
    → 2 ≤ coords
    → All (Has coords) ps
    → Sound k Any (add_points ps)
unfolding add_points
add_points-Sound k coords [] h l = λ s b. (omega arith, Wider-refl s.bounds, tt)
add_points-Sound k coords (p ∷ ps) h l =
    Sound-next k Any Any (add_to (point_of p)) _ (add_to-Sound k coords p h l.0)
      (λ u v. add_points-Sound k coords ps h l.1)

pub add_single-Sound :
    (k coords : ℕ) (ps : List (List ℕ))
    → 2 ≤ coords
    → HasPoints 1 coords ps
    → Sound k Any (add_single ps)
add_single-Sound k coords [] h l = absurd (omega (arith, l.0))
add_single-Sound k coords (p ∷ ps) h l = λ s b.
    Good-test Any (length s.buf) s.bounds (any_number p) _ _
      (λ e. add_to-Sound k coords p h l.1.0 s b) (λ e. (omega arith, Wider-refl s.bounds, tt))

module _ (f : Floats) where
  add_arc-Sound :
      (k coords : ℕ) (p q r : List ℕ)
      → 2 ≤ coords
      → Has coords p
      → Has coords q
      → Has coords r
      → Sound k Any (add_arc f (point_of p) (point_of q) (point_of r))
  add_arc-Sound k coords p q r h lp lq lr s b =
      let (p1, e1) = point_there p coords h lp in
      let (p2, e2) = point_there q coords h lq in
      let (p3, e3) = point_there r coords h lr in
      rw (e1, e2, e3) (omega arith, arc_bounds-Wider f p1 p2 p3 s.bounds, tt)

  arc_points-Sound :
      (k coords : ℕ) (ps : List (List ℕ))
      → 2 ≤ coords
      → All (Has coords) ps
      → Sound k Any (arc_points f ps)
  unfolding arc_points
  arc_points-Sound k coords [] h l = λ s b. (omega arith, Wider-refl s.bounds, tt)
  arc_points-Sound k coords (p ∷ []) h l = λ s b. (omega arith, Wider-refl s.bounds, tt)
  arc_points-Sound k coords (p ∷ q ∷ []) h l = λ s b. (omega arith, Wider-refl s.bounds, tt)
  arc_points-Sound k coords (p ∷ q ∷ r ∷ rest) h l =
      Sound-next k Any Any (add_arc f (point_of p) (point_of q) (point_of r)) _
        (add_arc-Sound k coords p q r h l.0 l.1.0 l.1.1.0)
        (λ u v. arc_points-Sound k coords (r ∷ rest) h l.1.1)

  pub point_list-Sound :
      (k coords : ℕ) (arcs : Bool) → 2 ≤ coords → Sound k Any (point_list f coords arcs)
  unfolding point_list
  point_list-Sound k coords arcs h = Sound-next k Any Any read_u32 _ (Sound-u32 k) (λ n u.
      Sound-test k Any (arcs && (not (n == 0) && (ltb n 3 || not ((n - 3) % 2 == 0)))) _ _
        (λ e. Sound-fails {A = Unit {0}} k Any wrong_circular_string (cc, cc))
        (λ e.
          Sound-next k (HasPoints n coords) Any (points n coords) _ (Sound-points k n coords)
            (λ ps g.
              Sound-test k Any arcs _ _ (λ e. arc_points-Sound k coords ps h g.1)
                (λ e. add_points-Sound k coords ps h g.1))))
