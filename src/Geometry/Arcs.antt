-- ===== src/Geometry/Arcs.antt =====
-- The bounds of a circular arc in driver/gpkg_functions.go: `arcBounds` and the functions that it calls.
use go_geodiff.Common.{ℕ, Bool, true, false, ◌&&◌, ◌||◌, if◌then◌else◌}
use go_geodiff.Geometry.{GpkgEnvelope}
use go_geodiff.Geometry.Floats.{
  Floats, less, at_most, same_number, negated, absolute, max_float, two, f90, f180, f270, f360,
  half_pi, two_pi, degrees, tiny,
}

pub record Point : Type 0 where
  pub x : ℕ
  pub y : ℕ

-- The envelope that a geometry widens, and whether anything was added to it.
pub record Bounds : Type 0 where
  pub added : Bool
  pub env : GpkgEnvelope

-- `newGpkgEnvelope`
abbrev pub new_gpkg_envelope : Bounds
new_gpkg_envelope = record {
  added = false;
  env = record {
    min_x = max_float;
    max_x = negated max_float;
    min_y = max_float;
    max_y = negated max_float;
  };
}

-- `gpkgEnvelope.add`
unfoldable pub add_point : ℕ → ℕ → Bounds → Bounds
add_point x y b = record {
  added = true;
  env = record {
    min_x = if less x b.env.min_x then x else b.env.min_x;
    max_x = if less b.env.max_x x then x else b.env.max_x;
    min_y = if less y b.env.min_y then y else b.env.min_y;
    max_y = if less b.env.max_y y then y else b.env.max_y;
  };
}

-- The box of an arc around its centre.
pub record Box : Type 0 where
  pub x_min : ℕ
  pub y_min : ℕ
  pub x_max : ℕ
  pub y_max : ℕ

module _ (f : Floats) where
  unfoldable pub normalize_arc_angle : ℕ → ℕ
  normalize_arc_angle a =
      if at_most a (negated f180) then f.add a f360 else if less f180 a then f.sub a f360 else a

  abbrev pub is_full : ℕ → Bool
  is_full sweep = at_most f360 sweep || at_most sweep (negated f360)

  abbrev pub contains_from : ℕ → ℕ → ℕ → ℕ → Bool
  contains_from start sweep end t =
      if at_most 0 sweep
      then (if less f180 end && less t start
          then at_most (f.add t f360) end
          else at_most start t && at_most t end)
      else if at_most end (negated f180) && at_most start t
      then at_most end (f.sub t f360)
      else at_most end t && at_most t start

  unfoldable pub arc_contains : ℕ → ℕ → ℕ → Bool
  arc_contains start sweep target =
      let start' = normalize_arc_angle start in
      if is_full sweep
      then true
      else contains_from start' sweep (f.add start' sweep) (normalize_arc_angle target)

  abbrev pub turned : ℕ → ℕ
  turned a = if less a 0 then f.add a f360 else a

  abbrev pub sweep_between : ℕ → ℕ → ℕ → ℕ
  sweep_between start mid end =
      let sweep = f.sub end start in
      if less start end
      then (if arc_contains start sweep mid then sweep else f.sub sweep f360)
      else if arc_contains start (f.add sweep f360) mid
      then f.add sweep f360
      else sweep

  unfoldable pub arc_sweep : ℕ → ℕ → ℕ → ℕ
  arc_sweep start mid end = sweep_between (turned start) (turned mid) (turned end)

  unfoldable pub arc_point_angle : Point → Point → ℕ
  arc_point_angle c p =
      let azimuth = f.sub half_pi (f.atan2 (f.sub p.y c.y) (f.sub p.x c.x)) in
      f.sub f90 (f.mul (if less azimuth 0 then f.add azimuth two_pi else azimuth) degrees)

  abbrev pub same_point : Point → Point → Bool
  same_point p q = same_number p.x q.x && same_number p.y q.y

  abbrev pub middle : ℕ → ℕ → ℕ
  middle a b = f.div (f.add a b) two

  -- The intersection of the perpendicular bisectors of p1p2 and p2p3.
  unfoldable pub bisected : Point → Point → Point → Point
  bisected p1 p2 p3 =
      let x1 = middle p1.x p2.x in
      let y1 = middle p1.y p2.y in
      let x2 = f.add x1 (f.sub p2.y p1.y) in
      let y2 = f.sub y1 (f.sub p2.x p1.x) in
      let x3 = middle p2.x p3.x in
      let y3 = middle p2.y p3.y in
      let x4 = f.add x3 (f.sub p3.y p2.y) in
      let y4 = f.sub y3 (f.sub p3.x p2.x) in
      let denom = f.sub (f.mul (f.sub y2 y1) (f.sub x4 x3)) (f.mul (f.sub x2 x1) (f.sub y4 y3)) in
      let s =
        f.div (f.sub (f.mul (f.sub x1 x3) (f.sub y4 y3)) (f.mul (f.sub y1 y3) (f.sub x4 x3)))
          denom in
      if less (absolute denom) tiny
      then record { x = middle x2 x3; y = middle y2 y3 }
      else record { x = f.add x1 (f.mul s (f.sub x2 x1)); y = f.add y1 (f.mul s (f.sub y2 y1)) }

  unfoldable pub arc_center : Point → Point → Point → Point
  arc_center p1 p2 p3 =
      let p1p2 = same_point p1 p2 in
      let p1p3 = same_point p1 p3 in
      let p2p3 = same_point p2 p3 in
      if p1p2 && (p1p3 && p2p3)
      then p1
      else if p1p2
      then record { x = middle p1.x p3.x; y = middle p1.y p3.y }
      else if p1p3 || p2p3
      then record { x = middle p1.x p2.x; y = middle p1.y p2.y }
      else bisected p1 p2 p3

  -- The box, widened to the axis in the direction of `target` if the arc passes it.
  unfoldable pub passed : Bool → (Box → Box) → Box → Box
  passed is_in widen b = if is_in then widen b else b

  abbrev pub widen_x : ℕ → Box → Box
  widen_x r b = record b { x_min = f.least b.x_min r; x_max = f.greatest b.x_max r }

  abbrev pub widen_y : ℕ → Box → Box
  widen_y r b = record b { y_min = f.least b.y_min r; y_max = f.greatest b.y_max r }

  unfoldable pub arc_box : Point → Point → Point → ℕ → ℕ → ℕ → Box
  arc_box c p1 p3 radius start sweep =
      if is_full sweep
      then record { x_min = negated radius; y_min = negated radius; x_max = radius; y_max = radius }
      else passed (arc_contains start sweep f270) (widen_y (negated radius)) (
          passed (arc_contains start sweep f180) (widen_x (negated radius)) (
            passed (arc_contains start sweep f90) (widen_y radius) (
              passed (arc_contains start sweep 0) (widen_x radius) (record {
                x_min = f.sub (f.least p1.x p3.x) c.x;
                y_min = f.sub (f.least p1.y p3.y) c.y;
                x_max = f.sub (f.greatest p1.x p3.x) c.x;
                y_max = f.sub (f.greatest p1.y p3.y) c.y;
              }))))

  unfoldable pub arc_bounds : Point → Point → Point → Bounds → Bounds
  arc_bounds p1 p2 p3 b =
      let c = arc_center p1 p2 p3 in
      let radius = f.hypot (f.sub p1.x c.x) (f.sub p1.y c.y) in
      let start = arc_point_angle c p1 in
      let mid = arc_point_angle c p2 in
      let end = arc_point_angle c p3 in
      let box = arc_box c p1 p3 radius start (arc_sweep start mid end) in
      let min_x = f.add c.x box.x_min in
      let min_y = f.add c.y box.y_min in
      add_point (f.add min_x (f.sub box.x_max box.x_min)) (f.add min_y (f.sub box.y_max box.y_min))
        (add_point min_x min_y b)
