-- ===== src/Geometry/Floats.antt =====
-- The float64s of driver/gpkg_functions.go as bit patterns. Comparing them and turning their sign is
-- defined on the bits; their arithmetic, which Go rounds, and package math are an interface.
use go_geodiff.Common.{ℕ, ◌+◌, ◌-◌, ◌*◌, ◌%◌, ◌^◌, Bool, ◌&&◌, not, ◌==◌, ltb, leb, if◌then◌else◌}

pub record Floats : Type 0 where
  pub add : ℕ → ℕ → ℕ
  pub sub : ℕ → ℕ → ℕ
  pub mul : ℕ → ℕ → ℕ
  pub div : ℕ → ℕ → ℕ
  pub least : ℕ → ℕ → ℕ
  pub greatest : ℕ → ℕ → ℕ
  pub hypot : ℕ → ℕ → ℕ
  pub atan2 : ℕ → ℕ → ℕ

-- `math.IsNaN`
abbrev pub not_a_number : ℕ → Bool
not_a_number f = ltb (0x7ff * 2 ^ 52) (f % 2 ^ 63)

-- Where a number stands in the order of the numbers; the two zeros stand at one place.
unfoldable pub rank : ℕ → ℕ
rank f = if leb (2 ^ 63) f then 2 ^ 63 - f % 2 ^ 63 else 2 ^ 63 + f % 2 ^ 63

-- Go's `<`, `<=` and `==`: a NaN compares false.
abbrev pub both_numbers : ℕ → ℕ → Bool
both_numbers x y = not (not_a_number x) && not (not_a_number y)

unfoldable pub less : ℕ → ℕ → Bool
less x y = both_numbers x y && ltb (rank x) (rank y)

unfoldable pub at_most : ℕ → ℕ → Bool
at_most x y = both_numbers x y && leb (rank x) (rank y)

unfoldable pub same_number : ℕ → ℕ → Bool
same_number x y = both_numbers x y && rank x == rank y

unfoldable pub negated : ℕ → ℕ
negated f = if leb (2 ^ 63) f then f % 2 ^ 63 else f + 2 ^ 63

-- `math.Abs`
unfoldable pub absolute : ℕ → ℕ
absolute f = f % 2 ^ 63

abbrev pub max_float : ℕ
max_float = 0x7fefffffffffffff

-- The constants of the arcs: 2, 90, 180, 270, 360, π / 2, 2 * π, 180 / π and 1e-10.
abbrev pub two : ℕ
two = 0x4000000000000000

abbrev pub f90 : ℕ
f90 = 0x4056800000000000

abbrev pub f180 : ℕ
f180 = 0x4066800000000000

abbrev pub f270 : ℕ
f270 = 0x4070e00000000000

abbrev pub f360 : ℕ
f360 = 0x4076800000000000

abbrev pub half_pi : ℕ
half_pi = 0x3ff921fb54442d18

abbrev pub two_pi : ℕ
two_pi = 0x401921fb54442d18

abbrev pub degrees : ℕ
degrees = 0x404ca5dc1a63c1f8

abbrev pub tiny : ℕ
tiny = 0x3ddb7cdfd9d7bdbb
