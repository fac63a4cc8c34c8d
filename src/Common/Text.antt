-- ===== src/Common/Text.antt =====
-- Go's `strings` on byte strings: the prefix test and the replacement of one byte.
use Prim.Native.Nat.{ℕ}
use mathlib.Core.Path.{◌≡◌, refl}
use mathlib.Core.Logic.{◌↔◌}
use mathlib.Core.Bool.{Bool, true, false, ◌&&◌, ◌||◌}
use mathlib.Core.List.{List, [], ◌∷◌, ◌++◌}
use native.Mathlib.Omega.{arith}
use go_geodiff.Common.Tests.{◌==◌, if◌then◌else◌}
use go_geodiff.Common.Lists.{Bytes, equal_bytes}

-- `strings.HasPrefix s p`
unfoldable pub has_prefix : Bytes → Bytes → Bool
has_prefix s [] = true
has_prefix [] (c ∷ p) = false
has_prefix (b ∷ s) (c ∷ p) = b == c && has_prefix s p

pub has_prefix_iff : (s p : Bytes) → (has_prefix s p ≡ true) ↔ ((rest : Bytes) × (s ≡ p ++ rest))
unfolding has_prefix
has_prefix_iff s p = (to s p, from s p)
  where
    to : (s p : Bytes) → has_prefix s p ≡ true → (rest : Bytes) × (s ≡ p ++ rest)
    to s [] h = (s, refl)
    to [] (c ∷ p) h = cc
    to (b ∷ s) (c ∷ p) h = let (rest, e) = to s p (ground arith) in (rest, ground arith)

    from : (s p : Bytes) → ((rest : Bytes) × (s ≡ p ++ rest)) → has_prefix s p ≡ true
    from s [] h = refl
    from [] (c ∷ p) (rest, e) = cc
    from (b ∷ s) (c ∷ p) (rest, e) = ground (arith, from s p (rest, ground arith))

-- One of several words, and one of several prefixes.
unfoldable pub is_one_of : Bytes → List Bytes → Bool
is_one_of s [] = false
is_one_of s (w ∷ ws) = equal_bytes s w || is_one_of s ws

unfoldable pub has_one_of : Bytes → List Bytes → Bool
has_one_of s [] = false
has_one_of s (p ∷ ps) = has_prefix s p || has_one_of s ps

-- `strings.ReplaceAll s "c" w`
unfoldable pub replace_byte : ℕ → Bytes → Bytes → Bytes
replace_byte c w [] = []
replace_byte c w (b ∷ s) = (if b == c then w else b ∷ []) ++ replace_byte c w s

-- `strings.Contains s w`
unfoldable pub has_infix : Bytes → Bytes → Bool
has_infix [] w = has_prefix [] w
has_infix (b ∷ s) w = has_prefix (b ∷ s) w || has_infix s w

unfoldable pub has_infix_of : Bytes → List Bytes → Bool
has_infix_of s [] = false
has_infix_of s (w ∷ ws) = has_infix s w || has_infix_of s ws
