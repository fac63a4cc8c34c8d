-- ===== src/Geometry/Wkb/Steps.antt =====
-- What holds of every step of the reader of a WKB body, and how steps are put together.
use go_geodiff.Common.{
  ℕ, zero, suc, ◌*◌, ◌≤◌, ◌<◌, ◌≡◌, ◌≢◌, refl, ◌⊎◌, inl, inr, Bool-cases, arith, Bool, true, false,
  List, Bytes, ltb, if◌then◌else◌, length, length-drop, take, drop, All,
}
use go_geodiff.Result.{Error, Result, ok, err, is_panic, wkb_too_short, index_panic, out_of_fuel}
use go_geodiff.Changeset.Reader.{big_endian}
use go_geodiff.Geometry.{little_endian}
use go_geodiff.Geometry.Header.{sliced-there, long_enough, uint64-there}
use go_geodiff.Geometry.Floats.{Floats, rank, less}
use go_geodiff.Geometry.Arcs.{Point, Bounds, add_point, arc_bounds}
use go_geodiff.Geometry.Wkb.{
  Wkb, Parse, next, uint32, advance, read_u32, or_zero, read_f64, read_ordinates, read_points,
  points, repeat,
}

-- An error that the code answers: no panic, and no end of the fuel.
abbrev pub IsAnswered : Error → Type 0
IsAnswered e = (e ≢ out_of_fuel) × (e ≢ index_panic)

-- The second bounds reach as far as the first on every side.
pub record Wider (b b' : Bounds) : Type 0 where
  pub still_added : (b.added ≡ false) ⊎ (b'.added ≡ true)
  pub min_x_le : rank b'.env.min_x ≤ rank b.env.min_x
  pub max_x_le : rank b.env.max_x ≤ rank b'.env.max_x
  pub min_y_le : rank b'.env.min_y ≤ rank b.env.min_y
  pub max_y_le : rank b.env.max_y ≤ rank b'.env.max_y

pub Wider-refl : (b : Bounds) → Wider b b
Wider-refl b = record {
  still_added = elim (Bool-cases b.added) [ inl h ↦ inr h | inr h ↦ inl h ];
  min_x_le = omega arith;
  max_x_le = omega arith;
  min_y_le = omega arith;
  max_y_le = omega arith;
}

kept :
    {a b c : Bool} → (a ≡ false) ⊎ (b ≡ true) → (b ≡ false) ⊎ (c ≡ true) → (a ≡ false) ⊎ (c ≡ true)
kept (inl p) q = inl p
kept (inr p) (inr q) = inr q
kept (inr p) (inl q) = absurd (true≢false p q)
  where
    true≢false : {b : Bool} → b ≡ true → b ≡ false → ⊥
    true≢false p q = ground arith

pub Wider-trans : {a b c : Bounds} → Wider a b → Wider b c → Wider a c
Wider-trans h k = record {
  still_added = kept h.still_added k.still_added;
  min_x_le = omega (arith, h.min_x_le, k.min_x_le);
  max_x_le = omega (arith, h.max_x_le, k.max_x_le);
  min_y_le = omega (arith, h.min_y_le, k.min_y_le);
  max_y_le = omega (arith, h.max_y_le, k.max_y_le);
}

lower : (x m : ℕ) → rank (if less x m then x else m) ≤ rank m
unfolding less
lower x m = ground arith

upper : (m x : ℕ) → rank m ≤ rank (if less m x then x else m)
unfolding less
upper m x = ground arith

pub add_point-Wider : (x y : ℕ) (b : Bounds) → Wider b (add_point x y b)
unfolding add_point
add_point-Wider x y b = record {
  still_added = inr refl;
  min_x_le = lower x b.env.min_x;
  max_x_le = upper b.env.max_x x;
  min_y_le = lower y b.env.min_y;
  max_y_le = upper b.env.max_y y;
}

pub arc_bounds-Wider : (f : Floats) (p q r : Point) (b : Bounds) → Wider b (arc_bounds f p q r b)
unfolding arc_bounds
arc_bounds-Wider f p q r b = Wider-trans (add_point-Wider _ _ b) (add_point-Wider _ _ _)

-- A result with an answered error, or with at most `n` bytes left, bounds that are wider than `b`, and a
-- value with the property `P`.
abbrev pub Good : {A : Type 0} → (A → Type 0) → ℕ → Bounds → Result (A × Wkb) → Type 0
Good P n b (err e) = IsAnswered e
Good P n b (ok (a, s)) = (length s.buf ≤ n) × Wider b s.bounds × P a

-- From every state with fewer than `k` bytes left.
abbrev pub Sound : {A : Type 0} → ℕ → (A → Type 0) → Parse A → Type 0
Sound k P m = (s : Wkb) → length s.buf < k → Good P (length s.buf) s.bounds (m s)

abbrev pub Any : {A : Type 0} → A → Type 0
Any a = Unit {0}

pub Good-weaken :
    {A : Type 0} (P : A → Type 0) (n n' : ℕ) (b b' : Bounds) (r : Result (A × Wkb))
    → n' ≤ n
    → Wider b b'
    → Good P n' b' r
    → Good P n b r
Good-weaken P n n' b b' (err e) l w g = g
Good-weaken P n n' b b' (ok (a, s)) l w g = (omega (arith, g.0), Wider-trans w g.1, g.2)

pub Good-next :
    {A B : Type 0} (k : ℕ) (P : A → Type 0) (Q : B → Type 0) (n : ℕ) (b : Bounds)
    (r : Result (A × Wkb)) (f : A → Parse B)
    → n < k
    → Good P n b r
    → ((a : A) → P a → Sound k Q (f a))
    → Good Q n b (next r f)
Good-next k P Q n b (err e) f l g h = g
Good-next k P Q n b (ok (a, s)) f l g h =
    Good-weaken Q n (length s.buf) b s.bounds (f a s) g.0 g.1 (h a g.2 s (omega (arith, g.0)))

-- One step and then another.
pub Sound-next :
    {A B : Type 0} (k : ℕ) (P : A → Type 0) (Q : B → Type 0) (m : Parse A) (f : A → Parse B)
    → Sound k P m
    → ((a : A) → P a → Sound k Q (f a))
    → Sound k Q (λ s. next (m s) f)
Sound-next k P Q m f g h s l = Good-next k P Q (length s.buf) s.bounds (m s) f l (g s l) h

pub Sound-repeat : (k n : ℕ) (m : Parse (Unit {0})) → Sound k Any m → Sound k Any (repeat n m)
unfolding repeat
Sound-repeat k zero m g = λ s l. (omega arith, Wider-refl s.bounds, tt)
Sound-repeat k (suc n) m g =
    Sound-next k Any Any m (λ u. repeat n m) g (λ u p. Sound-repeat k n m g)

pub Good-test :
    {A : Type 0} (P : A → Type 0) (n : ℕ) (b : Bounds) (c : Bool) (r r' : Result (A × Wkb))
    → (c ≡ true → Good P n b r)
    → (c ≡ false → Good P n b r')
    → Good P n b (if c then r else r')
Good-test P n b true r r' h h' = h refl
Good-test P n b false r r' h h' = h' refl

pub Sound-test :
    {A : Type 0} (k : ℕ) (P : A → Type 0) (c : Bool) (m m' : Parse A)
    → (c ≡ true → Sound k P m)
    → (c ≡ false → Sound k P m')
    → Sound k P (if c then m else m')
Sound-test k P true m m' h h' = h refl
Sound-test k P false m m' h h' = h' refl

-- Dropping bytes from the front.
taken : (s : Wkb) (d : ℕ) → length (drop d s.buf) ≤ length s.buf
taken s d = omega (arith, length-drop d s.buf)

short : IsAnswered wkb_too_short
short = (cc, cc)

uint32-there : (little : Bool) (bs : Bytes) → 4 ≤ length bs → (v : ℕ) × (uint32 little bs ≡ ok v)
unfolding uint32
uint32-there little bs h = (
  if little then little_endian (take 4 bs) else big_endian 0 (take 4 bs),
  rw (long_enough (length bs) 4 h) refl,
)

-- A number that is read in front of as many bytes as are there.
advance-Good :
    (n : ℕ) (s : Wkb) (r : Result ℕ)
    → n ≤ length s.buf
    → (v : ℕ) × (r ≡ ok v)
    → Good Any (length s.buf) s.bounds (advance n s r)
advance-Good n s r h (v, e) = rw (e, sliced-there n s.buf h) (taken s n, Wider-refl s.bounds, tt)

pub Sound-u32 : (k : ℕ) → Sound k Any read_u32
unfolding read_u32
Sound-u32 k s l =
    Good-test Any (length s.buf) s.bounds (ltb (length s.buf) 4) _ _ (λ h. short)
      (λ h.
        let enough : 4 ≤ length s.buf = ground (arith, h) in
        advance-Good 4 s _ enough (uint32-there s.little s.buf enough))

Good-zero :
    (s : Wkb) (r : Result (ℕ × Wkb))
    → Good Any (length s.buf) s.bounds r
    → Good Any (length s.buf) s.bounds (or_zero s r)
Good-zero s (ok a) g = g
Good-zero s (err e) g = by_test (is_panic e)
  where
    by_test :
        (c : Bool)
        → Good {A = ℕ} Any (length s.buf) s.bounds (elim c [ true ↦ err e | false ↦ ok (0, s) ])
    by_test true = g
    by_test false = (omega arith, Wider-refl s.bounds, tt)

Sound-f64 : (k : ℕ) → Sound k Any (λ s. or_zero s (read_f64 s))
unfolding read_f64
Sound-f64 k s l = Good-zero s _ (
    Good-test Any (length s.buf) s.bounds (ltb (length s.buf) 8) _ _ (λ h. short)
      (λ h.
        let enough : 8 ≤ length s.buf = ground (arith, h) in
        advance-Good 8 s _ enough (uint64-there s.little s.buf enough)))

-- A list of so many ordinates, and of so many points.
abbrev pub Has : {A : Type 0} → ℕ → List A → Type 0
Has n l = length l ≡ n

Sound-ordinates : (k n : ℕ) → Sound k (Has n) (read_ordinates n)
unfolding read_ordinates
Sound-ordinates k zero = λ s l. (omega arith, Wider-refl s.bounds, refl)
Sound-ordinates k (suc n) =
    Sound-next k Any (Has (suc n)) (λ s. or_zero s (read_f64 s)) _ (Sound-f64 k)
      (λ v u.
        Sound-next k (Has n) (Has (suc n)) (read_ordinates n) _ (Sound-ordinates k n)
          (λ vs h s l. (omega arith, Wider-refl s.bounds, omega (arith, h))))

abbrev pub HasPoints : ℕ → ℕ → List (List ℕ) → Type 0
HasPoints n coords ps = Has n ps × All (Has coords) ps

read_points-Sound : (k n coords : ℕ) → Sound k (HasPoints n coords) (read_points n coords)
unfolding read_points
read_points-Sound k zero coords = λ s l. (omega arith, Wider-refl s.bounds, (refl, tt))
read_points-Sound k (suc n) coords =
    Sound-next k (Has coords) (HasPoints (suc n) coords) (read_ordinates coords) _
      (Sound-ordinates k coords)
      (λ p h.
        Sound-next k (HasPoints n coords) (HasPoints (suc n) coords) (read_points n coords) _
          (read_points-Sound k n coords)
          (λ ps g s l. (omega arith, Wider-refl s.bounds, (omega (arith, g.0), (h, g.1)))))

pub Sound-points : (k n coords : ℕ) → Sound k (HasPoints n coords) (points n coords)
unfolding points
Sound-points k n coords s l =
    Good-test (HasPoints n coords) (length s.buf) s.bounds (ltb (length s.buf) (n * coords * 8)) _ _
      (λ h. short) (λ h. read_points-Sound k n coords s l)
