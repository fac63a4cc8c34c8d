-- ===== src/Common/Bits.antt =====
-- `&` and `|` on words that are split into a high and a low field, as arithmetic.
use Prim.Native.Nat.{min, max, digits, bitwise, bit_and-bitwise, bit_or-bitwise}
use Prim.Native.Nat.{ℕ, zero, suc, ◌+◌, ◌*◌, ◌/◌, ◌%◌, ◌^◌, ◌≤◌, ◌<◌, bit_and, bit_or}
use mathlib.Core.Path.{◌≡◌, refl, ap, sym, ◌∙◌}
use native.Mathlib.Omega.{arith}
use native.Mathlib.Nat.{pow-suc, mul-one, add-zero}

-- The fuel of the digit recursion does not matter once it covers the first number.
module _ (z : ℕ → ℕ) (f : ℕ → ℕ → ℕ) where
  enough_fuel : (k l x y : ℕ) → x ≤ k → x ≤ l → digits z f k x y ≡ digits z f l x y
  enough_fuel k l zero y u v = at_zero k ∙ sym (at_zero l)
    where
      at_zero : (n : ℕ) → digits z f n zero y ≡ z y
      at_zero zero = refl
      at_zero (suc n) = refl
  enough_fuel zero l (suc x) y u v = absurd (omega arith)
  enough_fuel (suc k) zero (suc x) y u v = absurd (omega arith)
  enough_fuel (suc k) (suc l) (suc x) y u v =
      ap (λ t. t * 2 + f (suc x % 2) (y % 2))
        (enough_fuel k l (suc x / 2) (y / 2) (omega arith) (omega arith))

  lowest_digit :
      (x y : ℕ)
      → bitwise z f (suc x) y ≡ bitwise z f (suc x / 2) (y / 2) * 2 + f (suc x % 2) (y % 2)
  lowest_digit x y =
      omega (arith, enough_fuel x (suc x / 2) (suc x / 2) (y / 2) (omega arith) (omega arith))

pub bit_or_halves : (a b : ℕ) → bit_or a b ≡ bit_or (a / 2) (b / 2) * 2 + max (a % 2) (b % 2)
bit_or_halves zero b = simp bit_or-bitwise (omega arith)
bit_or_halves (suc a) b = simp bit_or-bitwise (lowest_digit (λ y. y) max a b)

pub bit_and_halves : (a b : ℕ) → bit_and a b ≡ bit_and (a / 2) (b / 2) * 2 + min (a % 2) (b % 2)
bit_and_halves zero b = simp bit_and-bitwise (omega arith)
bit_and_halves (suc a) b = simp bit_and-bitwise (lowest_digit (λ y. 0) min a b)

double : (q k : ℕ) → q * 2 ^ suc k ≡ 2 * (q * 2 ^ k)
double q k = omega (arith, ap (λ (t : ℕ). q * t) (pow-suc 2 k))

halve : (k p a : ℕ) → (p * 2 ^ suc k + a) / 2 ≡ p * 2 ^ k + a / 2
halve k p a = omega (arith, double p k)

odd : (k p a : ℕ) → (p * 2 ^ suc k + a) % 2 ≡ a % 2
odd k p a = omega (arith, double p k)

below_half : (k a : ℕ) → a < 2 ^ suc k → a / 2 < 2 ^ k
below_half k a h = omega (arith, pow-suc 2 k)

-- `|` and `&` work on the two fields apart.
pub bit_or_fields :
    (k p a q b : ℕ)
    → a < 2 ^ k
    → b < 2 ^ k
    → bit_or (p * 2 ^ k + a) (q * 2 ^ k + b) ≡ bit_or p q * 2 ^ k + bit_or a b
bit_or_fields zero p zero q zero ha hb = simp (mul-one, add-zero)
bit_or_fields zero p (suc a) q b ha hb = absurd (omega arith)
bit_or_fields zero p zero q (suc b) ha hb = absurd (omega arith)
bit_or_fields (suc k) p a q b ha hb =
    rw
      (
        bit_or_halves (p * 2 ^ suc k + a) (q * 2 ^ suc k + b),
        halve k p a,
        halve k q b,
        odd k p a,
        odd k q b,
      )
      (omega (
        arith,
        double (bit_or p q) k,
        bit_or_halves a b,
        bit_or_fields k p (a / 2) q (b / 2) (below_half k a ha) (below_half k b hb),
      ))

pub bit_and_fields :
    (k p a q b : ℕ)
    → a < 2 ^ k
    → b < 2 ^ k
    → bit_and (p * 2 ^ k + a) (q * 2 ^ k + b) ≡ bit_and p q * 2 ^ k + bit_and a b
bit_and_fields zero p zero q zero ha hb = simp (mul-one, add-zero)
bit_and_fields zero p (suc a) q b ha hb = absurd (omega arith)
bit_and_fields zero p zero q (suc b) ha hb = absurd (omega arith)
bit_and_fields (suc k) p a q b ha hb =
    rw
      (
        bit_and_halves (p * 2 ^ suc k + a) (q * 2 ^ suc k + b),
        halve k p a,
        halve k q b,
        odd k p a,
        odd k q b,
      )
      (omega (
        arith,
        double (bit_and p q) k,
        bit_and_halves a b,
        bit_and_fields k p (a / 2) q (b / 2) (below_half k a ha) (below_half k b hb),
      ))
