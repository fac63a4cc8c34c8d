-- ===== src/Varint/Masks.antt =====
-- The masks and shifts of varint.go as arithmetic.
use go_geodiff.Common.{
  ℕ, zero, suc, ◌+◌, ◌*◌, ◌/◌, ◌%◌, ◌^◌, ◌≤◌, ◌<◌, ◌≡◌, refl, ap, arith, ◌==◌, if◌then◌else◌,
  Option, none, some, bit_and, bit_or,
}
use go_geodiff.Common.Bits.{bit_or_fields, bit_and_fields, bit_or_halves, bit_and_halves}
use native.Mathlib.Nat.{zero-mul, zero-add, add-zero}
use Prim.Native.Nat.{bit_or-bitwise}

-- Over a small range two functions are compared by evaluation.
module _ (f g : ℕ → ℕ) where
  difference : ℕ → Option ℕ
  difference zero = none
  difference (suc n) = if f n == g n then difference n else some n

  same_below : (n x : ℕ) → difference n ≡ none → x < n → f x ≡ g x
  unfolding difference
  same_below zero x h lt = absurd (omega arith)
  same_below (suc n) x h lt = ground (arith, same_below n x)

and-zero_fuel : (n x : ℕ) → x ≤ n → bit_and x 0 ≡ 0
and-zero_fuel n zero h = refl
and-zero_fuel zero (suc x) h = absurd (omega arith)
and-zero_fuel (suc n) (suc x) h =
    omega (arith, bit_and_halves (suc x) 0, and-zero_fuel n (suc x / 2) (omega arith))

pub bit_and-zero : (x : ℕ) → bit_and x 0 ≡ 0
bit_and-zero x = and-zero_fuel x x (omega arith)

or-zero_fuel : (n x : ℕ) → x ≤ n → bit_or x 0 ≡ x
or-zero_fuel n zero h = refl
or-zero_fuel zero (suc x) h = absurd (omega arith)
or-zero_fuel (suc n) (suc x) h =
    omega (arith, bit_or_halves (suc x) 0, or-zero_fuel n (suc x / 2) (omega arith))

pub bit_or-zero : (x : ℕ) → bit_or x 0 ≡ x
bit_or-zero x = or-zero_fuel x x (omega arith)

pub zero-bit_or : (x : ℕ) → bit_or 0 x ≡ x
zero-bit_or x = bit_or-bitwise 0 x

pub low_seven_byte : (b : ℕ) → b < 256 → bit_and b 0x7f ≡ b % 128
unfolding difference
low_seven_byte = λ b. same_below (λ b. bit_and b 0x7f) (λ b. b % 128) 256 b refl

pub top_bit : (b : ℕ) → b < 256 → bit_and b 0x80 ≡ b / 128 * 128
unfolding difference
top_bit = λ b. same_below (λ b. bit_and b 0x80) (λ b. b / 128 * 128) 256 b refl

pub set_top_bit : (b : ℕ) → b < 128 → bit_or b 0x80 ≡ b + 128
unfolding difference
set_top_bit = λ b. same_below (λ b. bit_or b 0x80) (λ b. b + 128) 128 b refl

-- `v & 0x7f`, at any width.
pub low_seven : (v : ℕ) → bit_and v 0x7f ≡ v % 128
low_seven v = omega (
  arith,
  ap (λ (t : ℕ). bit_and t 0x7f) (split v),
  bit_and_fields 7 (v / 128) (v % 128) 0 127 (omega arith) (omega arith),
  bit_and-zero (v / 128),
  low_seven_byte (v % 128) (omega arith),
)
  where
    split : (v : ℕ) → v ≡ v / 128 * 2 ^ 7 + v % 128
    split v = omega arith

pub group_byte : (v : ℕ) → bit_or (bit_and v 0x7f) 0x80 ≡ v % 128 + 128
group_byte v = rw (low_seven v) (set_top_bit (v % 128) (omega arith))

-- A field that is or-ed in above, or below, what is there.
ruleset no_zeros = (zero-mul, zero-add, add-zero, zero-bit_or, bit_or-zero)

pub or_above : (k a q : ℕ) → a < 2 ^ k → bit_or a (q * 2 ^ k) ≡ q * 2 ^ k + a
or_above k a q h = simp no_zeros at (bit_or_fields k 0 a q 0 h (omega arith))

pub or_below : (k a q : ℕ) → a < 2 ^ k → bit_or (q * 2 ^ k) a ≡ q * 2 ^ k + a
or_below k a q h = simp no_zeros at (bit_or_fields k q 0 0 a (omega arith) h)

full_byte : (b : ℕ) → b < 256 → bit_and b 0xff ≡ b
unfolding difference
full_byte = λ b. same_below (λ b. bit_and b 0xff) (λ b. b) 256 b refl

-- The test for the nine-byte form.
pub top_byte : (v : ℕ) → v < 2 ^ 64 → bit_and v 0xff000000_00000000 ≡ v / 2 ^ 56 * 2 ^ 56
top_byte v h = omega (
  arith,
  ap (λ (t : ℕ). bit_and t 0xff000000_00000000) split,
  bit_and_fields 56 (v / 2 ^ 56) (v % 2 ^ 56) 0xff 0 (omega arith) (omega arith),
  full_byte (v / 2 ^ 56) (omega arith),
  bit_and-zero (v % 2 ^ 56),
)
  where
    split : v ≡ v / 2 ^ 56 * 2 ^ 56 + v % 2 ^ 56
    split = omega arith

-- The three-byte form of `GetVarint`: the first and the third byte in one word.
module _ (b0 b2 : ℕ) (h0 : b0 < 256) (h2 : b2 < 256) where
  pub outer_bytes : bit_or (b0 * 2 ^ 14) b2 ≡ b0 * 2 ^ 14 + b2
  outer_bytes = or_below 14 b2 b0 (omega arith)

  pub outer_bytes_top : bit_and (bit_or (b0 * 2 ^ 14) b2) 0x80 ≡ b2 / 128 * 128
  outer_bytes_top = rw outer_bytes (
      omega (
        arith,
        bit_and_fields 14 b0 b2 0 0x80 (omega arith) (omega arith),
        bit_and-zero b0,
        top_bit b2 h2,
      ))

  pub outer_bytes_low :
      bit_and (bit_or (b0 * 2 ^ 14) b2) (bit_or (0x7f * 2 ^ 14) 0x7f) ≡ b0 % 128 * 2 ^ 14 + b2 % 128
  outer_bytes_low = rw outer_bytes (
      omega (
        arith,
        bit_and_fields 14 b0 b2 0x7f 0x7f (omega arith) (omega arith),
        low_seven b0,
        low_seven b2,
      ))

-- The second byte goes between them.
pub middle_byte :
    (b0 b1 b2 : ℕ)
    → b1 < 128
    → b2 < 128
    → bit_or (b0 * 2 ^ 14 + b2) (b1 * 2 ^ 7) ≡ b0 * 2 ^ 14 + b1 * 2 ^ 7 + b2
middle_byte b0 b1 b2 h1 h2 = omega (
  arith,
  simp no_zeros at (bit_or_fields 14 b0 b2 0 (b1 * 2 ^ 7) (omega arith) (omega arith)),
  or_above 7 b2 b1 h2,
)
