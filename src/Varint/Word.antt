-- ===== src/Varint/Word.antt =====
-- varint/varint.go: `GetVarint` on what `PutVarint` wrote.
use go_geodiff.Common.{
  ℕ, zero, suc, ◌+◌, ◌*◌, ◌/◌, ◌%◌, ◌^◌, ◌≤◌, ◌<◌, ◌≡◌, refl, ap, ◌∙◌, arith, false, [], ◌∷◌, ◌++◌,
  ◌==◌, leb, Bytes, length, length-append, length-drop, drop, Bool-cases, inl, inr,
}
use go_geodiff.Result.{ok}
use go_geodiff.Varint.{
  get_varint64, clamp_u32, fall_back, three_bytes, two_bytes, get_front, get_varint, put_varint,
}
use go_geodiff.Varint.Masks.{low_seven, or_below, outer_bytes_top, outer_bytes_low, middle_byte}
use go_geodiff.Varint.Encode.{high_bytes, encoding, put_varint64-encoding}
use go_geodiff.Varint.RoundTrip.{short_form, high_bytes-append, length-high_bytes}
use native.Mathlib.Decide.{dec_lt}

abbrev IsHigh : ℕ → Type 0
IsHigh b = (128 ≤ b) × (b < 256)

-- Three bytes with the high bit send `GetVarint` to the 64-bit decoder.
falls_back :
    (b0 b1 b2 : ℕ) (bs : Bytes)
    → IsHigh b0
    → IsHigh b1
    → IsHigh b2
    → get_front (b0 ∷ b1 ∷ b2 ∷ bs) ≡ fall_back (b0 ∷ b1 ∷ b2 ∷ bs)
unfolding get_front two_bytes three_bytes
falls_back b0 b1 b2 bs h0 h1 h2 = ground (arith, outer_bytes_top b0 b2)

three_form :
    (b0 b1 b2 : ℕ) (bs : Bytes)
    → b0 < 128
    → b1 < 128
    → b2 < 128
    → get_front ((b0 + 128) ∷ (b1 + 128) ∷ b2 ∷ bs) ≡ ok (b0 * 2 ^ 14 + b1 * 2 ^ 7 + b2, 3)
unfolding get_front two_bytes three_bytes
three_form b0 b1 b2 bs h0 h1 h2 = ground (
  arith,
  outer_bytes_top (b0 + 128) b2,
  outer_bytes_low (b0 + 128) b2,
  low_seven (b1 + 128),
  middle_byte b0 b1 b2,
)

two_form :
    (b0 b1 : ℕ) (bs : Bytes)
    → b0 < 128
    → b1 < 128
    → get_front ((b0 + 128) ∷ b1 ∷ bs) ≡ ok (b0 * 2 ^ 7 + b1, 2)
unfolding get_front two_bytes
two_form b0 b1 bs h0 h1 = ground (arith, low_seven (b0 + 128), or_below 7 b1 b0)

front_falls_back :
    (b0 b1 b2 v n : ℕ) (bs : Bytes)
    → IsHigh b0
    → IsHigh b1
    → IsHigh b2
    → v < 2 ^ 32
    → get_varint64 (b0 ∷ b1 ∷ b2 ∷ bs) ≡ ok (v, n)
    → get_front (b0 ∷ b1 ∷ b2 ∷ bs) ≡ ok (v, n)
front_falls_back b0 b1 b2 v n bs h0 h1 h2 hv e =
    falls_back b0 b1 b2 bs h0 h1 h2 ∙ (unfold fall_back clamp_u32 in rw e (ground arith))

abbrev next : ℕ → ℕ
next w = w % 128 + 128

-- The encoding of a uint32, written out.
module _ (v : ℕ) (tail : Bytes) where
  one_written : v < 2 ^ 7 → high_bytes 8 (v / 128) tail ≡ tail
  unfolding high_bytes
  one_written h = ground arith

  two_written : 2 ^ 7 ≤ v → v < 2 ^ 14 → high_bytes 8 (v / 128) tail ≡ next (v / 128) ∷ tail
  unfolding high_bytes
  two_written l h = ground arith

  three_written :
      2 ^ 14 ≤ v
      → v < 2 ^ 21
      → high_bytes 8 (v / 128) tail ≡ next (v / 128 / 128) ∷ next (v / 128) ∷ tail
  unfolding high_bytes
  three_written l h = ground arith

-- At least three bytes with the high bit stand in front.
abbrev StartsHigh : Bytes → Type 0
StartsHigh bs =
    (b0 b1 b2 : ℕ) × (rest : Bytes) × (bs ≡ b0 ∷ b1 ∷ b2 ∷ rest) × IsHigh b0 × IsHigh b1 × IsHigh b2

high_bytes-StartsHigh :
    (f w b0 b1 b2 : ℕ) (tail : Bytes)
    → IsHigh b0
    → IsHigh b1
    → IsHigh b2
    → StartsHigh (high_bytes f w (b0 ∷ b1 ∷ b2 ∷ tail))
unfolding high_bytes
high_bytes-StartsHigh zero w b0 b1 b2 tail h0 h1 h2 = (b0, b1, b2, tail, refl, h0, h1, h2)
high_bytes-StartsHigh (suc f) w b0 b1 b2 tail h0 h1 h2 = elim (Bool-cases (w == 0)) [
  | inl e ↦ rw e (b0, b1, b2, tail, refl, h0, h1, h2)
  | inr e ↦ rw e (high_bytes-StartsHigh f (w / 128) (next w) b0 b1 (b2 ∷ tail) (omega arith) h0 h1)
]

written_round :
    (f w : ℕ) (tail : Bytes)
    → 0 < w
    → high_bytes (suc f) w tail ≡ high_bytes f (w / 128) (next w ∷ tail)
unfolding high_bytes
written_round f w tail h = ground arith

more_written : (v : ℕ) (tail : Bytes) → 2 ^ 21 ≤ v → StartsHigh (high_bytes 8 (v / 128) tail)
more_written v tail l =
    rw
      (
        written_round 7 (v / 128) tail (omega arith),
        written_round 6 (v / 128 / 128) _ (omega arith),
        written_round 5 (v / 128 / 128 / 128) _ (omega arith),
      )
      (high_bytes-StartsHigh 5 (v / 128 / 128 / 128 / 128) (next (v / 128 / 128 / 128))
        (next (v / 128 / 128)) (next (v / 128)) tail (omega arith) (omega arith) (omega arith))

abbrev written : ℕ → Bytes
written v = high_bytes 8 (v / 128) (v % 128 ∷ [])

-- `get_front` on the encoding of a uint32, one form after the other.
module _ (v : ℕ) (rest : Bytes) where
  abbrev ReadsBack : Type 0
  ReadsBack = get_front (written v ++ rest) ≡ ok (v, length (written v))

  reads_one : v < 2 ^ 7 → ReadsBack
  reads_one h = rw (one_written v (v % 128 ∷ []) h) (unfold get_front in ground arith)

  reads_two : 2 ^ 7 ≤ v → v < 2 ^ 14 → ReadsBack
  reads_two l h = rw (two_written v (v % 128 ∷ []) l h) (
      two_form (v / 128 % 128) (v % 128) rest (omega arith) (omega arith)
      ∙ ap (λ (t : ℕ). ok (t, 2)) (omega arith))

  reads_three : 2 ^ 14 ≤ v → v < 2 ^ 21 → ReadsBack
  reads_three l h = rw (three_written v (v % 128 ∷ []) l h) (
      three_form (v / 128 / 128 % 128) (v / 128 % 128) (v % 128) rest (omega arith) (omega arith)
        (omega arith)
      ∙ ap (λ (t : ℕ). ok (t, 3)) (omega arith))

  reads_more : 2 ^ 21 ≤ v → v < 2 ^ 32 → ReadsBack
  reads_more l h =
      let (b0, b1, b2, bs, e, h0, h1, h2) = more_written v (v % 128 ∷ rest) l in
      let whole : written v ++ rest ≡ b0 ∷ b1 ∷ b2 ∷ bs =
        high_bytes-append 8 (v / 128) _ rest ∙ e in
      rw whole (
        front_falls_back b0 b1 b2 v _ bs h0 h1 h2 h (rw whole at (short_form v rest (omega arith))))

  reads_back : v < 2 ^ 32 → ReadsBack
  reads_back h = elim (dec_lt v (2 ^ 7)) [
    | yes a ↦ reads_one a
    | no a ↦ elim (dec_lt v (2 ^ 14)) [
      | yes b ↦ reads_two (omega arith) b
      | no b ↦ elim (dec_lt v (2 ^ 21)) [
        | yes c ↦ reads_three (omega arith) c
        | no c ↦ reads_more (omega arith) h
      ]
    ]
  ]

put_varint-written : (v : ℕ) → v < 2 ^ 32 → put_varint v ≡ written v
unfolding put_varint encoding
put_varint-written v h = put_varint64-encoding v (omega arith) ∙ ground arith

-- Where a buffer holds at offset `p` what `PutVarint` wrote for a uint32, `GetVarint` returns that
-- number and the count of its bytes, whatever follows.
pub get_varint-put_varint :
    (buf : Bytes) (p v : ℕ) (rest : Bytes)
    → v < 2 ^ 32
    → drop p buf ≡ put_varint v ++ rest
    → get_varint buf p ≡ ok (v, length (put_varint v))
unfolding get_varint
get_varint-put_varint buf p v rest h e =
    rw (put_varint-written v h, inside, at_p) (reads_back v rest h)
  where
    at_p : drop p buf ≡ written v ++ rest
    at_p = e ∙ ap (λ t. t ++ rest) (put_varint-written v h)

    inside : leb (length buf) p ≡ false
    inside = ground (
      arith,
      length-drop p buf,
      ap (length {A = ℕ}) at_p,
      length-append (written v) rest,
      length-high_bytes 8 (v / 128) (v % 128 ∷ []),
    )
