-- ===== src/Varint/RoundTrip.antt =====
-- varint/varint.go: `getVarint64` on what `putVarint64` wrote.
use go_geodiff.Common.{
  ℕ, zero, suc, ◌+◌, ◌-◌, ◌*◌, ◌/◌, ◌%◌, ◌^◌, ◌≤◌, ◌<◌, ◌≡◌, refl, sym, ap, ◌∙◌, arith, true, false,
  [], ◌∷◌, ◌++◌, ◌==◌, ltb, if◌then◌else◌, Bytes, length, Bool-cases, inl, inr, bit_and, bit_or,
}
use go_geodiff.Result.{ok}
use go_geodiff.Varint.{
  all_high, nine_loop, nine_bytes, get_loop, get_varint64, put_varint64, max_varint_len,
}
use go_geodiff.Varint.Masks.{low_seven, top_bit, or_above}
use go_geodiff.Varint.Encode.{IsU64, high_bytes, full_bytes, encoding, put_varint64-encoding}
use native.Mathlib.Nat.{pow-suc, mod-eq_of_lt}

-- The number of groups that `high_bytes` writes.
pub groups : ℕ → ℕ → ℕ
groups zero w = 0
groups (suc f) w = let rest = groups f (w / 128) in if w == 0 then 0 else rest + 1

groups-le : (f w k : ℕ) → w < 128 ^ k → groups f w ≤ k
unfolding groups
groups-le zero w k h = omega arith
groups-le (suc f) w zero h = ground arith
groups-le (suc f) w (suc k) h =
    ground (arith, groups-le f (w / 128) k (omega (arith, pow-suc 128 k)))

pub length-high_bytes :
    (f w : ℕ) (tail : Bytes) → length (high_bytes f w tail) ≡ groups f w + length tail
unfolding groups high_bytes
length-high_bytes zero w tail = omega arith
length-high_bytes (suc f) w tail =
    ground (arith, length-high_bytes f (w / 128) ((w % 128 + 128) ∷ tail))

pub high_bytes-append :
    (f w : ℕ) (tail rest : Bytes) → high_bytes f w tail ++ rest ≡ high_bytes f w (tail ++ rest)
unfolding high_bytes
high_bytes-append zero w tail rest = refl
high_bytes-append (suc f) w tail rest =
    ground (arith, high_bytes-append f (w / 128) ((w % 128 + 128) ∷ tail) rest)

full_bytes-append :
    (f w : ℕ) (tail rest : Bytes) → full_bytes f w tail ++ rest ≡ full_bytes f w (tail ++ rest)
unfolding full_bytes
full_bytes-append zero w tail rest = refl
full_bytes-append (suc f) w tail rest = full_bytes-append f (w / 128) ((w % 128 + 128) ∷ tail) rest

-- One round of the loop on a group with the high bit, and on the last one.
inner_round :
    (w n : ℕ) (tail : Bytes)
    → w < 2 ^ 56
    → n < 8
    → get_loop ((w % 128 + 128) ∷ tail) (w / 128) n ≡ get_loop tail w (n + 1)
unfolding get_loop
inner_round w n tail hw hn = ground (
  arith,
  low_seven (w % 128 + 128),
  top_bit (w % 128 + 128),
  ap (λ (t : ℕ). get_loop tail t (n + 1)) whole,
)
  where
    whole : (w / 128 * 2 ^ 7 % 2 ^ 64 + (w % 128 + 128) % 128) % 2 ^ 64 ≡ w
    whole = omega arith

last_round :
    (v n : ℕ) (rest : Bytes)
    → v < 2 ^ 56
    → n < 8
    → get_loop ((v % 128) ∷ rest) (v / 128) n ≡ ok (v, n + 1)
unfolding get_loop
last_round v n rest hv hn = ground (arith, low_seven (v % 128), top_bit (v % 128))

get_loop-high_bytes :
    (f w : ℕ) (tail : Bytes)
    → w < 2 ^ 56
    → w < 128 ^ f
    → f ≤ 8
    → get_loop (high_bytes f w tail) 0 0 ≡ get_loop tail w (groups f w)
unfolding high_bytes groups
get_loop-high_bytes zero w tail h hf l = ap (λ t. get_loop tail t 0) (omega arith)
get_loop-high_bytes (suc f) w tail h hf l = elim (Bool-cases (w == 0)) [
  | inl e ↦ rw e (ap (λ t. get_loop tail t 0) (ground arith))
  | inr e ↦ rw e (
      get_loop-high_bytes f (w / 128) ((w % 128 + 128) ∷ tail) (omega arith) small (omega arith)
      ∙ inner_round w (groups f (w / 128)) tail h (omega (arith, groups-le f (w / 128) f small)))
]
  where
    small : w / 128 < 128 ^ f
    small = omega (arith, pow-suc 128 f)

all_high-cons :
    (w j : ℕ) (tail : Bytes) → all_high (suc j) ((w % 128 + 128) ∷ tail) ≡ all_high j tail
unfolding all_high
all_high-cons w j tail = ground (arith, top_bit (w % 128 + 128))

all_high-high_bytes :
    (f w j : ℕ) (tail : Bytes) → all_high (j + groups f w) (high_bytes f w tail) ≡ all_high j tail
unfolding high_bytes groups
all_high-high_bytes zero w j tail = ap (λ k. all_high k tail) (omega arith)
all_high-high_bytes (suc f) w j tail = elim (Bool-cases (w == 0)) [
  | inl e ↦ rw e (ap (λ k. all_high k tail) (omega arith))
  | inr e ↦ rw e (
      ap (λ k. all_high k (high_bytes f (w / 128) ((w % 128 + 128) ∷ tail))) shift
      ∙ all_high-high_bytes f (w / 128) (suc j) ((w % 128 + 128) ∷ tail)
      ∙ all_high-cons w j tail)
]
  where
    shift : j + (groups f (w / 128) + 1) ≡ suc j + groups f (w / 128)
    shift = omega arith

-- A low byte among the first eight keeps `getVarint64` off the nine-byte form.
stays_low :
    (v : ℕ) (rest : Bytes)
    → v < 2 ^ 56
    → all_high 8 (high_bytes 8 (v / 128) (v % 128 ∷ rest)) ≡ false
stays_low v rest h =
    ap (λ k. all_high k (high_bytes 8 (v / 128) (v % 128 ∷ rest))) split
    ∙ all_high-high_bytes 8 (v / 128) (suc (7 - groups 8 (v / 128))) (v % 128 ∷ rest)
    ∙ low_head
  where
    split : 8 ≡ suc (7 - groups 8 (v / 128)) + groups 8 (v / 128)
    split = omega (arith, groups-le 8 (v / 128) 7 (omega arith))

    low_head : all_high (suc (7 - groups 8 (v / 128))) (v % 128 ∷ rest) ≡ false
    low_head = unfold all_high in ground (arith, top_bit (v % 128))

one_byte : (b : ℕ) (bs : Bytes) → b < 128 → get_loop (b ∷ bs) 0 0 ≡ ok (b, 1)
unfolding get_loop
one_byte b bs h = ground (arith, low_seven b, top_bit b)

get_varint64-get_loop :
    (buf : Bytes) {r : ℕ × ℕ}
    → all_high 8 buf ≡ false
    → get_loop buf 0 0 ≡ ok r
    → get_varint64 buf ≡ ok r
unfolding get_varint64
get_varint64-get_loop [] low e = unfold get_loop in cc
get_varint64-get_loop (b ∷ bs) low e = elim (Bool-cases (ltb b 0x80)) [
  | inl small ↦ rw small (sym (one_byte b bs (ground arith)) ∙ e)
  | inr big ↦ rw (big, low) (ground arith)
]

-- One step of the nine-byte loop: the group is or-ed in above what is there.
or_group :
    (k a g : ℕ)
    → a < 2 ^ k
    → g < 128
    → g * 2 ^ k < 2 ^ 64
    → bit_or a (bit_and (g + 128) 0x7f * 2 ^ k % 2 ^ 64) ≡ g * 2 ^ k + a
or_group k a g ha hg hk = rw (low_seven (g + 128), low, mod-eq_of_lt hk) (or_above k a g ha)
  where
    low : (g + 128) % 128 ≡ g
    low = omega arith

module _ (c g0 g1 g2 g3 g4 g5 g6 g7 : ℕ) (rest : Bytes) (hc : c < 256) (h0 : g0 < 128)
    (h1 : g1 < 128) (h2 : g2 < 128) (h3 : g3 < 128) (h4 : g4 < 128) (h5 : g5 < 128) (h6 : g6 < 128)
    (h7 : g7 < 128) where
  low_groups : ℕ
  low_groups = g3 * 2 ^ 29 + (g2 * 2 ^ 22 + (g1 * 2 ^ 15 + (g0 * 2 ^ 8 + c)))

  nine_bytes-groups :
      nine_bytes (
        (g7 + 128)
        ∷ (g6 + 128)
        ∷ (g5 + 128)
        ∷ (g4 + 128)
        ∷ (g3 + 128)
        ∷ (g2 + 128)
        ∷ (g1 + 128)
        ∷ (g0 + 128)
        ∷ c
        ∷ rest)
      ≡ ok (g7 * 2 ^ 57 + (g6 * 2 ^ 50 + (g5 * 2 ^ 43 + (g4 * 2 ^ 36 + low_groups))), 9)
  unfolding nine_bytes nine_loop low_groups
  nine_bytes-groups = rw (
    or_group 8 c g0 (omega arith) h0 (omega arith),
    or_group 15 (g0 * 2 ^ 8 + c) g1 (omega arith) h1 (omega arith),
    or_group 22 (g1 * 2 ^ 15 + (g0 * 2 ^ 8 + c)) g2 (omega arith) h2 (omega arith),
    or_group 29 (g2 * 2 ^ 22 + (g1 * 2 ^ 15 + (g0 * 2 ^ 8 + c))) g3 (omega arith) h3 (omega arith),
    or_group 36 low_groups g4 (omega arith) h4 (omega arith),
    or_group 43 (g4 * 2 ^ 36 + low_groups) g5 (omega arith) h5 (omega arith),
    or_group 50 (g5 * 2 ^ 43 + (g4 * 2 ^ 36 + low_groups)) g6 (omega arith) h6 (omega arith),
    or_group 57 (g6 * 2 ^ 50 + (g5 * 2 ^ 43 + (g4 * 2 ^ 36 + low_groups))) g7 (omega arith) h7
        (omega arith),
  )

pub short_form :
    (v : ℕ) (rest : Bytes)
    → v < 2 ^ 56
    → get_varint64 (high_bytes 8 (v / 128) (v % 128 ∷ []) ++ rest)
      ≡ ok (v, length (high_bytes 8 (v / 128) (v % 128 ∷ [])))
short_form v rest small =
    rw (high_bytes-append, length-high_bytes)
      (get_varint64-get_loop _ (stays_low v rest small) (
        get_loop-high_bytes 8 (v / 128) (v % 128 ∷ rest) (omega arith) (omega arith) (omega arith)
        ∙ last_round v (groups 8 (v / 128)) rest small
            (omega (arith, groups-le 8 (v / 128) 7 (omega arith)))))

nine_form :
    (b : ℕ) (bs : Bytes) {r : ℕ × ℕ}
    → 128 ≤ b
    → 8 ≤ length bs
    → all_high 8 (b ∷ bs) ≡ true
    → nine_bytes (b ∷ bs) ≡ ok r
    → get_varint64 (b ∷ bs) ≡ ok r
unfolding get_varint64
nine_form b bs hb long high e = ground arith

all_high-full_bytes :
    (k w j : ℕ) (tail : Bytes) → all_high (j + k) (full_bytes k w tail) ≡ all_high j tail
unfolding full_bytes
all_high-full_bytes zero w j tail = ap (λ n. all_high n tail) (omega arith)
all_high-full_bytes (suc k) w j tail =
    ap (λ n. all_high n (full_bytes k (w / 128) ((w % 128 + 128) ∷ tail))) shift
    ∙ all_high-full_bytes k (w / 128) (suc j) ((w % 128 + 128) ∷ tail)
    ∙ all_high-cons w j tail
  where
    shift : j + suc k ≡ suc j + k
    shift = omega arith

eight_high : (w : ℕ) (tail : Bytes) → all_high 8 (full_bytes 8 w tail) ≡ true
eight_high w tail = all_high-full_bytes 8 w 0 tail ∙ (unfold all_high in refl)

regroup :
    (v : ℕ)
    → v < 2 ^ 64
    → (w : ℕ) → w ≡ v / 256
    → (w / 128 / 128 / 128 / 128 / 128 / 128 / 128 % 128) * 2 ^ 57
        + ((w / 128 / 128 / 128 / 128 / 128 / 128 % 128) * 2 ^ 50
            + ((w / 128 / 128 / 128 / 128 / 128 % 128) * 2 ^ 43
                + ((w / 128 / 128 / 128 / 128 % 128) * 2 ^ 36
                    + ((w / 128 / 128 / 128 % 128) * 2 ^ 29
                        + ((w / 128 / 128 % 128) * 2 ^ 22
                            + ((w / 128 % 128) * 2 ^ 15 + ((w % 128) * 2 ^ 8 + v % 256)))))))
      ≡ v
regroup v h w e = omega arith

nine_value :
    (v : ℕ) (rest : Bytes)
    → v < 2 ^ 64
    → nine_bytes (full_bytes 8 (v / 256) (v % 256 ∷ rest)) ≡ ok (v, 9)
unfolding full_bytes low_groups
nine_value v rest h =
    let w : ℕ = v / 256 in
    nine_bytes-groups (v % 256) (w % 128) (w / 128 % 128) (w / 128 / 128 % 128)
      (w / 128 / 128 / 128 % 128) (w / 128 / 128 / 128 / 128 % 128)
      (w / 128 / 128 / 128 / 128 / 128 % 128) (w / 128 / 128 / 128 / 128 / 128 / 128 % 128)
      (w / 128 / 128 / 128 / 128 / 128 / 128 / 128 % 128) rest (omega arith) (omega arith)
      (omega arith) (omega arith) (omega arith) (omega arith) (omega arith) (omega arith)
      (omega arith)
    ∙ ap (λ (t : ℕ). ok (t, 9)) (regroup v h w refl)

long_form :
    (v : ℕ) (rest : Bytes)
    → v < 2 ^ 64
    → get_varint64 (full_bytes 8 (v / 256) (v % 256 ∷ []) ++ rest)
      ≡ ok (v, length (full_bytes 8 (v / 256) (v % 256 ∷ [])))
unfolding full_bytes
long_form v rest h =
    nine_form _ _ (omega arith) (omega arith) (eight_high (v / 256) (v % 256 ∷ rest))
      (nine_value v rest h)

-- `getVarint64` reads back the uint64 that `putVarint64` wrote, whatever follows it, and counts the
-- bytes written.
pub get_varint64-put_varint64 :
    (v : ℕ) (rest : Bytes)
    → IsU64 v
    → get_varint64 (put_varint64 v ++ rest) ≡ ok (v, length (put_varint64 v))
unfolding encoding
get_varint64-put_varint64 v rest h =
    rw (put_varint64-encoding v h) (elim (Bool-cases (v / 2 ^ 56 == 0)) [
      | inl e ↦ rw e (short_form v rest (ground arith))
      | inr e ↦ rw e (long_form v rest h)
    ])

-- `PutVarint` writes 1 to 9 bytes, which fit the writer's buffer of `MaxVarintLen`.
pub length-put_varint64 :
    (v : ℕ) → IsU64 v → (1 ≤ length (put_varint64 v)) × (length (put_varint64 v) ≤ max_varint_len)
length-put_varint64 v h = rw (put_varint64-encoding v h) (elim (Bool-cases (v / 2 ^ 56 == 0)) [
  | inl e ↦
      unfold encoding in
      rw (e, length-high_bytes) (omega (arith, groups-le 8 (v / 128) 7 (ground arith)))
  | inr e ↦ unfold encoding full_bytes in rw e (omega arith)
])
