-- ===== src/Varint/Encode.antt =====
-- What `putVarint64` writes, in plain arithmetic.
use go_geodiff.Common.{
  ℕ, zero, suc, ◌+◌, ◌/◌, ◌%◌, ◌^◌, ◌≤◌, ◌<◌, ◌≡◌, refl, sym, ap, ◌∙◌, arith, [], ◌∷◌, ◌++◌, ◌==◌,
  if◌then◌else◌, Bytes, append_assoc, append-nil, bit_and, bit_or, Bool-cases, inl, inr,
}
use go_geodiff.Varint.{put_nine_loop, chunk_loop, clear_first, put_varint64}
use go_geodiff.Varint.Masks.{low_seven, group_byte, top_byte}
use native.Mathlib.Nat.{pow-suc}
use mathlib.Core.List.{reverse, reverse-append}

abbrev pub IsByte : ℕ → Type 0
IsByte b = b < 256

abbrev pub IsU64 : ℕ → Type 0
IsU64 v = v < 2 ^ 64

-- The seven-bit groups of `w` with the high bit set, highest first, in front of `tail`.
unfoldable pub high_bytes : ℕ → ℕ → Bytes → Bytes
high_bytes zero w tail = tail
high_bytes (suc f) w tail =
    let rest = high_bytes f (w / 128) ((w % 128 + 128) ∷ tail) in if w == 0 then tail else rest

-- `k` groups, whatever their value.
unfoldable pub full_bytes : ℕ → ℕ → Bytes → Bytes
full_bytes zero w tail = tail
full_bytes (suc k) w tail = full_bytes k (w / 128) ((w % 128 + 128) ∷ tail)

unfoldable pub encoding : ℕ → Bytes
encoding v =
    if v / 2 ^ 56 == 0
    then high_bytes 8 (v / 128) (v % 128 ∷ [])
    else full_bytes 8 (v / 256) (v % 256 ∷ [])

put_nine_loop-full_bytes : (k w : ℕ) (tail : Bytes) → put_nine_loop k w tail ≡ full_bytes k w tail
unfolding put_nine_loop full_bytes
put_nine_loop-full_bytes zero w tail = refl
put_nine_loop-full_bytes (suc k) w tail =
    rw (group_byte w) (put_nine_loop-full_bytes k (w / 128) ((w % 128 + 128) ∷ tail))

reverse-cons : (c : ℕ) (cs tail : Bytes) → reverse (c ∷ cs) ++ tail ≡ reverse cs ++ (c ∷ tail)
reverse-cons c cs tail = rw (reverse-append (c ∷ []) cs, append_assoc)

-- The chunks of a number are its groups, lowest first.
abbrev chunks : ℕ → ℕ → Bytes
chunks f w = if w == 0 then [] else chunk_loop f w

reverse-chunks : (f w : ℕ) (tail : Bytes) → reverse (chunks f w) ++ tail ≡ high_bytes f w tail
unfolding chunk_loop high_bytes
reverse-chunks zero w tail = elim (Bool-cases (w == 0)) [ inl e ↦ rw e refl | inr e ↦ rw e refl ]
reverse-chunks (suc f) w tail = elim (Bool-cases (w == 0)) [
  | inl e ↦ rw e refl
  | inr e ↦ rw e (
      reverse-cons (bit_or (bit_and w 0x7f) 0x80) (chunks f (w / 128)) tail
      ∙ rw (group_byte w) (reverse-chunks f (w / 128) ((w % 128 + 128) ∷ tail)))
]

-- More rounds than groups make no difference.
high_bytes_fuel :
    (f w : ℕ) (tail : Bytes) → w < 128 ^ f → high_bytes (suc f) w tail ≡ high_bytes f w tail
unfolding high_bytes
high_bytes_fuel zero w tail h = ground arith
high_bytes_fuel (suc f) w tail h = elim (Bool-cases (w == 0)) [
  | inl e ↦ rw e refl
  | inr e ↦
      rw e (high_bytes_fuel f (w / 128) ((w % 128 + 128) ∷ tail) (omega (arith, pow-suc 128 f)))
]

last_group : (v : ℕ) → bit_and (bit_or (bit_and v 0x7f) 0x80) 0x7f ≡ v % 128
last_group v = rw (group_byte v) (rw (low_seven (v % 128 + 128)) (omega arith))

cleared : (v : ℕ) → clear_first (chunk_loop 10 v) ≡ v % 128 ∷ chunks 9 (v / 128)
unfolding clear_first chunk_loop
cleared v = ap (λ (t : ℕ). t ∷ chunks 9 (v / 128)) (last_group v)

general_case :
    (v : ℕ)
    → v < 2 ^ 56
    → reverse (clear_first (chunk_loop 10 v)) ≡ high_bytes 8 (v / 128) (v % 128 ∷ [])
general_case v h = rw (cleared v) (
    sym (append-nil _)
    ∙ reverse-cons (v % 128) (chunks 9 (v / 128)) []
    ∙ reverse-chunks 9 (v / 128) (v % 128 ∷ [])
    ∙ high_bytes_fuel 8 (v / 128) _ (omega arith))

one_group : (v : ℕ) → v < 128 → high_bytes 8 (v / 128) (v % 128 ∷ []) ≡ v % 256 ∷ []
unfolding high_bytes
one_group v h = ground arith

two_groups :
    (v : ℕ)
    → 128 ≤ v
    → v < 16384
    → high_bytes 8 (v / 128) (v % 128 ∷ []) ≡ (v / 128 % 128 + 128) ∷ v % 128 ∷ []
unfolding high_bytes
two_groups v l h = ground arith

-- On every uint64 `putVarint64` writes the encoding.
pub put_varint64-encoding : (v : ℕ) → IsU64 v → put_varint64 v ≡ encoding v
unfolding put_varint64 encoding
put_varint64-encoding v h = ground (
  arith,
  one_group v,
  two_groups v,
  group_byte (v / 2 ^ 7),
  low_seven v,
  top_byte v h,
  put_nine_loop-full_bytes 8 (v / 2 ^ 8) (v % 256 ∷ []),
  general_case v,
)
