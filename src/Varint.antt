-- ===== src/Varint.antt =====
-- varint/varint.go: SQLite's variable-length integers. A byte slice is a list of numbers below 256;
-- a uint64 is a number below 2 ^ 64, and its wrap-around is written out. What `PutVarint` writes to
-- the front of its buffer is returned as the list of those bytes, whose length is its result.
pub mod Masks
pub mod Encode
pub mod Decode
pub mod RoundTrip
pub mod Word
use go_geodiff.Common.{
  ℕ, zero, suc, ◌+◌, ◌-◌, ◌*◌, ◌/◌, ◌%◌, ◌^◌, Bool, true, false, ◌&&◌, not, List, [], ◌∷◌, ◌==◌,
  ltb, leb, if◌then◌else◌, Bytes, length, drop, get_elem?, bit_and, bit_or, Option, none, some,
}
use go_geodiff.Result.{
  Result, ok, err, offset_beyond_buffer, empty_buffer, unexpected_end, varint_too_long, index_panic,
  ◌>>=◌,
}
use mathlib.Core.List.{reverse}

abbrev pub max_varint_len : ℕ
max_varint_len = 9

-- The first `k` bytes all have the high bit; a missing byte is no high bit, and is not met, since
-- the caller checks the length.
pub all_high : ℕ → Bytes → Bool
all_high zero bs = true
all_high (suc k) [] = false
all_high (suc k) (b ∷ bs) = if bit_and b 0x80 == 0 then false else all_high k bs

-- `for i := 7; i >= 0; i--` of the nine-byte case; the number is `i + 1`.
pub nine_loop : ℕ → Bytes → ℕ → Result ℕ
nine_loop zero buf value = ok value
nine_loop (suc i) buf value = elim (get_elem? buf i) [
  | none ↦ err index_panic
  | some b ↦ nine_loop i buf (bit_or value (bit_and b 0x7f * 2 ^ (7 * (7 - i) + 8) % 2 ^ 64))
]

pub nine_bytes : Bytes → Result (ℕ × ℕ)
nine_bytes buf = elim (get_elem? buf 8) [
  | none ↦ err index_panic
  | some b ↦ (do value ← nine_loop 8 buf b; ok (value, 9))
]

-- `for n = 0; n < 8 && n < len(buf); n++`, and the two exits behind it; the list is `buf[n:]`.
pub get_loop : Bytes → ℕ → ℕ → Result (ℕ × ℕ)
get_loop [] value n = err unexpected_end
get_loop (b ∷ bs) value n =
    let value' = (value * 2 ^ 7 % 2 ^ 64 + bit_and b 0x7f) % 2 ^ 64 in
    let rest = get_loop bs value' (n + 1) in
    if n == 8 then err varint_too_long else if bit_and b 0x80 == 0 then ok (value', n + 1) else rest

unfoldable pub get_varint64 : Bytes → Result (ℕ × ℕ)
get_varint64 [] = err empty_buffer
get_varint64 (b ∷ bs) =
    if ltb b 0x80
    then ok (b, 1)
    else if leb 9 (length (b ∷ bs)) && all_high 8 (b ∷ bs)
    then nine_bytes (b ∷ bs)
    else get_loop (b ∷ bs) 0 0

pub clamp_u32 : ℕ × ℕ → ℕ × ℕ
clamp_u32 (v64, n64) = if ltb 0xffffffff v64 then (0xffffffff, n64) else (v64, n64)

pub fall_back : Bytes → Result (ℕ × ℕ)
fall_back buf = do p ← get_varint64 buf; ok (clamp_u32 p)

pub three_bytes : ℕ → ℕ → Bytes → Result (ℕ × ℕ)
three_bytes b0 b1 [] = fall_back (b0 ∷ b1 ∷ [])
three_bytes b0 b1 (b2 ∷ rest) =
    let a = bit_or (b0 * 2 ^ 14) b2 in
    if bit_and a 0x80 == 0
    then ok (bit_or (bit_and a (bit_or (0x7f * 2 ^ 14) 0x7f)) (bit_and b1 0x7f * 2 ^ 7), 3)
    else fall_back (b0 ∷ b1 ∷ b2 ∷ rest)

pub two_bytes : ℕ → Bytes → Result (ℕ × ℕ)
two_bytes b0 [] = fall_back (b0 ∷ [])
two_bytes b0 (b1 ∷ rest) =
    if ltb b1 0x80 then ok (bit_or (bit_and b0 0x7f * 2 ^ 7) b1, 2) else three_bytes b0 b1 rest

-- `GetVarint` behind its first test, on `buf[p:]`.
pub get_front : Bytes → Result (ℕ × ℕ)
get_front [] = err index_panic
get_front (b ∷ rest) = if ltb b 0x80 then ok (b, 1) else two_bytes b rest

unfoldable pub get_varint : Bytes → ℕ → Result (ℕ × ℕ)
get_varint buf p = if leb (length buf) p then err offset_beyond_buffer else get_front (drop p buf)

-- The nine-byte loop of `putVarint64`, which writes p[7] first: the list is p[i + 1 ..].
pub put_nine_loop : ℕ → ℕ → Bytes → Bytes
put_nine_loop zero v bs = bs
put_nine_loop (suc i) v bs = put_nine_loop i (v / 2 ^ 7) (bit_or (bit_and v 0x7f) 0x80 ∷ bs)

-- The general case's chunks, low to high; the fuel is the length of `buf [10]byte`.
pub chunk_loop : ℕ → ℕ → Bytes
chunk_loop zero v = []
chunk_loop (suc f) v =
    let rest = chunk_loop f (v / 2 ^ 7) in
    bit_or (bit_and v 0x7f) 0x80 ∷ (if v / 2 ^ 7 == 0 then [] else rest)

-- `buf[0] &= 0x7f`
pub clear_first : Bytes → Bytes
clear_first [] = []
clear_first (c ∷ cs) = bit_and c 0x7f ∷ cs

unfoldable pub put_varint64 : ℕ → Bytes
put_varint64 v =
    if leb v 0x7f
    then v % 256 ∷ []
    else if leb v 0x3fff
    then bit_or (bit_and (v / 2 ^ 7) 0x7f) 0x80 % 256 ∷ bit_and v 0x7f % 256 ∷ []
    else if not (bit_and v 0xff000000_00000000 == 0)
    then put_nine_loop 8 (v / 2 ^ 8) (v % 256 ∷ [])
    else reverse (clear_first (chunk_loop 10 v))

-- `PutVarint` takes a uint32.
unfoldable pub put_varint : ℕ → Bytes
unfolding put_varint64
put_varint value = put_varint64 value
