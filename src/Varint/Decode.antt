-- ===== src/Varint/Decode.antt =====
-- What `GetVarint` and `getVarint64` do on any input.
use go_geodiff.Common.{
  ℕ, zero, suc, ◌+◌, ◌≤◌, ◌<◌, ◌≡◌, ◌⊎◌, refl, arith, false, [], ◌∷◌, ◌==◌, ltb, leb, Bytes, length,
  length-drop, drop, Bool-cases, inl, inr, bit_and, get_elem?-some,
}
use go_geodiff.Result.{Result, ok, err, unexpected_end, offset_beyond_buffer, ◌>>=◌}
use go_geodiff.Varint.{
  all_high, nine_loop, nine_bytes, get_loop, get_varint64, clamp_u32, fall_back, three_bytes,
  two_bytes, get_front, get_varint,
}

-- The outcome of the loop from `buf[n:]`: a count past `n` and within the bytes left, or their end.
abbrev Ends : ℕ → Bytes → Result (ℕ × ℕ) → Type 0
Ends n bs (ok (v, m)) = (n < m) × (m ≤ n + length bs) × (m ≤ 8)
Ends n bs (err e) = e ≡ unexpected_end

Ends-cons : (n b : ℕ) (bs : Bytes) (r : Result (ℕ × ℕ)) → Ends (n + 1) bs r → Ends n (b ∷ bs) r
Ends-cons n b bs (ok (v, m)) h = omega arith
Ends-cons n b bs (err e) h = h

-- The bytes left end within the rounds left, or one of them has no high bit.
abbrev Stops : ℕ → Bytes → Type 0
Stops k bs = (length bs ≤ k) ⊎ (all_high k bs ≡ false)

Stops-tail :
    (k b : ℕ) (bs : Bytes) → (bit_and b 0x80 == 0) ≡ false → Stops (suc k) (b ∷ bs) → Stops k bs
unfolding all_high
Stops-tail k b bs more (inl d) = inl (omega arith)
Stops-tail k b bs more (inr d) = inr (rw more at d)

get_loop-Ends :
    (k : ℕ) (bs : Bytes) (value n : ℕ) → n + k ≡ 8 → Stops k bs → Ends n bs (get_loop bs value n)
unfolding get_loop all_high
get_loop-Ends k [] value n h d = refl
get_loop-Ends zero (b ∷ bs) value n h (inl d) = absurd (omega arith)
get_loop-Ends zero (b ∷ bs) value n h (inr d) = cc
get_loop-Ends (suc k) (b ∷ bs) value n h d = elim (Bool-cases (bit_and b 0x80 == 0)) [
  | inl last ↦ rw (not_eight, last) (omega arith)
  | inr more ↦
      rw (not_eight, more)
        (Ends-cons n b bs _ (get_loop-Ends k bs _ (n + 1) (omega arith) (Stops-tail k b bs more d)))
]
  where
    not_eight : (n == 8) ≡ false
    not_eight = ground arith

nine_loop-ok :
    (k : ℕ) (buf : Bytes) (value : ℕ) → k ≤ length buf → (v : ℕ) × (nine_loop k buf value ≡ ok v)
unfolding nine_loop
nine_loop-ok zero buf value h = (value, refl)
nine_loop-ok (suc i) buf value h =
    let (b, e) = get_elem?-some buf i (omega arith) in
    rw (e, nine_loop) (nine_loop-ok i buf _ (omega arith))

nine_bytes-ok : (buf : Bytes) → 9 ≤ length buf → (v : ℕ) × (nine_bytes buf ≡ ok (v, 9))
unfolding nine_bytes
nine_bytes-ok buf h =
    let (b, e) = get_elem?-some buf 8 (omega arith) in
    let (v, f) = nine_loop-ok 8 buf b (omega arith) in (v, rw (e, nine_bytes, f))

-- A successful read of a varint consumes 1 to 9 bytes, which are there; the only errors are the ends
-- of the buffer.
abbrev pub Consumes : Bytes → Result (ℕ × ℕ) → Type 0
Consumes buf (ok (v, n)) = (1 ≤ n) × (n ≤ length buf) × (n ≤ 9)
Consumes buf (err e) = e ≡ unexpected_end

Consumes-Ends : (bs : Bytes) (r : Result (ℕ × ℕ)) → Ends 0 bs r → Consumes bs r
Consumes-Ends bs (ok (v, n)) h = omega arith
Consumes-Ends bs (err e) h = h

get_varint64-Consumes : (b : ℕ) (bs : Bytes) → Consumes (b ∷ bs) (get_varint64 (b ∷ bs))
unfolding get_varint64
get_varint64-Consumes b bs = elim (Bool-cases (ltb b 0x80)) [
  | inl e ↦ rw e (omega arith)
  | inr e ↦ elim (Bool-cases (leb 9 (length (b ∷ bs)))) [
    | inl long ↦ elim (Bool-cases (all_high 8 (b ∷ bs))) [
      | inl high ↦
          let (v, f) = nine_bytes-ok (b ∷ bs) (ground arith) in rw (e, long, high, f) (ground arith)
      | inr low ↦ rw (e, long, low) (looped (inr low))
    ]
    | inr short ↦ rw (e, short) (looped (inl (ground arith)))
  ]
]
  where
    looped : Stops 8 (b ∷ bs) → Consumes (b ∷ bs) (get_loop (b ∷ bs) 0 0)
    looped d = Consumes-Ends (b ∷ bs) _ (get_loop-Ends 8 (b ∷ bs) 0 0 refl d)

Consumes-clamp :
    (bs : Bytes) (r : Result (ℕ × ℕ)) → Consumes bs r → Consumes bs (r >>= λ p. ok (clamp_u32 p))
unfolding clamp_u32
Consumes-clamp bs (ok (v, n)) h = ground arith
Consumes-clamp bs (err e) h = h

fall_back-Consumes : (b : ℕ) (bs : Bytes) → Consumes (b ∷ bs) (fall_back (b ∷ bs))
unfolding fall_back
fall_back-Consumes b bs = Consumes-clamp (b ∷ bs) _ (get_varint64-Consumes b bs)

get_front-Consumes : (b : ℕ) (bs : Bytes) → Consumes (b ∷ bs) (get_front (b ∷ bs))
unfolding get_front two_bytes three_bytes
get_front-Consumes b [] = ground (arith, fall_back-Consumes b [])
get_front-Consumes b (b1 ∷ []) = ground (arith, fall_back-Consumes b (b1 ∷ []))
get_front-Consumes b (b1 ∷ b2 ∷ bs) = ground (arith, fall_back-Consumes b (b1 ∷ b2 ∷ bs))

-- `GetVarint` at any offset into any buffer: past the end it says so; elsewhere a value comes with
-- a count of 1 to 9 bytes, all within the buffer, and the only error is that the buffer ends inside
-- the number. It never indexes out of range, and it never finds a number too long.
pub get_varint-Consumes :
    (buf : Bytes) (p : ℕ)
    → ((length buf ≤ p) × (get_varint buf p ≡ err offset_beyond_buffer))
      ⊎ ((p < length buf) × Consumes (drop p buf) (get_varint buf p))
unfolding get_varint
get_varint-Consumes buf p = elim (Bool-cases (leb (length buf) p)) [
  | inl e ↦ inl (ground arith, rw e refl)
  | inr e ↦ inr (ground arith, rw e (front (drop p buf) (rw length-drop (ground arith))))
]
  where
    front : (bs : Bytes) → 0 < length bs → Consumes bs (get_front bs)
    front [] h = absurd (omega arith)
    front (b ∷ bs) h = get_front-Consumes b bs
