-- ===== src/Changeset/Reader/Steps.antt =====
-- Each method of the reader on bytes that the writer wrote.
use go_geodiff.Common.{
  ℕ, ◌+◌, ◌%◌, ◌^◌, ◌≤◌, ◌<◌, ◌≡◌, sym, ap, ◌∙◌, arith, false, List, [], ◌∷◌, ◌++◌, ltb, Bytes,
  length, length-append, length-drop, drop, take-length-append, drop-length-append, drop-drop,
  get_elem?-drop, append_assoc, All,
}
use go_geodiff.Result.{ok}
use go_geodiff.Varint.Word.{get_varint-put_varint}
use go_geodiff.Changeset.Types.{Value, undefined, int, double, text, blob, null, type_of, type_byte}
use go_geodiff.Changeset.Writer.{be_bytes}
use go_geodiff.Changeset.Writer.Encoding.{varint_bytes, payload_bytes, value_bytes, values_bytes}
use go_geodiff.Changeset.Reader.{
  Reader, Read, ◌>>=◌, pure, read_byte, read_varint, read_slice, big_endian, read_typed, read_value,
  read_values,
}

-- The reader stands in front of these bytes.
pub record At (r : Reader) (bs : Bytes) : Type 0 where
  pub inside : r.offset ≤ length r.buf
  pub ahead : drop r.offset r.buf ≡ bs

abbrev pub advance : Reader → ℕ → Reader
advance r n = record r { offset = r.offset + n }

pub At-advance :
    (r : Reader) (bs rest : Bytes) → At r (bs ++ rest) → At (advance r (length bs)) rest
At-advance r bs rest h = record {
  inside = omega (
    arith,
    length-drop r.offset r.buf,
    ap (length {A = ℕ}) h.ahead,
    length-append bs rest,
    h.inside,
  );
  ahead =
      ap (λ n. drop n r.buf) swapped
      ∙ sym (drop-drop r.offset (length bs) r.buf)
      ∙ ap (drop (length bs)) h.ahead
      ∙ drop-length-append bs rest;
}
  where
    swapped : r.offset + length bs ≡ length bs + r.offset
    swapped = omega arith

-- `m` reads `bs`, returns `a`, and changes nothing but the offset.
abbrev pub Reads : {A : Type 0} → Read A → A → Bytes → Type 0
Reads m a bs = (r : Reader) (rest : Bytes) → At r (bs ++ rest) → m r ≡ (ok a, advance r (length bs))

module _ {A B : Type 0} where
  pub Reads-bind :
      (m : Read A) (f : A → Read B) (a : A) (b : B) (bs cs : Bytes)
      → Reads m a bs
      → Reads (f a) b cs
      → Reads (m >>= f) b (bs ++ cs)
  Reads-bind m f a b bs cs hm hf r rest h = rw (hm r (cs ++ rest) (rw append_assoc at h)) (
      hf (advance r (length bs)) rest (At-advance r bs (cs ++ rest) (rw append_assoc at h))
      ∙ ap (λ n. (ok b, record r { offset = n })) sum)
    where
      sum : r.offset + length bs + length cs ≡ r.offset + length (bs ++ cs)
      sum = omega (arith, length-append bs cs)

pub Reads-pure : {A : Type 0} (a : A) → Reads (pure a) a []
Reads-pure a r rest h = ap (λ n. (ok a, record r { offset = n })) (omega arith)

pub Reads-byte : (b : ℕ) → Reads read_byte b (b ∷ [])
unfolding read_byte
Reads-byte b r rest h = rw (get_elem?-drop r.offset r.buf h.ahead, read_byte)

pub Reads-varint : (n : ℕ) → n < 2 ^ 32 → Reads read_varint n (varint_bytes n)
unfolding read_varint
Reads-varint n hn r rest h =
    rw (get_varint-put_varint r.buf r.offset (n % 2 ^ 32) rest (omega arith) h.ahead, read_varint)
      (ap (λ (t : ℕ). (ok t, advance r (length (varint_bytes n)))) same)
  where
    same : n % 2 ^ 32 ≡ n
    same = omega arith

Reads-slice : (bs : Bytes) → Reads (read_slice (length bs)) bs bs
unfolding read_slice
Reads-slice bs r rest h = rw (fits, h.ahead, take-length-append bs rest)
  where
    fits : ltb (length r.buf) (r.offset + length bs) ≡ false
    fits = ground (
      arith,
      length-drop r.offset r.buf,
      ap (length {A = ℕ}) h.ahead,
      length-append bs rest,
      h.inside,
    )

big_endian-be_bytes : (n : ℕ) → n < 2 ^ 64 → big_endian 0 (be_bytes n) ≡ n
unfolding big_endian
big_endian-be_bytes n h = omega arith

-- What the format can hold: 64-bit numbers, and lengths that are a uint32.
abbrev pub FitsFormat : Value → Type 0
FitsFormat (int n) = n < 2 ^ 64
FitsFormat (double f) = f < 2 ^ 64
FitsFormat (text s) = length s < 2 ^ 32
FitsFormat (blob b) = length b < 2 ^ 32
FitsFormat v = Unit {0}

Reads-map :
    {A B : Type 0} (m : Read A) (g : A → B) (a : A) (bs : Bytes)
    → Reads m a bs
    → Reads (m >>= λ x. pure (g x)) (g a) bs
Reads-map m g a bs hm r rest h = rw (hm r rest h)

Reads-number :
    (mk : ℕ → Value) (n : ℕ)
    → n < 2 ^ 64
    → Reads (read_slice 8 >>= λ bs. pure (mk (big_endian 0 bs))) (mk n) (be_bytes n)
Reads-number mk n h r rest a =
    Reads-map (read_slice 8) (λ bs. mk (big_endian 0 bs)) (be_bytes n) (be_bytes n)
      (Reads-slice (be_bytes n)) r rest a
    ∙ ap (λ (t : ℕ). (ok (mk t), advance r 8)) (big_endian-be_bytes n h)

Reads-bytes :
    (mk : Bytes → Value) (bs : Bytes)
    → length bs < 2 ^ 32
    → Reads
        (read_varint >>= λ n. read_slice n >>= λ s. pure (mk s))
        (mk bs)
        (varint_bytes (length bs) ++ bs)
Reads-bytes mk bs h =
    Reads-bind read_varint (λ n. read_slice n >>= λ s. pure (mk s)) (length bs) (mk bs)
      (varint_bytes (length bs)) bs (Reads-varint (length bs) h)
      (Reads-map (read_slice (length bs)) mk bs bs (Reads-slice bs))

Reads-typed :
    (v : Value) → FitsFormat v → Reads (read_typed (type_byte (type_of v))) v (payload_bytes v)
unfolding read_typed
Reads-typed undefined h = Reads-pure undefined
Reads-typed (int n) h = Reads-number int n h
Reads-typed (double f) h = Reads-number double f h
Reads-typed (text s) h = Reads-bytes text s h
Reads-typed (blob b) h = Reads-bytes blob b h
Reads-typed null h = Reads-pure null

Reads-value : (v : Value) → FitsFormat v → Reads read_value v (value_bytes v)
unfolding read_value
Reads-value v h =
    Reads-bind read_byte read_typed (type_byte (type_of v)) v (type_byte (type_of v) ∷ [])
      (payload_bytes v) (Reads-byte (type_byte (type_of v))) (Reads-typed v h)

-- The reader's loop over the columns reads back the values that the writer's loop wrote.
pub Reads-values :
    (vs : List Value) → All FitsFormat vs → Reads (read_values (length vs)) vs (values_bytes vs)
unfolding read_values values_bytes
Reads-values [] h = Reads-pure []
Reads-values (v ∷ vs) h =
    Reads-bind read_value (λ x. read_values (length vs) >>= λ xs. pure (x ∷ xs)) v (v ∷ vs)
      (value_bytes v) (values_bytes vs) (Reads-value v h.0)
      (Reads-map (read_values (length vs)) (λ xs. v ∷ xs) vs (values_bytes vs)
        (Reads-values vs h.1))
