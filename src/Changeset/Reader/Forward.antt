-- ===== src/Changeset/Reader/Forward.antt =====
-- The methods of the reader on any buffer: each keeps the buffer and never moves back.
use go_geodiff.Common.{
  ℕ, zero, suc, ◌+◌, ◌≤◌, ◌≡◌, refl, ◌∙◌, arith, Bool, true, false, not, List, [], ◌∷◌, ◌++◌, ◌==◌,
  ltb, if◌then◌else◌, Bytes, length, replicate, get_elem?, drop, Option, none, some, Bool-cases,
  inl, inr,
}
use go_geodiff.Result.{
  Error, Result, ok, err, read_past_end, unknown_entry_type, unexpected_value_type,
  too_many_columns, bad_length,
}
use go_geodiff.Varint.{get_varint}
use go_geodiff.Changeset.Types.{
  Value, undefined, int, double, text, blob, null, OperationType, insert, update, delete, other,
  column_count, ChangesetEntry,
}
use go_geodiff.Changeset.Reader.{
  Reader, Read, continue, ◌>>=◌, ◌>>◌, pure, reader_error, read_byte, read_varint, until_nul,
  read_null_terminated_string, read_slice, big_endian, read_typed, read_value, read_values,
  read_row_values, set_flags, read_flags, read_table_record, finish_entry, read_entry,
}

-- The errors that the reader reports.
abbrev pub IsReaderError : Error → Type 0
IsReaderError (read_past_end n) = Unit {0}
IsReaderError (unknown_entry_type n) = Unit {0}
IsReaderError (unexpected_value_type n) = Unit {0}
IsReaderError (too_many_columns n) = Unit {0}
IsReaderError (bad_length n e) = Unit {0}
IsReaderError _ = ⊥

-- What every method keeps: the buffer, and an offset that does not fall; its errors are the reader's.
abbrev pub Moves : {A : Type 0} → ℕ → Reader → Result A × Reader → Type 0
Moves k r (ok a, r') = (r'.buf ≡ r.buf) × (r.offset + k ≤ r'.offset)
Moves k r (err e, r') = IsReaderError e

-- A read that moves `k` bytes forward at least, from wherever it starts.
pub record Forward {A : Type 0} (k : ℕ) (m : Read A) : Type 0 where
  pub runs : (r : Reader) → Moves k r (m r)

-- One read after another.
continue-Moves :
    {A B : Type 0} (k : ℕ) (r : Reader) (f : A → Read B) (a : Result A) (r' : Reader)
    → Moves k r (a, r')
    → ((x : A) → Forward 0 (f x))
    → Moves k r (continue a f r')
continue-Moves k r f (err e) r' h hf = h
continue-Moves {B = B} k r f (ok x) r' h hf = after (f x r') ((hf x).runs r')
  where
    after : (res : Result B × Reader) → Moves 0 r' res → Moves k r res
    after (ok b, r2) p = (p.0 ∙ h.0, omega (arith, p.1, h.1))
    after (err e, r2) p = p

bind-Forward :
    {A B : Type 0} (k : ℕ) (m : Read A) (f : A → Read B)
    → Forward k m
    → ((x : A) → Forward 0 (f x))
    → Forward k (m >>= f)
bind-Forward k m f hm hf = record {
  runs = λ r. continue-Moves k r f (m r).0 (m r).1 (hm.runs r) hf;
}

pure-Forward : {A : Type 0} (a : A) → Forward 0 (pure a)
pure-Forward a = record { runs = λ r. (refl, omega arith) }

if-Forward :
    {A : Type 0} (b : Bool) (m n : Read A)
    → Forward 0 m
    → Forward 0 n
    → Forward 0 (if b then m else n)
if-Forward true m n hm hn = hm
if-Forward false m n hm hn = hn

error-Forward :
    (A : Type 0) (k : ℕ) (e : ℕ → Error)
    → ((n : ℕ) → IsReaderError (e n))
    → Forward k (reader_error {A = A} e)
error-Forward A k e h = record { runs = λ r. h r.offset }

pub read_byte-Forward : Forward 1 read_byte
unfolding read_byte
read_byte-Forward = record { runs = λ r. go r (get_elem? r.buf r.offset) }
  where
    go :
        (r : Reader) (o : Option ℕ)
        → Moves {A = ℕ} 1 r (elim o [
          | none ↦ reader_error read_past_end r
          | some b ↦ (ok b, record r { offset = r.offset + 1 })
        ])
    go r none = tt
    go r (some b) = (refl, omega arith)

read_varint-Forward : Forward 0 read_varint
unfolding read_varint
read_varint-Forward = record { runs = λ r. go r (get_varint r.buf r.offset) }
  where
    go :
        (r : Reader) (v : Result (ℕ × ℕ))
        → Moves {A = ℕ} 0 r (elim v [
          | err e ↦ (err (bad_length r.offset e), r)
          | ok (v, n) ↦ (ok v, record r { offset = r.offset + n })
        ])
    go r (err e) = tt
    go r (ok (v, n)) = (refl, omega arith)

read_name-Forward : Forward 0 read_null_terminated_string
unfolding read_null_terminated_string
read_name-Forward = record { runs = λ r. go r (until_nul (drop r.offset r.buf)) }
  where
    go :
        (r : Reader) (o : Option Bytes)
        → Moves {A = Bytes} 0 r (elim o [
          | none ↦
              reader_error read_past_end
                (record r { offset = r.offset + length (drop r.offset r.buf) })
          | some s ↦ (ok s, record r { offset = r.offset + length s + 1 })
        ])
    go r none = tt
    go r (some s) = (refl, omega arith)

read_slice-Forward : (n : ℕ) → Forward 0 (read_slice n)
unfolding read_slice
read_slice-Forward n = record {
  runs = λ r. elim (Bool-cases (ltb (length r.buf) (r.offset + n))) [
    | inl e ↦ rw e (tt)
    | inr e ↦ rw e (refl, omega arith)
  ];
}

-- The two shapes of a typed value.
fixed-Forward : (mk : ℕ → Value) → Forward 0 (do bs ← read_slice 8; pure (mk (big_endian 0 bs)))
fixed-Forward mk =
    bind-Forward 0 _ _ (read_slice-Forward 8) (λ bs. pure-Forward (mk (big_endian 0 bs)))

counted-Forward :
    (mk : Bytes → Value) → Forward 0 (do n ← read_varint; bs ← read_slice n; pure (mk bs))
counted-Forward mk =
    bind-Forward 0 _ _ read_varint-Forward
      (λ n. bind-Forward 0 _ _ (read_slice-Forward n) (λ bs. pure-Forward (mk bs)))

typed-Forward : (typ : ℕ) → Forward 0 (read_typed typ)
unfolding read_typed
typed-Forward typ = if-Forward (typ == 1) _ _ (fixed-Forward int) (
    if-Forward (typ == 2) _ _ (fixed-Forward double) (
      if-Forward (typ == 3) _ _ (counted-Forward text) (
        if-Forward (typ == 4) _ _ (counted-Forward blob) (
          if-Forward (typ == 5) _ _ (pure-Forward null) (
            if-Forward (typ == 0) _ _ (pure-Forward undefined)
              (error-Forward Value 0 unexpected_value_type (λ n. tt)))))))

weaken : {A : Type 0} (k : ℕ) (m : Read A) → Forward k m → Forward 0 m
weaken {A = A} k m h = record { runs = λ r. go r (m r) (h.runs r) }
  where
    go : (r : Reader) (res : Result A × Reader) → Moves k r res → Moves 0 r res
    go r (ok a, r') p = (p.0, omega (arith, p.1))
    go r (err e, r') p = p

value-Forward : Forward 0 read_value
unfolding read_value
value-Forward = bind-Forward 0 read_byte _ (weaken 1 read_byte read_byte-Forward) typed-Forward

values-Forward : (n : ℕ) → Forward 0 (read_values n)
unfolding read_values
values-Forward zero = pure-Forward []
values-Forward (suc n) =
    bind-Forward 0 read_value _ value-Forward
      (λ v. bind-Forward 0 (read_values n) _ (values-Forward n) (λ vs. pure-Forward (v ∷ vs)))

row-Forward : Forward 0 read_row_values
unfolding read_row_values
row-Forward = record { runs = λ r. (values-Forward (column_count r.current_table)).runs r }

flags-Forward : (k : ℕ) (done : List Bool) → Forward 0 (read_flags k done)
unfolding read_flags
flags-Forward zero done = pure-Forward tt
flags-Forward (suc k) done = bind-Forward 0 read_byte _ (weaken 1 read_byte read_byte-Forward) (λ b.
    record {
      runs = λ r.
          (flags-Forward k (done ++ (not (b == 0) ∷ []))).runs
            (set_flags (done ++ (not (b == 0) ∷ replicate k false)) r);
    })

step-Forward :
    (f : Reader → Reader)
    → ((r : Reader) → ((f r).buf ≡ r.buf) × ((f r).offset ≡ r.offset))
    → Forward 0 (λ r. (ok tt, f r))
step-Forward f h = record { runs = λ r. ((h r).0, omega (arith, (h r).1)) }

pub table-Forward : Forward 0 read_table_record
unfolding read_table_record
table-Forward = bind-Forward 0 _ _ read_varint-Forward (λ n.
    if-Forward (ltb 65536 n) _ _ (error-Forward (Unit {0}) 0 too_many_columns (λ k. tt)) (
      bind-Forward 0 _ _ (step-Forward _ (λ r. (refl, refl))) (λ _.
        bind-Forward 0 _ _ (flags-Forward n []) (λ _. bind-Forward 0 _ _ read_name-Forward (λ name.
          step-Forward (λ r. record r { current_table = record r.current_table { name = name } })
            (λ r. (refl, refl)))))))

-- A read that moves forward, and answers with an entry wherever it succeeds.
abbrev pub Delivers : Reader → Result (Option ChangesetEntry) × Reader → Type 0
Delivers r (ok none, r') = ⊥
Delivers r res = Moves 0 r res

pub record Entry (m : Read (Option ChangesetEntry)) : Type 0 where
  pub delivers : (r : Reader) → Delivers r (m r)

continue-Delivers :
    {A : Type 0} (r : Reader) (f : A → Read (Option ChangesetEntry)) (a : Result A) (r' : Reader)
    → Moves 0 r (a, r')
    → ((x : A) → Entry (f x))
    → Delivers r (continue a f r')
continue-Delivers r f (err e) r' h hf = h
continue-Delivers r f (ok x) r' h hf = after (f x r') ((hf x).delivers r')
  where
    after : (res : Result (Option ChangesetEntry) × Reader) → Delivers r' res → Delivers r res
    after (ok none, r2) p = p
    after (ok (some e), r2) p = (p.0 ∙ h.0, omega (arith, p.1, h.1))
    after (err e, r2) p = p

bind-Entry :
    {A : Type 0} (m : Read A) (f : A → Read (Option ChangesetEntry))
    → Forward 0 m
    → ((x : A) → Entry (f x))
    → Entry (m >>= f)
bind-Entry m f hm hf = record {
  delivers = λ r. continue-Delivers r f (m r).0 (m r).1 (hm.runs r) hf;
}

finish-Entry : (op : OperationType) (olds news : List Value) → Entry (finish_entry op olds news)
finish-Entry op olds news = record { delivers = λ r. (refl, omega arith) }

after_flag : (m : Read (Option ChangesetEntry)) → Entry m → Entry (read_byte >> m)
after_flag m h = bind-Entry _ _ (weaken 1 read_byte read_byte-Forward) (λ _. h)

two_rows :
    (op : OperationType)
    → Entry
        (do read_byte; olds ← read_row_values; news ← read_row_values; finish_entry op olds news)
two_rows op = after_flag _ (
    bind-Entry _ _ row-Forward
      (λ olds. bind-Entry _ _ row-Forward (λ news. finish-Entry op olds news)))

pub read_entry-Entry : (op : OperationType) → Entry (read_entry op)
unfolding read_entry
read_entry-Entry insert =
    after_flag _ (bind-Entry _ _ row-Forward (λ news. finish-Entry insert [] news))
read_entry-Entry delete =
    after_flag _ (bind-Entry _ _ row-Forward (λ olds. finish-Entry delete olds []))
read_entry-Entry update = two_rows update
read_entry-Entry (other b) = two_rows (other b)
