-- ===== src/Changeset/Reader/Total.antt =====
-- `NextEntry` on any buffer, and the loops around it: they end.
use go_geodiff.Common.{
  ℕ, zero, suc, ◌-◌, ◌<◌, ◌≤◌, ◌≡◌, ◌≢◌, refl, ap, ◌∙◌, arith, ◌==◌, leb, length, Option, none,
  some, Bool-cases, inl, inr,
}
use go_geodiff.Result.{
  Error, Result, ok, err, out_of_fuel, read_past_end, unknown_entry_type, unexpected_value_type,
  too_many_columns, bad_length,
}
use go_geodiff.Changeset.Types.{insert, update, delete, ChangesetEntry}
use go_geodiff.Changeset.Reader.{
  Reader, continue, read_byte, read_table_record, read_record, next_loop, next_entry, after_body,
  after_entry, for_each_loop, for_each,
}
use go_geodiff.Changeset.Reader.Forward.{
  Moves, IsReaderError, Delivers, read_byte-Forward, table-Forward, read_entry-Entry,
}

-- What `NextEntry` answers, from any state: an error of the reader; or the end, with the offset behind the
-- last byte of the same buffer; or an entry, with the offset further on in it.
abbrev pub Answers : Reader → Result (Option ChangesetEntry) × Reader → Type 0
Answers r (err e, r') = IsReaderError e
Answers r (ok none, r') = (r'.buf ≡ r.buf) × (length r'.buf ≤ r'.offset)
Answers r (ok (some e), r') = (r'.buf ≡ r.buf) × (r.offset < r'.offset) × (r.offset < length r.buf)

-- The reader behind the type byte that it read in `r`.
abbrev Behind : Reader → Reader → Type 0
Behind r r1 = (r1.buf ≡ r.buf) × (r.offset < r1.offset) × (r.offset < length r.buf)

Delivers→Answers :
    (r r1 : Reader) (res : Result (Option ChangesetEntry) × Reader)
    → Behind r r1
    → Delivers r1 res
    → Answers r res
Delivers→Answers r r1 (err e, r') b h = h
Delivers→Answers r r1 (ok none, r') b h = absurd h
Delivers→Answers r r1 (ok (some e), r') b h = (h.0 ∙ b.0, omega (arith, h.1, b.1), b.2)

later→Answers :
    (r r1 : Reader) (res : Result (Option ChangesetEntry) × Reader)
    → Behind r r1
    → Answers r1 res
    → Answers r res
later→Answers r r1 (err e, r') b h = h
later→Answers r r1 (ok none, r') b h = (h.0 ∙ b.0, h.1)
later→Answers r r1 (ok (some e), r') b h = (h.0 ∙ b.0, omega (arith, h.1, b.1), b.2)

module _ (fuel : ℕ)
    (rest : (r : Reader) → length r.buf - r.offset < fuel → Answers r (next_loop fuel r)) where
  after_table :
      (r r1 : Reader) (t : Result (Unit {0}) × Reader)
      → Behind r r1
      → length r.buf - r.offset < suc fuel
      → Moves 0 r1 t
      → Answers r (continue t.0 (λ _. next_loop fuel) t.1)
  after_table r r1 (err e, r2) b lt h = h
  after_table r r1 (ok u, r2) b lt h =
      let fewer : length r2.buf - r2.offset < fuel =
        omega (arith, ap (length {A = ℕ}) (h.0 ∙ b.0), h.1, b.1, b.2, lt) in
      later→Answers r r2 (next_loop fuel r2) (h.0 ∙ b.0, omega (arith, h.1, b.1), b.2)
        (rest r2 fewer)

  after_type :
      (r r1 : Reader) (typ : ℕ)
      → Behind r r1
      → length r.buf - r.offset < suc fuel
      → Answers r (read_record (next_loop fuel) typ r1)
  unfolding read_record
  after_type r r1 typ b lt = elim (Bool-cases (typ == b'T')) [
    | inl e ↦ rw e (after_table r r1 (read_table_record r1) b lt (table-Forward.runs r1))
    | inr e ↦ elim (Bool-cases (typ == 18)) [
      | inl e1 ↦ rw (e, e1) (Delivers→Answers r r1 _ b ((read_entry-Entry insert).delivers r1))
      | inr e1 ↦ elim (Bool-cases (typ == 23)) [
        | inl e2 ↦
            rw (e, e1, e2) (Delivers→Answers r r1 _ b ((read_entry-Entry update).delivers r1))
        | inr e2 ↦ elim (Bool-cases (typ == 9)) [
          | inl e3 ↦
              rw (e, e1, e2, e3) (Delivers→Answers r r1 _ b ((read_entry-Entry delete).delivers r1))
          | inr e3 ↦ rw (e, e1, e2, e3) tt
        ]
      ]
    ]
  ]

  after_byte :
      (r : Reader) (t : Result ℕ × Reader)
      → r.offset < length r.buf
      → length r.buf - r.offset < suc fuel
      → Moves 1 r t
      → Answers r (continue t.0 (read_record (next_loop fuel)) t.1)
  after_byte r (err e, r1) inside lt h = h
  after_byte r (ok typ, r1) inside lt h = after_type r r1 typ (h.0, omega (arith, h.1), inside) lt

next_loop-Answers :
    (fuel : ℕ) (r : Reader) → length r.buf - r.offset < fuel → Answers r (next_loop fuel r)
unfolding next_loop
next_loop-Answers zero r lt = absurd (omega arith)
next_loop-Answers (suc fuel) r lt = elim (Bool-cases (leb (length r.buf) r.offset)) [
  | inl e ↦ rw e (refl, ground (arith, e))
  | inr e ↦ rw e (
      after_byte fuel (next_loop-Answers fuel) r (read_byte r) (ground arith) lt
        (read_byte-Forward.runs r))
]

-- From any state of the reader, and whatever its buffer holds, `NextEntry` ends: with one of the
-- reader's errors; or with the end, and then the offset is behind the last byte of the buffer; or with an
-- entry, and then the offset is further on. The buffer stays the same in the last two cases.
pub next_entry-Answers : (r : Reader) → Answers r (next_entry r)
unfolding next_entry
next_entry-Answers r = next_loop-Answers (suc (length r.buf)) r (omega arith)

-- An error of the reader does not say that fuel ran out.
err-Ends : (e : Error) → IsReaderError e → (r : Result (Unit {0})) → r ≡ err e → r ≢ err out_of_fuel
err-Ends (read_past_end n) h r p q = cc
err-Ends (unknown_entry_type n) h r p q = cc
err-Ends (unexpected_value_type n) h r p q = cc
err-Ends (too_many_columns n) h r p q = cc
err-Ends (bad_length n e) h r p q = cc
err-Ends _ h r p q = absurd h

module _ {S : Type 0} (body : ChangesetEntry → S → Result (Unit {0}) × S)
    (honest : (e : ChangesetEntry) (s : S) → (body e s).0 ≢ err out_of_fuel) where
  after_body-Ends :
      (b : Result (Unit {0}) × S) (next : S → Result (Unit {0}) × S)
      → b.0 ≢ err out_of_fuel
      → ((s : S) → (next s).0 ≢ err out_of_fuel)
      → (after_body b next).0 ≢ err out_of_fuel
  after_body-Ends (ok u, s) next h k = k s
  after_body-Ends (err e, s) next h k = h

  after_entry-Ends :
      (fuel : ℕ) (r : Reader) (s : S) (a : Result (Option ChangesetEntry) × Reader)
      → length r.buf - r.offset < suc fuel
      → Answers r a
      → ((r' : Reader) (s' : S)
          → length r'.buf - r'.offset < fuel
          → (for_each_loop body fuel r' s').0 ≢ err out_of_fuel)
      → (after_entry body a s (for_each_loop body fuel)).0 ≢ err out_of_fuel
  after_entry-Ends fuel r s (err e, r') lt h k = err-Ends e h _ refl
  after_entry-Ends fuel r s (ok none, r') lt h k = λ q. cc
  after_entry-Ends fuel r s (ok (some e), r') lt h k =
      after_body-Ends (body e s) (for_each_loop body fuel r') (honest e s)
        (λ s'. k r' s' (omega (arith, ap (length {A = ℕ}) h.0, h.1, h.2, lt)))

  for_each_loop-Ends :
      (fuel : ℕ) (r : Reader) (s : S)
      → length r.buf - r.offset < fuel
      → (for_each_loop body fuel r s).0 ≢ err out_of_fuel
  unfolding for_each_loop
  for_each_loop-Ends zero r s lt = absurd (omega arith)
  for_each_loop-Ends (suc fuel) r s lt =
      after_entry-Ends fuel r s (next_entry r) lt (next_entry-Answers r) (for_each_loop-Ends fuel)

  -- A loop around `NextEntry` whose body ends, ends on every buffer: its fuel is enough.
  pub for_each-Ends : (r : Reader) (s : S) → (for_each body r s).0 ≢ err out_of_fuel
  unfolding for_each
  for_each-Ends r s = for_each_loop-Ends (suc (length r.buf)) r s (omega arith)
