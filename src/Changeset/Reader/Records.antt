-- ===== src/Changeset/Reader/Records.antt =====
-- The reader on whole records: a table record, an entry, and the end of the buffer.
use go_geodiff.Common.{
  ℕ, suc, ◌+◌, ◌≤◌, ◌≡◌, ◌≢◌, refl, ap, ◌∙◌, arith, Bool, true, false, not, List, [], ◌∷◌, ◌++◌,
  ◌==◌, ltb, leb, if◌then◌else◌, Bytes, length, length-append, length-drop, replicate, append_assoc,
  All, none, some,
}
use mathlib.Core.Path.{ap₂}
use go_geodiff.Result.{ok}
use go_geodiff.Changeset.Types.{
  Value, OperationType, insert, update, delete, other, op_byte, ChangesetTable, column_count,
  ChangesetEntry,
}
use go_geodiff.Changeset.Writer.Encoding.{
  varint_bytes, values_bytes, flags_bytes, table_bytes, row_bytes, entry_bytes, Counted, IsCounted,
}
use go_geodiff.Changeset.Reader.{
  Reader, until_nul, read_null_terminated_string, read_row_values, read_flags, read_table_record,
  read_entry, read_record, next_loop,
}
use go_geodiff.Changeset.Reader.Steps.{
  At, At-advance, advance, Reads-byte, Reads-varint, Reads-values, FitsFormat,
}

abbrev state : Bytes → ℕ → Bytes → List Bool → Reader
state buf offset name pks = record {
  buf = buf;
  offset = offset;
  current_table = record { name = name; primary_keys = pks };
}

flag_byte : (pk : Bool) → not ((if pk then 1 else 0) == 0) ≡ pk
flag_byte true = refl
flag_byte false = refl

read_flags_lem :
    (pks done : List Bool) (buf : Bytes) (offset : ℕ) (name rest : Bytes)
    → At (state buf offset name (done ++ replicate (length pks) false)) (flags_bytes pks ++ rest)
    → read_flags (length pks) done (state buf offset name (done ++ replicate (length pks) false))
      ≡ (ok tt, state buf (offset + length (flags_bytes pks)) name (done ++ pks))
unfolding read_flags flags_bytes
read_flags_lem [] done buf offset name rest h =
    ap (λ n. (ok tt, state buf n name (done ++ []))) (omega arith)
read_flags_lem (pk ∷ pks) done buf offset name rest h =
    let here : Reader = state buf offset name (done ++ (false ∷ replicate (length pks) false)) in
    let b : ℕ = if pk then 1 else 0 in
    let moved = At-advance here (b ∷ []) (flags_bytes pks ++ rest) h in
    rw
      (
        Reads-byte b here (flags_bytes pks ++ rest) h,
        flag_byte pk,
        ← append_assoc done (pk ∷ []) (replicate (length pks) false),
      )
      (read_flags_lem pks (done ++ (pk ∷ [])) buf (offset + 1) name rest
          (record { inside = moved.inside; ahead = moved.ahead })
        ∙ ap₂ (λ n ks. (ok tt, state buf n name ks)) (omega arith)
            (append_assoc done (pk ∷ []) pks))

-- A name that a NUL can end.
abbrev pub HasNoNul : Bytes → Type 0
HasNoNul name = All (λ b. b ≢ 0) name

until_nul_lem : (name rest : Bytes) → HasNoNul name → until_nul (name ++ (0 ∷ rest)) ≡ some name
unfolding until_nul
until_nul_lem [] rest h = refl
until_nul_lem (b ∷ name) rest h = ground (arith, until_nul_lem name rest)

read_name :
    (r : Reader) (name rest : Bytes)
    → HasNoNul name
    → At r ((name ++ (0 ∷ [])) ++ rest)
    → read_null_terminated_string r ≡ (ok name, advance r (length (name ++ (0 ∷ []))))
unfolding read_null_terminated_string
read_name r name rest h a =
    rw (a.ahead, append_assoc, until_nul_lem name rest h, read_null_terminated_string)
      (ap (λ n. (ok name, record r { offset = n })) (omega (arith, length-append name (0 ∷ []))))

-- A table that the reader accepts.
abbrev pub IsReadable : ChangesetTable → Type 0
IsReadable t = (column_count t ≤ 65536) × HasNoNul t.name

abbrev table_tail : ChangesetTable → Bytes
table_tail t = varint_bytes (column_count t) ++ (flags_bytes t.primary_keys ++ (t.name ++ (0 ∷ [])))

read_table_record_lem :
    (t : ChangesetTable) (r : Reader) (rest : Bytes)
    → IsReadable t
    → At r (table_tail t ++ rest)
    → read_table_record r
      ≡ (ok tt, state r.buf (r.offset + length (table_tail t)) t.name t.primary_keys)
unfolding read_table_record
read_table_record_lem t r rest h a =
    let n = column_count t in
    let flags = flags_bytes t.primary_keys in
    let name = t.name ++ (0 ∷ []) in
    let a1 : At r (varint_bytes n ++ (flags ++ (name ++ rest))) =
      rw (append_assoc, append_assoc) at a in
    let a2 = At-advance r (varint_bytes n) (flags ++ (name ++ rest)) a1 in
    let o1 = r.offset + length (varint_bytes n) in
    let o2 = o1 + length flags in
    let blank = state r.buf o1 r.current_table.name (replicate n false) in
    let flagged = state r.buf o2 r.current_table.name t.primary_keys in
    let a2' : At blank (flags ++ (name ++ rest)) = record {
      inside = a2.inside;
      ahead = a2.ahead;
    } in
    let a3 = At-advance blank flags (name ++ rest) a2' in
    let a3' : At flagged (name ++ rest) = record { inside = a3.inside; ahead = a3.ahead } in
    let small : ltb 65536 n ≡ false = ground arith in
    rw
      (
        Reads-varint n (omega arith) r (flags ++ (name ++ rest)) a1,
        small,
        read_flags_lem t.primary_keys [] r.buf o1 r.current_table.name (name ++ rest) a2',
        read_name flagged t.name rest h.1 a3',
      )
      (ap (λ k. (ok tt, state r.buf k t.name t.primary_keys))
        (omega (arith, length-append (varint_bytes n) (flags ++ name), length-append flags name)))

At-more : (r : Reader) (b : ℕ) (bs : Bytes) → At r (b ∷ bs) → leb (length r.buf) r.offset ≡ false
At-more r b bs a = ground (arith, length-drop r.offset r.buf, ap (length {A = ℕ}) a.ahead, a.inside)

-- A round of `NextEntry` on a table record makes the table current and goes on behind it.
pub next_loop-table :
    (fuel : ℕ) (t : ChangesetTable) (r : Reader) (rest : Bytes)
    → IsReadable t
    → At r (table_bytes t ++ rest)
    → next_loop (suc fuel) r
      ≡ next_loop fuel
          (record { buf = r.buf; offset = r.offset + length (table_bytes t); current_table = t })
unfolding next_loop read_record table_bytes
next_loop-table fuel t r rest h a =
    let a1 = At-advance r (b'T' ∷ []) (table_tail t ++ rest) a in
    rw
      (
        At-more r _ _ a,
        Reads-byte b'T' r (table_tail t ++ rest) a,
        read_table_record_lem t (advance r 1) rest h a1,
      )
      (ap (λ k. next_loop fuel (state r.buf k t.name t.primary_keys)) (omega arith))

-- What a reader makes of an entry: the slice that its operation does not use is empty, and the table
-- is the current one.
abbrev pub stored : OperationType → List Value → List Value → ChangesetTable → ChangesetEntry
stored insert olds news t = record { op = insert; old_values = []; new_values = news; table = t }
stored delete olds news t = record { op = delete; old_values = olds; new_values = []; table = t }
stored op olds news t = record { op = op; old_values = olds; new_values = news; table = t }

abbrev pub stored_entry : ChangesetTable → ChangesetEntry → ChangesetEntry
stored_entry t e = stored e.op e.old_values e.new_values t

-- The values that an entry's operation uses fit the format.
abbrev pub AllFit : OperationType → List Value → List Value → Type 0
AllFit insert olds news = All FitsFormat news
AllFit delete olds news = All FitsFormat olds
AllFit op olds news = All FitsFormat olds × All FitsFormat news

row_lem :
    (r : Reader) (vs : List Value) (rest : Bytes)
    → length vs ≡ column_count r.current_table
    → All FitsFormat vs
    → At r (values_bytes vs ++ rest)
    → read_row_values r ≡ (ok vs, advance r (length (values_bytes vs)))
unfolding read_row_values
row_lem r vs rest h fit a = rw (← h) (Reads-values vs fit r rest a)

read_entry_lem :
    (op : OperationType) (olds news : List Value) (r : Reader) (rest : Bytes)
    → Counted (column_count r.current_table) op olds news
    → AllFit op olds news
    → At r (0 ∷ row_bytes op olds news ++ rest)
    → read_entry op r ≡ (
      ok (some (stored op olds news r.current_table)),
      advance r (suc (length (row_bytes op olds news))),
    )
unfolding read_entry row_bytes
read_entry_lem insert olds news r rest c f a =
    rw
      (
        Reads-byte 0 r (values_bytes news ++ rest) a,
        row_lem (advance r 1) news rest c f (At-advance r (0 ∷ []) (values_bytes news ++ rest) a),
      )
      (ap (λ k. (ok (some (stored insert olds news r.current_table)), record r { offset = k }))
        (omega arith))
read_entry_lem delete olds news r rest c f a =
    rw
      (
        Reads-byte 0 r (values_bytes olds ++ rest) a,
        row_lem (advance r 1) olds rest c f (At-advance r (0 ∷ []) (values_bytes olds ++ rest) a),
      )
      (ap (λ k. (ok (some (stored delete olds news r.current_table)), record r { offset = k }))
        (omega arith))
read_entry_lem update olds news r rest c f a =
    let behind = values_bytes news ++ rest in
    let a0 : At r (0 ∷ (values_bytes olds ++ behind)) = rw append_assoc at a in
    let a1 = At-advance r (0 ∷ []) (values_bytes olds ++ behind) a0 in
    let a2 = At-advance (advance r 1) (values_bytes olds) behind a1 in
    rw
      (
        Reads-byte 0 r (values_bytes olds ++ behind) a0,
        row_lem (advance r 1) olds behind c.0 f.0 a1,
        row_lem (advance (advance r 1) (length (values_bytes olds))) news rest c.1 f.1 a2,
      )
      (ap (λ k. (ok (some (stored update olds news r.current_table)), record r { offset = k }))
        (omega (arith, length-append (values_bytes olds) (values_bytes news))))
read_entry_lem (other b) olds news r rest c f a = absurd c

next_loop-op :
    (fuel : ℕ) (op : OperationType) (olds news : List Value) (r : Reader) (rest : Bytes)
    → Counted (column_count r.current_table) op olds news
    → At r (op_byte op ∷ rest)
    → next_loop (suc fuel) r ≡ read_entry op (advance r 1)
unfolding next_loop read_record
next_loop-op fuel insert olds news r rest c a = rw (At-more r _ _ a, Reads-byte 18 r rest a)
next_loop-op fuel delete olds news r rest c a = rw (At-more r _ _ a, Reads-byte 9 r rest a)
next_loop-op fuel update olds news r rest c a = rw (At-more r _ _ a, Reads-byte 23 r rest a)
next_loop-op fuel (other b) olds news r rest c a = absurd c

-- A round of `NextEntry` on an entry that was written for the current table returns it.
pub next_loop-entry :
    (fuel : ℕ) (e : ChangesetEntry) (r : Reader) (rest : Bytes)
    → IsCounted (column_count r.current_table) e
    → AllFit e.op e.old_values e.new_values
    → At r (entry_bytes e ++ rest)
    → next_loop (suc fuel) r
      ≡ (ok (some (stored_entry r.current_table e)), advance r (length (entry_bytes e)))
unfolding entry_bytes
next_loop-entry fuel e r rest c f a =
    next_loop-op fuel e.op e.old_values e.new_values r _ c a
    ∙ read_entry_lem e.op e.old_values e.new_values (advance r 1) rest c f
        (At-advance r (op_byte e.op ∷ []) _ a)
    ∙ ap (λ k. (ok (some (stored_entry r.current_table e)), record r { offset = k })) (omega arith)

-- At the end of the buffer there is no entry.
pub next_loop-end : (fuel : ℕ) (r : Reader) → At r [] → next_loop (suc fuel) r ≡ (ok none, r)
unfolding next_loop
next_loop-end fuel r a = rw at_end
  where
    at_end : leb (length r.buf) r.offset ≡ true
    at_end = ground (arith, length-drop r.offset r.buf, ap (length {A = ℕ}) a.ahead, a.inside)
