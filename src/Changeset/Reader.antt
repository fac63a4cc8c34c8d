-- ===== src/Changeset/Reader.antt =====
-- changeset/reader.go: the reader of the binary changeset format. A method maps the reader to its
-- result and the reader that it leaves, on an error too. `NewReader` loads the whole file before
-- anything is read, so the reader starts from the file's bytes; opening the file is not modelled.
pub mod Steps
pub mod Records
pub mod Forward
pub mod Total
pub mod Invariant
use go_geodiff.Common.{
  ℕ, zero, suc, ◌+◌, ◌*◌, Bool, true, false, ◌||◌, not, List, [], ◌∷◌, ◌++◌, ◌==◌, ltb, leb,
  if◌then◌else◌, Bytes, length, take, drop, replicate, get_elem?, Option, none, some,
}
use go_geodiff.Result.{
  Error, Result, ok, err, read_past_end, unknown_entry_type, unexpected_value_type,
  too_many_columns, bad_length, out_of_fuel,
}
use go_geodiff.Varint.{get_varint}
use go_geodiff.Changeset.Types.{
  Value, undefined, int, double, text, blob, null, OperationType, insert, update, delete,
  ChangesetTable, empty_table, column_count, ChangesetEntry,
}

pub record Reader : Type 0 where
  pub buf : Bytes
  pub offset : ℕ
  pub current_table : ChangesetTable

abbrev pub new_reader : Bytes → Reader
new_reader buf = record { buf = buf; offset = 0; current_table = empty_table }

abbrev pub Read : Type 0 → Type 0
Read A = Reader → Result A × Reader

module _ {A B : Type 0} where
  abbrev pub continue : Result A → (A → Read B) → Read B
  continue (ok a) f r = f a r
  continue (err e) f r = (err e, r)

  infixl 5 ◌>>=◌ ◌>>◌
  abbrev pub ◌>>=◌ : Read A → (A → Read B) → Read B
  ◌>>=◌ m f r = continue (m r).0 f (m r).1

  abbrev pub ◌>>◌ : Read A → Read B → Read B
  m >> k = m >>= λ _. k

abbrev pub pure : {A : Type 0} → A → Read A
pure a r = (ok a, r)

-- `r.readerError`: the error carries the offset.
abbrev pub reader_error : {A : Type 0} → (ℕ → Error) → Read A
reader_error e r = (err (e r.offset), r)

abbrev pub is_empty : Reader → Bool
is_empty r = length r.buf == 0

abbrev pub rewind : Reader → Reader
rewind r = record r { offset = 0; current_table = empty_table }

abbrev pub close : Reader → Reader
close r = record r { buf = [] }

unfoldable pub read_byte : Read ℕ
read_byte r = elim (get_elem? r.buf r.offset) [
  | none ↦ reader_error read_past_end r
  | some b ↦ (ok b, record r { offset = r.offset + 1 })
]

unfoldable pub read_varint : Read ℕ
read_varint r = elim (get_varint r.buf r.offset) [
  | err e ↦ (err (bad_length r.offset e), r)
  | ok (v, n) ↦ (ok v, record r { offset = r.offset + n })
]

-- The bytes in front of the first NUL, if there is one.
unfoldable pub until_nul : Bytes → Option Bytes
until_nul [] = none
until_nul (b ∷ bs) =
    let rest = until_nul bs in
    if b == 0 then some [] else elim rest [ none ↦ none | some s ↦ some (b ∷ s) ]

-- On an error the loop has moved the offset to the end of the buffer.
unfoldable pub read_null_terminated_string : Read Bytes
read_null_terminated_string r = elim (until_nul (drop r.offset r.buf)) [
  | none ↦
      reader_error read_past_end (record r { offset = r.offset + length (drop r.offset r.buf) })
  | some s ↦ (ok s, record r { offset = r.offset + length s + 1 })
]

-- `r.buf[r.offset : r.offset+n]`, behind the test that every use of it makes.
unfoldable pub read_slice : ℕ → Read Bytes
read_slice n r =
    if ltb (length r.buf) (r.offset + n)
    then reader_error read_past_end r
    else (ok (take n (drop r.offset r.buf)), record r { offset = r.offset + n })

-- `binary.BigEndian.Uint64`
unfoldable pub big_endian : ℕ → Bytes → ℕ
big_endian acc [] = acc
big_endian acc (b ∷ bs) = big_endian (acc * 256 + b) bs

-- The switch of `readRowValues`, on the byte that stands for the type.
unfoldable pub read_typed : ℕ → Read Value
read_typed typ =
    if typ == 1
    then (do bs ← read_slice 8; pure (int (big_endian 0 bs)))
    else if typ == 2
    then (do bs ← read_slice 8; pure (double (big_endian 0 bs)))
    else if typ == 3
    then (do n ← read_varint; bs ← read_slice n; pure (text bs))
    else if typ == 4
    then (do n ← read_varint; bs ← read_slice n; pure (blob bs))
    else if typ == 5
    then pure null
    else if typ == 0
    then pure undefined
    else reader_error unexpected_value_type

unfoldable pub read_value : Read Value
read_value = do typ ← read_byte; read_typed typ

-- The loop of `readRowValues` over the columns left.
unfoldable pub read_values : ℕ → Read (List Value)
read_values zero = pure []
read_values (suc k) = do v ← read_value; vs ← read_values k; pure (v ∷ vs)

unfoldable pub read_row_values : Read (List Value)
read_row_values r = read_values (column_count r.current_table) r

abbrev pub set_flags : List Bool → Reader → Reader
set_flags pks r = record r { current_table = record r.current_table { primary_keys = pks } }

-- The loop over the flags: `done` are read, and the `k` that are left are still false.
unfoldable pub read_flags : ℕ → List Bool → Read (Unit {0})
read_flags zero done = pure tt
read_flags (suc k) done = do
  b ← read_byte
  λ r.
      read_flags k (done ++ (not (b == 0) ∷ []))
        (set_flags (done ++ (not (b == 0) ∷ replicate k false)) r)

unfoldable pub read_table_record : Read (Unit {0})
read_table_record = do
  n_col ← read_varint
  if ltb 65536 n_col then reader_error too_many_columns else do
    λ r. (ok tt, set_flags (replicate n_col false) r)
    read_flags n_col []
    name ← read_null_terminated_string
    λ r. (ok tt, record r { current_table = record r.current_table { name = name } })

abbrev finish_entry : OperationType → List Value → List Value → Read (Option ChangesetEntry)
finish_entry op olds news r = (
  ok (some (record { op = op; old_values = olds; new_values = news; table = r.current_table })),
  r,
)

-- The indirect flag, OLD unless it is an INSERT, NEW unless it is a DELETE. `r.currentTable` does not
-- change in between, so the entry can take it at the end.
unfoldable pub read_entry : OperationType → Read (Option ChangesetEntry)
read_entry insert = do read_byte; news ← read_row_values; finish_entry insert [] news
read_entry delete = do read_byte; olds ← read_row_values; finish_entry delete olds []
read_entry op = do
  read_byte
  olds ← read_row_values
  news ← read_row_values
  finish_entry op olds news

-- One round of `NextEntry` behind its type byte; `rest` is the next round.
unfoldable pub read_record : Read (Option ChangesetEntry) → ℕ → Read (Option ChangesetEntry)
read_record rest typ =
    if typ == b'T'
    then (read_table_record >> rest)
    else if typ == 18
    then read_entry insert
    else if typ == 23
    then read_entry update
    else if typ == 9
    then read_entry delete
    else reader_error unknown_entry_type

-- `NextEntry`; the fuel counts the rounds of its `for`. A round that goes on has read a table record.
unfoldable pub next_loop : ℕ → Read (Option ChangesetEntry)
next_loop zero r = (err out_of_fuel, r)
next_loop (suc fuel) r =
    if leb (length r.buf) r.offset
    then (ok none, r)
    else (read_byte >>= read_record (next_loop fuel)) r

unfoldable pub next_entry : Read (Option ChangesetEntry)
next_entry r = next_loop (suc (length r.buf)) r

-- The loop that every client writes around `NextEntry`: `body` for each entry, until the end or the
-- first error. The state that the body has reached comes back beside an error too.
abbrev pub after_body :
    {S : Type 0} → Result (Unit {0}) × S → (S → Result (Unit {0}) × S) → Result (Unit {0}) × S
after_body (ok u, s) next = next s
after_body (err x, s) next = (err x, s)

module _ {S : Type 0} (body : ChangesetEntry → S → Result (Unit {0}) × S) where
  abbrev pub after_entry :
      Result (Option ChangesetEntry) × Reader
      → S
      → (Reader → S → Result (Unit {0}) × S)
      → Result (Unit {0}) × S
  after_entry (err e, r) s next = (err e, s)
  after_entry (ok none, r) s next = (ok tt, s)
  after_entry (ok (some e), r) s next = after_body (body e s) (next r)

  unfoldable pub for_each_loop : ℕ → Reader → S → Result (Unit {0}) × S
  for_each_loop zero r s = (err out_of_fuel, s)
  for_each_loop (suc fuel) r s = after_entry (next_entry r) s (for_each_loop fuel)

  unfoldable pub for_each : Reader → S → Result (Unit {0}) × S
  for_each r s = for_each_loop (suc (length r.buf)) r s
