-- ===== src/Changeset/Writer/Encoding.antt =====
-- The bytes that the writer's methods append, as functions of what is written.
use go_geodiff.Common.{
  ℕ, ◌%◌, ◌^◌, ◌≡◌, refl, arith, Bool, true, List, [], ◌∷◌, ◌++◌, ◌==◌, if◌then◌else◌, Bytes,
  length, append-nil, append_assoc,
}
use go_geodiff.Result.{Result, ok}
use go_geodiff.Varint.{put_varint}
use go_geodiff.Changeset.Types.{
  Value, undefined, int, double, text, blob, null, type_of, type_byte, OperationType, insert,
  update, delete, other, op_byte, ChangesetTable, column_count, ChangesetEntry,
}
use go_geodiff.Changeset.Writer.{
  Writer, write_bytes, write_null_terminated_string, be_bytes, write_payload, write_values,
  write_row_values, write_flags, begin_table, write_body, write_entry,
}

abbrev pub varint_bytes : ℕ → Bytes
varint_bytes n = put_varint (n % 2 ^ 32)

abbrev pub payload_bytes : Value → Bytes
payload_bytes (int n) = be_bytes n
payload_bytes (double f) = be_bytes f
payload_bytes (text s) = varint_bytes (length s) ++ s
payload_bytes (blob b) = varint_bytes (length b) ++ b
payload_bytes null = []
payload_bytes undefined = []

abbrev pub value_bytes : Value → Bytes
value_bytes v = type_byte (type_of v) ∷ payload_bytes v

unfoldable pub values_bytes : List Value → Bytes
values_bytes [] = []
values_bytes (v ∷ vs) = value_bytes v ++ values_bytes vs

unfoldable pub flags_bytes : List Bool → Bytes
flags_bytes [] = []
flags_bytes (pk ∷ pks) = (if pk then 1 else 0) ∷ flags_bytes pks

unfoldable pub table_bytes : ChangesetTable → Bytes
table_bytes t =
    b'T' ∷ (varint_bytes (column_count t) ++ (flags_bytes t.primary_keys ++ (t.name ++ (0 ∷ []))))

unfoldable pub row_bytes : OperationType → List Value → List Value → Bytes
row_bytes insert olds news = values_bytes news
row_bytes delete olds news = values_bytes olds
row_bytes _ olds news = values_bytes olds ++ values_bytes news

unfoldable pub entry_bytes : ChangesetEntry → Bytes
entry_bytes e = op_byte e.op ∷ 0 ∷ row_bytes e.op e.old_values e.new_values

-- `m` succeeds from every writer for this table and appends `bs`.
abbrev pub appended : Writer → Bytes → Result (Unit {0}) × Writer
appended w bs = (ok tt, record w { out = w.out ++ bs })

abbrev extend : Writer → Bytes → Writer
extend w bs = record w { out = w.out ++ bs }

write_payload-appends : (v : Value) (w : Writer) → write_payload v w ≡ appended w (payload_bytes v)
unfolding write_payload write_bytes
write_payload-appends (int n) w = refl
write_payload-appends (double f) w = refl
write_payload-appends (text s) w = rw append_assoc
write_payload-appends (blob b) w = rw append_assoc
write_payload-appends null w = rw append-nil
write_payload-appends undefined w = rw append-nil

pub write_values-appends :
    (vs : List Value) (w : Writer) → write_values vs w ≡ appended w (values_bytes vs)
unfolding write_values values_bytes write_bytes
write_values-appends [] w = rw append-nil
write_values-appends (v ∷ vs) w =
    rw
      (
        write_payload-appends v (extend w (type_byte (type_of v) ∷ [])),
        write_values-appends vs (extend (extend w (type_byte (type_of v) ∷ [])) (payload_bytes v)),
      )
      (simp append_assoc)

write_flags-appends :
    (pks : List Bool) (w : Writer) → write_flags pks w ≡ appended w (flags_bytes pks)
unfolding write_flags write_bytes flags_bytes
write_flags-appends [] w = rw append-nil
write_flags-appends (pk ∷ pks) w =
    rw (write_flags-appends pks (extend w ((if pk then 1 else 0) ∷ [])), append_assoc)

-- `BeginTable` always succeeds, makes the table current, and appends its record.
pub begin_table-appends :
    (t : ChangesetTable) (w : Writer)
    → begin_table t w ≡ (ok tt, record { out = w.out ++ table_bytes t; current_table = t })
unfolding begin_table write_bytes write_null_terminated_string table_bytes
begin_table-appends t w =
    rw
      (write_flags-appends t.primary_keys (record {
        out = (w.out ++ (b'T' ∷ [])) ++ varint_bytes (column_count t);
        current_table = t;
      }))
      (simp append_assoc)

module _ (w : Writer) where
  write_row_values-appends :
      (vs : List Value)
      → length vs ≡ column_count w.current_table
      → write_row_values vs w ≡ appended w (values_bytes vs)
  unfolding write_row_values
  write_row_values-appends vs h = rw h_true (write_values-appends vs w)
    where
      h_true : (length vs == column_count w.current_table) ≡ true
      h_true = ground arith

-- The values of an entry are as many as the current table has columns.
abbrev pub Counted : ℕ → OperationType → List Value → List Value → Type 0
Counted n insert olds news = length news ≡ n
Counted n delete olds news = length olds ≡ n
Counted n update olds news = (length olds ≡ n) × (length news ≡ n)
Counted n (other b) olds news = ⊥

abbrev pub IsCounted : ℕ → ChangesetEntry → Type 0
IsCounted n e = Counted n e.op e.old_values e.new_values

write_body-appends :
    (op : OperationType) (e : ChangesetEntry) (w : Writer)
    → Counted (column_count w.current_table) op e.old_values e.new_values
    → write_body op e w ≡ appended w (op_byte op ∷ 0 ∷ row_bytes op e.old_values e.new_values)
unfolding write_body write_bytes row_bytes
write_body-appends insert e w h =
    rw (write_row_values-appends (extend (extend w (18 ∷ [])) (0 ∷ [])) e.new_values h)
      (simp append_assoc)
write_body-appends delete e w h =
    rw (write_row_values-appends (extend (extend w (9 ∷ [])) (0 ∷ [])) e.old_values h)
      (simp append_assoc)
write_body-appends update e w h =
    rw
      (
        write_row_values-appends (extend (extend w (23 ∷ [])) (0 ∷ [])) e.old_values h.0,
        write_row_values-appends
            (extend (extend (extend w (23 ∷ [])) (0 ∷ [])) (values_bytes e.old_values)) e.new_values
            h.1,
      )
      (simp append_assoc)
write_body-appends (other b) e w h = absurd h

-- An entry with as many values as the current table has columns is written: its bytes are appended.
pub write_entry-appends :
    (e : ChangesetEntry) (w : Writer)
    → IsCounted (column_count w.current_table) e
    → write_entry e w ≡ appended w (entry_bytes e)
unfolding write_entry entry_bytes
write_entry-appends e w h = write_body-appends e.op e w h
