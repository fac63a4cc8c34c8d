-- ===== src/Changeset/Writer.antt =====
-- changeset/writer.go: the writer of the binary changeset format. The destination is the list of the
-- bytes written so far; a destination that refuses a write is not modelled. A method maps the
-- writer to its result and the writer that it leaves, on an error too.
pub mod Encoding
use go_geodiff.Common.{
  ℕ, ◌+◌, ◌/◌, ◌%◌, ◌^◌, Bool, true, false, not, List, [], ◌∷◌, ◌++◌, ◌==◌, if◌then◌else◌, Bytes,
  length,
}
use go_geodiff.Result.{Result, ok, err, wrong_op, wrong_number_of_rows}
use go_geodiff.Varint.{put_varint}
use go_geodiff.Changeset.Types.{
  Value, undefined, int, double, text, blob, null, type_of, type_byte, OperationType, insert,
  update, delete, other, op_byte, ChangesetTable, empty_table, column_count, ChangesetEntry,
}

pub record Writer : Type 0 where
  pub out : Bytes
  pub current_table : ChangesetTable

abbrev pub new_writer : Writer
new_writer = record { out = []; current_table = empty_table }

abbrev pub Write : Type 0
Write = Writer → Result (Unit {0}) × Writer

abbrev pub continue : Result (Unit {0}) → Write → Write
continue (ok u) k w = k w
continue (err e) k w = (err e, w)

infixl 5 ◌>>◌
abbrev pub ◌>>◌ : Write → Write → Write
◌>>◌ m k w = continue (m w).0 k (m w).1

abbrev pub done : Write
done w = (ok tt, w)

-- `w.writer().Write(bs)`
unfoldable pub write_bytes : Bytes → Write
write_bytes bs w = (ok tt, record w { out = w.out ++ bs })

abbrev pub write_byte : ℕ → Write
write_byte c = write_bytes (c ∷ [])

-- `uint32(n)` wraps.
abbrev pub write_varint : ℕ → Write
write_varint n = write_bytes (put_varint (n % 2 ^ 32))

unfoldable pub write_null_terminated_string : Bytes → Write
write_null_terminated_string s = do write_bytes s; write_bytes (0 ∷ [])

-- `binary.BigEndian.PutUint64`
abbrev pub be_bytes : ℕ → Bytes
be_bytes n =
    n / 2 ^ 56 % 256
    ∷ n / 2 ^ 48 % 256
    ∷ n / 2 ^ 40 % 256
    ∷ n / 2 ^ 32 % 256
    ∷ n / 2 ^ 24 % 256
    ∷ n / 2 ^ 16 % 256
    ∷ n / 2 ^ 8 % 256
    ∷ n % 256
    ∷ []

-- The switch of `writeRowValues`.
unfoldable pub write_payload : Value → Write
write_payload (int n) = write_bytes (be_bytes n)
write_payload (double f) = write_bytes (be_bytes f)
write_payload (text s) = do write_varint (length s); write_bytes s
write_payload (blob b) = do write_varint (length b); write_bytes b
write_payload null = done
write_payload undefined = done

unfoldable pub write_values : List Value → Write
write_values [] = done
write_values (v ∷ vs) = do write_byte (type_byte (type_of v)); write_payload v; write_values vs

unfoldable pub write_row_values : List Value → Write
write_row_values values w =
    if not (length values == column_count w.current_table)
    then (err wrong_number_of_rows, w)
    else write_values values w

unfoldable pub write_flags : List Bool → Write
write_flags [] = done
write_flags (pk ∷ pks) = do write_byte (if pk then 1 else 0); write_flags pks

unfoldable pub begin_table : ChangesetTable → Write
begin_table table = do
  λ w. (ok tt, record w { current_table = table })
  write_byte b'T'
  write_varint (column_count table)
  write_flags table.primary_keys
  write_null_terminated_string table.name

unfoldable pub write_body : OperationType → ChangesetEntry → Write
write_body insert e = do write_byte 18; write_byte 0; write_row_values e.new_values
write_body delete e = do write_byte 9; write_byte 0; write_row_values e.old_values
write_body update e = do
  write_byte 23
  write_byte 0
  write_row_values e.old_values
  write_row_values e.new_values
write_body (other b) e = λ w. (err wrong_op, w)

unfoldable pub write_entry : ChangesetEntry → Write
write_entry e = write_body e.op e
