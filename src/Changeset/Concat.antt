-- ===== src/Changeset/Concat.antt =====
-- changeset/concat.go: `pkKey` and `ConcatChangesets`, from the bytes of the input files to those of the
-- output. Go's formatting of numbers and of hex is a parameter, and so are the orders in which the last
-- loops range over the maps. The file's buffering aside, an owned copy of an entry is the entry.
use go_geodiff.Common.{ℕ, Bool, true, false, List, [], ◌∷◌, ◌++◌, Bytes, codes, Option, none, some}
pub mod Refines
pub mod Tracks
use go_geodiff.Common.Maps.{Map, lookup, insert, remove, bytes_key}
use go_geodiff.Result.{Result, ok, err, index_panic, succeeded, ◌>>=◌}
use go_geodiff.Changeset.Types.{
  Value, undefined, int, double, text, blob, null, as_int, as_double, as_text, as_blob,
  OperationType, ChangesetTable, ChangesetEntry,
}
use go_geodiff.Changeset.Types
use go_geodiff.Changeset.Merge.{MergeResult, modified, removed, unsupported, merge_entries}
use go_geodiff.Changeset.Reader.{new_reader, for_each}
use go_geodiff.Changeset.Writer.{new_writer}
use go_geodiff.Changeset.Stream.{Group, write_groups}

pub record ConcatTable : Type 0 where
  pub table : ChangesetTable
  pub entries : Map Bytes ChangesetEntry

abbrev pub row_values : OperationType → ChangesetEntry → List Value
row_values Types.insert e = e.new_values
row_values _ e = e.old_values

abbrev pub owned : ChangesetTable → ChangesetEntry → ChangesetEntry
owned t e = record e { table = t }

-- What a merge leaves under the key: unsupported changes are dropped, the old one too.
abbrev pub store : Bytes → MergeResult → ConcatTable → ConcatTable
store key (modified e) ct = record ct { entries = insert key e ct.entries }
store key removed ct = record ct { entries = remove key ct.entries }
store key unsupported ct = record ct { entries = remove key ct.entries }

unfoldable pub concat_row : Bytes → ChangesetEntry → ConcatTable → Result ConcatTable
concat_row key e ct = elim (lookup key ct.entries) [
  | none ↦ ok (record ct { entries = insert key (owned ct.table e) ct.entries })
  | some existing ↦ (do merged ← merge_entries existing e; ok (store key merged ct))
]

abbrev pub table_or_new : ChangesetTable → Option ConcatTable → ConcatTable
table_or_new t none = record { table = t; entries = [] }
table_or_new t (some ct) = ct

abbrev pub Tables : Type 0
Tables = Map Bytes ConcatTable

abbrev pub put_back : Bytes → Result ConcatTable → Tables → Result (Unit {0}) × Tables
put_back name (err x) result = (err x, result)
put_back name (ok ct) result = (ok tt, insert name ct result)

module _ (format_int format_float : ℕ → Bytes) (bin_to_hex : Bytes → Bytes) where
  -- The bytes between the brackets.
  unfoldable pub key_part : Value → Bytes
  key_part (int n) = codes "I:" ++ format_int (as_int (int n)).0
  key_part (double f) = codes "D:" ++ format_float (as_double (double f)).0
  key_part (text s) = codes "T:" ++ (as_text (text s)).0
  key_part (blob b) = codes "B:" ++ bin_to_hex (as_blob (blob b)).0
  key_part null = codes "N"
  key_part undefined = codes "U"

  -- A column that is no key is not indexed, so a slice that is too short is only found at a key.
  unfoldable pub key_parts : List Bool → List Value → Result Bytes
  key_parts [] vs = ok []
  key_parts (true ∷ pks) [] = err index_panic
  key_parts (false ∷ pks) [] = key_parts pks []
  key_parts (true ∷ pks) (v ∷ vs) = do
    rest ← key_parts pks vs
    ok (codes "[" ++ (key_part v ++ (codes "]" ++ rest)))
  key_parts (false ∷ pks) (v ∷ vs) = key_parts pks vs

  unfoldable pub pk_key : ChangesetEntry → Result Bytes
  pk_key e = key_parts e.table.primary_keys (row_values e.op e)

  -- The body of the loop; a table that is new starts without entries.
  unfoldable pub concat_entry : ChangesetEntry → Tables → Result (Unit {0}) × Tables
  concat_entry e result =
      put_back e.table.name
        (do key ← pk_key e; concat_row key e (table_or_new e.table (lookup e.table.name result)))
        result

  unfoldable pub concat_files : List Bytes → Tables → Result Tables
  concat_files [] result = ok result
  concat_files (file ∷ files) result = do
    result' ← succeeded (for_each concat_entry (new_reader file) result)
    concat_files files result'

unfoldable pub values_of : {V : Type 0} → Map Bytes V → List V
values_of [] = []
values_of ((k, v) ∷ m) = v ∷ values_of m

module _ (format_int format_float : ℕ → Bytes) (bin_to_hex : Bytes → Bytes)
    (table_order : List ConcatTable → List ConcatTable)
    (entry_order : List ChangesetEntry → List ChangesetEntry) where
  unfoldable pub groups_of : List ConcatTable → List Group
  groups_of [] = []
  groups_of (ct ∷ cts) = (ct.table, entry_order (values_of ct.entries)) ∷ groups_of cts

  unfoldable pub concat_changesets : List Bytes → Result Bytes
  concat_changesets files = do
    result ← concat_files format_int format_float bin_to_hex files []
    writer ← succeeded (write_groups (groups_of (table_order (values_of result))) new_writer)
    ok writer.out
