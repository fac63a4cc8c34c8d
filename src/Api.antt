-- ===== src/Api.antt =====
-- geodiff/api.go: counting the changes of a file and appending files; geodiff/utils.go: the tables that
-- the listings leave aside. A file is its bytes; an output file is what was written when the call ends.
pub mod Counting
use go_geodiff.Common.{
  ℕ, zero, suc, ltb, Bool, true, false, not, ◌||◌, List, [], ◌∷◌, if◌then◌else◌, Bytes, codes,
  equal_bytes, length, Option, none, some,
}
use go_geodiff.Common.Text.{has_prefix}
use go_geodiff.Result.{Result, ok, err, succeeded, too_few_inputs, input_missing}
use go_geodiff.Changeset.Types.{ChangesetEntry}
use go_geodiff.Changeset.Reader.{Reader, new_reader, is_empty, for_each, after_body}
use go_geodiff.Changeset.Writer.{Writer, new_writer, Write, done, ◌>>◌, begin_table, write_entry}
use go_geodiff.Filters.{Context, is_table_skipped}

unfoldable pub has_changes : Bytes → Bool
has_changes file = not (is_empty (new_reader file))

abbrev pub count_entry : ChangesetEntry → ℕ → Result (Unit {0}) × ℕ
count_entry e count = (ok tt, suc count)

unfoldable pub changes_count : Bytes → Result ℕ
changes_count file = succeeded (for_each count_entry (new_reader file) 0)

-- The output of `ConcatChanges` and the name of the last table.
pub record Appender : Type 0 where
  pub writer : Writer
  pub last_table_name : Bytes

-- The body of its inner loop: a header where the name of the table changes.
unfoldable pub append_entry : ChangesetEntry → Appender → Result (Unit {0}) × Appender
append_entry e a =
    let (r, w) =
      (if equal_bytes e.table.name a.last_table_name
          then write_entry e
          else (do begin_table e.table; write_entry e))
        a.writer in
    (r, record { writer = w; last_table_name = e.table.name })

unfoldable pub append_files : List Bytes → Appender → Result (Unit {0}) × Appender
append_files [] a = (ok tt, a)
append_files (file ∷ files) a =
    after_body (for_each append_entry (new_reader file) a) (append_files files)

-- The input files that exist; a missing one is refused before anything is written.
unfoldable pub existing : List (Option Bytes) → Result (List Bytes)
existing [] = ok []
existing (none ∷ files) = err input_missing
existing (some file ∷ files) = elim (existing files) [ err e ↦ err e | ok rest ↦ ok (file ∷ rest) ]

-- What is answered, and the output file if it was created.
abbrev pub append_existing : Result (List Bytes) → Result (Unit {0}) × Option Bytes
append_existing (err e) = (err e, none)
append_existing (ok files) =
    let (r, a) = append_files files (record { writer = new_writer; last_table_name = [] }) in
    (r, some a.writer.out)

unfoldable pub concat_changes : List (Option Bytes) → Result (Unit {0}) × Option Bytes
concat_changes inputs =
    if ltb (length inputs) 2 then (err too_few_inputs, none) else append_existing (existing inputs)

unfoldable pub is_layer_table : Bytes → Bool
is_layer_table name =
    if has_prefix name (codes "gpkg_")
    then false
    else if has_prefix name (codes "rtree_")
    then false
    else if equal_bytes name (codes "sqlite_sequence")
    then false
    else true

unfoldable pub filter_table_names : Context → List Bytes → List Bytes
filter_table_names c [] = []
filter_table_names c (n ∷ names) =
    let rest = filter_table_names c names in
    if not (is_layer_table n) then rest else if is_table_skipped n c then rest else n ∷ rest
