-- ===== src/Result.antt =====
-- Go's `(value, error)` results. An error is a value of one type, a constructor for each message
-- of the packages varint, changeset and driver that the model raises, so that callers can pass an
-- error on unchanged as the source does.
use go_geodiff.Common.{ℕ, Bool, true, false, Bytes}

pub data Error : Type 0 where
  -- varint/varint.go
  offset_beyond_buffer empty_buffer unexpected_end varint_too_long : Error
  -- changeset/reader.go: the offset in the message, and what was being read
  read_past_end unknown_entry_type unexpected_value_type too_many_columns : ℕ → Error
  bad_length : ℕ → Error → Error
  -- changeset/writer.go
  wrong_op wrong_number_of_rows : Error
  -- changeset/utils.go
  unknown_operation : ℕ → Error
  new_count_mismatch old_count_mismatch : Error
  -- changeset/types.go
  not_marshalled not_unmarshalled : Error
  -- driver/rebase.go
  no_primary_key unknown_table unknown_pk free_index_missing : Error
  -- driver/sqlite.go and driver/sqlite_utils.go; `sql_error` wraps the message of the database
  nothing_inserted no_such_table wrong_number_of_columns mismatch_of_primary_keys : Error
  unexpected_operation could_not_resolve_dependencies : Error
  conflicts_encountered : ℕ → Error
  sql_error : Bytes → Error
  modified_not_open no_modified_database table_names_not_matching schemas_not_the_same : Error
  wrong_number_of_values : Error
  row_not_scanned empty_column_name empty_type_name geometry_column_missing : Error
  no_such_crs empty_auth_name empty_definition not_spatial : Error
  -- driver/gpkg_functions.go, with the byte that the message shows
  invalid_geometry_blob incorrect_magic_number : Error
  incorrect_version incorrect_envelope : ℕ → Error
  wkb_too_short unreadable_geometry_type wrong_circular_string : Error
  unsupported_modifier unsupported_geometry_type : ℕ → Error
  -- geodiff/api.go and geodiff/context.go
  gpkg_wkb_too_short missing_magic_bytes : Error
  unknown_envelope_indicator : ℕ → Error
  too_short_for_header : ℕ → ℕ → Error
  tables_to_include_set tables_to_skip_set too_few_inputs input_missing output_missing : Error
  -- a Go run-time panic: an index out of range
  index_panic : Error
  -- no Go value: a loop of the model ran out of fuel
  out_of_fuel : Error

pub data Result {ℓ} (A : Type ℓ) : Type ℓ where
  err : Error → Result A
  ok : A → Result A

-- A Go panic unwinds past the statements that handle an error.
abbrev pub is_panic : Error → Bool
is_panic index_panic = true
is_panic _ = false

-- The next statement runs on what the first returned, unless that was an error.
infixl 5 ◌>>=◌ ◌>>◌
abbrev pub ◌>>=◌ {ℓ κ} : {A : Type ℓ} {B : Type κ} → Result A → (A → Result B) → Result B
◌>>=◌ (err e) next = err e
◌>>=◌ (ok a) next = next a

abbrev pub ◌>>◌ {ℓ κ} : {A : Type ℓ} {B : Type κ} → Result A → Result B → Result B
err e >> next = err e
ok a >> next = next

-- What a step that also keeps a state leaves, or its error.
abbrev pub succeeded {ℓ} : {S : Type ℓ} → Result (Unit {0}) × S → Result S
succeeded (err e, s) = err e
succeeded (ok u, s) = ok s
