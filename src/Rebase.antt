-- ===== src/Rebase.antt =====
-- driver/rebase.go: the state of a rebase, and the helpers on it. A primary key is an int64 bit
-- pattern, as in `Value`; -1 is the pattern of ones.
pub mod Handlers
pub mod Parse
pub mod Mapping
pub mod Driver
use go_geodiff.Common.{
  ℕ, ◌+◌, ◌%◌, ◌^◌, ◌-◌, Bool, true, false, List, [], ◌∷◌, ltb, Bytes, Option, none, some,
}
use go_geodiff.Common.Maps.{Map, lookup, insert, nat_key, bytes_key}
use go_geodiff.Result.{Result, ok, err, no_primary_key, index_panic, unknown_table, unknown_pk}
use go_geodiff.Changeset.Types.{Value, as_int, OperationType, ChangesetEntry, ChangesetTable}
use go_geodiff.Changeset.Types

pub record TableRebaseInfo : Type 0 where
  pub inserted : List ℕ
  pub deleted : List ℕ
  pub updated : Map ℕ (List Value)

abbrev pub DatabaseRebaseInfo : Type 0
DatabaseRebaseInfo = Map Bytes TableRebaseInfo

pub record RebaseMapping : Type 0 where
  pub map_ids : Map Bytes (Map ℕ ℕ)
  pub unmapped_insert_ids : Map Bytes (List ℕ)

abbrev pub invalid_fid : ℕ
invalid_fid = 2 ^ 64 - 1

-- `>` on int64, and `+ 1`.
abbrev pub greater : ℕ → ℕ → Bool
greater a b = ltb ((b + 2 ^ 63) % 2 ^ 64) ((a + 2 ^ 63) % 2 ^ 64)

abbrev pub next_int64 : ℕ → ℕ
next_int64 n = (n + 1) % 2 ^ 64

abbrev pub ids_of : RebaseMapping → Bytes → Map ℕ ℕ
ids_of m table = elim (lookup table m.map_ids) [ none ↦ [] | some ids ↦ ids ]

unfoldable pub add_pkey_mapping : Bytes → ℕ → ℕ → RebaseMapping → RebaseMapping
add_pkey_mapping table old_pk new_pk m = record m {
  map_ids = insert table (insert old_pk new_pk (ids_of m table)) m.map_ids;
}

unfoldable pub has_old_pkey : RebaseMapping → Bytes → ℕ → Bool
has_old_pkey m table pk = elim (lookup table m.map_ids) [
  | none ↦ false
  | some ids ↦ elim (lookup pk ids) [ none ↦ false | some new_pk ↦ true ]
]

unfoldable pub get_new_pkey : RebaseMapping → Bytes → ℕ → Result ℕ
get_new_pkey m table pk = elim (lookup table m.map_ids) [
  | none ↦ err unknown_table
  | some ids ↦ elim (lookup pk ids) [ none ↦ err unknown_pk | some new_pk ↦ ok new_pk ]
]

-- The integer in the first key column; `AsInt`'s error is dropped, so another type counts as 0.
unfoldable pub key_int : List Bool → List Value → Result ℕ
key_int [] vs = err no_primary_key
key_int (true ∷ pks) [] = err index_panic
key_int (true ∷ pks) (v ∷ vs) = ok (as_int v).0
key_int (false ∷ pks) [] = key_int pks []
key_int (false ∷ pks) (v ∷ vs) = key_int pks vs

abbrev pub key_values : OperationType → ChangesetEntry → List Value
key_values Types.insert e = e.new_values
key_values _ e = e.old_values

unfoldable pub get_primary_key : ChangesetEntry → Result ℕ
get_primary_key e = key_int e.table.primary_keys (key_values e.op e)
