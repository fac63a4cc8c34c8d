-- ===== src/Rebase/Mapping/Keys.antt =====
-- The key that a row has after the rebase, as a mapping is extended.
use go_geodiff.Common.{
  ℕ, ◌≡◌, refl, sym, ap, ◌∙◌, Bool, true, false, [], ◌==◌, if◌then◌else◌, Bytes, equal_bytes_refl,
  Option, none, some,
}
use go_geodiff.Common.Maps.{Map, lookup, insert, lookup-insert, nat_key, bytes_key}
use go_geodiff.Result.{Result, ok, err, unknown_pk, unknown_table}
use go_geodiff.Rebase.{RebaseMapping, ids_of, add_pkey_mapping, has_old_pkey, get_new_pkey}
use go_geodiff.Rebase.Handlers.{rebased_pkey}

-- What the map of a table says of a key.
abbrev in_ids : Option ℕ → ℕ → Result ℕ
in_ids none pk = ok pk
in_ids (some k) pk = ok k

rebased_pkey_lem :
    (m : RebaseMapping) (table : Bytes) (pk : ℕ)
    → rebased_pkey m table pk ≡ in_ids (lookup pk (ids_of m table)) pk
unfolding rebased_pkey has_old_pkey get_new_pkey
rebased_pkey_lem m table pk = by_table (lookup table m.map_ids)
  where
    by_key :
        (o : Option ℕ)
        → (if elim o [ none ↦ false | some k ↦ true ]
            then elim o [ none ↦ err unknown_pk | some k ↦ ok k ]
            else ok pk)
          ≡ in_ids o pk
    by_key none = refl
    by_key (some k) = refl

    by_table :
        (o : Option (Map ℕ ℕ))
        → (if elim o [
          | none ↦ false
          | some ids ↦ elim (lookup pk ids) [ none ↦ false | some k ↦ true ]
        ]
            then elim o [
              | none ↦ err unknown_table
              | some ids ↦ elim (lookup pk ids) [ none ↦ err unknown_pk | some k ↦ ok k ]
            ]
            else ok pk)
          ≡ in_ids (lookup pk (elim o [ none ↦ [] | some ids ↦ ids ])) pk
    by_table none = unfold lookup in refl
    by_table (some ids) = by_key (lookup pk ids)

ids_of-add :
    (m : RebaseMapping) (table : Bytes) (pk k : ℕ)
    → ids_of (add_pkey_mapping table pk k m) table ≡ insert pk k (ids_of m table)
unfolding add_pkey_mapping
ids_of-add m table pk k =
    ap (λ o. elim o [ none ↦ [] | some ids ↦ ids ])
      (lookup-insert table table (insert pk k (ids_of m table)) m.map_ids
        ∙ ap (λ b. if b then some (insert pk k (ids_of m table)) else lookup table m.map_ids)
            (equal_bytes_refl table))

pub rebased_pkey-add :
    (m : RebaseMapping) (table : Bytes) (pk k q : ℕ)
    → rebased_pkey (add_pkey_mapping table pk k m) table q
      ≡ (if pk == q then ok k else rebased_pkey m table q)
rebased_pkey-add m table pk k q =
    rebased_pkey_lem (add_pkey_mapping table pk k m) table q
    ∙ ap (λ ids. in_ids (lookup q ids) q) (ids_of-add m table pk k)
    ∙ ap (λ o. in_ids o q) (lookup-insert pk q k (ids_of m table))
    ∙ by_test (pk == q)
    ∙ ap (λ r. if pk == q then ok k else r) (sym (rebased_pkey_lem m table q))
  where
    by_test :
        (b : Bool)
        → in_ids (if b then some k else lookup q (ids_of m table)) q
          ≡ (if b then ok k else in_ids (lookup q (ids_of m table)) q)
    by_test true = refl
    by_test false = refl
