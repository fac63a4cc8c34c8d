-- ===== src/Json/Printing.antt =====
-- The loops over the columns of geodiff/api.go, against the one of changeset/utils.go.
use go_geodiff.Common.{
  ℕ, suc, ◌≡◌, refl, arith, true, false, List, [], ◌∷◌, Bytes, length, replicate, All,
}
use go_geodiff.Result.{ok}
use go_geodiff.Changeset.Types.{Value, undefined, int, double, text, blob, null, is_undefined}
use go_geodiff.Json.{value_to_json, json_changes}
use go_geodiff.Json.Listing.{
  is_finite, raw_value, inserted_columns, deleted_columns, updated_columns,
}
use go_geodiff.Json.Columns.{omitted}

-- The values that the listing can print: not an infinity, not a NaN.
abbrev pub IsPrintable : Value → Type 0
IsPrintable (double f) = is_finite f ≡ true
IsPrintable v = Unit {0}

module _ (base64 : Bytes → Bytes) where
  raw_printable :
      (v : Value)
      → IsPrintable v
      → is_undefined v ≡ false
      → raw_value base64 v ≡ value_to_json base64 v
  unfolding raw_value value_to_json
  raw_printable undefined p h = cc
  raw_printable (int n) p h = refl
  raw_printable (double f) p h = rw p refl
  raw_printable (text s) p h = refl
  raw_printable (blob b) p h = refl
  raw_printable null p h = refl

  pub inserted_agree :
      (vs : List Value) (i : ℕ)
      → All IsPrintable vs
      → inserted_columns base64 i vs ≡ json_changes base64 i (replicate (length vs) undefined) vs
  unfolding inserted_columns json_changes
  inserted_agree [] i p = refl
  inserted_agree (v ∷ vs) i p =
      ground
        (arith, inserted_agree vs (suc i) p.1, raw_printable v p.0, omitted base64 undefined refl)

  pub deleted_agree :
      (vs : List Value) (i : ℕ)
      → All IsPrintable vs
      → deleted_columns base64 i vs ≡ json_changes base64 i vs (replicate (length vs) undefined)
  unfolding deleted_columns json_changes
  deleted_agree [] i p = refl
  deleted_agree (v ∷ vs) i p =
      ground
        (arith, deleted_agree vs (suc i) p.1, raw_printable v p.0, omitted base64 undefined refl)

  pub updated_agree :
      (olds news : List Value) (i : ℕ)
      → length olds ≡ length news
      → All IsPrintable olds
      → All IsPrintable news
      → updated_columns base64 i olds news ≡ ok (json_changes base64 i olds news)
  unfolding updated_columns json_changes
  updated_agree [] [] i h p q = refl
  updated_agree (o ∷ olds) (n ∷ news) i h p q = ground (
    arith,
    updated_agree olds news (suc i) (omega (arith, h)) p.1 q.1,
    raw_printable o p.0,
    raw_printable n q.0,
    omitted base64 o,
    omitted base64 n,
  )
  updated_agree _ _ i h p q = absurd (ground arith)
