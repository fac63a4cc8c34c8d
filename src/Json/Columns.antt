-- ===== src/Json/Columns.antt =====
-- The loop over the columns of an entry, in changeset/utils.go: what its list of changes says.
use go_geodiff.Common.{
  ◌≢◌, Bool, ◌&&◌, false, Bool-cases, inl, inr, All, ℕ, zero, suc, ◌+◌, ◌<◌, ◌≡◌, refl, ap, ◌∙◌,
  arith, true, List, [], ◌∷◌, if◌then◌else◌, Bytes, length, replicate, none,
}
use go_geodiff.Changeset.Types.{Value, undefined, int, double, text, blob, null, is_undefined}
use go_geodiff.Json.Meaning.{said, cell, Represents, Ascending, Tells}
use go_geodiff.Json.{JsonChange, value_to_json, json_changes}

pub cell-replicate : (k n : ℕ) → cell k (replicate n undefined) ≡ undefined
cell-replicate k zero = refl
cell-replicate zero (suc n) = refl
cell-replicate (suc k) (suc n) = cell-replicate k n

module _ (base64 : Bytes → Bytes) where
  said_before :
      (olds news : List Value) (k i : ℕ)
      → k < i
      → said k (json_changes base64 i olds news) ≡ (none, none)
  unfolding said json_changes
  said_before (o ∷ olds) (n ∷ news) k i h =
      ground (arith, said_before olds news k (suc i) (omega arith))
  said_before [] news k i h = refl
  said_before (o ∷ olds) [] k i h = refl

  pub omitted : (v : Value) → is_undefined v ≡ true → value_to_json base64 v ≡ none
  unfolding value_to_json
  omitted undefined h = refl
  omitted (int _) h = cc
  omitted (double _) h = cc
  omitted (text _) h = cc
  omitted (blob _) h = cc
  omitted null h = cc

  pub said_column :
      (olds news : List Value) (k i : ℕ)
      → length olds ≡ length news
      → said (k + i) (json_changes base64 i olds news)
        ≡ (value_to_json base64 (cell k olds), value_to_json base64 (cell k news))
  unfolding said json_changes
  said_column [] [] k i h = unfold value_to_json in refl
  said_column (o ∷ olds) (n ∷ news) zero i h =
      ground (arith, omitted o, omitted n, said_before olds news i (suc i) (omega arith))
  said_column (o ∷ olds) (n ∷ news) (suc k) i h =
      let later : said (suc k + i) (json_changes base64 (suc i) olds news)
          ≡ (value_to_json base64 (cell k olds), value_to_json base64 (cell k news)) =
        ap (λ m. said m (json_changes base64 (suc i) olds news)) (omega arith)
        ∙ said_column olds news k (suc i) (omega (arith, h)) in
      ground (arith, later)
  said_column _ _ k i h = absurd (ground arith)

module _ (base64 : Bytes → Bytes) where
  pub value_to_json-Represents : (v : Value) → Represents base64 v (value_to_json base64 v)
  unfolding value_to_json
  value_to_json-Represents undefined = refl
  value_to_json-Represents (int n) = refl
  value_to_json-Represents (double f) = refl
  value_to_json-Represents (text s) = refl
  value_to_json-Represents (blob b) = refl
  value_to_json-Represents null = refl

  included : (v : Value) → is_undefined v ≡ false → value_to_json base64 v ≢ none
  unfolding value_to_json
  included undefined h = λ q. cc
  included (int n) h = λ q. cc
  included (double f) h = λ q. cc
  included (text s) h = λ q. cc
  included (blob b) h = λ q. cc
  included null h = λ q. cc

  Ascending-earlier : (i : ℕ) (cs : List JsonChange) → Ascending (suc i) cs → Ascending i cs
  Ascending-earlier i [] h = tt
  Ascending-earlier i (c ∷ cs) h = (omega (arith, h.0), h.1)

  pub json_changes-Ascending :
      (olds news : List Value) (i : ℕ) → Ascending i (json_changes base64 i olds news)
  unfolding json_changes
  json_changes-Ascending (o ∷ olds) (n ∷ news) i =
      by_test (is_undefined n && is_undefined o) (json_changes-Ascending olds news (suc i))
    where
      by_test :
          (b : Bool)
          → Ascending (suc i) (json_changes base64 (suc i) olds news)
          → Ascending i (
              if b
              then json_changes base64 (suc i) olds news
              else record { column = i; old = value_to_json base64 o; new = value_to_json base64 n }
                ∷ json_changes base64 (suc i) olds news)
      by_test true later = Ascending-earlier i _ later
      by_test false later = (omega arith, later)
  json_changes-Ascending [] news i = tt
  json_changes-Ascending (o ∷ olds) [] i = tt

  telling :
      (i : ℕ) (o n : Value)
      → (is_undefined n && is_undefined o) ≡ false
      → Tells (record { column = i; old = value_to_json base64 o; new = value_to_json base64 n })
  telling i o n h = elim (Bool-cases (is_undefined o)) [
    | inr e ↦ inl (included o e)
    | inl e ↦ inr (included n (ground (arith, h, e)))
  ]

  pub json_changes-Tells :
      (olds news : List Value) (i : ℕ) → All Tells (json_changes base64 i olds news)
  unfolding json_changes
  json_changes-Tells (o ∷ olds) (n ∷ news) i =
      by_test (is_undefined n && is_undefined o) refl (json_changes-Tells olds news (suc i))
    where
      by_test :
          (b : Bool)
          → (is_undefined n && is_undefined o) ≡ b
          → All Tells (json_changes base64 (suc i) olds news)
          → All Tells (
              if b
              then json_changes base64 (suc i) olds news
              else record { column = i; old = value_to_json base64 o; new = value_to_json base64 n }
                ∷ json_changes base64 (suc i) olds news)
      by_test true h later = later
      by_test false h later = (telling i o n h, later)
  json_changes-Tells [] news i = tt
  json_changes-Tells (o ∷ olds) [] i = tt

pub length-blank : (n : ℕ) → length (replicate n undefined) ≡ n
length-blank zero = refl
length-blank (suc n) = omega (arith, length-blank n)
