-- ===== src/Json/Views.antt =====
-- What the JSON of an entry says of the entry.
use mathlib.Core.Path.{subst}
use go_geodiff.Common.{
  sym, ℕ, ◌≡◌, refl, ap, ◌∙◌, arith, true, List, ◌==◌, codes, Bytes, length, replicate,
}
use go_geodiff.Result.{ok}
use go_geodiff.Changeset.Types.{
  Value, undefined, OperationType, insert, update, delete, other, ChangesetTable, column_count,
  ChangesetEntry,
}
use go_geodiff.Changeset.Writer.Encoding.{Counted, IsCounted}
use go_geodiff.Json.Meaning.{said, cell, old_cells, new_cells, Represents, Shows, Describes}
use go_geodiff.Json.{
  made, JsonChange, JsonEntry, status_of, value_to_json, json_changes, changeset_entry_to_json,
}
use go_geodiff.Json.Columns.{
  cell-replicate, length-blank, said_column, value_to_json-Represents, json_changes-Ascending,
  json_changes-Tells,
}

module _ (base64 : Bytes → Bytes) where
  -- The changes of an entry whose values the two lists stand for.
  columns-Shows :
      (e : ChangesetEntry) (olds news : List Value)
      → length olds ≡ length news
      → ((k : ℕ) → cell k olds ≡ cell k (old_cells e))
      → ((k : ℕ) → cell k news ≡ cell k (new_cells e))
      → Shows base64 e (json_changes base64 0 olds news)
  columns-Shows e olds news h same_old same_new = (
    λ k. (
      subst (λ (v : Value). Represents base64 v (said k changes).0) (same_old k)
          (subst (Represents base64 (cell k olds)) (sym (ap (λ p. p.0) (column k)))
            (value_to_json-Represents base64 (cell k olds))),
      subst (λ (v : Value). Represents base64 v (said k changes).1) (same_new k)
          (subst (Represents base64 (cell k news)) (sym (ap (λ p. p.1) (column k)))
            (value_to_json-Represents base64 (cell k news))),
    ),
    json_changes-Ascending base64 olds news 0,
    json_changes-Tells base64 olds news 0,
  )
    where
      changes : List JsonChange
      changes = json_changes base64 0 olds news

      column :
          (k : ℕ)
          → said k (json_changes base64 0 olds news)
            ≡ (value_to_json base64 (cell k olds), value_to_json base64 (cell k news))
      column k =
          ap (λ m. said m (json_changes base64 0 olds news)) (omega arith)
          ∙ said_column base64 olds news k 0 h

  op-Describes :
      (op : OperationType) (olds news : List Value) (t : ChangesetTable)
      → Counted (column_count t) op olds news
      → let e : ChangesetEntry = record {
        op = op;
        old_values = olds;
        new_values = news;
        table = t;
      } in
        (j : JsonEntry) × (changeset_entry_to_json base64 e ≡ ok j) × Describes base64 e j
  unfolding changeset_entry_to_json status_of
  op-Describes insert olds news t c =
      let same : (column_count t == length news) ≡ true = ground arith in
      let blank = replicate (column_count t) undefined in
      (
        record {
          table = t.name;
          type = codes "insert";
          changes = made (json_changes base64 0 blank news);
        },
        rw same refl,
        (
          refl,
          refl,
          (
            json_changes base64 0 blank news,
            refl,
            columns-Shows (record { op = insert; old_values = olds; new_values = news; table = t })
                blank news (omega (arith, length-blank (column_count t), c))
                (λ k. cell-replicate k (column_count t)) (λ k. refl),
          ),
        ),
      )
  op-Describes update olds news t c =
      let same : (column_count t == length news) ≡ true = ground arith in
      let same' : (column_count t == length olds) ≡ true = ground arith in
      (
        record {
          table = t.name;
          type = codes "update";
          changes = made (json_changes base64 0 olds news);
        },
        rw (same, same') refl,
        (
          refl,
          refl,
          (
            json_changes base64 0 olds news,
            refl,
            columns-Shows (record { op = update; old_values = olds; new_values = news; table = t })
                olds news (omega (arith, c.0, c.1)) (λ k. refl) (λ k. refl),
          ),
        ),
      )
  op-Describes delete olds news t c =
      let same : (column_count t == length olds) ≡ true = ground arith in
      let blank = replicate (column_count t) undefined in
      (
        record {
          table = t.name;
          type = codes "delete";
          changes = made (json_changes base64 0 olds blank);
        },
        rw same refl,
        (
          refl,
          refl,
          (
            json_changes base64 0 olds blank,
            refl,
            columns-Shows (record { op = delete; old_values = olds; new_values = news; table = t })
                olds blank (omega (arith, length-blank (column_count t), c)) (λ k. refl)
                (λ k. cell-replicate k (column_count t)),
          ),
        ),
      )
  op-Describes (other b) olds news t c = absurd c

  -- An entry with as many values as its table has columns gets a JSON object with its table's name and the
  -- name of its operation. Its changes say of every column exactly the old and the new value that are given,
  -- null for NULL and base64 for a blob; a column is listed once at most, in ascending order, and only if it
  -- has an old or a new value.
  pub changeset_entry_to_json-Describes :
      (e : ChangesetEntry)
      → IsCounted (column_count e.table) e
      → (j : JsonEntry) × (changeset_entry_to_json base64 e ≡ ok j) × Describes base64 e j
  changeset_entry_to_json-Describes e c = op-Describes e.op e.old_values e.new_values e.table c
