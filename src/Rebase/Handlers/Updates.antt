-- ===== src/Rebase/Handlers/Updates.antt =====
-- driver/rebase.go: `handleUpdate` on a row that theirs updated.
use go_geodiff.Common.{ℕ, ◌≡◌, ◌⊎◌, Bool, false, List, [], ◌∷◌, if◌then◌else◌, Bytes, some}
use go_geodiff.Common.Maps.{nat_key}
use go_geodiff.Result.{Result, ok, err, ◌>>=◌}
use go_geodiff.Changeset.Types.{Value, undefined, is_undefined, ChangesetEntry}
use go_geodiff.Changeset.Effect.{Row, Matches, Updates, ColumnOk, UpdateColumns, Applies}
use go_geodiff.Rebase.Handlers.{
  ConflictItem, ConflictFeature, Handled, value_at, remaining, delete_columns, delete_with,
  handle_delete, is_timestamp, add_conflict, skip_column,
}
use go_geodiff.Rebase.Handlers
use go_geodiff.Rebase.Handlers.Specification.{resolve, clash, clashes}

-- What the loop over the columns must answer.
abbrev Updated :
    Bytes
    → ℕ
    → List Bool
    → List Value
    → List Value
    → Row
    → Row
    → Row
    → Result Handlers.Columns
    → Type 0
Updated table i pks patched news b t o (err x) = ⊥
Updated table i pks patched news b t o (ok cs) =
    UpdateColumns pks cs.olds cs.news
    × Matches cs.olds t
    × Updates cs.news t (resolve patched t o)
    × (cs.has_changes ≡ false → resolve patched t o ≡ t)
    × (cs.items ≡ clashes table i patched news b t o)

-- One column of it.
abbrev UpdatedColumn :
    Bytes → ℕ → Bool → Value → Value → Value → Value → Value → Result Handlers.Columns → Type 0
UpdatedColumn table i pk p n b t o r =
    (old : Value) × (new : Value) × (has_changes : Bool) × (items : List ConflictItem) × (r
      ≡ ok (record { olds = old ∷ []; news = new ∷ []; has_changes = has_changes; items = items }))
    × ColumnOk pk old new
    × ((old ≡ undefined) ⊎ (old ≡ t))
    × ((if is_undefined p then o else t) ≡ (if is_undefined new then t else new))
    × (has_changes ≡ false → (if is_undefined p then o else t) ≡ t)
    × (items ≡ clash table i p n b t o)

-- The answer for our UPDATE of a row that theirs updated: an UPDATE that leads from theirs' row to the
-- merged row, written unless nothing changes, and the clashes as one conflict feature.
abbrev pub Resolves :
    ChangesetEntry
    → ℕ
    → List Value
    → Row
    → Row
    → Row
    → List ConflictFeature
    → Result Handled
    → Type 0
Resolves e pk patched base theirs ours conflicts r =
    (h : Handled) × (r ≡ ok h)
    × UpdateColumns e.table.primary_keys h.out.old_values h.out.new_values
    × Applies h.out (some theirs) (some (resolve patched theirs ours))
    × (h.write ≡ false → resolve patched theirs ours ≡ theirs)
    × (h.conflicts
        ≡ add_conflict
            (record {
              pk = pk;
              table_name = e.table.name;
              items = clashes e.table.name 0 patched e.new_values base theirs ours;
            })
            conflicts)
