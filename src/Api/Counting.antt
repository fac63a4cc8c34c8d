-- ===== src/Api/Counting.antt =====
-- What the two questions about a changeset file answer for a file that the writer wrote.
use go_geodiff.Common.{ℕ, suc, ◌+◌, ◌≡◌, ap, ◌∙◌, arith, ◌≤◌, ◌==◌, ltb, not, List, [], ◌∷◌, length}
use go_geodiff.Result.{ok, succeeded}
use go_geodiff.Changeset.Types.{ChangesetEntry}
use go_geodiff.Changeset.Stream.{Group, stored_entries, each}
use go_geodiff.Changeset.Stream.RoundTrip.{
  AllStorable, written, length-written, for_each-write_groups,
}
use go_geodiff.Api.{has_changes, count_entry, changes_count}

each_count : (es : List ChangesetEntry) (n : ℕ) → each count_entry es n ≡ (ok tt, length es + n)
unfolding each
each_count [] n = ap (λ k. (ok tt, k)) (omega arith)
each_count (e ∷ es) n = each_count es (suc n) ∙ ap (λ k. (ok tt, k)) (omega arith)

counted : (n k : ℕ) → n ≤ k → (n ≡ 0 → k ≡ 0) → not (k == 0) ≡ ltb 0 n
counted n k le h = ground (arith, h)

-- ChangesCount of a written changeset is the number of its entries, and HasChanges says whether there
-- is one.
pub changes_count-written :
    (gs : List Group)
    → AllStorable gs
    → (changes_count (written gs) ≡ ok (length (stored_entries gs)))
      × (has_changes (written gs) ≡ ltb 0 (length (stored_entries gs)))
unfolding changes_count has_changes
changes_count-written gs h = (
  ap succeeded ((for_each-write_groups count_entry gs 0 h).1 ∙ each_count (stored_entries gs) 0)
      ∙ ap ok (omega arith),
  counted (length (stored_entries gs)) (length (written gs)) (length-written gs h).0
      (length-written gs h).1,
)
