-- ===== src/Changeset/Reader/Invariant.antt =====
-- A loop around `NextEntry` and what its body keeps.
use go_geodiff.Common.{ℕ, zero, suc, length, Option, none, some}
use go_geodiff.Result.{Result, ok, err}
use go_geodiff.Changeset.Types.{ChangesetEntry}
use go_geodiff.Changeset.Reader.{
  Reader, next_entry, after_body, after_entry, for_each_loop, for_each,
}

module _ {S : Type 0} (P : S → Type 0) (body : ChangesetEntry → S → Result (Unit {0}) × S)
    (kept : (e : ChangesetEntry) (s : S) → P s → P (body e s).1) where
  after_body-keeps :
      (b : Result (Unit {0}) × S) (next : S → Result (Unit {0}) × S)
      → P b.1
      → ((s : S) → P s → P (next s).1)
      → P (after_body b next).1
  after_body-keeps (ok u, s) next h k = k s h
  after_body-keeps (err e, s) next h k = h

  after_entry-keeps :
      (a : Result (Option ChangesetEntry) × Reader) (s : S)
      (next : Reader → S → Result (Unit {0}) × S)
      → P s
      → ((r : Reader) (s' : S) → P s' → P (next r s').1)
      → P (after_entry body a s next).1
  after_entry-keeps (err e, r) s next h k = h
  after_entry-keeps (ok none, r) s next h k = h
  after_entry-keeps (ok (some e), r) s next h k =
      after_body-keeps (body e s) (next r) (kept e s h) (k r)

  loop-keeps : (fuel : ℕ) (r : Reader) (s : S) → P s → P (for_each_loop body fuel r s).1
  unfolding for_each_loop
  loop-keeps zero r s h = h
  loop-keeps (suc fuel) r s h =
      after_entry-keeps (next_entry r) s (for_each_loop body fuel) h (loop-keeps fuel)

  -- What the body keeps holds where the loop ends, with an error or without.
  pub for_each-keeps : (r : Reader) (s : S) → P s → P (for_each body r s).1
  unfolding for_each
  for_each-keeps r s h = loop-keeps (suc (length r.buf)) r s h
