-- ===== src/Changeset/Stream.antt =====
-- A whole changeset: the loop with which changeset/concat.go and driver/rebase.go write the changes of
-- each table, and what a client's loop around `NextEntry` runs over.
pub mod RoundTrip
use go_geodiff.Common.{List, [], ◌∷◌, ◌++◌, map}
use go_geodiff.Result.{Result, ok, err}
use go_geodiff.Changeset.Types.{ChangesetTable, ChangesetEntry}
use go_geodiff.Changeset.Writer.{Write, done, ◌>>◌, begin_table, write_entry}
use go_geodiff.Changeset.Reader.{after_body}
use go_geodiff.Changeset.Reader.Records.{stored_entry}

abbrev pub Group : Type 0
Group = ChangesetTable × List ChangesetEntry

unfoldable pub write_entries : List ChangesetEntry → Write
write_entries [] = done
write_entries (e ∷ es) = do write_entry e; write_entries es

-- A table without entries is passed over.
unfoldable pub write_groups : List Group → Write
write_groups [] = done
write_groups ((t, []) ∷ gs) = write_groups gs
write_groups ((t, e ∷ es) ∷ gs) = do begin_table t; write_entries (e ∷ es); write_groups gs

-- The entries of the groups as a reader returns them.
unfoldable pub stored_entries : List Group → List ChangesetEntry
stored_entries [] = []
stored_entries ((t, es) ∷ gs) = map (stored_entry t) es ++ stored_entries gs

-- A client's loop body over a list of entries, up to its first error.
module _ {S : Type 0} (body : ChangesetEntry → S → Result (Unit {0}) × S) where
  unfoldable pub each : List ChangesetEntry → S → Result (Unit {0}) × S
  each [] s = (ok tt, s)
  each (e ∷ es) s = after_body (body e s) (each es)
