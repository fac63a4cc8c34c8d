-- ===== src/Changeset/Invert/Opposites.antt =====
-- Changesets that are each other's inverses, entry by entry.
use go_geodiff.Common.{◌≡◌, refl, arith, false, List, [], ◌∷◌, Bytes, equal_bytes, All}
use go_geodiff.Result.{ok}
use go_geodiff.Changeset.Types.{
  Value, OperationType, insert, update, delete, other, ChangesetTable, column_count, ChangesetEntry,
}
use go_geodiff.Changeset.Effect.{Columns}
use go_geodiff.Changeset.Writer.Encoding.{Counted}
use go_geodiff.Changeset.Reader.Steps.{FitsFormat}
use go_geodiff.Changeset.Reader.Records.{IsReadable, AllFit, stored_entry}
use go_geodiff.Changeset.Stream.{Group}
use go_geodiff.Changeset.Stream.RoundTrip.{IsStorable, AllStorable}
use go_geodiff.Changeset.Invert.{invert_op, invert_entry}
use go_geodiff.Changeset.Invert.Effects.{restores_keys}

-- Two storable entries of a table of which each, as a reader returns it, is the other's inverse.
pub record IsInverse (t : ChangesetTable) (e e' : ChangesetEntry) : Type 0 where
  pub storable : IsStorable t e
  pub storable' : IsStorable t e'
  pub there : invert_entry (stored_entry t e) ≡ ok (stored_entry t e')
  pub back : invert_entry (stored_entry t e') ≡ ok (stored_entry t e)

opposite_op :
    (t : ChangesetTable) (op : OperationType) (olds news : List Value)
    → Columns op t.primary_keys olds news
    → Counted (column_count t) op olds news
    → AllFit op olds news
    → (e' : ChangesetEntry) × IsInverse t
        (record { op = op; old_values = olds; new_values = news; table = t })
        e'
unfolding invert_entry invert_op
opposite_op t insert olds news w c f = (
  record { op = delete; old_values = news; new_values = []; table = t },
  record { storable = (c, f); storable' = (c, f); there = refl; back = refl },
)
opposite_op t delete olds news w c f = (
  record { op = insert; old_values = []; new_values = olds; table = t },
  record { storable = (c, f); storable' = (c, f); there = refl; back = refl },
)
opposite_op t update olds news w c f =
    let (os, ns, there, back, k) = restores_keys t.primary_keys olds news w in
    (
      record { op = update; old_values = os; new_values = ns; table = t },
      record {
        storable = (c, f);
        storable' = ((k.0, k.1), k.2 FitsFormat tt f.0 f.1);
        there = rw there;
        back = rw back;
      },
    )
opposite_op t (other b) olds news w c f = absurd w

IsInverse-sym : {t : ChangesetTable} {e e' : ChangesetEntry} → IsInverse t e e' → IsInverse t e' e
IsInverse-sym i = record {
  storable = i.storable';
  storable' = i.storable;
  there = i.back;
  back = i.there;
}

abbrev pub InverseEntries : ChangesetTable → List ChangesetEntry → List ChangesetEntry → Type 0
InverseEntries t [] [] = Unit {0}
InverseEntries t (e ∷ es) (e' ∷ es') = IsInverse t e e' × InverseEntries t es es'
InverseEntries t _ _ = ⊥

-- Groups of the same tables whose entries are, one by one, each other's inverses. The table of a
-- group that is not empty has another name than `n`, the table before it.
pub data Inverts : Bytes → List Group → List Group → Type 0 where
  no_group : {n : Bytes} → Inverts n [] []
  no_entry :
      {n : Bytes} {gs gs' : List Group} (t : ChangesetTable)
      → IsReadable t
      → Inverts n gs gs'
      → Inverts n ((t, []) ∷ gs) ((t, []) ∷ gs')
  a_group :
      {n : Bytes} {gs gs' : List Group} (t : ChangesetTable) (e e' : ChangesetEntry)
      (es es' : List ChangesetEntry)
      → IsReadable t
      → equal_bytes t.name n ≡ false
      → IsInverse t e e'
      → InverseEntries t es es'
      → Inverts t.name gs gs'
      → Inverts n ((t, e ∷ es) ∷ gs) ((t, e' ∷ es') ∷ gs')

InverseEntries-sym :
    (t : ChangesetTable) (es es' : List ChangesetEntry)
    → InverseEntries t es es'
    → InverseEntries t es' es
InverseEntries-sym t [] [] h = tt
InverseEntries-sym t (e ∷ es) (e' ∷ es') h = (IsInverse-sym h.0, InverseEntries-sym t es es' h.1)
InverseEntries-sym t _ _ h = absurd (ground arith)

pub Inverts-sym : {n : Bytes} {gs gs' : List Group} → Inverts n gs gs' → Inverts n gs' gs
Inverts-sym no_group = no_group
Inverts-sym (no_entry t r h) = no_entry t r (Inverts-sym h)
Inverts-sym (a_group t e e' es es' r n i is h) =
    a_group t e' e es' es r n (IsInverse-sym i) (InverseEntries-sym t es es' is) (Inverts-sym h)

InverseEntries-Storable :
    (t : ChangesetTable) (es es' : List ChangesetEntry)
    → InverseEntries t es es'
    → All (IsStorable t) es
InverseEntries-Storable t [] [] h = tt
InverseEntries-Storable t (e ∷ es) (e' ∷ es') h =
    (h.0.storable, InverseEntries-Storable t es es' h.1)
InverseEntries-Storable t _ _ h = absurd (ground arith)

pub Inverts-Storable : {n : Bytes} {gs gs' : List Group} → Inverts n gs gs' → AllStorable gs
Inverts-Storable no_group = tt
Inverts-Storable (no_entry t r h) = (r, tt, Inverts-Storable h)
Inverts-Storable (a_group t e e' es es' r n i is h) =
    (r, (i.storable, InverseEntries-Storable t es es' is), Inverts-Storable h)

-- The values of every entry fit the table of its group.
abbrev pub FitsTable : ChangesetTable → ChangesetEntry → Type 0
FitsTable t e = Columns e.op t.primary_keys e.old_values e.new_values

abbrev pub AllFitTables : List Group → Type 0
AllFitTables [] = Unit {0}
AllFitTables ((t, es) ∷ gs) = All (FitsTable t) es × AllFitTables gs

-- Two groups with entries that follow each other have tables of different names, and the name of the first is
-- not `n`.
abbrev pub NamesChange : Bytes → List Group → Type 0
NamesChange n [] = Unit {0}
NamesChange n ((t, []) ∷ gs) = NamesChange n gs
NamesChange n ((t, e ∷ es) ∷ gs) = (equal_bytes t.name n ≡ false) × NamesChange t.name gs

opposite_entries :
    (t : ChangesetTable) (es : List ChangesetEntry)
    → All (IsStorable t) es
    → All (FitsTable t) es
    → (es' : List ChangesetEntry) × InverseEntries t es es'
opposite_entries t [] st w = ([], tt)
opposite_entries t (e ∷ es) st w =
    let (e', i) = opposite_op t e.op e.old_values e.new_values w.0 st.0.0 st.0.1 in
    let (es', is) = opposite_entries t es st.1 w.1 in
    (
      e' ∷ es',
      (
        record { storable = i.storable; storable' = i.storable'; there = i.there; back = i.back },
        is,
      ),
    )

pub opposite_groups :
    (n : Bytes) (gs : List Group)
    → AllStorable gs
    → AllFitTables gs
    → NamesChange n gs
    → (gs' : List Group) × Inverts n gs gs'
opposite_groups n [] st w c = ([], no_group)
opposite_groups n ((t, []) ∷ gs) st w c =
    let (gs', h) = opposite_groups n gs st.2 w.1 c in ((t, []) ∷ gs', no_entry t st.0 h)
opposite_groups n ((t, e ∷ es) ∷ gs) st w c =
    let (e', i) = opposite_op t e.op e.old_values e.new_values w.0.0 st.1.0.0 st.1.0.1 in
    let (es', is) = opposite_entries t es st.1.1 w.0.1 in
    let (gs', h) = opposite_groups t.name gs st.2 w.1 c.1 in
    (
      (t, e' ∷ es') ∷ gs',
      a_group t e e' es es' st.0 c.0
          (record {
            storable = i.storable;
            storable' = i.storable';
            there = i.there;
            back = i.back;
          })
          is h,
    )
