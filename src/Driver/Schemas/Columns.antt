-- ===== src/Driver/Schemas/Columns.antt =====
-- The columns that `TableSchema` scans, and that its later steps keep what the rows say.
use go_geodiff.Common.{
  ℕ, zero, suc, ◌≡◌, refl, sym, ap, ◌∙◌, arith, Bool, true, false, not, List, [], ◌∷◌, ◌++◌, ◌==◌,
  if◌then◌else◌, Bytes, equal_bytes, length, map, append_assoc, append-nil, Option, none, some,
}
use mathlib.Core.Path.{subst}
use go_geodiff.Common.Maps.{Map, insert, bytes_key}
use go_geodiff.Result.{Result, ok, err, no_such_table}
use go_geodiff.Result
use go_geodiff.Schema.{TableColumnInfo, set_geometry, first_column}
use go_geodiff.Driver.{Answer, failed, answered}
use go_geodiff.Driver.Diff.{Rows, ending}
use go_geodiff.Driver.Schemas.{
  InfoRow, GeometryRow, Scan, no_srs, blank_column, scan_columns, modify_at, mark_geometry,
  scan_geometries, geometries_of, typed_column,
}

-- A column is that of a row: its name, which is not empty, its key flag and its NOT NULL flag.
pub record IsColumnOf (r : InfoRow) (c : TableColumnInfo) : Type 0 where
  pub named : (length r.name == 0) ≡ false
  pub same_name : c.name ≡ r.name
  pub same_key : c.is_primary_key ≡ not (r.pk == 0)
  pub same_null : c.is_not_null ≡ not (r.not_null == 0)

-- A column for each row, in order.
abbrev pub AreColumns : List (Option InfoRow) → List TableColumnInfo → Type 0
AreColumns [] [] = Unit {0}
AreColumns (some r ∷ rows) (c ∷ cs) = IsColumnOf r c × AreColumns rows cs
AreColumns _ _ = ⊥

-- A change of columns that keeps what the rows say.
abbrev pub KeepsRow : (TableColumnInfo → TableColumnInfo) → Type 0
KeepsRow g = (r : InfoRow) (c : TableColumnInfo) → IsColumnOf r c → IsColumnOf r (g c)

pub after :
    {A B : Type 0} (r : Result A) (f : A → Result B) (b : B)
    → Result.◌>>=◌ r f ≡ ok b
    → (a : A) × (r ≡ ok a) × (f a ≡ ok b)
after (ok a) f b h = (a, refl, h)
after (err e) f b h = cc

value_or : {A : Type 0} → A → Result A → A
value_or d (ok a) = a
value_or d (err e) = d

pub same_value : {A : Type 0} {a b : A} → ok a ≡ ok b → a ≡ b
unfolding value_or
same_value {A} {a} {b} h = ap (value_or b) h

unless :
    {A : Type 0} (c : Bool) (e : Result.Error) (r : Result A) (a : A)
    → (if c then err e else r) ≡ ok a
    → (c ≡ false) × (r ≡ ok a)
unless true e r a h = cc
unless false e r a h = (refl, h)

pub scan_columns-AreColumns :
    (rows : List (Option InfoRow)) (done : List TableColumnInfo) (types : Map Bytes Bytes)
    (s : Scan)
    → scan_columns rows (done, types) ≡ ok s
    → (cs : List TableColumnInfo) × (s.0 ≡ done ++ cs) × AreColumns rows cs
unfolding scan_columns
scan_columns-AreColumns [] done types s h =
    ([], sym (ap (λ (p : Scan). p.0) (same_value h)) ∙ sym (append-nil done), tt)
scan_columns-AreColumns (none ∷ rows) done types s h = cc
scan_columns-AreColumns (some r ∷ rows) done types s h =
    let (named, rest) = unless (length r.name == 0) _ _ s h in
    let (cs, e, k) =
      scan_columns-AreColumns rows (done ++ (blank_column r ∷ [])) (insert r.name r.col_type types)
        s rest in
    (
      blank_column r ∷ cs,
      e ∙ append_assoc done (blank_column r ∷ []) cs,
      (record { named = named; same_name = refl; same_key = refl; same_null = refl }, k),
    )

modify_at-AreColumns :
    (i : ℕ) (g : TableColumnInfo → TableColumnInfo) (rows : List (Option InfoRow))
    (cs : List TableColumnInfo)
    → KeepsRow g
    → AreColumns rows cs
    → AreColumns rows (modify_at i g cs)
unfolding modify_at
modify_at-AreColumns i g [] [] k h = tt
modify_at-AreColumns zero g (some r ∷ rows) (c ∷ cs) k h = (k r c h.0, h.1)
modify_at-AreColumns (suc i) g (some r ∷ rows) (c ∷ cs) k h =
    (h.0, modify_at-AreColumns i g rows cs k h.1)
modify_at-AreColumns _ g _ _ k h = absurd (ground arith)

pub map-AreColumns :
    (g : TableColumnInfo → TableColumnInfo) (rows : List (Option InfoRow))
    (cs : List TableColumnInfo)
    → KeepsRow g
    → AreColumns rows cs
    → AreColumns rows (map g cs)
map-AreColumns g [] [] k h = tt
map-AreColumns g (some r ∷ rows) (c ∷ cs) k h = (k r c h.0, map-AreColumns g rows cs k h.1)
map-AreColumns g _ _ k h = absurd (ground arith)

set_geometry-KeepsRow : (name : Bytes) (srs : ℕ) (m z : Bool) → KeepsRow (set_geometry name srs m z)
unfolding set_geometry
set_geometry-KeepsRow name srs m z r c h = record {
  named = h.named;
  same_name = h.same_name;
  same_key = h.same_key;
  same_null = h.same_null;
}

pub typed_column-KeepsRow :
    (to_lower : Bytes → Bytes) (types : Map Bytes Bytes) → KeepsRow (typed_column to_lower types)
unfolding typed_column
typed_column-KeepsRow to_lower types r c h = record {
  named = h.named;
  same_name = h.same_name;
  same_key = h.same_key;
  same_null = h.same_null;
}

abbrev pub Marks : Type 0
Marks = ℕ × List TableColumnInfo

mark_geometry-AreColumns :
    (o : Option ℕ) (g : GeometryRow) (rows : List (Option InfoRow)) (cs ds : List TableColumnInfo)
    → mark_geometry o g cs ≡ ok ds
    → AreColumns rows cs
    → AreColumns rows ds
mark_geometry-AreColumns none g rows cs ds e h = cc
mark_geometry-AreColumns (some i) g rows cs ds e h = subst (AreColumns rows) (same_value e) (
    modify_at-AreColumns i _ rows cs
      (set_geometry-KeepsRow g.geometry_type_name g.srs_id (not (g.m == 0)) (not (g.z == 0))) h)

scan_geometries-AreColumns :
    (gs : List (Option GeometryRow)) (rows : List (Option InfoRow)) (s s' : Marks)
    → scan_geometries gs s ≡ ok s'
    → AreColumns rows s.1
    → AreColumns rows s'.1
unfolding scan_geometries
scan_geometries-AreColumns [] rows s s' e h =
    subst (λ (m : Marks). AreColumns rows m.1) (same_value e) h
scan_geometries-AreColumns (none ∷ gs) rows s s' e h = cc
scan_geometries-AreColumns (some g ∷ gs) rows s s' e h =
    let (_, e1) = unless (length g.column_name == 0) _ _ s' e in
    let (_, e2) = unless (length g.geometry_type_name == 0) _ _ s' e1 in
    let at = first_column (λ c. equal_bytes c.name g.column_name) s.1 in
    let (cs, marked, rest) =
      after (mark_geometry at g s.1) (λ cs. scan_geometries gs (g.srs_id, cs)) s' e2 in
    scan_geometries-AreColumns gs rows (g.srs_id, cs) s' rest
      (mark_geometry-AreColumns at g rows s.1 cs marked h)

pub geometries_of-AreColumns :
    (a : Answer (Rows (Option GeometryRow))) (rows : List (Option InfoRow))
    (cs : List TableColumnInfo) (s : Marks)
    → geometries_of a cs ≡ ok s
    → AreColumns rows cs
    → AreColumns rows s.1
unfolding geometries_of
geometries_of-AreColumns (failed msg) rows cs s e h =
    subst (λ (m : Marks). AreColumns rows m.1) (same_value e) h
geometries_of-AreColumns (answered found) rows cs s e h =
    let (s1, scanned, e1) =
      after (scan_geometries found.rows (no_srs, cs))
        (λ s. Result.◌>>=◌ (ending found.ended_by) (λ u. ok s)) s e in
    let (u, ended, e2) = after (ending found.ended_by) (λ u. ok s1) s e1 in
    subst (λ (m : Marks). AreColumns rows m.1) (same_value e2)
      (scan_geometries-AreColumns found.rows rows _ s1 scanned h)
