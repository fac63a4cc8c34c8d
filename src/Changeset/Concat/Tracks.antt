-- ===== src/Changeset/Concat/Tracks.antt =====
-- `ConcatChangesets`, the loop over the files, against a database that the changes are made to one
-- after the other. The rows of a database are a function of a table's name and a key string.
use go_geodiff.Common.{
  ◌⊎◌, ◌≡◌, refl, sym, ap, ◌∙◌, inl, inr, Bool, true, false, List, [], ◌∷◌, map, Bytes, ◌&&◌,
  equal_bytes, equal_bytes_iff, equal_bytes_refl, Option, none, some, Bool-cases, ℕ,
}
use mathlib.Core.Path.{fun_ext}
use go_geodiff.Common.Maps.{bytes_key, lookup, insert, lookup-insert}
use go_geodiff.Result.{Result, ok, err}
use go_geodiff.Changeset.Types.{Value, ChangesetEntry}
use go_geodiff.Changeset.Effect.{Row, Applies, IsWellFormed, key_of}
use go_geodiff.Changeset.Concat.{
  ConcatTable, table_or_new, Tables, put_back, pk_key, concat_entry, concat_files,
}
use go_geodiff.Changeset.Concat.Refines.{Follows, Accumulates, concat_row-Accumulates}
use go_geodiff.Changeset.Merge.Effective.{IsEffective}
use go_geodiff.Changeset.Stream.{Group, stored_entries, each}
use go_geodiff.Changeset.Stream.RoundTrip.{AllStorable, written, for_each-write_groups}

abbrev pub Rows : Type 0
Rows = Bytes → Bytes → Option Row

-- What is kept for a table: the changes that lead from the rows as they were to the rows as they are.
abbrev pub TableTracks :
    List Bool
    → (Bytes → List Value)
    → Bytes
    → Option ConcatTable
    → (Bytes → Option Row)
    → (Bytes → Option Row)
    → Type 0
TableTracks pks named n none rows rows' = (k : Bytes) → rows' k ≡ rows k
TableTracks pks named n (some ct) rows rows' =
    (ct.table.name ≡ n)
    × (ct.table.primary_keys ≡ pks)
    × ((k : Bytes) → Follows pks (named k) (lookup k ct.entries) (rows k) (rows' k))

module _ (format_int format_float : ℕ → Bytes) (bin_to_hex : Bytes → Bytes)
    (keys_of : Bytes → List Bool) (key_named : Bytes → Bytes → List Value) where
  -- One change made to the database: the entry is well-formed and no UPDATE that alters nothing, its key
  -- string stands for its key, and no other row changes.
  pub record Changes (e : ChangesetEntry) (db db' : Rows) : Type 0 where
    pub key : Bytes
    pub keyed : pk_key format_int format_float bin_to_hex e ≡ ok key
    pub stands : key_of e ≡ key_named e.table.name key
    pub flags : e.table.primary_keys ≡ keys_of e.table.name
    pub fits : IsWellFormed e
    pub effective : IsEffective e
    pub applies : Applies e (db e.table.name key) (db' e.table.name key)
    pub others :
        (n j : Bytes) → (equal_bytes e.table.name n && equal_bytes key j) ≡ false → db' n j ≡ db n j

  abbrev pub AllChange : List ChangesetEntry → Rows → Rows → Type 0
  AllChange [] db db' = (n j : Bytes) → db' n j ≡ db n j
  AllChange (e ∷ es) db db' = (mid : Rows) × Changes e db mid × AllChange es mid db'

  -- The accumulated tables lead from one database to another.
  pub record Tracks (tables : Tables) (db db' : Rows) : Type 0 where
    pub at : (n : Bytes) → TableTracks (keys_of n) (key_named n) n (lookup n tables) (db n) (db' n)

  abbrev pub Tracked : Result Tables → Rows → Rows → Type 0
  Tracked (err x) db db' = ⊥
  Tracked (ok tables) db db' = Tracks tables db db'

  kept_table :
      (e : ChangesetEntry) (o : Option ConcatTable) (rows rows' : Bytes → Option Row)
      → e.table.primary_keys ≡ keys_of e.table.name
      → TableTracks (keys_of e.table.name) (key_named e.table.name) e.table.name o rows rows'
      → TableTracks
          (keys_of e.table.name)
          (key_named e.table.name)
          e.table.name
          (some (table_or_new e.table o))
          rows
          rows'
  unfolding lookup
  kept_table e none rows rows' p h = (refl, p, h)
  kept_table e (some ct) rows rows' p h = h

  -- The rows of the table of an entry, once the entry is kept.
  entry-TableTracks :
      (e : ChangesetEntry) (db0 db db' : Rows) (ct ct' : ConcatTable)
      → (c : Changes e db db')
      → TableTracks
          (keys_of e.table.name)
          (key_named e.table.name)
          e.table.name
          (some ct)
          (db0 e.table.name)
          (db e.table.name)
      → Accumulates
          (keys_of e.table.name)
          c.key
          (key_named e.table.name c.key)
          ct
          (db0 e.table.name c.key)
          (db' e.table.name c.key)
          (ok ct')
      → TableTracks
          (keys_of e.table.name)
          (key_named e.table.name)
          e.table.name
          (some ct')
          (db0 e.table.name)
          (db' e.table.name)
  entry-TableTracks e db0 db db' ct ct' c (name, pks, h) (f, rest, same_table) = (
    ap (λ u. u.name) same_table ∙ name,
    ap (λ u. u.primary_keys) same_table ∙ pks,
    λ k. row k (Bool-cases (equal_bytes c.key k)),
  )
    where
      row :
          (k : Bytes)
          → (equal_bytes c.key k ≡ true) ⊎ (equal_bytes c.key k ≡ false)
          → Follows
              (keys_of e.table.name)
              (key_named e.table.name k)
              (lookup k ct'.entries)
              (db0 e.table.name k)
              (db' e.table.name k)
      row k (inl q) = (let same : k ≡ c.key = sym ((equal_bytes_iff c.key k).0 q) in rw same f)
      row k (inr q) =
          rw (rest k q, c.others e.table.name k (rw (equal_bytes_refl e.table.name, q) refl)) (h k)

  put_back-Tracked :
      (e : ChangesetEntry) (db0 db db' : Rows) (tables : Tables) (ct : ConcatTable)
      (r : Result ConcatTable)
      → (c : Changes e db db') → Tracks tables db0 db
      → TableTracks
          (keys_of e.table.name)
          (key_named e.table.name)
          e.table.name
          (some ct)
          (db0 e.table.name)
          (db e.table.name)
      → Accumulates
          (keys_of e.table.name)
          c.key
          (key_named e.table.name c.key)
          ct
          (db0 e.table.name c.key)
          (db' e.table.name c.key)
          r
      → (tables' : Tables) × (put_back e.table.name r tables ≡ (ok tt, tables'))
        × Tracks tables' db0 db'
  put_back-Tracked e db0 db db' tables ct (err x) c t h a = absurd a
  put_back-Tracked e db0 db db' tables ct (ok ct') c t h a = (
    insert e.table.name ct' tables,
    refl,
    record { at = λ n. table n (Bool-cases (equal_bytes e.table.name n)) },
  )
    where
      table :
          (n : Bytes)
          → (equal_bytes e.table.name n ≡ true) ⊎ (equal_bytes e.table.name n ≡ false)
          → TableTracks
              (keys_of n)
              (key_named n)
              n
              (lookup n (insert e.table.name ct' tables))
              (db0 n)
              (db' n)
      table n (inl q) =
          (let same : n ≡ e.table.name = sym ((equal_bytes_iff e.table.name n).0 q) in
            rw (same, lookup-insert e.table.name e.table.name, equal_bytes_refl e.table.name)
              (entry-TableTracks e db0 db db' ct ct' c h a))
      table n (inr q) =
          (let same : db' n ≡ db n = fun_ext (λ k. c.others n k (rw q refl)) in
            rw (lookup-insert e.table.name n ct' tables, q, same) (t.at n))

  -- The body of the loop.
  concat_entry-Tracks :
      (e : ChangesetEntry) (db0 db db' : Rows) (tables : Tables)
      → Changes e db db'
      → Tracks tables db0 db
      → (tables' : Tables) × (concat_entry format_int format_float bin_to_hex e tables
          ≡ (ok tt, tables'))
        × Tracks tables' db0 db'
  unfolding concat_entry
  concat_entry-Tracks e db0 db db' tables c t =
      let kept =
        kept_table e (lookup e.table.name tables) (db0 e.table.name) (db e.table.name) c.flags
          (t.at e.table.name) in
      rw c.keyed (
        put_back-Tracked e db0 db db' tables _ _ c t kept (
          concat_row-Accumulates (keys_of e.table.name) c.key (key_named e.table.name c.key) e
            (table_or_new e.table (lookup e.table.name tables)) (db0 e.table.name c.key)
            (db e.table.name c.key) (db' e.table.name c.key) kept.1 c.flags c.fits c.effective
            c.stands (kept.2 c.key) c.applies))

  -- The loop over the entries of one file.
  each-Tracks :
      (es : List ChangesetEntry) (db0 db db' : Rows) (tables : Tables)
      → AllChange es db db'
      → Tracks tables db0 db
      → (tables' : Tables) × (each (concat_entry format_int format_float bin_to_hex) es tables
          ≡ (ok tt, tables'))
        × Tracks tables' db0 db'
  unfolding each
  each-Tracks [] db0 db db' tables h t = (
    tables,
    refl,
    record { at = λ n. (let same : db' n ≡ db n = fun_ext (h n) in rw same (t.at n)) },
  )
  each-Tracks (e ∷ es) db0 db db' tables (mid, c, h) t =
      let (next, s, t') = concat_entry-Tracks e db0 db mid tables c t in
      rw s (each-Tracks es db0 mid db' next h t')

  -- The changes of the files, file after file.
  abbrev pub FilesChange : List (List Group) → Rows → Rows → Type 0
  FilesChange [] db db' = (n j : Bytes) → db' n j ≡ db n j
  FilesChange (gs ∷ files) db db' =
      (mid : Rows) × AllStorable gs
      × AllChange (stored_entries gs) db mid
      × FilesChange files mid db'

  files-Tracked :
      (files : List (List Group)) (db0 db db' : Rows) (tables : Tables)
      → FilesChange files db db'
      → Tracks tables db0 db
      → Tracked (concat_files format_int format_float bin_to_hex (map written files) tables) db0 db'
  unfolding concat_files
  files-Tracked [] db0 db db' tables h t = record {
    at = λ n. (let same : db' n ≡ db n = fun_ext (h n) in rw same (t.at n));
  }
  files-Tracked (gs ∷ files) db0 db db' tables (mid, storable, c, h) t =
      let (next, s, t') = each-Tracks (stored_entries gs) db0 db mid tables c t in
      let whole =
        (for_each-write_groups (concat_entry format_int format_float bin_to_hex) gs tables
          storable).1 in
      rw (whole, s) (files-Tracked files db0 mid db' next h t')

  -- Written files whose entries can be made to a database one after the other, where a key string stands
  -- for one key, each entry is well-formed, without a NaN or a negative zero, and has its table's key
  -- columns, and each UPDATE alters a column and gives none beside the key only one of its values, are read
  -- and accumulated without an error. Where nothing is kept for a row, it ends as it began. Where an entry
  -- is kept, it is well-formed, has the row's key, and leads from the row as it began to the row as it
  -- ends, which is another.
  pub concat_files-Tracked :
      (files : List (List Group)) (db db' : Rows)
      → FilesChange files db db'
      → Tracked (concat_files format_int format_float bin_to_hex (map written files) []) db db'
  unfolding lookup
  concat_files-Tracked files db db' h =
      files-Tracked files db db db' [] h (record { at = λ n k. refl })
