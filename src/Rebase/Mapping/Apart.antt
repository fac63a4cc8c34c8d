-- ===== src/Rebase/Mapping/Apart.antt =====
-- The new keys that the last loop of `findMappingForNewChangeset` gives to the inserts of a table, when it
-- meets them in ascending order.
use go_geodiff.Common.{
  ℕ, ◌+◌, ◌^◌, ◌≤◌, ◌<◌, ◌≡◌, refl, ap, ◌∙◌, arith, Bool, true, false, List, [], ◌∷◌, ◌==◌,
  if◌then◌else◌, Bytes, equal_bytes_refl, length, All, Option, none, some, Bool-cases, inl, inr,
}
use go_geodiff.Common.Maps.{
  lookup, insert, lookup-insert, contains, contains-add, add, nat_key, bytes_key,
}
use go_geodiff.Result.{ok, err, free_index_missing}
use go_geodiff.Rebase.{RebaseMapping, next_int64, add_pkey_mapping}
use go_geodiff.Rebase.Handlers.{rebased_pkey}
use go_geodiff.Rebase.Mapping.{Search, Step, take_free_index, remap}
use go_geodiff.Rebase.Mapping.Keys.{rebased_pkey-add}

-- Each key is above those before it.
abbrev pub Ascending : List ℕ → Type 0
Ascending [] = Unit {0}
Ascending (k ∷ ks) = All (λ j. k < j) ks × Ascending ks

abbrev pub Distinct : List ℕ → Type 0
Distinct [] = Unit {0}
Distinct (k ∷ ks) = (contains k ks ≡ false) × Distinct ks

-- The keys that the rows have after the rebase, none below the old one.
abbrev pub Keyed : RebaseMapping → Bytes → List ℕ → List ℕ → Type 0
Keyed m table [] [] = Unit {0}
Keyed m table (pk ∷ pks) (k ∷ ks) =
    (rebased_pkey m table pk ≡ ok k) × (pk ≤ k) × Keyed m table pks ks
Keyed m table _ _ = ⊥

-- The keys that are used already, and those to come, are in the room that an int64 has.
abbrev Below : ℕ → List ℕ → Type 0
Below n ks = (u : ℕ) → contains u ks ≡ true → u < n

take_free-next :
    (table : Bytes) (pk free : ℕ) (s : Search)
    → lookup table s.free_indices ≡ some free
    → free + 1 < 2 ^ 64
    → (take_free_index table pk s).1 ≡ record {
      mapping = add_pkey_mapping table pk free s.mapping;
      free_indices = insert table (free + 1) s.free_indices;
    }
unfolding take_free_index
take_free-next table pk free s h l =
    go (lookup table s.free_indices) h
    ∙ ap
        (λ n. record {
          mapping = add_pkey_mapping table pk free s.mapping;
          free_indices = insert table n s.free_indices;
        })
        (omega arith)
  where
    taken : Option ℕ → Step
    taken o = elim o [
      | none ↦ (err free_index_missing, s)
      | some n ↦ (
        ok tt,
        record {
          mapping = add_pkey_mapping table pk n s.mapping;
          free_indices = insert table (next_int64 n) s.free_indices;
        },
      )
    ]

    go :
        (o : Option ℕ)
        → o ≡ some free
        → (taken o).1 ≡ record {
          mapping = add_pkey_mapping table pk free s.mapping;
          free_indices = insert table (next_int64 free) s.free_indices;
        }
    go o e = rw e refl

-- What the loop has done to the keys of a table.
record Remapped (table : Bytes) (pks used : List ℕ) (s s' : Search) (ks : List ℕ) : Type 0 where
  keyed : Keyed s'.mapping table pks ks
  unused : All (λ k. contains k used ≡ false) ks
  distinct : Distinct ks
  others :
      (q : ℕ)
      → contains q pks ≡ false
      → rebased_pkey s'.mapping table q ≡ rebased_pkey s.mapping table q

not_after : (pk : ℕ) (pks : List ℕ) → All (λ j. pk < j) pks → contains pk pks ≡ false
unfolding contains
not_after pk [] h = refl
not_after pk (q ∷ pks) h = ground (arith, not_after pk pks h.1, h.0)

-- A key below all old keys is none of the new ones.
not-Keyed :
    (m : RebaseMapping) (table : Bytes) (pk : ℕ) (pks ks : List ℕ)
    → All (λ j. pk < j) pks
    → Keyed m table pks ks
    → contains pk ks ≡ false
unfolding contains
not-Keyed m table pk [] [] h k = refl
not-Keyed m table pk (q ∷ pks) (j ∷ ks) h k =
    ground (arith, not-Keyed m table pk pks ks h.1 k.2, h.0, k.1)
not-Keyed m table pk _ _ h k = absurd (ground arith)

less_used :
    (free : ℕ) (used ks : List ℕ)
    → All (λ k. contains k (add free used) ≡ false) ks
    → All (λ k. contains k used ≡ false) ks × (contains free ks ≡ false)
unfolding contains
less_used free used [] h = (tt, refl)
less_used free used (k ∷ ks) h =
    let (a, b) = less_used free used ks h.1 in
    (
      (ground (arith, contains-add free k used, h.0), a),
      ground (arith, contains-add free k used, h.0, b),
    )

remap-taken :
    (table : Bytes) (used : List ℕ) (pk : ℕ) (pks : List ℕ) (s : Search) (free : ℕ)
    → contains pk used ≡ true
    → lookup table s.free_indices ≡ some free
    → remap table used (pk ∷ pks) s ≡ remap table (add free used) pks (take_free_index table pk s).1
unfolding remap
remap-taken table used pk pks s free h e =
    ap (λ b. if b then found (lookup table s.free_indices) else remap table used pks s) h
    ∙ ap found e
  where
    found : Option ℕ → Step
    found o = elim o [
      | none ↦ (err free_index_missing, s)
      | some n ↦ remap table (add n used) pks (take_free_index table pk s).1
    ]

remap-kept :
    (table : Bytes) (used : List ℕ) (pk : ℕ) (pks : List ℕ) (s : Search)
    → contains pk used ≡ false
    → remap table used (pk ∷ pks) s ≡ remap table used pks s
unfolding remap
remap-kept table used pk pks s h = rw h refl

abbrev pub Kept : RebaseMapping → Bytes → ℕ → Type 0
Kept m table pk = rebased_pkey m table pk ≡ ok pk

still-Kept :
    (m : RebaseMapping) (table : Bytes) (pk free : ℕ) (pks : List ℕ)
    → All (λ j. pk < j) pks
    → All (Kept m table) pks
    → All (Kept (add_pkey_mapping table pk free m) table) pks
still-Kept m table pk free [] h k = tt
still-Kept m table pk free (q ∷ pks) h k =
    let apart : (pk == q) ≡ false = ground (arith, h.0) in
    (
      rebased_pkey-add m table pk free q
          ∙ ap (λ b. if b then ok free else rebased_pkey m table q) apart
          ∙ k.0,
      still-Kept m table pk free pks h.1 k.1,
    )

head_other :
    (q pk : ℕ) (pks : List ℕ)
    → contains q (pk ∷ pks) ≡ false
    → ((pk == q) ≡ false) × (contains q pks ≡ false)
unfolding contains
head_other q pk pks h = (ground (arith, h), ground (arith, h))

moved-Remapped :
    (table : Bytes) (pk free : ℕ) (pks used : List ℕ) (s s1 s' : Search) (ks : List ℕ)
    → s1.mapping ≡ add_pkey_mapping table pk free s.mapping
    → Below free used
    → contains pk used ≡ true
    → All (λ j. pk < j) pks
    → Remapped table pks (add free used) s1 s' ks
    → Remapped table (pk ∷ pks) used s s' (free ∷ ks)
moved-Remapped table pk free pks used s s1 s' ks m b h a r =
    let (unused, apart) = less_used free used ks r.unused in
    let same : (q : ℕ)
        → rebased_pkey s1.mapping table q
          ≡ (if pk == q then ok free else rebased_pkey s.mapping table q) =
      λ q. ap (λ n. rebased_pkey n table q) m ∙ rebased_pkey-add s.mapping table pk free q in
    let self : (pk == pk) ≡ true = ground arith in
    record {
      keyed = (
        r.others pk (not_after pk pks a)
            ∙ same pk
            ∙ ap (λ c. if c then ok free else rebased_pkey s.mapping table pk) self,
        omega (arith, b pk h),
        r.keyed,
      );
      unused = (fresh (contains free used) (b free), unused);
      distinct = (apart, r.distinct);
      others = λ q e.
          let (p, n) = head_other q pk pks e in
          r.others q n ∙ same q ∙ ap (λ c. if c then ok free else rebased_pkey s.mapping table q) p;
    }
  where
    fresh : (c : Bool) → (c ≡ true → free < free) → c ≡ false
    fresh true l = absurd (omega (arith, l refl))
    fresh false l = refl

unchanged-Remapped :
    (table : Bytes) (pk : ℕ) (pks used : List ℕ) (s s' : Search) (ks : List ℕ)
    → contains pk used ≡ false
    → All (λ j. pk < j) pks
    → Kept s.mapping table pk
    → Remapped table pks used s s' ks
    → Remapped table (pk ∷ pks) used s s' (pk ∷ ks)
unchanged-Remapped table pk pks used s s' ks h a k r = record {
  keyed = (r.others pk (not_after pk pks a) ∙ k, omega arith, r.keyed);
  unused = (h, r.unused);
  distinct = (not-Keyed s'.mapping table pk pks ks a r.keyed, r.distinct);
  others = λ q e. r.others q (head_other q pk pks e).1;
}

Below-add : (free : ℕ) (used : List ℕ) → Below free used → Below (free + 1) (add free used)
Below-add free used b u h = by_test (free == u) refl (contains u used) refl
  where
    by_test : (c : Bool) → (free == u) ≡ c → (d : Bool) → contains u used ≡ d → u < free + 1
    by_test true e d g = ground (arith, e)
    by_test false e true g = omega (arith, b u g)
    by_test false e false g = ground (arith, contains-add free u used, h, e, g)

remap-Remapped :
    (table : Bytes) (pks used : List ℕ) (s : Search) (free : ℕ)
    → lookup table s.free_indices ≡ some free
    → Below free used
    → Ascending pks
    → All (Kept s.mapping table) pks
    → free + length pks < 2 ^ 64
    → (s' : Search) × (ks : List ℕ) × (remap table used pks s ≡ (ok tt, s'))
      × Remapped table pks used s s' ks
remap-Remapped table [] used s free f b a k l = (
  s,
  [],
  unfold remap in refl,
  record { keyed = tt; unused = tt; distinct = tt; others = λ q h. refl },
)
remap-Remapped table (pk ∷ pks) used s free f b a k l = elim (Bool-cases (contains pk used)) [
  | inl h ↦
      let s1 : Search = record {
        mapping = add_pkey_mapping table pk free s.mapping;
        free_indices = insert table (free + 1) s.free_indices;
      } in
      let (s', ks, runs, r) =
        remap-Remapped table pks (add free used) s1 (free + 1)
          (lookup-insert table table (free + 1) s.free_indices
            ∙ ap (λ c. if c then some (free + 1) else lookup table s.free_indices)
                (equal_bytes_refl table))
          (Below-add free used b) a.1 (still-Kept s.mapping table pk free pks a.0 k.1)
          (omega (arith, l)) in
      (
        s',
        free ∷ ks,
        remap-taken table used pk pks s free h f
            ∙ ap (remap table (add free used) pks)
                (take_free-next table pk free s f (omega (arith, l)))
            ∙ runs,
        moved-Remapped table pk free pks used s s1 s' ks refl b h a.0 r,
      )
  | inr h ↦
      let (s', ks, runs, r) = remap-Remapped table pks used s free f b a.1 k.1 (omega (arith, l)) in
      (
        s',
        pk ∷ ks,
        remap-kept table used pk pks s h ∙ runs,
        unchanged-Remapped table pk pks used s s' ks h a.0 k.0 r,
      )
]

below : (free : ℕ) (used : List ℕ) → All (λ u. u < free) used → Below free used
unfolding contains
below free [] h u e = cc
below free (v ∷ used) h u e = ground (arith, h.0, e, below free used h.1 u)

-- Where the loop meets the inserts of a table in ascending order, no key has a new one yet, and the free index of
-- the table is above the keys in use and far enough from 2 ^ 64: it ends without an error, the keys that the
-- rows then have are pairwise different, and none of them is a key in use.
pub remap-Distinct :
    (table : Bytes) (pks used : List ℕ) (s : Search) (free : ℕ)
    → lookup table s.free_indices ≡ some free
    → All (λ u. u < free) used
    → Ascending pks
    → All (Kept s.mapping table) pks
    → free + length pks < 2 ^ 64
    → (s' : Search) × (ks : List ℕ) × (remap table used pks s ≡ (ok tt, s'))
      × Keyed s'.mapping table pks ks
      × Distinct ks
      × All (λ k. contains k used ≡ false) ks
remap-Distinct table pks used s free f b a k l =
    let (s', ks, runs, r) = remap-Remapped table pks used s free f (below free used b) a k l in
    (s', ks, runs, r.keyed, r.distinct, r.unused)
