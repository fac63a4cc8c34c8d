-- ===== src/Filters/Modes.antt =====
-- The table filter as a state machine: what the calls of its setters can reach, and what it then skips.
use go_geodiff.Common.{
  ◌≡◌, ◌≢◌, refl, ap, true, false, not, List, [], ◌∷◌, Bytes, equal_bytes_refl, ◌∙◌,
}
use go_geodiff.Common.Maps.{contains, contains-add, bytes_key}
use go_geodiff.Result.{Result, ok, err}
use go_geodiff.Filters.{
  TablesFilterMode, filter_none, filter_included, filter_skipped, Context, new_context, set_of,
  set_tables_to_skip, set_tables_to_include, skip_these, include_these, unless_included,
  unless_skipped, is_table_skipped,
}

pub data Call : Type 0 where
  to_skip to_include : List Bytes → Call

abbrev pub call : Call → Context → Result (Unit {0}) × Context
call (to_skip tables) = set_tables_to_skip tables
call (to_include tables) = set_tables_to_include tables

-- The contexts that a sequence of calls leads to, whatever they answer.
pub data Reachable : Context → Type 0 where
  started : Reachable new_context
  called : (k : Call) (c : Context) → Reachable c → Reachable (call k c).1

-- One list at most, and the one that the mode says, which is not empty.
abbrev ModeHas : TablesFilterMode → List Bytes → List Bytes → Type 0
ModeHas filter_none skip include' = (skip ≡ []) × (include' ≡ [])
ModeHas filter_included skip include' = (skip ≡ []) × (include' ≢ [])
ModeHas filter_skipped skip include' = (include' ≡ []) × (skip ≢ [])

abbrev pub IsConsistent : Context → Type 0
IsConsistent c = ModeHas c.filter_mode c.tables_to_skip c.tables_to_include

contains-set_of : (name : Bytes) (ts : List Bytes) → contains name (set_of ts) ≡ contains name ts
unfolding set_of contains
contains-set_of name [] = refl
contains-set_of name (t ∷ ts) = rw (contains-add t name (set_of ts), contains-set_of name ts) refl

-- A set of some names is not empty.
set_of_some : (t : Bytes) (ts : List Bytes) → set_of (t ∷ ts) ≢ []
unfolding contains
set_of_some t ts e =
    let found : contains t [] ≡ true = rw e at (contains-set_of t (t ∷ ts) ∙ first t ts) in cc
  where
    first : (t : Bytes) (ts : List Bytes) → contains t (t ∷ ts) ≡ true
    first t ts = rw (equal_bytes_refl t) refl

skip_these-IsConsistent : (ts : List Bytes) (c : Context) → IsConsistent (skip_these ts c)
skip_these-IsConsistent [] c = (refl, refl)
skip_these-IsConsistent (t ∷ ts) c = (refl, set_of_some t ts)

include_these-IsConsistent : (ts : List Bytes) (c : Context) → IsConsistent (include_these ts c)
include_these-IsConsistent [] c = (refl, refl)
include_these-IsConsistent (t ∷ ts) c = (refl, set_of_some t ts)

unless_included-IsConsistent :
    (m : TablesFilterMode) (ts : List Bytes) (c : Context)
    → IsConsistent c
    → IsConsistent (unless_included m ts c).1
unless_included-IsConsistent filter_included ts c h = h
unless_included-IsConsistent filter_none ts c h = skip_these-IsConsistent ts c
unless_included-IsConsistent filter_skipped ts c h = skip_these-IsConsistent ts c

unless_skipped-IsConsistent :
    (m : TablesFilterMode) (ts : List Bytes) (c : Context)
    → IsConsistent c
    → IsConsistent (unless_skipped m ts c).1
unless_skipped-IsConsistent filter_skipped ts c h = h
unless_skipped-IsConsistent filter_none ts c h = include_these-IsConsistent ts c
unless_skipped-IsConsistent filter_included ts c h = include_these-IsConsistent ts c

-- Whatever is called, and in whatever order, a context that is reached holds one list of tables at most:
-- none without a filter, and otherwise the one that its mode names, which is not empty.
pub reachable-IsConsistent : (c : Context) → Reachable c → IsConsistent c
unfolding set_tables_to_skip set_tables_to_include
reachable-IsConsistent _ started = (refl, refl)
reachable-IsConsistent _ (called (to_skip ts) c r) =
    unless_included-IsConsistent c.filter_mode ts c (reachable-IsConsistent c r)
reachable-IsConsistent _ (called (to_include ts) c r) =
    unless_skipped-IsConsistent c.filter_mode ts c (reachable-IsConsistent c r)

-- What is skipped once a setter was called. In the mode of the other setter it must have failed, and in
-- every other mode succeeded.
abbrev pub Filters : Bytes → Call → Context → Result (Unit {0}) × Context → Type 0
Filters name (to_skip ts) c (err e, c') = (c.filter_mode ≡ filter_included) × (c' ≡ c)
Filters name (to_skip ts) c (ok u, c') =
    (c.filter_mode ≢ filter_included) × (is_table_skipped name c' ≡ contains name ts)
Filters name (to_include ts) c (err e, c') = (c.filter_mode ≡ filter_skipped) × (c' ≡ c)
Filters name (to_include []) c (ok u, c') =
    (c.filter_mode ≢ filter_skipped) × (is_table_skipped name c' ≡ false)
Filters name (to_include (t ∷ ts)) c (ok u, c') =
    (c.filter_mode ≢ filter_skipped) × (is_table_skipped name c' ≡ not (contains name (t ∷ ts)))

skip_these-skips :
    (name : Bytes) (ts : List Bytes) (c : Context)
    → is_table_skipped name (skip_these ts c) ≡ contains name ts
unfolding is_table_skipped contains
skip_these-skips name [] c = refl
skip_these-skips name (t ∷ ts) c = contains-set_of name (t ∷ ts)

include_these-Filters :
    (name : Bytes) (ts : List Bytes) (c : Context)
    → c.filter_mode ≢ filter_skipped
    → Filters name (to_include ts) c (ok tt, include_these ts c)
unfolding is_table_skipped
include_these-Filters name [] c h = (h, refl)
include_these-Filters name (t ∷ ts) c h = (h, ap not (contains-set_of name (t ∷ ts)))

unless_included-Filters :
    (name : Bytes) (ts : List Bytes) (c : Context) (m : TablesFilterMode)
    → c.filter_mode ≡ m
    → Filters name (to_skip ts) c (unless_included m ts c)
unless_included-Filters name ts c filter_included e = (e, refl)
unless_included-Filters name ts c filter_none e = (λ q. cc (e, q), skip_these-skips name ts c)
unless_included-Filters name ts c filter_skipped e = (λ q. cc (e, q), skip_these-skips name ts c)

unless_skipped-Filters :
    (name : Bytes) (ts : List Bytes) (c : Context) (m : TablesFilterMode)
    → c.filter_mode ≡ m
    → Filters name (to_include ts) c (unless_skipped m ts c)
unless_skipped-Filters name ts c filter_skipped e = (e, refl)
unless_skipped-Filters name ts c filter_none e = include_these-Filters name ts c (λ q. cc (e, q))
unless_skipped-Filters name ts c filter_included e =
    include_these-Filters name ts c (λ q. cc (e, q))

-- SetTablesToSkip fails exactly while tables to include are set, SetTablesToInclude exactly while tables
-- to skip are set, for an empty list too, and a setter that fails changes nothing. After SetTablesToSkip
-- succeeds exactly the given tables are skipped, and after SetTablesToInclude exactly those that were
-- not given, or none for an empty list.
pub call-Filters : (name : Bytes) (k : Call) (c : Context) → Filters name k c (call k c)
unfolding set_tables_to_skip set_tables_to_include
call-Filters name (to_skip ts) c = unless_included-Filters name ts c c.filter_mode refl
call-Filters name (to_include ts) c = unless_skipped-Filters name ts c c.filter_mode refl
