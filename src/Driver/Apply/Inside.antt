-- ===== src/Driver/Apply/Inside.antt =====
-- Steps inside a savepoint, and what SQLite documents of its savepoints.
use go_geodiff.Common.{
  ◌≡◌, ℕ, Bool, true, false, List, [], ◌∷◌, if◌then◌else◌, Bytes, codes, Option, none, some,
}
use go_geodiff.Common.Text.{has_one_of}
use go_geodiff.Result.{Error, Result, ok, err}
use go_geodiff.Driver.{failed, answered, Argument, Database, Step, continue, ◌>>=◌, lift}
use go_geodiff.Driver.Apply.{savepoint, rollback, release}

-- The statements that `ApplyChangeset` issues between the savepoint and its release.
unfoldable pub is_change : Bytes → Bool
is_change q = has_one_of q (
    codes "INSERT INTO "
    ∷ codes "UPDATE "
    ∷ codes "DELETE FROM "
    ∷ codes "DROP TRIGGER "
    ∷ codes "CREATE "
    ∷ codes "PRAGMA defer_foreign_keys"
    ∷ [])

abbrev pub AllCreate : List (Option (Bytes × Bytes)) → Type 0
AllCreate [] = Unit {0}
AllCreate (none ∷ rows) = AllCreate rows
AllCreate (some (name, cmd) ∷ rows) = (is_change cmd ≡ true) × AllCreate rows

-- SQLite's savepoints: `Inside s0 s` says that the savepoint was set in the state `s0` and that the
-- state is `s` since. A savepoint that fails changes nothing; statements that change rows or triggers
-- keep it, also when they fail; a release that fails keeps it; and going back to it and releasing it
-- restores the state. The listed commands of triggers are CREATE statements.
pub record Savepoints {S : Type 0} (db : Database S) (Inside : S → S → Type 0) : Type 0 where
  pub set :
      (s : S) (n : ℕ)
      → (db.exec savepoint [] s).0 ≡ answered n
      → Inside s (db.exec savepoint [] s).1
  pub unset :
      (s : S) (msg : Bytes)
      → (db.exec savepoint [] s).0 ≡ failed msg
      → (db.exec savepoint [] s).1 ≡ s
  pub kept :
      (q : Bytes) (args : List Argument) (s0 s : S)
      → is_change q ≡ true
      → Inside s0 s
      → Inside s0 (db.exec q args s).1
  pub unreleased :
      (s0 s : S) (msg : Bytes)
      → Inside s0 s
      → (db.exec release [] s).0 ≡ failed msg
      → Inside s0 (db.exec release [] s).1
  pub restored : (s0 s : S) → Inside s0 s → (db.exec release [] (db.exec rollback [] s).1).1 ≡ s0
  pub listed :
      (s : S) (rows : List (Option (Bytes × Bytes)))
      → db.trigger_rows s ≡ answered rows
      → AllCreate rows

module _ {S : Type 0} (Inside : S → S → Type 0) where
  -- A step that stays inside the savepoint, and one that does when it fails.
  pub record Keeps {A : Type 0} (m : Step S A) : Type 0 where
    pub runs : (s0 s : S) → Inside s0 s → Inside s0 (m s).1

  pub record Guarded {A : Type 0} (m : Step S A) : Type 0 where
    pub runs : (s0 s : S) (e : Error) → Inside s0 s → (m s).0 ≡ err e → Inside s0 (m s).1

module _ {S : Type 0} {Inside : S → S → Type 0} where
  pub continue-Keeps :
      {A B : Type 0} (r : Result A) (f : A → Step S B) (s0 s : S)
      → Inside s0 s
      → ((a : A) → Keeps Inside (f a))
      → Inside s0 (continue r f s).1
  continue-Keeps (ok a) f s0 s h k = (k a).runs s0 s h
  continue-Keeps (err e) f s0 s h k = h

  pub continue-Guarded :
      {A B : Type 0} (r : Result A) (f : A → Step S B) (s0 s : S) (e : Error)
      → Inside s0 s
      → ((a : A) → Guarded Inside (f a))
      → (continue r f s).0 ≡ err e
      → Inside s0 (continue r f s).1
  continue-Guarded (ok a) f s0 s e h k q = (k a).runs s0 s e h q
  continue-Guarded (err x) f s0 s e h k q = h

  pub bind-Keeps :
      {A B : Type 0} (m : Step S A) (f : A → Step S B)
      → Keeps Inside m
      → ((a : A) → Keeps Inside (f a))
      → Keeps Inside (m >>= f)
  bind-Keeps m f hm hf = record {
    runs = λ s0 s h. continue-Keeps (m s).0 f s0 (m s).1 (hm.runs s0 s h) hf;
  }

  pub bind-Guarded :
      {A B : Type 0} (m : Step S A) (f : A → Step S B)
      → Keeps Inside m
      → ((a : A) → Guarded Inside (f a))
      → Guarded Inside (m >>= f)
  bind-Guarded m f hm hf = record {
    runs = λ s0 s e h q. continue-Guarded (m s).0 f s0 (m s).1 e (hm.runs s0 s h) hf q;
  }

  pub lift-Keeps : {A : Type 0} (r : Result A) → Keeps Inside (lift r)
  lift-Keeps r = record { runs = λ s0 s h. h }

  pub if-Keeps :
      {A : Type 0} (b : Bool) (m n : Step S A)
      → Keeps Inside m
      → Keeps Inside n
      → Keeps Inside (if b then m else n)
  if-Keeps true m n hm hn = hm
  if-Keeps false m n hm hn = hn

  pub Keeps→Guarded : {A : Type 0} (m : Step S A) → Keeps Inside m → Guarded Inside m
  Keeps→Guarded m h = record { runs = λ s0 s e i q. h.runs s0 s i }

  pub if-Guarded :
      {A : Type 0} (b : Bool) (m n : Step S A)
      → Guarded Inside m
      → Guarded Inside n
      → Guarded Inside (if b then m else n)
  if-Guarded true m n hm hn = hm
  if-Guarded false m n hm hn = hn
