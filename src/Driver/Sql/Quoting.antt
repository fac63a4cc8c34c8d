-- ===== src/Driver/Sql/Quoting.antt =====
-- How SQL reads a quoted identifier, against `quoteIdent`.
use go_geodiff.Common.{
  ℕ, ◌≡◌, refl, ap, ◌∙◌, arith, ◌==◌, Bool, true, false, [], ◌∷◌, ◌++◌, append_assoc, if◌then◌else◌,
  Bytes, Option, none, some,
}
use go_geodiff.Common.Text.{replace_byte}
use go_geodiff.Driver.Sql.{double_quote, quote_ident}

-- Behind the opening quote: up to the first quote that no other follows, and what is left. Two quotes
-- in a row stand for one.
abbrev prepend : ℕ → Option (Bytes × Bytes) → Option (Bytes × Bytes)
prepend b none = none
prepend b (some (s, rest)) = some (b ∷ s, rest)

abbrev pub scan_quoted : Bytes → Option (Bytes × Bytes)
scan_quoted [] = none
scan_quoted (b ∷ []) = if b == double_quote then some ([], []) else none
scan_quoted (b ∷ c ∷ s) =
    let pair = scan_quoted s in
    let single = scan_quoted (c ∷ s) in
    if b == double_quote
    then if c == double_quote then prepend double_quote pair else some ([], c ∷ s)
    else prepend b single

-- An identifier in front of a text.
abbrev pub scan_identifier : Bytes → Option (Bytes × Bytes)
scan_identifier [] = none
scan_identifier (b ∷ s) = let rest = scan_quoted s in if b == double_quote then rest else none

-- A text that does not go on with a quote.
abbrev pub IsEnd : Bytes → Type 0
IsEnd [] = Unit {0}
IsEnd (b ∷ s) = (b == double_quote) ≡ false

scan_end : (rest : Bytes) → IsEnd rest → scan_quoted (double_quote ∷ rest) ≡ some ([], rest)
scan_end [] h = refl
scan_end (b ∷ rest) h = rw h refl

scan_other :
    (b : ℕ) (s : Bytes)
    → (b == double_quote) ≡ false
    → scan_quoted (b ∷ s) ≡ prepend b (scan_quoted s)
scan_other b [] h = rw h refl
scan_other b (c ∷ s) h = rw h refl

scan_body :
    (s rest : Bytes)
    → IsEnd rest
    → scan_quoted
        (replace_byte double_quote (double_quote ∷ double_quote ∷ []) s ++ (double_quote ∷ rest))
      ≡ some (s, rest)
unfolding replace_byte
scan_body [] rest h = scan_end rest h
scan_body (b ∷ s) rest h = go (scan_body s rest h) (b == double_quote) refl
  where
    go :
        scan_quoted (
            replace_byte double_quote (double_quote ∷ double_quote ∷ []) s ++ (double_quote ∷ rest))
          ≡ some (s, rest)
        → (q : Bool) → (b == double_quote) ≡ q
        → scan_quoted (
            ((if q then double_quote ∷ double_quote ∷ [] else b ∷ [])
              ++ replace_byte double_quote (double_quote ∷ double_quote ∷ []) s)
            ++ (double_quote ∷ rest))
          ≡ some (b ∷ s, rest)
    go ih true e = (let quote : b ≡ double_quote = ground arith in rw (ih, quote) refl)
    go ih false e = scan_other b _ e ∙ ap (prepend b) ih

-- SQL reads a quoted identifier back as the name that was quoted, whatever bytes the name has, and goes
-- on right behind it, if no quote follows there.
pub scan_identifier-quote_ident :
    (s rest : Bytes) → IsEnd rest → scan_identifier (quote_ident s ++ rest) ≡ some (s, rest)
unfolding quote_ident
scan_identifier-quote_ident s rest h =
    rw
      (append_assoc (replace_byte double_quote (double_quote ∷ double_quote ∷ []) s)
        (double_quote ∷ []) rest)
      (scan_body s rest h)
