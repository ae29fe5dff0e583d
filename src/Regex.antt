-- ===== src/Regex.antt =====
-- Python's regular expressions, as far as scripts/qc.py, scripts/release.py and
-- scripts/lint_package_boundaries.py use them to test a text: classes, sequence, choice and
-- repetition, matched by derivatives. A text is the list of its bytes.
pub mod Matching
pub mod Words
pub mod Edges
use autonomic.Common.{ℕ, zero, suc, Bool, true, false, ◌&&◌, ◌||◌, List, [], ◌∷◌, ◌≡◌, refl, arith}
use autonomic.Common.{◌==◌, nat_eq, leb, if◌then◌else◌}

pub data Regex : Type 0 where
  never : Regex
  empty : Regex
  char : (ℕ → Bool) → Regex
  seq : Regex → Regex → Regex
  alt : Regex → Regex → Regex
  star : Regex → Regex

-- A literal text.
abbrev pub literal : List ℕ → Regex
literal [] = empty
literal (c ∷ cs) = seq (char (λ d. d == c)) (literal cs)

-- `r?`, `r+` and `r{n}`
abbrev pub optional : Regex → Regex
optional r = alt empty r

abbrev pub plus : Regex → Regex
plus r = seq r (star r)

abbrev pub times : ℕ → Regex → Regex
times zero r = empty
times (suc n) r = seq r (times n r)

-- `[a-b]`
abbrev pub range : ℕ → ℕ → ℕ → Bool
range a b c = leb a c && leb c b

-- Does `r` match the empty text?
unfoldable pub nullable : Regex → Bool
nullable never = false
nullable empty = true
nullable (char p) = false
nullable (seq r s) = nullable r && nullable s
nullable (alt r s) = nullable r || nullable s
nullable (star r) = true

-- What is left of `r` behind the byte `c`.
unfoldable pub derive : ℕ → Regex → Regex
unfolding nullable
derive c never = never
derive c empty = never
derive c (char p) = if p c then empty else never
derive c (seq r s) =
    if nullable r then alt (seq (derive c r) s) (derive c s) else seq (derive c r) s
derive c (alt r s) = alt (derive c r) (derive c s)
derive c (star r) = seq (derive c r) (star r)

-- `re.fullmatch(r, text)` succeeds.
unfoldable pub fullmatch : Regex → List ℕ → Bool
unfolding nullable derive
fullmatch r [] = nullable r
fullmatch r (c ∷ cs) = fullmatch (derive c r) cs

-- `re.match(r, text)` succeeds: `r` matches a beginning of the text.
unfoldable pub match : Regex → List ℕ → Bool
unfolding nullable derive
match r [] = nullable r
match r (c ∷ cs) = nullable r || match (derive c r) cs

-- `re.search(r, text)` succeeds: `r` matches somewhere in the text.
unfoldable pub search_in : Regex → List ℕ → Bool
unfolding match
search_in r [] = match r []
search_in r (c ∷ cs) = match r (c ∷ cs) || search_in r cs
