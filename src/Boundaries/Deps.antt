-- ===== src/Boundaries/Deps.antt =====
-- `parse_package_deps` of scripts/lint_package_boundaries.py, over a text of code points.
use autonomic.Common.{
  ℕ, Bool, true, false, not, ◌&&◌, ◌||◌, Option, none, some, List, [], ◌∷◌, ◌==◌, nat_eq, is_empty,
  if◌then◌else◌,
}
use autonomic.Regex.{range}
pub mod Declared

-- `\s`
abbrev pub is_space : ℕ → Bool
is_space c =
    range 9 13 c
    || range 28 32 c
    || c == 133
    || c == 160
    || c == 5760
    || range 8192 8202 c
    || range 8232 8233 c
    || c == 8239
    || c == 8287
    || c == 12288

-- `[a-zA-Z0-9_]`
abbrev pub is_word : ℕ → Bool
is_word c = range b'a' b'z' c || range b'A' b'Z' c || range b'0' b'9' c || c == b'_'

-- What a greedy repetition of a class takes, and what it leaves.
unfoldable pub span : (ℕ → Bool) → List ℕ → List ℕ × List ℕ
span p [] = ([], [])
span p (c ∷ cs) = let (taken, rest) = span p cs in if p c then (c ∷ taken, rest) else ([], c ∷ cs)

abbrev pub begins : ℕ → List ℕ → Bool
begins a [] = false
begins a (c ∷ cs) = c == a

abbrev pub tail : List ℕ → List ℕ
tail [] = []
tail (c ∷ cs) = cs

-- The group of `\{\s*:([a-zA-Z0-9_]+)\s*,` where it matches from the start of a text. No class of
-- the expression has a character that the next part can start with, so that nothing is tried
-- twice.
unfoldable pub dep_at : List ℕ → Option (List ℕ)
unfolding span
dep_at text =
    let after = (span is_space (tail text)).1 in
    let word = span is_word (tail after) in
    let behind = (span is_space word.1).1 in
    if begins b'{' text && begins b':' after && not (is_empty word.0) && begins b',' behind
    then some word.0
    else none

-- `re.findall`. A match has its only brace at its start, so that no match starts within another.
unfoldable pub parse_package_deps : List ℕ → List (List ℕ)
unfolding dep_at
parse_package_deps [] = []
parse_package_deps (c ∷ cs) = elim (dep_at (c ∷ cs)) [
  | none ↦ parse_package_deps cs
  | some name ↦ name ∷ parse_package_deps cs
]
