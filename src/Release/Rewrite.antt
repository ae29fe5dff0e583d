-- ===== src/Release/Rewrite.antt =====
-- The rewriting of a staged mix.exs in `command_stage` of scripts/release.py: three calls of
-- `re.sub`, and the search for what still couples the package to the workspace.
pub mod Matches
pub mod Rewritten
use autonomic.Common.{
  ℕ, zero, suc, ◌-◌, Bool, true, false, not, ◌||◌, Option, none, some, List, [], ◌∷◌, ◌++◌, ◌==◌,
  nat_eq, length, is_empty, if◌then◌else◌,
}
use autonomic.Common.Text.{codes}
use autonomic.Regex.{Regex, char, seq, alt, star, literal}
use autonomic.Regex.Edges.{leading_search}
use autonomic.Boundaries.Deps.{is_space, span}

-- Behind a prefix.
unfoldable pub strip : List ℕ → List ℕ → Option (List ℕ)
strip [] text = some text
strip (p ∷ ps) [] = none
strip (p ∷ ps) (c ∷ cs) = if p == c then strip ps cs else none

-- Behind the first occurrence of `close`.
unfoldable pub find_behind : List ℕ → List ℕ → Option (List ℕ)
unfolding strip
find_behind close [] = strip close []
find_behind close (c ∷ cs) = elim (strip close (c ∷ cs)) [
  | some rest ↦ some rest
  | none ↦ find_behind close cs
]

-- `re.sub` of an expression that matches no empty text. `matcher` gives what is left behind a match
-- at the start of a text; `skip` is the number of characters that the last match still covers.
unfoldable pub sub_from : (List ℕ → Option (List ℕ)) → List ℕ → ℕ → List ℕ → List ℕ
sub_from matcher repl skip [] = []
sub_from matcher repl (suc skip) (c ∷ cs) = sub_from matcher repl skip cs
sub_from matcher repl zero (c ∷ cs) = elim (matcher (c ∷ cs)) [
  | none ↦ c ∷ sub_from matcher repl zero cs
  | some rest ↦ repl ++ sub_from matcher repl (length cs - length rest) cs
]

unfoldable pub sub : (List ℕ → Option (List ℕ)) → List ℕ → List ℕ → List ℕ
unfolding sub_from
sub matcher repl text = sub_from matcher repl zero text

-- `opening.*?close`, where the dot matches newlines too.
unfoldable pub block : List ℕ → List ℕ → List ℕ → Option (List ℕ)
unfolding find_behind
block opening close text = elim (strip opening text) [
  | none ↦ none
  | some inner ↦ find_behind close inner
]

infixl 5 ◌>>=◌
abbrev pub ◌>>=◌ : Option (List ℕ) → (List ℕ → Option (List ℕ)) → Option (List ℕ)
none >>= f = none
some t >>= f = f t

-- `\s*`
abbrev pub skip_spaces : List ℕ → Option (List ℕ)
skip_spaces text = some (span is_space text).1

-- `[^"]+`
abbrev pub skip_unquoted : List ℕ → Option (List ℕ)
skip_unquoted text =
    let (taken, rest) = span (λ c. not (c == b'"')) text in
    if is_empty taken then none else some rest

-- `\{:autonomic,\s*path:\s*"[^"]+"\}`
unfoldable pub direct_path : List ℕ → Option (List ℕ)
unfolding strip span
direct_path text = do
  a ← strip (codes "{:autonomic,") text
  b ← skip_spaces a
  c ← strip (codes "path:") b
  d ← skip_spaces c
  e ← strip (codes "\"") d
  f ← skip_unquoted e
  strip (codes "\"}") f

abbrev pub core_opening : List ℕ
core_opening = codes "defp autonomic_dependency do"

abbrev pub sdk_opening : List ℕ
sdk_opening = codes "defp sdk_dependency do"

abbrev pub block_end : List ℕ
block_end = codes "\n  end"

-- The dependency that a consumer of the package resolves through Hex.
abbrev pub hex_dependency : List ℕ → List ℕ
hex_dependency version = codes "{:autonomic, \"~> " ++ (version ++ codes "\"}")

unfoldable pub rewrite_mix : List ℕ → List ℕ → List ℕ
unfolding sub block direct_path
rewrite_mix version content =
    let first =
      sub (block core_opening block_end)
        (codes "defp autonomic_dependency, do: " ++ hex_dependency version) content in
    let second = sub direct_path (hex_dependency version) first in
    sub (block sdk_opening block_end)
      (codes "defp sdk_dependency, do: {:typesafe_sdk, \"~> 0.4.0\"}") second

-- `\b(?:path|in_umbrella|apps_path|build_path|deps_path|config_path|lockfile)\s*:`, its boundary
-- left out here.
unfoldable pub coupling : Regex
coupling =
    seq
      (alt (literal (codes "path")) (
        alt (literal (codes "in_umbrella")) (
          alt (literal (codes "apps_path")) (
            alt (literal (codes "build_path")) (
              alt (literal (codes "deps_path"))
                (alt (literal (codes "config_path")) (literal (codes "lockfile"))))))))
      (seq (star (char is_space)) (literal (codes ":")))

unfoldable pub is_coupled : List ℕ → Bool
unfolding coupling
is_coupled text = leading_search coupling text
