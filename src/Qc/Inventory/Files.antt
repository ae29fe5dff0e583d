-- ===== src/Qc/Inventory/Files.antt =====
-- The files of the checkout, and which of them scripts/qc.py looks at.
use autonomic.Common.{
  ℕ, String, ◌<>◌, Bool, true, false, not, Option, List, [], ◌∷◌, ◌==◌, string_eq, nat_eq, any,
  select, contains, if◌then◌else◌,
}
use autonomic.Common.Text.{codes, text_eq}

-- A file that `ROOT.rglob("*")` finds: its parts below the root, its bytes unless they cannot be
-- read, its text as `read_text(errors="replace")` decodes it unless it cannot be read, and the
-- exception that `json.loads(p.read_text(encoding="utf-8"))` raises on it, if it does.
pub record SourceFile : Type 0 where
  pub parts : List String
  pub bytes : Option (List ℕ)
  pub text : Option (List ℕ)
  pub json_error : Option String

-- The parts of `ROOT` itself, the files in the order of the walk, and what `tomllib` says of the
-- launcher's manifest.
pub record Checkout : Type 0 where
  pub root_parts : List String
  pub files : List SourceFile
  pub manifest_error : Option String

abbrev pub skip_dirs : List String
skip_dirs =
    "_build" ∷ "deps" ∷ "target" ∷ ".git" ∷ "artifacts" ∷ "doc" ∷ "__pycache__" ∷ "var" ∷ "cover"
    ∷ ".elixir_ls" ∷ "_release_stage" ∷ []

-- `any(part in SKIP_DIRS for part in parts)`
unfoldable pub is_skipped : List String → Bool
is_skipped parts = any (λ part. contains skip_dirs part) parts

unfoldable pub source_files : Checkout → List SourceFile
unfolding is_skipped
source_files c = select (λ f. not (is_skipped f.parts)) c.files

-- `str(p.relative_to(ROOT))`
abbrev pub path_text : List String → String
path_text [] = "."
path_text (p ∷ []) = p
path_text (p ∷ q ∷ ps) = p <> ("/" <> path_text (q ∷ ps))

abbrev pub last_part : List String → String
last_part [] = ""
last_part (p ∷ []) = p
last_part (p ∷ q ∷ ps) = last_part (q ∷ ps)

-- `Path.suffix` of a name: from its last dot, which is neither its first nor its last character.
suffix_from : (found : List ℕ) → (first : Bool) → List ℕ → List ℕ
suffix_from found first [] = found
suffix_from found first (c ∷ cs) =
    suffix_from
      (if c == b'.' then (if first then found else if cs == [] then [] else c ∷ cs) else found)
      false cs

unfoldable pub suffix : String → List ℕ
unfolding suffix_from
suffix name = suffix_from [] true (codes name)
