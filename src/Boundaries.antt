-- ===== src/Boundaries.antt =====
-- scripts/lint_package_boundaries.py: which packages may depend on which.
pub mod Deps
pub mod Rules
pub mod Separated
mod Tests
use autonomic.Common.{
  ℕ, String, Bool, true, false, not, ◌&&◌, ◌||◌, Option, none, some, List, [], ◌∷◌, ◌++◌, ◌==◌,
  string_eq, map, any, select, is_empty, contains, if◌then◌else◌,
}
use autonomic.Common.Text.{codes, text_eq}
use autonomic.Regex.{literal, search_in}
use autonomic.Boundaries.Deps.{parse_package_deps}

-- `FORBIDDEN_RULES`
abbrev pub forbidden_rules : List (String × List String)
forbidden_rules =
    (
      "autonomic",
      "autonomic_linux" ∷ "autonomic_postgres" ∷ "autonomic_typesafe" ∷ "autonomic_store"
          ∷ "autonomic_kernel" ∷ "ecto_sql" ∷ "postgrex" ∷ "typesafe_sdk" ∷ [],
    )
    ∷ ("autonomic_linux", "autonomic_postgres" ∷ "autonomic_typesafe" ∷ "autonomic_store" ∷ [])
    ∷ ("autonomic_postgres", "autonomic_linux" ∷ "autonomic_typesafe" ∷ [])
    ∷ ("autonomic_typesafe", "autonomic_linux" ∷ "autonomic_postgres" ∷ "autonomic_store" ∷ [])
    ∷ []

-- A file below the root that `rglob("*.ex*")` finds: the parts of its path, and its text.
pub record ElixirFile : Type 0 where
  pub parts : List String
  pub text : List ℕ

-- The checkout: is there a mix.exs in its root, the text of each package's mix.exs, the sources.
pub record Tree : Type 0 where
  pub has_root_project : Bool
  pub mix_file : String → Option (List ℕ)
  pub sources : List ElixirFile

pub data Violation : Type 0 where
  root_project : Violation
  missing_mix no_core umbrella apps_path examples_dev : String → Violation
  forbidden_present : String → List String → Violation
  escaped : List String → Violation

-- `if test: violations.append(v)`
abbrev pub report_if : Bool → Violation → List Violation
report_if test v = if test then v ∷ [] else []

-- `text in content`
unfoldable pub mentions : String → List ℕ → Bool
mentions text content = search_in (literal (codes text)) content

unfoldable pub text_violations : String → List String → List ℕ → List Violation
text_violations pkg forbidden content =
    let actual_deps = parse_package_deps content in
    let present = select (λ d. contains actual_deps (codes d)) forbidden in
    report_if (not (is_empty present)) (forbidden_present pkg present)
    ++ (report_if (not (pkg == "autonomic") && not (contains actual_deps (codes "autonomic")))
          (no_core pkg)
        ++ (report_if
              (mentions "in_umbrella: true" content || mentions "in_umbrella: :true" content)
              (umbrella pkg)
            ++ (report_if (mentions "apps_path" content) (apps_path pkg)
                ++ report_if (contains actual_deps (codes "autonomic_examples_dev"))
                    (examples_dev pkg))))

unfoldable pub package_violations : Tree → String × List String → List Violation
unfolding text_violations
package_violations tree (pkg, forbidden) = elim (tree.mix_file pkg) [
  | none ↦ missing_mix pkg ∷ []
  | some content ↦ text_violations pkg forbidden content
]

-- The files of examples/ and of what is built or fetched are passed over.
unfoldable pub is_exempt : List String → Bool
is_exempt parts =
    contains parts "examples"
    || any (λ part. contains ("deps" ∷ "_build" ∷ "_release_stage" ∷ []) part) parts

unfoldable pub source_violations : ElixirFile → List Violation
unfolding is_exempt
source_violations f =
    if is_exempt f.parts then [] else report_if (mentions "Autonomic.Dev." f.text) (escaped f.parts)

-- The loops over packages and files.
abbrev pub concat_map : {A : Type 0} → (A → List Violation) → List A → List Violation
concat_map f [] = []
concat_map f (x ∷ xs) = f x ++ concat_map f xs

unfoldable pub violations : Tree → List Violation
unfolding package_violations source_violations
violations tree =
    report_if tree.has_root_project root_project
    ++ (concat_map (package_violations tree) forbidden_rules
        ++ concat_map source_violations tree.sources)

unfoldable pub check_boundaries : Tree → ℕ
unfolding violations
check_boundaries tree = if is_empty (violations tree) then 0 else 1
