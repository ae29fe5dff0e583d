-- ===== src/Release/Packages.antt =====
-- The packages in packages/, as scripts/release.py reads them.
use autonomic.Common.{
  ℕ, String, Bool, List, [], ◌∷◌, some, none, contains, string_eq, if◌then◌else◌,
}
use autonomic.Boundaries.{ElixirFile, Tree}
use autonomic.Release.Copy.{Folder, folder}

-- `TOPOLOGICAL_ORDER`
abbrev pub topological_order : List String
topological_order =
    "autonomic" ∷ "autonomic_linux" ∷ "autonomic_postgres" ∷ "autonomic_typesafe" ∷ []

-- A package: its folder, and the text of the file at each path below it.
pub record Package : Type 0 where
  pub tree : Folder
  pub read : List String → String → List ℕ

-- The repository: is scripts/lint_package_boundaries.py there, is there a mix.exs in the root, the
-- Elixir sources below the root, the packages by their names.
pub record Repository : Type 0 where
  pub has_lint : Bool
  pub has_root_project : Bool
  pub sources : List ElixirFile
  pub package_at : String → Package

abbrev pub files_of : Folder → List String
files_of (folder files dirs) = files

-- `(PACKAGES_DIR / pkg / name).is_file()`
abbrev pub has_file : Package → String → Bool
has_file p name = contains (files_of p.tree) name

abbrev pub mix_text : Package → List ℕ
mix_text p = p.read [] "mix.exs"

-- What scripts/lint_package_boundaries.py reads.
unfoldable pub tree_of : Repository → Tree
tree_of repo = record {
  has_root_project = repo.has_root_project;
  mix_file = λ pkg.
      if has_file (repo.package_at pkg) "mix.exs"
      then some (mix_text (repo.package_at pkg))
      else none;
  sources = repo.sources;
}
