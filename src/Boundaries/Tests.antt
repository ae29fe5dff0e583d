-- ===== src/Boundaries/Tests.antt =====
-- Checkouts that pass the lint and that do not.
use autonomic.Common.{
  ℕ, String, Bool, false, Option, some, List, [], ◌∷◌, ◌≡◌, refl, ◌↔◌, ◌==◌, string_eq, All, In,
  if◌then◌else◌,
}
use autonomic.Common.Text.{codes}
use autonomic.Regex.{search_in}
use autonomic.Boundaries.Deps.{parse_package_deps}
use autonomic.Boundaries.Deps.Declared.{Declares, parse_package_deps_iff}
use autonomic.Boundaries.{
  Tree, forbidden_rules, check_boundaries, violations, mentions, forbidden_present, escaped,
}
use autonomic.Boundaries.Rules.{PackageObeys}
use autonomic.Boundaries.Separated.{IsConfined, check_boundaries_iff}

abbrev adapter : List ℕ
adapter = codes "deps: [{:autonomic, path: a}, { :jason , v}]"

abbrev mixes : String → Option (List ℕ)
mixes pkg = some (if pkg == "autonomic" then codes "deps: [{:jason, v}]" else adapter)

abbrev good_tree : Tree
good_tree = record {
  has_root_project = false;
  mix_file = mixes;
  sources =
      record { parts = "examples" ∷ "a.ex" ∷ []; text = codes "Autonomic.Dev.Store" }
      ∷ record { parts = "packages" ∷ "b.ex" ∷ []; text = codes "Autonomic.Store" }
      ∷ [];
}

-- A store that depends on another adapter, and a module that has escaped from examples/.
abbrev bad_tree : Tree
bad_tree = record {
  has_root_project = false;
  mix_file = λ pkg.
      if pkg == "autonomic_linux"
      then some (codes "{:autonomic, a}, {:autonomic_postgres, b}")
      else mixes pkg;
  sources = record { parts = "packages" ∷ "b.ex" ∷ []; text = codes "Autonomic.Dev.Store" } ∷ [];
}

found_deps : parse_package_deps adapter ≡ codes "autonomic" ∷ codes "jason" ∷ []
unfolding parse_package_deps
found_deps = refl

good_passes : check_boundaries good_tree ≡ 0
unfolding check_boundaries parse_package_deps search_in mentions
good_passes = refl

bad_fails :
    violations bad_tree
    ≡ forbidden_present "autonomic_linux" ("autonomic_postgres" ∷ [])
      ∷ escaped ("packages" ∷ "b.ex" ∷ [])
      ∷ []
unfolding violations parse_package_deps search_in mentions
bad_fails = refl

parse_package_deps_iff_example :
    In (codes "jason") (parse_package_deps adapter) ↔ Declares adapter (codes "jason")
parse_package_deps_iff_example = parse_package_deps_iff adapter (codes "jason")

check_boundaries_iff_example : (check_boundaries good_tree ≡ 0) ↔ (
    (◌≡◌ {A = Bool} false false)
    × All (PackageObeys good_tree) forbidden_rules
    × All IsConfined good_tree.sources)
check_boundaries_iff_example = check_boundaries_iff good_tree

-- What the lint does not look at: `in_umbrella: true` outside the four mix.exs, and a dependency of
-- a package that no rule forbids it.
abbrev lax_tree : Tree
lax_tree = record {
  has_root_project = false;
  mix_file = λ pkg.
      if pkg == "autonomic_linux"
      then some (codes "{:autonomic, a}, {:postgrex, b}")
      else mixes pkg;
  sources =
      record {
        parts = "integration" ∷ "autonomic_acceptance" ∷ "mix.exs" ∷ [];
        text = codes "{:autonomic, in_umbrella: true}";
      }
      ∷ [];
}

lax_passes : check_boundaries lax_tree ≡ 0
unfolding check_boundaries parse_package_deps search_in mentions
lax_passes = refl
