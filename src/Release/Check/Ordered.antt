-- ===== src/Release/Check/Ordered.antt =====
-- The publication order against the declared dependencies.
use mathlib.Core.Path.{subst}
use autonomic.Common.{
  ℕ, zero, suc, String, some, List, [], ◌∷◌, ◌≡◌, sym, inl, inr, Bool-cases, All, string_eq,
}
use autonomic.Boundaries.{forbidden_rules}
use autonomic.Boundaries.Rules.{DependsOn, PackageObeys}
use autonomic.Release.Packages.{topological_order, Repository, has_file, mix_text, tree_of}
use autonomic.Release.Check.{command_check}
use autonomic.Release.Check.Publishable.{command_check_iff}

-- No package declares a dependency on one that is published after it.
abbrev pub IsOrdered : (String → List ℕ) → List String → Type 0
IsOrdered mix [] = Unit
IsOrdered mix (pkg ∷ pkgs) = All (λ later. ¬ DependsOn (mix pkg) later) pkgs × IsOrdered mix pkgs

obeyed_text :
    (repo : Repository) (pkg : String) (forbidden : List String)
    → PackageObeys (tree_of repo) (pkg, forbidden)
    → All (λ d. ¬ DependsOn (mix_text (repo.package_at pkg)) d) forbidden
unfolding tree_of
obeyed_text repo pkg forbidden (content, found, obeys) =
    elim (Bool-cases (has_file (repo.package_at pkg) "mix.exs")) [
      | inl there ↦
          let same : some (mix_text (repo.package_at pkg)) ≡ some content = rw there at found in
          subst (λ text. All (λ d. ¬ DependsOn text d) forbidden) (sym (cc same)) obeys.0
      | inr missing ↦ cc (rw missing at found)
    ]

-- What the rules forbid the n-th package.
forbidden_at : ℕ → List (String × List String) → List String
forbidden_at n [] = []
forbidden_at zero ((pkg, forbidden) ∷ rules) = forbidden
forbidden_at (suc n) (rule ∷ rules) = forbidden_at n rules

-- Where the pre-flight check passes, the publication order is topological: no mix.exs of the four
-- packages declares a dependency on a package that is published after its own.
pub command_check-IsOrdered :
    (repo : Repository)
    → command_check repo ≡ 0
    → IsOrdered (λ pkg. mix_text (repo.package_at pkg)) topological_order
unfolding forbidden_at
command_check-IsOrdered repo h =
    let (there, root, obeyed, confined, publishable) = (command_check_iff repo).0 h in
    let (core, (linux, (postgres, (typesafe, _)))) = obeyed in
    let after_core = obeyed_text repo "autonomic" (forbidden_at 0 forbidden_rules) core in
    let after_linux = obeyed_text repo "autonomic_linux" (forbidden_at 1 forbidden_rules) linux in
    let after_postgres =
      obeyed_text repo "autonomic_postgres" (forbidden_at 2 forbidden_rules) postgres in
    (
      (after_core.0, (after_core.1.0, (after_core.1.1.0, tt))),
      ((after_linux.0, (after_linux.1.0, tt)), ((after_postgres.1.0, tt), (tt, tt))),
    )
