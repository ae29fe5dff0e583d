-- ===== src/Release/Check/Publishable.antt =====
-- When the pre-flight check passes.
use autonomic.Common.{
  String, true, false, ◌||◌, none, List, [], ◌∷◌, ◌≡◌, ◌↔◌, ◌⊎◌, refl, inl, inr, arith, nat_eq, All,
  Bool-cases, Option-cases,
}
use autonomic.Regex.Matching.{MatchesInside, search_in_iff}
use autonomic.Regex.Edges.{MatchesTo, trailing_search_iff}
use autonomic.Boundaries.{mentions, forbidden_rules}
use autonomic.Boundaries.Rules.{Mentions, PackageObeys, mentions_iff}
use autonomic.Boundaries.Separated.{IsConfined, check_boundaries_iff}
use autonomic.Release.Packages.{topological_order, Package, Repository, has_file, mix_text, tree_of}
use autonomic.Release.Check.{
  app_identity, version_line, check_package, check_packages, command_check,
}

-- What a package must have, in its mix.exs and beside it.
pub record IsPublishable (pkg : String) (p : Package) : Type 0 where
  pub mix : has_file p "mix.exs" ≡ true
  pub identity : MatchesTo (app_identity pkg) false (mix_text p)
  pub version : MatchesInside version_line (mix_text p)
  pub license_metadata : Mentions "licenses: [\"MIT\"]" (mix_text p)
  pub package_metadata : Mentions "package:" (mix_text p) ⊎ Mentions "defp package" (mix_text p)
  pub description : Mentions "description:" (mix_text p)
  pub docs : Mentions "docs:" (mix_text p)
  pub readme : has_file p "README.md" ≡ true
  pub license : has_file p "LICENSE" ≡ true
  pub changelog : has_file p "CHANGELOG.md" ≡ true

check_package_iff :
    (pkg : String) (p : Package) → (check_package pkg p ≡ none) ↔ IsPublishable pkg p
unfolding check_package
check_package_iff pkg p = (
  λ h. record {
    mix = ground arith;
    identity = (trailing_search_iff _ _).0 (ground arith);
    version = (search_in_iff _ _).0 (ground arith);
    license_metadata = (mentions_iff _ _).0 (ground arith);
    package_metadata = elim (Bool-cases (mentions "package:" (mix_text p))) [
      | inl some_key ↦ inl ((mentions_iff _ _).0 some_key)
      | inr other ↦ inr ((mentions_iff _ _).0 (ground arith))
    ];
    description = (mentions_iff _ _).0 (ground arith);
    docs = (mentions_iff _ _).0 (ground arith);
    readme = ground arith;
    license = ground arith;
    changelog = ground arith;
  },
  λ ok.
      let content = mix_text p in
      let metadata : (mentions "package:" content || mentions "defp package" content) ≡ true =
        elim ok.package_metadata [
          | inl key ↦ ground (arith, (mentions_iff _ _).1 key)
          | inr fun ↦ ground (arith, (mentions_iff _ _).1 fun)
        ] in
      ground (
        arith,
        ok.mix,
        (trailing_search_iff _ content).1 ok.identity,
        (search_in_iff _ content).1 ok.version,
        (mentions_iff _ content).1 ok.license_metadata,
        metadata,
        (mentions_iff _ content).1 ok.description,
        (mentions_iff _ content).1 ok.docs,
        ok.readme,
        ok.license,
        ok.changelog,
      ),
)

check_packages_iff :
    (repo : Repository) (pkgs : List String)
    → (check_packages repo pkgs ≡ none) ↔ All (λ pkg. IsPublishable pkg (repo.package_at pkg)) pkgs
unfolding check_packages
check_packages_iff repo [] = (λ h. tt, λ h. refl)
check_packages_iff repo (pkg ∷ pkgs) =
    let first = check_package_iff pkg (repo.package_at pkg) in
    let rest = check_packages_iff repo pkgs in
    elim (Option-cases (check_package pkg (repo.package_at pkg))) [
      | inl good ↦ (
        λ h. (first.0 good, rest.0 (ground (arith, good))),
        λ (ok, oks). ground (arith, good, rest.1 oks),
      )
      | inr (c, bad) ↦ (λ h. absurd (ground (arith, bad)), λ (ok, oks). cc (bad, first.1 ok))
    ]

-- The pre-flight check exits with 0 exactly if the boundary lint is there and passes on the same
-- checkout, and each of the four packages has a mix.exs with its own name behind `app:`, a semantic
-- version, the MIT license, package metadata, a description and docs, and beside it a README.md, a
-- LICENSE and a CHANGELOG.md.
pub command_check_iff :
    (repo : Repository)
    → (command_check repo ≡ 0) ↔ (
        (repo.has_lint ≡ true)
        × (repo.has_root_project ≡ false)
        × All (PackageObeys (tree_of repo)) forbidden_rules
        × All IsConfined repo.sources
        × All (λ pkg. IsPublishable pkg (repo.package_at pkg)) topological_order)
unfolding command_check
command_check_iff repo =
    let lint = check_boundaries_iff (tree_of repo) in
    let packages = check_packages_iff repo topological_order in
    (
      λ h.
          let found : check_packages repo topological_order ≡ none = ground arith in
          let linted = lint.0 (ground arith) in
          (ground arith, linted.0, linted.1, linted.2, packages.0 found),
      λ (there, root, obey, confined, publishable).
          ground (arith, there, lint.1 (root, obey, confined), packages.1 publishable),
    )
