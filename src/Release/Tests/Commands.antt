-- ===== src/Release/Tests/Commands.antt =====
-- The commands on a small checkout.
use autonomic.Common.{ℕ, true, false, some, List, [], ◌++◌, ◌≡◌, ◌↔◌, refl, ap, map, string_eq, All}
use autonomic.Common.Text.{codes}
use autonomic.Regex.{search_in, fullmatch, match, derive, nullable}
use autonomic.Regex.Matching.{Matches}
use autonomic.Regex.Edges.{trailing_search, leading_search}
use autonomic.Boundaries.{check_boundaries, mentions, forbidden_rules}
use autonomic.Boundaries.Deps.{parse_package_deps, span}
use autonomic.Boundaries.Rules.{PackageObeys}
use autonomic.Boundaries.Separated.{IsConfined}
use autonomic.Release.Packages.{topological_order, mix_text, tree_of}
use autonomic.Release.Check.{command_check, semantic_version}
use autonomic.Release.Check.Publishable.{IsPublishable, command_check_iff}
use autonomic.Release.Check.Ordered.{IsOrdered, command_check-IsOrdered}
use autonomic.Release.Rewrite.{strip, rewrite_mix, hex_dependency}
use autonomic.Release.Rewrite.Rewritten.{
  Rewritten, DependencyBlock, SdkBlock, rewrite_mix-Rewritten,
}
use autonomic.Release.Rewrite.Matches.{DirectPath}
use autonomic.Release.Stage.{
  Stage, empty_stage, returned, has_versions, version_of, is_core_version, stage_packages,
  on_success, command_stage,
}
use autonomic.Release.Stage.Complete.{HasVersion, IsDecoupled, staged_package, command_stage_iff}
use autonomic.Release.Build.{
  is_tar_of, tar_files, copy_tar, files_at, build_packages, command_build,
}
use autonomic.Release.Build.Tarballs.{IsBuilt, command_build-IsBuilt}
use autonomic.Release.Inspect.{
  residual_path, is_file, exists, read_entry, split_slash, is_mix_clean, has_inputs, bundles,
  is_accepted, inspect_packages, command_inspect,
}
use autonomic.Release.Inspect.Inspected.{IsInspected, inspect_packages_iff}
use autonomic.Release.Inspect.Released.{IsReleased, command_inspect-IsReleased}
use autonomic.Release.Samples.{sample_mix, sample_repository, sample_hex}

checked : command_check sample_repository ≡ 0
unfolding command_check check_boundaries parse_package_deps mentions search_in trailing_search
checked = refl

command_check_iff_example : (command_check sample_repository ≡ 0) ↔ (
    (sample_repository.has_lint ≡ true)
    × (sample_repository.has_root_project ≡ false)
    × All (PackageObeys (tree_of sample_repository)) forbidden_rules
    × All IsConfined sample_repository.sources
    × All (λ pkg. IsPublishable pkg (sample_repository.package_at pkg)) topological_order)
command_check_iff_example = command_check_iff sample_repository

command_check-IsOrdered_example :
    IsOrdered (λ pkg. mix_text (sample_repository.package_at pkg)) topological_order
command_check-IsOrdered_example = command_check-IsOrdered sample_repository checked

rewrite_mix-Rewritten_example :
    (first : List ℕ) × (second : List ℕ) × Rewritten DependencyBlock
      (codes "defp autonomic_dependency, do: " ++ hex_dependency (codes "0.1.0"))
      (sample_mix "autonomic_linux")
      first
    × Rewritten DirectPath (hex_dependency (codes "0.1.0")) first second
    × Rewritten SdkBlock
        (codes "defp sdk_dependency, do: {:typesafe_sdk, \"~> 0.4.0\"}")
        second
        (rewrite_mix (codes "0.1.0") (sample_mix "autonomic_linux"))
rewrite_mix-Rewritten_example = rewrite_mix-Rewritten (codes "0.1.0") (sample_mix "autonomic_linux")

abbrev sample_stage : Stage
sample_stage = (command_stage sample_repository "0.1.0" empty_stage).1

staged : (command_stage sample_repository "0.1.0" empty_stage).0 ≡ returned 0
unfolding command_stage fullmatch semantic_version has_versions strip span is_core_version
    stage_packages leading_search match
staged = refl

command_stage_iff_example :
    (command_stage sample_repository "0.1.0" empty_stage ≡ (returned 0, sample_stage)) ↔ (
      Matches semantic_version (codes "0.1.0")
      × (version_of (sample_repository.package_at "autonomic") ≡ some (codes "0.1.0"))
      × All (HasVersion sample_repository "0.1.0") topological_order
      × All (IsDecoupled sample_repository "0.1.0") topological_order
      × (sample_stage ≡ record {
        packages = map (staged_package sample_repository "0.1.0") topological_order;
        tarballs = [];
      }))
command_stage_iff_example = command_stage_iff sample_repository "0.1.0" empty_stage sample_stage

abbrev sample_build : Stage
sample_build = (command_build sample_repository sample_hex "0.1.0" empty_stage).1

built : (command_build sample_repository sample_hex "0.1.0" empty_stage).0 ≡ returned 0
unfolding command_stage fullmatch semantic_version has_versions strip span is_core_version
    stage_packages leading_search match on_success command_build build_packages
built = refl

command_build-IsBuilt_example :
    (s : Stage) × (command_stage sample_repository "0.1.0" empty_stage ≡ (returned 0, s))
    × (sample_build.packages ≡ s.packages)
    × All (IsBuilt sample_hex sample_build s.packages) topological_order
command_build-IsBuilt_example =
    command_build-IsBuilt sample_repository sample_hex "0.1.0" empty_stage sample_build
      (ap (λ o. (o, sample_build)) built)

abbrev sample_inspection : Stage
sample_inspection = (command_inspect sample_repository sample_hex "0.1.0" empty_stage).1

inspected : (command_inspect sample_repository sample_hex "0.1.0" empty_stage).0 ≡ returned 0
unfolding command_stage fullmatch semantic_version has_versions strip span is_core_version
    stage_packages leading_search match on_success command_build build_packages command_inspect
    inspect_packages is_accepted is_mix_clean is_file exists read_entry has_inputs mentions
    search_in derive nullable split_slash bundles tar_files copy_tar files_at is_tar_of
    residual_path
inspected = refl

command_inspect-IsReleased_example :
    All (IsDecoupled sample_repository "0.1.0") topological_order
    × All (IsReleased sample_repository sample_hex "0.1.0") topological_order
command_inspect-IsReleased_example =
    command_inspect-IsReleased sample_repository sample_hex "0.1.0" empty_stage sample_inspection
      (ap (λ o. (o, sample_inspection)) inspected)

inspect_packages_iff_example :
    (inspect_packages topological_order true sample_build ≡ returned 0)
    ↔ All (IsInspected sample_build) topological_order
inspect_packages_iff_example = inspect_packages_iff topological_order sample_build
