-- ===== src/Release/Inspect/Released.antt =====
-- Staging, building and inspecting together.
use mathlib.Core.Path.{subst}
use autonomic.Common.{String, true, List, ◌≡◌, ap, string_eq, contains_iff, All, In, map}
use autonomic.Release.Packages.{topological_order, Repository}
use autonomic.Release.Stage.{Files, Entry, entries, archive, Stage, returned}
use autonomic.Release.Stage.Complete.{staged_package, IsDecoupled, command_stage_iff}
use autonomic.Release.Stage.Success.{on_success-returned}
use autonomic.Release.Build.{Hex, files_at, command_build}
use autonomic.Release.Build.Tarballs.{BuiltFirst, IsBuilt, command_build-IsBuilt}
use autonomic.Release.Inspect.{inspect_packages, command_inspect}
use autonomic.Release.Inspect.Distributable.{IsDistributable}
use autonomic.Release.Inspect.Inspected.{IsInspected, inspect_packages_iff}

module _ (repo : Repository) (hex : Hex) (version : String) where
  -- What `mix hex.build` made of the package as it is staged is a tarball whose contents are
  -- distributable.
  abbrev pub IsReleased : String → Type 0
  IsReleased pkg =
      (name : String) × (members : List String) × (files : List Entry) × BuiltFirst hex pkg
        (staged_package repo version pkg).1 name (archive members (entries files))
      × In "contents.tar.gz" members
      × IsDistributable pkg files

  IsBuilt-IsReleased :
      (out : Stage) (packages : List (String × Files)) (pkg : String)
      → files_at pkg packages ≡ (staged_package repo version pkg).1
      → IsBuilt hex out packages pkg
      → IsInspected out pkg
      → IsReleased pkg
  IsBuilt-IsReleased out packages pkg same (name, tar, built, only)
        (files, ((n, members, rest, found, there), good)) =
      let tar_same : tar ≡ archive members (entries files) = cc (only, found) in
      (
        name,
        members,
        files,
        subst (λ fs. BuiltFirst hex pkg fs name (archive members (entries files))) same
            (subst (BuiltFirst hex pkg (files_at pkg packages) name) tar_same built),
        (contains_iff members _).0 there,
        good,
      )

-- An inspection that succeeds has staged and built the same checkout before. Then no package's
-- staged mix.exs couples it to the workspace, and for each package, whatever the stage held
-- before, `mix hex.build` made from the copied files with the rewritten mix.exs a tarball whose
-- contents are distributable: a mix.exs with no `path:` and no `in_umbrella: true`, the installation
-- inputs, README.md, LICENSE and CHANGELOG.md, and no build output, dependency, .git, .env or target.
pub command_inspect-IsReleased :
    (repo : Repository) (hex : Hex) (version : String) (s out : Stage)
    → command_inspect repo hex version s ≡ (returned 0, out)
    → All (IsDecoupled repo version) topological_order
      × All (IsReleased repo hex version) topological_order
unfolding command_inspect files_at
command_inspect-IsReleased repo hex version s out h =
    let (done, inspected) =
      on_success-returned (command_build repo hex version s)
        (λ b. (inspect_packages topological_order true b, b)) out h in
    let same_stage : (command_build repo hex version s).1 ≡ out = ap (λ r. r.1) inspected in
    let built : command_build repo hex version s ≡ (returned 0, out) = cc done in
    let passed : inspect_packages topological_order true out ≡ returned 0 =
      subst (λ b. inspect_packages topological_order true b ≡ returned 0) same_stage
        (ap (λ r. r.0) inspected) in
    let (staged, ran, same, tars) = command_build-IsBuilt repo hex version s out built in
    let (semantic, core, versions, free, stage) = (command_stage_iff repo version s staged).0 ran in
    let files : (pkg : String)
        → files_at pkg staged.packages
          ≡ files_at pkg (map (staged_package repo version) topological_order) =
      λ pkg. ap (λ r. files_at pkg r.packages) stage in
    let released = IsBuilt-IsReleased repo hex version out staged.packages in
    let (i1, (i2, (i3, (i4, _)))) = (inspect_packages_iff topological_order out).0 passed in
    let (b1, (b2, (b3, (b4, _)))) = tars in
    (
      free,
      (
        released "autonomic" (files _) b1 i1,
        (
          released "autonomic_linux" (files _) b2 i2,
          (
            released "autonomic_postgres" (files _) b3 i3,
            (released "autonomic_typesafe" (files _) b4 i4, tt),
          ),
        ),
      ),
    )
