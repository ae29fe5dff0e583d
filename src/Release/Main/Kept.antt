-- ===== src/Release/Main/Kept.antt =====
-- Every command keeps every stage tidy.
use autonomic.Common.{
  String, true, List, [], ◌∷◌, inl, inr, ◌==◌, nat_eq, string_eq, All, All-tabulate, In, Bool-cases,
  List-cases,
}
use autonomic.Release.Packages.{topological_order, Repository}
use autonomic.Release.Stage.{Stage, Outcome, returned, raised, on_success, command_stage}
use autonomic.Release.Build.{Hex, tar_files, copy_tar, files_at, build_packages, command_build}
use autonomic.Release.Build.Clashes.{tar_files-head}
use autonomic.Release.Inspect.{inspect_packages, command_inspect}
use autonomic.Release.Main.{
  Stages, Command, check, stage, build, inspect, publish, given_version, in_stage, main, main_runs,
}
use autonomic.Release.Main.Tidy.{IsTidy, command_stage-IsTidy, copy_tar-IsTidy}

build_packages-IsTidy :
    (hex : Hex) (pkgs : List String) (s : Stage)
    → All (λ pkg. In pkg topological_order) pkgs
    → IsTidy s
    → IsTidy (build_packages hex pkgs s).1
unfolding build_packages
build_packages-IsTidy hex [] s listed tidy = tidy
build_packages-IsTidy hex (pkg ∷ pkgs) s (here, listed) tidy =
    let built = hex pkg (files_at pkg s.packages) in
    elim (Bool-cases (built.code == 0)) [
      | inr failed ↦ rw (failed, build_packages) tidy
      | inl good ↦ elim (List-cases (tar_files pkg built.tarballs)) [
        | inl missing ↦ rw (good, missing, build_packages) tidy
        | inr ((name, tar), tars, found) ↦
            let mine = tar_files-head pkg name tar built.tarballs tars found in
            rw (good, found, build_packages)
              (build_packages-IsTidy hex pkgs (record s { tarballs = copy_tar name tar s.tarballs })
                listed (copy_tar-IsTidy pkg name tar s here mine tidy))
      ]
    ]

on_success-IsTidy :
    (first : Outcome × Stage) (next : Stage → Outcome × Stage)
    → IsTidy first.1
    → ((s : Stage) → IsTidy s → IsTidy (next s).1)
    → IsTidy (on_success first next).1
unfolding on_success
on_success-IsTidy (raised, s) next tidy kept = tidy
on_success-IsTidy (returned code, s) next tidy kept = elim (Bool-cases (code == 0)) [
  | inl good ↦ rw good (kept s tidy)
  | inr bad ↦ rw bad tidy
]

command_build-IsTidy :
    (repo : Repository) (hex : Hex) (version : String) (s : Stage)
    → IsTidy s
    → IsTidy (command_build repo hex version s).1
unfolding command_build
command_build-IsTidy repo hex version s tidy =
    on_success-IsTidy (command_stage repo version s) (build_packages hex topological_order)
      (command_stage-IsTidy repo version s tidy)
      (λ t.
        build_packages-IsTidy hex topological_order t
          (All-tabulate (λ pkg. In pkg topological_order) topological_order (λ pkg m. m)))

command_inspect-IsTidy :
    (repo : Repository) (hex : Hex) (version : String) (s : Stage)
    → IsTidy s
    → IsTidy (command_inspect repo hex version s).1
unfolding command_inspect
command_inspect-IsTidy repo hex version s tidy =
    on_success-IsTidy (command_build repo hex version s)
      (λ built. (inspect_packages topological_order true built, built))
      (command_build-IsTidy repo hex version s tidy) (λ t ok. ok)

-- All versions' stages are tidy.
abbrev pub AreTidy : Stages → Type 0
AreTidy stages = (version : String) → IsTidy (stages version)

in_stage-AreTidy :
    (command : String → Stage → Outcome × Stage) (version : String) (stages : Stages)
    → ((s : Stage) → IsTidy s → IsTidy (command version s).1)
    → AreTidy stages
    → AreTidy (in_stage command version stages).1
unfolding in_stage
in_stage-AreTidy command version stages kept tidy other = elim (Bool-cases (other == version)) [
  | inl same ↦ rw same (kept (stages version) (tidy version))
  | inr differs ↦ rw differs (tidy other)
]

main-AreTidy :
    (repo : Repository) (hex : Hex) (command : Command) (stages : Stages)
    → AreTidy stages
    → AreTidy (main repo hex command stages).1
unfolding main
main-AreTidy repo hex check stages tidy = tidy
main-AreTidy repo hex (stage version) stages tidy =
    in_stage-AreTidy (command_stage repo) (given_version version) stages
      (command_stage-IsTidy repo (given_version version)) tidy
main-AreTidy repo hex (build version) stages tidy =
    in_stage-AreTidy (command_build repo hex) (given_version version) stages
      (command_build-IsTidy repo hex (given_version version)) tidy
main-AreTidy repo hex (inspect version) stages tidy =
    in_stage-AreTidy (command_inspect repo hex) (given_version version) stages
      (command_inspect-IsTidy repo hex (given_version version)) tidy
main-AreTidy repo hex (publish pkg version) stages tidy = tidy

-- However the commands are invoked after one another, on whatever checkouts, failures included, if every stage was tidy
-- it stays so: its packages are the first ones of the publication order, and its tarballs have
-- different names, each of which a package's pattern finds.
pub main_runs-AreTidy :
    (invocations : List (Repository × Hex × Command)) (stages : Stages)
    → AreTidy stages
    → AreTidy (main_runs invocations stages)
unfolding main_runs
main_runs-AreTidy [] stages tidy = tidy
main_runs-AreTidy ((repo, hex, command) ∷ invocations) stages tidy =
    main_runs-AreTidy invocations (main repo hex command stages).1
      (main-AreTidy repo hex command stages tidy)
