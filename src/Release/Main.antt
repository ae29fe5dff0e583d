-- ===== src/Release/Main.antt =====
-- `command_publish` and `main` of scripts/release.py, on the stages of all versions.
pub mod Fresh
pub mod Tidy
pub mod Kept
use autonomic.Common.{ℕ, suc, String, ◌<>◌, Bool, List, [], ◌∷◌, ◌==◌, string_eq, if◌then◌else◌}
use autonomic.Release.Packages.{topological_order, Repository}
use autonomic.Release.Check.{command_check}
use autonomic.Release.Stage.{Stage, Outcome, returned, command_stage}
use autonomic.Release.Build.{Hex, command_build}
use autonomic.Release.Inspect.{command_inspect}

-- What is in _release_stage, by version; a version with no folder there has the empty stage.
abbrev pub Stages : Type 0
Stages = String → Stage

-- A parsed command line: the command, with the version it is given.
pub data Command : Type 0 where
  check : Command
  stage build inspect : String → Command
  publish : String → String → Command

-- `args.version or "0.1.0"`
unfoldable pub given_version : String → String
given_version version = if version == "" then "0.1.0" else version

-- `enumerate(packages, n)`, with the step of the publication for each.
publication_from : String → ℕ → List String → List (ℕ × String)
publication_from version n [] = []
publication_from version n (pkg ∷ pkgs) =
    (n, "cd _release_stage/" <> version <> "/" <> pkg <> " && mix hex.publish")
    ∷ publication_from version (suc n) pkgs

-- The return code of `command_publish`, and the steps that it prints and does not take.
unfoldable pub command_publish : String → String → ℕ × List (ℕ × String)
unfolding publication_from given_version
command_publish pkg version = (0, publication_from (given_version version) 1 topological_order)

-- A command that works in the stage of one version.
unfoldable pub in_stage : (String → Stage → Outcome × Stage) → String → Stages → Outcome × Stages
in_stage command version stages =
    let (outcome, after) = command version (stages version) in
    (outcome, λ other. if other == version then after else stages other)

unfoldable pub main : Repository → Hex → Command → Stages → Outcome × Stages
unfolding given_version command_publish
main repo hex check stages = (returned (command_check repo), stages)
main repo hex (stage version) stages = in_stage (command_stage repo) (given_version version) stages
main repo hex (build version) stages =
    in_stage (command_build repo hex) (given_version version) stages
main repo hex (inspect version) stages =
    in_stage (command_inspect repo hex) (given_version version) stages
main repo hex (publish pkg version) stages = (returned (command_publish pkg version).0, stages)

-- Invocations after one another, each on the checkout as it is then.
unfoldable pub main_runs : List (Repository × Hex × Command) → Stages → Stages
unfolding main
main_runs [] stages = stages
main_runs ((repo, hex, command) ∷ invocations) stages =
    main_runs invocations (main repo hex command stages).1
