-- ===== src/Release/Tests/Runs.antt =====
-- Command lines after one another.
use autonomic.Common.{List, [], ◌∷◌, ◌≡◌, refl, string_eq}
use autonomic.Release.Packages.{Repository}
use autonomic.Release.Stage.{Stage, empty_stage, Outcome, returned, raised}
use autonomic.Release.Build.{Hex}
use autonomic.Release.Inspect.{command_inspect}
use autonomic.Release.Main.{
  Stages, Command, check, stage, inspect, publish, given_version, main_runs,
}
use autonomic.Release.Main.Fresh.{Alike, command_inspect-Alike}
use autonomic.Release.Main.Tidy.{empty_stage-IsTidy}
use autonomic.Release.Main.Kept.{AreTidy, main_runs-AreTidy}
use autonomic.Release.Samples.{sample_repository, sample_hex}

abbrev no_stages : Stages
no_stages version = empty_stage

-- A stage with a tarball that no run of this checkout leaves.
abbrev stale_stage : Stage
stale_stage = record {
  packages = ("autonomic", []) ∷ [];
  tarballs = ("autonomic-0.0.9.tar", autonomic.Release.Stage.broken) ∷ [];
}

defaulted : given_version "" ≡ "0.1.0"
unfolding given_version
defaulted = refl

command_inspect-Alike_example :
    Alike empty_stage stale_stage
      (command_inspect sample_repository sample_hex "0.1.0" empty_stage)
      (command_inspect sample_repository sample_hex "0.1.0" stale_stage)
command_inspect-Alike_example =
    command_inspect-Alike sample_repository sample_hex "0.1.0" empty_stage stale_stage

abbrev invocations : List (Repository × Hex × Command)
invocations =
    (sample_repository, sample_hex, check)
    ∷ (sample_repository, sample_hex, stage "0.2.0")
    ∷ (sample_repository, sample_hex, inspect "")
    ∷ (sample_repository, sample_hex, publish "all" "0.1.0")
    ∷ []

main_runs-AreTidy_example : AreTidy (main_runs invocations no_stages)
main_runs-AreTidy_example = main_runs-AreTidy invocations no_stages (λ version. empty_stage-IsTidy)
