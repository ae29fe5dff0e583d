-- ===== src/Isolated/Tests.antt =====
-- A verification of the small checkout.
use autonomic.Common.{ℕ, true, some, List, [], ◌∷◌, ◌≡◌, ◌↔◌, refl, string_eq, All}
use autonomic.Common.Text.{codes}
use autonomic.Release.Stage.{Stage, empty_stage, returned}
use autonomic.Release.Inspect.{command_inspect}
use autonomic.Release.Samples.{sample_repository, sample_hex}
use autonomic.Isolated.Environment.{Environ, isolated_env}
use autonomic.Isolated.{Log, Host, main}
use autonomic.Isolated.Commands.{IsRedirected, main-IsRedirected}
use autonomic.Isolated.Shutdown.{IsClosed, main-IsClosed}
use autonomic.Isolated.Verified.{Passes, main_iff}

abbrev sample_environ : Environ
sample_environ = (codes "TYPESAFE_SDK_PATH", codes "/sdk") ∷ (codes "MIX_ENV", codes "prod") ∷ []

abbrev sample_tools : List ℕ
sample_tools = codes "erlang 27.1\nelixir 1.17\n"

abbrev sample_env : Environ
sample_env =
    (codes "MIX_ENV", codes "dev")
    ∷ (codes "HEX_HOME", codes "/t/hex")
    ∷ (codes "ASDF_ERLANG_VERSION", codes "27.1")
    ∷ (codes "ASDF_ELIXIR_VERSION", codes "1.17")
    ∷ []

abbrev sample_host : Host
sample_host = record {
  environ = sample_environ;
  tool_versions = some sample_tools;
  port = some "4000";
  has_test = λ pkg. true;
  succeeds = λ log call. true;
}

isolated : isolated_env "/t" sample_environ sample_tools ≡ some sample_env
unfolding isolated_env
isolated = refl

main-IsClosed_example : IsClosed (main sample_repository sample_hex sample_host "/t" empty_stage).1
main-IsClosed_example = main-IsClosed sample_repository sample_hex sample_host "/t" empty_stage

abbrev sample_log : Log
sample_log = (main sample_repository sample_hex sample_host "/t" empty_stage).1

main_iff_example :
    (main sample_repository sample_hex sample_host "/t" empty_stage ≡ (returned 0, sample_log)) ↔ (
      (stage : Stage) × (command_inspect sample_repository sample_hex "0.1.0" empty_stage
        ≡ (returned 0, stage))
      × Passes sample_host "/t" stage sample_log)
main_iff_example = main_iff sample_repository sample_hex sample_host "/t" empty_stage sample_log

main-IsRedirected_example :
    All
      (IsRedirected (command_inspect sample_repository sample_hex "0.1.0" empty_stage).1)
      (main sample_repository sample_hex sample_host "/t" empty_stage).1
main-IsRedirected_example =
    main-IsRedirected sample_repository sample_hex sample_host "/t" empty_stage
