-- ===== src/Isolated/Commands.antt =====
-- The environments that the commands of verify_packages.py run in, and what they run on.
use autonomic.Common.{ℕ, String, ◌<>◌, none, some, List, ◌∷◌, ◌++◌, ◌≡◌, ◌⊎◌, All}
use autonomic.Common.Text.{codes}
use autonomic.Release.Packages.{Repository}
use autonomic.Release.Rewrite.{hex_dependency}
use autonomic.Release.Rewrite.Rewritten.{Rewritten}
use autonomic.Release.Stage.{Stage}
use autonomic.Release.Build.{Hex}
use autonomic.Release.Inspect.{read_entry, command_inspect}
use autonomic.Isolated.Environment.{Environ, get_key, override_key}
use autonomic.Isolated.{
  Event, tars_copied, ran, served, stopped, prepared, Host, unpacked, package_calls, registry_calls,
  main,
}
use autonomic.Isolated.Every.{main-All}
use autonomic.Isolated.Registry.{CoreDependency, registry_mix-Rewritten, registry_mix-none_left}

abbrev pub RunsTests : List String → Type 0
RunsTests command = (rest : List String) × (command ≡ "mix" ∷ "test" ∷ rest)

-- MIX_ENV is test where the command is `mix test`, and dev elsewhere.
abbrev pub HasMode : List String → Environ → Type 0
HasMode command env =
    (RunsTests command × (get_key (codes "MIX_ENV") env ≡ some (codes "test")))
    ⊎ ((¬ RunsTests command) × (get_key (codes "MIX_ENV") env ≡ some (codes "dev")))

-- Hex's home is below the root, the override of the SDK's path is not there, and the mode is right.
abbrev pub IsIsolated : String → List String → Environ → Type 0
IsIsolated root command env =
    (get_key (codes "HEX_HOME") env ≡ some (codes (root <> "/hex")))
    × (get_key override_key env ≡ none)
    × HasMode command env

-- Of an event: the command that has run, if one has, was isolated.
abbrev pub RanIsolated : String → Event → Type 0
RanIsolated root (ran ok call) = IsIsolated root call.command call.env
RanIsolated root (tars_copied tars) = Unit
RanIsolated root served = Unit
RanIsolated root stopped = Unit
RanIsolated root (prepared pkg mix) = Unit

-- Of an event: the mix.exs that has been laid out, if one has, is the unpacked one with each
-- dependency on the core replaced by the one in the registry, and none that staging writes is left.
abbrev pub IsRedirected : Stage → Event → Type 0
IsRedirected stage (prepared pkg mix) =
    Rewritten CoreDependency (codes "{:autonomic, \"~> 0.1.0\", repo: \"autonomic_verify\"}")
      (read_entry (unpacked stage pkg) "mix.exs") mix
    × ((a b : List ℕ) → ¬ (mix ≡ a ++ (hex_dependency (codes "0.1.0") ++ b)))
IsRedirected stage (ran ok call) = Unit
IsRedirected stage (tars_copied tars) = Unit
IsRedirected stage served = Unit
IsRedirected stage stopped = Unit

-- Every mix.exs that verify_packages.py lays out is the one that the inspection has unpacked, with
-- each dependency on the core as the staging of 0.1.0 writes it replaced by the one in the registry
-- autonomic_verify, from the left, and all else kept; and none that the staging writes is left in it.
pub main-IsRedirected :
    (repo : Repository) (hex : Hex) (host : Host) (root : String) (before : Stage)
    → All
        (IsRedirected (command_inspect repo hex "0.1.0" before).1)
        (main repo hex host root before).1
unfolding registry_calls package_calls
main-IsRedirected repo hex host root before =
    let stage = (command_inspect repo hex "0.1.0" before).1 in
    main-All (IsRedirected stage) repo hex host root before (record {
      tars = tt;
      start = tt;
      end = tt;
      mix = λ pkg.
          let text = read_entry (unpacked stage pkg) "mix.exs" in
          (registry_mix-Rewritten text, registry_mix-none_left text);
      registry = λ text env parsed. (λ ok. tt, (λ ok. tt, tt));
      repo = λ text env port parsed ok. tt;
      package_runs = λ text env pkg parsed. (λ ok. tt, (λ ok. tt, (λ ok. tt, (λ ok. tt, tt))));
    })
