-- ===== src/Qc/Plan/Toolchain.antt =====
-- Sections 1 to 4 of `main` of scripts/qc.py: the linter, the release check, mix and cargo.
use autonomic.Common.{
  ℕ, String, ◌<>◌, ◌&&◌, Option, List, [], ◌∷◌, ◌++◌, ◌==◌, string_eq, map, select, contains,
  if◌then◌else◌,
}
use autonomic.Qc.Gate.{Gate, passed, status_eq, Step, run_compound_gate, pending}
use autonomic.Qc.Inventory.{has_file}
use autonomic.Qc.Plan.Types.{Env, truthy, text_or_empty, packages, root_gate, pending_all}

-- The gate `release_tooling_tests`, and section 1.
abbrev pub boundary_script : String
boundary_script = "scripts/lint_package_boundaries.py"

unfoldable pub tooling_gates : Env → List Gate
tooling_gates env =
    root_gate env "release_tooling_tests"
      (env.python ∷ "-m" ∷ "unittest" ∷ "discover" ∷ "-s" ∷ "scripts" ∷ "-p" ∷ "test_*.py" ∷ [])
      1800
    ∷ (if has_file env.checkout boundary_script
        then root_gate env "package_boundary_lint"
            (env.python ∷ (env.root <> ("/" <> boundary_script)) ∷ []) 1800
        else pending "package_boundary_lint" "scripts/lint_package_boundaries.py missing" [])
    ∷ []

-- Section 2.
abbrev pub release_script : String
release_script = "scripts/release.py"

unfoldable pub release_gates : Env → List Gate
release_gates env =
    let script = env.root <> ("/" <> release_script) in
    if has_file env.checkout release_script
    then root_gate env "release_check" (env.python ∷ script ∷ "check" ∷ []) 1800
      ∷ root_gate env "hex_release_inspect" (env.python ∷ script ∷ "inspect" ∷ "0.1.0" ∷ []) 1800
      ∷ []
    else pending "release_check" "scripts/release.py missing" []
      ∷ pending "hex_release_inspect" "scripts/release.py missing" []
      ∷ []

-- `Path(p).name` of the five projects, as a text.
abbrev pub project_name : String → String
project_name p =
    if p == "packages/autonomic"
    then "autonomic"
    else if p == "packages/autonomic_linux"
    then "autonomic_linux"
    else if p == "packages/autonomic_postgres"
    then "autonomic_postgres"
    else if p == "packages/autonomic_typesafe"
    then "autonomic_typesafe"
    else "autonomic_acceptance"

-- `[(Path(p).name, argv, ROOT / p) for p in projects]`
unfoldable pub project_steps : List String → List String → List Step
project_steps argv projects =
    map (λ p. record { label = project_name p; argv = argv; cwd = p }) projects

-- `test_args`
abbrev pub option_args : String → Option String → List String
option_args flag value = if truthy value then flag ∷ text_or_empty value ∷ [] else []

abbrev pub published : List String → List String
published = select (λ p. contains packages p)

abbrev pub mix_gate : Env → String → List String → List String → ℕ → Gate
mix_gate env id argv projects timeout =
    run_compound_gate env.host id (project_steps argv projects) [] timeout

-- The gates that follow a passed `mix_deps_get`.
unfoldable pub built_gates : Env → String → List String → List Gate
unfolding project_steps
built_gates env mix targets =
    mix_gate env "format" (mix ∷ "format" ∷ "--check-formatted" ∷ []) targets 120
    ∷ mix_gate env "compile_warnings_as_errors" (mix ∷ "compile" ∷ "--warnings-as-errors" ∷ [])
        targets 300
    ∷ mix_gate env "exunit_full"
        (mix
          ∷ "test"
          ∷ (option_args "--include" env.included ++ option_args "--exclude" env.excluded))
        targets 600
    ∷ mix_gate env "credo_strict" (mix ∷ "credo" ∷ "--strict" ∷ []) (published targets) 300
    ∷ mix_gate env "dialyzer" (mix ∷ "dialyzer" ∷ []) (published targets) 900
    ∷ mix_gate env "exdoc_warnings_as_errors" (mix ∷ "docs" ∷ "--warnings-as-errors" ∷ [])
        (published targets) 300
    ∷ []

abbrev pub built_ids : List String
built_ids =
    "format" ∷ "compile_warnings_as_errors" ∷ "exunit_full" ∷ "credo_strict" ∷ "dialyzer"
    ∷ "exdoc_warnings_as_errors" ∷ []

-- Section 3 without mix.
unfoldable pub no_mix_gates : List Gate
no_mix_gates =
    let reason : String = "Mix/Elixir toolchain unavailable" in
    pending "mix_deps_get" reason ("mix" ∷ "deps.get" ∷ [])
    ∷ pending "format" reason ("mix" ∷ "format" ∷ "--check-formatted" ∷ [])
    ∷ pending "compile_warnings_as_errors" reason ("mix" ∷ "compile" ∷ "--warnings-as-errors" ∷ [])
    ∷ pending "exunit_full" reason ("mix" ∷ "test" ∷ [])
    ∷ pending "credo_strict" reason ("mix" ∷ "credo" ∷ "--strict" ∷ [])
    ∷ pending "dialyzer" reason ("mix" ∷ "dialyzer" ∷ [])
    ∷ pending "exdoc_warnings_as_errors" reason ("mix" ∷ "docs" ∷ "--warnings-as-errors" ∷ [])
    ∷ []

-- Section 3.
unfoldable pub mix_gates : Env → List String → List Gate
unfolding built_gates no_mix_gates
mix_gates env targets =
    let mix = text_or_empty (env.which "mix") in
    let deps = mix_gate env "mix_deps_get" (mix ∷ "deps.get" ∷ []) targets 300 in
    if truthy (env.which "mix")
    then deps
      ∷ (if deps.status == passed
          then built_gates env mix targets
          else pending_all "dependency resolution failed" (mix ∷ []) built_ids)
    else no_mix_gates

abbrev pub manifest : String
manifest = "packages/autonomic_linux/native/autonomic_launcher/Cargo.toml"

abbrev pub fmt_args : String → String → List String
fmt_args cargo path = cargo ∷ "fmt" ∷ "--manifest-path" ∷ path ∷ "--" ∷ "--check" ∷ []

abbrev pub clippy_args : String → String → List String
clippy_args cargo path =
    cargo ∷ "clippy" ∷ "--manifest-path" ∷ path ∷ "--all-targets" ∷ "--" ∷ "-D" ∷ "warnings" ∷ []

abbrev pub test_args : String → String → List String
test_args cargo path = cargo ∷ "test" ∷ "--manifest-path" ∷ path ∷ []

-- Section 4.
unfoldable pub rust_gates : Env → List Gate
rust_gates env =
    let cargo = text_or_empty (env.which "cargo") in
    let path = env.root <> ("/" <> manifest) in
    let reason : String = "Rust toolchain unavailable or manifest missing" in
    if truthy (env.which "cargo") && has_file env.checkout manifest
    then root_gate env "rust_launcher_fmt" (fmt_args cargo path) 120
      ∷ root_gate env "rust_launcher_clippy" (clippy_args cargo path) 300
      ∷ root_gate env "rust_launcher_tests" (test_args cargo path) 300
      ∷ []
    else pending "rust_launcher_fmt" reason (fmt_args "cargo" path)
      ∷ pending "rust_launcher_clippy" reason (clippy_args "cargo" path)
      ∷ pending "rust_launcher_tests" reason (test_args "cargo" path)
      ∷ []
