-- ===== src/Qc/Tests/Data.antt =====
-- Test data: a host on which every command succeeds, a checkout with the required files.
use autonomic.Common.{
  ℕ, suc, ◌*◌, String, ◌<>◌, true, Option, none, some, List, [], ◌∷◌, ◌==◌, string_eq,
  if◌then◌else◌,
}
use autonomic.Common.Text.{codes}
use autonomic.Qc.Process.{ℤ, pos, Tick, started}
use autonomic.Qc.Gate.{Host}
use autonomic.Qc.Inventory.{SourceFile, Checkout}
use autonomic.Qc.Plan.{Env}

-- A process that is found ended, with a return code, in round 2.
abbrev pub ends_with : ℤ → ℕ → Tick
ends_with code n = record {
  poll = elim n [ suc (suc k) ↦ some code | _ ↦ none ];
  elapsed = 250 * n;
}

-- A process that never ends.
abbrev pub hangs : ℕ → Tick
hangs n = record { poll = none; elapsed = 250 * n }

abbrev pub good_host : Host
good_host = record {
  launch = λ call. started (ends_with (pos 0));
  output = λ call. codes "Finished\nResult: 12/12 passed\n";
  heartbeat = 10;
}

abbrev pub text_file : List String → SourceFile
text_file parts = record {
  parts = parts;
  bytes = some (codes "ok\n");
  text = some (codes "ok\n");
  json_error = none;
}

abbrev pub required : List SourceFile
required =
    text_file ("README.md" ∷ [])
    ∷ text_file ("HANDOFF.md" ∷ [])
    ∷ text_file ("docs" ∷ "ARCHITECTURE.md" ∷ [])
    ∷ text_file ("docs" ∷ "SECURITY.md" ∷ [])
    ∷ text_file ("docs" ∷ "OPERATIONS.md" ∷ [])
    ∷ text_file ("docs" ∷ "DEVELOPMENT.md" ∷ [])
    ∷ text_file ("docs" ∷ "PERSISTENCE_RECOVERY.md" ∷ [])
    ∷ text_file ("docs" ∷ "EFFECT_ADAPTERS.md" ∷ [])
    ∷ text_file ("docs" ∷ "TYPESAFE_SENSORS.md" ∷ [])
    ∷ text_file ("docs" ∷ "IMPLEMENTATION_CHECKLIST.md" ∷ [])
    ∷ text_file ("docs" ∷ "PONCHO_MIGRATION.md" ∷ [])
    ∷ text_file ("docs" ∷ "PONCHO_IMPLEMENTATION_CHECKLIST.md" ∷ [])
    ∷ text_file ("scripts" ∷ "preflight.sh" ∷ [])
    ∷ text_file ("scripts" ∷ "lint_package_boundaries.py" ∷ [])
    ∷ text_file ("scripts" ∷ "release.py" ∷ [])
    ∷ text_file ("packages/autonomic/lib/autonomic" ∷ "effect_broker.ex" ∷ [])
    ∷ text_file (
        "packages/autonomic_postgres/priv/repo/migrations"
        ∷ "20260917000000_create_autonomic_tables.exs" ∷ [])
    ∷ text_file ("packages/autonomic_linux/lib/autonomic/linux" ∷ "backend.ex" ∷ [])
    ∷ text_file ("packages/autonomic_typesafe/lib/autonomic/typesafe" ∷ "bank.ex" ∷ [])
    ∷ text_file ("packages/autonomic_linux/native/autonomic_launcher" ∷ "src" ∷ "main.rs" ∷ [])
    ∷ text_file ("packages/autonomic_linux/native/autonomic_launcher" ∷ "Cargo.toml" ∷ [])
    ∷ text_file ("integration/autonomic_acceptance/test" ∷ "coding_agent_test.exs" ∷ [])
    ∷ text_file ("integration/autonomic_acceptance/test" ∷ "class4_horizon_test.exs" ∷ [])
    ∷ []

abbrev pub checkout_at : List String → List SourceFile → Checkout
checkout_at root files = record { root_parts = root; files = files; manifest_error = none }

abbrev pub good_checkout : Checkout
good_checkout = checkout_at ("/" ∷ "home" ∷ "autonomic" ∷ []) required

abbrev pub tool : String → Option String
tool name = some ("/usr/bin/" <> name)

abbrev pub variable : String → Option String
variable name =
    if name == "AUTONOMIC_LINUX"
    then some "1"
    else if name == "HOME"
    then none
    else some "postgres://test"

abbrev pub good_env : Env
good_env = record {
  host = good_host;
  root = "/home/autonomic";
  python = "/usr/bin/python3";
  checkout = good_checkout;
  which = tool;
  getenv = variable;
  is_root_user = true;
  package_name = none;
  included = none;
  excluded = none;
}
