-- ===== src/Qc/Plan/Services.antt =====
-- Sections 5 to 10 of `main` of scripts/qc.py: the gates that need a database, a privileged
-- Linux host, the live service or both, and those that stand for other gates.
use autonomic.Common.{
  String, Bool, true, ◌&&◌, ◌||◌, Option, List, [], ◌∷◌, ◌++◌, ◌==◌, string_eq, is_some,
  if◌then◌else◌,
}
use autonomic.Qc.Gate.{Gate, passed, status_eq, run_gate, pending, add_alias_gate}
use autonomic.Qc.Plan.Types.{Env, truthy, text_or_empty, root_gate, pending_all}

abbrev pub mix_of : Env → String
mix_of env = text_or_empty (env.which "mix")

-- `bool(mix and psql and db_url)`
abbrev pub db_url : Env → Option String
db_url env = env.getenv "AUTONOMIC_TEST_DATABASE_URL"

abbrev pub db_ready : Env → Bool
db_ready env = truthy (env.which "mix") && (truthy (env.which "psql") && truthy (db_url env))

abbrev pub linux_enabled : Env → Bool
linux_enabled env = text_or_empty (env.getenv "AUTONOMIC_LINUX") == "1"

abbrev pub linux_ready : Env → Bool
linux_ready env =
    truthy (env.which "mix")
    && (truthy (env.which "cargo")
        && (linux_enabled env && (env.is_root_user || truthy (env.which "sudo"))))

abbrev pub db_env : Env → List (String × String)
db_env env = ("MIX_ENV", "test") ∷ ("AUTONOMIC_TEST_DATABASE_URL", text_or_empty (db_url env)) ∷ []

abbrev pub postgres_ids : List String
postgres_ids =
    "postgresql_epoch_commit_race" ∷ "af_unix_effect_broker"
    ∷ "git_authoritative_commit_reconciliation" ∷ "stale_epoch_race"
    ∷ "broker_crash_after_external_mutation_reconciliation" ∷ []

-- `pending` for the gate and then for those that rest on it.
abbrev pub postgres_pending : String → String → List Gate
postgres_pending first_reason reason =
    pending "postgresql_integration" first_reason []
    ∷ pending_all reason [] (postgres_ids ++ ("class4_human_horizon" ∷ []))

abbrev pub migrations : Env → Gate
migrations env =
    run_gate env.host "postgresql_migrations"
      (mix_of env ∷ "ecto.migrate" ∷ "-r" ∷ "Autonomic.Store.Repo" ∷ [])
      "packages/autonomic_postgres" (db_env env) 300

abbrev pub postgres_tests : Env → Gate
postgres_tests env =
    run_gate env.host "postgresql_integration"
      (mix_of env
        ∷ "test"
        ∷ "test/integration"
        ∷ "--include"
        ∷ "postgres"
        ∷ "--exclude"
        ∷ "linux"
        ∷ "--exclude"
        ∷ "reference"
        ∷ "--exclude"
        ∷ "db_outage"
        ∷ [])
      "packages/autonomic_postgres" (db_env env) 1200

abbrev pub class4_tests : Env → Gate
class4_tests env =
    run_gate env.host "class4_human_horizon"
      (mix_of env ∷ "test" ∷ "test/class4_horizon_test.exs" ∷ "--include" ∷ "postgres" ∷ [])
      "integration/autonomic_acceptance" (db_env env) 600

abbrev pub postgres_aliases : List Gate → List Gate
postgres_aliases gates =
    let source : String = "postgresql_integration" in
    add_alias_gate "broker_crash_after_external_mutation_reconciliation" source
      "covered by post-mutation crash reconciliation test"
      (add_alias_gate "stale_epoch_race" source
        "covered by PostgreSQL authority/reconciliation tests"
        (add_alias_gate "git_authoritative_commit_reconciliation" source
          "covered by real local Git CAS/reconciliation tests"
          (add_alias_gate "af_unix_effect_broker" source
            "covered by real AF_UNIX + local HTTP broker integration"
            (add_alias_gate "postgresql_epoch_commit_race" source
              "covered by real PostgreSQL concurrency barriers" gates))))

-- Section 5.
unfoldable pub postgres_gates : Env → List Gate → List Gate
postgres_gates env gates =
    let reason : String = "requires Mix, psql and AUTONOMIC_TEST_DATABASE_URL" in
    if db_ready env
    then (if (migrations env).status == passed
        then postgres_aliases
            (gates ++ (migrations env ∷ postgres_tests env ∷ class4_tests env ∷ []))
        else gates
          ++ (migrations env
              ∷ postgres_pending "migration gate failed"
                  "PostgreSQL integration prerequisites failed"))
    else gates ++ postgres_pending reason reason

-- `pg_server_tools`
abbrev pub pg_server_tools : Env → Bool
pg_server_tools env =
    (if env.is_root_user
      then truthy (env.which "pg_config") && truthy (env.which "runuser")
      else true)
    && is_some (env.which "pg_config")

-- Section 6.
unfoldable pub outage_gates : Env → List Gate
outage_gates env =
    let command = "bash" ∷ "scripts/run_db_outage_gate.sh" ∷ [] in
    (if truthy (env.which "mix") && pg_server_tools env
      then root_gate env "db_outage_blocks_authority" command 1200
      else pending "db_outage_blocks_authority"
          "requires Mix and PostgreSQL server binaries (pg_config/initdb/pg_ctl/createdb) on a host permitted to start an ephemeral cluster"
          command)
    ∷ []

abbrev pub linux_tests : Env → Gate
linux_tests env =
    run_gate env.host "linux_namespaces_cgroup_seccomp_overlay"
      (mix_of env ∷ "test" ∷ "test/integration" ∷ "--include" ∷ "linux" ∷ [])
      "packages/autonomic_linux" [] 1200

-- Section 7.
unfoldable pub linux_gates : Env → List Gate → List Gate
linux_gates env gates =
    let source : String = "linux_namespaces_cgroup_seccomp_overlay" in
    let reason : String =
      "requires Mix, Rust launcher build and AUTONOMIC_LINUX=1 on a privileged cgroup-v2 host" in
    if linux_ready env
    then add_alias_gate "overlay_rollback" source
        "covered by checkpoint/restore upperdir discard test"
        (add_alias_gate "old_process_fork_cleanup" source
          "covered by fork-tree cgroup teardown test" (gates ++ (linux_tests env ∷ [])))
    else gates
      ++ pending_all reason [] (source ∷ "old_process_fork_cleanup" ∷ "overlay_rollback" ∷ [])

-- "Aliased gates to normal suite".
unfoldable pub suite_aliases : List Gate → List Gate
suite_aliases gates =
    add_alias_gate "backpressure_load" "postgresql_integration"
      "covered by real PostgreSQL broker saturation with concurrent trusted HTTP commits"
      (add_alias_gate "semantic_outage_degradation" "exunit_full"
        "covered by TypeSafeSDK.Test outage/model/unknown/capability tests" gates)

-- Section 8.
abbrev pub live_key : Env → Option String
live_key env = env.getenv "TYPESAFE_API_KEY"

unfoldable pub live_gates : Env → List Gate
live_gates env =
    (if truthy (env.which "mix") && truthy (live_key env)
      then run_gate env.host "typesafe_live_evaluate_v4"
          (mix_of env ∷ "test" ∷ "test/live_gate_test.exs" ∷ "--include" ∷ "live" ∷ [])
          "packages/autonomic_typesafe" [] 600
      else pending "typesafe_live_evaluate_v4"
          "requires Mix, network and intentionally configured TYPESAFE_API_KEY" [])
    ∷ []

abbrev pub reference_tests : Env → Gate
reference_tests env =
    run_gate env.host "coding_agent_reference"
      (mix_of env
        ∷ "test"
        ∷ "test/coding_agent_test.exs"
        ∷ "--include"
        ∷ "reference"
        ∷ "--include"
        ∷ "postgres"
        ∷ "--include"
        ∷ "linux"
        ∷ [])
      "integration/autonomic_acceptance" (db_env env ++ (("AUTONOMIC_LINUX", "1") ∷ [])) 1800

-- Section 9.
unfoldable pub reference_gates : Env → List Gate → List Gate
reference_gates env gates =
    let source : String = "coding_agent_reference" in
    let reason : String = "requires real PostgreSQL plus privileged Linux launcher gate" in
    if db_ready env && linux_ready env
    then add_alias_gate "sensor_poisoning" source
        "hostile repository prompt-injection fixture plus deterministic containment"
        (add_alias_gate "coding_agent_violation_repair_epoch2" source
          "hostile direct-network tripwire + epoch-2 repair variant"
          (add_alias_gate "coding_agent_normal_repair" source
            "normal verified authoritative Git repair variant"
            (gates ++ (reference_tests env ∷ []))))
    else gates
      ++ pending_all reason [] (
          source ∷ "coding_agent_normal_repair" ∷ "coding_agent_violation_repair_epoch2"
          ∷ "sensor_poisoning" ∷ [])

-- Section 10.
unfoldable pub preflight_gates : Env → List Gate
preflight_gates env =
    (if truthy (env.which "bash")
      then root_gate env "host_preflight" ("bash" ∷ "scripts/preflight.sh" ∷ []) 120
      else pending "host_preflight" "bash unavailable" [])
    ∷ []
