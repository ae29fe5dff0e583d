-- ===== src/Qc/Gate/Types.antt =====
-- A gate's record, a command's call and the host, from scripts/qc.py. Of a gate's record the time
-- stamps and the log's path and digest are left out.
use autonomic.Common.{
  ℕ, ◌*◌, String, Bool, true, false, ◌≡◌, ◌↔◌, arith, Comparable, Option, List, [], ◌∷◌, string_eq,
  contains,
}
use autonomic.Qc.Process.{ℤ, Launch, Outcome, run_logged_command}

pub data Status : Type 0 where
  passed failed not_run : Status

-- `==` on status texts.
abbrev pub status_beq : Status → Status → Bool
status_beq passed passed = true
status_beq failed failed = true
status_beq not_run not_run = true
status_beq _ _ = false

pub status_beq_iff : (a b : Status) → (status_beq a b ≡ true) ↔ (a ≡ b)
status_beq_iff passed b = ground arith
status_beq_iff failed b = ground arith
status_beq_iff not_run b = ground arith

instance abbrev pub status_eq : Comparable Status
status_eq = record { alike = status_beq; alike_iff = status_beq_iff }

pub data Reason : Type 0 where
  text : String → Reason
  timeout_after : ℕ → Reason

pub record Gate : Type 0 where
  pub id : String
  pub status : Status
  pub mandatory : Bool
  pub command : List String
  pub exit_code : Option ℤ
  pub reason : Option Reason
  pub evidence_gate : Option String

-- A command in its directory, with what is set on top of the inherited environment. The label is
-- the gate's, and the step's behind it if the gate has steps.
pub record Call : Type 0 where
  pub label : List String
  pub argv : List String
  pub cwd : String
  pub env : List (String × String)

-- What the commands do on the host, and how often a heartbeat is due.
pub record Host : Type 0 where
  pub launch : Call → Launch
  pub output : Call → List ℕ
  pub heartbeat : ℕ

-- The model's times are milliseconds, the program's seconds.
unfoldable pub run_call : Host → Call → ℕ → Outcome
unfolding run_logged_command
run_call host call timeout =
    (run_logged_command (timeout * 1000) (host.heartbeat * 1000) (host.launch call)).outcome

unfoldable pub mandatory_ids : List String
mandatory_ids =
    "source_contract_inventory" ∷ "secret_scan" ∷ "package_boundary_lint" ∷ "release_check"
    ∷ "hex_release_inspect" ∷ "release_tooling_tests" ∷ "mix_deps_get" ∷ "format"
    ∷ "compile_warnings_as_errors" ∷ "exunit_full" ∷ "credo_strict" ∷ "dialyzer"
    ∷ "exdoc_warnings_as_errors" ∷ "rust_launcher_fmt" ∷ "rust_launcher_clippy"
    ∷ "rust_launcher_tests" ∷ "postgresql_integration" ∷ "postgresql_epoch_commit_race"
    ∷ "db_outage_blocks_authority" ∷ "af_unix_effect_broker"
    ∷ "git_authoritative_commit_reconciliation" ∷ "stale_epoch_race"
    ∷ "broker_crash_after_external_mutation_reconciliation" ∷ "class4_human_horizon"
    ∷ "linux_namespaces_cgroup_seccomp_overlay" ∷ "old_process_fork_cleanup" ∷ "overlay_rollback"
    ∷ "sensor_poisoning" ∷ "semantic_outage_degradation" ∷ "backpressure_load"
    ∷ "typesafe_live_evaluate_v4" ∷ "coding_agent_normal_repair"
    ∷ "coding_agent_violation_repair_epoch2" ∷ "host_preflight" ∷ []

-- `gate_id in MANDATORY`
unfoldable pub is_mandatory : String → Bool
is_mandatory id = contains mandatory_ids id
