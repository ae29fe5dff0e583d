-- ===== src/Qc/Main/Barred.antt =====
-- Which sections of `main` can bring a passed gate of a given id, and when.
use mathlib.Core.Path.{subst}
use autonomic.Common.{
  String, false, ◌&&◌, List, [], ◌∷◌, ◌≡◌, sym, inl, inr, arith, ◌==◌, string_eq, contains, All,
  All-append, Bool-cases,
}
use autonomic.Qc.Gate.{
  passed, status_eq, Gate, run_gate, run_compound_gate, pending, add_alias_gate,
}
use autonomic.Qc.Gate.Result.{add_alias_gate_lem}
use autonomic.Qc.Plan.{
  Env, truthy, text_or_empty, tooling_gates, release_gates, mix_gates, built_gates, no_mix_gates,
  rust_gates, postgres_gates, outage_gates, linux_gates, suite_aliases, live_gates, reference_gates,
  preflight_gates, db_ready, linux_ready, live_key, pg_server_tools, postgres_ids, built_ids,
  migrations,
}

-- No gate of the list has the id and has passed.
abbrev pub Barred : String → Gate → Type 0
Barred id g = (g.id == id && g.status == passed) ≡ false

-- The ids of each section's gates.
abbrev pub tooling_names : List String
tooling_names = "release_tooling_tests" ∷ "package_boundary_lint" ∷ []

abbrev pub release_names : List String
release_names = "release_check" ∷ "hex_release_inspect" ∷ []

abbrev pub mix_names : List String
mix_names =
    "mix_deps_get" ∷ "format" ∷ "compile_warnings_as_errors" ∷ "exunit_full" ∷ "credo_strict"
    ∷ "dialyzer" ∷ "exdoc_warnings_as_errors" ∷ []

abbrev pub rust_names : List String
rust_names = "rust_launcher_fmt" ∷ "rust_launcher_clippy" ∷ "rust_launcher_tests" ∷ []

abbrev pub linux_names : List String
linux_names =
    "linux_namespaces_cgroup_seccomp_overlay" ∷ "old_process_fork_cleanup" ∷ "overlay_rollback" ∷ []

abbrev pub suite_names : List String
suite_names = "semantic_outage_degradation" ∷ "backpressure_load" ∷ []

abbrev pub postgres_names : List String
postgres_names =
    "postgresql_migrations" ∷ "postgresql_integration" ∷ "class4_human_horizon" ∷ postgres_ids

abbrev pub reference_names : List String
reference_names =
    "coding_agent_reference" ∷ "coding_agent_normal_repair" ∷ "coding_agent_violation_repair_epoch2"
    ∷ "sensor_poisoning" ∷ []

module _ (id : String) where
  pub tooling-Barred :
      (env : Env) → contains tooling_names id ≡ false → All (Barred id) (tooling_gates env)
  unfolding tooling_gates run_gate pending
  tooling-Barred env h = ground arith

  pub release-Barred :
      (env : Env) → contains release_names id ≡ false → All (Barred id) (release_gates env)
  unfolding release_gates run_gate pending
  release-Barred env h = ground arith

  pub no_mix-Barred : All (Barred id) no_mix_gates
  unfolding no_mix_gates pending
  no_mix-Barred = ground arith

  pub built-Barred :
      (env : Env) (mix : String) (targets : List String)
      → contains built_ids id ≡ false
      → All (Barred id) (built_gates env mix targets)
  unfolding built_gates run_compound_gate
  built-Barred env mix targets h = ground arith

  pub mix-Barred :
      (env : Env) (targets : List String)
      → contains mix_names id ≡ false
      → All (Barred id) (mix_gates env targets)
  unfolding mix_gates run_compound_gate pending
  mix-Barred env targets h =
      let built = built-Barred env (text_or_empty (env.which "mix")) targets (ground arith) in
      ground (arith, no_mix-Barred, built)

  pub rust-Barred : (env : Env) → contains rust_names id ≡ false → All (Barred id) (rust_gates env)
  unfolding rust_gates run_gate pending
  rust-Barred env h = ground arith

  pub alias-Barred :
      (alias source note : String) (gates : List Gate)
      → (alias == id) ≡ false
      → All (Barred id) gates
      → All (Barred id) (add_alias_gate alias source note gates)
  alias-Barred alias source note gates other h =
      let (g, e, same, status) = add_alias_gate_lem alias source note gates in
      subst (All (Barred id)) (sym e)
        (All-append (Barred id) gates (g ∷ []) h (rw same (ground (arith, other)), tt))

  pub postgres-Barred :
      (env : Env) (gates : List Gate)
      → contains postgres_names id ≡ false
      → All (Barred id) gates
      → All (Barred id) (postgres_gates env gates)
  unfolding postgres_gates run_gate pending
  postgres-Barred env gates h old = elim (Bool-cases (db_ready env)) [
    | inl ready ↦ elim (Bool-cases ((migrations env).status == passed)) [
      | inl migrated ↦
          rw (ready, migrated)
            (alias-Barred _ _ _ _ (ground arith) (
              alias-Barred _ _ _ _ (ground arith) (
                alias-Barred _ _ _ _ (ground arith) (
                  alias-Barred _ _ _ _ (ground arith) (
                    alias-Barred _ _ _ _ (ground arith)
                      (All-append (Barred id) gates _ old (ground arith)))))))
      | inr stuck ↦ rw (ready, stuck) (All-append (Barred id) gates _ old (ground arith))
    ]
    | inr unready ↦ rw unready (All-append (Barred id) gates _ old (ground arith))
  ]

  pub outage-Barred :
      (env : Env)
      → ("db_outage_blocks_authority" == id && (truthy (env.which "mix") && pg_server_tools env))
        ≡ false
      → All (Barred id) (outage_gates env)
  unfolding outage_gates run_gate pending
  outage-Barred env h = ground arith

  pub linux-Barred :
      (env : Env) (gates : List Gate)
      → contains linux_names id ≡ false
      → All (Barred id) gates
      → All (Barred id) (linux_gates env gates)
  unfolding linux_gates run_gate pending
  linux-Barred env gates h old = elim (Bool-cases (linux_ready env)) [
    | inl ready ↦ rw ready (
        alias-Barred _ _ _ _ (ground arith)
          (alias-Barred _ _ _ _ (ground arith) (All-append (Barred id) gates _ old (ground arith))))
    | inr unready ↦ rw unready (All-append (Barred id) gates _ old (ground arith))
  ]

  pub suite-Barred :
      (gates : List Gate)
      → contains suite_names id ≡ false
      → All (Barred id) gates
      → All (Barred id) (suite_aliases gates)
  unfolding suite_aliases
  suite-Barred gates h old =
      alias-Barred _ _ _ _ (ground arith) (alias-Barred _ _ _ _ (ground arith) old)

  pub live-Barred :
      (env : Env)
      → ("typesafe_live_evaluate_v4" == id && (truthy (env.which "mix") && truthy (live_key env)))
        ≡ false
      → All (Barred id) (live_gates env)
  unfolding live_gates run_gate pending
  live-Barred env h = ground arith

  pub reference-Barred :
      (env : Env) (gates : List Gate)
      → (contains reference_names id && (db_ready env && linux_ready env)) ≡ false
      → All (Barred id) gates
      → All (Barred id) (reference_gates env gates)
  unfolding reference_gates run_gate pending
  reference-Barred env gates h old = elim (Bool-cases (db_ready env && linux_ready env)) [
    | inl ready ↦
        let foreign : contains reference_names id ≡ false = ground (arith, h, ready) in
        rw ready (
          alias-Barred _ _ _ _ (ground (arith, foreign)) (
            alias-Barred _ _ _ _ (ground (arith, foreign)) (
              alias-Barred _ _ _ _ (ground (arith, foreign))
                (All-append (Barred id) gates _ old (ground (arith, foreign))))))
    | inr unready ↦ rw unready (All-append (Barred id) gates _ old (ground arith))
  ]

  pub preflight-Barred :
      (env : Env)
      → ("host_preflight" == id && truthy (env.which "bash")) ≡ false
      → All (Barred id) (preflight_gates env)
  unfolding preflight_gates run_gate pending
  preflight-Barred env h = ground arith
