-- ===== src/Qc/Main/Unmet.antt =====
-- A gate whose section is barred does not turn green.
use mathlib.Core.Option.{or_else}
use mathlib.Core.Path.{subst}
use mathlib.Core.Bool.{false≢true}
use text.Mathlib.TextEquality.{eq_iff}
use autonomic.Common.{
  all, String, Bool, true, false, ◌&&◌, some, List, [], ◌∷◌, ◌++◌, ◌≡◌, refl, ◌∙◌, sym, ap, inl,
  inr, arith, ◌==◌, string_eq, contains, select, All, All-append, Bool-cases, Option-cases,
}
use autonomic.Qc.Gate.{passed, status_eq, Gate, gate_by_id}
use autonomic.Qc.Inventory.{static_inventory, secret_scan}
use autonomic.Qc.Plan.{
  Env, truthy, mix_gates, rust_gates, release_gates, tooling_gates, db_ready, linux_ready, live_key,
  pg_server_tools,
}
use autonomic.Qc.Report.Unique.{executed}
use autonomic.Qc.Report.Verdict.{Green}
use autonomic.Qc.Main.{all_gates}
use autonomic.Qc.Main.Barred.{
  Barred, tooling-Barred, release-Barred, mix-Barred, rust-Barred, postgres-Barred, outage-Barred,
  linux-Barred, suite-Barred, live-Barred, reference-Barred, preflight-Barred, postgres_names,
  reference_names, tooling_names, release_names, mix_names, rust_names, linux_names, suite_names,
}

-- The ids of the sections that need no service, and of the database and Linux gates.
abbrev pub other_names : List String
other_names =
    "source_contract_inventory" ∷ "secret_scan" ∷ "release_tooling_tests" ∷ "package_boundary_lint"
    ∷ "release_check" ∷ "hex_release_inspect" ∷ "mix_deps_get" ∷ "format"
    ∷ "compile_warnings_as_errors" ∷ "exunit_full" ∷ "credo_strict" ∷ "dialyzer"
    ∷ "exdoc_warnings_as_errors" ∷ "rust_launcher_fmt" ∷ "rust_launcher_clippy"
    ∷ "rust_launcher_tests" ∷ "postgresql_migrations" ∷ "postgresql_integration"
    ∷ "class4_human_horizon" ∷ "postgresql_epoch_commit_race" ∷ "af_unix_effect_broker"
    ∷ "git_authoritative_commit_reconciliation" ∷ "stale_epoch_race"
    ∷ "broker_crash_after_external_mutation_reconciliation"
    ∷ "linux_namespaces_cgroup_seccomp_overlay" ∷ "old_process_fork_cleanup" ∷ "overlay_rollback"
    ∷ "semantic_outage_degradation" ∷ "backpressure_load" ∷ []

named_gate : (id : String) (g : Gate) → contains (g.id ∷ []) id ≡ false → Barred id g
named_gate id g h = ground arith

pub and_left : (a b : Bool) → (a && b) ≡ true → a ≡ true
and_left a b h = ground arith

pub and_right : (a b : Bool) → (a && b) ≡ true → b ≡ true
and_right a b h = ground arith

-- An id that is not of the other sections is not of one of them.
foreign :
    (id : String) (names : List String)
    → contains other_names id ≡ false
    → all (λ a. contains other_names a) names ≡ true
    → contains names id ≡ false
foreign id [] h sub = refl
foreign id (a ∷ names) h sub = elim (Bool-cases (a == id)) [
  | inl same ↦
      let known =
        subst (λ b. contains other_names b ≡ true) ((eq_iff a id).0 same) (and_left _ _ sub) in
      absurd (false≢true (sym h ∙ known))
  | inr differs ↦ rw differs (foreign id names h (and_right _ _ sub))
]

-- Of an id that none of the other sections has, no gate passed, if the section that has it could
-- not run.
pub all_gates-Barred :
    (id : String) (env : Env) (targets : List String)
    → contains other_names id ≡ false
    → ("db_outage_blocks_authority" == id && (truthy (env.which "mix") && pg_server_tools env))
      ≡ false
    → ("typesafe_live_evaluate_v4" == id && (truthy (env.which "mix") && truthy (live_key env)))
      ≡ false
    → (contains reference_names id && (db_ready env && linux_ready env)) ≡ false
    → ("host_preflight" == id && truthy (env.which "bash")) ≡ false
    → All (Barred id) (all_gates env targets)
unfolding all_gates static_inventory secret_scan
all_gates-Barred id env targets other outage live reference preflight =
    let P = Barred id in
    let static_gate : Barred id (static_inventory env.checkout) =
      named_gate id (static_inventory env.checkout)
        (foreign id ("source_contract_inventory" ∷ []) other refl) in
    let secret_gate : Barred id (secret_scan env.checkout) =
      named_gate id (secret_scan env.checkout) (foreign id ("secret_scan" ∷ []) other refl) in
    let toolchain =
      All-append P (tooling_gates env) _
        (tooling-Barred id env (foreign id tooling_names other refl))
        (All-append P (release_gates env) _
          (release-Barred id env (foreign id release_names other refl))
          (All-append P (mix_gates env targets) _
            (mix-Barred id env targets (foreign id mix_names other refl))
            (rust-Barred id env (foreign id rust_names other refl)))) in
    let early : All P (
        static_inventory env.checkout
        ∷ secret_scan env.checkout
        ∷ (tooling_gates env ++ (release_gates env ++ (mix_gates env targets ++ rust_gates env)))) =
      (static_gate, (secret_gate, toolchain)) in
    let postgres = postgres-Barred id env _ (foreign id postgres_names other refl) early in
    let outaged = All-append P _ _ postgres (outage-Barred id env outage) in
    let linux = linux-Barred id env _ (foreign id linux_names other refl) outaged in
    let suite = suite-Barred id _ (foreign id suite_names other refl) linux in
    let lived = All-append P _ _ suite (live-Barred id env live) in
    let referenced = reference-Barred id env _ reference lived in
    All-append P _ _ referenced (preflight-Barred id env preflight)

pub Barred-gate_by_id :
    (id : String) (gates : List Gate) {g : Gate}
    → All (Barred id) gates
    → gate_by_id gates id ≡ some g
    → ¬ (g.status ≡ passed)
unfolding gate_by_id
Barred-gate_by_id id [] h e q = cc
Barred-gate_by_id id (k ∷ gates) {g} h e q = elim (Bool-cases (k.id == id)) [
  | inl same ↦
      let found : k ≡ g = ground (arith, same, e) in
      let bad : k.status ≡ passed = ap (λ (x : Gate). x.status) found ∙ q in
      ground (arith, same, bad, h)
  | inr differs ↦ Barred-gate_by_id id gates {g = g} h.1 (ground (arith, differs, e)) q
]

pub Barred-select :
    (id : String) (p : Gate → Bool) (gates : List Gate)
    → All (Barred id) gates
    → All (Barred id) (select p gates)
Barred-select id p [] h = tt
Barred-select id p (g ∷ gates) h = ground (arith, Barred-select id p gates h.1)

pub Barred-not-Green : (id : String) (gates : List Gate) → All (Barred id) gates → ¬ Green gates id
unfolding or_else
Barred-not-Green id gates h (g, e, ok) = elim (Option-cases (gate_by_id (executed gates) id)) [
  | inl none_ran ↦
      let found : gate_by_id gates id ≡ some g = sym (rw none_ran refl) ∙ e in
      Barred-gate_by_id id gates h found ok
  | inr (k, ran) ↦
      let same : some k ≡ some g = sym (rw ran refl) ∙ e in
      let found : gate_by_id (executed gates) id ≡ some g = ran ∙ same in
      Barred-gate_by_id id (executed gates) (Barred-select id _ gates h) found ok
]
