-- ===== src/Qc/Tests/Verdicts.antt =====
-- The conclusions of `main`.
use autonomic.Regex.Words.{bounded_search}
use autonomic.Regex.{search_in}
use autonomic.Common.{String, Bool, true, false, some, List, [], ◌∷◌, ◌≡◌, refl, ◌↔◌, All}
use autonomic.Qc.Gate.{
  passed, failed, Gate, pending, run_gate, run_call, run_compound_gate, is_mandatory, mandatory_ids,
  gate_by_id, add_alias_gate, is_mix_test, begin_step, result_passed,
}
use autonomic.Qc.Inventory.{
  static_inventory, secret_scan, missing_files, parse_errors, bad_whitespace, has_file,
  required_files, source_files, is_checked, private_key, aws_access_key, github_token, openai_key,
}
use autonomic.Qc.Plan.{
  Env, mix_gate, project_steps, target_projects, tooling_gates, release_gates, mix_gates,
  rust_gates, postgres_gates, outage_gates, linux_gates, suite_aliases, live_gates, reference_gates,
  preflight_gates,
}
use autonomic.Qc.Report.{dedup, ids, conclude, exit_status}
use autonomic.Qc.Report.Unique.{winner, first_of_each, gate_by_id-dedup, ids-dedup}
use autonomic.Qc.Report.Verdict.{Green, NoFailure, release_ready_iff, exit_status_iff}
use autonomic.Qc.Main.{all_gates, main}
use autonomic.Qc.Main.Requires.{IsEquipped, main-IsEquipped}
use autonomic.Qc.Main.Filter.{PassedUnrun, acceptance, unchecked_ids, all_gates-PassedUnrun}
use autonomic.Qc.Tests.Data.{good_env}

-- The same gate, first not run and then passed, and another that failed.
abbrev three_gates : List Gate
three_gates =
    pending "format" "later" []
    ∷ record (pending "dialyzer" "" []) { status = failed }
    ∷ record (pending "format" "" []) { status = passed }
    ∷ []

gate_by_id-dedup_example : gate_by_id (dedup three_gates) "format" ≡ winner three_gates "format"
gate_by_id-dedup_example = gate_by_id-dedup three_gates "format"

ids-dedup_example : ids (dedup three_gates) ≡ first_of_each [] (ids three_gates)
ids-dedup_example = ids-dedup three_gates

release_ready_iff_example :
    ((conclude true three_gates).release_ready ≡ true)
    ↔ ((id : String) → is_mandatory id ≡ true → Green three_gates id)
release_ready_iff_example = release_ready_iff true three_gates

exit_status_iff_example : (exit_status false three_gates ≡ 0) ↔ (
    NoFailure three_gates
    × (◌≡◌ {A = Bool} false true → (id : String) → is_mandatory id ≡ true → Green three_gates id))
exit_status_iff_example = exit_status_iff false three_gates

all_gates_pass : main good_env false ≡ 0
unfolding main exit_status all_gates tooling_gates release_gates mix_gates rust_gates postgres_gates
    outage_gates linux_gates suite_aliases live_gates reference_gates preflight_gates
    target_projects run_gate run_compound_gate run_call add_alias_gate static_inventory secret_scan
    missing_files parse_errors bad_whitespace has_file required_files source_files mandatory_ids
    is_mix_test begin_step is_checked search_in private_key bounded_search aws_access_key
    github_token openai_key result_passed
all_gates_pass = refl

main-IsEquipped_example : IsEquipped good_env
main-IsEquipped_example = main-IsEquipped good_env all_gates_pass

abbrev acceptance_env : Env
acceptance_env = record good_env { package_name = some "autonomic_acceptance" }

deps_pass :
    (mix_gate acceptance_env "mix_deps_get"
      ("/usr/bin/mix" ∷ "deps.get" ∷ [])
      acceptance
      300).status
    ≡ passed
unfolding run_compound_gate run_call begin_step project_steps
deps_pass = refl

all_gates-PassedUnrun_example :
    (target_projects acceptance_env ≡ some acceptance)
    × All (PassedUnrun (all_gates acceptance_env acceptance)) unchecked_ids
all_gates-PassedUnrun_example =
    all_gates-PassedUnrun acceptance_env "/usr/bin/mix" refl refl refl deps_pass
