-- ===== src/Qc/Tests/Gates.antt =====
-- Single gates.
use autonomic.Regex.{search_in}
use autonomic.Common.{String, true, List, [], ◌∷◌, ◌++◌, ◌≡◌, refl, ◌↔◌, arith, All}
use autonomic.Regex.Matching.{MatchesInside}
use autonomic.Qc.Process.{pos, started, exited, timed_out, run_logged_command}
use autonomic.Qc.Process.Deadline.{
  EndsWith, Beats, run_logged_command-EndsWith, run_logged_command-Beats,
}
use autonomic.Qc.Gate.{
  passed, Gate, Step, result_passed, is_mix_test, gate_call, run_call, run_gate, run_compound_gate,
  run_steps, at_start, gate_by_id, add_alias_gate, pending,
}
use autonomic.Qc.Gate.Result.{
  Succeeds, run_gate_passed_iff, run_compound_gate_passed_iff, status_or_not_run,
  add_alias_gate_lem,
}
use autonomic.Qc.Tests.Data.{hangs, good_host}

-- A command that hangs is cut off, with a heartbeat at each second before.
cut_off :
    run_logged_command 3000 1000 (started hangs)
    ≡ record { outcome = timed_out; waits = 1000 ∷ 2000 ∷ [] }
unfolding run_logged_command
cut_off = refl

run_logged_command-EndsWith_example :
    EndsWith 3000 hangs (run_logged_command 3000 1000 (started hangs)).outcome
run_logged_command-EndsWith_example = run_logged_command-EndsWith 3000 1000 hangs (λ n. omega arith)

run_logged_command-Beats_example :
    Beats 3000 1000 1000 (run_logged_command 3000 1000 (started hangs)).waits
run_logged_command-Beats_example = run_logged_command-Beats 3000 1000 (started hangs)

abbrev mix_test : List String
mix_test = "/usr/bin/mix" ∷ "test" ∷ []

run_gate_passes : (run_gate good_host "postgresql_integration" mix_test "." [] 60).status ≡ passed
unfolding run_gate run_call is_mix_test search_in result_passed
run_gate_passes = refl

run_gate_passed_iff_example :
    let call = gate_call "postgresql_integration" mix_test "." [] in
    ((run_gate good_host "postgresql_integration" mix_test "." [] 60).status ≡ passed) ↔ (
      (run_call good_host call 60 ≡ exited (pos 0))
      × (is_mix_test mix_test ≡ true → MatchesInside result_passed (good_host.output call)))
run_gate_passed_iff_example =
    run_gate_passed_iff good_host "postgresql_integration" [] 60 mix_test "."

abbrev steps : List Step
steps =
    record { label = "autonomic"; argv = "mix" ∷ "format" ∷ []; cwd = "packages/autonomic" }
    ∷ record { label = "linux"; argv = "mix" ∷ "format" ∷ []; cwd = "packages/autonomic_linux" }
    ∷ []

run_compound_gate_passed_iff_example :
    ((run_compound_gate good_host "format" steps [] 60).status ≡ passed) ↔ (
      All (Succeeds good_host "format" [] 60) steps
      × (◌≡◌ {A = String} "format" "exunit_full"
          → MatchesInside result_passed (run_steps good_host "format" [] 60 steps at_start).log))
run_compound_gate_passed_iff_example = run_compound_gate_passed_iff good_host "format" [] 60 steps

add_alias_gate_lem_example :
    let gates = pending "exunit_full" "no mix" [] ∷ [] in
    (g : Gate) × (add_alias_gate "semantic_outage_degradation" "exunit_full" "covered" gates
      ≡ gates ++ (g ∷ []))
    × (g.id ≡ "semantic_outage_degradation")
    × (g.status ≡ status_or_not_run (gate_by_id gates "exunit_full"))
add_alias_gate_lem_example =
    add_alias_gate_lem "semantic_outage_degradation" "exunit_full" "covered"
      (pending "exunit_full" "no mix" [] ∷ [])
