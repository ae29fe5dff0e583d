-- ===== src/Qc/Gate/Run.antt =====
-- `run_gate`, `run_compound_gate`, `pending`, `gate_by_id` and `add_alias_gate` of scripts/qc.py.
use autonomic.Common.{
  ℕ, zero, suc, String, ◌<>◌, Bool, true, false, not, ◌&&◌, Option, none, some, List, [], ◌∷◌, ◌++◌,
  ◌==◌, string_eq, if◌then◌else◌,
}
use autonomic.Common.Text.{codes, decimal}
use autonomic.Regex.{search_in}
use autonomic.Qc.Process.{ℤ, pos, negsuc, Outcome, exited, timed_out, raised, unfinished}
use autonomic.Qc.Gate.Types.{
  Status, passed, failed, not_run, Reason, text, timeout_after, Gate, Call, Host, run_call,
  is_mandatory,
}
use autonomic.Qc.Gate.Log.{result_passed, is_mix_test}

-- `return_code == 0`
abbrev pub is_zero : ℤ → Bool
is_zero (pos zero) = true
is_zero (pos (suc n)) = false
is_zero (negsuc n) = false

-- `merged`, as far as it is set here.
abbrev pub merged_env : String → List (String × String) → List (String × String)
merged_env id env =
    if id == "exdoc_warnings_as_errors" then env ++ (("MIX_ENV", "dev") ∷ []) else env

unfoldable pub gate_call : String → List String → String → List (String × String) → Call
gate_call id argv cwd env = record {
  label = id ∷ [];
  argv = argv;
  cwd = cwd;
  env = merged_env id env;
}

-- The status that `run_gate` reports: a test run of mix must also name tests that passed.
unfoldable pub gate_status : List String → List ℕ → Outcome → Status
gate_status argv log (exited code) =
    if is_mix_test argv && not (search_in result_passed log)
    then failed
    else if is_zero code
    then passed
    else failed
gate_status argv log timed_out = failed
gate_status argv log (raised str repr) = failed
gate_status argv log unfinished = failed

abbrev pub gate_code : Outcome → Option ℤ
gate_code (exited code) = some code
gate_code timed_out = none
gate_code (raised str repr) = none
gate_code unfinished = none

abbrev pub gate_reason : ℕ → Outcome → Option Reason
gate_reason timeout (exited code) = none
gate_reason timeout timed_out = some (timeout_after timeout)
gate_reason timeout (raised str repr) = some (text repr)
gate_reason timeout unfinished = none

unfoldable pub run_gate : Host → String → List String → String → List (String × String) → ℕ → Gate
unfolding gate_call gate_status
run_gate host id argv cwd env timeout =
    let call = gate_call id argv cwd env in
    let outcome = run_call host call timeout in
    record {
      id = id;
      status = gate_status argv (host.output call) outcome;
      mandatory = is_mandatory id;
      command = argv;
      exit_code = gate_code outcome;
      reason = gate_reason timeout outcome;
      evidence_gate = none;
    }

-- A step of a compound gate.
pub record Step : Type 0 where
  pub label : String
  pub argv : List String
  pub cwd : String

-- The variables of the loop over the steps.
pub record Progress : Type 0 where
  pub overall_code : ℤ
  pub all_commands : List String
  pub log : List ℕ

-- `' '.join(words)`
abbrev pub join : List String → String
join [] = ""
join (w ∷ []) = w
join (w ∷ v ∷ ws) = w <> (" " <> join (v ∷ ws))

unfoldable pub step_call : String → List (String × String) → Step → Call
step_call id env s = record {
  label = id ∷ s.label ∷ [];
  argv = s.argv;
  cwd = s.cwd;
  env = merged_env id env;
}

-- The header that is written before the step runs.
unfoldable pub begin_step : Step → Progress → Progress
begin_step s p = record p {
  all_commands = p.all_commands ++ ((s.label <> (": " <> join s.argv)) ∷ []);
  log =
      p.log
      ++ codes
          ("\n=== [" <> (s.label <> ("] in " <> (s.cwd <> (" ===\n$ " <> (join s.argv <> "\n"))))));
}

-- `if return_code != 0: overall_code = return_code`
abbrev pub note_code : ℤ → List ℕ → Progress → Progress
note_code code output p = record p {
  overall_code = if is_zero code then p.overall_code else code;
  log = p.log ++ output;
}

-- `overall_code = 1`, with the text that is logged.
abbrev pub give_up : List ℕ → Progress → Progress
give_up message p = record p { overall_code = pos 1; log = p.log ++ message }

unfoldable pub run_steps :
    Host → String → List (String × String) → ℕ → List Step → Progress → Progress
run_steps host id env timeout [] p = p
run_steps host id env timeout (s ∷ steps) p =
    let call = step_call id env s in
    let begun = begin_step s p in
    let output = host.output call in
    elim (run_call host call timeout) [
      | exited code ↦ run_steps host id env timeout steps (note_code code output begun)
      | timed_out ↦
          give_up (output ++ (codes "\nERROR: timeout after " ++ (decimal timeout ++ codes "s\n")))
            begun
      | raised str repr ↦ give_up (output ++ codes ("\nERROR: " <> (str <> "\n"))) begun
      | unfinished ↦ give_up output begun
    ]

abbrev pub at_start : Progress
at_start = record { overall_code = pos 0; all_commands = []; log = [] }

-- A full test run must also name tests that passed.
unfoldable pub compound_status : String → Progress → Status
compound_status id p =
    if is_zero p.overall_code
    then (if id == "exunit_full" && not (search_in result_passed p.log) then failed else passed)
    else failed

unfoldable pub run_compound_gate : Host → String → List Step → List (String × String) → ℕ → Gate
unfolding run_steps compound_status
run_compound_gate host id steps env timeout =
    let p = run_steps host id env timeout steps at_start in
    record {
      id = id;
      status = compound_status id p;
      mandatory = is_mandatory id;
      command = p.all_commands;
      exit_code = some p.overall_code;
      reason = none;
      evidence_gate = none;
    }

unfoldable pub pending : String → String → List String → Gate
pending id reason command = record {
  id = id;
  status = not_run;
  mandatory = is_mandatory id;
  command = command;
  exit_code = none;
  reason = some (text reason);
  evidence_gate = none;
}

unfoldable pub gate_by_id : List Gate → String → Option Gate
gate_by_id [] id = none
gate_by_id (g ∷ gates) id = if g.id == id then some g else gate_by_id gates id

unfoldable pub add_alias_gate : String → String → String → List Gate → List Gate
unfolding gate_by_id pending
add_alias_gate id source_id note gates = elim (gate_by_id gates source_id) [
  | none ↦ gates ++ (pending id ("source gate " <> (source_id <> " missing")) [] ∷ [])
  | some source ↦
      gates
      ++ (record {
        id = id;
        status = source.status;
        mandatory = is_mandatory id;
        command = [];
        exit_code = none;
        reason = some (text note);
        evidence_gate = some source_id;
      }
          ∷ [])
]
