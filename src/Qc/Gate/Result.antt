-- ===== src/Qc/Gate/Result.antt =====
-- When a gate passes.
use text.Mathlib.TextEquality.{eq_iff}
use autonomic.Common.{
  ℕ, zero, suc, String, ◌<>◌, true, Option, none, some, List, [], ◌∷◌, ◌++◌, ◌≡◌, refl, ◌↔◌, inl,
  inr, arith, ◌==◌, string_eq, All, Bool-cases, Option-cases,
}
use autonomic.Regex.{search_in}
use autonomic.Regex.Matching.{MatchesInside, search_in_iff}
use autonomic.Qc.Process.{ℤ, pos, negsuc, Outcome, exited, timed_out, raised, unfinished}
use autonomic.Qc.Gate.Types.{Status, passed, not_run, Gate, Host, run_call}
use autonomic.Qc.Gate.Log.{result_passed, is_mix_test}
use autonomic.Qc.Gate.Run.{
  is_zero, gate_call, gate_status, run_gate, Step, Progress, step_call, begin_step, note_code,
  run_steps, at_start, run_compound_gate, pending, gate_by_id, add_alias_gate,
}

is_zero_iff : (code : ℤ) → (is_zero code ≡ true) ↔ (code ≡ pos 0)
is_zero_iff (pos zero) = (λ h. refl, λ h. refl)
is_zero_iff (pos (suc n)) = (λ h. cc, λ h. ground arith)
is_zero_iff (negsuc n) = (λ h. cc, λ h. cc)

gate_status_iff :
    (argv : List String) (log : List ℕ) (outcome : Outcome)
    → (gate_status argv log outcome ≡ passed) ↔ (
        (outcome ≡ exited (pos 0)) × (is_mix_test argv ≡ true → search_in result_passed log ≡ true))
unfolding gate_status
gate_status_iff argv log (exited code) = (
  λ h. (ground (arith, is_zero_iff code), λ t. ground (arith, t)),
  λ h. ground (arith, is_zero_iff code),
)
gate_status_iff argv log timed_out = (λ h. cc, λ h. cc)
gate_status_iff argv log (raised str repr) = (λ h. cc, λ h. cc)
gate_status_iff argv log unfinished = (λ h. cc, λ h. cc)

module _ (host : Host) (id : String) (env : List (String × String)) (timeout : ℕ) where
  -- A gate passes exactly if the loop that watches its command comes to its end with return code 0,
  -- and, where the command is `mix test`, its log reports a number of tests that passed, which is
  -- not 0.
  pub run_gate_passed_iff :
      (argv : List String) (cwd : String)
      → let call = gate_call id argv cwd env in
        ((run_gate host id argv cwd env timeout).status ≡ passed) ↔ (
          (run_call host call timeout ≡ exited (pos 0))
          × (is_mix_test argv ≡ true → MatchesInside result_passed (host.output call)))
  unfolding run_gate
  run_gate_passed_iff argv cwd =
      let call = gate_call id argv cwd env in
      let log = search_in_iff result_passed (host.output call) in
      let status = gate_status_iff argv (host.output call) (run_call host call timeout) in
      (
        λ h. let (ended, named) = status.0 h in (ended, λ t. log.0 (named t)),
        λ (ended, named). status.1 (ended, λ t. log.1 (named t)),
      )

  -- The step came to its end with return code 0.
  abbrev pub Succeeds : Step → Type 0
  Succeeds s = run_call host (step_call id env s) timeout ≡ exited (pos 0)

  abbrev AllZero : List Step → Progress → Type 0
  AllZero steps p =
      ((run_steps host id env timeout steps p).overall_code ≡ pos 0)
      ↔ ((p.overall_code ≡ pos 0) × All Succeeds steps)

  step_zero :
      (s : Step) (steps : List Step) (p : Progress)
      → ((q : Progress) → AllZero steps q)
      → (outcome : Outcome) → run_call host (step_call id env s) timeout ≡ outcome
      → AllZero (s ∷ steps) p
  unfolding run_steps begin_step
  step_zero s steps p rest (exited code) e =
      let q = note_code code (host.output (step_call id env s)) (begin_step s p) in
      rw (e, run_steps) (ground (arith, (rest q).0, (rest q).1, is_zero_iff code))
  step_zero s steps p rest timed_out e = rw (e, run_steps) (λ h. cc, λ h. cc)
  step_zero s steps p rest (raised str repr) e = rw (e, run_steps) (λ h. cc, λ h. cc)
  step_zero s steps p rest unfinished e = rw (e, run_steps) (λ h. cc, λ h. cc)

  run_steps_iff : (steps : List Step) (p : Progress) → AllZero steps p
  unfolding run_steps
  run_steps_iff [] p = (λ h. (h, tt), λ h. h.0)
  run_steps_iff (s ∷ steps) p =
      step_zero s steps p (run_steps_iff steps) (run_call host (step_call id env s) timeout) refl

  -- A compound gate passes exactly if every one of its steps ended by itself with return code 0
  -- and, if it is the full test run, the joint log reports a number of tests that passed, which
  -- is not 0.
  pub run_compound_gate_passed_iff :
      (steps : List Step)
      → ((run_compound_gate host id steps env timeout).status ≡ passed) ↔ (
          All Succeeds steps
          × (id ≡ "exunit_full"
              → MatchesInside result_passed (run_steps host id env timeout steps at_start).log))
  unfolding run_compound_gate
  run_compound_gate_passed_iff steps =
      let p = run_steps host id env timeout steps at_start in
      let log = search_in_iff result_passed p.log in
      let codes = run_steps_iff steps at_start in
      (
        λ h. (
          (codes.0 (ground (arith, is_zero_iff p.overall_code, h))).1,
          λ e. log.0 (ground (arith, eq_iff id "exunit_full", h)),
        ),
        λ (ended, named).
            let zero_code = codes.1 (refl, ended) in
            elim (Bool-cases (id == "exunit_full")) [
              | inl full ↦
                  let found = log.1 (named ((eq_iff id "exunit_full").0 full)) in
                  ground (arith, zero_code, is_zero_iff p.overall_code, full, found)
              | inr other ↦ ground (arith, zero_code, is_zero_iff p.overall_code, other)
            ],
      )

-- The status that stands for a gate that may be absent.
abbrev pub status_or_not_run : Option Gate → Status
status_or_not_run none = not_run
status_or_not_run (some g) = g.status

-- An alias gate under a new id is appended behind the gates, which stay as they are; it has its
-- source's status, and has not run if there is no source gate.
pub add_alias_gate_lem :
    (id source_id note : String) (gates : List Gate)
    → (g : Gate) × (add_alias_gate id source_id note gates ≡ gates ++ (g ∷ []))
      × (g.id ≡ id)
      × (g.status ≡ status_or_not_run (gate_by_id gates source_id))
unfolding add_alias_gate pending
add_alias_gate_lem id source_id note gates = elim (Option-cases (gate_by_id gates source_id)) [
  | inl absent ↦
      rw (absent, add_alias_gate)
        (pending id ("source gate " <> (source_id <> " missing")) [], refl, refl, refl)
  | inr (source, found) ↦ rw (found, add_alias_gate) (_, refl, refl, refl)
]
