-- ===== src/Qc/Process/Deadline.antt =====
-- A command ends by its deadline, and is cut off only at its deadline.
use mathlib.Core.Path.{subst}
use native.Mathlib.Decide.{dec_lt}
use native.Mathlib.Numerals.{towards_suc}
use autonomic.Common.{
  ℕ, zero, suc, ◌+◌, ◌*◌, ◌≤◌, ◌<◌, none, some, List, [], ◌∷◌, ◌≡◌, inl, inr, arith, leb, leb→le,
  Bool-cases, Option-cases,
}
use autonomic.Qc.Process.{
  Tick, Launch, not_started, started, Outcome, exited, timed_out, raised, unfinished, watch, pause,
  rounds, run_logged_command,
}

-- `time.sleep` sleeps at least as long as asked, by a clock that does not run backwards.
abbrev pub IsPaced : (ℕ → Tick) → Type 0
IsPaced process = (n : ℕ) → (process n).elapsed + pause ≤ (process (suc n)).elapsed

paced_elapsed : (process : ℕ → Tick) → IsPaced process → (n : ℕ) → pause * n ≤ (process n).elapsed
paced_elapsed process paced zero = omega arith
paced_elapsed process paced (suc n) = omega (arith, paced_elapsed process paced n, paced n)

module _ (timeout : ℕ) (process : ℕ → Tick) where
  -- Up to the round `n` the command was running and the deadline had not passed.
  abbrev pub Quiet : ℕ → Type 0
  Quiet n = (k : ℕ) → k < n → ((process k).poll ≡ none) × ((process k).elapsed < timeout)

  -- How the command itself ended, in terms of the rounds alone.
  abbrev pub EndsWith : Outcome → Type 0
  EndsWith (exited code) = (n : ℕ) × Quiet n × ((process n).poll ≡ some code)
  EndsWith timed_out =
      (n : ℕ) × Quiet n × ((process n).poll ≡ none) × (timeout ≤ (process n).elapsed)
  EndsWith (raised str repr) = ⊥
  EndsWith unfinished = ⊥

  Quiet-suc :
      (n : ℕ) → Quiet n → (process n).poll ≡ none → (process n).elapsed < timeout → Quiet (suc n)
  Quiet-suc n quiet p e k h = elim (dec_lt k n) [
    | yes before ↦ quiet k before
    | no after ↦
        let same : n ≡ k = omega arith in
        subst (λ j. ((process j).poll ≡ none) × ((process j).elapsed < timeout)) same (p, e)
  ]

  watch-EndsWith :
      IsPaced process
      → (interval fuel round next : ℕ) → Quiet round
      → pause * round < timeout + pause
      → timeout + pause ≤ pause * (round + fuel)
      → EndsWith (watch timeout interval process fuel round next).outcome
  unfolding watch
  watch-EndsWith paced interval zero round next quiet below enough = absurd (omega arith)
  watch-EndsWith paced interval (suc fuel) round next quiet below enough =
      elim (Option-cases (process round).poll) [
        | inl running ↦ elim (Bool-cases (leb timeout (process round).elapsed)) [
          | inl late ↦ rw (running, watch, late) (round, quiet, running, leb→le _ _ late)
          | inr early ↦
              let soon : (process round).elapsed < timeout = ground (arith, early) in
              let passed = paced_elapsed process paced round in
              let behind = Quiet-suc round quiet running soon in
              let go = λ (next : ℕ).
                watch-EndsWith paced interval fuel (suc round) next behind (omega arith)
                  (omega arith) in
              elim (Bool-cases (leb next (process round).elapsed)) [
                | inl beat ↦ rw (running, watch, early, beat) (simp towards_suc (go _))
                | inr silent ↦ rw (running, watch, early, silent) (simp towards_suc (go next))
              ]
        ]
        | inr (code, ended) ↦ rw (ended, watch) (round, quiet, ended)
      ]

-- Every watched command comes to an end: with the return code of the first round that finds it
-- ended, no round before that being past the deadline, or cut off in the first round past the
-- deadline, in which it still ran. The rounds are at least `pause` apart.
pub run_logged_command-EndsWith :
    (timeout interval : ℕ) (process : ℕ → Tick)
    → IsPaced process
    → EndsWith timeout process (run_logged_command timeout interval (started process)).outcome
unfolding run_logged_command
run_logged_command-EndsWith timeout interval process paced =
    watch-EndsWith timeout process paced interval (rounds timeout) 0 interval
      (λ k h. absurd (omega arith)) (omega arith) (omega arith)

-- Each line WAIT comes when it is due, and at least the interval behind the one before it; the
-- deadline has then not passed.
abbrev pub Beats : (timeout interval next : ℕ) → List ℕ → Type 0
Beats timeout interval next [] = Unit
Beats timeout interval next (t ∷ ts) =
    (next ≤ t) × (t < timeout) × Beats timeout interval (t + interval) ts

watch-Beats :
    (timeout interval : ℕ) (process : ℕ → Tick) (fuel round next : ℕ)
    → Beats timeout interval next (watch timeout interval process fuel round next).waits
unfolding watch
watch-Beats timeout interval process zero round next = tt
watch-Beats timeout interval process (suc fuel) round next = ground (
  arith,
  watch-Beats timeout interval process fuel (round + 1) next,
  watch-Beats timeout interval process fuel (round + 1) ((process round).elapsed + interval),
)

-- The heartbeat lines of a command are printed before its deadline, the first when one interval
-- has passed, and any two of them at least one interval apart.
pub run_logged_command-Beats :
    (timeout interval : ℕ) (launch : Launch)
    → Beats timeout interval interval (run_logged_command timeout interval launch).waits
unfolding run_logged_command
run_logged_command-Beats timeout interval (not_started str repr) = tt
run_logged_command-Beats timeout interval (started process) =
    watch-Beats timeout interval process (rounds timeout) 0 interval
