-- ===== src/Qc/Process.antt =====
-- `_terminate_process` and `_run_logged_command` of scripts/qc.py: a command under a deadline.
-- Times are milliseconds since the command was started.
pub mod Deadline
use autonomic.Common.{
  ℕ, zero, suc, ◌+◌, ◌*◌, ◌/◌, String, Bool, true, false, Option, none, some, List, [], ◌∷◌, leb,
  if◌then◌else◌,
}

-- A return code: `negsuc n` is -(n + 1), the end by signal n + 1.
pub data ℤ : Type 0 where
  pos : ℕ → ℤ
  negsuc : ℕ → ℤ

-- What one round of the loop sees: `process.poll()`, and the time passed.
pub record Tick : Type 0 where
  pub poll : Option ℤ
  pub elapsed : ℕ

-- `subprocess.Popen` fails with an exception `e`, of which `str(e)` and `repr(e)` are kept, or
-- gives a process that is watched round by round.
pub data Launch : Type 0 where
  not_started : String → String → Launch
  started : (ℕ → Tick) → Launch

-- How `_run_logged_command` ends. `unfinished` is the end of the model's fuel.
pub data Outcome : Type 0 where
  exited : ℤ → Outcome
  timed_out : Outcome
  raised : String → String → Outcome
  unfinished : Outcome

-- `HEARTBEAT_SECONDS`, from the number in the environment.
unfoldable pub heartbeat_seconds : Option ℕ → ℕ
heartbeat_seconds none = 10
heartbeat_seconds (some n) = if leb n 1 then 1 else n

-- The outcome, and the times at which a line WAIT is printed.
pub record Watch : Type 0 where
  pub outcome : Outcome
  pub waits : List ℕ

abbrev pub wait_at : ℕ → Watch → Watch
wait_at t w = record w { waits = t ∷ w.waits }

-- The loop, from a round on. A process that runs past the deadline is terminated; one that is found
-- ended is not asked for the time, so that it may have passed the deadline since the round before.
unfoldable pub watch : (timeout interval : ℕ) → (ℕ → Tick) → ℕ → (round next_heartbeat : ℕ) → Watch
watch timeout interval process zero round next = record { outcome = unfinished; waits = [] }
watch timeout interval process (suc fuel) round next =
    let tick = process round in
    let later = watch timeout interval process fuel (round + 1) next in
    let beaten =
      wait_at tick.elapsed
        (watch timeout interval process fuel (round + 1) (tick.elapsed + interval)) in
    elim tick.poll [
      | some code ↦ record { outcome = exited code; waits = [] }
      | none ↦
          if leb timeout tick.elapsed
          then record { outcome = timed_out; waits = [] }
          else if leb next tick.elapsed
          then beaten
          else later
    ]

-- `time.sleep(0.25)`: the least time between two rounds.
abbrev pub pause : ℕ
pause = 250

-- Rounds enough to reach the deadline.
abbrev pub rounds : ℕ → ℕ
rounds timeout = timeout / pause + 2

unfoldable pub run_logged_command : (timeout interval : ℕ) → Launch → Watch
unfolding watch
run_logged_command timeout interval (not_started str repr) = record {
  outcome = raised str repr;
  waits = [];
}
run_logged_command timeout interval (started process) =
    watch timeout interval process (rounds timeout) 0 interval

pub data Signal : Type 0 where
  sigterm sigkill : Signal

-- `_terminate_process` on a POSIX host: the signals that the process group is sent, from whether
-- the process has ended, and whether the SIGTERM and the wait for 5 seconds went through.
unfoldable pub terminate_process : (ended term_sent ended_in_time : Bool) → List Signal
terminate_process true term_sent ended_in_time = []
terminate_process false true true = sigterm ∷ []
terminate_process false true false = sigterm ∷ sigkill ∷ []
terminate_process false false ended_in_time = sigkill ∷ []
