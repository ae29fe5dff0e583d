-- ===== src/Qc/Main.antt =====
-- `main` of scripts/qc.py as a whole.
pub mod Barred
mod Unmet
pub mod Requires
pub mod Extends
pub mod Filter
use autonomic.Common.{ℕ, String, Bool, true, false, Option, none, some, List, [], ◌∷◌, ◌++◌, not}
use autonomic.Qc.Gate.{Gate}
use autonomic.Qc.Inventory.{static_inventory, secret_scan}
use autonomic.Qc.Plan.{
  Env, target_projects, tooling_gates, release_gates, mix_gates, rust_gates, postgres_gates,
  outage_gates, linux_gates, suite_aliases, live_gates, reference_gates, preflight_gates,
}
use autonomic.Qc.Report.{exit_status}

-- All gates in the order in which `main` appends them.
unfoldable pub all_gates : Env → List String → List Gate
all_gates env targets =
    reference_gates env (
      suite_aliases (
        linux_gates env (
          postgres_gates env (
            (static_inventory env.checkout ∷ secret_scan env.checkout ∷ [])
            ++ (tooling_gates env
                ++ (release_gates env ++ (mix_gates env targets ++ rust_gates env))))
          ++ outage_gates env))
      ++ live_gates env)
    ++ preflight_gates env

-- The exit status of a run. A name that is no project's ends it with 1 at once.
unfoldable pub main : Env → (handoff : Bool) → ℕ
unfolding all_gates
main env handoff = elim (target_projects env) [
  | none ↦ 1
  | some targets ↦ exit_status (not handoff) (all_gates env targets)
]
