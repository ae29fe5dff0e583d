-- ===== src/Qc/Main/Requires.antt =====
-- What must be at hand for a strict run to succeed.
use autonomic.Common.{
  String, Bool, true, false, ◌&&◌, ◌||◌, none, some, List, ◌≡◌, refl, ◌∙◌, sym, inl, inr, arith,
  string_eq, All, Bool-cases, Option-cases,
}
use autonomic.Qc.Gate.{status_eq, is_mandatory, mandatory_ids}
use autonomic.Qc.Plan.{
  Env, truthy, target_projects, db_url, db_ready, linux_ready, linux_enabled, live_key,
  pg_server_tools,
}
use autonomic.Qc.Report.{exit_status}
use autonomic.Qc.Report.Verdict.{Green, exit_status_iff}
use autonomic.Qc.Main.{all_gates, main}
use autonomic.Qc.Main.Barred.{Barred}
use autonomic.Qc.Main.Unmet.{and_left, and_right, all_gates-Barred, Barred-not-Green}

all_three : (a b c d : Bool) → (a && (b && (c && d))) ≡ true → (b ≡ true) × (c ≡ true) × (d ≡ true)
all_three a b c d h = ground arith

-- The tools, the environment and the privileges without which some mandatory gate is not run.
pub record IsEquipped (env : Env) : Type 0 where
  pub mix : truthy (env.which "mix") ≡ true
  pub cargo : truthy (env.which "cargo") ≡ true
  pub psql : truthy (env.which "psql") ≡ true
  pub database : truthy (db_url env) ≡ true
  pub linux : linux_enabled env ≡ true
  pub privileged : (env.is_root_user || truthy (env.which "sudo")) ≡ true
  pub server_tools : pg_server_tools env ≡ true
  pub live : truthy (live_key env) ≡ true
  pub bash : truthy (env.which "bash") ≡ true

module _ (env : Env) (targets : List String) where
  abbrev AllGreen : Type 0
  AllGreen = (id : String) → is_mandatory id ≡ true → Green (all_gates env targets) id

  -- A test on which the gates of `id` rest holds, if the id is mandatory and all are green.
  ready_of_Green :
      (id : String) (test : Bool)
      → (test ≡ false → All (Barred id) (all_gates env targets))
      → Green (all_gates env targets) id
      → test ≡ true
  ready_of_Green id test bar green = elim (Bool-cases test) [
    | inl holds ↦ holds
    | inr fails ↦ absurd (Barred-not-Green id (all_gates env targets) (bar fails) green)
  ]

  AllGreen-IsEquipped : AllGreen → IsEquipped env
  unfolding is_mandatory mandatory_ids
  AllGreen-IsEquipped green =
      let bar = λ (id : String). all_gates-Barred id env targets in
      let reference =
        ready_of_Green "coding_agent_normal_repair" (db_ready env && linux_ready env)
          (λ h. bar "coding_agent_normal_repair" refl refl refl h refl)
          (green "coding_agent_normal_repair" refl) in
      let outage =
        ready_of_Green "db_outage_blocks_authority"
          (truthy (env.which "mix") && pg_server_tools env)
          (λ h. bar "db_outage_blocks_authority" refl h refl refl refl)
          (green "db_outage_blocks_authority" refl) in
      let live =
        ready_of_Green "typesafe_live_evaluate_v4"
          (truthy (env.which "mix") && truthy (live_key env))
          (λ h. bar "typesafe_live_evaluate_v4" refl refl h refl refl)
          (green "typesafe_live_evaluate_v4" refl) in
      let preflight =
        ready_of_Green "host_preflight" (truthy (env.which "bash"))
          (λ h. bar "host_preflight" refl refl refl refl h) (green "host_preflight" refl) in
      let db = and_left _ _ reference in
      let (cargo, enabled, privileged) =
        all_three (truthy (env.which "mix")) (truthy (env.which "cargo")) (linux_enabled env)
          (env.is_root_user || truthy (env.which "sudo")) (and_right _ _ reference) in
      record {
        mix = and_left _ _ live;
        cargo = cargo;
        psql = and_left (truthy (env.which "psql")) (truthy (db_url env)) (and_right _ _ db);
        database = and_right (truthy (env.which "psql")) (truthy (db_url env)) (and_right _ _ db);
        linux = enabled;
        privileged = privileged;
        server_tools = and_right _ _ outage;
        live = and_right _ _ live;
        bash = preflight;
      }

main_unknown : (env : Env) → target_projects env ≡ none → main env false ≡ 1
unfolding main
main_unknown env unknown = rw (unknown, main) refl

main_known :
    (env : Env) (targets : List String)
    → target_projects env ≡ some targets
    → main env false ≡ exit_status true (all_gates env targets)
unfolding main
main_known env targets known = rw (known, main) refl

-- A strict run exits with 0 only on a host that has mix, cargo, psql, bash, the PostgreSQL server
-- tools, a database address, AUTONOMIC_LINUX=1 with root or sudo, and a live service key.
pub main-IsEquipped : (env : Env) → main env false ≡ 0 → IsEquipped env
main-IsEquipped env h = elim (Option-cases (target_projects env)) [
  | inl unknown ↦ absurd (omega (arith, main_unknown env unknown))
  | inr (targets, known) ↦
      let ended = sym (main_known env targets known) ∙ h in
      AllGreen-IsEquipped env targets
        (((exit_status_iff true (all_gates env targets)).0 ended).1 refl)
]
