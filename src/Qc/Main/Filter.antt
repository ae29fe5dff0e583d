-- ===== src/Qc/Main/Filter.antt =====
-- What `--package` leaves unchecked.
use mathlib.Core.Path.{subst}
use autonomic.Common.{
  String, true, none, some, List, [], ◌∷◌, ◌++◌, ◌≡◌, refl, sym, ◌∙◌, string_eq, All, contains,
  false,
}
use autonomic.Qc.Gate.{Gate, passed, status_eq, gate_by_id, run_compound_gate}
use autonomic.Qc.Inventory.{static_inventory, secret_scan}
use autonomic.Qc.Plan.{
  Env, truthy, target_projects, published, mix_gate, built_gates, mix_gates, tooling_gates,
  release_gates, rust_gates, postgres_gates, outage_gates, linux_gates, suite_aliases, live_gates,
  reference_gates, preflight_gates,
}
use autonomic.Qc.Main.{all_gates}
use autonomic.Qc.Main.Barred.{tooling_names, release_names}
use autonomic.Qc.Main.Extends.{
  Extends, Extends-append, Extends-trans, Extends-postgres_gates, Extends-linux_gates,
  Extends-suite_aliases, Extends-reference_gates, gate_by_id-Extends, gate_by_id-behind,
  gate_by_id-tooling_gates, gate_by_id-release_gates,
}

-- The gate stands in the list as passed, and no command was run for it.
abbrev pub PassedUnrun : List Gate → String → Type 0
PassedUnrun gates id =
    (g : Gate) × (gate_by_id gates id ≡ some g) × (g.status ≡ passed) × (g.command ≡ [])

abbrev pub unchecked_ids : List String
unchecked_ids = "credo_strict" ∷ "dialyzer" ∷ "exdoc_warnings_as_errors" ∷ []

abbrev pub acceptance : List String
acceptance = "integration/autonomic_acceptance" ∷ []

built_gates-PassedUnrun :
    (env : Env) (mix : String) (targets : List String)
    → published targets ≡ []
    → All (PassedUnrun (built_gates env mix targets)) unchecked_ids
unfolding built_gates run_compound_gate gate_by_id
built_gates-PassedUnrun env mix targets h =
    rw h ((_, refl, refl, refl), ((_, refl, refl, refl), ((_, refl, refl, refl), tt)))

PassedUnrun-Extends :
    (gates more : List Gate) (id : String)
    → Extends gates more
    → PassedUnrun gates id
    → PassedUnrun more id
PassedUnrun-Extends gates more id e (g, found, rest, none_run) =
    (g, gate_by_id-Extends gates more id g e found, rest, none_run)

module _ (env : Env) (targets : List String) where
  -- The sections 0 to 4 as one list.
  abbrev first_gates : List Gate
  first_gates =
      (static_inventory env.checkout ∷ secret_scan env.checkout ∷ [])
      ++ (tooling_gates env ++ (release_gates env ++ (mix_gates env targets ++ rust_gates env)))

  Extends-all_gates : Extends first_gates (all_gates env targets)
  unfolding all_gates
  Extends-all_gates =
      let after_postgres = postgres_gates env first_gates ++ outage_gates env in
      let after_linux = linux_gates env after_postgres in
      let after_live = suite_aliases after_linux ++ live_gates env in
      let to_linux =
        Extends-trans first_gates after_postgres after_linux
          (Extends-trans first_gates (postgres_gates env first_gates) after_postgres
            (Extends-postgres_gates env first_gates) (Extends-append _ (outage_gates env)))
          (Extends-linux_gates env after_postgres) in
      let to_live = Extends-trans first_gates after_linux after_live to_linux (
        Extends-trans after_linux (suite_aliases after_linux) after_live
          (Extends-suite_aliases after_linux) (Extends-append _ (live_gates env))) in
      Extends-trans first_gates (reference_gates env after_live) _
        (Extends-trans first_gates after_live (reference_gates env after_live) to_live
          (Extends-reference_gates env after_live))
        (Extends-append _ (preflight_gates env))

  -- No gate in front of the ones of mix has the id.
  abbrev IsMixId : String → Type 0
  IsMixId id =
      (gate_by_id (static_inventory env.checkout ∷ secret_scan env.checkout ∷ []) id ≡ none)
      × (contains tooling_names id ≡ false)
      × (contains release_names id ≡ false)

  PassedUnrun-mix_gates :
      (id : String)
      → IsMixId id
      → PassedUnrun (mix_gates env targets) id
      → PassedUnrun (all_gates env targets) id
  PassedUnrun-mix_gates id (checks, tooling, release) (g, found, status, unrun) =
      let mix_on = mix_gates env targets ++ rust_gates env in
      let first =
        gate_by_id-behind (static_inventory env.checkout ∷ secret_scan env.checkout ∷ [])
          (tooling_gates env ++ (release_gates env ++ mix_on)) id checks
        ∙ gate_by_id-behind (tooling_gates env) (release_gates env ++ mix_on) id
            (gate_by_id-tooling_gates id env tooling)
        ∙ gate_by_id-behind (release_gates env) mix_on id (gate_by_id-release_gates id env release)
        ∙ gate_by_id-Extends (mix_gates env targets) mix_on id g
            (Extends-append (mix_gates env targets) (rust_gates env)) found in
      PassedUnrun-Extends first_gates (all_gates env targets) id Extends-all_gates
        (g, first, status, unrun)

mix_gates-built_gates :
    (env : Env) (mix : String) (targets : List String)
    → env.which "mix" ≡ some mix
    → truthy (some mix) ≡ true
    → (mix_gate env "mix_deps_get" (mix ∷ "deps.get" ∷ []) targets 300).status ≡ passed
    → mix_gates env targets
      ≡ mix_gate env "mix_deps_get" (mix ∷ "deps.get" ∷ []) targets 300
        ∷ built_gates env mix targets
unfolding mix_gates
mix_gates-built_gates env mix targets found here deps = rw (found, mix_gates, here, deps) refl

-- With `--package autonomic_acceptance`, on a host that has mix and on which `mix deps.get` passes,
-- the gates credo_strict, dialyzer and exdoc_warnings_as_errors stand as passed among the gates of
-- main, though no command is run for them.
pub all_gates-PassedUnrun :
    (env : Env) (mix : String)
    → env.package_name ≡ some "autonomic_acceptance"
    → env.which "mix" ≡ some mix
    → truthy (some mix) ≡ true
    → (mix_gate env "mix_deps_get" (mix ∷ "deps.get" ∷ []) acceptance 300).status ≡ passed
    → (target_projects env ≡ some acceptance)
      × All (PassedUnrun (all_gates env acceptance)) unchecked_ids
unfolding target_projects static_inventory secret_scan gate_by_id run_compound_gate
all_gates-PassedUnrun env mix chosen found here deps =
    let shape = mix_gates-built_gates env mix acceptance found here deps in
    let (credo, (dialyzer, (docs, _))) = built_gates-PassedUnrun env mix acceptance refl in
    let lift =
      λ (id : String) (apart : IsMixId env acceptance id)
          (p : PassedUnrun (mix_gates env acceptance) id).
        PassedUnrun-mix_gates env acceptance id apart p in
    (
      rw chosen refl,
      (
        lift "credo_strict" (refl, refl, refl)
            (subst (λ gs. PassedUnrun gs "credo_strict") (sym shape) credo),
        (
          lift "dialyzer" (refl, refl, refl)
              (subst (λ gs. PassedUnrun gs "dialyzer") (sym shape) dialyzer),
          (
            lift "exdoc_warnings_as_errors" (refl, refl, refl)
                (subst (λ gs. PassedUnrun gs "exdoc_warnings_as_errors") (sym shape) docs),
            tt,
          ),
        ),
      ),
    )
