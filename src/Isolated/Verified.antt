-- ===== src/Isolated/Verified.antt =====
-- A run of verify_packages.py that returns 0.
use autonomic.Common.{
  ℕ, String, true, false, none, some, List, [], ◌∷◌, ◌++◌, ◌≡◌, ◌↔◌, sym, ap, inl, inr, All, map,
  ◌==◌, nat_eq, nat_beq_iff, Bool-cases, Option-cases,
}
use mathlib.Core.Path.{subst}
use autonomic.Release.Packages.{topological_order, Repository}
use autonomic.Release.Stage.{Stage, Outcome, returned, raised}
use autonomic.Release.Build.{Hex}
use autonomic.Release.Inspect.{command_inspect}
use autonomic.Isolated.Environment.{Environ, isolated_env}
use autonomic.Isolated.{
  Event, tars_copied, ran, served, stopped, Log, Host, Done, and_then, run, verify_all,
  registry_calls, repo_call, with_server, serve, public_tars, verify_packages, exit, main,
}
use autonomic.Isolated.Passes.{
  and_then-true, Follows, Does, Does-run, Does-and_then, Does-event, Does-finally, Does-verify_all,
  package_events, CanPrepare,
}

module _ (host : Host) (root : String) (env : Environ) (stage : Stage) where
  abbrev pub server_events : String → List Event
  server_events port =
      served
      ∷ (((ran true (repo_call root env port) ∷ [])
            ++ package_events host root env stage topological_order)
          ++ (stopped ∷ []))

  -- Everything that the script does, in order, where nothing raises.
  abbrev pub all_events : String → List Event
  all_events port =
      (tars_copied (public_tars stage) ∷ map (ran true) (registry_calls root env))
      ++ server_events port

  abbrev CanPrepareAll : Type 0
  CanPrepareAll = All (CanPrepare host root env stage) topological_order

  Does-with_server :
      (port : String)
      → Does host (with_server host root env stage port) (Unit × CanPrepareAll) (server_events port)
  unfolding with_server
  Does-with_server port =
      let first = run host (repo_call root env port ∷ []) in
      let second = verify_all host root env stage topological_order in
      let events = package_events host root env stage topological_order in
      Does-event host
        (λ log.
          ((and_then (first log) second).0, (and_then (first log) second).1 ++ (stopped ∷ [])))
        (Unit × CanPrepareAll) served
        (((ran true (repo_call root env port) ∷ []) ++ events) ++ (stopped ∷ [])) (λ log. tt)
        (Does-finally host (λ log. and_then (first log) second) (Unit × CanPrepareAll)
          ((ran true (repo_call root env port) ∷ []) ++ events) stopped (λ log. tt)
          (Does-and_then host first second Unit CanPrepareAll
            (ran true (repo_call root env port) ∷ []) events
            (Does-run host (repo_call root env port ∷ []))
            (Does-verify_all host root env stage topological_order)))

  -- The block of the temporary folder, with its environment and its port.
  Does-block :
      (port : String)
      → Does host
          (λ log.
            and_then
              (run host (registry_calls root env) (log ++ (tars_copied (public_tars stage) ∷ [])))
              (serve host root env stage (some port)))
          (Unit × (Unit × CanPrepareAll))
          (all_events port)
  unfolding serve
  Does-block port =
      Does-and_then host
        (λ log. run host (registry_calls root env) (log ++ (tars_copied (public_tars stage) ∷ [])))
        (serve host root env stage (some port)) Unit (Unit × CanPrepareAll)
        (tars_copied (public_tars stage) ∷ map (ran true) (registry_calls root env))
        (server_events port)
        (Does-event host (run host (registry_calls root env)) Unit (tars_copied (public_tars stage))
          (map (ran true) (registry_calls root env)) (λ log. tt)
          (Does-run host (registry_calls root env)))
        (Does-with_server port)

-- Every copy can be made, every command succeeds, and this is what is done.
abbrev pub Runs : Host → String → Stage → Log → Environ → String → Type 0
Runs host root stage log env port =
    All (CanPrepare host root env stage) topological_order
    × Follows host [] (all_events host root env stage port)
    × (log ≡ all_events host root env stage port)

-- What the script needs, and what it does, where nothing raises.
abbrev pub Passes : Host → String → Stage → Log → Type 0
Passes host root stage log =
    (text : List ℕ) × (env : Environ) × (port : String) × (host.tool_versions ≡ some text)
    × (isolated_env root host.environ text ≡ some env)
    × (host.port ≡ some port)
    × Runs host root stage log env port

verify_packages_iff :
    (host : Host) (root : String) (stage : Stage) (log : Log)
    → (verify_packages host root stage ≡ (true, log)) ↔ Passes host root stage log
unfolding verify_packages serve
verify_packages_iff host root stage log = elim (Option-cases host.tool_versions) [
  | inl missing ↦ (
    λ h. cc (rw (missing, verify_packages) at h),
    λ (text, env, port, f, p, g, runs). cc (f, missing),
  )
  | inr (text, found) ↦ elim (Option-cases (isolated_env root host.environ text)) [
    | inl malformed ↦ (
      λ h. cc (rw (found, malformed, verify_packages) at h),
      λ (t, env, port, f, parsed, got, runs). cc (f, found, parsed, malformed),
    )
    | inr (env, parsed) ↦ elim (Option-cases host.port) [
      | inl no_port ↦ (
        λ h.
            let stopped_there =
              and_then-true
                (run host (registry_calls root env) (tars_copied (public_tars stage) ∷ []))
                (serve host root env stage none) log
                (rw (found, parsed, no_port, verify_packages) at h) in
            cc (stopped_there.1),
        λ (t, e, port, f, p, got, runs). cc (got, no_port),
      )
      | inr (port, got) ↦
          let does = Does-block host root env stage port [] log in
          (
            λ h.
                let ((u, v), f, e) = does.0 (rw (found, parsed, got, verify_packages) at h) in
                (text, env, port, found, parsed, got, (v.1, f, e)),
            λ (t, env2, port2, f, p, g, runs).
                let same_env : env2 ≡ env = cc (f, found, p, parsed) in
                let same_port : port2 ≡ port = cc (g, got) in
                let (can, follows, e) =
                  subst (Runs host root stage log env) same_port
                    (subst (λ v. Runs host root stage log v port2) same_env runs) in
                rw (found, parsed, got, verify_packages) (does.1 ((tt, (tt, can)), follows, e)),
          )
    ]
  ]
]

exit-returned_iff :
    (outcome : Outcome) (done : Done) (log : Log)
    → (exit outcome done ≡ (returned 0, log)) ↔ ((outcome ≡ returned 0) × (done ≡ (true, log)))
unfolding exit
exit-returned_iff raised done log = (λ h. cc h, λ (e, d). cc e)
exit-returned_iff (returned code) (true, out) log = elim (Bool-cases (code == 0)) [
  | inl good ↦
      let zero = (nat_beq_iff code 0).0 good in
      (
        λ h. (ap returned zero, ap (λ r. (true, r.1)) (rw good at h)),
        λ (e, d). rw good (ap (λ r. (returned 0, r.1)) d),
      )
  | inr bad ↦ (
    λ h. cc (rw bad at h),
    λ (e, d). let zero : code ≡ 0 = cc e in cc (bad, (nat_beq_iff code 0).1 zero),
  )
]
exit-returned_iff (returned code) (false, out) log = elim (Bool-cases (code == 0)) [
  | inl good ↦ (λ h. cc (rw good at h), λ (e, d). cc d)
  | inr bad ↦ (λ h. cc (rw bad at h), λ (e, d). cc d)
]

-- verify_packages.py returns 0 exactly if the inspection of the release does, .tool-versions is
-- there and each of its lines has a tool and a version, the server gets a port, every package can be
-- laid out beside its tests, and every command succeeds behind what was done before it; and then
-- what it has done is: the registry of the inspected tarballs, and with the server started, for
-- each package in publication order, the mix.exs that names the registry, and after it
-- `mix deps.get`, `mix compile`, `mix test` and `mix docs`, and the shutdown.
pub main_iff :
    (repo : Repository) (hex : Hex) (host : Host) (root : String) (before : Stage) (log : Log)
    → (main repo hex host root before ≡ (returned 0, log)) ↔ (
        (stage : Stage) × (command_inspect repo hex "0.1.0" before ≡ (returned 0, stage))
        × Passes host root stage log)
unfolding main
main_iff repo hex host root before log =
    let inspection = command_inspect repo hex "0.1.0" before in
    let ending = exit-returned_iff inspection.0 (verify_packages host root inspection.1) log in
    (
      λ h.
          let (ended, done) = ending.0 h in
          (
            inspection.1,
            ap (λ o. (o, inspection.1)) ended,
            (verify_packages_iff host root inspection.1 log).0 done,
          ),
      λ (stage, inspected, passes).
          let done = (verify_packages_iff host root stage log).1 passes in
          ending.1 (
            ap (λ r. r.0) inspected,
            subst (λ s. verify_packages host root s ≡ (true, log)) (sym (ap (λ r. r.1) inspected))
                done,
          ),
    )
