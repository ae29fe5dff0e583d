-- ===== src/Isolated/Every.antt =====
-- What holds of every event of a run of verify_packages.py.
use mathlib.Core.Path.{subst}
use autonomic.Common.{
  ℕ, String, Option, none, some, List, [], ◌∷◌, ◌++◌, ◌≡◌, sym, inl, inr, All, ◌==◌, nat_eq,
  Bool-cases, Option-cases,
}
use autonomic.Release.Packages.{topological_order, Repository}
use autonomic.Release.Stage.{Stage, Outcome, returned, raised}
use autonomic.Release.Build.{Hex}
use autonomic.Release.Inspect.{read_entry, command_inspect}
use autonomic.Isolated.Environment.{Environ, isolated_env}
use autonomic.Isolated.{
  Event, tars_copied, served, stopped, prepared, Log, Host, Done, and_then, run, unpacked,
  registry_mix, package_calls, verify_all, registry_calls, repo_call, with_server, serve,
  public_tars, verify_packages, exit, main,
}
use autonomic.Isolated.Adds.{
  Adds, Adds-refl, Adds-trans, Adds-event, IsFine, run-Adds, and_then-Adds, verify_all-Adds,
}

module _ (P : Event → Type 0) (host : Host) (root : String) (stage : Stage) where
  -- What the predicate must hold of.
  pub record Covers : Type 0 where
    pub tars : P (tars_copied (public_tars stage))
    pub start : P served
    pub end : P stopped
    pub mix :
        (pkg : String) → P (prepared pkg (registry_mix (read_entry (unpacked stage pkg) "mix.exs")))
    pub registry :
        (text : List ℕ) (env : Environ)
        → isolated_env root host.environ text ≡ some env
        → All (IsFine P) (registry_calls root env)
    pub repo :
        (text : List ℕ) (env : Environ) (port : String)
        → isolated_env root host.environ text ≡ some env
        → IsFine P (repo_call root env port)
    pub package_runs :
        (text : List ℕ) (env : Environ) (pkg : String)
        → isolated_env root host.environ text ≡ some env
        → All (IsFine P) (package_calls root env pkg)

  module _ (c : Covers) (text : List ℕ) (env : Environ)
      (parsed : isolated_env root host.environ text ≡ some env) where
    serve-Adds :
        (port : Option String) (log : Log) → Adds P log (serve host root env stage port log).1
    unfolding serve with_server
    serve-Adds none log = Adds-refl P log
    serve-Adds (some port) log =
        let start = log ++ (served ∷ []) in
        let inner =
          and_then-Adds P start (run host (repo_call root env port ∷ []) start)
            (verify_all host root env stage topological_order)
            (run-Adds P host (repo_call root env port ∷ []) start (c.repo text env port parsed, tt))
            (λ l.
              verify_all-Adds P host root env stage topological_order l c.mix
                (λ pkg. c.package_runs text env pkg parsed)) in
        Adds-trans P log start _ (Adds-event P log served c.start)
          (Adds-trans P start _ _ inner (Adds-event P _ stopped c.end))

    block-Adds :
        Adds P
          (tars_copied (public_tars stage) ∷ [])
          (and_then
            (run host (registry_calls root env) (tars_copied (public_tars stage) ∷ []))
            (serve host root env stage host.port)).1
    block-Adds =
        and_then-Adds P (tars_copied (public_tars stage) ∷ []) _
          (serve host root env stage host.port)
          (run-Adds P host (registry_calls root env) _ (c.registry text env parsed))
          (serve-Adds host.port)

  verify_packages-All : Covers → All P (verify_packages host root stage).1
  unfolding verify_packages
  verify_packages-All c = elim (Option-cases host.tool_versions) [
    | inl missing ↦ rw (missing, verify_packages) tt
    | inr (text, found) ↦ elim (Option-cases (isolated_env root host.environ text)) [
      | inl malformed ↦ rw (found, malformed, verify_packages) tt
      | inr (env, parsed) ↦
          let (events, e, all) = block-Adds c text env parsed in
          rw (found, parsed, verify_packages) (subst (All P) (sym e) (c.tars, all))
    ]
  ]

exit-All :
    (P : Event → Type 0) (outcome : Outcome) (done : Done)
    → All P done.1
    → All P (exit outcome done).1
unfolding exit
exit-All P raised done all = tt
exit-All P (returned code) (ok, log) all = elim (Bool-cases (code == 0)) [
  | inl good ↦ rw good all
  | inr bad ↦ rw bad tt
]

-- On every path, whatever covers the script's events holds of each event of a run.
pub main-All :
    (P : Event → Type 0) (repo : Repository) (hex : Hex) (host : Host) (root : String)
    (before : Stage)
    → Covers P host root (command_inspect repo hex "0.1.0" before).1
    → All P (main repo hex host root before).1
unfolding main
main-All P repo hex host root before c =
    let inspection = command_inspect repo hex "0.1.0" before in
    exit-All P inspection.0 (verify_packages host root inspection.1)
      (verify_packages-All P host root inspection.1 c)
