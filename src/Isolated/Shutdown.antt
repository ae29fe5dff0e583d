-- ===== src/Isolated/Shutdown.antt =====
-- The server of the registry is shut down on every path.
use mathlib.Core.Path.{subst}
use mathlib.Core.List.{append_assoc}
use autonomic.Common.{
  String, true, false, Option, none, some, List, [], ◌∷◌, ◌++◌, ◌≡◌, ◌≢◌, ◌⊎◌, sym, ap, ◌∙◌, inl,
  inr, All, All-append, ◌==◌, nat_eq, Bool-cases, Option-cases,
}
use autonomic.Release.Packages.{topological_order, Repository}
use autonomic.Release.Stage.{Stage, Outcome, returned, raised}
use autonomic.Release.Build.{Hex}
use autonomic.Release.Inspect.{command_inspect}
use autonomic.Isolated.Environment.{Environ, isolated_env}
use autonomic.Isolated.Adds.{IsFine, run-Adds, and_then-Adds, verify_all-Adds}
use autonomic.Isolated.{
  Subprocess, Event, tars_copied, served, stopped, Log, Host, Done, and_then, run, package_calls,
  verify_all, registry_calls, repo_call, with_server, serve, public_tars, verify_packages, exit,
  main,
}

-- Neither the start nor the end of the server.
abbrev pub IsQuiet : Event → Type 0
IsQuiet e = (e ≢ served) × (e ≢ stopped)

IsFine-calls : (calls : List Subprocess) → All (IsFine IsQuiet) calls
IsFine-calls [] = tt
IsFine-calls (call ∷ calls) = (λ ok. (λ e. cc e, λ e. cc e), IsFine-calls calls)

-- The server was never started, or it was started once and shut down once, at the very end.
abbrev pub IsClosed : Log → Type 0
IsClosed log =
    All IsQuiet log
    ⊎ ((earlier : Log) × (during : Log) × (log ≡ earlier ++ (served ∷ (during ++ (stopped ∷ []))))
        × All IsQuiet earlier
        × All IsQuiet during)

with_server-IsClosed :
    (host : Host) (root : String) (env : Environ) (stage : Stage) (port : String) (log : Log)
    → All IsQuiet log
    → IsClosed (with_server host root env stage port log).1
unfolding with_server
with_server-IsClosed host root env stage port log quiet =
    let (during, e, qs) =
      and_then-Adds IsQuiet (log ++ (served ∷ []))
        (run host (repo_call root env port ∷ []) (log ++ (served ∷ [])))
        (verify_all host root env stage topological_order)
        (run-Adds IsQuiet host (repo_call root env port ∷ []) (log ++ (served ∷ []))
          (IsFine-calls (repo_call root env port ∷ [])))
        (λ l.
          verify_all-Adds IsQuiet host root env stage topological_order l
            (λ pkg. (λ e. cc e, λ e. cc e)) (λ pkg. IsFine-calls (package_calls root env pkg))) in
    inr (
      log,
      during,
      ap (λ l. l ++ (stopped ∷ [])) e
          ∙ append_assoc (log ++ (served ∷ [])) during (stopped ∷ [])
          ∙ append_assoc log (served ∷ []) (during ++ (stopped ∷ [])),
      quiet,
      qs,
    )

and_then-IsClosed :
    (first : Done) (next : Log → Done)
    → All IsQuiet first.1
    → ((l : Log) → All IsQuiet l → IsClosed (next l).1)
    → IsClosed (and_then first next).1
unfolding and_then
and_then-IsClosed (false, l) next q qs = inl q
and_then-IsClosed (true, l) next q qs = qs l q

serve-IsClosed :
    (host : Host) (root : String) (env : Environ) (stage : Stage) (port : Option String) (log : Log)
    → All IsQuiet log
    → IsClosed (serve host root env stage port log).1
unfolding serve
serve-IsClosed host root env stage none log quiet = inl quiet
serve-IsClosed host root env stage (some port) log quiet =
    with_server-IsClosed host root env stage port log quiet

verify_packages-IsClosed :
    (host : Host) (root : String) (stage : Stage) → IsClosed (verify_packages host root stage).1
unfolding verify_packages
verify_packages-IsClosed host root stage = elim (Option-cases host.tool_versions) [
  | inl missing ↦ rw (missing, verify_packages) (inl tt)
  | inr (text, found) ↦ elim (Option-cases (isolated_env root host.environ text)) [
    | inl malformed ↦ rw (found, malformed, verify_packages) (inl tt)
    | inr (env, parsed) ↦
        let start = tars_copied (public_tars stage) ∷ [] in
        let (events, e, quiet) =
          run-Adds IsQuiet host (registry_calls root env) start
            (IsFine-calls (registry_calls root env)) in
        let before : All IsQuiet (run host (registry_calls root env) start).1 =
          subst (All IsQuiet) (sym e)
            (All-append IsQuiet start events ((λ q. cc q, λ q. cc q), tt) quiet) in
        rw (found, parsed, verify_packages)
          (and_then-IsClosed (run host (registry_calls root env) start)
            (serve host root env stage host.port) before
            (serve-IsClosed host root env stage host.port))
  ]
]

exit-IsClosed : (outcome : Outcome) (done : Done) → IsClosed done.1 → IsClosed (exit outcome done).1
unfolding exit
exit-IsClosed raised done closed = inl tt
exit-IsClosed (returned code) (ok, log) closed = elim (Bool-cases (code == 0)) [
  | inl good ↦ rw good closed
  | inr bad ↦ rw bad (inl tt)
]

-- However verify_packages.py ends, by a return or by an exception at any point, the server of the
-- registry was never started, or it was started once and shut down once, as the last thing done.
pub main-IsClosed :
    (repo : Repository) (hex : Hex) (host : Host) (root : String) (before : Stage)
    → IsClosed (main repo hex host root before).1
unfolding main
main-IsClosed repo hex host root before =
    let inspection = command_inspect repo hex "0.1.0" before in
    exit-IsClosed inspection.0 (verify_packages host root inspection.1)
      (verify_packages-IsClosed host root inspection.1)
