-- ===== src/Isolated/Adds.antt =====
-- What holds of every event that a step adds to the log.
use mathlib.Core.List.{append_assoc, append-nil}
use autonomic.Common.{
  String, Bool, true, false, List, [], ◌∷◌, ◌++◌, ◌≡◌, refl, sym, ap, ◌∙◌, inl, inr, All,
  All-append, Bool-cases,
}
use autonomic.Release.Stage.{Stage}
use autonomic.Release.Inspect.{read_entry}
use autonomic.Isolated.Environment.{Environ}
use autonomic.Isolated.{
  Subprocess, Event, ran, prepared, Log, Host, Done, and_then, run, unpacked, registry_mix,
  package_calls, can_prepare, verify_all,
}

module _ (P : Event → Type 0) where
  -- The log goes on with events of which P holds.
  abbrev pub Adds : Log → Log → Type 0
  Adds log after = (events : Log) × (after ≡ log ++ events) × All P events

  pub Adds-refl : (log : Log) → Adds log log
  Adds-refl log = ([], sym (append-nil log), tt)

  pub Adds-trans : (a b c : Log) → Adds a b → Adds b c → Adds a c
  Adds-trans a b c (es, e, qs) (fs, f, rs) =
      (es ++ fs, f ∙ ap (λ l. l ++ fs) e ∙ append_assoc a es fs, All-append P es fs qs rs)

  pub Adds-event : (log : Log) (e : Event) → P e → Adds log (log ++ (e ∷ []))
  Adds-event log e q = (e ∷ [], refl, (q, tt))

  -- Of the command's run P holds, whether it succeeds or not.
  abbrev pub IsFine : Subprocess → Type 0
  IsFine call = (ok : Bool) → P (ran ok call)

  pub run-Adds :
      (host : Host) (calls : List Subprocess) (log : Log)
      → All IsFine calls
      → Adds log (run host calls log).1
  unfolding run
  run-Adds host [] log fine = Adds-refl log
  run-Adds host (call ∷ calls) log (f, fs) = elim (Bool-cases (host.succeeds log call)) [
    | inl good ↦ rw good (
        Adds-trans log (log ++ (ran true call ∷ [])) _ (Adds-event log (ran true call) (f true))
          (run-Adds host calls (log ++ (ran true call ∷ [])) fs))
    | inr bad ↦ rw bad (Adds-event log (ran false call) (f false))
  ]

  pub and_then-Adds :
      (log : Log) (first : Done) (next : Log → Done)
      → Adds log first.1
      → ((l : Log) → Adds l (next l).1)
      → Adds log (and_then first next).1
  unfolding and_then
  and_then-Adds log (false, l) next q qs = q
  and_then-Adds log (true, l) next q qs = Adds-trans log l (next l).1 q (qs l)

  pub verify_all-Adds :
      (host : Host) (root : String) (env : Environ) (stage : Stage) (pkgs : List String) (log : Log)
      → ((pkg : String)
          → P (prepared pkg (registry_mix (read_entry (unpacked stage pkg) "mix.exs"))))
      → ((pkg : String) → All IsFine (package_calls root env pkg))
      → Adds log (verify_all host root env stage pkgs log).1
  unfolding verify_all
  verify_all-Adds host root env stage [] log mix calls = Adds-refl log
  verify_all-Adds host root env stage (pkg ∷ pkgs) log mix calls =
      elim (Bool-cases (can_prepare host stage pkg)) [
        | inr cannot ↦ rw (cannot, verify_all) (Adds-refl log)
        | inl can ↦
            rw (can, verify_all)
              (and_then-Adds log _ (verify_all host root env stage pkgs)
                (Adds-trans log _ _ (Adds-event log _ (mix pkg))
                  (run-Adds host (package_calls root env pkg) _ (calls pkg)))
                (λ l. verify_all-Adds host root env stage pkgs l mix calls))
      ]
